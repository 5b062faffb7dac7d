-- ===== src/EventStream/Envelope/Runs.antt =====
-- Runs of the envelope.
use opal_cpp.Common.{◌≡◌, refl, [], codes, bytes_eq, ok}
use opal_cpp.EventStream.Frame.{find_header, string_of}
use opal_cpp.EventStream.Envelope.{
  exception, make_exception_message, make_message, string_header, content_header, message_type,
  type_header, parse_envelope, text_of, kind_of, content_of,
}

exception_run :
    parse_envelope (make_exception_message (codes "Slow") [] (codes "{}"))
    ≡ ok (record {
      kind = exception;
      type_name = codes "Slow";
      content_type = [];
      payload = codes "{}";
    })
unfolding make_exception_message make_message string_header content_header message_type type_header
    parse_envelope text_of kind_of content_of find_header string_of bytes_eq codes
exception_run = refl
