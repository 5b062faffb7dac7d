-- ===== src/EventStream/Envelope.antt =====
-- runtime/src/eventstream/envelope.cc: typed events and exceptions as messages.
mod Runs
use opal_cpp.Common.{
  ◌≡◌, refl, Bool, true, false, not, List, [], ◌∷◌, ◌++◌, Option, none, some, Bytes, bytes_eq,
  codes, if◌then◌else◌, Outcome, ok, err, ◌>>=◌, Error, serialization_error,
}
use opal_cpp.EventStream.Value.{HeaderValue, string_value}
use opal_cpp.EventStream.Frame.{Header, Message, find_header, string_of}

pub data EnvelopeKind : Type 0 where
  event exception : EnvelopeKind

pub record EventEnvelope : Type 0 where
  pub kind : EnvelopeKind
  pub type_name : Bytes
  pub content_type : Bytes
  pub payload : Bytes

abbrev pub message_type_header : Bytes
message_type_header = codes ":message-type"

abbrev pub content_type_header : Bytes
content_type_header = codes ":content-type"

-- `kEventMessageType` and `kExceptionMessageType`.
pub message_type : EnvelopeKind → Bytes
message_type event = codes "event"
message_type exception = codes "exception"

-- `kEventTypeHeader` and `kExceptionTypeHeader`.
pub type_header : EnvelopeKind → Bytes
type_header event = codes ":event-type"
type_header exception = codes ":exception-type"

-- `Malformed` of the envelope.
pub malformed_envelope : Bytes → Error
malformed_envelope what = serialization_error (codes "eventstream envelope: " ++ what)

pub string_header : Bytes → Bytes → Header
string_header name text = record { name = name; value = string_value text }

-- `MakeMessage` of one kind; the content type is left out when it is empty.
pub content_header : Bytes → List Header
content_header [] = []
content_header (c ∷ content_type) = string_header content_type_header (c ∷ content_type) ∷ []

pub make_message : EnvelopeKind → Bytes → Bytes → Bytes → Message
make_message kind type_name content_type payload = record {
  headers =
      string_header message_type_header (message_type kind)
      ∷ string_header (type_header kind) type_name
      ∷ content_header content_type;
  payload = payload;
}

-- `MakeEventMessage` and `MakeExceptionMessage`.
pub make_event_message : Bytes → Bytes → Bytes → Message
make_event_message type_name content_type payload =
    make_message event type_name content_type payload

pub make_exception_message : Bytes → Bytes → Bytes → Message
make_exception_message type_name content_type payload =
    make_message exception type_name content_type payload

-- The text of a header that has to be a string: `missing` and `other` say what is wrong.
pub text_of : Error → Error → Option HeaderValue → Outcome Bytes
text_of missing other none = err missing
text_of missing other (some value) = elim (string_of value) [
  | none ↦ err other
  | some text ↦ ok text
]

pub content_of : Option HeaderValue → Outcome Bytes
content_of none = ok []
content_of (some value) =
    text_of (malformed_envelope [])
      (malformed_envelope (codes ":content-type header is not a string")) (some value)

pub kind_of : Bytes → Outcome EnvelopeKind
kind_of text =
    if bytes_eq text (message_type event)
    then ok event
    else if bytes_eq text (message_type exception)
    then ok exception
    else err (malformed_envelope (codes "unknown :message-type: " ++ text))

-- `ParseEnvelope`.
pub parse_envelope : Message → Outcome EventEnvelope
parse_envelope message =
    text_of (malformed_envelope (codes "missing :message-type header"))
      (malformed_envelope (codes ":message-type header is not a string"))
      (find_header message_type_header message)
    >>= λ text. kind_of text >>= λ kind.
        text_of (malformed_envelope (codes "missing " ++ (type_header kind ++ codes " header")))
          (malformed_envelope (type_header kind ++ codes " header is not a string"))
          (find_header (type_header kind) message)
        >>= λ type_name. content_of (find_header content_type_header message) >>= λ content_type.
            ok (record {
              kind = kind;
              type_name = type_name;
              content_type = content_type;
              payload = message.payload;
            })

-- An envelope is read back from the message that is made of it, whatever its type, content type and
-- payload are.
pub parse_envelope-make :
    (kind : EnvelopeKind) (type_name content_type payload : Bytes)
    → parse_envelope (make_message kind type_name content_type payload)
      ≡ ok (record {
        kind = kind;
        type_name = type_name;
        content_type = content_type;
        payload = payload;
      })
unfolding parse_envelope make_message content_header string_header content_of text_of kind_of
    message_type type_header find_header string_of bytes_eq codes
parse_envelope-make event type_name [] payload = refl
parse_envelope-make event type_name (c ∷ content_type) payload = refl
parse_envelope-make exception type_name [] payload = refl
parse_envelope-make exception type_name (c ∷ content_type) payload = refl
