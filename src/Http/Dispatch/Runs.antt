-- ===== src/Http/Dispatch/Runs.antt =====
-- Runs of the guard.
use opal_cpp.Common.{ℕ, ◌≡◌, refl, true, [], ◌∷◌, some, Bytes, codes, bytes_eq}
use opal_cpp.Http.Headers.{header_name_equals, ascii_lower, get, get_all, set, remove, add}
use opal_cpp.Http.Message.{HttpRequest, HttpResponse}
use opal_cpp.Http.TraceContext.{
  TraceContext, parse_traceparent, format_traceparent, generate_trace_context, generate_span_id,
  nonzero_hex, random_hex, random_digits, all_zeros, has_shape, has_fields, is_lower_hex,
  is_lower_hex_char, is_sampled,
}
use opal_cpp.Http.Dispatch.{
  threw, RequestHandler, is_one_identity, with_identity, ensure_inbound_trace_identity,
  value_or_empty, trace_id_or_empty, request_trace_id, internal_error, contained,
  invoke_handler_guarded, what_or_unknown, log_line,
}
use opal_cpp.Http.Dispatch.Guard.{
  IsIdentified, IsSettled, IsCorrelated, ensure_inbound_trace_identity_lem,
  invoke_handler_guarded_lem,
}

abbrev ask : HttpRequest
ask = record {
  method = codes "GET";
  target = codes "/";
  headers = (codes "tracestate", codes "a=b") ∷ [];
  body = [];
  peer_address = [];
}

abbrev ones : ℕ → ℕ
ones n = 0x1111111111111111

abbrev minted : TraceContext
minted = record {
  trace_id = codes "11111111111111111111111111111111";
  parent_id = codes "1111111111111111";
  sampled = true;
}

abbrev identified : HttpRequest
identified = record {
  method = codes "GET";
  target = codes "/";
  headers =
      (codes "traceparent", codes "00-11111111111111111111111111111111-1111111111111111-01") ∷ [];
  body = [];
  peer_address = [];
}

ensure_run : ensure_inbound_trace_identity 1 ones 0 ask ≡ some (identified, 3)
unfolding ensure_inbound_trace_identity is_one_identity with_identity get_all set add remove
    header_name_equals ascii_lower codes generate_trace_context generate_span_id nonzero_hex
    random_hex random_digits all_zeros format_traceparent
ensure_run = refl

ensure_inbound_trace_identity_lem_example :
    ((context : TraceContext) × IsIdentified identified context) × IsSettled ask identified
ensure_inbound_trace_identity_lem_example =
    ensure_inbound_trace_identity_lem 1 ones 0 ask identified 3 ensure_run

abbrev thrower : RequestHandler
thrower request = threw (some (codes "boom"))

abbrev failure : HttpResponse
failure = record {
  status = 500;
  headers =
      (codes "content-type", codes "application/json")
      ∷ (codes "x-correlation-id", codes "11111111111111111111111111111111")
      ∷ [];
  body =
      codes
        "{\"message\":\"internal error\",\"correlationId\":\"11111111111111111111111111111111\"}";
  operation = [];
}

abbrev failure_log : Bytes
failure_log =
    codes
      "opal: handler threw; correlation-id=11111111111111111111111111111111 request=\"GET /\" what=\"boom\"\n"

invoke_run : invoke_handler_guarded 1 ones 0 (some thrower) ask ≡ some (failure, failure_log)
unfolding invoke_handler_guarded contained internal_error log_line what_or_unknown request_trace_id
    trace_id_or_empty value_or_empty parse_traceparent has_shape has_fields is_lower_hex
    is_lower_hex_char is_sampled bytes_eq get ensure_inbound_trace_identity is_one_identity
    with_identity get_all set add remove header_name_equals ascii_lower codes generate_trace_context
    generate_span_id nonzero_hex random_hex random_digits all_zeros format_traceparent
invoke_run = refl

invoke_handler_guarded_lem_example :
    (given : HttpRequest) × (context : TraceContext) × IsIdentified given context
    × IsSettled ask given
    × IsCorrelated context (threw (some (codes "boom"))) failure
invoke_handler_guarded_lem_example =
    invoke_handler_guarded_lem 1 ones 0 thrower ask failure failure_log invoke_run
