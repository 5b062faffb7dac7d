-- ===== src/Http/Dispatch.antt =====
-- runtime/src/http/server_dispatch.cc: a handler run under the server's guard. The handler is an
-- argument that either returns a response or throws; an exception that is not a `std::exception`
-- has no message. `FormatPeerAddress` asks the resolver and is left out.
pub mod Guard
mod Runs
use opal_cpp.Common.{
  ℕ, ◌-◌, Bool, true, false, not, ◌&&◌, ◌||◌, List, [], ◌∷◌, ◌++◌, Option, none, some, Bytes, codes,
  length, ◌^◌, leb, ltb, ◌==◌, if◌then◌else◌,
}
use opal_cpp.Http.Headers.{Headers, get, get_all, has, set, remove}
use opal_cpp.Http.Message.{HttpRequest, HttpResponse}
use opal_cpp.Http.TraceContext.{
  TraceContext, parse_traceparent, format_traceparent, generate_trace_context,
}

pub data Attempt : Type 0 where
  returned : HttpResponse → Attempt
  threw : Option Bytes → Attempt

abbrev pub RequestHandler : Type 0
RequestHandler = HttpRequest → Attempt

-- Whether a traceparent parses.
unfoldable pub is_parsed : Option TraceContext → Bool
is_parsed none = false
is_parsed (some context) = true

-- `values.size() == 1 && ParseTraceparent(values.front()).has_value()`.
unfoldable pub is_one_identity : List Bytes → Bool
is_one_identity [] = false
is_one_identity (value ∷ []) = is_parsed (parse_traceparent value)
is_one_identity (value ∷ second ∷ values) = false

-- The request with a minted identity in its headers.
unfoldable pub with_identity : TraceContext → HttpRequest → HttpRequest
with_identity context request = record {
  method = request.method;
  target = request.target;
  headers =
      remove (codes "tracestate")
        (set (codes "traceparent") (format_traceparent context) request.headers);
  body = request.body;
  peer_address = request.peer_address;
}

-- `EnsureInboundTraceIdentity`, with the rounds, the words and the position of the random engine.
unfoldable pub ensure_inbound_trace_identity :
    ℕ → (ℕ → ℕ) → ℕ → HttpRequest → Option (HttpRequest × ℕ)
ensure_inbound_trace_identity fuel engine drawn request =
    if is_one_identity (get_all (codes "traceparent") request.headers)
    then some (request, drawn)
    else elim (generate_trace_context fuel engine drawn) [
      | none ↦ none
      | some (context, drawn') ↦ some (with_identity context request, drawn')
    ]

pub value_or_empty : Option Bytes → Bytes
value_or_empty none = []
value_or_empty (some value) = value

pub trace_id_or_empty : Option TraceContext → Bytes
trace_id_or_empty none = []
trace_id_or_empty (some context) = context.trace_id

-- `RequestTraceId`.
pub request_trace_id : HttpRequest → Bytes
request_trace_id request =
    trace_id_or_empty
      (parse_traceparent (value_or_empty (get (codes "traceparent") request.headers)))

-- The line that `InternalError` writes to the log.
pub log_line : HttpRequest → Bytes → Bytes
log_line request what =
    codes "opal: handler threw; correlation-id="
    ++ (request_trace_id request
        ++ (codes " request=\""
            ++ (request.method
                ++ (codes " "
                    ++ (request.target ++ (codes "\" what=\"" ++ (what ++ codes "\"\n")))))))

-- `InternalError`: the response and the log line.
unfoldable pub internal_error : HttpRequest → Bytes → HttpResponse × Bytes
internal_error request what = (
  record {
    status = 500;
    headers =
        set (codes "x-correlation-id") (request_trace_id request)
          (set (codes "content-type") (codes "application/json") []);
    body =
        codes "{\"message\":\"internal error\",\"correlationId\":\""
        ++ (request_trace_id request ++ codes "\"}");
    operation = [];
  },
  log_line request what,
)

-- `status < 500` of a status that is held by its 32 bits.
unfoldable pub is_below_500 : ℕ → Bool
is_below_500 status = ltb status 500 || leb (2 ^ 31) status

-- `CorrelateServerError`.
unfoldable pub correlate_server_error : HttpRequest → HttpResponse → HttpResponse
correlate_server_error request response =
    if is_below_500 response.status || has (codes "x-correlation-id") response.headers
    then response
    else record {
      status = response.status;
      headers = set (codes "x-correlation-id") (request_trace_id request) response.headers;
      body = response.body;
      operation = response.operation;
    }

unfoldable pub what_or_unknown : Option Bytes → Bytes
what_or_unknown none = codes "unknown exception"
what_or_unknown (some what) = what

-- `Contain` around the handler.
unfoldable pub contained : HttpRequest → Attempt → HttpResponse × Bytes
contained request (returned response) = (correlate_server_error request response, [])
contained request (threw what) = internal_error request (what_or_unknown what)

-- `InvokeHandlerGuarded`: the response and what it logs. `none` stands for a random engine that
-- gives zeros in every round.
unfoldable pub invoke_handler_guarded :
    ℕ → (ℕ → ℕ) → ℕ → Option RequestHandler → HttpRequest → Option (HttpResponse × Bytes)
invoke_handler_guarded fuel engine drawn none request =
    some (record { status = 503; headers = []; body = []; operation = [] }, [])
invoke_handler_guarded fuel engine drawn (some handler) request =
    elim (ensure_inbound_trace_identity fuel engine drawn request) [
      | none ↦ none
      | some (identified, drawn') ↦ some (contained identified (handler identified))
    ]
