-- ===== src/Http/Socket.antt =====
-- runtime/src/http/socket_transport.cc: what the socket client and server make of a request and a
-- response. The sockets are arguments: what the client's connection gives for what is written to
-- it, and what the server's connection answers to its reads.
pub mod Fields
pub mod Response
pub mod Sendable
pub mod Request
mod Runs
use opal_cpp.Common.{
  ℕ, ◌+◌, ◌-◌, ◌^◌, leb, Bool, true, false, not, ◌&&◌, ◌||◌, List, [], ◌∷◌, ◌++◌, Option, none,
  some, Bytes, codes, bytes_eq, length, if◌then◌else◌, and_then, Outcome, ok, err, ◌>>=◌, Error,
  validation_error, decimal,
}
use opal_cpp.Http.Headers.{
  Headers, Entry, has, set, remove, find_unsafe_header, valid_request_line_field,
}
use opal_cpp.Http.Message.{HttpRequest, HttpResponse}
use opal_cpp.Http.Dispatch.{RequestHandler, invoke_handler_guarded}
use opal_cpp.Http.Http1.{
  Read, Http1Message, crlf, is_empty, default_max_body_bytes, read_http1_message,
  parse_request_line, parse_status_line,
}

-- The tests of `SocketHttpClient::Send` before it connects.
unfoldable pub unsafe_headers : Option Bytes → Option Error
unsafe_headers none = none
unsafe_headers (some name) = some (
    validation_error
      (codes "http: request header \"" ++ (name ++ codes "\" contains forbidden bytes")))

unfoldable pub refusal : HttpRequest → Option Error
refusal request =
    if is_empty request.method || not (valid_request_line_field request.method)
    then some (validation_error (codes "http: request method contains forbidden bytes or is empty"))
    else if not (valid_request_line_field request.target)
    then some (validation_error (codes "http: request target contains forbidden bytes"))
    else unsafe_headers (find_unsafe_header request.headers)

-- The loop that writes header fields, each with its line end.
unfoldable pub write_fields : Headers → Bytes
write_fields [] = []
write_fields ((name, value) ∷ entries) =
    name ++ (b':' ∷ b' ' ∷ (value ++ (crlf ++ write_fields entries)))

abbrev pub content_length_field : Bytes → Entry
content_length_field body = (codes "content-length", decimal (length body))

abbrev pub connection_field : Entry
connection_field = (codes "connection", codes "close")

abbrev pub host_field : Bytes → ℕ → Entry
host_field host port = (codes "host", host ++ (b':' ∷ decimal port))

-- The fields that the client puts before those of the request.
unfoldable pub client_fields : Bytes → ℕ → HttpRequest → Headers
client_fields host port request =
    host_field host port
    ∷ ((if has (codes "content-length") request.headers
          then []
          else content_length_field request.body ∷ [])
        ++ (connection_field ∷ request.headers))

unfoldable pub request_line : HttpRequest → Bytes
request_line request = request.method ++ (b' ' ∷ (request.target ++ codes " HTTP/1.1"))

unfoldable pub request_wire : Bytes → ℕ → HttpRequest → Bytes
request_wire host port request =
    request_line request
    ++ (crlf ++ (write_fields (client_fields host port request) ++ (crlf ++ request.body)))

-- `ReadMessage` of the client and what is made of the message.
unfoldable pub response_of : Http1Message → Outcome HttpResponse
response_of message = parse_status_line message.start_line >>= λ status.
    ok (record { status = status; headers = message.headers; body = message.body; operation = [] })

unfoldable pub read_response : HttpRequest → ℕ → List Read → Outcome HttpResponse
read_response request limit reads =
    read_http1_message reads true (not (bytes_eq request.method (codes "HEAD"))) limit
    >>= response_of

-- `SocketHttpClient::Send`. `exchange` stands for the resolver and the socket: an error, or what
-- comes back for the bytes that are written.
unfoldable pub send_unless :
    Option Error
    → (Bytes → Outcome (List Read))
    → Bytes
    → (List Read → Outcome HttpResponse)
    → Outcome HttpResponse
send_unless (some failure) exchange wire answer = err failure
send_unless none exchange wire answer = exchange wire >>= answer

unfoldable pub client_send :
    Bytes → ℕ → ℕ → (Bytes → Outcome (List Read)) → HttpRequest → Outcome HttpResponse
client_send host port limit exchange request =
    send_unless (refusal request) exchange (request_wire host port request)
      (read_response request limit)

-- The request that the server makes of a message.
unfoldable pub request_of : Bytes → Http1Message → Option (Bytes × Bytes) → Option HttpRequest
request_of peer_address message none = none
request_of peer_address message (some (method, target)) = some (record {
  method = method;
  target = target;
  headers = message.headers;
  body = message.body;
  peer_address = peer_address;
})

abbrev pub plain_response : ℕ → Bytes → HttpResponse
plain_response status body = record { status = status; headers = []; body = body; operation = [] }

-- The response and whether the request was a HEAD. `run` is the guarded handler.
unfoldable pub answer :
    (HttpRequest → Option HttpResponse) → Option HttpRequest → Option (Bool × HttpResponse)
answer run none = some (false, plain_response 400 (codes "malformed request line"))
answer run (some request) =
    and_then (run request) (λ response. some (bytes_eq request.method (codes "HEAD"), response))

unfoldable pub respond :
    (HttpRequest → Option HttpResponse)
    → Bytes
    → Outcome Http1Message
    → Option (Bool × HttpResponse)
respond run peer_address (err failure) = some (false, plain_response 400 failure.message)
respond run peer_address (ok message) =
    answer run (request_of peer_address message (parse_request_line message.start_line))

-- What the server takes out of a response, and what it puts in place of one that cannot be written.
unfoldable pub without_framing : HttpResponse → HttpResponse
without_framing response = record response {
  headers =
      remove (codes "connection")
        (remove (codes "transfer-encoding") (remove (codes "content-length") response.headers));
}

unfoldable pub replaced : HttpResponse → Option Bytes → HttpResponse
replaced response none = response
replaced response (some name) = record {
  status = 500;
  headers = set (codes "content-type") (codes "text/plain") [];
  body = codes "internal error: response header contains forbidden bytes";
  operation = [];
}

unfoldable pub safe_response : HttpResponse → HttpResponse
safe_response response =
    replaced (without_framing response) (find_unsafe_header (without_framing response).headers)

-- `std::to_string` of an `int` that is held by its 32 bits.
unfoldable pub status_text : ℕ → Bytes
status_text status =
    if leb (2 ^ 31) status then b'-' ∷ decimal (2 ^ 32 - status) else decimal status

unfoldable pub status_line : HttpResponse → Bytes
status_line response = codes "HTTP/1.1 " ++ (status_text response.status ++ (b' ' ∷ []))

unfoldable pub server_fields : HttpResponse → Headers
server_fields response = content_length_field response.body ∷ connection_field ∷ response.headers

unfoldable pub response_wire : Bool → HttpResponse → Bytes
response_wire head response =
    status_line response
    ++ (crlf
        ++ (write_fields (server_fields response)
            ++ (crlf ++ (if head then [] else response.body))))

unfoldable pub wire_of : Bool × HttpResponse → Bytes
wire_of (head, response) = response_wire head (safe_response response)

-- One connection of `SocketHttpServer::AcceptLoop`: what is written for what is read. `none` is the
-- guard's, for a random engine that gives zeros only.
unfoldable pub serve : (HttpRequest → Option HttpResponse) → Bytes → List Read → Option Bytes
serve run peer_address reads =
    and_then (respond run peer_address (read_http1_message reads false true default_max_body_bytes))
      (λ answered. some (wire_of answered))

abbrev pub first_part : HttpResponse × Bytes → Option HttpResponse
first_part (response, logged) = some response

-- The guarded handler that the server runs.
unfoldable pub guarded : ℕ → (ℕ → ℕ) → ℕ → Option RequestHandler → HttpRequest → Option HttpResponse
guarded fuel engine drawn handler request =
    and_then (invoke_handler_guarded fuel engine drawn handler request) first_part
