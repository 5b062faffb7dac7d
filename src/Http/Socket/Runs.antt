-- ===== src/Http/Socket/Runs.antt =====
-- Runs of the HTTP/1.1 reader and of the socket client and server.
use opal_cpp.Http.Dispatch.{RequestHandler, returned}
use opal_cpp.Common.{
  Lacks-find, ◌⊎◌, All, IsDigit, ℕ, ◌+◌, ◌≤◌, ◌≡◌, refl, arith, true, false, List, [], ◌∷◌, ◌++◌,
  map, Bytes, bytes_eq, codes, length, take, drop, sym, Lacks, ◌<◌, ◌^◌, cons-ne-nil, ok, err,
  if◌then◌else◌, decimal, decimal_loop, digits_value, find, cut, is_front, find_text,
}
use opal_cpp.Http.Headers.{
  Headers, Entry, get, get_all, has, has_value, add, set, remove, header_name_equals, ascii_lower,
  trim_spaces, trim_front, trim_back, is_blank, no_byte, splits_name, splits_value,
  valid_header_name, valid_header_value, find_unsafe_header,
}
use opal_cpp.Http.Message.{HttpRequest, HttpResponse}
use opal_cpp.Http.Http1.{
  Read, received, Http1Message, blank_line, max_header_bytes, head_loop, head_read, line_at,
  cut_line, read_field, fields_behind, read_fields, header_block, check_framing, is_no_digit,
  is_empty, declared_length, body_loop, exact_body, sized_body, framed_body, read_body, read_behind,
  read_http1_message, broken, parse_status_line, status_behind, plausible_status, atoi, skip_spaces,
  is_space, signed_front, digits_front,
}
use opal_cpp.Http.Http1.Framed.{IsFramed, read_http1_message-IsFramed}
use opal_cpp.Http.Http1.Lines.{trimmed, lines, field, IsField}
use opal_cpp.Http.Http1.Whole.{read-refused}
use opal_cpp.Http.Http1.Chunks.{concat, reads_of, AreChunks}
use opal_cpp.Http.Socket.{
  write_fields, safe_response, without_framing, replaced, server_fields, status_line, status_text,
  response_wire, read_response,
}
use opal_cpp.Http.Socket.Response.{read_response-safe, head_size}

-- A message that comes in two reads, cut in the blank line.
abbrev message_reads : List Read
message_reads =
    received (codes "POST /a HTTP/1.1\r\nHost: h\r\nContent-Length:  2\r\n\r")
    ∷ received (codes "\nhi")
    ∷ []

abbrev message_read : Http1Message
message_read = record {
  start_line = codes "POST /a HTTP/1.1";
  headers = (codes "Host", codes "h") ∷ (codes "Content-Length", codes "2") ∷ [];
  body = codes "hi";
}

message_run : read_http1_message message_reads false true 10 ≡ ok message_read
unfolding codes read_http1_message head_loop head_read find_text is_front read_behind cut_line
    line_at header_block read_fields read_field fields_behind cut find add trim_spaces trim_front
    trim_back is_blank check_framing get_all get has has_value header_name_equals ascii_lower
    read_body framed_body declared_length is_empty no_byte is_no_digit digits_value sized_body
    body_loop exact_body
message_run = refl

read_http1_message-IsFramed_example : IsFramed false 10 message_read
read_http1_message-IsFramed_example =
    read_http1_message-IsFramed message_reads false 10 message_read (omega arith) message_run

-- Framing that is refused.
conflicting_run :
    read_http1_message
      (received (codes "GET / HTTP/1.1\r\nContent-Length: 1\r\nContent-Length: 2\r\n\r\nxx") ∷ [])
      false
      true
      10
    ≡ err (broken (codes "conflicting content-length"))
unfolding codes read_http1_message head_loop head_read find_text is_front read_behind cut_line
    line_at header_block read_fields read_field fields_behind cut find add trim_spaces trim_front
    trim_back is_blank check_framing get_all header_name_equals ascii_lower
conflicting_run = refl

status_run : parse_status_line (codes "HTTP/1.1 204 No Content") ≡ ok 204
unfolding codes parse_status_line find status_behind is_front plausible_status atoi skip_spaces
    is_space signed_front digits_front is_no_digit
status_run = refl

abbrev ask : HttpRequest
ask = record {
  method = codes "GET";
  target = codes "/a";
  headers = (codes "accept", codes "*/*") ∷ [];
  body = [];
  peer_address = [];
}

-- A handler that tries to split its response.
abbrev given : HttpResponse
given = record {
  status = 200;
  headers = (codes "x", codes "a\r\nb: c") ∷ (codes "content-length", codes "9") ∷ [];
  body = codes "ok";
  operation = [];
}

abbrev give : RequestHandler
give request = returned given

abbrev ones : ℕ → ℕ
ones n = 0x1111111111111111

abbrev identified : HttpRequest
identified = record {
  method = codes "GET";
  target = codes "/a";
  headers =
      (codes "host", codes "h:80")
      ∷ (codes "content-length", codes "0")
      ∷ (codes "connection", codes "close")
      ∷ (codes "accept", codes "*/*")
      ∷ (codes "traceparent", codes "00-11111111111111111111111111111111-1111111111111111-01")
      ∷ [];
  body = [];
  peer_address = codes "peer";
}

given_safe : (safe_response given).status ≡ 500
unfolding safe_response replaced without_framing remove find_unsafe_header header_name_equals
    ascii_lower codes valid_header_name valid_header_value no_byte splits_name splits_value
given_safe = refl

abbrev fixed : HttpResponse
fixed = record {
  status = 500;
  headers = (codes "content-type", codes "text/plain") ∷ [];
  body = codes "internal error: response header contains forbidden bytes";
  operation = [];
}

safe_run : safe_response given ≡ fixed
unfolding safe_response replaced without_framing remove set add find_unsafe_header
    header_name_equals ascii_lower codes valid_header_name valid_header_value no_byte splits_name
    splits_value
safe_run = refl

abbrev wire_there : Bytes
wire_there =
    codes
      "GET /a HTTP/1.1\r\nhost: h:80\r\ncontent-length: 0\r\nconnection: close\r\naccept: */*\r\n\r\n"

abbrev wire_back : Bytes
wire_back =
    codes
      "HTTP/1.1 500 \r\ncontent-length: 56\r\nconnection: close\r\ncontent-type: text/plain\r\n\r\ninternal error: response header contains forbidden bytes"

back_run : response_wire false fixed ≡ wire_back
unfolding response_wire status_line status_text server_fields write_fields codes decimal
    decimal_loop
back_run = refl

abbrev split_at : ℕ → Bytes → List Bytes
split_at n text = take n text ∷ drop n text ∷ []

back_good :
    AreChunks (split_at 30 wire_back) × (concat (split_at 30 wire_back) ≡ response_wire false fixed)
unfolding codes
back_good = ((cons-ne-nil _ _, (cons-ne-nil _ _, tt)), sym back_run)

fixed_head : head_size fixed + 3 ≤ max_header_bytes
unfolding server_fields status_line status_text lines field codes decimal decimal_loop
fixed_head = omega arith

fixed_body : (length fixed.body ≤ 100) × (100 < 2 ^ 64)
unfolding codes
fixed_body = (omega arith, omega arith)

read_response-safe_example :
    read_response ask 100 (reads_of (split_at 30 wire_back))
    ≡ ok (record {
      status = (safe_response given).status;
      headers = map trimmed (server_fields (safe_response given));
      body = if bytes_eq ask.method (codes "HEAD") then [] else (safe_response given).body;
      operation = [];
    })
read_response-safe_example =
    read_response-safe ask given 100 (split_at 30 wire_back)
      (rw safe_run (omega arith, omega arith)) (rw safe_run fixed_head) (rw safe_run fixed_body)
      back_good.0 (rw safe_run (unfold bytes_eq codes in back_good.1))

-- Two lengths.
abbrev one_length : Entry
one_length = (codes "content-length", codes "1")

abbrev two_lengths : Bytes
two_lengths = codes "GET / HTTP/1.1\r\ncontent-length: 1\r\ncontent-length: 1\r\n\r\nx"

IsField-one_length : IsField one_length
unfolding find codes
IsField-one_length = (
  cons-ne-nil _ _,
  Lacks-find b':' (codes "content-length") refl,
  Lacks-find b'\r' (codes "content-length") refl,
  Lacks-find b'\r' (codes "1") refl,
)

Lacks-first : Lacks b'\r' (codes "GET / HTTP/1.1")
unfolding find codes
Lacks-first = Lacks-find b'\r' (codes "GET / HTTP/1.1") refl

lengths_head :
    length (lines (codes "GET / HTTP/1.1") (map field (one_length ∷ one_length ∷ []))) + 3
    ≤ max_header_bytes
unfolding lines field codes
lengths_head = omega arith

lengths_good :
    AreChunks (split_at 25 two_lengths)
    × (concat (split_at 25 two_lengths)
        ≡ lines (codes "GET / HTTP/1.1") (map field (one_length ∷ one_length ∷ []))
          ++ (blank_line ++ codes "x"))
unfolding lines field codes
lengths_good = ((cons-ne-nil _ _, (cons-ne-nil _ _, tt)), refl)

read-refused_example :
    let headers : Headers = map trimmed (one_length ∷ one_length ∷ []) in
    let result = read_http1_message (reads_of (split_at 25 two_lengths)) false true 10 in
    let values = get_all (codes "content-length") headers in
    (2 ≤ length values → result ≡ err (broken (codes "conflicting content-length")))
    × (length values ≤ 1
        → has (codes "transfer-encoding") headers ≡ true
        → result ≡ err (broken (codes "transfer-encoding is not supported")))
    × ((text : Bytes)
        → values ≡ text ∷ []
        → has (codes "transfer-encoding") headers ≡ false
        → true ≡ true
        → (text ≡ []) ⊎ ¬ All IsDigit text
        → result ≡ err (broken (codes "invalid content-length")))
read-refused_example =
    read-refused (codes "GET / HTTP/1.1") one_length (one_length ∷ []) (codes "x") false true 10
      (split_at 25 two_lengths) Lacks-first IsField-one_length (IsField-one_length, tt) lengths_head
      lengths_good.0 lengths_good.1
