-- ===== src/Http/Socket/Response.antt =====
-- What the socket client reads of what the socket server writes.
use opal_cpp.Common.{
  leb, if_elim, Lacks-find, ℕ, zero, suc, ◌+◌, ◌-◌, ◌*◌, ◌/◌, ◌%◌, ◌≤◌, ◌<◌, ◌^◌, ◌≡◌, ◌≢◌, refl,
  ap, ◌∙◌, arith, Bool, true, false, List, [], ◌∷◌, ◌++◌, map, Option, none, some, Bytes, codes,
  length, All, All-append, Lacks, decimal, decimal_loop, digits_value, digits_value-decimal,
  decimal-ne-nil, IsDigit, IsDigit-decimal, inl, inr, bytes_eq, Bool-cases, if◌then◌else◌, ltb,
  length-append, ok, cons-ne-nil, find, is_front,
}
use opal_cpp.Http.Headers.{
  get_all, has, set, add, remove, header_name_equals, ascii_lower, find_unsafe_header, trim_spaces,
}
use opal_cpp.Http.Headers.Store.{get_all-remove}
use opal_cpp.Http.Headers.Wire.{find_unsafe_header_iff}
use opal_cpp.Http.Message.{HttpRequest, HttpResponse}
use opal_cpp.Http.Http1.{
  max_header_bytes, is_no_digit, digits_front, is_space, skip_spaces, signed_front, atoi,
  plausible_status, status_behind, parse_status_line,
}
use opal_cpp.Http.Http1.Lines.{lines, field, IsField, trimmed}
use opal_cpp.Http.Http1.Chunks.{concat, reads_of, AreChunks}
use opal_cpp.Http.Http1.Whole.{declared_length-decimal, read-whole, read-head}
use opal_cpp.Http.Socket.{
  status_text, content_length_field, connection_field, server_fields, status_line, response_wire,
  without_framing, replaced, safe_response, response_of, read_response,
}
use opal_cpp.Http.Socket.Fields.{
  wire-lines, AreFields-writable, digits_lack, trim_spaces-digits, get_all-trimmed, has_of_none,
}

digits_front-digits :
    (text : Bytes) (n : ℕ)
    → All IsDigit text
    → digits_front n (text ++ (b' ' ∷ [])) ≡ digits_value n text
unfolding digits_front digits_value is_no_digit
digits_front-digits [] n h = refl
digits_front-digits (c ∷ text) n h =
    ground (arith, digits_front-digits text (n * 10 + (c - b'0')) h.1)

atoi-digits :
    (text : Bytes) → text ≢ [] → All IsDigit text → atoi (text ++ (b' ' ∷ [])) ≡ digits_value 0 text
unfolding atoi skip_spaces is_space signed_front
atoi-digits [] ne h = absurd (ne refl)
atoi-digits (c ∷ text) ne h = ground (arith, digits_front-digits (c ∷ text) 0 h)

loop_some : (fuel n : ℕ) → 1 ≤ length (decimal_loop fuel n)
unfolding decimal_loop
loop_some zero n = omega arith
loop_some (suc fuel) n = elim (Bool-cases (ltb n 10)) [
  | inl small ↦ rw small (omega arith)
  | inr large ↦
      rw large (omega (arith, length-append (decimal_loop fuel (n / 10)) ((n % 10 + b'0') ∷ [])))
]

length-decimal : (n : ℕ) → 10 ≤ n → 2 ≤ length (decimal n)
unfolding decimal decimal_loop
length-decimal zero big = absurd (omega arith)
length-decimal (suc n) big =
    let large : ltb (suc n) 10 ≡ false = ground arith in
    rw large (
      omega (
        arith,
        loop_some n (suc n / 10),
        length-append (decimal_loop n (suc n / 10)) ((suc n % 10 + b'0') ∷ []),
      ))

status_text-range : (status : ℕ) → status ≤ 599 → status_text status ≡ decimal status
unfolding status_text
status_text-range status h = let small : leb (2 ^ 31) status ≡ false = ground arith in rw small refl

parse_status_line-written :
    (response : HttpResponse)
    → (100 ≤ response.status) × (response.status ≤ 599)
    → parse_status_line (status_line response) ≡ ok response.status
unfolding parse_status_line status_line status_behind plausible_status find is_front codes
parse_status_line-written response range =
    let long : 3 ≤ length (decimal response.status ++ (b' ' ∷ [])) = omega (
      arith,
      length-decimal response.status (omega arith),
      length-append (decimal response.status) (b' ' ∷ []),
    ) in
    let read : atoi (decimal response.status ++ (b' ' ∷ [])) ≡ response.status =
      atoi-digits (decimal response.status) (decimal-ne-nil response.status)
        (IsDigit-decimal response.status)
      ∙ digits_value-decimal response.status in
    rw (status_text-range response.status range.1) (ground (arith, long, read))

-- A response that the server writes, whatever the handler gave.
record IsWritten (response : HttpResponse) : Type 0 where
  fields : All IsField response.headers
  no_length : get_all (codes "content-length") response.headers ≡ []
  no_encoding : get_all (codes "transfer-encoding") response.headers ≡ []

no_framing :
    (response : HttpResponse)
    → (get_all (codes "content-length") (without_framing response).headers ≡ [])
      × (get_all (codes "transfer-encoding") (without_framing response).headers ≡ [])
unfolding without_framing header_name_equals ascii_lower codes
no_framing response = (
  get_all-remove _ _ _ ∙ get_all-remove _ _ _ ∙ get_all-remove _ _ response.headers,
  get_all-remove _ _ _ ∙ get_all-remove _ _ _,
)

IsWritten-replaced :
    (response : HttpResponse) (unsafe : Option Bytes)
    → find_unsafe_header (without_framing response).headers ≡ unsafe
    → IsWritten (replaced (without_framing response) unsafe)
unfolding find replaced set add remove get_all header_name_equals ascii_lower codes
IsWritten-replaced response none e = record {
  fields = AreFields-writable _ ((find_unsafe_header_iff (without_framing response).headers).0 e);
  no_length = (no_framing response).0;
  no_encoding = (no_framing response).1;
}
IsWritten-replaced response (some name) e = record {
  fields = (
    (
      cons-ne-nil _ _,
      Lacks-find b':' (codes "content-type") refl,
      Lacks-find b'\r' (codes "content-type") refl,
      Lacks-find b'\r' (codes "text/plain") refl,
    ),
    tt,
  );
  no_length = refl;
  no_encoding = refl;
}

IsWritten-safe_response : (response : HttpResponse) → IsWritten (safe_response response)
unfolding safe_response
IsWritten-safe_response response = IsWritten-replaced response _ refl

pub framing_fields : (body : Bytes) → IsField (content_length_field body) × IsField connection_field
unfolding find codes
framing_fields body = (
  (
    cons-ne-nil _ _,
    Lacks-find b':' (codes "content-length") refl,
    Lacks-find b'\r' (codes "content-length") refl,
    digits_lack b'\r' (decimal (length body)) (omega arith) (IsDigit-decimal (length body)),
  ),
  (
    cons-ne-nil _ _,
    Lacks-find b':' (codes "connection") refl,
    Lacks-find b'\r' (codes "connection") refl,
    Lacks-find b'\r' (codes "close") refl,
  ),
)

-- What the reader asks of the fields that the server writes.
own_length :
    (response : HttpResponse)
    → IsWritten response
    → get_all (codes "content-length") (map trimmed (server_fields response))
      ≡ decimal (length response.body) ∷ []
unfolding server_fields get_all header_name_equals ascii_lower codes
own_length response h =
    let trimmed_length : trim_spaces (decimal (length response.body))
        ≡ decimal (length response.body) =
      trim_spaces-digits _ (IsDigit-decimal (length response.body)) in
    let others : get_all (codes "content-length") (map trimmed response.headers) ≡ [] =
      get_all-trimmed _ response.headers ∙ ap (map trim_spaces) h.no_length in
    rw (trimmed_length, others) refl

own_encoding :
    (response : HttpResponse)
    → IsWritten response
    → has (codes "transfer-encoding") (map trimmed (server_fields response)) ≡ false
unfolding server_fields get_all header_name_equals ascii_lower codes
own_encoding response h =
    has_of_none _ _ (get_all-trimmed _ response.headers ∙ ap (map trim_spaces) h.no_encoding)

Lacks-status_text : (status : ℕ) → Lacks b'\r' (status_text status)
unfolding status_text
Lacks-status_text status =
    if_elim (Lacks b'\r') (leb (2 ^ 31) status) _ _
      (λ e. (ground arith, digits_lack b'\r' _ (omega arith) (IsDigit-decimal (2 ^ 32 - status))))
      (λ e. digits_lack b'\r' _ (omega arith) (IsDigit-decimal status))

Lacks-status_line : (response : HttpResponse) → Lacks b'\r' (status_line response)
unfolding status_line find codes
Lacks-status_line response =
    All-append _ (codes "HTTP/1.1 ") _ (Lacks-find b'\r' (codes "HTTP/1.1 ") refl) (
      All-append _ (status_text response.status) _ (Lacks-status_text response.status)
        (ground arith, tt))

-- The bytes of the header block that the server writes.
abbrev pub head_size : HttpResponse → ℕ
head_size response = length (lines (status_line response) (map field (server_fields response)))

module _ (request : HttpRequest) (response : HttpResponse) (limit : ℕ) (chunks : List Bytes)
    (range : (100 ≤ response.status) × (response.status ≤ 599))
    (fits : head_size response + 3 ≤ max_header_bytes)
    (capped : (length response.body ≤ limit) × (limit < 2 ^ 64)) (h : IsWritten response)
    (are_chunks : AreChunks chunks) where
  read_written :
      (head : Bool)
      → bytes_eq request.method (codes "HEAD") ≡ head
      → concat chunks ≡ response_wire head response
      → read_response request limit (reads_of chunks)
        ≡ ok (record {
          status = response.status;
          headers = map trimmed (server_fields response);
          body = if head then [] else response.body;
          operation = [];
        })
  unfolding read_response response_of response_wire server_fields
  read_written true is_head shape =
      let read =
        read-head (status_line response) (content_length_field response.body)
          (connection_field ∷ response.headers) [] (decimal (length response.body))
          (Lacks-status_line response) (framing_fields response.body).0
          ((framing_fields response.body).1, h.fields) true limit chunks are_chunks fits
          (shape
            ∙ wire-lines (status_line response) (content_length_field response.body)
                (connection_field ∷ response.headers) [])
          (own_length response h) (own_encoding response h) in
      rw (is_head, read, parse_status_line-written response range) refl
  read_written false is_head shape =
      let read =
        read-whole (status_line response) (content_length_field response.body)
          (connection_field ∷ response.headers) response.body (decimal (length response.body))
          (Lacks-status_line response) (framing_fields response.body).0
          ((framing_fields response.body).1, h.fields) true limit chunks are_chunks fits
          (shape
            ∙ wire-lines (status_line response) (content_length_field response.body)
                (connection_field ∷ response.headers) response.body)
          (
            own_length response h,
            own_encoding response h,
            declared_length-decimal (length response.body) (omega arith),
          )
          capped.0 in
      rw (is_head, read, parse_status_line-written response range) refl

-- Of a response with any headers and any body, what the server writes cannot be split: if the
-- response that it makes safe has a status from 100 to 599, a header block of at most 64 KiB and a body
-- within the client's limit, the client reads exactly one response, in whatever chunks the bytes come,
-- with that status, the server's content-length and connection before the headers that are left of those
-- given, their values trimmed, and the body, which is left out after a HEAD.
pub read_response-safe :
    (request : HttpRequest) (given : HttpResponse) (limit : ℕ) (chunks : List Bytes)
    → let response = safe_response given in
      let head = bytes_eq request.method (codes "HEAD") in
      (100 ≤ response.status) × (response.status ≤ 599)
      → head_size response + 3 ≤ max_header_bytes
      → (length response.body ≤ limit) × (limit < 2 ^ 64)
      → AreChunks chunks
      → concat chunks ≡ response_wire head response
      → read_response request limit (reads_of chunks)
        ≡ ok (record {
          status = response.status;
          headers = map trimmed (server_fields response);
          body = if head then [] else response.body;
          operation = [];
        })
read_response-safe request given limit chunks range fits capped are_chunks shape =
    read_written request (safe_response given) limit chunks range fits capped
      (IsWritten-safe_response given) are_chunks _ refl shape
