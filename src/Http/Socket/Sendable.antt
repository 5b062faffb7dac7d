-- ===== src/Http/Socket/Sendable.antt =====
-- Requests that runtime/src/http/socket_transport.cc does not refuse, and the lines it writes of them.
use opal_cpp.Common.{
  Lacks-find, ℕ, ◌≡◌, refl, sym, arith, true, false, not, ◌||◌, [], ◌∷◌, ◌++◌, map, Option, none,
  some, Bytes, codes, length, All, All-append, Lacks, IsDigit-decimal, cut-append, Bool-cases, inl,
  inr, cons-ne-nil, find, List-cases,
}
use mathlib.Core.Option.{none-ne-some}
use opal_cpp.Http.Headers.{
  Headers, get_all, has, has_value, no_byte, splits_request_line, valid_request_line_field,
}
use opal_cpp.Http.Headers.Store.{get-get_all, first_of}
use opal_cpp.Http.Headers.Wire.{find_unsafe_header_iff}
use opal_cpp.Http.Message.{HttpRequest}
use opal_cpp.Http.Http1.{is_empty, target_of, behind_method, parse_request_line}
use opal_cpp.Http.Http1.Lines.{lines, field, IsField}
use opal_cpp.Http.Socket.{
  host_field, content_length_field, connection_field, client_fields, request_line, unsafe_headers,
  refusal,
}
use opal_cpp.Http.Socket.Fields.{AreFields-writable, digits_lack}

-- What is not refused.
pub record IsSendable (request : HttpRequest) : Type 0 where
  pub method_bytes : no_byte splits_request_line request.method ≡ true
  pub target_bytes : no_byte splits_request_line request.target ≡ true
  pub fields : All IsField request.headers

some-ne-none : {A : Type 0} (a : A) → ¬ ◌≡◌ {A = Option A} (some a) none
some-ne-none a e = none-ne-some a (sym e)

headers_safe : (unsafe : Option Bytes) → unsafe_headers unsafe ≡ none → unsafe ≡ none
unfolding unsafe_headers
headers_safe none e = refl
headers_safe (some name) e = cc

pub refusal-none : (request : HttpRequest) → refusal request ≡ none → IsSendable request
unfolding refusal valid_request_line_field
refusal-none request e =
    elim (Bool-cases
      (is_empty request.method || not (no_byte splits_request_line request.method))) [
        | inl bad ↦ absurd (some-ne-none _ (rw bad at e))
        | inr good ↦ elim (Bool-cases (no_byte splits_request_line request.target)) [
          | inr bad ↦ absurd (some-ne-none _ (rw (good, bad) at e))
          | inl target_good ↦ record {
            method_bytes = ground arith;
            target_bytes = target_good;
            fields = AreFields-writable request.headers (
                (find_unsafe_header_iff request.headers).0
                  (headers_safe _ (rw (good, target_good) at e)));
          }
        ]
      ]

-- A part of the request line holds no blank and no line end.
line_part :
    (text : Bytes) → no_byte splits_request_line text ≡ true → Lacks b' ' text × Lacks b'\r' text
unfolding no_byte splits_request_line
line_part [] h = (tt, tt)
line_part (c ∷ text) h =
    let (blanks, returns) = line_part text (ground arith) in
    ((ground arith, blanks), (ground arith, returns))

pub parse_request_line-written :
    (request : HttpRequest)
    → IsSendable request
    → parse_request_line (request_line request) ≡ some (request.method, request.target)
unfolding parse_request_line request_line behind_method target_of codes
parse_request_line-written request h =
    rw
      (
        cut-append b' ' request.method (request.target ++ codes " HTTP/1.1")
            (line_part request.method h.method_bytes).0,
        cut-append b' ' request.target (codes "HTTP/1.1")
            (line_part request.target h.target_bytes).0,
      )
      refl

pub Lacks-request_line :
    (request : HttpRequest) → IsSendable request → Lacks b'\r' (request_line request)
unfolding request_line find codes
Lacks-request_line request h =
    All-append _ request.method _ (line_part request.method h.method_bytes).1 (
      ground arith,
      All-append _ request.target _ (line_part request.target h.target_bytes).1
          (Lacks-find b'\r' (codes " HTTP/1.1") refl),
    )

pub none_of_has :
    (name : Bytes) (entries : Headers) → has name entries ≡ false → get_all name entries ≡ []
unfolding has has_value first_of
none_of_has name entries e = elim (List-cases (get_all name entries)) [
  | inl nothing ↦ nothing
  | inr (value, more, some_values) ↦ absurd (ground (arith, get-get_all name entries))
]

pub IsField-host : (host : Bytes) (port : ℕ) → Lacks b'\r' host → IsField (host_field host port)
unfolding find codes
IsField-host host port h = (
  cons-ne-nil _ _,
  Lacks-find b':' (codes "host") refl,
  Lacks-find b'\r' (codes "host") refl,
  All-append _ host _ h (ground arith, digits_lack b'\r' _ (omega arith) (IsDigit-decimal port)),
)

-- A request that frames itself by nothing but its body.
abbrev pub IsPlain : HttpRequest → Type 0
IsPlain request =
    (has (codes "content-length") request.headers ≡ false)
    × (has (codes "transfer-encoding") request.headers ≡ false)

-- The bytes of the header block that the client writes.
abbrev pub request_head_size : Bytes → ℕ → HttpRequest → ℕ
request_head_size host port request =
    length (lines (request_line request) (map field (client_fields host port request)))

pub plain_fields :
    (host : Bytes) (port : ℕ) (request : HttpRequest)
    → IsPlain request
    → client_fields host port request
      ≡ host_field host port
        ∷ content_length_field request.body
        ∷ connection_field
        ∷ request.headers
unfolding client_fields
plain_fields host port request plain = rw (plain.0) refl
