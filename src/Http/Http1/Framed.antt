-- ===== src/Http/Http1/Framed.antt =====
-- What the reader of HTTP/1.1 messages lets through.
use mathlib.Core.Path.{subst}
use opal_cpp.Common.{
  ℕ, ◌^◌, ◌-◌, ◌≤◌, ◌<◌, ◌≡◌, ◌⊎◌, refl, sym, ap, ◌∙◌, inl, inr, arith, Bool, true, false, List, [],
  ◌∷◌, ◌++◌, Bytes, codes, length, take, Outcome, ok, err, >>=-elim, Bool-cases, ltb, ◌==◌, ==_iff,
  ok-injective, err-ne-ok, ◌≢◌, cons-ne-nil, All, digits_value, IsDigit, if◌then◌else◌,
}
use opal_cpp.Http.Headers.{Headers, get_all, has, no_byte}
use opal_cpp.Http.Headers.Store.{get-get_all, first_of}
use opal_cpp.Http.Http1.{
  Read, received, failed, Http1Message, head_loop, cut_line, read_fields, header_block,
  check_framing, is_no_digit, is_empty, declared_length, body_loop, exact_body, rest_loop,
  sized_body, framed_body, read_body, read_behind, read_http1_message, min_of, body_too_large,
}

-- The body of a message with a declared length.
pub record IsDeclared (limit : ℕ) (text : Bytes) (body : Bytes) : Type 0 where
  pub digits : (text ≢ []) × All IsDigit text
  pub exact : length body ≡ digits_value 0 text
  pub capped : length body ≤ limit

-- The framing of a message: no transfer-encoding, at most one content-length, and the body that it
-- declares.
pub record IsFramed (body_until_eof : Bool) (limit : ℕ) (message : Http1Message) : Type 0 where
  pub no_transfer_encoding : has (codes "transfer-encoding") message.headers ≡ false
  pub framed :
      ((get_all (codes "content-length") message.headers ≡ [])
        × (body_until_eof ≡ true → length message.body ≤ limit))
      ⊎ ((text : Bytes) × (get_all (codes "content-length") message.headers ≡ text ∷ [])
          × IsDeclared limit text message.body)

all_digits : (text : Bytes) → no_byte is_no_digit text ≡ true → All IsDigit text
unfolding no_byte is_no_digit
all_digits [] h = tt
all_digits (c ∷ text) h = ground (arith, all_digits text)

declared_digits :
    (text : Bytes) (size : ℕ)
    → declared_length text ≡ ok size
    → (text ≢ []) × All IsDigit text × (size ≡ min_of (digits_value 0 text) (2 ^ 64 - 1))
unfolding declared_length is_empty
declared_digits [] size e = absurd (err-ne-ok e)
declared_digits (c ∷ text) size e = elim (Bool-cases (no_byte is_no_digit (c ∷ text))) [
  | inl digits ↦
      (cons-ne-nil c text, all_digits (c ∷ text) digits, sym (ok-injective (rw digits at e)))
  | inr other ↦ absurd (err-ne-ok (rw other at e))
]

exact-body : (size : ℕ) (body whole : Bytes) → exact_body size body ≡ ok whole → length whole ≡ size
unfolding exact_body
exact-body size body whole e = elim (Bool-cases (length body == size)) [
  | inl same ↦
      let it : body ≡ whole = ok-injective (rw same at e) in
      ap length (sym it) ∙ (==_iff _ _).0 same
  | inr other ↦ absurd (err-ne-ok (rw other at e))
]

if_capped :
    (limit : ℕ) (body whole : Bytes) (other : Outcome Bytes)
    → (other ≡ ok whole → other ≡ ok body)
    → (if ltb limit (length body) then err (body_too_large limit) else other) ≡ ok whole
    → length whole ≤ limit
if_capped limit body whole other here e = elim (Bool-cases (ltb limit (length body))) [
  | inl over ↦ absurd (err-ne-ok (rw over at e))
  | inr fits ↦
      let last : other ≡ ok whole = rw fits at e in
      let same : body ≡ whole = ok-injective (sym (here last) ∙ last) in rw (← same) (ground arith)
]

rest_capped :
    (reads : List Read) (limit : ℕ) (body whole : Bytes)
    → rest_loop reads limit body ≡ ok whole
    → length whole ≤ limit
unfolding rest_loop
rest_capped [] limit body whole e = if_capped limit body whole _ (λ h. refl) e
rest_capped (failed ∷ reads) limit body whole e =
    if_capped limit body whole _ (λ h. absurd (err-ne-ok h)) e
rest_capped (received [] ∷ reads) limit body whole e = if_capped limit body whole _ (λ h. refl) e
rest_capped (received (c ∷ chunk) ∷ reads) limit body whole e =
    elim (Bool-cases (ltb limit (length body))) [
      | inl over ↦ absurd (err-ne-ok (rw over at e))
      | inr fits ↦ rest_capped reads limit (body ++ (c ∷ chunk)) whole (rw fits at e)
    ]

sized-IsDeclared :
    (reads : List Read) (limit : ℕ) (body text whole : Bytes) (size : ℕ)
    → limit < 2 ^ 64 - 1
    → declared_length text ≡ ok size
    → sized_body reads limit body size ≡ ok whole
    → IsDeclared limit text whole
unfolding sized_body
sized-IsDeclared reads limit body text whole size small declared e =
    elim (Bool-cases (ltb limit size)) [
      | inl over ↦ absurd (err-ne-ok (rw over at e))
      | inr fits ↦
          let (ne, digits, clamped) = declared_digits text size declared in
          >>=-elim (body_loop reads size body) (λ got. exact_body size got) (rw fits at e)
            (λ got looped exact.
              let wide : length whole ≡ size = exact-body size got whole exact in
              record { digits = (ne, digits); exact = ground arith; capped = ground arith })
    ]

check_framing_sound :
    (headers framed : Headers)
    → check_framing headers ≡ ok framed
    → (headers ≡ framed)
      × (length (get_all (codes "content-length") headers) ≤ 1)
      × (has (codes "transfer-encoding") headers ≡ false)
unfolding check_framing
check_framing_sound headers framed e =
    elim (Bool-cases (ltb 1 (length (get_all (codes "content-length") headers)))) [
      | inl twice ↦ absurd (err-ne-ok (rw twice at e))
      | inr once ↦ elim (Bool-cases (has (codes "transfer-encoding") headers)) [
        | inl encoded ↦ absurd (err-ne-ok (rw (once, encoded) at e))
        | inr plain ↦ (ok-injective (rw (once, plain) at e), ground arith, plain)
      ]
    ]

framed-cases :
    (reads : List Read) (body_until_eof : Bool) (limit : ℕ) (body whole : Bytes)
    (values : List Bytes)
    → limit < 2 ^ 64 - 1
    → length values ≤ 1
    → framed_body reads body_until_eof limit body (first_of values) ≡ ok whole
    → ((values ≡ []) × (body_until_eof ≡ true → length whole ≤ limit))
      ⊎ ((text : Bytes) × (values ≡ text ∷ []) × IsDeclared limit text whole)
unfolding framed_body first_of
framed-cases reads true limit body whole [] small one e =
    inl (refl, λ eof. rest_capped reads limit body whole e)
framed-cases reads false limit body whole [] small one e = inl (refl, λ eof. cc)
framed-cases reads body_until_eof limit body whole (text ∷ []) small one e =
    >>=-elim (declared_length text) (λ size. sized_body reads limit body size) e
      (λ size declared sized.
        inr (text, refl, sized-IsDeclared reads limit body text whole size small declared sized))
framed-cases reads body_until_eof limit body whole (text ∷ next ∷ values) small one e =
    absurd (omega arith)

body-IsFramed :
    (reads : List Read) (body_until_eof : Bool) (limit : ℕ) (start_line body : Bytes)
    (headers framed : Headers) (whole : Bytes)
    → limit < 2 ^ 64 - 1
    → check_framing headers ≡ ok framed
    → read_body reads body_until_eof true limit body framed ≡ ok whole
    → IsFramed body_until_eof limit
        (record { start_line = start_line; headers = framed; body = whole })
unfolding read_body
body-IsFramed reads body_until_eof limit start_line body headers framed whole small checked e =
    let (same, once, plain) = check_framing_sound headers framed checked in
    let one : length (get_all (codes "content-length") framed) ≤ 1 = rw (← same) once in
    record {
      no_transfer_encoding = rw (← same) plain;
      framed =
          framed-cases reads body_until_eof limit body whole
            (get_all (codes "content-length") framed) small one
            (rw (get-get_all (codes "content-length") framed) at e);
    }

-- Whatever the byte source answers and however it splits the message, a message that is read with its
-- body has no transfer-encoding and at most one content-length; with one, the value is digits only
-- and the body has exactly that many bytes, no more than the limit; with none, a body that extends to
-- the end of the file keeps the limit. The limit is below the largest 64-bit number.
pub read_http1_message-IsFramed :
    (reads : List Read) (body_until_eof : Bool) (limit : ℕ) (message : Http1Message)
    → limit < 2 ^ 64 - 1
    → read_http1_message reads body_until_eof true limit ≡ ok message
    → IsFramed body_until_eof limit message
unfolding read_http1_message read_behind
read_http1_message-IsFramed reads body_until_eof limit message small e =
    >>=-elim (head_loop reads []) _ e (λ head at rest.
      >>=-elim (read_fields _ (header_block (cut_line (take head.1 head.0)).1) []) _ rest
        (λ headers fields more. >>=-elim (check_framing headers) _ more (λ framed checked last.
          >>=-elim (read_body head.2 body_until_eof true limit _ framed) _ last (λ body got made.
            subst (IsFramed body_until_eof limit) (ok-injective made) (
              body-IsFramed head.2 body_until_eof limit _ _ headers framed body small checked
                got)))))
