-- ===== src/Http/Http1/Whole.antt =====
-- A message of lines and a body is read back, in whatever chunks it comes.
use opal_cpp.Common.{
  ℕ, ◌+◌, ◌≤◌, ◌<◌, ◌^◌, ◌≡◌, ◌≢◌, refl, sym, ap, ◌∙◌, arith, Bool, true, false, List, [], ◌∷◌,
  ◌++◌, map, some, Bytes, codes, length, take, drop, ok, err, ◌>>=◌, All, ltb, take-append,
  take-append_near, drop-append_near, drop-append_far, Lacks, ◌⊎◌, inl, inr, Bool-cases, decimal,
  digits_value-decimal, IsDigit, IsDigit-decimal, decimal-ne-nil,
}
use opal_cpp.Http.Headers.{Headers, Entry, get_all, has, no_byte}
use opal_cpp.Http.Headers.Store.{get-get_all, first_of}
use opal_cpp.Http.Http1.{
  max_header_bytes, blank_line, cut_line, header_block, broken, read_fields, check_framing,
  declared_length, is_no_digit, is_empty, sized_body, framed_body, read_body, read_behind,
  read_http1_message,
}
use opal_cpp.Http.Http1.Lines.{
  lines, field, IsField, trimmed, find_text-lines, cut_line-append, read_fields-lines,
  length-fields, AreLines-fields,
}
use opal_cpp.Http.Http1.Chunks.{
  concat, reads_of, AreChunks, head_loop-chunks, body_loop-chunks, exact_body-whole,
}

digits_of : (text : Bytes) → no_byte is_no_digit text ≡ true → All IsDigit text
unfolding no_byte is_no_digit
digits_of [] e = tt
digits_of (c ∷ text) e = (ground arith, digits_of text (ground arith))

no_digit_missing : (text : Bytes) → All IsDigit text → no_byte is_no_digit text ≡ true
unfolding no_byte is_no_digit
no_digit_missing [] h = refl
no_digit_missing (c ∷ text) h = ground (arith, no_digit_missing text h.1)

not_empty : (text : Bytes) → text ≢ [] → is_empty text ≡ false
unfolding is_empty
not_empty [] ne = absurd (ne refl)
not_empty (c ∷ text) ne = refl

-- A length that is written in decimal is declared.
pub declared_length-decimal : (n : ℕ) → n < 2 ^ 64 → declared_length (decimal n) ≡ ok n
unfolding declared_length
declared_length-decimal n small =
    rw
      (
        not_empty (decimal n) (decimal-ne-nil n),
        no_digit_missing (decimal n) (IsDigit-decimal n),
        digits_value-decimal n,
      )
      (ground arith)

module _ (first : Bytes) (entry : Entry) (entries : List Entry) (body : Bytes)
    (is_line : Lacks b'\r' first) (is_field : IsField entry)
    (are_fields : All IsField entries) where
  abbrev pub head_text : Bytes
  head_text = lines first (map field (entry ∷ entries))

  abbrev pub whole_text : Bytes
  whole_text = head_text ++ (blank_line ++ body)

  cut_head : cut_line head_text ≡ (first, some (lines (field entry) (map field entries)))
  unfolding lines
  cut_head = cut_line-append first (lines (field entry) (map field entries)) is_line

  read_headers :
      read_fields
        (length (header_block (cut_line head_text).1))
        (header_block (cut_line head_text).1)
        []
      ≡ ok (map trimmed (entry ∷ entries))
  unfolding header_block
  read_headers = rw cut_head (
      read_fields-lines entries entry _ [] is_field are_fields
        (length-fields entries entry is_field are_fields))

  taken :
      (buffer rest : Bytes)
      → buffer ++ rest ≡ whole_text
      → length head_text + 4 ≤ length buffer
      → (take (length head_text) buffer ≡ head_text)
        × (drop (length head_text + 4) buffer ++ rest ≡ body)
  taken buffer rest shape long = (
    sym (take-append_near (length head_text) buffer rest (omega arith))
        ∙ ap (take (length head_text)) shape
        ∙ take-append (length head_text) head_text (blank_line ++ body) refl,
    sym (drop-append_near (length head_text + 4) buffer rest long)
        ∙ ap (drop (length head_text + 4)) shape
        ∙ drop-append_far 4 head_text (blank_line ++ body) (length head_text + 4) (omega arith),
  )

  -- The reader sees the first line and the fields, and has the body yet to read.
  Comes : List Bytes → Bool → Bool → ℕ → Type 0
  Comes chunks body_until_eof has_body limit =
      (begun : Bytes) × (rest : List Bytes) × AreChunks rest
      × (begun ++ concat rest ≡ body)
      × (read_http1_message (reads_of chunks) body_until_eof has_body limit ≡ (
          check_framing (map trimmed (entry ∷ entries)) >>= λ framed.
          read_body (reads_of rest) body_until_eof has_body limit begun framed >>= λ read.
          ok (record { start_line = first; headers = framed; body = read })))

  comes :
      (chunks : List Bytes) (body_until_eof has_body : Bool) (limit : ℕ)
      → length head_text + 3 ≤ max_header_bytes
      → AreChunks chunks
      → concat chunks ≡ whole_text
      → Comes chunks body_until_eof has_body limit
  unfolding read_http1_message read_behind Comes
  comes chunks body_until_eof has_body limit fits h shape =
      let (buffer, rest, came, split, long, are) =
        head_loop-chunks whole_text (length head_text)
          (find_text-lines first (map field (entry ∷ entries)) body is_line
            (AreLines-fields (entry ∷ entries) (is_field, are_fields)))
          fits chunks [] h shape (omega arith) in
      let (head_is, body_is) = taken buffer (concat rest) split long in
      (
        drop (length head_text + 4) buffer,
        rest,
        are,
        body_is,
        rw (came, head_is, read_headers, cut_head) refl,
      )

checked :
    (headers : Headers) (text : Bytes)
    → get_all (codes "content-length") headers ≡ text ∷ []
    → has (codes "transfer-encoding") headers ≡ false
    → check_framing headers ≡ ok headers
unfolding check_framing
checked headers text one plain = rw (one, plain) refl

read_body-chunks :
    (rest : List Bytes) (body_until_eof : Bool) (limit : ℕ) (begun body text : Bytes)
    (headers : Headers)
    → AreChunks rest
    → begun ++ concat rest ≡ body
    → get_all (codes "content-length") headers ≡ text ∷ []
    → declared_length text ≡ ok (length body)
    → length body ≤ limit
    → read_body (reads_of rest) body_until_eof true limit begun headers ≡ ok body
unfolding read_body framed_body sized_body first_of
read_body-chunks rest body_until_eof limit begun body text headers are shape one declared fits =
    let in_limit : ltb limit (length body) ≡ false = ground arith in
    rw
      (
        get-get_all (codes "content-length") headers,
        one,
        declared,
        in_limit,
        body_loop-chunks rest begun body are shape,
        exact_body-whole body,
      )
      refl

-- What a reader with a body, or without one after a HEAD, makes of a message of lines.
abbrev pub IsReadable : List Entry → Bytes → Bytes → Type 0
IsReadable entries text body =
    (get_all (codes "content-length") (map trimmed entries) ≡ text ∷ [])
    × (has (codes "transfer-encoding") (map trimmed entries) ≡ false)
    × (declared_length text ≡ ok (length body))

module _ (first : Bytes) (entry : Entry) (entries : List Entry) (body text : Bytes)
    (is_line : Lacks b'\r' first) (is_field : IsField entry) (are_fields : All IsField entries)
    (body_until_eof : Bool) (limit : ℕ) (chunks : List Bytes) (are_chunks : AreChunks chunks)
    (fits : length (lines first (map field (entry ∷ entries))) + 3 ≤ max_header_bytes)
    (shape : concat chunks ≡ whole_text first entry entries body is_line is_field are_fields) where
  pub read-whole :
      IsReadable (entry ∷ entries) text body
      → length body ≤ limit
      → read_http1_message (reads_of chunks) body_until_eof true limit
        ≡ ok (record { start_line = first; headers = map trimmed (entry ∷ entries); body = body })
  unfolding Comes
  read-whole (one, plain, declared) short =
      let (begun, rest, are, split, e) =
        comes first entry entries body is_line is_field are_fields chunks body_until_eof true limit
          fits are_chunks shape in
      rw
        (
          e,
          checked (map trimmed (entry ∷ entries)) text one plain,
          read_body-chunks rest body_until_eof limit begun body text (map trimmed (entry ∷ entries))
              are split one declared short,
        )
        refl

  pub read-head :
      get_all (codes "content-length") (map trimmed (entry ∷ entries)) ≡ text ∷ []
      → has (codes "transfer-encoding") (map trimmed (entry ∷ entries)) ≡ false
      → read_http1_message (reads_of chunks) body_until_eof false limit
        ≡ ok (record { start_line = first; headers = map trimmed (entry ∷ entries); body = [] })
  unfolding Comes read_body
  read-head one plain =
      let (begun, rest, are, split, e) =
        comes first entry entries body is_line is_field are_fields chunks body_until_eof false limit
          fits are_chunks shape in
      rw (e, checked (map trimmed (entry ∷ entries)) text one plain) refl

empty_or_no_digits :
    (text : Bytes)
    → (text ≡ []) ⊎ ¬ All IsDigit text
    → declared_length text ≡ err (broken (codes "invalid content-length"))
unfolding declared_length is_empty
empty_or_no_digits text (inl nothing) = rw nothing refl
empty_or_no_digits text (inr other) = elim (Bool-cases (no_byte is_no_digit text)) [
  | inl digits ↦ absurd (other (digits_of text digits))
  | inr found ↦ rw found (ground arith)
]

-- A message with two lengths or a transfer-encoding is refused with the error that says so, whether or
-- not its body is asked for, and one whose body is asked for also if its length is empty or not all
-- digits. The message comes in whatever chunks, with a header block of at most 64 KiB.
pub read-refused :
    (first : Bytes) (entry : Entry) (entries : List Entry) (body : Bytes)
    (body_until_eof has_body : Bool) (limit : ℕ) (chunks : List Bytes)
    → Lacks b'\r' first
    → IsField entry
    → All IsField entries
    → length (lines first (map field (entry ∷ entries))) + 3 ≤ max_header_bytes
    → AreChunks chunks
    → concat chunks ≡ lines first (map field (entry ∷ entries)) ++ (blank_line ++ body)
    → let headers = map trimmed (entry ∷ entries) in
      let result = read_http1_message (reads_of chunks) body_until_eof has_body limit in
      let values = get_all (codes "content-length") headers in
      (2 ≤ length values → result ≡ err (broken (codes "conflicting content-length")))
      × (length values ≤ 1
          → has (codes "transfer-encoding") headers ≡ true
          → result ≡ err (broken (codes "transfer-encoding is not supported")))
      × ((text : Bytes)
          → values ≡ text ∷ []
          → has (codes "transfer-encoding") headers ≡ false
          → has_body ≡ true
          → (text ≡ []) ⊎ ¬ All IsDigit text
          → result ≡ err (broken (codes "invalid content-length")))
unfolding Comes check_framing read_body framed_body first_of
read-refused first entry entries body body_until_eof has_body limit chunks is_line is_field
      are_fields fits are shape =
    let headers : Headers = map trimmed (entry ∷ entries) in
    let (begun, rest, are_rest, split, e) =
      comes first entry entries body is_line is_field are_fields chunks body_until_eof has_body
        limit fits are shape in
    (
      (λ twice.
          let over : ltb 1 (length (get_all (codes "content-length") headers)) ≡ true =
            ground arith in
          rw (e, over) refl),
      (λ once encoded.
          let single : ltb 1 (length (get_all (codes "content-length") headers)) ≡ false =
            ground arith in
          rw (e, single, encoded) refl),
      (λ text one plain asked other.
          rw
            (
              e,
              one,
              plain,
              asked,
              get-get_all (codes "content-length") headers,
              one,
              empty_or_no_digits text other,
            )
            refl),
    )
