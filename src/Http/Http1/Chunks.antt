-- ===== src/Http/Http1/Chunks.antt =====
-- However the bytes of a message are split into reads, the reader sees the same message.
use mathlib.Core.Option.{none-ne-some, some-injective}
use native.Mathlib.Decide.{dec_lt}
use opal_cpp.Common.{
  ℕ, suc, ◌+◌, ◌≤◌, ◌<◌, ◌≡◌, ◌≢◌, refl, sym, ap, ◌∙◌, inl, inr, arith, true, false, List, [], ◌∷◌,
  ◌++◌, map, none, some, Bytes, length, Outcome, ok, All, append_assoc, append-nil, length-append,
  find_text, find_text-bounded, find_text-append, find_text-near, Option-cases, ltb,
}
use opal_cpp.Http.Http1.{
  Read, received, max_header_bytes, blank_line, Head, head_loop, head_read, body_loop, exact_body,
}

abbrev pub concat : List Bytes → Bytes
concat [] = []
concat (chunk ∷ chunks) = chunk ++ concat chunks

-- What the read function gives when the bytes come in these chunks; none is empty, which would be
-- the end of the file.
abbrev pub reads_of : List Bytes → List Read
reads_of chunks = map received chunks

abbrev pub AreChunks : List Bytes → Type 0
AreChunks = All (λ chunk. chunk ≢ [])

-- A header block that has come, with the rest of the message.
abbrev pub HeadCame : Bytes → ℕ → Outcome Head → Type 0
HeadCame wire n result =
    (buffer : Bytes) × (rest : List Bytes) × (result ≡ ok (buffer, n, reads_of rest))
    × (buffer ++ concat rest ≡ wire)
    × (n + 4 ≤ length buffer)
    × AreChunks rest

module _ (wire : Bytes) (n : ℕ) (found : find_text blank_line wire ≡ some n)
    (fits : n + 3 ≤ max_header_bytes) where
  where_found :
      (part rest : Bytes) (i : ℕ)
      → part ++ rest ≡ wire
      → find_text blank_line part ≡ some i
      → (i ≡ n) × (n + 4 ≤ length part)
  where_found part rest i shape e =
      let at : i ≡ n = some-injective i n (
        sym (find_text-append blank_line part rest i e)
        ∙ ap (find_text blank_line) shape
        ∙ found) in
      (at, omega (arith, find_text-bounded blank_line part i e))

  not_yet :
      (part rest : Bytes)
      → part ++ rest ≡ wire
      → find_text blank_line part ≡ none
      → length part < n + 4
  not_yet part rest shape e = elim (dec_lt (length part) (n + 4)) [
    | yes short ↦ short
    | no long ↦ absurd (
        none-ne-some n (
          sym e
          ∙ find_text-near blank_line part rest n (ap (find_text blank_line) shape ∙ found)
              (omega arith)))
  ]

  pub head_loop-chunks :
      (chunks : List Bytes) (buffer : Bytes)
      → AreChunks chunks
      → buffer ++ concat chunks ≡ wire
      → length buffer < n + 4
      → HeadCame wire n (head_loop (reads_of chunks) buffer)
  unfolding head_loop head_read
  head_loop-chunks [] buffer h shape short =
      let whole : length buffer ≡ length wire = ap length (sym (append-nil buffer) ∙ shape) in
      absurd (omega (arith, whole, find_text-bounded blank_line wire n found))
  head_loop-chunks ([] ∷ chunks) buffer h shape short = absurd (h.0 refl)
  head_loop-chunks ((c ∷ chunk) ∷ chunks) buffer h shape short =
      let grown : (buffer ++ (c ∷ chunk)) ++ concat chunks ≡ wire =
        append_assoc buffer (c ∷ chunk) (concat chunks) ∙ shape in
      let in_limit : ltb max_header_bytes (length buffer) ≡ false = ground arith in
      elim (Option-cases (find_text blank_line (buffer ++ (c ∷ chunk)))) [
        | inl absent ↦
            rw (in_limit, absent)
              (head_loop-chunks chunks (buffer ++ (c ∷ chunk)) h.1 grown
                (not_yet (buffer ++ (c ∷ chunk)) (concat chunks) grown absent))
        | inr (i, here) ↦
            let (at, long) = where_found (buffer ++ (c ∷ chunk)) (concat chunks) i grown here in
            rw (in_limit, here, at) (buffer ++ (c ∷ chunk), chunks, refl, grown, long, h.1)
      ]

-- A body of the declared length is read to its last byte, and no further.
pub body_loop-chunks :
    (chunks : List Bytes) (body whole : Bytes)
    → AreChunks chunks
    → body ++ concat chunks ≡ whole
    → body_loop (reads_of chunks) (length whole) body ≡ ok whole
unfolding body_loop
body_loop-chunks [] body whole h shape =
    let same : body ≡ whole = sym (append-nil body) ∙ shape in
    let enough : ltb (length body) (length whole) ≡ false = ground (arith, ap length same) in
    rw enough (ap ok same)
body_loop-chunks ([] ∷ chunks) body whole h shape = absurd (h.0 refl)
body_loop-chunks ((c ∷ chunk) ∷ chunks) body whole h shape =
    let wide : length body + suc (length chunk + length (concat chunks)) ≡ length whole = omega (
      arith,
      ap length shape,
      length-append body (concat ((c ∷ chunk) ∷ chunks)),
      length-append chunk (concat chunks),
    ) in
    let short : ltb (length body) (length whole) ≡ true = ground arith in
    rw short (
      body_loop-chunks chunks (body ++ (c ∷ chunk)) whole h.1
        (append_assoc body (c ∷ chunk) (concat chunks) ∙ shape))

pub exact_body-whole : (whole : Bytes) → exact_body (length whole) whole ≡ ok whole
unfolding exact_body
exact_body-whole whole = ground arith
