-- ===== src/Http/Http1/Lines.antt =====
-- The header block of HTTP/1.1 as lines: where it ends, and what the reader makes of it.
use opal_cpp.Common.{
  ℕ, zero, suc, ◌+◌, ◌<◌, ◌≡◌, ◌≢◌, refl, ap, ◌∙◌, arith, false, List, [], ◌∷◌, ◌++◌, map, none,
  some, Bytes, length, drop, ok, ◌>>=◌, All, All-append, Lacks, drop-append_far, append_assoc, cut,
  cut-append, length-append, find_text, is_front, find_text-skip, find_text-Lacks, take-append,
  cons-ne-nil, ◌==◌,
}
use opal_cpp.Http.Headers.{Headers, Entry, add, trim_front, trim_spaces, is_blank}
use opal_cpp.Http.Http1.{
  crlf, blank_line, line_at, cut_line, read_field, fields_behind, read_fields,
}

blank_line_found : (body : Bytes) → find_text blank_line (blank_line ++ body) ≡ some 0
unfolding find_text is_front
blank_line_found body = refl

crlf_found : (rest : Bytes) → find_text crlf (crlf ++ rest) ≡ some 0
unfolding find_text is_front
crlf_found rest = refl

drop-line : (line rest : Bytes) → drop (length line + 0 + 2) (line ++ (b'\r' ∷ b'\n' ∷ rest)) ≡ rest
drop-line line rest =
    drop-append_far 2 line (b'\r' ∷ b'\n' ∷ rest) (length line + 0 + 2) (omega arith)

-- Lines with a line end between them.
unfoldable pub lines : Bytes → List Bytes → Bytes
lines first [] = first
lines first (next ∷ more) = first ++ (b'\r' ∷ b'\n' ∷ lines next more)

abbrev pub IsLine : Bytes → Type 0
IsLine line = (line ≢ []) × Lacks b'\r' line

-- A line end with something behind it that is no line end is no blank line.
skips_line_end :
    (c : ℕ) (more : Bytes) (i : ℕ)
    → c ≢ b'\r'
    → find_text blank_line (c ∷ more) ≡ some i
    → find_text blank_line (b'\r' ∷ b'\n' ∷ c ∷ more) ≡ some (suc (suc i))
unfolding find_text is_front
skips_line_end c more i ne e =
    let other : (c == b'\r') ≡ false = ground arith in rw (other, rw other at e) refl

-- The first byte of lines.
lines_front :
    (c : ℕ) (first : Bytes) (more : List Bytes)
    → (rest : Bytes) × (lines (c ∷ first) more ≡ c ∷ rest)
unfolding lines
lines_front c first [] = (first, refl)
lines_front c first (next ∷ more) = (first ++ (b'\r' ∷ b'\n' ∷ lines next more), refl)

next_line :
    (next : Bytes) (more : List Bytes) (tail : Bytes) (i : ℕ)
    → IsLine next
    → find_text blank_line (lines next more ++ tail) ≡ some i
    → find_text blank_line (b'\r' ∷ b'\n' ∷ (lines next more ++ tail)) ≡ some (suc (suc i))
next_line [] more tail i h e = absurd (h.0 refl)
next_line (c ∷ next) more tail i h e =
    let (rest, shape) = lines_front c next more in
    rw shape (skips_line_end c (rest ++ tail) i h.1.0 (rw shape at e))

-- The header block ends where the lines do.
pub find_text-lines :
    (first : Bytes) (more : List Bytes) (body : Bytes)
    → Lacks b'\r' first
    → All IsLine more
    → find_text blank_line (lines first more ++ (blank_line ++ body))
      ≡ some (length (lines first more))
unfolding lines
find_text-lines first [] body h hs =
    find_text-skip _ _ first (blank_line ++ body) 0 h (blank_line_found body)
    ∙ ap some (omega arith)
find_text-lines first (next ∷ more) body h hs =
    rw (append_assoc first (b'\r' ∷ b'\n' ∷ lines next more) (blank_line ++ body)) (
      find_text-skip _ _ first _ _ h (
        next_line next more (blank_line ++ body) _ hs.0
          (find_text-lines next more body hs.0.1 hs.1))
      ∙ ap some (omega (arith, length-append first (b'\r' ∷ b'\n' ∷ lines next more))))

-- Cutting at a line end.
pub cut_line-append :
    (line rest : Bytes)
    → Lacks b'\r' line
    → cut_line (line ++ (b'\r' ∷ b'\n' ∷ rest)) ≡ (line, some rest)
unfolding cut_line line_at
cut_line-append line rest h =
    rw
      (
        find_text-skip _ _ line (b'\r' ∷ b'\n' ∷ rest) 0 h (crlf_found rest),
        take-append (length line + 0) line _ (omega arith),
        drop-line line rest,
      )
      refl

pub cut_line-Lacks : (line : Bytes) → Lacks b'\r' line → cut_line line ≡ (line, none)
unfolding cut_line line_at
cut_line-Lacks line h = rw (find_text-Lacks b'\r' (b'\n' ∷ []) line h) refl

-- A field as it is written.
unfoldable pub field : Entry → Bytes
field (name, value) = name ++ (b':' ∷ b' ' ∷ value)

abbrev pub IsField : Entry → Type 0
IsField (name, value) = (name ≢ []) × Lacks b':' name × Lacks b'\r' name × Lacks b'\r' value

abbrev pub trimmed : Entry → Entry
trimmed (name, value) = (name, trim_spaces value)

pub IsLine-field : (entry : Entry) → IsField entry → IsLine (field entry)
unfolding field
IsLine-field ([], value) h = absurd (h.0 refl)
IsLine-field (c ∷ name, value) h =
    (cons-ne-nil _ _, (h.2.0, All-append _ name _ h.2.1 (ground arith, (ground arith, h.3))))

read_field-field :
    (headers : Headers) (entry : Entry)
    → IsField entry
    → read_field headers (cut b':' (field entry)) ≡ ok (headers ++ (trimmed entry ∷ []))
unfolding field read_field add trim_spaces trim_front is_blank
read_field-field headers (name, value) h = rw (cut-append b':' name (b' ' ∷ value) h.1) refl

read_fields-step :
    (fuel : ℕ) (block : Bytes) (headers : Headers)
    → block ≢ []
    → read_fields (suc fuel) block headers
      ≡ read_field headers (cut b':' (cut_line block).0)
        >>= fields_behind (read_fields fuel) (cut_line block).1
unfolding read_fields fields_behind
read_fields-step fuel [] headers ne = absurd (ne refl)
read_fields-step fuel (c ∷ block) headers ne = refl

cons-ne-nil_right : (text : Bytes) (c : ℕ) (more : Bytes) → text ++ (c ∷ more) ≢ []
cons-ne-nil_right [] c more = cons-ne-nil _ _
cons-ne-nil_right (x ∷ text) c more = cons-ne-nil _ _

length_pos : (text : Bytes) → text ≢ [] → 0 < length text
length_pos [] ne = absurd (ne refl)
length_pos (c ∷ text) ne = omega arith

lines-ne-nil : (entry : Entry) (more : List Bytes) → IsField entry → lines (field entry) more ≢ []
unfolding lines
lines-ne-nil entry [] h e = (IsLine-field entry h).0 e
lines-ne-nil entry (next ∷ more) h e = cons-ne-nil_right (field entry) _ _ e

-- The fields that are written are read, with their values trimmed.
pub read_fields-lines :
    (entries : List Entry) (entry : Entry) (fuel : ℕ) (headers : Headers)
    → IsField entry
    → All IsField entries
    → length entries < fuel
    → read_fields fuel (lines (field entry) (map field entries)) headers
      ≡ ok (headers ++ map trimmed (entry ∷ entries))
unfolding lines fields_behind
read_fields-lines entries entry zero headers h hs enough = absurd (omega arith)
read_fields-lines [] entry (suc fuel) headers h hs enough =
    rw
      (
        read_fields-step fuel (field entry) headers (IsLine-field entry h).0,
        cut_line-Lacks (field entry) (IsLine-field entry h).1,
        read_field-field headers entry h,
      )
      refl
read_fields-lines (next ∷ entries) entry (suc fuel) headers h hs enough =
    rw
      (
        read_fields-step fuel (lines (field entry) (map field (next ∷ entries))) headers
            (lines-ne-nil entry (map field (next ∷ entries)) h),
        cut_line-append (field entry) (lines (field next) (map field entries))
            (IsLine-field entry h).1,
        read_field-field headers entry h,
        read_fields-lines entries next fuel (headers ++ (trimmed entry ∷ [])) hs.0 hs.1
            (omega arith),
      )
      (ap ok (append_assoc headers (trimmed entry ∷ []) (map trimmed (next ∷ entries))))

-- There are no more fields than bytes.
pub length-fields :
    (entries : List Entry) (entry : Entry)
    → IsField entry
    → All IsField entries
    → length entries < length (lines (field entry) (map field entries))
unfolding lines
length-fields [] entry h hs = length_pos (field entry) (IsLine-field entry h).0
length-fields (next ∷ entries) entry h hs = omega (
  arith,
  length-append (field entry) (b'\r' ∷ b'\n' ∷ lines (field next) (map field entries)),
  length-fields entries next hs.0 hs.1,
)

pub AreLines-fields : (entries : List Entry) → All IsField entries → All IsLine (map field entries)
AreLines-fields [] h = tt
AreLines-fields (entry ∷ entries) h = (IsLine-field entry h.0, AreLines-fields entries h.1)
