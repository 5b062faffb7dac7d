-- ===== src/Http/Socket/Fields.antt =====
-- The fields that the socket client and server write, as lines that the reader takes apart.
use opal_cpp.Common.{
  ℕ, ◌<◌, ◌≡◌, refl, sym, ap, ◌∙◌, arith, false, List, [], ◌∷◌, ◌++◌, map, Bytes, All, append_assoc,
  Lacks, IsDigit, inl, inr, Bool-cases,
}
use opal_cpp.Http.Headers.{
  Headers, Entry, get_all, has, has_value, header_name_equals, trim_spaces, trim_front, trim_back,
  is_blank,
}
use opal_cpp.Http.Headers.Store.{get-get_all, first_of}
use opal_cpp.Http.Headers.Wire.{IsWritable, IsNameByte, IsValueByte}
use opal_cpp.Http.Http1.{crlf, blank_line}
use opal_cpp.Http.Http1.Lines.{lines, field, IsField, trimmed}
use opal_cpp.Http.Socket.{write_fields}

write_fields-step :
    (entry : Entry) (entries : Headers)
    → write_fields (entry ∷ entries) ≡ field entry ++ (crlf ++ write_fields entries)
unfolding write_fields field
write_fields-step (name, value) entries =
    sym (append_assoc name (b':' ∷ b' ' ∷ value) (crlf ++ write_fields entries))

no_fields :
    (entry : Entry) (body : Bytes)
    → field entry ++ ((crlf ++ write_fields []) ++ (crlf ++ body))
      ≡ field entry ++ (blank_line ++ body)
unfolding write_fields
no_fields entry body = refl

-- Fields and a blank line, as lines with line ends between them.
fields-lines :
    (entries : List Entry) (entry : Entry) (body : Bytes)
    → write_fields (entry ∷ entries) ++ (crlf ++ body)
      ≡ lines (field entry) (map field entries) ++ (blank_line ++ body)
unfolding lines
fields-lines [] entry body =
    ap (λ t. t ++ (crlf ++ body)) (write_fields-step entry [])
    ∙ append_assoc (field entry) (crlf ++ write_fields []) (crlf ++ body)
    ∙ no_fields entry body
fields-lines (next ∷ entries) entry body =
    ap (λ t. t ++ (crlf ++ body)) (write_fields-step entry (next ∷ entries))
    ∙ append_assoc (field entry) (crlf ++ write_fields (next ∷ entries)) (crlf ++ body)
    ∙ ap (λ t. field entry ++ (crlf ++ t)) (fields-lines entries next body)
    ∙ sym (
        append_assoc (field entry) (crlf ++ lines (field next) (map field entries))
          (blank_line ++ body))

pub wire-lines :
    (first : Bytes) (entry : Entry) (entries : List Entry) (body : Bytes)
    → first ++ (crlf ++ (write_fields (entry ∷ entries) ++ (crlf ++ body)))
      ≡ lines first (map field (entry ∷ entries)) ++ (blank_line ++ body)
unfolding lines
wire-lines first entry entries body =
    ap (λ t. first ++ (crlf ++ t)) (fields-lines entries entry body)
    ∙ sym
        (append_assoc first (crlf ++ lines (field entry) (map field entries)) (blank_line ++ body))

-- A header that may be written is a field.
Lacks-name : (name : Bytes) → All IsNameByte name → Lacks b':' name × Lacks b'\r' name
Lacks-name [] h = (tt, tt)
Lacks-name (c ∷ name) h =
    let (colons, returns) = Lacks-name name h.1 in ((h.0.2, colons), (ground arith, returns))

Lacks-value : (value : Bytes) → All IsValueByte value → Lacks b'\r' value
Lacks-value [] h = tt
Lacks-value (c ∷ value) h = (ground arith, Lacks-value value h.1)

pub IsField-IsWritable : (entry : Entry) → IsWritable entry → IsField entry
IsField-IsWritable (name, value) h =
    let (colons, returns) = Lacks-name name h.1 in (h.0, colons, returns, Lacks-value value h.2)

pub AreFields-writable : (entries : List Entry) → All IsWritable entries → All IsField entries
AreFields-writable [] h = tt
AreFields-writable (entry ∷ entries) h =
    (IsField-IsWritable entry h.0, AreFields-writable entries h.1)

-- Digits are no line ends and no blanks.
pub digits_lack : (c : ℕ) (text : Bytes) → c < b'0' → All IsDigit text → Lacks c text
digits_lack c [] small h = tt
digits_lack c (d ∷ text) small h = (ground arith, digits_lack c text small h.1)

digits_back : (text : Bytes) → All IsDigit text → trim_back text ≡ text
unfolding trim_back is_blank
digits_back [] h = refl
digits_back (c ∷ []) h = ground arith
digits_back (c ∷ d ∷ text) h = rw (digits_back (d ∷ text) h.1) refl

digits_front : (text : Bytes) → All IsDigit text → trim_front text ≡ text
unfolding trim_front is_blank
digits_front [] h = refl
digits_front (c ∷ text) h = ground arith

pub trim_spaces-digits : (text : Bytes) → All IsDigit text → trim_spaces text ≡ text
unfolding trim_spaces
trim_spaces-digits text h = rw (digits_front text h) (digits_back text h)

-- Trimming the values keeps the names.
pub get_all-trimmed :
    (name : Bytes) (entries : Headers)
    → get_all name (map trimmed entries) ≡ map trim_spaces (get_all name entries)
unfolding get_all
get_all-trimmed name [] = refl
get_all-trimmed name ((key, value) ∷ entries) = elim (Bool-cases (header_name_equals key name)) [
  | inl same ↦ rw same (ap (λ l. trim_spaces value ∷ l) (get_all-trimmed name entries))
  | inr other ↦ rw other (get_all-trimmed name entries)
]

pub has_of_none :
    (name : Bytes) (entries : Headers) → get_all name entries ≡ [] → has name entries ≡ false
unfolding has has_value first_of
has_of_none name entries e = rw (get-get_all name entries, e) refl
