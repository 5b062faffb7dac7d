-- ===== src/Http/Headers/Wire.antt =====
-- The outbound checks: what passes them cannot split or corrupt a line of HTTP/1.1.
use opal_cpp.Common.{
  ℕ, ◌≤◌, ◌<◌, ◌≡◌, ◌≢◌, ◌↔◌, ◌⊎◌, refl, arith, true, false, not, ◌||◌, [], ◌∷◌, none, Bytes, All,
  inl, inr, Bool-cases, cons-ne-nil,
}
use opal_cpp.Http.Headers.{
  Headers, Entry, splits_name, splits_value, no_byte, valid_header_name, valid_header_value,
  find_unsafe_header,
}

abbrev pub IsNameByte : ℕ → Type 0
IsNameByte c = (0x20 < c) × (c ≢ 0x7f) × (c ≢ b':')

abbrev pub IsValueByte : ℕ → Type 0
IsValueByte c = (c ≡ b'\t') ⊎ ((0x20 ≤ c) × (c ≢ 0x7f))

abbrev pub IsWritable : Entry → Type 0
IsWritable (name, value) = (name ≢ []) × All IsNameByte name × All IsValueByte value

name_bytes : (name : Bytes) → (no_byte splits_name name ≡ true) ↔ All IsNameByte name
unfolding no_byte splits_name
name_bytes [] = ((λ h. tt), (λ h. refl))
name_bytes (c ∷ name) = ground (arith, name_bytes name)

value_bytes : (value : Bytes) → (no_byte splits_value value ≡ true) ↔ All IsValueByte value
unfolding no_byte splits_value
value_bytes [] = ((λ h. tt), (λ h. refl))
value_bytes (c ∷ value) = ground (arith, value_bytes value)

writable :
    (name value : Bytes)
    → ((not (valid_header_name name) || not (valid_header_value value)) ≡ false)
      ↔ IsWritable (name, value)
unfolding valid_header_name valid_header_value
writable [] value = ((λ h. cc), (λ h. absurd (h.0 refl)))
writable (c ∷ name) value = (
  (λ h. (
    cons-ne-nil c name,
    (name_bytes (c ∷ name)).0 (ground arith),
    (value_bytes value).0 (ground arith),
  )),
  (λ h. ground (arith, (name_bytes (c ∷ name)).1 h.1, (value_bytes value).1 h.2)),
)

-- No header is reported exactly when every header may be written: its name is not empty and has no
-- control byte, space, colon or DEL, and its value no control byte but the tab, and no DEL.
pub find_unsafe_header_iff : (h : Headers) → (find_unsafe_header h ≡ none) ↔ All IsWritable h
unfolding find_unsafe_header
find_unsafe_header_iff [] = ((λ h. tt), (λ h. refl))
find_unsafe_header_iff ((name, value) ∷ h) =
    elim (Bool-cases (not (valid_header_name name) || not (valid_header_value value))) [
      | inl unsafe ↦ rw unsafe ((λ e. cc), (λ w. cc (unsafe, (writable name value).1 w.0)))
      | inr safe ↦ rw safe (
        (λ e. ((writable name value).0 safe, (find_unsafe_header_iff h).0 e)),
        (λ w. (find_unsafe_header_iff h).1 w.1),
      )
    ]
