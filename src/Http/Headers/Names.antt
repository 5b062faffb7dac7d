-- ===== src/Http/Headers/Names.antt =====
-- Header names are compared without regard to case: an equivalence.
use opal_cpp.Common.{
  ◌≡◌, refl, arith, true, ◌&&◌, [], ◌∷◌, Bytes, bytes_eq, bytes_eq_sound, bytes_eq_refl, ◌==◌, sym,
  ◌↔◌, ap, ◌∙◌, ◌≤◌, length, take,
}
use opal_cpp.Http.Headers.{ascii_lower, header_name_equals, header_name_starts_with, lower_all}

header_name_equals-bytes_eq :
    (a b : Bytes) → header_name_equals a b ≡ bytes_eq (lower_all a) (lower_all b)
unfolding header_name_equals lower_all bytes_eq
header_name_equals-bytes_eq [] [] = refl
header_name_equals-bytes_eq [] (y ∷ b) = refl
header_name_equals-bytes_eq (x ∷ a) [] = refl
header_name_equals-bytes_eq (x ∷ a) (y ∷ b) =
    ap (λ t. ascii_lower x == ascii_lower y && t) (header_name_equals-bytes_eq a b)

-- Two names are equal exactly when they are the same text once both are lowered.
pub header_name_equals_iff :
    (a b : Bytes) → (header_name_equals a b ≡ true) ↔ (lower_all a ≡ lower_all b)
header_name_equals_iff a b = (
  (λ h. bytes_eq_sound (lower_all a) (lower_all b) (sym (header_name_equals-bytes_eq a b) ∙ h)),
  (λ e. rw (header_name_equals-bytes_eq, e) (bytes_eq_refl (lower_all b))),
)

pub header_name_equals_refl : (a : Bytes) → header_name_equals a a ≡ true
header_name_equals_refl a = (header_name_equals_iff a a).1 refl

-- Equal names are equal to the same names.
pub header_name_equals_congr :
    (a b c : Bytes)
    → header_name_equals a b ≡ true
    → header_name_equals a c ≡ header_name_equals b c
header_name_equals_congr a b c h =
    rw (
      header_name_equals-bytes_eq,
      header_name_equals-bytes_eq b c,
      (header_name_equals_iff a b).0 h,
    )

pub header_name_equals_congr_right :
    (a b c : Bytes)
    → header_name_equals a b ≡ true
    → header_name_equals c a ≡ header_name_equals c b
header_name_equals_congr_right a b c h =
    rw (
      header_name_equals-bytes_eq,
      header_name_equals-bytes_eq c b,
      (header_name_equals_iff a b).0 h,
    )

-- A name that starts with a prefix continues it, up to case.
pub header_name_starts_with_iff :
    (name prefix : Bytes)
    → (header_name_starts_with name prefix ≡ true) ↔ (
        (length prefix ≤ length name)
        × (header_name_equals prefix (take (length prefix) name) ≡ true))
unfolding header_name_starts_with header_name_equals
header_name_starts_with_iff name [] = ((λ h. (omega arith, refl)), (λ h. refl))
header_name_starts_with_iff [] (y ∷ prefix) = ((λ h. cc), (λ h. absurd (omega arith)))
header_name_starts_with_iff (x ∷ name) (y ∷ prefix) =
    ground (arith, header_name_starts_with_iff name prefix)
