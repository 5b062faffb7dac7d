-- ===== src/Http/Headers/Store.antt =====
-- What a lookup finds after each change of the headers.
use opal_cpp.Common.{
  ◌≡◌, refl, arith, Bool, true, false, List, [], ◌∷◌, ◌++◌, Bytes, sym, ap, ◌∙◌, if◌then◌else◌,
  append_assoc, append-nil, Option, none, some, Bool-cases, inl, inr,
}
use opal_cpp.Http.Headers.{
  Headers, header_name_equals, get, get_all, has, has_value, remove, add, set,
}
use opal_cpp.Http.Headers.Names.{header_name_equals_congr, header_name_equals_congr_right}

pub get_all-append : (m : Bytes) (h k : Headers) → get_all m (h ++ k) ≡ get_all m h ++ get_all m k
unfolding get_all
get_all-append m [] k = refl
get_all-append m ((key, value) ∷ h) k =
    ap (λ t. (if header_name_equals key m then value ∷ [] else []) ++ t) (get_all-append m h k)
    ∙ sym (append_assoc _ (get_all m h) (get_all m k))

-- A value that is added stands behind those that the name had.
pub get_all-add :
    (m n v : Bytes) (h : Headers)
    → get_all m (add n v h) ≡ get_all m h ++ (if header_name_equals n m then v ∷ [] else [])
unfolding add get_all
get_all-add m n v h = get_all-append m h ((n, v) ∷ []) ∙ ap (λ t. get_all m h ++ t) (append-nil _)

pub get_all-remove :
    (m n : Bytes) (h : Headers)
    → get_all m (remove n h) ≡ (if header_name_equals n m then [] else get_all m h)
unfolding remove get_all
get_all-remove m n [] = ground arith
get_all-remove m n ((key, value) ∷ h) = elim (Bool-cases (header_name_equals key n)) [
  | inl same ↦
      rw same (get_all-remove m n h ∙ rw (header_name_equals_congr key n m same) (ground arith))
  | inr other ↦
      rw (other, get_all-remove m n h) (ground (arith, header_name_equals_congr_right n m key))
]

-- The first of all values.
unfoldable pub first_of : List Bytes → Option Bytes
first_of [] = none
first_of (v ∷ vs) = some v

pub get-get_all : (m : Bytes) (h : Headers) → get m h ≡ first_of (get_all m h)
unfolding get get_all first_of
get-get_all m [] = refl
get-get_all m ((key, value) ∷ h) = ground (arith, get-get_all m h)

set_values :
    (m n v : Bytes) (h : Headers)
    → get_all m (set n v h) ≡ (if header_name_equals n m then v ∷ [] else get_all m h)
unfolding set
set_values m n v h =
    get_all-add m n v (remove n h) ∙ rw (get_all-remove m n h) (joined (header_name_equals n m))
  where
    joined :
        (b : Bool)
        → (if b then [] else get_all m h) ++ (if b then v ∷ [] else [])
          ≡ (if b then v ∷ [] else get_all m h)
    joined true = refl
    joined false = append-nil (get_all m h)

-- After `Set` a name that equals the one set has exactly the new value, and every other name keeps
-- all its values in their order; after `Remove` it has none.
pub get_all-set :
    (m n v : Bytes) (h : Headers)
    → (get_all m (set n v h) ≡ (if header_name_equals n m then v ∷ [] else get_all m h))
      × (get m (set n v h) ≡ (if header_name_equals n m then some v else get m h))
      × (has m (remove n h) ≡ (if header_name_equals n m then false else has m h))
unfolding first_of has has_value
get_all-set m n v h = (
  set_values m n v h,
  rw (get-get_all, set_values m n v h, get-get_all m h) (ground arith),
  rw (get-get_all, get_all-remove m n h, get-get_all m h) (ground arith),
)
