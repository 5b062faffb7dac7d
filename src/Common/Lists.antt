-- ===== src/Common/Lists.antt =====
-- Lists measured and cut by native numbers, under the library's names.
use Prim.Native.Nat.{ℕ, zero, suc, ◌+◌, ◌-◌, ◌≤◌, min}
use mathlib.Core.Path.{◌≡◌, refl, ap, ◌∙◌}
use mathlib.Core.List.{List, [], ◌∷◌, ◌++◌}
use mathlib.Core.Option.{Option, none, some}
use native.Mathlib.Omega.{arith}

module _ {ℓ} {A : Type ℓ} where
  abbrev pub length : List A → ℕ
  length [] = 0
  length (x ∷ xs) = suc (length xs)

  abbrev pub get_elem? : List A → ℕ → Option A
  get_elem? [] i = none
  get_elem? (x ∷ xs) zero = some x
  get_elem? (x ∷ xs) (suc i) = get_elem? xs i

  abbrev pub get_or : List A → ℕ → A → A
  get_or [] i d = d
  get_or (x ∷ xs) zero d = x
  get_or (x ∷ xs) (suc i) d = get_or xs i d

  abbrev pub take : ℕ → List A → List A
  take zero xs = []
  take (suc n) [] = []
  take (suc n) (x ∷ xs) = x ∷ take n xs

  abbrev pub drop : ℕ → List A → List A
  drop zero xs = xs
  drop (suc n) [] = []
  drop (suc n) (x ∷ xs) = drop n xs

  -- `text.substr(from, count)`.
  abbrev pub substr : ℕ → ℕ → List A → List A
  substr from count xs = take count (drop from xs)

  pub length-append : (xs ys : List A) → length (xs ++ ys) ≡ length xs + length ys
  length-append [] ys = omega arith
  length-append (x ∷ xs) ys = omega (arith, length-append xs ys)

module _ {ℓ} {A : Type ℓ} where
  pub take-append-drop : (n : ℕ) (xs : List A) → take n xs ++ drop n xs ≡ xs
  take-append-drop zero xs = refl
  take-append-drop (suc n) [] = refl
  take-append-drop (suc n) (x ∷ xs) = ap (λ l. x ∷ l) (take-append-drop n xs)

  pub length-take : (n : ℕ) (xs : List A) → length (take n xs) ≡ min n (length xs)
  length-take zero xs = omega arith
  length-take (suc n) [] = omega arith
  length-take (suc n) (x ∷ xs) = omega (arith, length-take n xs)

  pub length-drop : (n : ℕ) (xs : List A) → length (drop n xs) ≡ length xs - n
  length-drop zero xs = omega arith
  length-drop (suc n) [] = omega arith
  length-drop (suc n) (x ∷ xs) = omega (arith, length-drop n xs)

  -- The front of an appended list, by its length.
  pub take-append : (n : ℕ) (xs ys : List A) → length xs ≡ n → take n (xs ++ ys) ≡ xs
  take-append zero [] ys h = refl
  take-append zero (x ∷ xs) ys h = absurd (omega arith)
  take-append (suc n) [] ys h = absurd (omega arith)
  take-append (suc n) (x ∷ xs) ys h = ap (λ l. x ∷ l) (take-append n xs ys (omega arith))

  pub drop-append : (n : ℕ) (xs ys : List A) → length xs ≡ n → drop n (xs ++ ys) ≡ ys
  drop-append zero [] ys h = refl
  drop-append zero (x ∷ xs) ys h = absurd (omega arith)
  drop-append (suc n) [] ys h = absurd (omega arith)
  drop-append (suc n) (x ∷ xs) ys h = drop-append n xs ys (omega arith)

  pub take_all : (n : ℕ) (xs : List A) → length xs ≤ n → take n xs ≡ xs
  take_all zero [] h = refl
  take_all zero (x ∷ xs) h = absurd (omega arith)
  take_all (suc n) [] h = refl
  take_all (suc n) (x ∷ xs) h = ap (λ l. x ∷ l) (take_all n xs (omega arith))

-- A predicate at every element.
module _ {ℓ κ} {A : Type ℓ} (P : A → Type κ) where
  abbrev pub All : List A → Type κ
  All [] = Unit
  All (x ∷ xs) = P x × All xs

  pub All-append : (xs ys : List A) → All xs → All ys → All (xs ++ ys)
  All-append [] ys hx hy = hy
  All-append (x ∷ xs) ys hx hy = (hx.0, All-append xs ys hx.1 hy)

  pub All-take : (n : ℕ) (xs : List A) → All xs → All (take n xs)
  All-take zero xs h = tt
  All-take (suc n) [] h = tt
  All-take (suc n) (x ∷ xs) h = (h.0, All-take n xs h.1)

  pub All-drop : (n : ℕ) (xs : List A) → All xs → All (drop n xs)
  All-drop zero xs h = h
  All-drop (suc n) [] h = tt
  All-drop (suc n) (x ∷ xs) h = All-drop n xs h.1

-- A position behind the first part of an appended list is one in the second.
module _ {ℓ} {A : Type ℓ} where
  pub drop-append_far :
      (k : ℕ) (xs ys : List A) (m : ℕ) → m ≡ length xs + k → drop m (xs ++ ys) ≡ drop k ys
  drop-append_far k [] ys m e = let same : m ≡ k = omega arith in ap (λ (t : ℕ). drop t ys) same
  drop-append_far k (x ∷ xs) ys zero e = absurd (omega arith)
  drop-append_far k (x ∷ xs) ys (suc m) e = drop-append_far k xs ys m (omega arith)

  pub get_or-append_far :
      (k : ℕ) (xs ys : List A) (m : ℕ) (d : A)
      → m ≡ length xs + k
      → get_or (xs ++ ys) m d ≡ get_or ys k d
  get_or-append_far k [] ys m d e =
      let same : m ≡ k = omega arith in ap (λ (t : ℕ). get_or ys t d) same
  get_or-append_far k (x ∷ xs) ys zero d e = absurd (omega arith)
  get_or-append_far k (x ∷ xs) ys (suc m) d e = get_or-append_far k xs ys m d (omega arith)

-- The middle part of three, by the lengths.
module _ {ℓ} {A : Type ℓ} where
  pub substr-append :
      (from count : ℕ) (xs ys zs : List A)
      → length xs ≡ from
      → length ys ≡ count
      → substr from count (xs ++ (ys ++ zs)) ≡ ys
  substr-append from count xs ys zs here wide =
      ap (take count) (drop-append from xs (ys ++ zs) here) ∙ take-append count ys zs wide

  -- What stands behind the part that is taken does not matter.
  pub take-append_near : (n : ℕ) (xs ys : List A) → n ≤ length xs → take n (xs ++ ys) ≡ take n xs
  take-append_near zero xs ys h = refl
  take-append_near (suc n) [] ys h = absurd (omega arith)
  take-append_near (suc n) (x ∷ xs) ys h = ap (λ l. x ∷ l) (take-append_near n xs ys (omega arith))

  pub drop-append_near :
      (n : ℕ) (xs ys : List A) → n ≤ length xs → drop n (xs ++ ys) ≡ drop n xs ++ ys
  drop-append_near zero xs ys h = refl
  drop-append_near (suc n) [] ys h = absurd (omega arith)
  drop-append_near (suc n) (x ∷ xs) ys h = drop-append_near n xs ys (omega arith)

  pub substr-append_near :
      (from count : ℕ) (xs ys : List A)
      → from + count ≤ length xs
      → substr from count (xs ++ ys) ≡ substr from count xs
  substr-append_near from count xs ys h =
      ap (take count) (drop-append_near from xs ys (omega arith))
      ∙ take-append_near count (drop from xs) ys (omega (arith, length-drop from xs))
