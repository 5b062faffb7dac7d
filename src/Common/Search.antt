-- ===== src/Common/Search.antt =====
-- `text.find(needle)` of a byte string, and where it finds what stands in a text of lines.
use Prim.Native.Nat.{ℕ, suc, ◌+◌, ◌≤◌}
use mathlib.Core.Path.{◌≡◌, refl, ap, ◌∙◌}
use mathlib.Core.Logic.{inl, inr}
use mathlib.Core.Bool.{Bool, true, false, ◌&&◌}
use mathlib.Core.Option.{Option, none, some, none-ne-some, some-injective}
use mathlib.Core.List.{[], ◌∷◌, ◌++◌}
use native.Mathlib.Omega.{arith}
use opal_cpp.Common.Tests.{◌==◌, if◌then◌else◌, Bool-cases, Option-cases}
use opal_cpp.Common.Lists.{length}
use opal_cpp.Common.Text.{Bytes}
use opal_cpp.Common.Split.{Lacks}

-- `text.starts_with(needle)`.
unfoldable pub is_front : Bytes → Bytes → Bool
is_front [] text = true
is_front (c ∷ needle) [] = false
is_front (c ∷ needle) (x ∷ text) = x == c && is_front needle text

abbrev pub one_later : Option ℕ → Option ℕ
one_later none = none
one_later (some i) = some (suc i)

unfoldable pub find_text : Bytes → Bytes → Option ℕ
find_text needle [] = if is_front needle [] then some 0 else none
find_text needle (x ∷ text) =
    let later = find_text needle text in
    if is_front needle (x ∷ text) then some 0 else one_later later

is_front-append :
    (needle text more : Bytes) → is_front needle text ≡ true → is_front needle (text ++ more) ≡ true
unfolding is_front
is_front-append [] text more h = refl
is_front-append (c ∷ needle) [] more h = cc
is_front-append (c ∷ needle) (x ∷ text) more h = ground (arith, is_front-append needle text more)

is_front-append_long :
    (needle text more : Bytes)
    → length needle ≤ length text
    → is_front needle (text ++ more) ≡ is_front needle text
unfolding is_front
is_front-append_long [] text more h = refl
is_front-append_long (c ∷ needle) [] more h = absurd (omega arith)
is_front-append_long (c ∷ needle) (x ∷ text) more h =
    rw (is_front-append_long needle text more (omega arith)) refl

is_front-length : (needle text : Bytes) → is_front needle text ≡ true → length needle ≤ length text
unfolding is_front
is_front-length [] text h = omega arith
is_front-length (c ∷ needle) [] h = cc
is_front-length (c ∷ needle) (x ∷ text) h = ground (arith, is_front-length needle text)

-- The needle stands in the text where it is found.
pub find_text-bounded :
    (needle text : Bytes) (i : ℕ) → find_text needle text ≡ some i → i + length needle ≤ length text
unfolding find_text
find_text-bounded needle [] i e = elim (Bool-cases (is_front needle [])) [
  | inl here ↦
      let at : 0 ≡ i = some-injective _ _ (rw here at e) in
      omega (arith, is_front-length needle [] here)
  | inr absent ↦ absurd (none-ne-some _ (rw absent at e))
]
find_text-bounded needle (x ∷ text) i e = elim (Bool-cases (is_front needle (x ∷ text))) [
  | inl here ↦
      let at : 0 ≡ i = some-injective _ _ (rw here at e) in
      omega (arith, is_front-length needle (x ∷ text) here)
  | inr later ↦ elim (Option-cases (find_text needle text)) [
    | inl absent ↦ absurd (none-ne-some _ (rw (later, absent) at e))
    | inr (j, found) ↦
        let at : suc j ≡ i = some-injective _ _ (rw (later, found) at e) in
        omega (arith, find_text-bounded needle text j found)
  ]
]

-- What is found in a text is found with more behind it.
pub find_text-append :
    (needle text more : Bytes) (i : ℕ)
    → find_text needle text ≡ some i
    → find_text needle (text ++ more) ≡ some i
unfolding find_text is_front
find_text-append needle [] more i e = elim (Bool-cases (is_front needle [])) [
  | inl here ↦ at_front needle more i here (rw here at e)
  | inr absent ↦ absurd (none-ne-some _ (rw absent at e))
]
  where
    at_front :
        (needle more : Bytes) (i : ℕ)
        → is_front needle [] ≡ true
        → ◌≡◌ {A = Option ℕ} (some 0) (some i)
        → find_text needle more ≡ some i
    at_front [] [] i here e = e
    at_front [] (x ∷ more) i here e = e
    at_front (c ∷ needle) more i here e = cc
find_text-append needle (x ∷ text) more i e = elim (Bool-cases (is_front needle (x ∷ text))) [
  | inl here ↦ rw (is_front-append needle (x ∷ text) more here) (rw here at e)
  | inr later ↦ elim (Option-cases (find_text needle text)) [
    | inl absent ↦ absurd (none-ne-some _ (rw (later, absent) at e))
    | inr (j, found) ↦
        let long : length needle ≤ length (x ∷ text) =
          omega (arith, find_text-bounded needle text j found) in
        rw
          (
            is_front-append_long needle (x ∷ text) more long,
            later,
            find_text-append needle text more j found,
          )
          (rw (later, found) at e)
  ]
]

-- What is found within the first part is found in the first part alone.
pub find_text-near :
    (needle text more : Bytes) (i : ℕ)
    → find_text needle (text ++ more) ≡ some i
    → i + length needle ≤ length text
    → find_text needle text ≡ some i
unfolding find_text is_front
find_text-near [] [] [] i e fits = e
find_text-near [] [] (y ∷ more) i e fits = e
find_text-near (c ∷ needle) [] more i e fits = absurd (omega arith)
find_text-near needle (x ∷ text) more i e fits =
    let same : is_front needle (x ∷ (text ++ more)) ≡ is_front needle (x ∷ text) =
      is_front-append_long needle (x ∷ text) more (omega arith) in
    elim (Bool-cases (is_front needle (x ∷ text))) [
      | inl here ↦ rw here (rw (same, here) at e)
      | inr later ↦ elim (Option-cases (find_text needle (text ++ more))) [
        | inl absent ↦ absurd (none-ne-some _ (rw (same, later, absent) at e))
        | inr (j, found) ↦
            let at : suc j ≡ i = some-injective _ _ (rw (same, later, found) at e) in
            rw (later, find_text-near needle text more j found (omega arith)) (ap some at)
      ]
    ]

-- A part that lacks the needle's first byte is passed over.
pub find_text-skip :
    (c : ℕ) (needle text more : Bytes) (i : ℕ)
    → Lacks c text
    → find_text (c ∷ needle) more ≡ some i
    → find_text (c ∷ needle) (text ++ more) ≡ some (length text + i)
unfolding find_text is_front
find_text-skip c needle [] more i h e = e ∙ ap some (omega arith)
find_text-skip c needle (x ∷ text) more i h e =
    let other : (x == c) ≡ false = ground arith in
    rw (other, find_text-skip c needle text more i h.1 e) (ap some (omega arith))

pub find_text-Lacks :
    (c : ℕ) (needle text : Bytes) → Lacks c text → find_text (c ∷ needle) text ≡ none
unfolding find_text is_front
find_text-Lacks c needle [] h = refl
find_text-Lacks c needle (x ∷ text) h = ground (arith, find_text-Lacks c needle text h.1)
