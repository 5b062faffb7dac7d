-- ===== src/Common/Decimal.antt =====
-- Numbers in decimal: `std::to_string` of a number that is not negative, and its value again.
use Prim.Native.Nat.{ℕ, zero, suc, ◌+◌, ◌-◌, ◌*◌, ◌/◌, ◌%◌, ◌≤◌}
use mathlib.Core.Path.{◌≡◌, refl}
use mathlib.Core.Logic.{◌≢◌, inl, inr}
use mathlib.Core.List.{[], ◌∷◌, ◌++◌, cons-ne-nil}
use native.Mathlib.Omega.{arith}
use opal_cpp.Common.Tests.{ltb, if◌then◌else◌, Bool-cases}
use opal_cpp.Common.Lists.{All, All-append}
use opal_cpp.Common.Text.{Bytes}

-- The number itself is fuel enough, since it falls at every digit.
unfoldable pub decimal_loop : ℕ → ℕ → Bytes
decimal_loop zero n = (n % 10 + b'0') ∷ []
decimal_loop (suc fuel) n =
    let front = decimal_loop fuel (n / 10) in
    if ltb n 10 then (n + b'0') ∷ [] else front ++ ((n % 10 + b'0') ∷ [])

unfoldable pub decimal : ℕ → Bytes
decimal n = decimal_loop n n

-- The value of digits behind a number that is already read.
unfoldable pub digits_value : ℕ → Bytes → ℕ
digits_value n [] = n
digits_value n (c ∷ text) = digits_value (n * 10 + (c - b'0')) text

abbrev pub IsDigit : ℕ → Type 0
IsDigit c = (b'0' ≤ c) × (c ≤ b'9')

digits_value-append :
    (text more : Bytes) (n : ℕ)
    → digits_value n (text ++ more) ≡ digits_value (digits_value n text) more
unfolding digits_value
digits_value-append [] more n = refl
digits_value-append (c ∷ text) more n = digits_value-append text more (n * 10 + (c - b'0'))

value_of_loop : (fuel n : ℕ) → n ≤ fuel → digits_value 0 (decimal_loop fuel n) ≡ n
unfolding decimal_loop digits_value
value_of_loop zero n h = omega arith
value_of_loop (suc fuel) n h = elim (Bool-cases (ltb n 10)) [
  | inl small ↦ rw small (omega arith)
  | inr large ↦
      rw
        (
          large,
          digits_value-append (decimal_loop fuel (n / 10)) ((n % 10 + b'0') ∷ []) 0,
          value_of_loop fuel (n / 10) (ground arith),
        )
        (omega arith)
]

digits_of_loop : (fuel n : ℕ) → n ≤ fuel → All IsDigit (decimal_loop fuel n)
unfolding decimal_loop
digits_of_loop zero n h = ground arith
digits_of_loop (suc fuel) n h = elim (Bool-cases (ltb n 10)) [
  | inl small ↦ rw small (ground arith)
  | inr large ↦ rw large (
      All-append IsDigit (decimal_loop fuel (n / 10)) _
        (digits_of_loop fuel (n / 10) (ground arith)) (ground arith))
]

append-ne-nil : (text : Bytes) (c : ℕ) → text ++ (c ∷ []) ≢ []
append-ne-nil [] c = cons-ne-nil _ _
append-ne-nil (x ∷ text) c = cons-ne-nil _ _

pub decimal-ne-nil : (n : ℕ) → decimal n ≢ []
unfolding decimal decimal_loop
decimal-ne-nil zero = cons-ne-nil _ _
decimal-ne-nil (suc n) = elim (Bool-cases (ltb (suc n) 10)) [
  | inl small ↦ rw small (cons-ne-nil _ _)
  | inr large ↦ rw large (append-ne-nil _ _)
]

-- A number is read back from its decimal text, which is digits only.
pub digits_value-decimal : (n : ℕ) → digits_value 0 (decimal n) ≡ n
unfolding decimal
digits_value-decimal n = value_of_loop n n (omega arith)

pub IsDigit-decimal : (n : ℕ) → All IsDigit (decimal n)
unfolding decimal
IsDigit-decimal n = digits_of_loop n n (omega arith)
