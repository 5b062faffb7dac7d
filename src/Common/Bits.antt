-- ===== src/Common/Bits.antt =====
-- Shifts and masks as arithmetic. `x << k` is `x * 2 ^ k`, `x >> k` is `x / 2 ^ k`, and the native
-- `bit_or` and `bit_and` are sums and remainders where the source packs and unpacks fields.
use Prim.Native.Nat.{
  ℕ, zero, suc, ◌+◌, ◌-◌, ◌*◌, ◌/◌, ◌%◌, ◌^◌, ◌≤◌, ◌<◌, min, max, bit_and, bit_or, digits,
  bit_and-bitwise, bit_or-bitwise,
}
use mathlib.Core.Path.{◌≡◌, refl, ap, ◌∙◌}
use native.Mathlib.Nat.{
  pow-suc, pow-succ', one-le-pow, div-add-mod, mul-add-mod_self_left, mod-eq_of_lt, mod-lt,
}
use native.Mathlib.Omega.{arith}

infixl 60 ◌<<◌ ◌>>◌
abbrev pub ◌<<◌ : ℕ → ℕ → ℕ
x << k = x * 2 ^ k

abbrev pub ◌>>◌ : ℕ → ℕ → ℕ
x >> k = x / 2 ^ k

-- The digit recursion behind a bit operation gives the same with any fuel that is enough.
fuel_enough :
    (z : ℕ → ℕ) (f : ℕ → ℕ → ℕ) (m n a b : ℕ) → a ≤ m → a ≤ n → digits z f m a b ≡ digits z f n a b
fuel_enough z f zero zero a b hm hn = refl
fuel_enough z f (suc m) (suc n) zero b hm hn = refl
fuel_enough z f (suc m) (suc n) (suc a) b hm hn =
    rw (fuel_enough z f m n (suc a / 2) (b / 2) (omega arith) (omega arith))
fuel_enough z f (suc m) zero zero b hm hn = refl
fuel_enough z f zero (suc n) zero b hm hn = refl
fuel_enough z f (suc m) zero (suc a) b hm hn = absurd (omega arith)
fuel_enough z f zero (suc n) (suc a) b hm hn = absurd (omega arith)

-- One binary digit of each operation.
or_digit : (a b : ℕ) → bit_or a b ≡ 2 * bit_or (a / 2) (b / 2) + max (a % 2) (b % 2)
or_digit zero b = omega (arith, bit_or-bitwise 0 b, bit_or-bitwise 0 (b / 2))
or_digit (suc a) b =
    let h = suc a / 2 in
    omega (
      arith,
      bit_or-bitwise (suc a) b,
      bit_or-bitwise h (b / 2),
      fuel_enough (λ y. y) max a h h (b / 2) (omega arith) (omega arith),
    )

and_digit : (a b : ℕ) → bit_and a b ≡ 2 * bit_and (a / 2) (b / 2) + min (a % 2) (b % 2)
and_digit zero b = omega (arith, bit_and-bitwise 0 b, bit_and-bitwise 0 (b / 2))
and_digit (suc a) b =
    let h = suc a / 2 in
    omega (
      arith,
      bit_and-bitwise (suc a) b,
      bit_and-bitwise h (b / 2),
      fuel_enough (λ y. 0) min a h h (b / 2) (omega arith) (omega arith),
    )

or-zero_below : (n a : ℕ) → a ≤ n → bit_or a 0 ≡ a
or-zero_below n zero h = refl
or-zero_below zero (suc a) h = absurd (omega arith)
or-zero_below (suc n) (suc a) h =
    omega (arith, or_digit (suc a) 0, or-zero_below n (suc a / 2) (omega arith))

and-zero_below : (n a : ℕ) → a ≤ n → bit_and a 0 ≡ 0
and-zero_below n zero h = refl
and-zero_below zero (suc a) h = absurd (omega arith)
and-zero_below (suc n) (suc a) h =
    omega (arith, and_digit (suc a) 0, and-zero_below n (suc a / 2) (omega arith))

double_shift : (a k : ℕ) → a * 2 ^ suc k ≡ 2 * (a * 2 ^ k)
double_shift a k = omega (arith, ap (λ (t : ℕ). a * t) (pow-suc 2 k))

-- Packing a field of `k` bits under another.
pub or_pack : (k a b : ℕ) → b < 2 ^ k → bit_or (a << k) b ≡ (a << k) + b
or_pack zero a zero h = omega (arith, or-zero_below (a * 1) (a * 1) (omega arith))
or_pack zero a (suc b) h = absurd (omega arith)
or_pack (suc k) a b h = omega (
  arith,
  or_digit (a * 2 ^ suc k) b,
  double_shift a k,
  ap (λ (t : ℕ). bit_or t (b / 2)) (halved a k),
  or_pack k a (b / 2) (omega (arith, pow-suc 2 k)),
)
  where
    halved : (a k : ℕ) → a * 2 ^ suc k / 2 ≡ a * 2 ^ k
    halved a k = omega (arith, double_shift a k)

mod_twice : (m a : ℕ) → 0 < m → a % (2 * m) ≡ 2 * (a / 2 % m) + a % 2
mod_twice m a h =
    let low : ℕ = 2 * (a / 2 % m) + a % 2 in
    ap (λ (t : ℕ). t % (2 * m)) (omega (arith, div-add-mod (a / 2) m))
    ∙ mul-add-mod_self_left (2 * m) (a / 2 / m) low
    ∙ mod-eq_of_lt (omega (arith, mod-lt (a / 2) h))

halved_mask : (k : ℕ) → (2 ^ suc k - 1) / 2 ≡ 2 ^ k - 1
halved_mask k = omega (arith, pow-suc 2 k)

-- A mask of `k` ones keeps the remainder.
pub and_mask : (k a : ℕ) → bit_and a (2 ^ k - 1) ≡ a % 2 ^ k
and_mask zero a = omega (arith, and-zero_below a a (omega arith))
and_mask (suc k) a = omega (
  arith,
  and_digit a (2 ^ suc k - 1),
  ap (λ (t : ℕ). bit_and (a / 2) t) (halved_mask k),
  ap (λ (t : ℕ). a % t) (pow-succ' 2 k),
  pow-succ' 2 k,
  one-le-pow k 2,
  and_mask k (a / 2),
  mod_twice (2 ^ k) a (one-le-pow k 2 (omega arith)),
)

-- `x << k` on a `uint32_t` and on a `uint64_t`.
abbrev pub shl32 : ℕ → ℕ → ℕ
shl32 x k = (x << k) % 2 ^ 32

abbrev pub shl64 : ℕ → ℕ → ℕ
shl64 x k = (x << k) % 2 ^ 64
