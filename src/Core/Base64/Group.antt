-- ===== src/Core/Base64/Group.antt =====
-- One group of four characters: what `add_char` and `take_bytes` compute, in arithmetic.
use Prim.Native.Nat.{bit_or}
use opal_cpp.Common.{
  ℕ, ◌+◌, ◌*◌, ◌/◌, ◌%◌, ◌^◌, ◌<◌, ◌≤◌, ◌≡◌, refl, arith, Bool, true, not, ◌&&◌, ◌||◌, ltb, ◌==◌,
  codes, ok, err, [], ◌∷◌, Bytes, ◌⊎◌, inl, inr, ap, ◌∙◌, sym, Option-cases, Error,
  serialization_error, if◌then◌else◌,
}
use opal_cpp.Common.Bits.{shl32, or_pack, and_mask}
use opal_cpp.Core.Base64.{decode_value, pad, add_char, take_bytes, decode_group}
use opal_cpp.Core.Base64.Digits.{char_of, decode_value-char_of, decode_value_sound}

shl32_small : (g : ℕ) → g < 2 ^ 26 → shl32 g 6 ≡ g * 64
shl32_small g h = omega arith

push_lem : (g v : ℕ) → g < 2 ^ 26 → v < 64 → bit_or (shl32 g 6) v ≡ g * 64 + v
push_lem g v hg hv = ap (λ (t : ℕ). bit_or t v) (shl32_small g hg) ∙ or_pack 6 g v hv

pub add_char-value :
    (last : Bool) (fourth j v p g : ℕ)
    → v < 64
    → g < 2 ^ 26
    → add_char last fourth j (char_of v) (p, g) ≡ ok (p, g * 64 + v)
unfolding add_char
add_char-value last fourth j v p g hv hg =
    let (decoded, not_pad, _) = decode_value-char_of v hv in
    rw (not_pad, decoded) (ap (λ (t : ℕ). ok (p, t)) (push_lem g v hg hv))

pub trailing_bits : Error
unfolding take_bytes
trailing_bits = serialization_error (codes "base64: non-canonical trailing bits")

pub misplaced : Error
unfolding add_char
misplaced = serialization_error (codes "base64: misplaced padding")

-- The bytes of a group of three, two and one.
abbrev pub three_bytes : ℕ → Bytes
three_bytes g = (g / 2 ^ 16 % 256) ∷ (g / 2 ^ 8 % 256) ∷ (g % 256) ∷ []

pub take_bytes_lem : (g : ℕ) → take_bytes (0, g) ≡ ok (three_bytes g)
unfolding take_bytes
take_bytes_lem g = rw (and_mask 8, and_mask 8, and_mask 8)

-- With one pad the low byte of the group must be zero, with two the low two bytes.
pub take_bytes-pad :
    (g : ℕ)
    → take_bytes (1, g) ≡ (
        if g % 2 ^ 8 == 0
        then ok ((g / 2 ^ 16 % 256) ∷ (g / 2 ^ 8 % 256) ∷ [])
        else err trailing_bits)
unfolding take_bytes trailing_bits
take_bytes-pad g = rw (and_mask 8 g, and_mask 8, and_mask 8) (ground arith)

pub take_bytes-pad_pad :
    (g : ℕ)
    → take_bytes (2, g)
      ≡ (if g % 2 ^ 16 == 0 then ok ((g / 2 ^ 16 % 256) ∷ []) else err trailing_bits)
unfolding take_bytes trailing_bits
take_bytes-pad_pad g = rw (and_mask 16 g, and_mask 8) (ground arith)

-- A pad is accepted only in the last group, third if the fourth is one too, or fourth.
pub add_char-pad :
    (fourth j p g : ℕ)
    → add_char true fourth j pad (p, g) ≡ (
        if ltb j 2 || (j == 2 && not (fourth == pad)) then err misplaced else ok (p + 1, shl32 g 6))
unfolding add_char misplaced
add_char-pad fourth j p g = refl

abbrev pub group_of : ℕ → ℕ → ℕ
group_of v0 v1 = (0 * 64 + v0) * 64 + v1

module _ (v0 v1 v2 v3 : ℕ) (h0 : v0 < 64) (h1 : v1 < 64) where
  pub decode_group-full :
      (last : Bool)
      → v2 < 64
      → v3 < 64
      → decode_group last (char_of v0) (char_of v1) (char_of v2) (char_of v3)
        ≡ ok (three_bytes ((group_of v0 v1 * 64 + v2) * 64 + v3))
  unfolding decode_group
  decode_group-full last h2 h3 =
      rw
        (
          add_char-value last (char_of v3) 0 v0 0 0 h0 (omega arith),
          add_char-value last (char_of v3) 1 v1 0 (0 * 64 + v0) h1 (omega arith),
          add_char-value last (char_of v3) 2 v2 0 (group_of v0 v1) h2 (omega arith),
          add_char-value last (char_of v3) 3 v3 0 (group_of v0 v1 * 64 + v2) h3 (omega arith),
        )
        (take_bytes_lem _)

  pub decode_group-pad :
      v2 < 64
      → decode_group true (char_of v0) (char_of v1) (char_of v2) pad
        ≡ take_bytes (1, shl32 (group_of v0 v1 * 64 + v2) 6)
  unfolding decode_group add_char
  decode_group-pad h2 = rw (
    add_char-value true pad 0 v0 0 0 h0 (omega arith),
    add_char-value true pad 1 v1 0 (0 * 64 + v0) h1 (omega arith),
    add_char-value true pad 2 v2 0 (group_of v0 v1) h2 (omega arith),
  )

  pub decode_group-two_pads :
      decode_group true (char_of v0) (char_of v1) pad pad
      ≡ take_bytes (2, shl32 (shl32 (group_of v0 v1) 6) 6)
  unfolding decode_group add_char
  decode_group-two_pads = rw (
    add_char-value true pad 0 v0 0 0 h0 (omega arith),
    add_char-value true pad 1 v1 0 (0 * 64 + v0) h1 (omega arith),
  )

-- What an accepted character says of itself.
pub add_char_sound :
    (last : Bool) (fourth j c p g q r : ℕ)
    → c < 256
    → g < 2 ^ 26
    → add_char last fourth j c (p, g) ≡ ok (q, r)
    → ((v : ℕ) × (v < 64) × (c ≡ char_of v) × (q ≡ p) × (r ≡ g * 64 + v))
      ⊎ ((c ≡ pad)
          × (last ≡ true)
          × (2 ≤ j)
          × ((j ≡ 2) → fourth ≡ pad)
          × (q ≡ p + 1)
          × (r ≡ g * 64))
unfolding add_char
add_char_sound last fourth j c p g q r hc hg e = elim (Option-cases (decode_value c)) [
  | inl invalid ↦ inr (ground (arith, shl32_small g hg))
  | inr (v, valid) ↦
      let (small, char, not_pad) = decode_value_sound c v hc valid in
      inl (
        v,
        small,
        sym char,
        ground (arith, push_lem g v hg small),
        ground (arith, push_lem g v hg small),
      )
]
