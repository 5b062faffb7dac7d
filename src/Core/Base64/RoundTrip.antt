-- ===== src/Core/Base64/RoundTrip.antt =====
-- Decoding undoes encoding, and only the encoder's texts are decoded.
use Prim.Native.Nat.{bit_or}
use opal_cpp.Common.{
  ℕ, ◌+◌, ◌*◌, ◌/◌, ◌%◌, ◌^◌, ◌<◌, ◌≡◌, refl, arith, ok, [], ◌∷◌, ◌++◌, Bytes, ap, ◌∙◌, AreBytes,
  IsByte, length, ◌>>=◌,
}
use native.Mathlib.Nat.{div-one}
use opal_cpp.Common.Bits.{◌<<◌, shl32, or_pack}
use opal_cpp.Core.Base64.{pad, encode, decode, decode_loop, is_empty}
use opal_cpp.Core.Base64.Digits.{char_of, sextet_lem}
use opal_cpp.Core.Base64.Group.{
  group_of, three_bytes, decode_group-full, decode_group-pad, decode_group-two_pads, take_bytes-pad,
  take_bytes-pad_pad,
}

pack_two : (a b : ℕ) → IsByte a → IsByte b → bit_or (shl32 a 16) (shl32 b 8) ≡ (a * 2 ^ 8 + b) << 8
pack_two a b ha hb = omega (
  arith,
  ap (λ (t : ℕ). bit_or t (shl32 b 8)) (wide a ha),
  ap (λ (t : ℕ). bit_or (a << 16) t) (narrow b hb),
  or_pack 16 a (b * 2 ^ 8) (omega arith),
)
  where
    wide : (a : ℕ) → IsByte a → shl32 a 16 ≡ a << 16
    wide a ha = omega arith

    narrow : (b : ℕ) → IsByte b → shl32 b 8 ≡ b * 2 ^ 8
    narrow b hb = omega arith

pack_three :
    (a b c : ℕ)
    → IsByte a
    → IsByte b
    → IsByte c
    → bit_or (bit_or (shl32 a 16) (shl32 b 8)) c ≡ (a * 2 ^ 8 + b) * 2 ^ 8 + c
pack_three a b c ha hb hc =
    ap (λ (t : ℕ). bit_or t c) (pack_two a b ha hb) ∙ or_pack 8 (a * 2 ^ 8 + b) c hc

-- The four characters of a group.
abbrev pub chars : ℕ → Bytes → Bytes
chars g rest =
    char_of (g / 2 ^ 18 % 64)
    ∷ char_of (g / 2 ^ 12 % 64)
    ∷ char_of (g / 2 ^ 6 % 64)
    ∷ char_of (g % 64)
    ∷ rest

abbrev pub chars_pad : ℕ → Bytes
chars_pad g =
    char_of (g / 2 ^ 18 % 64) ∷ char_of (g / 2 ^ 12 % 64) ∷ char_of (g / 2 ^ 6 % 64) ∷ pad ∷ []

abbrev pub chars_pad_pad : ℕ → Bytes
chars_pad_pad g = char_of (g / 2 ^ 18 % 64) ∷ char_of (g / 2 ^ 12 % 64) ∷ pad ∷ pad ∷ []

pub encode-three :
    (a b c : ℕ) (rest : Bytes)
    → IsByte a
    → IsByte b
    → IsByte c
    → encode (a ∷ b ∷ c ∷ rest) ≡ chars ((a * 2 ^ 8 + b) * 2 ^ 8 + c) (encode rest)
unfolding encode
encode-three a b c rest ha hb hc =
    rw (pack_three a b c ha hb hc, sextet_lem, sextet_lem, sextet_lem, sextet_lem, div-one)

pub encode-two :
    (a b : ℕ) → IsByte a → IsByte b → encode (a ∷ b ∷ []) ≡ chars_pad ((a * 2 ^ 8 + b) * 2 ^ 8)
unfolding encode
encode-two a b ha hb = rw (pack_two a b ha hb, sextet_lem, sextet_lem, sextet_lem)

pub encode-one : (a : ℕ) → IsByte a → encode (a ∷ []) ≡ chars_pad_pad (a * 2 ^ 16)
unfolding encode
encode-one a ha =
    let small : shl32 a 16 ≡ a * 2 ^ 16 = omega arith in rw (small, sextet_lem, sextet_lem)

decode_loop-chars :
    (g : ℕ) (rest : Bytes)
    → g < 2 ^ 24
    → decode_loop (chars g rest) ≡ (decode_loop rest >>= λ more. ok (three_bytes g ++ more))
unfolding decode_loop
decode_loop-chars g rest h =
    let same : (group_of (g / 2 ^ 18 % 64) (g / 2 ^ 12 % 64) * 64 + g / 2 ^ 6 % 64) * 64 + g % 64
        ≡ g =
      omega arith in
    rw (
      decode_group-full (g / 2 ^ 18 % 64) (g / 2 ^ 12 % 64) (g / 2 ^ 6 % 64) (g % 64) (omega arith)
          (omega arith) (is_empty rest) (omega arith) (omega arith),
      same,
    )

decode_loop-chars_pad :
    (g : ℕ)
    → g < 2 ^ 24
    → g % 2 ^ 8 ≡ 0
    → decode_loop (chars_pad g) ≡ ok ((g / 2 ^ 16 % 256) ∷ (g / 2 ^ 8 % 256) ∷ [])
unfolding decode_loop is_empty
decode_loop-chars_pad g h low =
    let same : shl32 (group_of (g / 2 ^ 18 % 64) (g / 2 ^ 12 % 64) * 64 + g / 2 ^ 6 % 64) 6 ≡ g =
      omega arith in
    rw (
      decode_group-pad (g / 2 ^ 18 % 64) (g / 2 ^ 12 % 64) (g / 2 ^ 6 % 64) 0 (omega arith)
          (omega arith) (omega arith),
      same,
      take_bytes-pad,
      low,
    )

decode_loop-chars_pad_pad :
    (g : ℕ)
    → g < 2 ^ 24
    → g % 2 ^ 16 ≡ 0
    → decode_loop (chars_pad_pad g) ≡ ok ((g / 2 ^ 16 % 256) ∷ [])
unfolding decode_loop is_empty
decode_loop-chars_pad_pad g h low =
    let same : shl32 (shl32 (group_of (g / 2 ^ 18 % 64) (g / 2 ^ 12 % 64)) 6) 6 ≡ g = omega arith in
    rw (
      decode_group-two_pads (g / 2 ^ 18 % 64) (g / 2 ^ 12 % 64) 0 0 (omega arith) (omega arith),
      same,
      take_bytes-pad_pad,
      low,
    )

decode_loop-encode : (bytes : Bytes) → AreBytes bytes → decode_loop (encode bytes) ≡ ok bytes
decode_loop-encode [] h = unfold encode decode_loop in refl
decode_loop-encode (a ∷ []) (ha, _) =
    let same : a * 2 ^ 16 / 2 ^ 16 % 256 ≡ a = omega arith in
    rw (encode-one a ha, decode_loop-chars_pad_pad (a * 2 ^ 16) (omega arith) (omega arith), same)
decode_loop-encode (a ∷ b ∷ []) (ha, (hb, _)) =
    let g : ℕ = (a * 2 ^ 8 + b) * 2 ^ 8 in
    let first : g / 2 ^ 16 % 256 ≡ a = omega arith in
    let second : g / 2 ^ 8 % 256 ≡ b = omega arith in
    rw (encode-two a b ha hb, decode_loop-chars_pad g (omega arith) (omega arith), first, second)
decode_loop-encode (a ∷ b ∷ c ∷ bytes) (ha, (hb, (hc, h))) =
    let g : ℕ = (a * 2 ^ 8 + b) * 2 ^ 8 + c in
    let first : g / 2 ^ 16 % 256 ≡ a = omega arith in
    let second : g / 2 ^ 8 % 256 ≡ b = omega arith in
    let third : g % 256 ≡ c = omega arith in
    rw (
      encode-three a b c bytes ha hb hc,
      decode_loop-chars g (encode bytes) (omega arith),
      decode_loop-encode bytes h,
      first,
      second,
      third,
    )

length-encode : (bytes : Bytes) → length (encode bytes) ≡ (length bytes + 2) / 3 * 4
unfolding encode
length-encode [] = omega arith
length-encode (a ∷ []) = omega arith
length-encode (a ∷ b ∷ []) = omega arith
length-encode (a ∷ b ∷ c ∷ bytes) = omega (arith, length-encode bytes)

-- Every byte string is decoded from its encoding, which has four characters for each three bytes
-- begun.
pub decode-encode :
    (bytes : Bytes)
    → AreBytes bytes
    → (decode (encode bytes) ≡ ok bytes) × (length (encode bytes) ≡ (length bytes + 2) / 3 * 4)
unfolding decode
decode-encode bytes h =
    let whole : length (encode bytes) % 4 ≡ 0 = omega (arith, length-encode bytes) in
    (rw whole (decode_loop-encode bytes h), length-encode bytes)
