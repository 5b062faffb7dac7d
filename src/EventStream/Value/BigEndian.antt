-- ===== src/EventStream/Value/BigEndian.antt =====
-- Reading a big-endian number back.
use Prim.Native.Nat.{bit_and, bit_or}
use native.Mathlib.Nat.{pow-suc, mod-eq_of_lt, div-div-eq-div-mul}
use opal_cpp.Common.{
  ℕ, zero, suc, ◌+◌, ◌*◌, ◌/◌, ◌%◌, ◌^◌, ◌≤◌, ◌<◌, ◌≡◌, refl, ap, sym, ◌∙◌, arith, [], ◌∷◌, ◌++◌,
  Bytes, length, AreBytes,
}
use opal_cpp.Common.Bits.{◌>>◌, shl64, or_pack, and_mask}
use opal_cpp.EventStream.Value.{big_endian, read_loop, read_big_endian}

pub length-big_endian : (value bytes : ℕ) → length (big_endian value bytes) ≡ bytes
unfolding big_endian
length-big_endian value zero = refl
length-big_endian value (suc bytes) = omega (arith, length-big_endian value bytes)

pub AreBytes-big_endian : (value bytes : ℕ) → AreBytes (big_endian value bytes)
unfolding big_endian
AreBytes-big_endian value zero = tt
AreBytes-big_endian value (suc bytes) =
    (omega (arith, and_mask 8 (value >> (8 * bytes))), AreBytes-big_endian value bytes)

-- One more byte of shift is one more division by 256.
shift_byte : (value bytes : ℕ) → value >> (8 * suc bytes) ≡ (value / 256) >> (8 * bytes)
shift_byte value bytes =
    ap (λ (t : ℕ). value / t) (power bytes) ∙ sym (div-div-eq-div-mul value 256 (2 ^ (8 * bytes)))
  where
    eight : (k : ℕ) → 2 ^ suc (suc (suc (suc (suc (suc (suc (suc k))))))) ≡ 256 * 2 ^ k
    eight k = omega (
      arith,
      pow-suc 2 k,
      pow-suc 2 (suc k),
      pow-suc 2 (suc (suc k)),
      pow-suc 2 (suc (suc (suc k))),
      pow-suc 2 (suc (suc (suc (suc k)))),
      pow-suc 2 (suc (suc (suc (suc (suc k))))),
      pow-suc 2 (suc (suc (suc (suc (suc (suc k)))))),
      pow-suc 2 (suc (suc (suc (suc (suc (suc (suc k))))))),
    )

    power : (bytes : ℕ) → 2 ^ (8 * suc bytes) ≡ 256 * 2 ^ (8 * bytes)
    power bytes = ap (λ (t : ℕ). 2 ^ t) (omega arith) ∙ eight (8 * bytes)

-- The last byte of the number is the last of the text.
big_endian-last :
    (value bytes : ℕ)
    → big_endian value (suc bytes) ≡ big_endian (value / 256) bytes ++ (value % 256 ∷ [])
unfolding big_endian
big_endian-last value zero = ap (λ (t : ℕ). t ∷ []) (omega (arith, and_mask 8 (value / 2 ^ 0)))
big_endian-last value (suc bytes) =
    ap (λ (t : ℕ). bit_and t 0xff ∷ big_endian value (suc bytes)) (shift_byte value bytes)
    ∙ ap (λ (t : Bytes). bit_and ((value / 256) >> (8 * bytes)) 0xff ∷ t)
        (big_endian-last value bytes)

read_loop-append :
    (bytes : Bytes) (value last : ℕ)
    → read_loop value (bytes ++ (last ∷ [])) ≡ bit_or (shl64 (read_loop value bytes) 8) last
unfolding read_loop
read_loop-append [] value last = refl
read_loop-append (byte ∷ bytes) value last =
    read_loop-append bytes (bit_or (shl64 value 8) byte) last

-- One step of the loop, while the value leaves room for a byte.
add_byte :
    (value byte : ℕ)
    → value < 2 ^ 56
    → byte < 256
    → bit_or (shl64 value 8) byte ≡ value * 256 + byte
add_byte value byte room small =
    ap (λ (t : ℕ). bit_or t byte) (mod-eq_of_lt (omega arith)) ∙ or_pack 8 value byte small

no_bytes : (value : ℕ) → 0 ≡ value → read_loop 0 (big_endian value 0) ≡ value
unfolding read_loop big_endian
no_bytes value e = e

-- A number that fits its width is read back from its big-endian bytes.
pub read-big_endian :
    (bytes value : ℕ)
    → 256 ^ bytes ≤ 2 ^ 64
    → value < 256 ^ bytes
    → read_big_endian (big_endian value bytes) ≡ value
unfolding read_big_endian
read-big_endian zero value fits small = no_bytes value (omega arith)
read-big_endian (suc bytes) value fits small =
    ap read_big_endian (big_endian-last value bytes)
    ∙ read_loop-append (big_endian (value / 256) bytes) 0 (value % 256)
    ∙ ap (λ (t : ℕ). bit_or (shl64 t 8) (value % 256))
        (read-big_endian bytes (value / 256) (omega (arith, pow-suc 256 bytes))
          (omega (arith, pow-suc 256 bytes)))
    ∙ add_byte (value / 256) (value % 256) (omega (arith, pow-suc 256 bytes)) (omega arith)
    ∙ omega arith

pub big_endian-byte : (value : ℕ) → value < 256 → big_endian value 1 ≡ value ∷ []
unfolding big_endian
big_endian-byte value small = ap (λ (t : ℕ). t ∷ []) (omega (arith, and_mask 8 (value / 2 ^ 0)))
