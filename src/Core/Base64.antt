-- ===== src/Core/Base64.antt =====
-- runtime/src/core/base64.cc: canonical base64 of byte strings.
pub mod Digits
pub mod Group
pub mod RoundTrip
pub mod Canonical
mod Runs
use Prim.Native.Nat.{bit_and, bit_or}
use opal_cpp.Common.{
  ℕ, suc, ◌+◌, ◌%◌, Bool, true, false, not, ◌&&◌, ◌||◌, List, [], ◌∷◌, ◌++◌, Option, none, some,
  Bytes, codes, length, get_or, ltb, ◌==◌, if◌then◌else◌, Outcome, ok, err, ◌>>=◌,
  serialization_error,
}
use opal_cpp.Common.Bits.{◌>>◌, shl32}

pub alphabet : Bytes
unfolding codes
alphabet = codes "ABCDEFGHIJKLMNOPQRSTUVWXYZabcdefghijklmnopqrstuvwxyz0123456789+/"

-- `BuildDecodeTable`: the loop over the alphabet, on a table that starts with -1 (`none`) everywhere.
pub build_decode_table : Bytes → ℕ → (ℕ → Option ℕ) → ℕ → Option ℕ
build_decode_table [] i table = table
build_decode_table (a ∷ rest) i table =
    build_decode_table rest (i + 1) (λ c. if c == a then some i else table c)

pub decode_value : ℕ → Option ℕ
unfolding build_decode_table alphabet
decode_value = build_decode_table alphabet 0 (λ c. none)

-- `kAlphabet[(group >> shift) & 0x3F]`.
pub sextet : ℕ → ℕ → ℕ
unfolding alphabet
sextet group shift = get_or alphabet (bit_and (group >> shift) 0x3f) 0

abbrev pub pad : ℕ
pad = b'='

-- `Base64Encode`. The index `i` is the list that is left; the last two clauses are `rest`.
pub encode : Bytes → Bytes
encode [] = []
encode (a ∷ []) = let group = shl32 a 16 in sextet group 18 ∷ sextet group 12 ∷ pad ∷ pad ∷ []
encode (a ∷ b ∷ []) =
    let group = bit_or (shl32 a 16) (shl32 b 8) in
    sextet group 18 ∷ sextet group 12 ∷ sextet group 6 ∷ pad ∷ []
encode (a ∷ b ∷ c ∷ bytes) =
    let group = bit_or (bit_or (shl32 a 16) (shl32 b 8)) c in
    sextet group 18 ∷ sextet group 12 ∷ sextet group 6 ∷ sextet group 0 ∷ encode bytes

-- The state of the inner loop: `padding` and `group`.
abbrev pub Quad : Type 0
Quad = ℕ × ℕ

-- One round `j` of the inner loop on the character `c`; `fourth` is `text[i + 3]`.
pub add_char : Bool → ℕ → ℕ → ℕ → Quad → Outcome Quad
add_char last fourth j c (padding, group) =
    if c == pad
    then if not last || ltb j 2 || (j == 2 && not (fourth == pad))
      then err (serialization_error (codes "base64: misplaced padding"))
      else ok (padding + 1, shl32 group 6)
    else elim (decode_value c) [
      | none ↦ err (serialization_error (codes "base64: invalid character"))
      | some value ↦ ok (padding, bit_or (shl32 group 6) value)
    ]

-- What the body of the outer loop does after the inner one.
pub take_bytes : Quad → Outcome Bytes
take_bytes (padding, group) =
    if (padding == 1 && not (bit_and group 0xff == 0))
      || (padding == 2 && not (bit_and group 0xffff == 0))
    then err (serialization_error (codes "base64: non-canonical trailing bits"))
    else ok (
        bit_and (group >> 16) 0xff ∷ (if ltb padding 2 then bit_and (group >> 8) 0xff ∷ [] else [])
        ++ (if ltb padding 1 then bit_and group 0xff ∷ [] else []))

pub decode_group : Bool → ℕ → ℕ → ℕ → ℕ → Outcome Bytes
decode_group last c0 c1 c2 c3 = do
  q0 ← add_char last c3 0 c0 (0, 0)
  q1 ← add_char last c3 1 c1 q0
  q2 ← add_char last c3 2 c2 q1
  q3 ← add_char last c3 3 c3 q2
  take_bytes q3

pub is_empty : Bytes → Bool
is_empty [] = true
is_empty (c ∷ text) = false

-- The outer loop. `decode` has checked that no group is cut short, so the last clause is not met.
pub decode_loop : Bytes → Outcome Bytes
decode_loop [] = ok []
decode_loop (c0 ∷ c1 ∷ c2 ∷ c3 ∷ text) = do
  bytes ← decode_group (is_empty text) c0 c1 c2 c3
  more ← decode_loop text
  ok (bytes ++ more)
decode_loop _ = ok []

-- `Base64Decode`.
pub decode : Bytes → Outcome Bytes
decode text =
    if length text % 4 == 0
    then decode_loop text
    else err (serialization_error (codes "base64: length must be a multiple of 4"))
