-- ===== src/Core/Base64/Digits.antt =====
-- The alphabet and the decode table are inverse to one another.
use opal_cpp.Common.{
  ℕ, ap, ◌%◌, ◌<◌, ◌≡◌, refl, arith, Bool, true, false, not, ◌&&◌, Option, none, some, get_or, ltb,
  ◌==◌, table, table_entry,
}
use opal_cpp.Common.Bits.{◌>>◌, and_mask}
use opal_cpp.Core.Base64.{alphabet, decode_value, sextet, pad}

pub char_of : ℕ → ℕ
unfolding alphabet
char_of v = get_or alphabet v 0

decodes_to : ℕ → Option ℕ → Bool
decodes_to v none = false
decodes_to v (some w) = v == w

encodes_to : ℕ → Option ℕ → Bool
unfolding char_of
encodes_to c none = true
encodes_to c (some v) = ltb v 64 && (char_of v == c && not (c == pad))

reads_back : ℕ → Bool
unfolding decodes_to char_of
reads_back v =
    decodes_to v (decode_value (char_of v)) && (not (char_of v == pad) && ltb (char_of v) 256)

value_table : table reads_back 64 ≡ true
unfolding table reads_back decode_value
value_table = refl

char_table : table (λ c. encodes_to c (decode_value c)) 256 ≡ true
unfolding table encodes_to decode_value
char_table = refl

pub decode_value-char_of :
    (v : ℕ)
    → v < 64
    → (decode_value (char_of v) ≡ some v) × ((char_of v == pad) ≡ false) × (char_of v < 256)
unfolding reads_back
decode_value-char_of v h = ground (arith, table_entry _ 64 v h value_table)

pub decode_value_sound :
    (c v : ℕ)
    → c < 256
    → decode_value c ≡ some v
    → (v < 64) × (char_of v ≡ c) × ((c == pad) ≡ false)
unfolding encodes_to
decode_value_sound c v h e = ground (arith, table_entry _ 256 c h char_table)

-- A sextet is the character of six bits of the group.
pub sextet_lem : (group shift : ℕ) → sextet group shift ≡ char_of ((group >> shift) % 64)
unfolding sextet char_of
sextet_lem group shift = ap (λ (v : ℕ). get_or alphabet v 0) (and_mask 6 (group >> shift))
