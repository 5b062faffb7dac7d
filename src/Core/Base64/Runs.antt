-- ===== src/Core/Base64/Runs.antt =====
-- Runs of the encoder and the decoder, and the theorems at concrete inputs.
use opal_cpp.Common.{
  ◌+◌, ◌*◌, ◌/◌, ◌≡◌, refl, arith, [], ◌∷◌, Bytes, codes, length, ok, err, AreBytes,
  serialization_error,
}
use opal_cpp.Core.Base64.{
  encode, decode, decode_loop, decode_group, add_char, take_bytes, decode_value, sextet, is_empty,
}
use opal_cpp.Core.Base64.RoundTrip.{decode-encode}
use opal_cpp.Core.Base64.Canonical.{decode_canonical}

encode_foob : encode (codes "foob") ≡ codes "Zm9vYg=="
unfolding encode sextet codes
encode_foob = refl

decode_foobar : decode (codes "Zm9vYmFy") ≡ ok (codes "foobar")
unfolding decode decode_loop decode_group add_char take_bytes decode_value is_empty codes
decode_foobar = refl

abbrev loose_bits : Bytes
unfolding codes
loose_bits = codes "Zh=="

decode-loose_bits :
    decode loose_bits ≡ err (serialization_error (codes "base64: non-canonical trailing bits"))
unfolding decode decode_loop decode_group add_char take_bytes decode_value is_empty codes
decode-loose_bits = refl

abbrev five_bytes : Bytes
five_bytes = 0 ∷ 255 ∷ 16 ∷ 77 ∷ 200 ∷ []

decode-encode_example :
    (decode (encode five_bytes) ≡ ok five_bytes) × (length (encode five_bytes) ≡ (5 + 2) / 3 * 4)
decode-encode_example = decode-encode five_bytes (omega arith)

decode_foob : decode (codes "Zm9vYg==") ≡ ok (codes "foob")
unfolding decode decode_loop decode_group add_char take_bytes decode_value is_empty codes
decode_foob = refl

decode_canonical_example : AreBytes (codes "foob") × (encode (codes "foob") ≡ codes "Zm9vYg==")
unfolding codes
decode_canonical_example =
    decode_canonical (codes "Zm9vYg==") (codes "foob") (omega arith) decode_foob
