-- ===== src/EventStream/Value/RoundTrip.antt =====
-- Header values that are encoded and decoded.
use opal_cpp.Common.{
  ℕ, ◌^◌, ◌≤◌, ◌<◌, ◌≡◌, refl, ap, sym, ◌∙◌, arith, true, false, [], ◌∷◌, ◌++◌, some, Bytes, length,
  take-append, drop-append, append_assoc, length-append, ltb, Bool-cases, inl, inr, AreBytes,
}
use mathlib.Core.Option.{none-ne-some, some-injective}
use native.Mathlib.Nat.{mod-eq_of_lt}
use opal_cpp.EventStream.Value.{
  HeaderValue, bool_value, byte_value, short_value, int_value, long_value, timestamp_value,
  blob_value, string_value, uuid_value, big_endian, encode_sized, encode_value, fixed,
  decode_number, decode_bytes, decode_sized, decode_tagged, decode_value,
}
use opal_cpp.EventStream.Value.BigEndian.{length-big_endian, read-big_endian, big_endian-byte}

-- The values that the C++ types hold.
abbrev pub IsValue : HeaderValue → Type 0
IsValue (bool_value b) = Unit
IsValue (byte_value v) = v < 2 ^ 8
IsValue (short_value v) = v < 2 ^ 16
IsValue (int_value v) = v < 2 ^ 32
IsValue (long_value v) = v < 2 ^ 64
IsValue (timestamp_value v) = v < 2 ^ 64
IsValue (blob_value bytes) = AreBytes bytes
IsValue (string_value text) = AreBytes text
IsValue (uuid_value bytes) = AreBytes bytes × (length bytes ≡ 16)

fixed-append :
    (n : ℕ) (bytes rest : Bytes) → length bytes ≡ n → fixed n (bytes ++ rest) ≡ some (bytes, rest)
unfolding fixed
fixed-append n bytes rest e = elim (Bool-cases (ltb (length (bytes ++ rest)) n)) [
  | inl short ↦ absurd (ground (arith, length-append bytes rest))
  | inr long ↦ rw (long, take-append n bytes rest e, drop-append n bytes rest e) refl
]

decode_number-big_endian :
    (n : ℕ) (make : ℕ → HeaderValue) (v : ℕ) (rest : Bytes)
    → 256 ^ n ≤ 2 ^ 64
    → v < 256 ^ n
    → decode_number n make (big_endian v n ++ rest) ≡ some (make v, rest)
unfolding decode_number
decode_number-big_endian n make v rest fits small =
    rw
      (
        fixed-append n (big_endian v n) rest (length-big_endian v n),
        read-big_endian n v fits small,
        mod-eq_of_lt small,
      )
      refl

decode_bytes-append :
    (n : ℕ) (make : Bytes → HeaderValue) (bytes rest : Bytes)
    → length bytes ≡ n
    → decode_bytes n make (bytes ++ rest) ≡ some (make bytes, rest)
unfolding decode_bytes
decode_bytes-append n make bytes rest e = rw (fixed-append n bytes rest e) refl

decode_sized-append :
    (make : Bytes → HeaderValue) (bytes rest : Bytes)
    → length bytes < 2 ^ 16
    → decode_sized make ((big_endian (length bytes) 2 ++ bytes) ++ rest) ≡ some (make bytes, rest)
unfolding decode_sized
decode_sized-append make bytes rest small =
    ap (decode_sized make) (append_assoc (big_endian (length bytes) 2) bytes rest)
    ∙ rw
        (
          fixed-append 2 (big_endian (length bytes) 2) (bytes ++ rest)
              (length-big_endian (length bytes) 2),
          read-big_endian 2 (length bytes) (omega arith) small,
        )
        (decode_bytes-append (length bytes) make bytes rest refl)

encode_sized_cases :
    (tag : ℕ) (text bytes : Bytes)
    → encode_sized tag text ≡ some bytes
    → (length text < 2 ^ 16) × (tag ∷ (big_endian (length text) 2 ++ text) ≡ bytes)
unfolding encode_sized
encode_sized_cases tag text bytes e = elim (Bool-cases (ltb 0xffff (length text))) [
  | inl long ↦ absurd (none-ne-some _ (rw long at e))
  | inr fits ↦ (ground arith, some-injective _ _ (rw fits at e))
]

-- Decoding what stands behind a known type byte.
decode_as :
    (v : HeaderValue) (encoded bytes rest : Bytes)
    → some encoded ≡ some bytes
    → decode_value (encoded ++ rest) ≡ some (v, rest)
    → decode_value (bytes ++ rest) ≡ some (v, rest)
decode_as v encoded bytes rest e h =
    ap (λ (t : Bytes). decode_value (t ++ rest)) (sym (some-injective _ _ e)) ∙ h

-- What the encoder appends for a value of its type, the decoder takes off again.
pub decode_value-encode :
    (v : HeaderValue) (bytes rest : Bytes)
    → IsValue v
    → encode_value v ≡ some bytes
    → decode_value (bytes ++ rest) ≡ some (v, rest)
unfolding decode_value encode_value decode_tagged
decode_value-encode (bool_value true) bytes rest h e =
    decode_as (bool_value true) (0 ∷ []) bytes rest e refl
decode_value-encode (bool_value false) bytes rest h e =
    decode_as (bool_value false) (1 ∷ []) bytes rest e refl
decode_value-encode (byte_value v) bytes rest h e =
    decode_as (byte_value v) (2 ∷ v ∷ []) bytes rest e (
      ap (λ (t : Bytes). decode_number 1 byte_value (t ++ rest)) (sym (big_endian-byte v h))
      ∙ decode_number-big_endian 1 byte_value v rest (omega arith) h)
decode_value-encode (short_value v) bytes rest h e =
    decode_as (short_value v) (3 ∷ big_endian v 2) bytes rest e
      (decode_number-big_endian 2 short_value v rest (omega arith) h)
decode_value-encode (int_value v) bytes rest h e =
    decode_as (int_value v) (4 ∷ big_endian v 4) bytes rest e
      (decode_number-big_endian 4 int_value v rest (omega arith) h)
decode_value-encode (long_value v) bytes rest h e =
    decode_as (long_value v) (5 ∷ big_endian v 8) bytes rest e
      (decode_number-big_endian 8 long_value v rest (omega arith) h)
decode_value-encode (timestamp_value v) bytes rest h e =
    decode_as (timestamp_value v) (8 ∷ big_endian v 8) bytes rest e
      (decode_number-big_endian 8 timestamp_value v rest (omega arith) h)
decode_value-encode (blob_value text) bytes rest h e =
    let (small, same) = encode_sized_cases 6 text bytes e in
    decode_as (blob_value text) (6 ∷ (big_endian (length text) 2 ++ text)) bytes rest
      (ap (λ (t : Bytes). some t) same) (decode_sized-append blob_value text rest small)
decode_value-encode (string_value text) bytes rest h e =
    let (small, same) = encode_sized_cases 7 text bytes e in
    decode_as (string_value text) (7 ∷ (big_endian (length text) 2 ++ text)) bytes rest
      (ap (λ (t : Bytes). some t) same) (decode_sized-append string_value text rest small)
decode_value-encode (uuid_value text) bytes rest h e =
    decode_as (uuid_value text) (9 ∷ text) bytes rest e
      (decode_bytes-append 16 uuid_value text rest h.1)
