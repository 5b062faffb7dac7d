-- ===== src/Cbor/Runs.antt =====
-- The encoder and the decoder of runtime/src/cbor/cbor.cc on documents.
use opal_cpp.Common.{
  Bool, not, leb, ◌^◌, ◌&&◌, ◌||◌, if◌then◌else◌, ℕ, ◌*◌, ◌≡◌, refl, true, ltb, [], ◌∷◌, Bytes,
  codes, ok, err,
}
use opal_cpp.EventStream.Value.{big_endian}
use opal_cpp.Server.Router.Table.{bytes_lt}
use opal_cpp.Cbor.{
  ℤ, pos, negsuc, epoch_seconds, Document, bool_value, int_value, string_value, timestamp_value,
  list_value, map_value, empty_list, item, items_size, empty_map, entry, fields_size, initial_byte,
  write_type_and_value, write_int, write_double, is_whole, seconds, Floats, write_timestamp,
  encode_value, encode_items, encode_fields,
}
use opal_cpp.Cbor.Decode.{
  out_of_fuel, decode_map, key_of, insert_or_assign, max_depth, fail, definite, read_argument,
  take_text, read_chunk, chunks_loop, decode_chunked_string, decode_integer, at_break, is_done,
  behind_end, items_loop, fields_loop, decode_simple, decode_array, decode_text, decode_major,
  decode_value, whole, decode,
}
use opal_cpp.Cbor.Sound.{IsSound}
use opal_cpp.Cbor.Sound.Decoder.{decode-IsSound}
use opal_cpp.Cbor.Fuel.Loops.{decode_ends}

abbrev seconds_bits : ℤ → ℕ
seconds_bits (pos n) = n
seconds_bits (negsuc n) = 0

-- The order of doubles, by their bits.
abbrev signed_less : ℕ → ℕ → Bool
signed_less a b =
    if leb (2 ^ 63) a then not (leb (2 ^ 63) b) || ltb b a else not (leb (2 ^ 63) b) && ltb a b

-- Doubles that stand for a number of seconds without a fraction and without a sign.
abbrev whole_seconds : Floats
whole_seconds = record {
  from_int = seconds_bits;
  from_float = λ bits. bits;
  fraction = λ ms. 0;
  ldexp = λ mantissa exponent. 0;
  is_finite = λ bits. true;
  less = signed_less;
  milliseconds = λ bits. pos (bits * 1000);
}

abbrev sample : Document
sample = map_value (
    entry (codes "a")
      (list_value (item (int_value (negsuc 499)) (item (bool_value true) empty_list)))
      (entry (codes "b") (timestamp_value (pos 1000000) epoch_seconds)
        (entry (codes "c") (string_value (codes "hi")) empty_map)))

abbrev sample_bytes : Bytes
sample_bytes =
    0xa3 ∷ 0x61 ∷ 0x61 ∷ 0x82 ∷ 0x39 ∷ 0x01 ∷ 0xf3 ∷ 0xf5 ∷ 0x61 ∷ 0x62 ∷ 0xc1 ∷ 0x19 ∷ 0x03 ∷ 0xe8
    ∷ 0x61 ∷ 0x63 ∷ 0x62 ∷ 0x68 ∷ 0x69 ∷ []

sample_encoded : encode_value whole_seconds sample ≡ sample_bytes
unfolding encode_value encode_items encode_fields items_size fields_size initial_byte
    write_type_and_value write_int write_double is_whole seconds write_timestamp big_endian codes
sample_encoded = refl

-- A list of an indefinite length, and a text in two chunks.
indefinite_list :
    decode whole_seconds (0x9f ∷ 0x01 ∷ 0x20 ∷ 0xff ∷ [])
    ≡ ok (list_value (item (int_value (pos 1)) (item (int_value (negsuc 0)) empty_list)))
unfolding decode decode_value decode_major decode_array items_loop is_done behind_end at_break
    read_argument definite decode_integer whole
indefinite_list = refl

chunked_text :
    decode whole_seconds (0x7f ∷ 0x61 ∷ 0x61 ∷ 0x61 ∷ 0x62 ∷ 0xff ∷ [])
    ≡ ok (string_value (codes "ab"))
unfolding decode decode_value decode_major decode_text decode_chunked_string chunks_loop read_chunk
    take_text read_argument definite whole codes
chunked_text = refl

trailing : decode whole_seconds (0xf6 ∷ 0x00 ∷ []) ≡ err (fail (codes "trailing bytes after value"))
unfolding decode decode_value decode_major decode_simple whole
trailing = refl

-- An array of an indefinite length that the input ends in.
decode_ends_example : ¬ (decode whole_seconds (0x9f ∷ 0x01 ∷ []) ≡ err out_of_fuel)
decode_ends_example = decode_ends whole_seconds (0x9f ∷ 0x01 ∷ [])

-- A map whose keys are out of order and one of them twice.
abbrev loose_bytes : Bytes
loose_bytes = 0xa3 ∷ 0x61 ∷ 0x62 ∷ 0x01 ∷ 0x61 ∷ 0x61 ∷ 0x02 ∷ 0x61 ∷ 0x62 ∷ 0x03 ∷ []

abbrev loose : Document
loose =
    map_value
      (entry (codes "a") (int_value (pos 2)) (entry (codes "b") (int_value (pos 3)) empty_map))

loose_decoded : decode whole_seconds loose_bytes ≡ ok loose
unfolding decode decode_value decode_major decode_map fields_loop is_done behind_end key_of
    insert_or_assign decode_text decode_chunked_string take_text read_argument definite
    decode_integer bytes_lt whole codes
loose_decoded = refl

decode-IsSound_example : IsSound loose max_depth
decode-IsSound_example = decode-IsSound whole_seconds loose_bytes loose loose_decoded
