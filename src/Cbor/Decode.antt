-- ===== src/Cbor/Decode.antt =====
-- The decoder of runtime/src/cbor/cbor.cc. A position in the input is what the input holds from it
-- on; a value that is read comes with the bytes behind it.
use Prim.Native.Nat.{bit_and}
use opal_cpp.Common.{
  ℕ, zero, suc, ◌+◌, ◌-◌, ◌%◌, ◌^◌, Bool, true, false, not, ◌&&◌, ◌||◌, [], ◌∷◌, ◌++◌, Bytes,
  length, take, drop, ltb, leb, ◌==◌, if◌then◌else◌, codes, Outcome, ok, err, ◌>>=◌, Error,
  serialization_error,
}
use opal_cpp.Common.Bits.{◌>>◌}
use opal_cpp.EventStream.Value.{read_big_endian}
use opal_cpp.Server.Router.Table.{bytes_lt}
use opal_cpp.Cbor.{
  ℤ, pos, negsuc, epoch_seconds, Document, null_value, bool_value, int_value, double_value,
  string_value, blob_value, timestamp_value, list_value, map_value, Items, empty_list, item, Fields,
  empty_map, entry, k_unsigned, k_negative, k_bytes, k_text, k_array, k_map, k_tag, k_break,
  tag_epoch_timestamp, Floats,
}

abbrev pub max_depth : ℕ
max_depth = 64

-- `Fail`.
unfoldable pub fail : Bytes → Error
fail what = serialization_error (codes "cbor: " ++ what)

-- What a loop gives where its fuel is used up; it is no error of the source.
unfoldable pub out_of_fuel : Error
out_of_fuel = serialization_error (codes "out of fuel")

abbrev pub Taken : Type 0 → Type 0
Taken A = Outcome (A × Bytes)

-- `TakeBigEndian`.
unfoldable pub take_big_endian : ℕ → Bytes → Bytes → Taken ℕ
take_big_endian bytes what input =
    if ltb (length input) bytes
    then err (fail what)
    else ok (read_big_endian (take bytes input), drop bytes input)

-- The argument of an initial byte, and whether the length is indefinite.
abbrev pub Argument : Type 0
Argument = ℕ × Bool

unfoldable pub definite : ℕ × Bytes → Taken Argument
definite (value, input) = ok ((value, false), input)

-- `ReadArgument`.
unfoldable pub read_argument : ℕ → Bytes → Taken Argument
read_argument info input =
    if ltb info 24
    then ok ((info, false), input)
    else if leb info 27
    then take_big_endian (2 ^ (info - 24)) (codes "truncated argument") input >>= definite
    else if info == 31
    then ok ((0, true), input)
    else err (fail (codes "reserved additional-information value"))

-- The next `size` bytes.
unfoldable pub take_text : ℕ → Bytes → Bytes → Taken Bytes
take_text size what input =
    if ltb (length input) size then err (fail what) else ok (take size input, drop size input)

-- One chunk of an indefinite string, behind its initial byte.
unfoldable pub read_chunk : Argument × Bytes → Taken Bytes
read_chunk ((size, true), input) = err (fail (codes "nested indefinite string chunk"))
read_chunk ((size, false), input) = take_text size (codes "truncated string chunk") input

-- The loop over the chunks, with the text so far. Each round takes an initial byte, so the length of
-- the input is enough fuel.
unfoldable pub chunks_loop : ℕ → ℕ → Bytes → Bytes → Taken Bytes
chunks_loop zero major text [] = err (fail (codes "unterminated indefinite string"))
chunks_loop zero major text (initial ∷ input) = err out_of_fuel
chunks_loop (suc fuel) major text [] = err (fail (codes "unterminated indefinite string"))
chunks_loop (suc fuel) major text (initial ∷ input) =
    if initial == k_break
    then ok (text, input)
    else if not ((initial >> 5) == major)
    then err (fail (codes "mixed types in indefinite string"))
    else read_argument (bit_and initial 0x1f) input >>= λ head.
        read_chunk head >>= λ chunk. chunks_loop fuel major (text ++ chunk.0) chunk.1

-- `DecodeChunkedString`.
unfoldable pub decode_chunked_string : ℕ → Argument × Bytes → Taken Bytes
decode_chunked_string major ((size, false), input) = take_text size (codes "truncated string") input
decode_chunked_string major ((size, true), input) = chunks_loop (length input) major [] input

-- The integers.
unfoldable pub decode_integer : (ℕ → ℤ) → Argument × Bytes → Taken Document
decode_integer make ((value, true), input) = err (fail (codes "indefinite length on integer"))
decode_integer make ((value, false), input) =
    if ltb (2 ^ 63 - 1) value
    then err (fail (codes "integer exceeds int64 range"))
    else ok (int_value (make value), input)

unfoldable pub at_break : Bytes → Bool
at_break [] = false
at_break (byte ∷ input) = byte == k_break

-- Whether a loop over elements is at its end, and the bytes behind it.
unfoldable pub is_done : Bool → ℕ → Bytes → Bool
is_done true count input = at_break input
is_done false count input = count == 0

unfoldable pub behind_end : Bool → Bytes → Bytes
behind_end true input = drop 1 input
behind_end false input = input

-- The loop over the elements of an array. `decode` decodes one value. An element has at least one
-- byte, so one more than the length of the input is enough fuel.
unfoldable pub items_loop : (Bytes → Taken Document) → ℕ → Bool → ℕ → Bytes → Taken Items
items_loop decode zero indefinite count input = err out_of_fuel
items_loop decode (suc fuel) indefinite count input =
    if is_done indefinite count input
    then ok (empty_list, behind_end indefinite input)
    else decode input >>= λ first. items_loop decode fuel indefinite (count - 1) first.1 >>= λ rest.
        ok (item first.0 rest.0, rest.1)

-- `map.insert_or_assign(key, value)`, on a map in the order of its keys.
unfoldable pub insert_or_assign : Bytes → Document → Fields → Fields
insert_or_assign key value empty_map = entry key value empty_map
insert_or_assign key value (entry other old fields) =
    let later = insert_or_assign key value fields in
    if bytes_lt other key
    then entry other old later
    else if bytes_lt key other
    then entry key value (entry other old fields)
    else entry other value fields

-- The key of a map has to be a string.
unfoldable pub key_of : Document × Bytes → Taken Bytes
key_of (string_value key, input) = ok (key, input)
key_of (null_value, input) = err (fail (codes "map key is not a text string"))
key_of (bool_value b, input) = err (fail (codes "map key is not a text string"))
key_of (int_value n, input) = err (fail (codes "map key is not a text string"))
key_of (double_value bits, input) = err (fail (codes "map key is not a text string"))
key_of (blob_value bytes, input) = err (fail (codes "map key is not a text string"))
key_of (timestamp_value ms format, input) = err (fail (codes "map key is not a text string"))
key_of (list_value items, input) = err (fail (codes "map key is not a text string"))
key_of (map_value members, input) = err (fail (codes "map key is not a text string"))

-- The loop over the entries of a map, with the map so far.
unfoldable pub fields_loop : (Bytes → Taken Document) → ℕ → Bool → ℕ → Fields → Bytes → Taken Fields
fields_loop decode zero indefinite count map input = err out_of_fuel
fields_loop decode (suc fuel) indefinite count map input =
    if is_done indefinite count input
    then ok (map, behind_end indefinite input)
    else decode input >>= λ first. key_of first >>= λ key. decode key.1 >>= λ value.
        fields_loop decode fuel indefinite (count - 1) (insert_or_assign key.0 value.0 map) value.1

-- A double with the other sign.
unfoldable pub negated : ℕ → ℕ
negated bits = (bits + 2 ^ 63) % 2 ^ 64

-- The bits of -62167219200.0 and of 253402300800.0.
abbrev pub min_seconds : ℕ
min_seconds = 0xc22cf2e8f8000000

abbrev pub max_seconds : ℕ
max_seconds = 0x424d7ffa20c00000

abbrev pub infinity : ℕ
infinity = 0x7ff0000000000000

abbrev pub quiet_nan : ℕ
quiet_nan = 0x7ff8000000000000

module _ (floats : Floats) where
  -- `DecodeHalf`.
  unfoldable pub half_value : ℕ → ℕ → ℕ
  half_value exponent mantissa =
      if exponent == 0
      then floats.ldexp mantissa (negsuc 23)
      else if exponent == 31
      then if mantissa == 0 then infinity else quiet_nan
      else floats.ldexp (mantissa + 1024)
          (if leb 25 exponent then pos (exponent - 25) else negsuc (24 - exponent))

  unfoldable pub decode_half : ℕ → ℕ
  decode_half bits =
      let value = half_value (bit_and (bits >> 10) 0x1f) (bit_and bits 0x3ff) in
      if bit_and (bits >> 15) 1 == 0 then value else negated value

  -- `Timestamp::FromEpochSecondsChecked` and `CheckedFromMs`.
  unfoldable pub checked_from_ms : ℤ → Outcome ℤ
  checked_from_ms (pos n) =
      if ltb 253402300799999 n
      then err (
          serialization_error
            (codes "timestamp: instant out of representable range (year 0000-9999)"))
      else ok (pos n)
  checked_from_ms (negsuc n) =
      if leb 62167219200000 n
      then err (
          serialization_error
            (codes "timestamp: instant out of representable range (year 0000-9999)"))
      else ok (negsuc n)

  -- Before year 0 or past year 9999.
  unfoldable pub out_of_window : ℕ → Bool
  out_of_window bits = floats.less bits min_seconds || floats.less max_seconds bits

  unfoldable pub from_epoch_seconds_checked : ℕ → Outcome ℤ
  from_epoch_seconds_checked bits =
      if not (floats.is_finite bits)
      then err (serialization_error (codes "timestamp: epoch-seconds is not finite"))
      else if out_of_window bits
      then err (
          serialization_error
            (codes "timestamp: epoch-seconds out of representable range (year 0000-9999)"))
      else checked_from_ms (floats.milliseconds bits)

  unfoldable pub epoch_timestamp : Bytes → ℕ → Taken Document
  epoch_timestamp input bits =
      from_epoch_seconds_checked bits >>= λ ms. ok (timestamp_value ms epoch_seconds, input)

  -- The content of a tag 1.
  unfoldable pub timestamp_of : Document × Bytes → Taken Document
  timestamp_of (int_value n, input) = epoch_timestamp input (floats.from_int n)
  timestamp_of (double_value bits, input) = epoch_timestamp input bits
  timestamp_of (null_value, input) = err (fail (codes "tag 1 content is not a number"))
  timestamp_of (bool_value b, input) = err (fail (codes "tag 1 content is not a number"))
  timestamp_of (string_value text, input) = err (fail (codes "tag 1 content is not a number"))
  timestamp_of (blob_value bytes, input) = err (fail (codes "tag 1 content is not a number"))
  timestamp_of (timestamp_value ms format, input) =
      err (fail (codes "tag 1 content is not a number"))
  timestamp_of (list_value items, input) = err (fail (codes "tag 1 content is not a number"))
  timestamp_of (map_value members, input) = err (fail (codes "tag 1 content is not a number"))

  unfoldable pub decode_tagged : (Bytes → Taken Document) → Argument × Bytes → Taken Document
  decode_tagged decode ((tag, true), input) = err (fail (codes "indefinite length on tag"))
  decode_tagged decode ((tag, false), input) =
      decode input >>= λ inner. if tag == tag_epoch_timestamp then timestamp_of inner else ok inner

  unfoldable pub float_value : ℕ → ℕ × Bytes → Taken Document
  float_value info (bits, input) = ok (
    double_value (
        if info == 25
        then decode_half bits
        else if info == 26
        then floats.from_float bits
        else bits),
    input,
  )

  unfoldable pub decode_simple : ℕ → Bytes → Taken Document
  decode_simple info input =
      if info == 20
      then ok (bool_value false, input)
      else if info == 21
      then ok (bool_value true, input)
      else if info == 22 || info == 23
      then ok (null_value, input)
      else if leb 25 info && leb info 27
      then take_big_endian (2 ^ (info - 24)) (codes "truncated float") input >>= float_value info
      else err (fail (codes "unsupported simple value"))

  -- The `switch` on the major type. `decode` is `DecodeValue(depth - 1)`.
  unfoldable pub decode_array : (Bytes → Taken Document) → Argument × Bytes → Taken Document
  decode_array decode ((count, indefinite), input) =
      items_loop decode (suc (length input)) indefinite count input >>= λ items.
      ok (list_value items.0, items.1)

  unfoldable pub decode_map : (Bytes → Taken Document) → Argument × Bytes → Taken Document
  decode_map decode ((count, indefinite), input) =
      fields_loop decode (suc (length input)) indefinite count empty_map input >>= λ fields.
      ok (map_value fields.0, fields.1)

  unfoldable pub decode_text : ℕ → (Bytes → Document) → Argument × Bytes → Taken Document
  decode_text major make head =
      decode_chunked_string major head >>= λ text. ok (make text.0, text.1)

  unfoldable pub decode_major : (Bytes → Taken Document) → ℕ → ℕ → Bytes → Taken Document
  decode_major decode major info input =
      if major == k_unsigned
      then read_argument info input >>= decode_integer pos
      else if major == k_negative
      then read_argument info input >>= decode_integer negsuc
      else if major == k_bytes
      then read_argument info input >>= decode_text k_bytes blob_value
      else if major == k_text
      then read_argument info input >>= decode_text k_text string_value
      else if major == k_array
      then read_argument info input >>= decode_array decode
      else if major == k_map
      then read_argument info input >>= decode_map decode
      else if major == k_tag
      then read_argument info input >>= decode_tagged decode
      else decode_simple info input

  -- `DecodeValue`.
  unfoldable pub decode_value : ℕ → Bytes → Taken Document
  decode_value zero input = err (fail (codes "nesting too deep"))
  decode_value (suc depth) [] = err (fail (codes "truncated input"))
  decode_value (suc depth) (initial ∷ input) =
      decode_major (decode_value depth) (initial >> 5) (bit_and initial 0x1f) input

  unfoldable pub whole : Document × Bytes → Outcome Document
  whole (doc, []) = ok doc
  whole (doc, byte ∷ input) = err (fail (codes "trailing bytes after value"))

  -- `Decode`.
  unfoldable pub decode : Bytes → Outcome Document
  decode input = decode_value max_depth input >>= whole
