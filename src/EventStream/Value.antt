-- ===== src/EventStream/Value.antt =====
-- The header values of runtime/src/eventstream/frame.cc. A signed integer is held by its two's
-- complement, which the casts between the types of one width leave as it is; a timestamp by that of
-- its milliseconds. A cursor into the header block is what the block holds from it on.
pub mod BigEndian
pub mod RoundTrip
use Prim.Native.Nat.{bit_and, bit_or, bit_xor}
use opal_cpp.Common.{
  ℕ, zero, suc, ◌*◌, ◌%◌, ◌^◌, Bool, true, false, List, [], ◌∷◌, ◌++◌, Option, none, some, Bytes,
  length, take, drop, and_then, ltb, ◌==◌, if◌then◌else◌,
}
use opal_cpp.Common.Bits.{◌>>◌, shl64}

pub data HeaderValue : Type 0 where
  bool_value : Bool → HeaderValue
  byte_value short_value int_value long_value timestamp_value : ℕ → HeaderValue
  blob_value string_value uuid_value : Bytes → HeaderValue

-- `AppendBigEndian`: the bytes that it appends.
unfoldable pub big_endian : ℕ → ℕ → Bytes
big_endian value zero = []
big_endian value (suc bytes) = bit_and (value >> (8 * bytes)) 0xff ∷ big_endian value bytes

-- `ReadBigEndian`: the loop from a value on.
unfoldable pub read_loop : ℕ → Bytes → ℕ
read_loop value [] = value
read_loop value (byte ∷ bytes) = read_loop (bit_or (shl64 value 8) byte) bytes

unfoldable pub read_big_endian : Bytes → ℕ
read_big_endian bytes = read_loop 0 bytes

-- The bytes of a value with a length before them; `none` if that is over 64 KiB.
unfoldable pub encode_sized : ℕ → Bytes → Option Bytes
encode_sized tag bytes =
    if ltb 0xffff (length bytes) then none else some (tag ∷ (big_endian (length bytes) 2 ++ bytes))

-- `EncodeValue`: the bytes that it appends, or `none` where it returns false.
unfoldable pub encode_value : HeaderValue → Option Bytes
encode_value (bool_value b) = some ((if b then 0 else 1) ∷ [])
encode_value (byte_value v) = some (2 ∷ v ∷ [])
encode_value (short_value v) = some (3 ∷ big_endian v 2)
encode_value (int_value v) = some (4 ∷ big_endian v 4)
encode_value (long_value v) = some (5 ∷ big_endian v 8)
encode_value (blob_value bytes) = encode_sized 6 bytes
encode_value (string_value text) = encode_sized 7 text
encode_value (timestamp_value v) = some (8 ∷ big_endian v 8)
encode_value (uuid_value bytes) = some (9 ∷ bytes)

-- The `fixed` of `DecodeValue`: the next `n` bytes and the block behind them.
unfoldable pub fixed : ℕ → Bytes → Option (Bytes × Bytes)
fixed n block = if ltb (length block) n then none else some (take n block, drop n block)

-- A fixed-width number, cast to its type.
unfoldable pub decode_number : ℕ → (ℕ → HeaderValue) → Bytes → Option (HeaderValue × Bytes)
decode_number n make block =
    and_then (fixed n block) (λ next. some (make (read_big_endian next.0 % 256 ^ n), next.1))

unfoldable pub decode_bytes : ℕ → (Bytes → HeaderValue) → Bytes → Option (HeaderValue × Bytes)
decode_bytes n make block = and_then (fixed n block) (λ next. some (make next.0, next.1))

unfoldable pub decode_sized : (Bytes → HeaderValue) → Bytes → Option (HeaderValue × Bytes)
decode_sized make block =
    and_then (fixed 2 block) (λ next. decode_bytes (read_big_endian next.0) make next.1)

-- The switch of `DecodeValue` on the wire type.
unfoldable pub decode_tagged : ℕ → Bytes → Option (HeaderValue × Bytes)
decode_tagged type block =
    if type == 0
    then some (bool_value true, block)
    else if type == 1
    then some (bool_value false, block)
    else if type == 2
    then decode_number 1 byte_value block
    else if type == 3
    then decode_number 2 short_value block
    else if type == 4
    then decode_number 4 int_value block
    else if type == 5
    then decode_number 8 long_value block
    else if type == 6
    then decode_sized blob_value block
    else if type == 7
    then decode_sized string_value block
    else if type == 8
    then decode_number 8 timestamp_value block
    else if type == 9
    then decode_bytes 16 uuid_value block
    else none

-- `DecodeValue`.
unfoldable pub decode_value : Bytes → Option (HeaderValue × Bytes)
decode_value [] = none
decode_value (type ∷ block) = decode_tagged type block
