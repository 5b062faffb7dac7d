-- ===== src/EventStream/Frame.antt =====
-- The frames of runtime/src/eventstream/frame.cc: the checksum, the encoder and the decoder.
pub mod Layout
pub mod RoundTrip
pub mod Stream
mod Runs
use Prim.Native.Nat.{bit_and, bit_xor}
use opal_cpp.Common.{
  ℕ, zero, suc, ◌+◌, ◌-◌, ◌*◌, ◌%◌, ◌^◌, Bool, true, false, not, ◌||◌, List, [], ◌∷◌, ◌++◌, Option,
  none, some, Bytes, bytes_eq, codes, length, take, drop, substr, ltb, ◌==◌, if◌then◌else◌, Outcome,
  ok, err, ◌>>=◌, Error, serialization_error, validation_error,
}
use opal_cpp.Common.Bits.{◌>>◌}
use opal_cpp.EventStream.Value.{
  HeaderValue, string_value, bool_value, byte_value, short_value, int_value, long_value,
  timestamp_value, blob_value, uuid_value, big_endian, read_big_endian, encode_value, decode_value,
}

-- The table of `Crc32`: eight steps for one entry.
unfoldable pub crc_step : ℕ → ℕ
crc_step c = if not (bit_and c 1 == 0) then bit_xor 0xedb88320 (c >> 1) else c >> 1

unfoldable pub crc_entry : ℕ → ℕ
crc_entry i =
    crc_step (crc_step (crc_step (crc_step (crc_step (crc_step (crc_step (crc_step i)))))))

unfoldable pub crc_loop : ℕ → Bytes → ℕ
crc_loop crc [] = crc
crc_loop crc (byte ∷ bytes) =
    crc_loop (bit_xor (crc_entry (bit_and (bit_xor crc byte) 0xff)) (crc >> 8)) bytes

-- `Crc32`.
unfoldable pub crc32 : Bytes → ℕ
crc32 bytes = bit_xor (crc_loop 0xffffffff bytes) 0xffffffff % 2 ^ 32

pub record Header : Type 0 where
  pub name : Bytes
  pub value : HeaderValue

pub record Message : Type 0 where
  pub headers : List Header
  pub payload : Bytes

pub record DecodedFrame : Type 0 where
  pub message : Message
  pub bytes_consumed : ℕ

abbrev pub max_header_block_bytes : ℕ
max_header_block_bytes = 128 * 1024

abbrev pub max_message_bytes : ℕ
max_message_bytes = 16 * 1024 * 1024

abbrev pub prelude_bytes : ℕ
prelude_bytes = 12

abbrev pub frame_overhead_bytes : ℕ
frame_overhead_bytes = 16

-- `Malformed`.
pub malformed : Bytes → Error
malformed what = serialization_error (codes "eventstream: " ++ what)

-- `Message::FindHeader` and `Message::FindString`.
find_named : Bytes → List Header → Option HeaderValue
find_named name [] = none
find_named name (header ∷ headers) =
    if bytes_eq header.name name then some header.value else find_named name headers

unfoldable pub find_header : Bytes → Message → Option HeaderValue
unfolding find_named
find_header name message = find_named name message.headers

-- `std::get_if<std::string>`.
unfoldable pub string_of : HeaderValue → Option Bytes
string_of (string_value text) = some text
string_of (bool_value b) = none
string_of (byte_value v) = none
string_of (short_value v) = none
string_of (int_value v) = none
string_of (long_value v) = none
string_of (timestamp_value v) = none
string_of (blob_value bytes) = none
string_of (uuid_value bytes) = none

unfoldable pub find_string : Bytes → Message → Option Bytes
find_string name message = elim (find_header name message) [
  | none ↦ none
  | some value ↦ string_of value
]

-- What one round of the encoder's loop appends.
unfoldable pub sized_value : Bytes → Option Bytes → Outcome Bytes
sized_value name none =
    err (validation_error (codes "eventstream: header value over 64 KiB: " ++ name))
sized_value name (some bytes) = ok (length name ∷ (name ++ bytes))

unfoldable pub encode_header : Header → Outcome Bytes
encode_header header =
    if length header.name == 0 || ltb 255 (length header.name)
    then err (validation_error (codes "eventstream: header name must be 1..255 bytes"))
    else sized_value header.name (encode_value header.value)

unfoldable pub encode_headers : List Header → Bytes → Outcome Bytes
encode_headers [] out = ok out
encode_headers (header ∷ headers) out =
    encode_header header >>= λ bytes. encode_headers headers (out ++ bytes)

-- The frame of a header block and a payload.
unfoldable pub prelude : ℕ → ℕ → Bytes
prelude total headers_length = big_endian total 4 ++ big_endian headers_length 4

unfoldable pub front : Bytes → Bytes → Bytes
front headers payload =
    let lengths =
      prelude (frame_overhead_bytes + length headers + length payload) (length headers) in
    ((lengths ++ big_endian (crc32 lengths) 4) ++ headers) ++ payload

unfoldable pub frame_of : Bytes → Bytes → Bytes
frame_of headers payload = front headers payload ++ big_endian (crc32 (front headers payload)) 4

unfoldable pub encode_block : Bytes → Bytes → Outcome Bytes
encode_block headers payload =
    if ltb max_header_block_bytes (length headers)
    then err (validation_error (codes "eventstream: header block over the 128 KiB limit"))
    else if ltb max_message_bytes (frame_overhead_bytes + length headers + length payload)
    then err (validation_error (codes "eventstream: message over the 16 MiB limit"))
    else ok (frame_of headers payload)

-- `EncodeMessage`.
unfoldable pub encode_message : Message → Outcome Bytes
encode_message message =
    encode_headers message.headers [] >>= λ headers. encode_block headers message.payload

-- One round of the decoder's loop: a header, and the block behind it.
unfoldable pub read_value : Bytes → Option (HeaderValue × Bytes) → Outcome (Header × Bytes)
read_value name none = err (malformed (codes "malformed header value"))
read_value name (some (value, rest)) = ok (record { name = name; value = value }, rest)

unfoldable pub read_header : ℕ → Bytes → Outcome (Header × Bytes)
read_header name_length block =
    if name_length == 0 || ltb (length block) name_length
    then err (malformed (codes "malformed header name"))
    else read_value (take name_length block) (decode_value (drop name_length block))

-- The loop over the header block. The fuel is the length of the block, which falls at every round.
unfoldable pub read_headers : ℕ → Bytes → List Header → Outcome (List Header)
read_headers fuel [] headers = ok headers
read_headers zero (byte ∷ block) headers = ok headers
read_headers (suc fuel) (name_length ∷ block) headers =
    read_header name_length block >>= λ next. read_headers fuel next.1 (headers ++ (next.0 ∷ []))

-- A complete frame whose checksums hold.
unfoldable pub read_frame : Bytes → ℕ → ℕ → Outcome (Option DecodedFrame)
read_frame buffer total headers_length =
    read_headers (length (substr prelude_bytes headers_length buffer))
      (substr prelude_bytes headers_length buffer) []
    >>= λ headers. ok (
        some (record {
          message = record {
            headers = headers;
            payload =
                substr (prelude_bytes + headers_length)
                  (total - frame_overhead_bytes - headers_length) buffer;
          };
          bytes_consumed = total;
        }))

-- From the declared lengths on.
unfoldable pub decode_declared : Bytes → ℕ → ℕ → Outcome (Option DecodedFrame)
decode_declared buffer total headers_length =
    if ltb max_message_bytes total
      || ltb total frame_overhead_bytes
      || ltb max_header_block_bytes headers_length
      || ltb (total - frame_overhead_bytes) headers_length
    then err (malformed (codes "declared lengths out of bounds"))
    else if ltb (length buffer) total
    then ok none
    else if not (
        crc32 (substr 0 (total - 4) buffer)
        == read_big_endian (substr (total - 4) 4 buffer) % 2 ^ 32)
    then err (malformed (codes "message CRC mismatch"))
    else read_frame buffer total headers_length

-- `DecodeMessage`; `ok none` asks for more bytes.
unfoldable pub decode_message : Bytes → Outcome (Option DecodedFrame)
decode_message buffer =
    if ltb (length buffer) prelude_bytes
    then ok none
    else if not (crc32 (substr 0 8 buffer) == read_big_endian (substr 8 4 buffer) % 2 ^ 32)
    then err (malformed (codes "prelude CRC mismatch"))
    else decode_declared buffer (read_big_endian (substr 0 4 buffer))
        (read_big_endian (substr 4 4 buffer))
