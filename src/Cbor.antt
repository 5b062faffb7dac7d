-- ===== src/Cbor.antt =====
-- runtime/src/cbor/cbor.cc, the encoder, and the documents of runtime/include/opal/core/document.h. A
-- double is held by its 64 bits. A list and a map are data of their own; a map is its entries in
-- the order of their keys. What the code computes on doubles is an argument.
pub mod Decode
pub mod Head
pub mod RoundTrip
pub mod Maps
pub mod Sizes
pub mod Whole
pub mod Sound
pub mod Fuel
mod Runs
use Prim.Native.Nat.{bit_and, bit_or}
use opal_cpp.Common.{
  ℕ, zero, suc, ◌+◌, ◌-◌, ◌*◌, ◌/◌, ◌%◌, ◌^◌, Bool, true, false, List, [], ◌∷◌, ◌++◌, Bytes, length,
  ltb, leb, ◌==◌, if◌then◌else◌, Outcome,
}
use opal_cpp.Common.Bits.{◌<<◌}
use opal_cpp.EventStream.Value.{big_endian}

-- A `std::int64_t`: `negsuc n` is -1 - n.
pub data ℤ : Type 0 where
  pos negsuc : ℕ → ℤ

pub data TimestampFormat : Type 0 where
  epoch_seconds date_time http_date : TimestampFormat

mutual
  pub data Document : Type 0 where
    null_value : Document
    bool_value : Bool → Document
    int_value : ℤ → Document
    double_value : ℕ → Document
    string_value : Bytes → Document
    blob_value : Bytes → Document
    -- The milliseconds of the epoch.
    timestamp_value : ℤ → TimestampFormat → Document
    list_value : Items → Document
    map_value : Fields → Document

  pub data Items : Type 0 where
    empty_list : Items
    item : Document → Items → Items

  pub data Fields : Type 0 where
    empty_map : Fields
    entry : Bytes → Document → Fields → Fields

unfoldable pub items_size : Items → ℕ
items_size empty_list = 0
items_size (item doc items) = suc (items_size items)

unfoldable pub fields_size : Fields → ℕ
fields_size empty_map = 0
fields_size (entry key doc fields) = suc (fields_size fields)

-- `Major`, and the constants.
abbrev pub k_unsigned : ℕ
k_unsigned = 0

abbrev pub k_negative : ℕ
k_negative = 1

abbrev pub k_bytes : ℕ
k_bytes = 2

abbrev pub k_text : ℕ
k_text = 3

abbrev pub k_array : ℕ
k_array = 4

abbrev pub k_map : ℕ
k_map = 5

abbrev pub k_tag : ℕ
k_tag = 6

abbrev pub k_simple : ℕ
k_simple = 7

abbrev pub k_break : ℕ
k_break = 0xff

abbrev pub tag_epoch_timestamp : ℕ
tag_epoch_timestamp = 1

-- An initial byte: `(major << 5) | info`.
unfoldable pub initial_byte : ℕ → ℕ → ℕ
initial_byte major info = bit_or (major << 5) info

-- `WriteTypeAndValue`: the bytes that it appends.
unfoldable pub write_type_and_value : ℕ → ℕ → Bytes
write_type_and_value major value =
    if ltb value 24
    then initial_byte major value ∷ []
    else if leb value 0xff
    then initial_byte major 24 ∷ value ∷ []
    else if leb value 0xffff
    then initial_byte major 25 ∷ big_endian value 2
    else if leb value 0xffffffff
    then initial_byte major 26 ∷ big_endian value 4
    else initial_byte major 27 ∷ big_endian value 8

-- `WriteInt`.
unfoldable pub write_int : ℤ → Bytes
write_int (pos n) = write_type_and_value k_unsigned n
write_int (negsuc n) = write_type_and_value k_negative n

-- `WriteDouble`.
unfoldable pub write_double : ℕ → Bytes
write_double bits = initial_byte k_simple 27 ∷ big_endian bits 8

-- `ms % 1000 == 0`, and `ms / 1000`, which is exact then.
unfoldable pub is_whole : ℤ → Bool
is_whole (pos n) = n % 1000 == 0
is_whole (negsuc n) = suc n % 1000 == 0

unfoldable pub seconds : ℤ → ℤ
seconds (pos n) = pos (n / 1000)
seconds (negsuc n) = negsuc (suc n / 1000 - 1)

-- What the code asks of the arithmetic of doubles, on their bits: `static_cast<double>` of an
-- integer and of a float, `static_cast<double>(ms) / 1000.0`, `std::ldexp`, `std::isfinite`, `<` and
-- `std::llround(seconds * 1000.0)`.
pub record Floats : Type 0 where
  pub from_int : ℤ → ℕ
  pub from_float : ℕ → ℕ
  pub fraction : ℤ → ℕ
  pub ldexp : ℕ → ℤ → ℕ
  pub is_finite : ℕ → Bool
  pub less : ℕ → ℕ → Bool
  pub milliseconds : ℕ → ℤ

-- `EncodeValue`.
module _ (floats : Floats) where
  unfoldable pub write_timestamp : ℤ → Bytes
  write_timestamp ms =
      write_type_and_value k_tag tag_epoch_timestamp
      ++ (if is_whole ms then write_int (seconds ms) else write_double (floats.fraction ms))

  unfoldable mutual
    pub encode_value : Document → Bytes
    encode_value null_value = initial_byte k_simple 22 ∷ []
    encode_value (bool_value b) = initial_byte k_simple (if b then 21 else 20) ∷ []
    encode_value (int_value n) = write_int n
    encode_value (double_value bits) = write_double bits
    encode_value (string_value text) = write_type_and_value k_text (length text) ++ text
    encode_value (blob_value bytes) = write_type_and_value k_bytes (length bytes) ++ bytes
    encode_value (timestamp_value ms format) = write_timestamp ms
    encode_value (list_value items) =
        write_type_and_value k_array (items_size items) ++ encode_items items
    encode_value (map_value fields) =
        write_type_and_value k_map (fields_size fields) ++ encode_fields fields

    pub encode_items : Items → Bytes
    encode_items empty_list = []
    encode_items (item doc items) = encode_value doc ++ encode_items items

    pub encode_fields : Fields → Bytes
    encode_fields empty_map = []
    encode_fields (entry key doc fields) =
        write_type_and_value k_text (length key)
        ++ (key ++ (encode_value doc ++ encode_fields fields))
