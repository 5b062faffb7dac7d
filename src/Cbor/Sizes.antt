-- ===== src/Cbor/Sizes.antt =====
-- The lengths of what the encoder of runtime/src/cbor/cbor.cc writes.
use opal_cpp.Common.{ℕ, ◌≤◌, arith, ◌++◌, length, length-append, if◌then◌else◌}
use opal_cpp.Cbor.{
  pos, negsuc, Document, null_value, bool_value, int_value, double_value, string_value, blob_value,
  timestamp_value, list_value, map_value, Items, empty_list, item, Fields, empty_map, entry,
  items_size, fields_size, k_text, write_type_and_value, write_int, write_double, is_whole, seconds,
  Floats, write_timestamp, encode_value, encode_items, encode_fields,
}

-- Every value has at least one byte.
pub length-head : (major value : ℕ) → 1 ≤ length (write_type_and_value major value)
unfolding write_type_and_value
length-head major value = ground arith

module _ (floats : Floats) where
  pub length-value : (doc : Document) → 1 ≤ length (encode_value floats doc)
  unfolding encode_value write_int write_double write_timestamp
  length-value null_value = omega arith
  length-value (bool_value b) = omega arith
  length-value (int_value (pos n)) = length-head 0 n
  length-value (int_value (negsuc n)) = length-head 1 n
  length-value (double_value bits) = omega arith
  length-value (string_value text) = omega (
    arith,
    length-head 3 (length text),
    length-append (write_type_and_value 3 (length text)) text,
  )
  length-value (blob_value bytes) = omega (
    arith,
    length-head 2 (length bytes),
    length-append (write_type_and_value 2 (length bytes)) bytes,
  )
  length-value (timestamp_value ms format) = omega (
    arith,
    length-head 6 1,
    length-append (write_type_and_value 6 1)
        (if is_whole ms then write_int (seconds ms) else write_double (floats.fraction ms)),
  )
  length-value (list_value items) = omega (
    arith,
    length-head 4 (items_size items),
    length-append (write_type_and_value 4 (items_size items)) (encode_items floats items),
  )
  length-value (map_value fields) = omega (
    arith,
    length-head 5 (fields_size fields),
    length-append (write_type_and_value 5 (fields_size fields)) (encode_fields floats fields),
  )

  pub items_size-length : (items : Items) → items_size items ≤ length (encode_items floats items)
  unfolding encode_items items_size
  items_size-length empty_list = omega arith
  items_size-length (item doc items) = omega (
    arith,
    length-value doc,
    items_size-length items,
    length-append (encode_value floats doc) (encode_items floats items),
  )

  pub fields_size-length :
      (fields : Fields) → fields_size fields ≤ length (encode_fields floats fields)
  unfolding encode_fields fields_size
  fields_size-length empty_map = omega arith
  fields_size-length (entry key doc fields) = omega (
    arith,
    length-head k_text (length key),
    length-append (write_type_and_value k_text (length key))
        (key ++ (encode_value floats doc ++ encode_fields floats fields)),
    length-append key (encode_value floats doc ++ encode_fields floats fields),
    length-append (encode_value floats doc) (encode_fields floats fields),
    fields_size-length fields,
  )
