-- ===== src/Cbor/Whole.antt =====
-- Lists, maps and whole documents through the encoder and the decoder of runtime/src/cbor/cbor.cc.
use opal_cpp.Common.{
  ℕ, zero, suc, ◌-◌, ◌^◌, ◌<◌, ◌≡◌, refl, sym, ap, ◌∙◌, arith, true, false, ◌++◌, append_assoc,
  Bytes, length, length-append, ◌==◌, ok,
}
use opal_cpp.Cbor.{
  Document, null_value, bool_value, int_value, double_value, string_value, blob_value,
  timestamp_value, list_value, map_value, Items, empty_list, item, Fields, empty_map, entry,
  items_size, fields_size, k_text, write_type_and_value, Floats, encode_value, encode_items,
  encode_fields,
}
use opal_cpp.Cbor.Decode.{
  is_done, behind_end, items_loop, insert_or_assign, key_of, fields_loop, decode_simple,
  decode_array, decode_map, decode_major, decode_value,
}
use opal_cpp.Cbor.Head.{decode_value-initial}
use opal_cpp.Cbor.RoundTrip.{
  IsDocument, AreItems, AreFields, decode_value-headed, decode-int, decode-double, decode-text,
  decode-blob, decode-timestamp,
}
use opal_cpp.Cbor.Maps.{
  joined, AllBelow, insert-last, joined_assoc, AllBelow-joined, nothing_below, joined-empty,
}
use opal_cpp.Cbor.Sizes.{items_size-length, fields_size-length}

entry_shape :
    (head key value more rest : Bytes)
    → (head ++ (key ++ (value ++ more))) ++ rest ≡ (head ++ key) ++ (value ++ (more ++ rest))
entry_shape head key value more rest = simp append_assoc refl

module _ (floats : Floats) where
  -- One round of the loops.
  items-round :
      (depth fuel count : ℕ) (doc : Document) (items : Items) (first input rest : Bytes)
      → decode_value floats depth (first ++ input) ≡ ok (doc, input)
      → items_loop (decode_value floats depth) fuel false count input ≡ ok (items, rest)
      → items_loop (decode_value floats depth) (suc fuel) false (suc count) (first ++ input)
        ≡ ok (item doc items, rest)
  unfolding items_loop is_done
  items-round depth fuel count doc items first input rest read later =
      let more : (suc count == 0) ≡ false = ground arith in
      let less : suc count - 1 ≡ count = omega arith in rw (more, read, less, later) refl

  fields-round :
      (depth fuel count : ℕ) (key : Bytes) (doc : Document) (map fields : Fields)
      (first middle input rest : Bytes)
      → decode_value floats depth (first ++ middle) ≡ ok (string_value key, middle)
      → decode_value floats depth middle ≡ ok (doc, input)
      → fields_loop
          (decode_value floats depth)
          fuel
          false
          count
          (insert_or_assign key doc map)
          input
        ≡ ok (fields, rest)
      → fields_loop (decode_value floats depth) (suc fuel) false (suc count) map (first ++ middle)
        ≡ ok (fields, rest)
  unfolding fields_loop is_done key_of
  fields-round depth fuel count key doc map fields first middle input rest named read later =
      let more : (suc count == 0) ≡ false = ground arith in
      let less : suc count - 1 ≡ count = omega arith in rw (more, named, read, less, later) refl

  decode-list :
      (depth : ℕ) (items : Items) (rest : Bytes)
      → items_size items < 2 ^ 64
      → items_loop
          (decode_value floats depth)
          (suc (length (encode_items floats items ++ rest)))
          false
          (items_size items)
          (encode_items floats items ++ rest)
        ≡ ok (items, rest)
      → decode_value floats (suc depth) (encode_value floats (list_value items) ++ rest)
        ≡ ok (list_value items, rest)
  unfolding encode_value decode_major decode_array
  decode-list depth items rest fits looped =
      rw
        (
          append_assoc (write_type_and_value 4 (items_size items)) (encode_items floats items) rest,
          decode_value-headed floats depth 4 (items_size items) (encode_items floats items ++ rest)
              (decode_array floats (decode_value floats depth)) fits (λ info behind. refl),
          looped,
        )
        refl

  decode-map :
      (depth : ℕ) (fields : Fields) (rest : Bytes)
      → fields_size fields < 2 ^ 64
      → fields_loop
          (decode_value floats depth)
          (suc (length (encode_fields floats fields ++ rest)))
          false
          (fields_size fields)
          empty_map
          (encode_fields floats fields ++ rest)
        ≡ ok (fields, rest)
      → decode_value floats (suc depth) (encode_value floats (map_value fields) ++ rest)
        ≡ ok (map_value fields, rest)
  unfolding encode_value decode_major decode_map
  decode-map depth fields rest fits looped =
      rw
        (
          append_assoc (write_type_and_value 5 (fields_size fields)) (encode_fields floats fields)
              rest,
          decode_value-headed floats depth 5 (fields_size fields)
              (encode_fields floats fields ++ rest) (decode_map floats (decode_value floats depth))
              fits (λ info behind. refl),
          looped,
        )
        refl

  mutual
    unfolding encode_value encode_items encode_fields items_size fields_size IsDocument AreItems
        AreFields decode_major decode_simple items_loop fields_loop is_done behind_end

    -- A value is read back with whatever stands behind it.
    decode-value :
        (doc : Document) (depth : ℕ) (rest : Bytes)
        → IsDocument floats doc depth
        → decode_value floats depth (encode_value floats doc ++ rest) ≡ ok (doc, rest)
    decode-value null_value zero rest h = absurd (omega arith)
    decode-value null_value (suc depth) rest h =
        rw (decode_value-initial floats depth 7 22 rest (omega arith)) refl
    decode-value (bool_value b) zero rest h = absurd (omega arith)
    decode-value (bool_value true) (suc depth) rest h =
        rw (decode_value-initial floats depth 7 21 rest (omega arith)) refl
    decode-value (bool_value false) (suc depth) rest h =
        rw (decode_value-initial floats depth 7 20 rest (omega arith)) refl
    decode-value (int_value n) zero rest h = absurd (omega arith)
    decode-value (int_value n) (suc depth) rest h = decode-int floats depth n rest h.1
    decode-value (double_value bits) zero rest h = absurd (omega arith)
    decode-value (double_value bits) (suc depth) rest h = decode-double floats depth bits rest h.1
    decode-value (string_value text) zero rest h = absurd (omega arith)
    decode-value (string_value text) (suc depth) rest h = decode-text floats depth text rest h.1
    decode-value (blob_value bytes) zero rest h = absurd (omega arith)
    decode-value (blob_value bytes) (suc depth) rest h = decode-blob floats depth bytes rest h.1
    decode-value (timestamp_value ms format) zero rest h = absurd (omega arith)
    decode-value (timestamp_value ms format) (suc zero) rest h = absurd (omega arith)
    decode-value (timestamp_value ms format) (suc (suc depth)) rest h =
        rw (h.1) (decode-timestamp floats depth ms rest h.2)
    decode-value (list_value items) zero rest h = absurd (h.1 tt)
    decode-value (list_value items) (suc depth) rest h = decode-list depth items rest h.0 (
        decode-items items depth (suc (length (encode_items floats items ++ rest))) rest h.1 (
          omega (
            arith,
            items_size-length floats items,
            length-append (encode_items floats items) rest,
          )))
    decode-value (map_value fields) zero rest h = absurd (h.1 tt)
    decode-value (map_value fields) (suc depth) rest h = decode-map depth fields rest h.0 (
        decode-fields fields depth (suc (length (encode_fields floats fields ++ rest))) empty_map
          rest h.1 (nothing_below fields)
          (omega (
            arith,
            fields_size-length floats fields,
            length-append (encode_fields floats fields) rest,
          )))

    decode-items :
        (items : Items) (depth fuel : ℕ) (rest : Bytes)
        → AreItems floats items depth
        → items_size items < fuel
        → items_loop
            (decode_value floats depth)
            fuel
            false
            (items_size items)
            (encode_items floats items ++ rest)
          ≡ ok (items, rest)
    decode-items items depth zero rest h enough = absurd (omega arith)
    decode-items empty_list depth (suc fuel) rest h enough = refl
    decode-items (item doc items) depth (suc fuel) rest h enough =
        rw (append_assoc (encode_value floats doc) (encode_items floats items) rest) (
          items-round depth fuel (items_size items) doc items (encode_value floats doc)
            (encode_items floats items ++ rest) rest
            (decode-value doc depth (encode_items floats items ++ rest) h.0)
            (decode-items items depth fuel rest h.1 (omega arith)))

    decode-fields :
        (fields : Fields) (depth fuel : ℕ) (map : Fields) (rest : Bytes)
        → AreFields floats fields depth
        → AllBelow map fields
        → fields_size fields < fuel
        → fields_loop
            (decode_value floats depth)
            fuel
            false
            (fields_size fields)
            map
            (encode_fields floats fields ++ rest)
          ≡ ok (joined map fields, rest)
    decode-fields fields depth zero map rest h below enough = absurd (omega arith)
    decode-fields empty_map depth (suc fuel) map rest h below enough =
        ap (λ (t : Fields). ok (t, rest)) (sym (joined-empty map))
    decode-fields (entry key doc fields) zero (suc fuel) map rest h below enough =
        absurd (omega arith)
    decode-fields (entry key doc fields) (suc depth) (suc fuel) map rest h below enough =
        let behind : Bytes = encode_fields floats fields ++ rest in
        ap
          (λ (t : Bytes).
            fields_loop (decode_value floats (suc depth)) (suc fuel) false
              (suc (fields_size fields)) map t)
          (entry_shape (write_type_and_value k_text (length key)) key (encode_value floats doc)
            (encode_fields floats fields) rest)
        ∙ fields-round (suc depth) fuel (fields_size fields) key doc map
            (joined map (entry key doc fields)) (write_type_and_value k_text (length key) ++ key)
            (encode_value floats doc ++ behind) behind rest
            (decode-text floats depth key (encode_value floats doc ++ behind) h.1)
            (decode-value doc (suc depth) behind h.3.0)
            (rw (insert-last key doc map below.0) (
              decode-fields fields (suc depth) fuel (joined map (entry key doc empty_map)) rest
                h.3.1 (AllBelow-joined fields map key doc below.1 h.2) (omega arith)
              ∙ ap (λ (t : Fields). ok (t, rest)) (joined_assoc map key doc fields)))
