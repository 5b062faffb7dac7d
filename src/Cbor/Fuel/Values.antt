-- ===== src/Cbor/Fuel/Values.antt =====
-- Lemmas about the bytes that each kind of value leaves to the decoder of runtime/src/cbor/cbor.cc.
use Prim.Native.Nat.{bit_and}
use mathlib.Core.Path.{subst}
use opal_cpp.Common.{
  ℕ, zero, suc, ◌-◌, ◌^◌, ◌≤◌, ◌≡◌, arith, true, false, [], ◌∷◌, Bytes, length, ltb, leb, ◌==◌,
  if_elim, Outcome, ok, err, ◌>>=◌, ◌||◌, ◌&&◌, err-ne-ok,
}
use opal_cpp.Common.Bits.{◌>>◌}
use opal_cpp.Cbor.{
  epoch_seconds, ℤ, pos, negsuc, Document, null_value, bool_value, int_value, double_value,
  string_value, blob_value, timestamp_value, list_value, map_value, Floats, k_unsigned, k_negative,
  k_bytes, k_text, k_array, k_map, k_tag, tag_epoch_timestamp, empty_map,
}
use opal_cpp.Cbor.Decode.{
  Taken, Argument, take_big_endian, read_argument, decode_chunked_string, decode_integer,
  items_loop, fields_loop, from_epoch_seconds_checked, epoch_timestamp, timestamp_of, decode_tagged,
  float_value, decode_simple, decode_array, decode_map, decode_text, decode_major, decode_value,
}
use opal_cpp.Cbor.Fuel.{
  Leaves, Leaves->>=, Leaves-le, Leaves-read, take_big_endian-Leaves, take_text-Leaves,
  read_argument-Leaves, chunks_loop-Leaves, Takes, items_loop-Leaves, fields_loop-Leaves,
}

-- The bytes behind a result, from what its decoder leaves.
pub behind_read :
    {A : Type 0}
    → (n : ℕ) (result : Taken A) (a : A) (rest : Bytes) → Leaves n result
    → result ≡ ok (a, rest)
    → length rest ≤ n
behind_read n result a rest h e = subst (Leaves n) e h

decode_chunked_string-Leaves :
    (major : ℕ) (head : Argument) (input : Bytes)
    → Leaves (length input) (decode_chunked_string major (head, input))
unfolding decode_chunked_string
decode_chunked_string-Leaves major (size, false) input = take_text-Leaves size _ input
decode_chunked_string-Leaves major (size, true) input =
    chunks_loop-Leaves (length input) major [] input

decode_integer-Leaves :
    (make : ℕ → ℤ) (head : Argument) (input : Bytes)
    → Leaves (length input) (decode_integer make (head, input))
unfolding decode_integer
decode_integer-Leaves make (value, true) input = tt
decode_integer-Leaves make (value, false) input =
    if_elim (Leaves (length input)) (ltb (2 ^ 63 - 1) value) _ _ (λ e. tt) (λ e. omega arith)

module _ (floats : Floats) where
  epoch_timestamp-Leaves :
      (input : Bytes) (bits : ℕ) → Leaves (length input) (epoch_timestamp floats input bits)
  unfolding epoch_timestamp
  epoch_timestamp-Leaves input bits = leaves_made (from_epoch_seconds_checked floats bits)
    where
      leaves_made :
          (result : Outcome ℤ)
          → Leaves (length input) (result >>= λ ms. ok (timestamp_value ms epoch_seconds, input))
      leaves_made (ok ms) = omega arith
      leaves_made (err failure) = tt

  timestamp_of-Leaves :
      (doc : Document) (input : Bytes) → Leaves (length input) (timestamp_of floats (doc, input))
  unfolding timestamp_of
  timestamp_of-Leaves (int_value n) input = epoch_timestamp-Leaves input (floats.from_int n)
  timestamp_of-Leaves (double_value bits) input = epoch_timestamp-Leaves input bits
  timestamp_of-Leaves null_value input = tt
  timestamp_of-Leaves (bool_value b) input = tt
  timestamp_of-Leaves (string_value text) input = tt
  timestamp_of-Leaves (blob_value bytes) input = tt
  timestamp_of-Leaves (timestamp_value ms format) input = tt
  timestamp_of-Leaves (list_value items) input = tt
  timestamp_of-Leaves (map_value fields) input = tt

  decode_simple-Leaves :
      (info : ℕ) (input : Bytes) → Leaves (length input) (decode_simple floats info input)
  unfolding decode_simple float_value
  decode_simple-Leaves info input =
      if_elim (Leaves (length input)) (info == 20) _ _ (λ e. omega arith)
        (λ e.
          if_elim (Leaves (length input)) (info == 21) _ _ (λ e. omega arith)
            (λ e.
              if_elim (Leaves (length input)) (info == 22 || info == 23) _ _ (λ e. omega arith)
                (λ e.
                  if_elim (Leaves (length input)) (leb 25 info && leb info 27) _ _
                    (λ e.
                      Leaves->>= (length input) (take_big_endian _ _ input) _
                        (take_big_endian-Leaves _ _ input) (λ bits rest h. h))
                    (λ e. tt))))

  -- What stands behind the argument, whichever the major type is.
  behind_argument :
      (info : ℕ) (input : Bytes) (next : Argument × Bytes → Taken Document)
      → ((head : Argument) (rest : Bytes) → Leaves (length rest) (next (head, rest)))
      → Leaves (length input) (read_argument info input >>= next)
  behind_argument info input next each =
      Leaves->>= (length input) (read_argument info input) next (read_argument-Leaves info input)
        (λ head rest h. Leaves-le (length rest) _ (next (head, rest)) (each head rest) h)

  decode_text-Leaves :
      (major : ℕ) (make : Bytes → Document) (head : Argument) (input : Bytes)
      → Leaves (length input) (decode_text floats major make (head, input))
  unfolding decode_text
  decode_text-Leaves major make head input =
      Leaves->>= (length input) (decode_chunked_string major (head, input)) _
        (decode_chunked_string-Leaves major head input) (λ text rest h. h)

  decode_array-Leaves :
      (decode : Bytes → Taken Document)
      → Takes decode
      → (head : Argument) (input : Bytes)
      → Leaves (length input) (decode_array floats decode (head, input))
  unfolding decode_array
  decode_array-Leaves decode takes (count, indefinite) input =
      Leaves->>= (length input) (items_loop decode (suc (length input)) indefinite count input) _
        (items_loop-Leaves decode takes (suc (length input)) indefinite count input)
        (λ items rest h. h)

  decode_map-Leaves :
      (decode : Bytes → Taken Document)
      → Takes decode
      → (head : Argument) (input : Bytes)
      → Leaves (length input) (decode_map floats decode (head, input))
  unfolding decode_map
  decode_map-Leaves decode takes (count, indefinite) input =
      Leaves->>= (length input)
        (fields_loop decode (suc (length input)) indefinite count empty_map input) _
        (fields_loop-Leaves decode takes (suc (length input)) indefinite count empty_map input)
        (λ fields rest h. h)

  decode_tagged-Leaves :
      (decode : Bytes → Taken Document)
      → Takes decode
      → (head : Argument) (input : Bytes)
      → Leaves (length input) (decode_tagged floats decode (head, input))
  unfolding decode_tagged
  decode_tagged-Leaves decode takes (tag, true) input = tt
  decode_tagged-Leaves decode takes (tag, false) input =
      Leaves-read (length input) (decode input) _ (λ inner rest read.
        if_elim (Leaves (length input)) (tag == tag_epoch_timestamp) _ _
          (λ e.
            Leaves-le (length rest) _ (timestamp_of floats (inner, rest))
              (timestamp_of-Leaves inner rest) (omega (arith, takes input inner rest read)))
          (λ e. omega (arith, takes input inner rest read)))

  decode_major-Leaves :
      (decode : Bytes → Taken Document) (major info : ℕ) (input : Bytes)
      → Takes decode
      → Leaves (length input) (decode_major floats decode major info input)
  unfolding decode_major
  decode_major-Leaves decode major info input takes =
      if_elim (Leaves (length input)) (major == k_unsigned) _ _
        (λ e. behind_argument info input (decode_integer pos) (decode_integer-Leaves pos))
        (λ e.
          if_elim (Leaves (length input)) (major == k_negative) _ _
            (λ e. behind_argument info input (decode_integer negsuc) (decode_integer-Leaves negsuc))
            (λ e.
              if_elim (Leaves (length input)) (major == k_bytes) _ _
                (λ e.
                  behind_argument info input (decode_text floats k_bytes blob_value)
                    (decode_text-Leaves k_bytes blob_value))
                (λ e.
                  if_elim (Leaves (length input)) (major == k_text) _ _
                    (λ e.
                      behind_argument info input (decode_text floats k_text string_value)
                        (decode_text-Leaves k_text string_value))
                    (λ e.
                      if_elim (Leaves (length input)) (major == k_array) _ _
                        (λ e.
                          behind_argument info input (decode_array floats decode)
                            (decode_array-Leaves decode takes))
                        (λ e.
                          if_elim (Leaves (length input)) (major == k_map) _ _
                            (λ e.
                              behind_argument info input (decode_map floats decode)
                                (decode_map-Leaves decode takes))
                            (λ e.
                              if_elim (Leaves (length input)) (major == k_tag) _ _
                                (λ e.
                                  behind_argument info input (decode_tagged floats decode)
                                    (decode_tagged-Leaves decode takes))
                                (λ e. decode_simple-Leaves info input)))))))

  -- Each value takes at least a byte, at any depth.
  pub decode_value-Takes : (depth : ℕ) → Takes (decode_value floats depth)
  unfolding decode_value
  decode_value-Takes zero input doc rest e = absurd (err-ne-ok e)
  decode_value-Takes (suc depth) [] doc rest e = absurd (err-ne-ok e)
  decode_value-Takes (suc depth) (initial ∷ input) doc rest e = omega (
    arith,
    behind_read (length input) _ doc rest
        (decode_major-Leaves (decode_value floats depth) (initial >> 5) (bit_and initial 0x1f) input
          (decode_value-Takes depth))
        e,
  )
