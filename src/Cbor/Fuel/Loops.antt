-- ===== src/Cbor/Fuel/Loops.antt =====
-- The fuel of the loops of the decoder of runtime/src/cbor/cbor.cc.
use Prim.Native.Nat.{bit_and}
use opal_cpp.Common.{
  ℕ, zero, suc, ◌-◌, ◌≤◌, ◌<◌, ◌≡◌, ap, arith, Bool, true, false, [], ◌∷◌, ◌++◌, Bytes, length,
  ◌==◌, if_elim, Outcome, ok, err, ◌>>=◌, not,
}
use opal_cpp.Common.Bits.{◌>>◌}
use opal_cpp.Cbor.{
  pos, negsuc, Document, string_value, blob_value, Fields, empty_map, Floats, k_break, k_unsigned,
  k_negative, k_bytes, k_text, k_array, k_map, k_tag, tag_epoch_timestamp,
}
use opal_cpp.Cbor.Decode.{
  max_depth, Taken, Argument, out_of_fuel, read_argument, read_chunk, chunks_loop,
  decode_chunked_string, is_done, items_loop, insert_or_assign, key_of, fields_loop, decode_tagged,
  decode_array, decode_map, decode_text, decode_major, decode_value, whole, decode,
}
use opal_cpp.Cbor.Fuel.{Takes, entry_takes, read_argument-Leaves, read_chunk-Leaves}
use opal_cpp.Cbor.Fuel.Ends.{
  Ends, fail_ends, Ends->>=, take_text-Ends, read_argument-Ends, read_chunk-Ends, key_of-Ends,
  decode_integer-Ends, timestamp_of-Ends, decode_simple-Ends,
}
use opal_cpp.Cbor.Fuel.Values.{behind_read, decode_value-Takes}

chunk_takes :
    (initial : ℕ) (input rest behind : Bytes) (head : Argument) (chunk : Bytes) (fuel : ℕ)
    → suc (length input) ≤ suc fuel
    → read_argument (bit_and initial 0x1f) input ≡ ok (head, rest)
    → read_chunk (head, rest) ≡ ok (chunk, behind)
    → length behind ≤ fuel
chunk_takes initial input rest behind head chunk fuel enough read got = omega (
  arith,
  behind_read (length input) _ head rest (read_argument-Leaves (bit_and initial 0x1f) input) read,
  behind_read (length rest) _ chunk behind (read_chunk-Leaves head rest) got,
)

chunks_loop-Ends :
    (fuel major : ℕ) (text input : Bytes)
    → length input ≤ fuel
    → Ends (chunks_loop fuel major text input)
unfolding chunks_loop
chunks_loop-Ends zero major text [] enough = fail_ends _
chunks_loop-Ends zero major text (initial ∷ input) enough = absurd (omega arith)
chunks_loop-Ends (suc fuel) major text [] enough = fail_ends _
chunks_loop-Ends (suc fuel) major text (initial ∷ input) enough =
    if_elim Ends (initial == k_break) _ _ (λ e. tt)
      (λ e.
        if_elim Ends (not ((initial >> 5) == major)) _ _ (λ e'. fail_ends _)
          (λ e'.
            Ends->>= (read_argument (bit_and initial 0x1f) input) _ (read_argument-Ends _ input)
              (λ head read.
                Ends->>= (read_chunk head) _ (read_chunk-Ends head.0 head.1) (λ chunk got.
                  chunks_loop-Ends fuel major (text ++ chunk.0) chunk.1 (
                    chunk_takes initial input head.1 chunk.1 head.0 chunk.0 fuel enough read
                      got)))))

module _ (decode : Bytes → Taken Document) (takes : Takes decode)
    (ends : (input : Bytes) → Ends (decode input)) where
  items_loop-Ends :
      (fuel : ℕ) (indefinite : Bool) (count : ℕ) (input : Bytes)
      → length input < fuel
      → Ends (items_loop decode fuel indefinite count input)
  unfolding items_loop
  items_loop-Ends zero indefinite count input enough = absurd (omega arith)
  items_loop-Ends (suc fuel) indefinite count input enough =
      if_elim Ends (is_done indefinite count input) _ _ (λ e. tt)
        (λ e. Ends->>= (decode input) _ (ends input) (λ first read.
          Ends->>= (items_loop decode fuel indefinite (count - 1) first.1) _
            (items_loop-Ends fuel indefinite (count - 1) first.1
              (omega (arith, takes input first.0 first.1 read)))
            (λ rest h. tt)))

  fields_loop-Ends :
      (fuel : ℕ) (indefinite : Bool) (count : ℕ) (map : Fields) (input : Bytes)
      → length input < fuel
      → Ends (fields_loop decode fuel indefinite count map input)
  unfolding fields_loop
  fields_loop-Ends zero indefinite count map input enough = absurd (omega arith)
  fields_loop-Ends (suc fuel) indefinite count map input enough =
      if_elim Ends (is_done indefinite count input) _ _ (λ e. tt)
        (λ e. Ends->>= (decode input) _ (ends input) (λ first read.
          Ends->>= (key_of first) _ (key_of-Ends first.0 first.1) (λ key named.
            Ends->>= (decode key.1) _ (ends key.1) (λ value got.
              fields_loop-Ends fuel indefinite (count - 1) (insert_or_assign key.0 value.0 map)
                value.1
                (omega (
                  arith,
                  entry_takes decode takes input first.1 key.1 value.1 first.0 key.0 value.0 read
                      named got,
                ))))))

decode_chunked_string-Ends :
    (major : ℕ) (head : Argument) (input : Bytes) → Ends (decode_chunked_string major (head, input))
unfolding decode_chunked_string
decode_chunked_string-Ends major (size, false) input = take_text-Ends size _ input
decode_chunked_string-Ends major (size, true) input =
    chunks_loop-Ends (length input) major [] input (omega arith)

module _ (floats : Floats) where
  decode_text-Ends :
      (major : ℕ) (make : Bytes → Document) (head : Argument × Bytes)
      → Ends (decode_text floats major make head)
  unfolding decode_text
  decode_text-Ends major make head =
      Ends->>= (decode_chunked_string major head) _ (decode_chunked_string-Ends major head.0 head.1)
        (λ text h. tt)

  module _ (decode : Bytes → Taken Document) (takes : Takes decode)
      (ends : (input : Bytes) → Ends (decode input)) where
    decode_array-Ends : (head : Argument × Bytes) → Ends (decode_array floats decode head)
    unfolding decode_array
    decode_array-Ends ((count, indefinite), input) =
        Ends->>= (items_loop decode (suc (length input)) indefinite count input) _
          (items_loop-Ends decode takes ends (suc (length input)) indefinite count input
            (omega arith))
          (λ items h. tt)

    decode_map-Ends : (head : Argument × Bytes) → Ends (decode_map floats decode head)
    unfolding decode_map
    decode_map-Ends ((count, indefinite), input) =
        Ends->>= (fields_loop decode (suc (length input)) indefinite count empty_map input) _
          (fields_loop-Ends decode takes ends (suc (length input)) indefinite count empty_map input
            (omega arith))
          (λ fields h. tt)

    decode_tagged-Ends : (head : Argument × Bytes) → Ends (decode_tagged floats decode head)
    unfolding decode_tagged
    decode_tagged-Ends ((tag, true), input) = fail_ends _
    decode_tagged-Ends ((tag, false), input) = Ends->>= (decode input) _ (ends input) (λ inner read.
        if_elim Ends (tag == tag_epoch_timestamp) _ _
          (λ e. timestamp_of-Ends floats inner.0 inner.1) (λ e. tt))

    decode_major-Ends :
        (major info : ℕ) (input : Bytes) → Ends (decode_major floats decode major info input)
    unfolding decode_major
    decode_major-Ends major info input =
        if_elim Ends (major == k_unsigned) _ _
          (λ e. behind _ (λ head. decode_integer-Ends pos head.0 head.1))
          (λ e.
            if_elim Ends (major == k_negative) _ _
              (λ e. behind _ (λ head. decode_integer-Ends negsuc head.0 head.1))
              (λ e.
                if_elim Ends (major == k_bytes) _ _
                  (λ e. behind _ (decode_text-Ends k_bytes blob_value))
                  (λ e.
                    if_elim Ends (major == k_text) _ _
                      (λ e. behind _ (decode_text-Ends k_text string_value))
                      (λ e.
                        if_elim Ends (major == k_array) _ _ (λ e. behind _ decode_array-Ends)
                          (λ e.
                            if_elim Ends (major == k_map) _ _ (λ e. behind _ decode_map-Ends)
                              (λ e.
                                if_elim Ends (major == k_tag) _ _ (λ e. behind _ decode_tagged-Ends)
                                  (λ e. decode_simple-Ends floats info input)))))))
      where
        behind :
            (next : Argument × Bytes → Taken Document)
            → ((head : Argument × Bytes) → Ends (next head))
            → Ends (read_argument info input >>= next)
        behind next each =
            Ends->>= (read_argument info input) next (read_argument-Ends info input)
              (λ head h. each head)

  decode_value-Ends : (depth : ℕ) (input : Bytes) → Ends (decode_value floats depth input)
  unfolding decode_value
  decode_value-Ends zero input = fail_ends _
  decode_value-Ends (suc depth) [] = fail_ends _
  decode_value-Ends (suc depth) (initial ∷ input) =
      decode_major-Ends (decode_value floats depth) (decode_value-Takes floats depth)
        (decode_value-Ends depth) (initial >> 5) (bit_and initial 0x1f) input

  whole-Ends : (doc : Document) (input : Bytes) → Ends (whole floats (doc, input))
  unfolding whole
  whole-Ends doc [] = tt
  whole-Ends doc (byte ∷ input) = fail_ends _

Ends-ne : {A : Type 0} → (result : Outcome A) → Ends result → ¬ (result ≡ err out_of_fuel)
Ends-ne (ok a) h e = cc
Ends-ne {A = A} (err failure) h e =
    h (ap (λ (o : Outcome A). elim o [ ok a ↦ failure | err other ↦ other ]) e)

-- On no input does Decode run out of the fuel of its loops: those over the elements of an array, the
-- entries of a map and the chunks of a string all end with an answer of their own. The error that
-- stands for used up fuel is none of the errors of the source.
pub decode_ends : (floats : Floats) (bytes : Bytes) → ¬ (decode floats bytes ≡ err out_of_fuel)
unfolding decode
decode_ends floats bytes = Ends-ne (decode_value floats max_depth bytes >>= whole floats) (
    Ends->>= (decode_value floats max_depth bytes) (whole floats)
      (decode_value-Ends floats max_depth bytes) (λ read h. whole-Ends floats read.0 read.1))
