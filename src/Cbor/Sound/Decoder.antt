-- ===== src/Cbor/Sound/Decoder.antt =====
-- The documents that the decoder of runtime/src/cbor/cbor.cc gives, by the kinds of value.
use Prim.Native.Nat.{bit_and}
use mathlib.Core.Path.{subst}
use opal_cpp.Common.{
  ℕ, zero, suc, ◌≡◌, arith, true, false, [], ◌∷◌, Bytes, length, ◌==◌, if_elim, ok, err, ◌>>=◌,
  err-ne-ok, ok-injective,
}
use opal_cpp.Common.Bits.{◌>>◌}
use opal_cpp.Cbor.{
  pos, negsuc, Document, null_value, bool_value, int_value, double_value, string_value, blob_value,
  timestamp_value, list_value, map_value, empty_map, Floats, k_unsigned, k_negative, k_bytes,
  k_text, k_array, k_map, k_tag, tag_epoch_timestamp,
}
use opal_cpp.Cbor.Decode.{
  max_depth, Taken, Argument, read_argument, decode_chunked_string, decode_integer, items_loop,
  fields_loop, timestamp_of, decode_tagged, decode_array, decode_map, decode_text, decode_major,
  decode_value, whole, decode,
}
use opal_cpp.Cbor.Sound.{
  IsSound, AreSound, FieldsSound, Gives, Gives->>=, Gives-any, Sound, IsSound-suc,
}
use opal_cpp.Cbor.Sound.Parts.{
  items_loop-Gives, fields_loop-Gives, decode_integer-Gives, decode_simple-Gives,
  timestamp_of-Gives,
}

module _ (floats : Floats) where
  module _ (depth : ℕ) (decode : Bytes → Taken Document)
      (sound : (input : Bytes) → Gives (Sound depth) (decode input)) where
    decode_array-Gives :
        (head : Argument) (input : Bytes)
        → Gives (Sound (suc depth)) (decode_array floats decode (head, input))
    unfolding decode_array IsSound
    decode_array-Gives (count, indefinite) input =
        Gives->>= (λ items. AreSound items depth) (Sound (suc depth))
          (items_loop decode (suc (length input)) indefinite count input) _
          (items_loop-Gives depth decode sound (suc (length input)) indefinite count input)
          (λ items rest h. h)

    decode_map-Gives :
        (head : Argument) (input : Bytes)
        → Gives (Sound (suc depth)) (decode_map floats decode (head, input))
    unfolding decode_map IsSound FieldsSound
    decode_map-Gives (count, indefinite) input =
        Gives->>= (λ fields. FieldsSound fields depth) (Sound (suc depth))
          (fields_loop decode (suc (length input)) indefinite count empty_map input) _
          (fields_loop-Gives depth decode sound (suc (length input)) indefinite count empty_map
            input tt)
          (λ fields rest h. h)

  decode_text-Gives :
      (depth major : ℕ) (make : Bytes → Document) (head : Argument) (input : Bytes)
      → ((text : Bytes) → IsSound (make text) (suc depth))
      → Gives (Sound (suc depth)) (decode_text floats major make (head, input))
  unfolding decode_text
  decode_text-Gives depth major make head input made =
      Gives-any (Sound (suc depth)) (decode_chunked_string major (head, input)) _
        (λ text rest. made text)

  nothing_sound : (doc : Document) → IsSound doc zero → ⊥
  unfolding IsSound
  nothing_sound null_value h = omega arith
  nothing_sound (bool_value b) h = omega arith
  nothing_sound (int_value n) h = omega (arith, h.0)
  nothing_sound (double_value bits) h = omega arith
  nothing_sound (string_value text) h = omega arith
  nothing_sound (blob_value bytes) h = omega arith
  nothing_sound (timestamp_value ms format) h = omega (arith, h.0)
  nothing_sound (list_value items) h = h tt
  nothing_sound (map_value fields) h = h tt

  tagged_timestamp :
      (depth : ℕ) (doc : Document) (input : Bytes)
      → IsSound doc depth
      → Gives (Sound (suc depth)) (timestamp_of floats (doc, input))
  tagged_timestamp zero doc input h = absurd (nothing_sound doc h)
  tagged_timestamp (suc depth) doc input h = timestamp_of-Gives floats depth doc input

  module _ (depth : ℕ) (decode : Bytes → Taken Document)
      (sound : (input : Bytes) → Gives (Sound depth) (decode input)) where
    decode_tagged-Gives :
        (head : Argument) (input : Bytes)
        → Gives (Sound (suc depth)) (decode_tagged floats decode (head, input))
    unfolding decode_tagged
    decode_tagged-Gives (tag, true) input = tt
    decode_tagged-Gives (tag, false) input =
        Gives->>= (Sound depth) (Sound (suc depth)) (decode input) _ (sound input) (λ inner rest h.
          if_elim (Gives (Sound (suc depth))) (tag == tag_epoch_timestamp) _ _
            (λ e. tagged_timestamp depth inner rest h) (λ e. IsSound-suc inner depth h))

    decode_major-Gives :
        (major info : ℕ) (input : Bytes)
        → Gives (Sound (suc depth)) (decode_major floats decode major info input)
    unfolding decode_major IsSound
    decode_major-Gives major info input =
        if_elim G (major == k_unsigned) _ _
          (λ e.
            behind (decode_integer pos)
              (λ head rest. decode_integer-Gives depth pos head rest (λ n h. h)))
          (λ e.
            if_elim G (major == k_negative) _ _
              (λ e.
                behind (decode_integer negsuc)
                  (λ head rest. decode_integer-Gives depth negsuc head rest (λ n h. h)))
              (λ e.
                if_elim G (major == k_bytes) _ _
                  (λ e. behind (decode_text floats k_bytes blob_value) (λ head rest.
                    decode_text-Gives depth k_bytes blob_value head rest (λ text. omega arith)))
                  (λ e.
                    if_elim G (major == k_text) _ _
                      (λ e. behind (decode_text floats k_text string_value) (λ head rest.
                        decode_text-Gives depth k_text string_value head rest
                          (λ text. omega arith)))
                      (λ e.
                        if_elim G (major == k_array) _ _
                          (λ e.
                            behind (decode_array floats decode)
                              (decode_array-Gives depth decode sound))
                          (λ e.
                            if_elim G (major == k_map) _ _
                              (λ e.
                                behind (decode_map floats decode)
                                  (decode_map-Gives depth decode sound))
                              (λ e.
                                if_elim G (major == k_tag) _ _
                                  (λ e. behind (decode_tagged floats decode) decode_tagged-Gives)
                                  (λ e. decode_simple-Gives floats depth info input)))))))
      where
        G : Taken Document → Type 0
        G = Gives (Sound (suc depth))

        behind :
            (next : Argument × Bytes → Taken Document)
            → ((head : Argument) (rest : Bytes) → Gives (Sound (suc depth)) (next (head, rest)))
            → Gives (Sound (suc depth)) (read_argument info input >>= next)
        behind next each = Gives-any (Sound (suc depth)) (read_argument info input) next each

  decode_value-Gives :
      (depth : ℕ) (input : Bytes) → Gives (Sound depth) (decode_value floats depth input)
  unfolding decode_value
  decode_value-Gives zero input = tt
  decode_value-Gives (suc depth) [] = tt
  decode_value-Gives (suc depth) (initial ∷ input) =
      decode_major-Gives depth (decode_value floats depth) (decode_value-Gives depth) (initial >> 5)
        (bit_and initial 0x1f) input

  whole_read :
      (result : Taken Document) (doc : Document)
      → Gives (Sound max_depth) result
      → (result >>= whole floats) ≡ ok doc
      → IsSound doc max_depth
  unfolding whole
  whole_read (ok (found, [])) doc h e = subst (Sound max_depth) (ok-injective e) h
  whole_read (ok (found, byte ∷ rest)) doc h e = absurd (err-ne-ok e)
  whole_read (err failure) doc h e = absurd (err-ne-ok e)

-- Whatever the bytes are, a document that Decode accepts is nested at most 64 deep, its integers fit
-- 64 bits, the keys of its maps ascend and so differ, and its timestamps are in epoch seconds and
-- within the years 0 to 9999.
pub decode-IsSound :
    (floats : Floats) (bytes : Bytes) (doc : Document)
    → decode floats bytes ≡ ok doc
    → IsSound doc max_depth
unfolding decode
decode-IsSound floats bytes doc e =
    whole_read floats (decode_value floats max_depth bytes) doc
      (decode_value-Gives floats max_depth bytes) e
