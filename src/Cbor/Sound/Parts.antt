-- ===== src/Cbor/Sound/Parts.antt =====
-- Lemmas about the loops, numbers and timestamps of the decoder of runtime/src/cbor/cbor.cc.
use opal_cpp.Common.{
  ℕ, zero, suc, ◌-◌, ◌^◌, ◌<◌, refl, arith, Bool, true, false, ◌||◌, ◌&&◌, Bytes, ltb, leb, ◌==◌,
  if_elim, Bool-cases, inl, inr, Outcome, ok, err, ◌>>=◌, not,
}
use opal_cpp.Cbor.{
  ℤ, pos, negsuc, epoch_seconds, Document, null_value, bool_value, int_value, double_value,
  string_value, blob_value, timestamp_value, list_value, map_value, Fields, Floats,
}
use opal_cpp.Cbor.Decode.{
  out_of_window, Taken, Argument, take_big_endian, decode_integer, is_done, items_loop,
  insert_or_assign, key_of, fields_loop, checked_from_ms, from_epoch_seconds_checked,
  epoch_timestamp, timestamp_of, float_value, decode_simple,
}
use opal_cpp.Cbor.RoundTrip.{IsInt}
use opal_cpp.Cbor.Sound.{
  IsInstant, IsSound, AreSound, FieldsSound, FieldsSound-insert, Gives, Gives->>=, Gives-any, Sound,
}

module _ (depth : ℕ) (decode : Bytes → Taken Document)
    (sound : (input : Bytes) → Gives (Sound depth) (decode input)) where
  pub items_loop-Gives :
      (fuel : ℕ) (indefinite : Bool) (count : ℕ) (input : Bytes)
      → Gives (λ items. AreSound items depth) (items_loop decode fuel indefinite count input)
  unfolding items_loop AreSound
  items_loop-Gives zero indefinite count input = tt
  items_loop-Gives (suc fuel) indefinite count input =
      if_elim (Gives (λ items. AreSound items depth)) (is_done indefinite count input) _ _ (λ e. tt)
        (λ e.
          Gives->>= (Sound depth) (λ items. AreSound items depth) (decode input) _ (sound input)
            (λ doc rest h.
              Gives->>= (λ items. AreSound items depth) (λ items. AreSound items depth)
                (items_loop decode fuel indefinite (count - 1) rest) _
                (items_loop-Gives fuel indefinite (count - 1) rest) (λ items behind h'. (h, h'))))

  pub fields_loop-Gives :
      (fuel : ℕ) (indefinite : Bool) (count : ℕ) (map : Fields) (input : Bytes)
      → FieldsSound map depth
      → Gives
          (λ fields. FieldsSound fields depth)
          (fields_loop decode fuel indefinite count map input)
  unfolding fields_loop
  fields_loop-Gives zero indefinite count map input h = tt
  fields_loop-Gives (suc fuel) indefinite count map input h =
      if_elim (Gives (λ fields. FieldsSound fields depth)) (is_done indefinite count input) _ _
        (λ e. h)
        (λ e.
          Gives-any (λ fields. FieldsSound fields depth) (decode input) _
            (λ first rest.
              Gives-any (λ fields. FieldsSound fields depth) (key_of (first, rest)) _
                (λ key behind.
                  Gives->>= (Sound depth) (λ fields. FieldsSound fields depth) (decode behind) _
                    (sound behind)
                    (λ value last h'.
                      fields_loop-Gives fuel indefinite (count - 1) (insert_or_assign key value map)
                        last (FieldsSound-insert key value map depth h h')))))

-- The parts of the decoder that read no nested value.
pub decode_integer-Gives :
    (depth : ℕ) (make : ℕ → ℤ) (head : Argument) (input : Bytes)
    → ((n : ℕ) → n < 2 ^ 63 → IsInt (make n))
    → Gives (Sound (suc depth)) (decode_integer make (head, input))
unfolding decode_integer IsSound
decode_integer-Gives depth make (value, true) input small = tt
decode_integer-Gives depth make (value, false) input small =
    elim (Bool-cases (ltb (2 ^ 63 - 1) value)) [
      | inl large ↦ rw large tt
      | inr fits ↦ rw fits (omega arith, small value (ground arith))
    ]

pub decode_simple-Gives :
    (floats : Floats) (depth info : ℕ) (input : Bytes)
    → Gives (Sound (suc depth)) (decode_simple floats info input)
unfolding decode_simple float_value IsSound
decode_simple-Gives floats depth info input =
    if_elim (Gives (Sound (suc depth))) (info == 20) _ _ (λ e. omega arith)
      (λ e.
        if_elim (Gives (Sound (suc depth))) (info == 21) _ _ (λ e. omega arith)
          (λ e.
            if_elim (Gives (Sound (suc depth))) (info == 22 || info == 23) _ _ (λ e. omega arith)
              (λ e.
                if_elim (Gives (Sound (suc depth))) (leb 25 info && leb info 27) _ _
                  (λ e.
                    Gives-any (Sound (suc depth)) (take_big_endian _ _ input) _
                      (λ bits rest. omega arith))
                  (λ e. tt))))

-- A timestamp is within the years that its text can write.
abbrev GivesInstant : Outcome ℤ → Type 0
GivesInstant (ok ms) = IsInstant ms
GivesInstant (err failure) = Unit

module _ (floats : Floats) where
  checked_from_ms-IsInstant : (ms : ℤ) → GivesInstant (checked_from_ms floats ms)
  unfolding checked_from_ms
  checked_from_ms-IsInstant (pos n) =
      if_elim GivesInstant (ltb 253402300799999 n) _ _ (λ e. tt) (λ e. ground arith)
  checked_from_ms-IsInstant (negsuc n) =
      if_elim GivesInstant (leb 62167219200000 n) _ _ (λ e. tt) (λ e. ground arith)

  from_epoch_seconds_checked-IsInstant :
      (bits : ℕ) → GivesInstant (from_epoch_seconds_checked floats bits)
  unfolding from_epoch_seconds_checked
  from_epoch_seconds_checked-IsInstant bits =
      if_elim GivesInstant (not (floats.is_finite bits)) _ _ (λ e. tt)
        (λ e.
          if_elim GivesInstant (out_of_window floats bits) _ _ (λ e'. tt)
            (λ e'. checked_from_ms-IsInstant (floats.milliseconds bits)))

  module _ (depth : ℕ) where
    timestamp-Gives :
        (made : Outcome ℤ) (input : Bytes)
        → GivesInstant made
        → Gives
            (Sound (suc (suc depth)))
            (made >>= λ ms. ok (timestamp_value ms epoch_seconds, input))
    unfolding IsSound
    timestamp-Gives (ok ms) input h = (omega arith, refl, h)
    timestamp-Gives (err failure) input h = tt

    epoch_timestamp-Gives :
        (input : Bytes) (bits : ℕ)
        → Gives (Sound (suc (suc depth))) (epoch_timestamp floats input bits)
    unfolding epoch_timestamp
    epoch_timestamp-Gives input bits =
        timestamp-Gives (from_epoch_seconds_checked floats bits) input
          (from_epoch_seconds_checked-IsInstant bits)

    pub timestamp_of-Gives :
        (doc : Document) (input : Bytes)
        → Gives (Sound (suc (suc depth))) (timestamp_of floats (doc, input))
    unfolding timestamp_of
    timestamp_of-Gives (int_value n) input = epoch_timestamp-Gives input (floats.from_int n)
    timestamp_of-Gives (double_value bits) input = epoch_timestamp-Gives input bits
    timestamp_of-Gives null_value input = tt
    timestamp_of-Gives (bool_value b) input = tt
    timestamp_of-Gives (string_value text) input = tt
    timestamp_of-Gives (blob_value bytes) input = tt
    timestamp_of-Gives (timestamp_value ms format) input = tt
    timestamp_of-Gives (list_value items) input = tt
    timestamp_of-Gives (map_value fields) input = tt
