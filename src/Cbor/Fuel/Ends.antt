-- ===== src/Cbor/Fuel/Ends.antt =====
-- Lemmas about the errors of the decoder of runtime/src/cbor/cbor.cc.
use opal_cpp.Common.{
  ℕ, ◌-◌, ◌^◌, ◌≡◌, ◌≢◌, refl, ap, arith, true, false, [], ◌∷◌, Bytes, codes, length, ltb, leb,
  ◌==◌, if_elim, ◌||◌, ◌&&◌, not, Outcome, ok, err, ◌>>=◌, Error, serialization_error,
}
use opal_cpp.Cbor.{
  ℤ, pos, negsuc, Document, null_value, bool_value, int_value, double_value, string_value,
  blob_value, timestamp_value, list_value, map_value, Floats, epoch_seconds,
}
use opal_cpp.Cbor.Decode.{
  Argument, fail, out_of_fuel, take_big_endian, definite, read_argument, take_text, read_chunk,
  decode_integer, key_of, checked_from_ms, from_epoch_seconds_checked, out_of_window,
  epoch_timestamp, timestamp_of, float_value, decode_simple,
}

-- The fuel was not used up.
abbrev pub Ends {ℓ} : {A : Type ℓ} → Outcome A → Type 0
Ends (ok a) = Unit
Ends (err failure) = failure ≢ out_of_fuel

abbrev front : Bytes → ℕ
front [] = 0
front (c ∷ text) = c

pub fail_ends : (what : Bytes) → fail what ≢ out_of_fuel
unfolding fail out_of_fuel serialization_error codes
fail_ends what e =
    let same : ◌≡◌ {A = ℕ} 99 111 = ap (λ (x : Error). front x.message) e in omega arith

module _ {A B : Type 0} where
  pub Ends->>= :
      (first : Outcome A) (next : A → Outcome B)
      → Ends first
      → ((a : A) → first ≡ ok a → Ends (next a))
      → Ends (first >>= next)
  Ends->>= (ok a) next h then_case = then_case a refl
  Ends->>= (err failure) next h then_case = h

pub take_big_endian-Ends :
    (bytes : ℕ) (what input : Bytes) → Ends (take_big_endian bytes what input)
unfolding take_big_endian
take_big_endian-Ends bytes what input =
    if_elim Ends (ltb (length input) bytes) _ _ (λ e. fail_ends what) (λ e. tt)

pub take_text-Ends : (size : ℕ) (what input : Bytes) → Ends (take_text size what input)
unfolding take_text
take_text-Ends size what input =
    if_elim Ends (ltb (length input) size) _ _ (λ e. fail_ends what) (λ e. tt)

pub read_argument-Ends : (info : ℕ) (input : Bytes) → Ends (read_argument info input)
unfolding read_argument definite
read_argument-Ends info input =
    if_elim Ends (ltb info 24) _ _ (λ e. tt)
      (λ e.
        if_elim Ends (leb info 27) _ _
          (λ e'.
            Ends->>= (take_big_endian _ _ input) definite (take_big_endian-Ends _ _ input)
              (λ a h. tt))
          (λ e'. if_elim Ends (info == 31) _ _ (λ e''. tt) (λ e''. fail_ends _)))

pub read_chunk-Ends : (head : Argument) (input : Bytes) → Ends (read_chunk (head, input))
unfolding read_chunk
read_chunk-Ends (size, true) input = fail_ends _
read_chunk-Ends (size, false) input = take_text-Ends size _ input

pub key_of-Ends : (first : Document) (input : Bytes) → Ends (key_of (first, input))
unfolding key_of
key_of-Ends (string_value text) input = tt
key_of-Ends null_value input = fail_ends _
key_of-Ends (bool_value b) input = fail_ends _
key_of-Ends (int_value n) input = fail_ends _
key_of-Ends (double_value bits) input = fail_ends _
key_of-Ends (blob_value bytes) input = fail_ends _
key_of-Ends (timestamp_value ms format) input = fail_ends _
key_of-Ends (list_value items) input = fail_ends _
key_of-Ends (map_value fields) input = fail_ends _

pub decode_integer-Ends :
    (make : ℕ → ℤ) (head : Argument) (input : Bytes) → Ends (decode_integer make (head, input))
unfolding decode_integer
decode_integer-Ends make (value, true) input = fail_ends _
decode_integer-Ends make (value, false) input =
    if_elim Ends (ltb (2 ^ 63 - 1) value) _ _ (λ e. fail_ends _) (λ e. tt)

timestamp_ends : (what : Bytes) → serialization_error (116 ∷ what) ≢ out_of_fuel
unfolding out_of_fuel serialization_error codes
timestamp_ends what e =
    let same : ◌≡◌ {A = ℕ} 116 111 = ap (λ (x : Error). front x.message) e in omega arith

module _ (floats : Floats) where
  checked_from_ms-Ends : (ms : ℤ) → Ends (checked_from_ms floats ms)
  unfolding checked_from_ms codes
  checked_from_ms-Ends (pos n) =
      if_elim Ends (ltb 253402300799999 n) _ _ (λ e. timestamp_ends _) (λ e. tt)
  checked_from_ms-Ends (negsuc n) =
      if_elim Ends (leb 62167219200000 n) _ _ (λ e. timestamp_ends _) (λ e. tt)

  epoch_timestamp-Ends : (input : Bytes) (bits : ℕ) → Ends (epoch_timestamp floats input bits)
  unfolding epoch_timestamp from_epoch_seconds_checked codes
  epoch_timestamp-Ends input bits =
      Ends->>= _ (λ (ms : ℤ). ok (timestamp_value ms epoch_seconds, input))
        (if_elim Ends (not (floats.is_finite bits)) _ _ (λ e. timestamp_ends _)
          (λ e.
            if_elim Ends (out_of_window floats bits) _ _ (λ e'. timestamp_ends _)
              (λ e'. checked_from_ms-Ends (floats.milliseconds bits))))
        (λ ms h. tt)

  pub timestamp_of-Ends : (doc : Document) (input : Bytes) → Ends (timestamp_of floats (doc, input))
  unfolding timestamp_of
  timestamp_of-Ends (int_value n) input = epoch_timestamp-Ends input (floats.from_int n)
  timestamp_of-Ends (double_value bits) input = epoch_timestamp-Ends input bits
  timestamp_of-Ends null_value input = fail_ends _
  timestamp_of-Ends (bool_value b) input = fail_ends _
  timestamp_of-Ends (string_value text) input = fail_ends _
  timestamp_of-Ends (blob_value bytes) input = fail_ends _
  timestamp_of-Ends (timestamp_value ms format) input = fail_ends _
  timestamp_of-Ends (list_value items) input = fail_ends _
  timestamp_of-Ends (map_value fields) input = fail_ends _

  pub decode_simple-Ends : (info : ℕ) (input : Bytes) → Ends (decode_simple floats info input)
  unfolding decode_simple float_value
  decode_simple-Ends info input =
      if_elim Ends (info == 20) _ _ (λ e. tt)
        (λ e.
          if_elim Ends (info == 21) _ _ (λ e. tt)
            (λ e.
              if_elim Ends (info == 22 || info == 23) _ _ (λ e. tt)
                (λ e.
                  if_elim Ends (leb 25 info && leb info 27) _ _
                    (λ e.
                      Ends->>= (take_big_endian _ _ input) _ (take_big_endian-Ends _ _ input)
                        (λ bits h. tt))
                    (λ e. fail_ends _))))
