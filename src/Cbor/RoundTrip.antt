-- ===== src/Cbor/RoundTrip.antt =====
-- Scalars, strings and the heads of values through the encoder and the decoder of runtime/src/cbor/cbor.cc.
use opal_cpp.Common.{
  ℕ, zero, suc, ◌^◌, ◌<◌, ◌≡◌, refl, arith, true, false, ◌++◌, append_assoc, Bytes, length,
  Bool-cases, inl, inr, ok, ◌>>=◌,
}
use opal_cpp.EventStream.Value.{big_endian}
use opal_cpp.Server.Router.Table.{bytes_lt}
use opal_cpp.Cbor.{
  ℤ, pos, negsuc, epoch_seconds, Document, null_value, bool_value, int_value, double_value,
  string_value, blob_value, timestamp_value, list_value, map_value, Items, empty_list, item, Fields,
  empty_map, entry, items_size, fields_size, k_text, k_tag, write_type_and_value, write_int,
  write_double, is_whole, seconds, Floats, write_timestamp,
}
use opal_cpp.Cbor.Decode.{
  Taken, Argument, read_argument, decode_chunked_string, decode_integer, from_epoch_seconds_checked,
  epoch_timestamp, timestamp_of, decode_tagged, float_value, decode_simple, decode_text,
  decode_major, decode_value,
}
use opal_cpp.Cbor.Head.{
  take_big_endian-written, take_text-written, IsHead-write, decode_value-initial,
}

abbrev pub IsInt : ℤ → Type 0
IsInt (pos n) = n < 2 ^ 63
IsInt (negsuc n) = n < 2 ^ 63

abbrev pub KeysAbove : Bytes → Fields → Type 0
KeysAbove key empty_map = Unit
KeysAbove key (entry other doc fields) = (bytes_lt key other ≡ true) × KeysAbove key fields

-- A depth that is left, behind one level.
abbrev pub Below : ℕ → (ℕ → Type 0) → Type 0
Below zero P = ¬ Unit {0}
Below (suc depth) P = P depth

module _ (floats : Floats) where
  -- The arithmetic of doubles gives the milliseconds back.
  abbrev pub IsExact : ℤ → Type 0
  IsExact ms =
      (is_whole ms ≡ true
        → IsInt (seconds ms)
          × (from_epoch_seconds_checked floats (floats.from_int (seconds ms)) ≡ ok ms))
      × (is_whole ms ≡ false
          → (floats.fraction ms < 2 ^ 64)
            × (from_epoch_seconds_checked floats (floats.fraction ms) ≡ ok ms))

  -- A document that an `std::int64_t`, a `std::size_t` and a `std::map` hold, nested no deeper than the
  -- depth that is left, with exact timestamps in epoch seconds.
  unfoldable mutual
    pub IsDocument : Document → ℕ → Type 0
    IsDocument null_value depth = 0 < depth
    IsDocument (bool_value b) depth = 0 < depth
    IsDocument (int_value n) depth = (0 < depth) × IsInt n
    IsDocument (double_value bits) depth = (0 < depth) × (bits < 2 ^ 64)
    IsDocument (string_value text) depth = (0 < depth) × (length text < 2 ^ 64)
    IsDocument (blob_value bytes) depth = (0 < depth) × (length bytes < 2 ^ 64)
    IsDocument (timestamp_value ms format) depth =
        (1 < depth) × (format ≡ epoch_seconds) × IsExact ms
    IsDocument (list_value items) depth =
        (items_size items < 2 ^ 64) × Below depth (λ left. AreItems items left)
    IsDocument (map_value fields) depth =
        (fields_size fields < 2 ^ 64) × Below depth (λ left. AreFields fields left)

    pub AreItems : Items → ℕ → Type 0
    AreItems empty_list depth = Unit
    AreItems (item doc items) depth = IsDocument doc depth × AreItems items depth

    pub AreFields : Fields → ℕ → Type 0
    AreFields empty_map depth = Unit
    AreFields (entry key doc fields) depth =
        (0 < depth)
        × (length key < 2 ^ 64)
        × KeysAbove key fields
        × (IsDocument doc depth × AreFields fields depth)

  -- A value whose argument is written is decoded by what its major type does with the argument.
  pub decode_value-headed :
      (depth major value : ℕ) (input : Bytes) (next : Argument × Bytes → Taken Document)
      → value < 2 ^ 64
      → ((info : ℕ) (behind : Bytes)
          → decode_major floats (decode_value floats depth) major info behind
            ≡ (read_argument info behind >>= next))
      → decode_value floats (suc depth) (write_type_and_value major value ++ input)
        ≡ next ((value, false), input)
  decode_value-headed depth major value input next fits major_does =
      let h = IsHead-write major value fits in
      rw
        (
          h.shape,
          decode_value-initial floats depth major h.info (h.tail ++ input) h.small,
          major_does h.info (h.tail ++ input),
          h.reads input,
        )
        refl

  pub decode-int :
      (depth : ℕ) (n : ℤ) (rest : Bytes)
      → IsInt n
      → decode_value floats (suc depth) (write_int n ++ rest) ≡ ok (int_value n, rest)
  unfolding write_int decode_major decode_integer
  decode-int depth (pos n) rest h =
      rw
        (decode_value-headed depth 0 n rest (decode_integer pos) (omega arith)
          (λ info behind. refl))
        (ground arith)
  decode-int depth (negsuc n) rest h =
      rw
        (decode_value-headed depth 1 n rest (decode_integer negsuc) (omega arith)
          (λ info behind. refl))
        (ground arith)

  pub decode-double :
      (depth bits : ℕ) (rest : Bytes)
      → bits < 2 ^ 64
      → decode_value floats (suc depth) (write_double bits ++ rest) ≡ ok (double_value bits, rest)
  unfolding write_double decode_major decode_simple float_value
  decode-double depth bits rest h =
      rw
        (
          decode_value-initial floats depth 7 27 (big_endian bits 8 ++ rest) (omega arith),
          take_big_endian-written 8 bits _ rest (omega arith) (omega arith),
        )
        refl

  pub decode-text :
      (depth : ℕ) (text rest : Bytes)
      → length text < 2 ^ 64
      → decode_value floats
          (suc depth)
          ((write_type_and_value k_text (length text) ++ text) ++ rest)
        ≡ ok (string_value text, rest)
  unfolding decode_major decode_text decode_chunked_string
  decode-text depth text rest h =
      rw
        (
          append_assoc (write_type_and_value k_text (length text)) text rest,
          decode_value-headed depth 3 (length text) (text ++ rest)
              (decode_text floats 3 string_value) h (λ info behind. refl),
          take_text-written text _ rest,
        )
        refl

  pub decode-blob :
      (depth : ℕ) (bytes rest : Bytes)
      → length bytes < 2 ^ 64
      → decode_value floats (suc depth) ((write_type_and_value 2 (length bytes) ++ bytes) ++ rest)
        ≡ ok (blob_value bytes, rest)
  unfolding decode_major decode_text decode_chunked_string
  decode-blob depth bytes rest h =
      rw
        (
          append_assoc (write_type_and_value 2 (length bytes)) bytes rest,
          decode_value-headed depth 2 (length bytes) (bytes ++ rest)
              (decode_text floats 2 blob_value) h (λ info behind. refl),
          take_text-written bytes _ rest,
        )
        refl

  pub decode-timestamp :
      (depth : ℕ) (ms : ℤ) (rest : Bytes)
      → IsExact ms
      → decode_value floats (suc (suc depth)) (write_timestamp floats ms ++ rest)
        ≡ ok (timestamp_value ms epoch_seconds, rest)
  unfolding write_timestamp decode_major decode_tagged timestamp_of epoch_timestamp
  decode-timestamp depth ms rest h = elim (Bool-cases (is_whole ms)) [
    | inl even ↦
        let (fits, back) = h.0 even in
        rw
          (
            even,
            append_assoc (write_type_and_value k_tag 1) (write_int (seconds ms)) rest,
            decode_value-headed (suc depth) 6 1 (write_int (seconds ms) ++ rest)
                (decode_tagged floats (decode_value floats (suc depth))) (omega arith)
                (λ info behind. refl),
            decode-int depth (seconds ms) rest fits,
            back,
          )
          refl
    | inr odd ↦
        let (fits, back) = h.1 odd in
        rw
          (
            odd,
            append_assoc (write_type_and_value k_tag 1) (write_double (floats.fraction ms)) rest,
            decode_value-headed (suc depth) 6 1 (write_double (floats.fraction ms) ++ rest)
                (decode_tagged floats (decode_value floats (suc depth))) (omega arith)
                (λ info behind. refl),
            decode-double depth (floats.fraction ms) rest fits,
            back,
          )
          refl
  ]
