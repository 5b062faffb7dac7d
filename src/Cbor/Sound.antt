-- ===== src/Cbor/Sound.antt =====
-- Documents as they may come out of the decoder of runtime/src/cbor/cbor.cc.
pub mod Parts
pub mod Decoder
use Prim.Native.Nat.{bit_and}
use mathlib.Core.Path.{subst}
use opal_cpp.Common.{
  ℕ, zero, suc, ◌-◌, ◌^◌, ◌≤◌, ◌<◌, ◌≡◌, refl, arith, Bool, true, false, List, [], ◌∷◌, ◌||◌, ◌&&◌,
  Bytes, length, take, drop, ltb, leb, ◌==◌, if◌then◌else◌, if_elim, Bool-cases, inl, inr, Outcome,
  ok, err, ◌>>=◌, not,
}
use opal_cpp.Common.Bits.{◌>>◌}
use opal_cpp.Server.Router.Table.{bytes_lt}
use opal_cpp.Server.Router.Table.Register.{bytes_lt_trans}
use opal_cpp.Cbor.{
  ℤ, pos, negsuc, TimestampFormat, epoch_seconds, Document, null_value, bool_value, int_value,
  double_value, string_value, blob_value, timestamp_value, list_value, map_value, Items, empty_list,
  item, Fields, empty_map, entry, Floats, k_unsigned, k_negative, k_bytes, k_text, k_array, k_map,
  k_tag, tag_epoch_timestamp,
}
use opal_cpp.Cbor.Decode.{
  max_depth, Taken, Argument, take_big_endian, read_argument, decode_chunked_string, decode_integer,
  is_done, behind_end, items_loop, insert_or_assign, key_of, fields_loop, checked_from_ms,
  from_epoch_seconds_checked, epoch_timestamp, timestamp_of, decode_tagged, float_value,
  decode_simple, decode_array, decode_map, decode_text, decode_major, decode_value, whole, decode,
}
use opal_cpp.Cbor.RoundTrip.{IsInt, KeysAbove, Below}

-- From the first instant of year 0 to the last of year 9999.
abbrev pub IsInstant : ℤ → Type 0
IsInstant (pos n) = n ≤ 253402300799999
IsInstant (negsuc n) = n < 62167219200000

-- A document nested no deeper than the depth that is left.
unfoldable mutual
  pub IsSound : Document → ℕ → Type 0
  IsSound null_value depth = 0 < depth
  IsSound (bool_value b) depth = 0 < depth
  IsSound (int_value n) depth = (0 < depth) × IsInt n
  IsSound (double_value bits) depth = 0 < depth
  IsSound (string_value text) depth = 0 < depth
  IsSound (blob_value bytes) depth = 0 < depth
  IsSound (timestamp_value ms format) depth = (1 < depth) × (format ≡ epoch_seconds) × IsInstant ms
  IsSound (list_value items) depth = Below depth (λ left. AreSound items left)
  IsSound (map_value fields) depth = Below depth (λ left. FieldsSound fields left)

  pub AreSound : Items → ℕ → Type 0
  AreSound empty_list depth = Unit
  AreSound (item doc items) depth = IsSound doc depth × AreSound items depth

  pub FieldsSound : Fields → ℕ → Type 0
  FieldsSound empty_map depth = Unit
  FieldsSound (entry key doc fields) depth =
      KeysAbove key fields × IsSound doc depth × FieldsSound fields depth

KeysAbove-trans :
    (key other : Bytes) (fields : Fields)
    → bytes_lt key other ≡ true
    → KeysAbove other fields
    → KeysAbove key fields
KeysAbove-trans key other empty_map lt h = tt
KeysAbove-trans key other (entry next doc fields) lt h =
    (bytes_lt_trans key other next lt h.0, KeysAbove-trans key other fields lt h.1)

KeysAbove-insert :
    (low key : Bytes) (doc : Document) (fields : Fields)
    → bytes_lt low key ≡ true
    → KeysAbove low fields
    → KeysAbove low (insert_or_assign key doc fields)
unfolding insert_or_assign
KeysAbove-insert low key doc empty_map lt h = (lt, tt)
KeysAbove-insert low key doc (entry other old fields) lt h =
    if_elim (KeysAbove low) (bytes_lt other key) _ _
      (λ e. (h.0, KeysAbove-insert low key doc fields lt h.1))
      (λ e.
        if_elim (KeysAbove low) (bytes_lt key other) _ _ (λ e'. (lt, (h.0, h.1)))
          (λ e'. (h.0, h.1)))

-- Filling a map keeps its keys in order, each once.
pub FieldsSound-insert :
    (key : Bytes) (doc : Document) (fields : Fields) (depth : ℕ)
    → FieldsSound fields depth
    → IsSound doc depth
    → FieldsSound (insert_or_assign key doc fields) depth
unfolding insert_or_assign FieldsSound
FieldsSound-insert key doc empty_map depth h sound = (tt, sound, tt)
FieldsSound-insert key doc (entry other old fields) depth h sound =
    if_elim (λ (t : Fields). FieldsSound t depth) (bytes_lt other key) _ _
      (λ e. (
        KeysAbove-insert other key doc fields e h.0,
        h.1,
        FieldsSound-insert key doc fields depth h.2 sound,
      ))
      (λ e.
        if_elim (λ (t : Fields). FieldsSound t depth) (bytes_lt key other) _ _
          (λ e'. ((e', KeysAbove-trans key other fields e' h.0), sound, h))
          (λ e'. (h.0, sound, h.2)))

-- What a result holds if it is one.
abbrev pub Gives : {A : Type 0} → (A → Type 0) → Taken A → Type 0
Gives P (ok (a, rest)) = P a
Gives P (err failure) = Unit

module _ {A B : Type 0} where
  pub Gives->>= :
      (P : A → Type 0) (Q : B → Type 0) (first : Taken A) (next : A × Bytes → Taken B)
      → Gives P first
      → ((a : A) (rest : Bytes) → P a → Gives Q (next (a, rest)))
      → Gives Q (first >>= next)
  Gives->>= P Q (ok (a, rest)) next h then_case = then_case a rest h
  Gives->>= P Q (err failure) next h then_case = tt

  pub Gives-any :
      (Q : B → Type 0) (first : Taken A) (next : A × Bytes → Taken B)
      → ((a : A) (rest : Bytes) → Gives Q (next (a, rest)))
      → Gives Q (first >>= next)
  Gives-any Q (ok (a, rest)) next then_case = then_case a rest
  Gives-any Q (err failure) next then_case = tt

abbrev pub Sound : ℕ → Document → Type 0
Sound depth doc = IsSound doc depth

-- A value that fits one depth fits the next.
mutual
  unfolding IsSound AreSound FieldsSound

  pub IsSound-suc : (doc : Document) (depth : ℕ) → IsSound doc depth → IsSound doc (suc depth)
  IsSound-suc null_value depth h = omega arith
  IsSound-suc (bool_value b) depth h = omega arith
  IsSound-suc (int_value n) depth h = (omega arith, h.1)
  IsSound-suc (double_value bits) depth h = omega arith
  IsSound-suc (string_value text) depth h = omega arith
  IsSound-suc (blob_value bytes) depth h = omega arith
  IsSound-suc (timestamp_value ms format) depth h = (omega (arith, h.0), h.1, h.2)
  IsSound-suc (list_value items) zero h = absurd (h tt)
  IsSound-suc (list_value items) (suc depth) h = AreSound-suc items depth h
  IsSound-suc (map_value fields) zero h = absurd (h tt)
  IsSound-suc (map_value fields) (suc depth) h = FieldsSound-suc fields depth h

  AreSound-suc : (items : Items) (depth : ℕ) → AreSound items depth → AreSound items (suc depth)
  AreSound-suc empty_list depth h = tt
  AreSound-suc (item doc items) depth h = (IsSound-suc doc depth h.0, AreSound-suc items depth h.1)

  FieldsSound-suc :
      (fields : Fields) (depth : ℕ) → FieldsSound fields depth → FieldsSound fields (suc depth)
  FieldsSound-suc empty_map depth h = tt
  FieldsSound-suc (entry key doc fields) depth h =
      (h.0, IsSound-suc doc depth h.1, FieldsSound-suc fields depth h.2)
