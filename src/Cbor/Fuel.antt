-- ===== src/Cbor/Fuel.antt =====
-- Lemmas about the bytes that the decoder of runtime/src/cbor/cbor.cc leaves, for the fuel of its loops.
pub mod Values
pub mod Ends
pub mod Loops
use Prim.Native.Nat.{bit_and}
use opal_cpp.Common.{
  ℕ, zero, suc, ◌+◌, ◌-◌, ◌^◌, ◌≤◌, ◌<◌, ◌≡◌, refl, sym, ap, ◌∙◌, arith, Bool, true, false, List,
  [], ◌∷◌, ◌++◌, Bytes, length, take, drop, length-drop, ltb, leb, ◌==◌, if◌then◌else◌, if_elim,
  Bool-cases, inl, inr, Outcome, ok, err, ◌>>=◌, not, ◌||◌, ◌&&◌,
}
use opal_cpp.Common.Bits.{◌>>◌}
use opal_cpp.Cbor.{
  ℤ, pos, negsuc, Document, null_value, bool_value, int_value, double_value, string_value,
  blob_value, timestamp_value, list_value, map_value, Items, item, Fields, Floats, k_break,
}
use opal_cpp.Cbor.Decode.{
  Taken, Argument, take_big_endian, definite, read_argument, take_text, read_chunk, chunks_loop,
  decode_chunked_string, decode_integer, is_done, behind_end, items_loop, insert_or_assign, key_of,
  fields_loop, from_epoch_seconds_checked, epoch_timestamp, timestamp_of, decode_tagged,
  float_value, decode_simple, decode_array, decode_map, decode_text, decode_major, decode_value,
}

-- At most `n` bytes are left behind what was read.
abbrev pub Leaves {ℓ} : {A : Type ℓ} → ℕ → Outcome (A × Bytes) → Type 0
Leaves n (ok (a, rest)) = length rest ≤ n
Leaves n (err failure) = Unit

module _ {A B : Type 0} where
  pub Leaves->>= :
      (n : ℕ) (first : Taken A) (next : A × Bytes → Taken B)
      → Leaves n first
      → ((a : A) (rest : Bytes) → length rest ≤ n → Leaves n (next (a, rest)))
      → Leaves n (first >>= next)
  Leaves->>= n (ok (a, rest)) next h then_case = then_case a rest h
  Leaves->>= n (err failure) next h then_case = tt

module _ {A : Type 0} where
  pub Leaves-le : (n m : ℕ) (result : Taken A) → Leaves n result → n ≤ m → Leaves m result
  Leaves-le n m (ok (a, rest)) h le = omega arith
  Leaves-le n m (err failure) h le = tt

pub take_big_endian-Leaves :
    (bytes : ℕ) (what input : Bytes) → Leaves (length input) (take_big_endian bytes what input)
unfolding take_big_endian
take_big_endian-Leaves bytes what input =
    if_elim (Leaves (length input)) (ltb (length input) bytes) _ _ (λ e. tt)
      (λ e. omega (arith, length-drop bytes input))

pub take_text-Leaves :
    (size : ℕ) (what input : Bytes) → Leaves (length input) (take_text size what input)
unfolding take_text
take_text-Leaves size what input =
    if_elim (Leaves (length input)) (ltb (length input) size) _ _ (λ e. tt)
      (λ e. omega (arith, length-drop size input))

pub read_argument-Leaves :
    (info : ℕ) (input : Bytes) → Leaves (length input) (read_argument info input)
unfolding read_argument definite
read_argument-Leaves info input =
    if_elim (Leaves (length input)) (ltb info 24) _ _ (λ e. omega arith)
      (λ e.
        if_elim (Leaves (length input)) (leb info 27) _ _
          (λ e'.
            Leaves->>= (length input) (take_big_endian _ _ input) definite
              (take_big_endian-Leaves _ _ input) (λ value rest h. h))
          (λ e'. if_elim (Leaves (length input)) (info == 31) _ _ (λ e''. omega arith) (λ e''. tt)))

pub read_chunk-Leaves :
    (head : Argument) (input : Bytes) → Leaves (length input) (read_chunk (head, input))
unfolding read_chunk
read_chunk-Leaves (size, true) input = tt
read_chunk-Leaves (size, false) input = take_text-Leaves size _ input

pub chunks_loop-Leaves :
    (fuel major : ℕ) (text input : Bytes)
    → Leaves (length input) (chunks_loop fuel major text input)
unfolding chunks_loop
chunks_loop-Leaves zero major text [] = tt
chunks_loop-Leaves zero major text (initial ∷ input) = tt
chunks_loop-Leaves (suc fuel) major text [] = tt
chunks_loop-Leaves (suc fuel) major text (initial ∷ input) =
    if_elim (Leaves (suc (length input))) (initial == k_break) _ _ (λ e. omega arith)
      (λ e.
        if_elim (Leaves (suc (length input))) (not ((initial >> 5) == major)) _ _ (λ e'. tt)
          (λ e'.
            Leaves->>= (suc (length input)) (read_argument (bit_and initial 0x1f) input) _
              (Leaves-le (length input) _ (read_argument _ input) (read_argument-Leaves _ input)
                (omega arith))
              (λ head rest h.
                Leaves->>= (suc (length input)) (read_chunk (head, rest)) _
                  (Leaves-le (length rest) _ (read_chunk (head, rest)) (read_chunk-Leaves head rest)
                    h)
                  (λ chunk behind h'.
                    Leaves-le (length behind) _ (chunks_loop fuel major _ behind)
                      (chunks_loop-Leaves fuel major _ behind) h'))))

-- A decoder that takes at least a byte.
abbrev pub Takes : (Bytes → Taken Document) → Type 0
Takes decode =
    (input : Bytes) (doc : Document) (rest : Bytes)
    → decode input ≡ ok (doc, rest)
    → length rest < length input

behind_end-Leaves :
    (indefinite : Bool) (input : Bytes) → length (behind_end indefinite input) ≤ length input
unfolding behind_end
behind_end-Leaves true input = omega (arith, length-drop 1 input)
behind_end-Leaves false input = omega arith

-- What holds of each result that a decoder gives.
module _ {A B : Type 0} where
  pub Leaves-read :
      (n : ℕ) (first : Taken A) (next : A × Bytes → Taken B)
      → ((a : A) (rest : Bytes) → first ≡ ok (a, rest) → Leaves n (next (a, rest)))
      → Leaves n (first >>= next)
  Leaves-read n (ok (a, rest)) next then_case = then_case a rest refl
  Leaves-read n (err failure) next then_case = tt

-- The key is taken out of a value that has been read.
key_of-rest :
    (first : Document) (input : Bytes) (key rest : Bytes)
    → key_of (first, input) ≡ ok (key, rest)
    → rest ≡ input
unfolding key_of
key_of-rest (string_value text) input key rest e = cc
key_of-rest null_value input key rest e = cc
key_of-rest (bool_value b) input key rest e = cc
key_of-rest (int_value n) input key rest e = cc
key_of-rest (double_value bits) input key rest e = cc
key_of-rest (blob_value bytes) input key rest e = cc
key_of-rest (timestamp_value ms format) input key rest e = cc
key_of-rest (list_value items) input key rest e = cc
key_of-rest (map_value fields) input key rest e = cc

module _ (decode : Bytes → Taken Document) (takes : Takes decode) where
  pub items_loop-Leaves :
      (fuel : ℕ) (indefinite : Bool) (count : ℕ) (input : Bytes)
      → Leaves (length input) (items_loop decode fuel indefinite count input)
  unfolding items_loop
  items_loop-Leaves zero indefinite count input = tt
  items_loop-Leaves (suc fuel) indefinite count input =
      if_elim (Leaves (length input)) (is_done indefinite count input) _ _
        (λ e. behind_end-Leaves indefinite input)
        (λ e. Leaves-read (length input) (decode input) _ (λ doc rest read.
          Leaves->>= (length input) (items_loop decode fuel indefinite (count - 1) rest) _
            (Leaves-le (length rest) _ (items_loop decode fuel indefinite (count - 1) rest)
              (items_loop-Leaves fuel indefinite (count - 1) rest)
              (omega (arith, takes input doc rest read)))
            (λ items behind h. h)))

  pub entry_takes :
      (input rest behind last : Bytes) (first : Document) (key : Bytes) (value : Document)
      → decode input ≡ ok (first, rest)
      → key_of (first, rest) ≡ ok (key, behind)
      → decode behind ≡ ok (value, last)
      → length last < length input
  entry_takes input rest behind last first key value read named got = omega (
    arith,
    takes input first rest read,
    ap length (key_of-rest first rest key behind named),
    takes behind value last got,
  )

  pub fields_loop-Leaves :
      (fuel : ℕ) (indefinite : Bool) (count : ℕ) (map : Fields) (input : Bytes)
      → Leaves (length input) (fields_loop decode fuel indefinite count map input)
  unfolding fields_loop
  fields_loop-Leaves zero indefinite count map input = tt
  fields_loop-Leaves (suc fuel) indefinite count map input =
      if_elim (Leaves (length input)) (is_done indefinite count input) _ _
        (λ e. behind_end-Leaves indefinite input)
        (λ e. Leaves-read (length input) (decode input) _ (λ first rest read.
          Leaves-read (length input) (key_of (first, rest)) _ (λ key behind named.
            Leaves-read (length input) (decode behind) _ (λ value last got.
              Leaves-le (length last) _
                (fields_loop decode fuel indefinite (count - 1) (insert_or_assign key value map)
                  last)
                (fields_loop-Leaves fuel indefinite (count - 1) (insert_or_assign key value map)
                  last)
                (omega
                  (arith, entry_takes input rest behind last first key value read named got))))))
