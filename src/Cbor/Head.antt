-- ===== src/Cbor/Head.antt =====
-- The initial byte of a value and its argument, as they are written and read.
use Prim.Native.Nat.{bit_and, bit_or}
use opal_cpp.Common.{
  ℕ, suc, ◌+◌, ◌*◌, ◌^◌, ◌≤◌, ◌<◌, ◌≡◌, refl, sym, ap, ◌∙◌, arith, false, [], ◌∷◌, ◌++◌, Bytes,
  length, length-append, take-append, drop-append, ltb, leb, if_elim, ok,
}
use opal_cpp.Common.Bits.{◌<<◌, ◌>>◌, or_pack, and_mask}
use opal_cpp.EventStream.Value.{big_endian}
use opal_cpp.EventStream.Value.BigEndian.{length-big_endian, read-big_endian, big_endian-byte}
use opal_cpp.Cbor.{initial_byte, write_type_and_value, Floats}
use opal_cpp.Cbor.Decode.{
  take_big_endian, definite, read_argument, decode_major, decode_value, take_text,
}

pub take_big_endian-written :
    (bytes value : ℕ) (what rest : Bytes)
    → 256 ^ bytes ≤ 2 ^ 64
    → value < 256 ^ bytes
    → take_big_endian bytes what (big_endian value bytes ++ rest) ≡ ok (value, rest)
unfolding take_big_endian
take_big_endian-written bytes value what rest fits small =
    let wide : length (big_endian value bytes) ≡ bytes = length-big_endian value bytes in
    let enough : ltb (length (big_endian value bytes ++ rest)) bytes ≡ false =
      ground (arith, wide, length-append (big_endian value bytes) rest) in
    rw
      (
        enough,
        take-append bytes (big_endian value bytes) rest wide,
        drop-append bytes (big_endian value bytes) rest wide,
        read-big_endian bytes value fits small,
      )
      refl

take_byte :
    (value : ℕ) (what rest : Bytes)
    → value < 256
    → take_big_endian 1 what (value ∷ rest) ≡ ok (value, rest)
take_byte value what rest small =
    ap (λ (t : Bytes). take_big_endian 1 what (t ++ rest)) (sym (big_endian-byte value small))
    ∙ take_big_endian-written 1 value what rest (omega arith) (omega arith)

pub take_text-written :
    (text what rest : Bytes) → take_text (length text) what (text ++ rest) ≡ ok (text, rest)
unfolding take_text
take_text-written text what rest =
    let enough : ltb (length (text ++ rest)) (length text) ≡ false =
      ground (arith, length-append text rest) in
    rw (enough, take-append (length text) text rest refl, drop-append (length text) text rest refl)
      refl

-- What is written for a major type and a value, as the reader takes it apart.
pub record IsHead (major value : ℕ) (written : Bytes) : Type 0 where
  pub info : ℕ
  pub tail : Bytes
  pub shape : written ≡ initial_byte major info ∷ tail
  pub small : info < 32
  pub reads : (rest : Bytes) → read_argument info (tail ++ rest) ≡ ok ((value, false), rest)

pub IsHead-write :
    (major value : ℕ) → value < 2 ^ 64 → IsHead major value (write_type_and_value major value)
unfolding write_type_and_value read_argument definite
IsHead-write major value fits =
    if_elim (IsHead major value) (ltb value 24) _ _
      (λ tiny. record {
        info = value;
        tail = [];
        shape = refl;
        small = ground arith;
        reads = λ rest. rw tiny refl;
      })
      (λ e24.
        if_elim (IsHead major value) (leb value 0xff) _ _
          (λ byte. record {
            info = 24;
            tail = value ∷ [];
            shape = refl;
            small = omega arith;
            reads = λ rest. rw (take_byte value _ rest (ground arith)) refl;
          })
          (λ e25.
            if_elim (IsHead major value) (leb value 0xffff) _ _
              (λ short. record {
                info = 25;
                tail = big_endian value 2;
                shape = refl;
                small = omega arith;
                reads = λ rest.
                    rw (take_big_endian-written 2 value _ rest (omega arith) (ground arith)) refl;
              })
              (λ e26.
                if_elim (IsHead major value) (leb value 0xffffffff) _ _
                  (λ word. record {
                    info = 26;
                    tail = big_endian value 4;
                    shape = refl;
                    small = omega arith;
                    reads = λ rest.
                        rw (take_big_endian-written 4 value _ rest (omega arith) (ground arith))
                          refl;
                  })
                  (λ e27. record {
                    info = 27;
                    tail = big_endian value 8;
                    shape = refl;
                    small = omega arith;
                    reads = λ rest.
                        rw (take_big_endian-written 8 value _ rest (omega arith) (omega arith))
                          refl;
                  }))))

initial_byte-parts :
    (major info : ℕ)
    → info < 32
    → (initial_byte major info >> 5 ≡ major) × (bit_and (initial_byte major info) 0x1f ≡ info)
unfolding initial_byte
initial_byte-parts major info small =
    let packed : bit_or (major << 5) info ≡ major * 32 + info = or_pack 5 major info small in
    (omega (arith, packed), and_mask 5 (bit_or (major << 5) info) ∙ omega (arith, packed))

-- The decoder goes by the major type and the information of the initial byte.
pub decode_value-initial :
    (floats : Floats) (depth major info : ℕ) (input : Bytes)
    → info < 32
    → decode_value floats (suc depth) (initial_byte major info ∷ input)
      ≡ decode_major floats (decode_value floats depth) major info input
unfolding decode_value
decode_value-initial floats depth major info input small =
    let (high, low) = initial_byte-parts major info small in rw (high, low) refl
