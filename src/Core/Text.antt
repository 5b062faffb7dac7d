-- ===== src/Core/Text.antt =====
-- runtime/src/core/text.cc: the count of code points of a UTF-8 text.
mod Runs
use Prim.Native.Nat.{bit_and}
use opal_cpp.Common.{
  ℕ, zero, suc, ◌+◌, ◌*◌, ◌/◌, ◌%◌, ◌≤◌, ◌<◌, ◌≡◌, refl, ap, sym, ◌∙◌, arith, Bool, true, false,
  not, ◌&&◌, ◌||◌, List, [], ◌∷◌, ◌++◌, Bytes, length, ltb, leb, ◌==◌, if◌then◌else◌, All, table,
  table_entry, Bool-cases, inl, inr,
}

-- `(c & 0xC0) != 0x80`.
pub starts_code_point : ℕ → Bool
starts_code_point c = not (bit_and c 0xc0 == 0x80)

-- `Utf8CodePointCount`.
pub utf8_code_point_count : Bytes → ℕ
utf8_code_point_count [] = 0
utf8_code_point_count (c ∷ text) =
    (if starts_code_point c then 1 else 0) + utf8_code_point_count text

-- The UTF-8 bytes of one code point, after RFC 3629.
pub utf8_of : ℕ → Bytes
utf8_of point =
    if ltb point 0x80
    then point ∷ []
    else if ltb point 0x800
    then (0xc0 + point / 64) ∷ (0x80 + point % 64) ∷ []
    else if ltb point 0x10000
    then (0xe0 + point / 4096) ∷ (0x80 + point / 64 % 64) ∷ (0x80 + point % 64) ∷ []
    else (0xf0 + point / 262144)
      ∷ (0x80 + point / 4096 % 64)
      ∷ (0x80 + point / 64 % 64)
      ∷ (0x80 + point % 64)
      ∷ []

pub utf8_text : List ℕ → Bytes
utf8_text [] = []
utf8_text (point ∷ points) = utf8_of point ++ utf8_text points

continues_test : ℕ → Bool
continues_test c =
    (starts_code_point c && (ltb c 0x80 || leb 0xc0 c))
    || (not (starts_code_point c) && leb 0x80 c && ltb c 0xc0)

continues_table : table continues_test 256 ≡ true
unfolding table continues_test starts_code_point
continues_table = refl

lead :
    (c : ℕ) (text : Bytes)
    → c < 256
    → (ltb c 0x80 || leb 0xc0 c) ≡ true
    → utf8_code_point_count (c ∷ text) ≡ 1 + utf8_code_point_count text
unfolding utf8_code_point_count continues_test
lead c text small h =
    let entry = table_entry continues_test 256 c small continues_table in ground arith

continuation :
    (c : ℕ) (text : Bytes)
    → 0x80 ≤ c
    → c < 0xc0
    → utf8_code_point_count (c ∷ text) ≡ utf8_code_point_count text
unfolding utf8_code_point_count continues_test
continuation c text low high =
    let entry = table_entry continues_test 256 c (omega arith) continues_table in ground arith

count_point :
    (point : ℕ) (text : Bytes)
    → point < 0x110000
    → utf8_code_point_count (utf8_of point ++ text) ≡ 1 + utf8_code_point_count text
unfolding utf8_of
count_point point text valid = elim (Bool-cases (ltb point 0x80)) [
  | inl one ↦ rw one (lead point text (ground arith) (ground arith))
  | inr more ↦ elim (Bool-cases (ltb point 0x800)) [
    | inl two ↦
        rw (more, two)
          (lead (0xc0 + point / 64) _ (ground arith) (ground arith)
            ∙ ap (λ (t : ℕ). 1 + t)
                (continuation (0x80 + point % 64) text (omega arith) (omega arith)))
    | inr more' ↦ elim (Bool-cases (ltb point 0x10000)) [
      | inl three ↦
          rw (more, more', three)
            (lead (0xe0 + point / 4096) _ (ground arith) (ground arith)
              ∙ ap (λ (t : ℕ). 1 + t)
                  (continuation (0x80 + point / 64 % 64) _ (omega arith) (omega arith)
                    ∙ continuation (0x80 + point % 64) text (omega arith) (omega arith)))
      | inr four ↦
          rw (more, more', four)
            (lead (0xf0 + point / 262144) _ (ground arith) (ground arith)
              ∙ ap (λ (t : ℕ). 1 + t)
                  (continuation (0x80 + point / 4096 % 64) _ (omega arith) (omega arith)
                    ∙ continuation (0x80 + point / 64 % 64) _ (omega arith) (omega arith)
                    ∙ continuation (0x80 + point % 64) text (omega arith) (omega arith)))
    ]
  ]
]

-- Of the UTF-8 text of any code points up to U+10FFFF the count is their number.
pub utf8_code_point_count-text :
    (points : List ℕ)
    → All (λ point. point < 0x110000) points
    → utf8_code_point_count (utf8_text points) ≡ length points
unfolding utf8_text utf8_code_point_count
utf8_code_point_count-text [] h = refl
utf8_code_point_count-text (point ∷ points) (hp, h) =
    count_point point (utf8_text points) hp ∙ omega (arith, utf8_code_point_count-text points h)
