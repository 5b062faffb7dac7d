-- ===== src/Http/Uri/Percent.antt =====
-- Percent encoding and decoding undo one another, and encoded text is safe in a target.
use Prim.Native.Nat.{bit_and, bit_or}
use opal_cpp.Common.{
  ℕ, ◌/◌, ◌%◌, ◌<◌, ◌≡◌, ◌≢◌, refl, arith, Bool, true, false, ◌&&◌, ◌||◌, [], ◌∷◌, Option, none,
  some, Bytes, codes, AreBytes, ◌==◌, ok, ◌>>=◌, table, table_entry, Bool-cases, inl, inr, Lacks,
}
use opal_cpp.Common.Bits.{◌>>◌, ◌<<◌, or_pack, and_mask}
use opal_cpp.Http.Uri.{
  percent, slash, is_unreserved, hex_digit, encode, hex_value, escaped, percent_decode,
}

-- A digit reads back as its value, and is unreserved.
check_value : ℕ → Option ℕ → Bool
check_value n none = false
check_value n (some m) = m == n

digit_table :
    table (λ n. check_value n (hex_value (hex_digit n)) && is_unreserved (hex_digit n)) 16 ≡ true
unfolding table check_value hex_value hex_digit is_unreserved codes
digit_table = refl

hex_value-hex_digit :
    (n : ℕ) → n < 16 → (hex_value (hex_digit n) ≡ some n) × (is_unreserved (hex_digit n) ≡ true)
unfolding check_value
hex_value-hex_digit n h = ground (arith, table_entry _ 16 n h digit_table)

percent_decode-plain :
    (c : ℕ) (text : Bytes)
    → (c == percent) ≡ false
    → percent_decode (c ∷ text) ≡ (percent_decode text >>= λ out. ok (c ∷ out))
unfolding percent_decode
percent_decode-plain c [] h = rw (h, percent_decode)
percent_decode-plain c (x ∷ []) h = rw (h, percent_decode)
percent_decode-plain c (x ∷ y ∷ text) h = rw (h, percent_decode)

unreserved-ne-percent : (c : ℕ) → is_unreserved c ≡ true → (c == percent) ≡ false
unfolding is_unreserved
unreserved-ne-percent c h = ground arith

-- The escape of a byte is read back.
percent_decode-escape :
    (c : ℕ) (text : Bytes)
    → c < 256
    → percent_decode (percent ∷ hex_digit (c >> 4) ∷ hex_digit (bit_and c 0xf) ∷ text)
      ≡ (percent_decode text >>= λ out. ok (c ∷ out))
unfolding percent_decode escaped
percent_decode-escape c text h =
    let high = hex_value-hex_digit (c / 16) (omega arith) in
    let low = hex_value-hex_digit (c % 16) (omega arith) in
    let joined : bit_or ((c / 16) << 4) (c % 16) ≡ c = omega (arith, or_pack 4 (c / 16) (c % 16)) in
    rw (and_mask 4, high.0, low.0, joined)

-- Decoding undoes either encoding.
pub percent_decode-encode :
    (keep_slash : Bool) (text : Bytes)
    → AreBytes text
    → percent_decode (encode keep_slash text) ≡ ok text
unfolding encode
percent_decode-encode keep_slash [] h = unfold percent_decode in refl
percent_decode-encode keep_slash (c ∷ text) (hc, h) =
    elim (Bool-cases (is_unreserved c || (keep_slash && c == slash))) [
      | inl plain ↦ rw (
        plain,
        percent_decode-plain c (encode keep_slash text) (ground (arith, unreserved-ne-percent c)),
        percent_decode-encode keep_slash text h,
      )
      | inr special ↦ rw (
        special,
        percent_decode-escape c (encode keep_slash text) hc,
        percent_decode-encode keep_slash text h,
      )
    ]

-- An encoded segment or query component holds no reserved byte but the percent sign.
module _ (x : ℕ) (reserved : is_unreserved x ≡ false) (not_percent : x ≢ percent) where
  unreserved-ne : (c : ℕ) → is_unreserved c ≡ true → c ≢ x
  unreserved-ne c h e = cc

  pub encode-Lacks : (text : Bytes) → AreBytes text → Lacks x (encode false text)
  unfolding encode
  encode-Lacks [] h = tt
  encode-Lacks (c ∷ text) (hc, h) = elim (Bool-cases (is_unreserved c)) [
    | inl plain ↦ rw plain (unreserved-ne c plain, encode-Lacks text h)
    | inr special ↦
        rw (special, and_mask 4)
          (
            (λ e. not_percent (cc)),
            (
              unreserved-ne _ (hex_value-hex_digit (c / 16) (omega arith)).1,
              (unreserved-ne _ (hex_value-hex_digit (c % 16) (omega arith)).1, encode-Lacks text h),
            ),
          )
  ]
