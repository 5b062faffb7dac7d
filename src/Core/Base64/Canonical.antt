-- ===== src/Core/Base64/Canonical.antt =====
-- Only the encoder's texts are decoded: the decoder refuses every other spelling of the bytes.
use opal_cpp.Common.{
  ℕ, ◌+◌, ◌*◌, ◌/◌, ◌%◌, ◌^◌, ◌<◌, ◌≡◌, refl, arith, Bool, true, ok, [], ◌∷◌, ◌++◌, Bytes, ◌⊎◌, inl,
  inr, ap, ◌∙◌, AreBytes, IsByte, All-append, length, ◌>>=◌, >>=-elim, append-nil,
}
use opal_cpp.Core.Base64.{
  pad, add_char, take_bytes, decode_group, encode, decode, decode_loop, is_empty,
}
use opal_cpp.Core.Base64.Digits.{char_of, decode_value-char_of}
use opal_cpp.Core.Base64.Group.{
  group_of, three_bytes, add_char_sound, take_bytes-pad, take_bytes-pad_pad, take_bytes_lem,
}
use opal_cpp.Core.Base64.RoundTrip.{
  chars, chars_pad, chars_pad_pad, encode-one, encode-two, encode-three,
}

-- A decoded group, as the encoder writes it: whole, or the last one.
abbrev IsWritten : Bool → Bytes → Bytes → Type 0
IsWritten last out group =
    AreBytes out
    × (((rest : Bytes) → encode (out ++ rest) ≡ group ++ encode rest)
        ⊎ ((last ≡ true) × (encode out ≡ group)))

module _ (v0 v1 v2 v3 g : ℕ) (h1 : v1 < 64) (h2 : v2 < 64) (h3 : v3 < 64) where
  -- A group's characters are those of its sextets.
  chars-group :
      (rest : Bytes)
      → v0 < 64
      → g ≡ (group_of v0 v1 * 64 + v2) * 64 + v3
      → chars g rest ≡ char_of v0 ∷ char_of v1 ∷ char_of v2 ∷ char_of v3 ∷ rest
  chars-group rest h0 e =
      let first : g / 2 ^ 18 % 64 ≡ v0 = omega arith in
      let second : g / 2 ^ 12 % 64 ≡ v1 = omega arith in
      let third : g / 2 ^ 6 % 64 ≡ v2 = omega arith in
      let fourth : g % 64 ≡ v3 = omega arith in rw (first, second, third, fourth)

module _ (v0 v1 g : ℕ) (h0 : v0 < 64) (h1 : v1 < 64) where
  chars_pad-group :
      (v2 : ℕ)
      → v2 < 64
      → g ≡ (group_of v0 v1 * 64 + v2) * 64
      → chars_pad g ≡ char_of v0 ∷ char_of v1 ∷ char_of v2 ∷ pad ∷ []
  chars_pad-group v2 h2 e =
      let first : g / 2 ^ 18 % 64 ≡ v0 = omega arith in
      let second : g / 2 ^ 12 % 64 ≡ v1 = omega arith in
      let third : g / 2 ^ 6 % 64 ≡ v2 = omega arith in rw (first, second, third)

  chars_pad_pad-group :
      g ≡ group_of v0 v1 * 64 * 64 → chars_pad_pad g ≡ char_of v0 ∷ char_of v1 ∷ pad ∷ pad ∷ []
  chars_pad_pad-group e =
      let first : g / 2 ^ 18 % 64 ≡ v0 = omega arith in
      let second : g / 2 ^ 12 % 64 ≡ v1 = omega arith in rw (first, second)

-- A decoded group with pads has zero bits behind its bytes.
pad_bytes :
    (g : ℕ) (out : Bytes)
    → take_bytes (1, g) ≡ ok out
    → (g % 2 ^ 8 ≡ 0) × (out ≡ (g / 2 ^ 16 % 256) ∷ (g / 2 ^ 8 % 256) ∷ [])
pad_bytes g out e = ground (arith, take_bytes-pad g)

pad_pad_bytes :
    (g : ℕ) (out : Bytes)
    → take_bytes (2, g) ≡ ok out
    → (g % 2 ^ 16 ≡ 0) × (out ≡ (g / 2 ^ 16 % 256) ∷ [])
pad_pad_bytes g out e = ground (arith, take_bytes-pad_pad g)

encode-three_bytes :
    (g : ℕ) (rest : Bytes) → g < 2 ^ 24 → encode (three_bytes g ++ rest) ≡ chars g (encode rest)
encode-three_bytes g rest h =
    let same : (g / 2 ^ 16 % 256 * 2 ^ 8 + g / 2 ^ 8 % 256) * 2 ^ 8 + g % 256 ≡ g = omega arith in
    encode-three (g / 2 ^ 16 % 256) (g / 2 ^ 8 % 256) (g % 256) rest (omega arith) (omega arith)
      (omega arith)
    ∙ ap (λ (t : ℕ). chars t (encode rest)) same

encode-two_bytes :
    (g : ℕ)
    → g < 2 ^ 24
    → g % 2 ^ 8 ≡ 0
    → encode ((g / 2 ^ 16 % 256) ∷ (g / 2 ^ 8 % 256) ∷ []) ≡ chars_pad g
encode-two_bytes g h low =
    let same : (g / 2 ^ 16 % 256 * 2 ^ 8 + g / 2 ^ 8 % 256) * 2 ^ 8 ≡ g = omega arith in
    encode-two (g / 2 ^ 16 % 256) (g / 2 ^ 8 % 256) (omega arith) (omega arith) ∙ ap chars_pad same

encode-one_byte :
    (g : ℕ) → g < 2 ^ 24 → g % 2 ^ 16 ≡ 0 → encode ((g / 2 ^ 16 % 256) ∷ []) ≡ chars_pad_pad g
encode-one_byte g h low =
    let same : g / 2 ^ 16 % 256 * 2 ^ 16 ≡ g = omega arith in
    encode-one (g / 2 ^ 16 % 256) (omega arith) ∙ ap chars_pad_pad same

module _ (v0 v1 : ℕ) (h0 : v0 < 64) (h1 : v1 < 64) where
  IsWritten-whole :
      (last : Bool) (v2 v3 : ℕ) (out : Bytes)
      → v2 < 64
      → v3 < 64
      → take_bytes (0, (group_of v0 v1 * 64 + v2) * 64 + v3) ≡ ok out
      → IsWritten last out (char_of v0 ∷ char_of v1 ∷ char_of v2 ∷ char_of v3 ∷ [])
  IsWritten-whole last v2 v3 out h2 h3 e =
      let g : ℕ = (group_of v0 v1 * 64 + v2) * 64 + v3 in
      let bytes : out ≡ three_bytes g = cc (take_bytes_lem g) in
      rw bytes (
        omega arith,
        inl (λ rest.
            encode-three_bytes g rest (omega arith)
            ∙ chars-group v0 v1 v2 v3 g h1 h2 h3 (encode rest) h0 refl),
      )

  IsWritten-pad :
      (v2 : ℕ) (out : Bytes)
      → v2 < 64
      → take_bytes (1, (group_of v0 v1 * 64 + v2) * 64) ≡ ok out
      → IsWritten true out (char_of v0 ∷ char_of v1 ∷ char_of v2 ∷ pad ∷ [])
  IsWritten-pad v2 out h2 e =
      let g : ℕ = (group_of v0 v1 * 64 + v2) * 64 in
      let (low, bytes) = pad_bytes g out e in
      rw bytes (
        omega arith,
        inr (refl, encode-two_bytes g (omega arith) low ∙ chars_pad-group v0 v1 g h0 h1 v2 h2 refl),
      )

  IsWritten-two_pads :
      (out : Bytes)
      → take_bytes (2, group_of v0 v1 * 64 * 64) ≡ ok out
      → IsWritten true out (char_of v0 ∷ char_of v1 ∷ pad ∷ pad ∷ [])
  IsWritten-two_pads out e =
      let g : ℕ = group_of v0 v1 * 64 * 64 in
      let (low, bytes) = pad_pad_bytes g out e in
      rw bytes (
        omega arith,
        inr (refl, encode-one_byte g (omega arith) low ∙ chars_pad_pad-group v0 v1 g h0 h1 refl),
      )

-- The first two characters of a group are never pads.
add_char_early :
    (last : Bool) (fourth j c p g q r : ℕ)
    → j < 2
    → c < 256
    → g < 2 ^ 26
    → add_char last fourth j c (p, g) ≡ ok (q, r)
    → (v : ℕ) × (v < 64) × (c ≡ char_of v) × (q ≡ p) × (r ≡ g * 64 + v)
add_char_early last fourth j c p g q r hj hc hg e =
    elim (add_char_sound last fourth j c p g q r hc hg e) [
      | inl value ↦ value
      | inr padded ↦ absurd (omega arith)
    ]

-- The last two characters, after two that spell `group_of v0 v1`.
IsWritten-tail :
    (last : Bool) (v0 v1 c2 c3 p2 g2 p3 g3 : ℕ) (out : Bytes)
    → v0 < 64
    → v1 < 64
    → IsByte c2
    → IsByte c3
    → add_char last c3 2 c2 (0, group_of v0 v1) ≡ ok (p2, g2)
    → add_char last c3 3 c3 (p2, g2) ≡ ok (p3, g3)
    → take_bytes (p3, g3) ≡ ok out
    → IsWritten last out (char_of v0 ∷ char_of v1 ∷ c2 ∷ c3 ∷ [])
IsWritten-tail last v0 v1 c2 c3 p2 g2 p3 g3 out h0 h1 b2 b3 e2 e3 e =
    elim (add_char_sound last c3 2 c2 0 (group_of v0 v1) p2 g2 b2 (omega arith) e2) [
      | inl (v2, h2, char2, p, g) ↦
          elim (add_char_sound last c3 3 c3 p2 g2 p3 g3 b3 (omega arith) e3) [
            | inl (v3, h3, char3, p', g') ↦
                rw (char2, char3)
                  (IsWritten-whole v0 v1 h0 h1 last v2 v3 out h2 h3 (rw (p', g', p, g) at e))
            | inr (pad3, is_last, _, _, p', g') ↦
                rw (char2, pad3, is_last)
                  (IsWritten-pad v0 v1 h0 h1 v2 out h2 (rw (p', g', p, g) at e))
          ]
      | inr (pad2, is_last, _, fourth, p, g) ↦
          elim (add_char_sound last c3 3 c3 p2 g2 p3 g3 b3 (omega arith) e3) [
            | inl (v3, h3, char3, _, _) ↦
                absurd (ground (arith, fourth refl, decode_value-char_of v3 h3))
            | inr (pad3, _, _, _, p', g') ↦
                rw (pad2, pad3, is_last)
                  (IsWritten-two_pads v0 v1 h0 h1 out (rw (p', g', p, g) at e))
          ]
    ]

-- The whole group, from what its first two characters are.
IsWritten-group :
    (last : Bool) (c0 c1 c2 c3 p0 g0 p1 g1 p2 g2 p3 g3 : ℕ) (out : Bytes)
    → IsByte c2
    → IsByte c3
    → (v : ℕ) × (v < 64) × (c0 ≡ char_of v) × (p0 ≡ 0) × (g0 ≡ 0 * 64 + v)
    → (v : ℕ) × (v < 64) × (c1 ≡ char_of v) × (p1 ≡ p0) × (g1 ≡ g0 * 64 + v)
    → add_char last c3 2 c2 (p1, g1) ≡ ok (p2, g2)
    → add_char last c3 3 c3 (p2, g2) ≡ ok (p3, g3)
    → take_bytes (p3, g3) ≡ ok out
    → IsWritten last out (c0 ∷ c1 ∷ c2 ∷ c3 ∷ [])
IsWritten-group last c0 c1 c2 c3 p0 g0 p1 g1 p2 g2 p3 g3 out b2 b3 (v0, h0, char0, q0, r0)
      (v1, h1, char1, q1, r1) e2 e3 e =
    rw (char0, char1)
      (IsWritten-tail last v0 v1 c2 c3 p2 g2 p3 g3 out h0 h1 b2 b3 (rw (q1, r1, q0, r0) at e2) e3 e)

first_small :
    (c0 p0 g0 : ℕ)
    → (v : ℕ) × (v < 64) × (c0 ≡ char_of v) × (p0 ≡ 0) × (g0 ≡ 0 * 64 + v)
    → g0 < 2 ^ 26
first_small c0 p0 g0 (v, h, _, _, e) = omega arith

decode_group_sound :
    (last : Bool) (c0 c1 c2 c3 : ℕ) (out : Bytes)
    → IsByte c0
    → IsByte c1
    → IsByte c2
    → IsByte c3
    → decode_group last c0 c1 c2 c3 ≡ ok out
    → IsWritten last out (c0 ∷ c1 ∷ c2 ∷ c3 ∷ [])
unfolding decode_group
decode_group_sound last c0 c1 c2 c3 out b0 b1 b2 b3 e =
    >>=-elim (add_char last c3 0 c0 (0, 0)) _ e λ q0 e0 f0.
      >>=-elim (add_char last c3 1 c1 q0) _ f0 λ q1 e1 f1.
        >>=-elim (add_char last c3 2 c2 q1) _ f1 λ q2 e2 f2.
          >>=-elim (add_char last c3 3 c3 q2) _ f2 λ q3 e3 f3.
            let start =
              add_char_early last c3 0 c0 0 0 q0.0 q0.1 (omega arith) b0 (omega arith) e0 in
            let next =
              add_char_early last c3 1 c1 q0.0 q0.1 q1.0 q1.1 (omega arith) b1
                (first_small c0 q0.0 q0.1 start) e1 in
            IsWritten-group last c0 c1 c2 c3 q0.0 q0.1 q1.0 q1.1 q2.0 q2.1 q3.0 q3.1 out b2 b3 start
              next e2 e3 f3

-- The text behind a group that is not the last, or nothing behind the last one.
IsWritten-append :
    (text group out more : Bytes)
    → IsWritten (is_empty text) out group
    → decode_loop text ≡ ok more
    → AreBytes more × (encode more ≡ text)
    → AreBytes (out ++ more) × (encode (out ++ more) ≡ group ++ text)
IsWritten-append text group out more (bytes, inl inner) e (bytes', rest) =
    (All-append IsByte out more bytes bytes', rw (inner, rest))
IsWritten-append [] group out more (bytes, inr (_, whole)) e _ =
    let none_left : more ≡ [] = unfold decode_loop in cc in
    rw (none_left, append-nil, append-nil) (bytes, whole)
IsWritten-append (c ∷ text) group out more (bytes, inr (last, _)) e _ = unfold is_empty in cc

decode_loop_sound :
    (text bytes : Bytes)
    → AreBytes text
    → length text % 4 ≡ 0
    → decode_loop text ≡ ok bytes
    → AreBytes bytes × (encode bytes ≡ text)
unfolding decode_loop encode
decode_loop_sound [] bytes h whole e = let empty : bytes ≡ [] = cc in rw empty (tt, refl)
decode_loop_sound (c0 ∷ []) bytes h whole e = absurd (omega arith)
decode_loop_sound (c0 ∷ c1 ∷ []) bytes h whole e = absurd (omega arith)
decode_loop_sound (c0 ∷ c1 ∷ c2 ∷ []) bytes h whole e = absurd (omega arith)
decode_loop_sound (c0 ∷ c1 ∷ c2 ∷ c3 ∷ text) bytes (b0, (b1, (b2, (b3, h)))) whole e =
    >>=-elim (decode_group (is_empty text) c0 c1 c2 c3) (λ o. decode_loop text >>= λ m. ok (o ++ m))
      e
      λ out e0 f0.
        >>=-elim (decode_loop text) (λ m. ok (out ++ m)) f0
          λ more e1 f1.
            let joined : out ++ more ≡ bytes = cc in
            rw (← joined) (
              IsWritten-append text (c0 ∷ c1 ∷ c2 ∷ c3 ∷ []) out more
                (decode_group_sound (is_empty text) c0 c1 c2 c3 out b0 b1 b2 b3 e0) e1
                (decode_loop_sound text more h (omega arith) e1))

-- A text that is decoded is the encoding of what it is decoded to: every byte string has one
-- accepted spelling, and pads, lengths and unused bits are checked.
pub decode_canonical :
    (text bytes : Bytes)
    → AreBytes text
    → decode text ≡ ok bytes
    → AreBytes bytes × (encode bytes ≡ text)
unfolding decode
decode_canonical text bytes h e = decode_loop_sound text bytes h (ground arith) (ground arith)
