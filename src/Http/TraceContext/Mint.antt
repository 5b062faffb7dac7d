-- ===== src/Http/TraceContext/Mint.antt =====
-- What the generator of trace identities gives.
use Prim.Native.Nat.{bit_and}
use opal_cpp.Common.{
  ap, ℕ, zero, suc, ◌+◌, ◌%◌, ◌<◌, ◌/◌, ◌≡◌, refl, arith, Bool, true, false, ◌∷◌, Option, none,
  some, Bytes, codes, length, get_or, All, inl, inr, Bool-cases, ◌⊎◌, ◌≤◌, ◌^◌, not, table,
  table_entry, ◌==◌, if◌then◌else◌, ◌||◌,
}
use mathlib.Core.Option.{some-injective}
use native.Mathlib.Nat.{pow-suc}
use opal_cpp.Common.Bits.{and_mask}
use opal_cpp.Http.TraceContext.{
  TraceContext, random_digits, random_hex, nonzero_hex, generate_span_id, generate_trace_context,
  all_zeros, is_lower_hex_char,
}
use opal_cpp.Http.TraceContext.Parse.{IsLowerHexDigit, IsZero, IsTraceId, IsContext, all_zeros_iff}

hex_digit_test : ℕ → Bool
hex_digit_test k = is_lower_hex_char (get_or (codes "0123456789abcdef") k 0)

hex_digit_table : table hex_digit_test 16 ≡ true
unfolding table hex_digit_test is_lower_hex_char codes
hex_digit_table = refl

char_sound : (c : ℕ) → is_lower_hex_char c ≡ true → IsLowerHexDigit c
unfolding is_lower_hex_char
char_sound c h = ground arith

IsLowerHexDigit-get :
    (word : ℕ) → IsLowerHexDigit (get_or (codes "0123456789abcdef") (bit_and word 15) 0)
unfolding hex_digit_test
IsLowerHexDigit-get word = char_sound _ (
    table_entry hex_digit_test 16 (bit_and word 15) (omega (arith, and_mask 4 word))
      hex_digit_table)

length-random_digits :
    (engine : ℕ → ℕ) (left i bits drawn : ℕ)
    → length (random_digits engine left i bits drawn).0 ≡ left
unfolding random_digits
length-random_digits engine zero i bits drawn = refl
length-random_digits engine (suc left) i bits drawn =
    omega (arith, length-random_digits engine left (i + 1) _ _)

random_digits_are_hex :
    (engine : ℕ → ℕ) (left i bits drawn : ℕ)
    → All IsLowerHexDigit (random_digits engine left i bits drawn).0
unfolding random_digits
random_digits_are_hex engine zero i bits drawn = tt
random_digits_are_hex engine (suc left) i bits drawn =
    (IsLowerHexDigit-get _, random_digits_are_hex engine left (i + 1) _ _)

-- One round of the loop: its identifier is kept, or the later rounds give the result.
round_cases :
    (first : Bytes × ℕ) (again : Option (Bytes × ℕ)) (id : Bytes) (drawn' : ℕ)
    → (if all_zeros first.0 then again else some first) ≡ some (id, drawn')
    → ((all_zeros first.0 ≡ false) × (first.0 ≡ id)) ⊎ (again ≡ some (id, drawn'))
round_cases (text, n) again id drawn' e = elim (Bool-cases (all_zeros text)) [
  | inl zeros ↦ inr (rw zeros at e)
  | inr other ↦ inl (other, ground arith)
]

IsTraceId-nonzero_hex :
    (fuel : ℕ) (engine : ℕ → ℕ) (digits drawn : ℕ) (id : Bytes) (drawn' : ℕ)
    → nonzero_hex fuel engine digits drawn ≡ some (id, drawn')
    → IsTraceId digits id
unfolding nonzero_hex random_hex
IsTraceId-nonzero_hex zero engine digits drawn id drawn' e = cc
IsTraceId-nonzero_hex (suc fuel) engine digits drawn id drawn' e =
    elim (round_cases (random_digits engine digits 0 0 drawn) _ id drawn' e) [
      | inr later ↦ IsTraceId-nonzero_hex fuel engine digits _ id drawn' later
      | inl (other, same) ↦ rw (← same) (record {
        width = length-random_digits engine digits 0 0 drawn;
        digits = random_digits_are_hex engine digits 0 0 drawn;
        nonzero = (all_zeros_iff _).0 other;
      })
    ]

then_cases :
    {B : Type 0} (first : Option (Bytes × ℕ)) (next : Bytes × ℕ → Option B) (result : B)
    → elim first as (λ o. Option B) [ none ↦ none | some t ↦ next t ] ≡ some result
    → (text : Bytes) × (n : ℕ) × ((first ≡ some (text, n)) × (next (text, n) ≡ some result))
then_cases none next result e = cc
then_cases (some (text, n)) next result e = (text, n, (refl, e))

IsContext-made :
    (trace parent : Bytes) (n n' : ℕ) (context : TraceContext)
    → IsTraceId 32 trace
    → IsTraceId 16 parent
    → ◌≡◌ {A = Option (TraceContext × ℕ)}
        (some (record { trace_id = trace; parent_id = parent; sampled = true }, n))
        (some (context, n'))
    → IsContext context
IsContext-made trace parent n n' context t p e =
    let same : record { trace_id = trace; parent_id = parent; sampled = true } ≡ context =
      ap (λ (r : TraceContext × ℕ). r.0) (some-injective _ _ e) in
    rw (← same) (record { trace = t; parent = p })

-- Every context that the generator gives has a trace id of 32 and a parent id of 16 lowercase
-- hexadecimal digits, neither all zeros, whatever the random engine draws.
pub IsContext-generate :
    (fuel : ℕ) (engine : ℕ → ℕ) (drawn : ℕ) (context : TraceContext) (drawn' : ℕ)
    → generate_trace_context fuel engine drawn ≡ some (context, drawn')
    → IsContext context
unfolding generate_trace_context generate_span_id
IsContext-generate fuel engine drawn context drawn' e =
    let (trace, n, (found, rest)) =
      then_cases (nonzero_hex fuel engine 32 drawn)
        (λ t. elim (nonzero_hex fuel engine 16 t.1) [
          | none ↦ none
          | some (parent_id, drawn'') ↦
              some (record { trace_id = t.0; parent_id = parent_id; sampled = true }, drawn'')
        ])
        (context, drawn') e in
    let (parent, n', (found', made)) =
      then_cases (nonzero_hex fuel engine 16 n)
        (λ t. some (record { trace_id = trace; parent_id = t.0; sampled = true }, t.1))
        (context, drawn') rest in
    IsContext-made trace parent n' drawn' context
      (IsTraceId-nonzero_hex fuel engine 32 drawn trace n found)
      (IsTraceId-nonzero_hex fuel engine 16 n parent n' found') made

-- The digit at one position, and the word behind it.
digit_zero_test : ℕ → Bool
digit_zero_test k = (k == 0) || not (get_or (codes "0123456789abcdef") k 0 == 48)

digit_zero_table : table digit_zero_test 16 ≡ true
unfolding table digit_zero_test codes
digit_zero_table = refl

digit_zero : (k : ℕ) → k < 16 → get_or (codes "0123456789abcdef") k 0 ≡ 48 → k ≡ 0
unfolding digit_zero_test
digit_zero k lt e = let entry = table_entry digit_zero_test 16 k lt digit_zero_table in ground arith

kept : (i : ℕ) → 0 < i → i < 16 → (i % 16 == 0) ≡ false
kept i pos lt = ground arith

-- Digits that are all zero come from a word that is zero.
word_zero :
    (engine : ℕ → ℕ) (left i bits drawn : ℕ)
    → 0 < i
    → i + left ≤ 16
    → bits < 16 ^ left
    → All IsZero (random_digits engine left i bits drawn).0
    → bits ≡ 0
unfolding random_digits
word_zero engine zero i bits drawn pos fits small zeros = omega arith
word_zero engine (suc left) i bits drawn pos fits small zeros =
    let shown : All IsZero (
        get_or (codes "0123456789abcdef") (bit_and bits 15) 0
        ∷ (random_digits engine left (i + 1) (bits / 16) drawn).0) =
      rw (kept i pos (omega arith)) at zeros in
    let low = digit_zero (bit_and bits 15) (omega (arith, and_mask 4 bits)) shown.0 in
    let high =
      word_zero engine left (i + 1) (bits / 16) drawn (omega arith) (omega arith)
        (omega (arith, pow-suc 16 left)) shown.1 in
    omega (arith, and_mask 4 bits)

-- The engine's word at a position makes an identifier that is not zero.
fresh_nonzero :
    (engine : ℕ → ℕ) (drawn : ℕ)
    → 0 < engine drawn
    → engine drawn < 2 ^ 64
    → all_zeros (random_digits engine 16 0 0 drawn).0 ≡ false
unfolding random_digits
fresh_nonzero engine drawn pos small = (all_zeros_iff _).1 (λ zeros.
    let low =
      digit_zero (bit_and (engine drawn) 15) (omega (arith, and_mask 4 (engine drawn))) zeros.0 in
    let high =
      word_zero engine 15 1 (engine drawn / 16) (drawn + 1) (omega arith) (omega arith)
        (omega arith) zeros.1 in
    omega (arith, and_mask 4 (engine drawn)))

one_word : (engine : ℕ → ℕ) (drawn : ℕ) → (random_digits engine 16 0 0 drawn).1 ≡ drawn + 1
unfolding random_digits
one_word engine drawn = refl

IsDrawn : Option (Bytes × ℕ) → Type 0
IsDrawn result = (id : Bytes) × (drawn' : ℕ) × (result ≡ some (id, drawn'))

IsDrawn-first :
    (first : Bytes × ℕ) (again : Option (Bytes × ℕ))
    → all_zeros first.0 ≡ false
    → IsDrawn (if all_zeros first.0 then again else some first)
unfolding IsDrawn
IsDrawn-first (id, n) again other = (id, n, rw other refl)

IsDrawn-again :
    (first : Bytes × ℕ) (again : Option (Bytes × ℕ))
    → IsDrawn again
    → IsDrawn (if all_zeros first.0 then again else some first)
unfolding IsDrawn
IsDrawn-again (id, n) again (id', n', e) = elim (Bool-cases (all_zeros id)) [
  | inl zeros ↦ (id', n', rw zeros e)
  | inr other ↦ (id, n, rw other refl)
]

IsDrawn-nonzero_hex :
    (fuel j : ℕ) (engine : ℕ → ℕ) (drawn : ℕ)
    → j < fuel
    → ((k : ℕ) → engine k < 2 ^ 64)
    → 0 < engine (drawn + j)
    → IsDrawn (nonzero_hex fuel engine 16 drawn)
unfolding nonzero_hex random_hex
IsDrawn-nonzero_hex zero j engine drawn lt small pos = absurd (omega arith)
IsDrawn-nonzero_hex (suc fuel) zero engine drawn lt small pos =
    IsDrawn-first (random_digits engine 16 0 0 drawn) _ (
      let same : drawn + 0 ≡ drawn = omega arith in
      fresh_nonzero engine drawn (rw same at pos) (small drawn))
IsDrawn-nonzero_hex (suc fuel) (suc j) engine drawn lt small pos =
    IsDrawn-again (random_digits engine 16 0 0 drawn) _ (
      rw (one_word engine drawn) (
        IsDrawn-nonzero_hex fuel j engine (drawn + 1) (omega arith) small
          (let same : drawn + suc j ≡ drawn + 1 + j = omega arith in rw same at pos)))

-- The loop that draws a span id ends: with `fuel` rounds it gives an identifier, if one of the next
-- `fuel` words of the 64-bit engine is not zero.
pub generate_span_id_returns :
    (fuel j : ℕ) (engine : ℕ → ℕ) (drawn : ℕ)
    → j < fuel
    → ((k : ℕ) → engine k < 2 ^ 64)
    → 0 < engine (drawn + j)
    → (id : Bytes) × (drawn' : ℕ) × (generate_span_id fuel engine drawn ≡ some (id, drawn'))
unfolding generate_span_id IsDrawn
generate_span_id_returns fuel j engine drawn lt small pos =
    IsDrawn-nonzero_hex fuel j engine drawn lt small pos
