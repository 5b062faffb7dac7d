-- ===== src/Http/TraceContext.antt =====
-- runtime/src/http/trace_context.cc and trace_context.h: the W3C traceparent header. The random
-- engine is an argument: the 64-bit words that it gives, in order.
pub mod Parse
pub mod Mint
mod Runs
use Prim.Native.Nat.{bit_and}
use opal_cpp.Common.{
  ℕ, zero, suc, ◌+◌, ◌-◌, ◌%◌, Bool, true, false, not, ◌&&◌, ◌||◌, List, [], ◌∷◌, ◌++◌, Option,
  none, some, Bytes, codes, length, take, drop, get_or, substr, ltb, leb, ◌==◌, if◌then◌else◌,
  bytes_eq,
}
use opal_cpp.Common.Bits.{◌>>◌}

pub record TraceContext : Type 0 where
  pub trace_id : Bytes
  pub parent_id : Bytes
  pub sampled : Bool

abbrev pub dash : ℕ
dash = b'-'

unfoldable pub is_lower_hex_char : ℕ → Bool
is_lower_hex_char c = (leb b'0' c && leb c b'9') || (leb b'a' c && leb c b'f')

-- `IsLowerHex` and `AllZeros`.
unfoldable pub is_lower_hex : Bytes → Bool
is_lower_hex [] = true
is_lower_hex (c ∷ text) = is_lower_hex_char c && is_lower_hex text

unfoldable pub all_zeros : Bytes → Bool
all_zeros [] = true
all_zeros (c ∷ text) = c == b'0' && all_zeros text

-- The fixed positions: 55 characters, or more with a dash behind, and three dashes.
unfoldable pub has_shape : Bytes → Bool
has_shape value =
    not (
      ltb (length value) 55
      || not (get_or value 2 0 == dash)
      || not (get_or value 35 0 == dash)
      || not (get_or value 52 0 == dash))
    && not (ltb 55 (length value) && not (get_or value 55 0 == dash))

-- The tests on the four fields.
unfoldable pub has_fields : Bytes → Bytes → Bytes → Bytes → Bool
has_fields version trace_id parent_id flags =
    not (
      not (is_lower_hex version)
      || bytes_eq version (codes "ff")
      || not (is_lower_hex trace_id)
      || not (is_lower_hex parent_id)
      || not (is_lower_hex flags))
    && not (all_zeros trace_id || all_zeros parent_id)

-- The low bit of the last flag digit.
unfoldable pub is_sampled : ℕ → Bool
is_sampled low = not (bit_and (if leb low b'9' then low - b'0' else low - b'a' + 10) 1 == 0)

-- `ParseTraceparent`.
unfoldable pub parse_traceparent : Bytes → Option TraceContext
parse_traceparent value =
    if has_shape value
      && has_fields (substr 0 2 value) (substr 3 32 value) (substr 36 16 value) (substr 53 2 value)
    then some (record {
      trace_id = substr 3 32 value;
      parent_id = substr 36 16 value;
      sampled = is_sampled (get_or (substr 53 2 value) 1 0);
    })
    else none

-- `FormatTraceparent`.
unfoldable pub format_traceparent : TraceContext → Bytes
format_traceparent context =
    codes "00-"
    ++ (context.trace_id
        ++ (codes "-"
            ++ (context.parent_id ++ (if context.sampled then codes "-01" else codes "-00"))))

-- `RandomHex`: the digits of `bits`, refilled from the engine every sixteen digits. `i` is the
-- loop's counter, and `left` what is left of it. An engine is an endless supply, so the words are a
-- function of the count of those drawn.
unfoldable pub random_digits : (ℕ → ℕ) → ℕ → ℕ → ℕ → ℕ → Bytes × ℕ
random_digits engine zero i bits drawn = ([], drawn)
random_digits engine (suc left) i bits drawn =
    let refill = i % 16 == 0 in
    let word = if refill then engine drawn else bits in
    let (text, drawn') =
      random_digits engine left (i + 1) (word >> 4) (if refill then drawn + 1 else drawn) in
    (get_or (codes "0123456789abcdef") (bit_and word 0xf) 0 ∷ text, drawn')

unfoldable pub random_hex : (ℕ → ℕ) → ℕ → ℕ → Bytes × ℕ
random_hex engine digits drawn = random_digits engine digits 0 0 drawn

-- `do id = RandomHex(digits) while (AllZeros(id))`, in at most `fuel` rounds; `none` means that
-- every round drew zeros only.
unfoldable pub nonzero_hex : ℕ → (ℕ → ℕ) → ℕ → ℕ → Option (Bytes × ℕ)
nonzero_hex zero engine digits drawn = none
nonzero_hex (suc fuel) engine digits drawn =
    let (id, drawn') = random_hex engine digits drawn in
    let again = nonzero_hex fuel engine digits drawn' in
    if all_zeros id then again else some (id, drawn')

-- `GenerateSpanId` and `GenerateTraceContext`.
unfoldable pub generate_span_id : ℕ → (ℕ → ℕ) → ℕ → Option (Bytes × ℕ)
generate_span_id fuel engine drawn = nonzero_hex fuel engine 16 drawn

unfoldable pub generate_trace_context : ℕ → (ℕ → ℕ) → ℕ → Option (TraceContext × ℕ)
generate_trace_context fuel engine drawn = elim (nonzero_hex fuel engine 32 drawn) [
  | none ↦ none
  | some (trace_id, drawn') ↦ elim (generate_span_id fuel engine drawn') [
    | none ↦ none
    | some (parent_id, drawn'') ↦
        some (record { trace_id = trace_id; parent_id = parent_id; sampled = true }, drawn'')
  ]
]
