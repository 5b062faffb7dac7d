-- ===== src/Http/TraceContext/Parse.antt =====
-- What the traceparent parser accepts, and that it reads back what is formatted.
use opal_cpp.Common.{
  substr, ℕ, ◌+◌, ◌≤◌, ◌≡◌, ◌↔◌, ◌⊎◌, refl, ap, arith, Bool, true, false, ◌&&◌, [], ◌∷◌, ◌++◌, some,
  Bytes, codes, length, take, drop, get_or, bytes_eq, All, inl, inr, ◌∙◌, if◌then◌else◌,
  length-append, length-take, length-drop, drop-append_far, get_or-append_far, take-append,
  Bool-cases,
}
use opal_cpp.Http.TraceContext.{
  TraceContext, is_lower_hex_char, is_lower_hex, all_zeros, has_shape, has_fields, is_sampled,
  parse_traceparent, format_traceparent,
}

abbrev pub IsLowerHexDigit : ℕ → Type 0
IsLowerHexDigit c = ((b'0' ≤ c) × (c ≤ b'9')) ⊎ ((b'a' ≤ c) × (c ≤ b'f'))

abbrev pub IsZero : ℕ → Type 0
IsZero c = c ≡ b'0'

-- An identifier of `n` lowercase hexadecimal digits that are not all zero.
pub record IsTraceId (n : ℕ) (id : Bytes) : Type 0 where
  pub width : length id ≡ n
  pub digits : All IsLowerHexDigit id
  pub nonzero : ¬ All IsZero id

pub record IsContext (context : TraceContext) : Type 0 where
  pub trace : IsTraceId 32 context.trace_id
  pub parent : IsTraceId 16 context.parent_id

pub is_lower_hex_iff : (text : Bytes) → (is_lower_hex text ≡ true) ↔ All IsLowerHexDigit text
unfolding is_lower_hex is_lower_hex_char
is_lower_hex_iff [] = ((λ h. tt), (λ h. refl))
is_lower_hex_iff (c ∷ text) = ground (arith, is_lower_hex_iff text)

all_zeros-true : (text : Bytes) → (all_zeros text ≡ true) ↔ All IsZero text
unfolding all_zeros
all_zeros-true [] = ((λ h. tt), (λ h. refl))
all_zeros-true (c ∷ text) = ground (arith, all_zeros-true text)

pub all_zeros_iff : (text : Bytes) → (all_zeros text ≡ false) ↔ (¬ All IsZero text)
all_zeros_iff text = elim (Bool-cases (all_zeros text)) [
  | inl zeros ↦ ((λ h. cc), (λ h. absurd (h ((all_zeros-true text).0 zeros))))
  | inr other ↦ ((λ h z. cc (other, (all_zeros-true text).1 z)), (λ h. other))
]

length-substr :
    (from count : ℕ) (text : Bytes)
    → from + count ≤ length text
    → length (substr from count text) ≡ count
length-substr from count text h =
    omega (arith, length-take count (drop from text), length-drop from text)

shape_length : (value : Bytes) → has_shape value ≡ true → 55 ≤ length value
unfolding has_shape
shape_length value h = ground arith

fields_sound :
    (version trace_id parent_id flags : Bytes)
    → has_fields version trace_id parent_id flags ≡ true
    → (is_lower_hex trace_id ≡ true)
      × (is_lower_hex parent_id ≡ true)
      × (all_zeros trace_id ≡ false)
      × (all_zeros parent_id ≡ false)
unfolding has_fields
fields_sound version trace_id parent_id flags h = ground arith

fields_of : Bytes → Bool
fields_of value =
    has_fields (substr 0 2 value) (substr 3 32 value) (substr 36 16 value) (substr 53 2 value)

read_context : Bytes → TraceContext
read_context value = record {
  trace_id = substr 3 32 value;
  parent_id = substr 36 16 value;
  sampled = is_sampled (get_or (substr 53 2 value) 1 0);
}

IsContext-read :
    (value : Bytes)
    → has_shape value ≡ true
    → fields_of value ≡ true
    → IsContext (read_context value)
unfolding fields_of read_context
IsContext-read value shape fields =
    let long = shape_length value shape in
    let (hex, hex', some_digit, some_digit') =
      fields_sound (substr 0 2 value) (substr 3 32 value) (substr 36 16 value) (substr 53 2 value)
        fields in
    record {
      trace = record {
        width = length-substr 3 32 value (omega arith);
        digits = (is_lower_hex_iff _).0 hex;
        nonzero = (all_zeros_iff _).0 some_digit;
      };
      parent = record {
        width = length-substr 36 16 value (omega arith);
        digits = (is_lower_hex_iff _).0 hex';
        nonzero = (all_zeros_iff _).0 some_digit';
      };
    }

made :
    (value : Bytes) (context : TraceContext)
    → (has_shape value && fields_of value) ≡ true
    → parse_traceparent value ≡ some context
    → read_context value ≡ context
unfolding parse_traceparent fields_of read_context
made value context accepted e = ground arith

-- A parsed context has a trace id of 32 and a parent id of 16 lowercase hexadecimal digits, neither
-- all zeros, whatever the header value was.
pub parse_traceparent-IsContext :
    (value : Bytes) (context : TraceContext)
    → parse_traceparent value ≡ some context
    → IsContext context
unfolding parse_traceparent fields_of
parse_traceparent-IsContext value context e =
    elim (Bool-cases (has_shape value && fields_of value)) [
      | inl accepted ↦
          rw (← made value context accepted e) (IsContext-read value (ground arith) (ground arith))
      | inr refused ↦ cc
    ]

-- The pieces of a formatted value, wherever the parser looks.
module _ (trace parent : Bytes) (flags : Bytes) (wide : length trace ≡ 32)
    (wide' : length parent ≡ 16) where
  after_trace : Bytes
  after_trace = 45 ∷ (parent ++ flags)

  whole : Bytes
  whole = 48 ∷ 48 ∷ 45 ∷ (trace ++ after_trace)

  trace_read : substr 3 32 whole ≡ trace
  unfolding whole
  trace_read = take-append 32 trace after_trace wide

  parent_read : substr 36 16 whole ≡ parent
  unfolding whole after_trace
  parent_read =
      rw (drop-append_far 1 trace after_trace 33 (omega arith)) (take-append 16 parent flags wide')

  flags_read : drop 53 whole ≡ drop 1 flags
  unfolding whole after_trace
  flags_read =
      drop-append_far 18 trace after_trace 50 (omega arith)
      ∙ drop-append_far 1 parent flags 17 (omega arith)

  char_read : get_or whole 52 0 ≡ get_or flags 0 0
  unfolding whole after_trace
  char_read =
      get_or-append_far 17 trace after_trace 49 0 (omega arith)
      ∙ get_or-append_far 0 parent flags 16 0 (omega arith)

  first_dash : get_or whole 2 0 ≡ 45
  unfolding whole
  first_dash = refl

  dash_read : get_or whole 35 0 ≡ 45
  unfolding whole after_trace
  dash_read = get_or-append_far 0 trace after_trace 32 0 (omega arith)

  length-whole : length whole ≡ 52 + length flags
  unfolding whole after_trace
  length-whole = omega (arith, length-append trace after_trace, length-append parent flags)

-- The tests and the sampled flag of a formatted value.
low_digit : Bool → ℕ
low_digit sampled = if sampled then 49 else 48

fields_complete :
    (trace parent : Bytes) (sampled : Bool)
    → IsTraceId 32 trace
    → IsTraceId 16 parent
    → has_fields (48 ∷ 48 ∷ []) trace parent (48 ∷ low_digit sampled ∷ []) ≡ true
unfolding has_fields low_digit is_lower_hex is_lower_hex_char bytes_eq codes
fields_complete trace parent true t p =
    rw
      (
        (is_lower_hex_iff trace).1 t.digits,
        (is_lower_hex_iff parent).1 p.digits,
        (all_zeros_iff trace).1 t.nonzero,
        (all_zeros_iff parent).1 p.nonzero,
      )
      refl
fields_complete trace parent false t p =
    rw
      (
        (is_lower_hex_iff trace).1 t.digits,
        (is_lower_hex_iff parent).1 p.digits,
        (all_zeros_iff trace).1 t.nonzero,
        (all_zeros_iff parent).1 p.nonzero,
      )
      refl

sampled_read : (sampled : Bool) → is_sampled (low_digit sampled) ≡ sampled
unfolding is_sampled low_digit
sampled_read true = refl
sampled_read false = refl

module _ (trace parent : Bytes) (wide : length trace ≡ 32) (wide' : length parent ≡ 16)
    (sampled : Bool) where
  formatted : Bytes
  formatted = whole trace parent (45 ∷ 48 ∷ low_digit sampled ∷ []) wide wide'

  has_shape-formatted : has_shape formatted ≡ true
  unfolding has_shape formatted
  has_shape-formatted =
      rw
        (
          length-whole trace parent (45 ∷ 48 ∷ low_digit sampled ∷ []) wide wide',
          first_dash trace parent (45 ∷ 48 ∷ low_digit sampled ∷ []) wide wide',
          dash_read trace parent (45 ∷ 48 ∷ low_digit sampled ∷ []) wide wide',
          char_read trace parent (45 ∷ 48 ∷ low_digit sampled ∷ []) wide wide',
        )
        refl

  flags_field : substr 53 2 formatted ≡ 48 ∷ low_digit sampled ∷ []
  unfolding formatted
  flags_field =
      ap (λ (t : Bytes). take 2 t)
        (flags_read trace parent (45 ∷ 48 ∷ low_digit sampled ∷ []) wide wide')

  trace_field : substr 3 32 formatted ≡ trace
  unfolding formatted
  trace_field = trace_read trace parent (45 ∷ 48 ∷ low_digit sampled ∷ []) wide wide'

  parent_field : substr 36 16 formatted ≡ parent
  unfolding formatted
  parent_field = parent_read trace parent (45 ∷ 48 ∷ low_digit sampled ∷ []) wide wide'

  version_field : substr 0 2 formatted ≡ 48 ∷ 48 ∷ []
  unfolding formatted whole
  version_field = refl

parse-formatted :
    (trace parent : Bytes) (sampled : Bool) (t : IsTraceId 32 trace) (p : IsTraceId 16 parent)
    → parse_traceparent (formatted trace parent t.width p.width sampled)
      ≡ some (record { trace_id = trace; parent_id = parent; sampled = sampled })
unfolding parse_traceparent
parse-formatted trace parent sampled t p =
    rw
      (
        has_shape-formatted trace parent t.width p.width sampled,
        version_field trace parent t.width p.width sampled,
        trace_field trace parent t.width p.width sampled,
        parent_field trace parent t.width p.width sampled,
        flags_field trace parent t.width p.width sampled,
        fields_complete trace parent sampled t p,
      )
      (ap (λ flag. some (record { trace_id = trace; parent_id = parent; sampled = flag }))
        (sampled_read sampled))

format-formatted :
    (trace parent : Bytes) (sampled : Bool) (t : IsTraceId 32 trace) (p : IsTraceId 16 parent)
    → format_traceparent (record { trace_id = trace; parent_id = parent; sampled = sampled })
      ≡ formatted trace parent t.width p.width sampled
unfolding format_traceparent formatted whole after_trace low_digit codes
format-formatted trace parent true t p = refl
format-formatted trace parent false t p = refl

-- Formatting a well-formed context and parsing the result gives the context back.
pub parse-format :
    (context : TraceContext)
    → IsContext context
    → parse_traceparent (format_traceparent context) ≡ some context
parse-format context h =
    ap parse_traceparent
      (format-formatted context.trace_id context.parent_id context.sampled h.trace h.parent)
    ∙ parse-formatted context.trace_id context.parent_id context.sampled h.trace h.parent
