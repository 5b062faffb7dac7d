-- ===== src/Http/TraceContext/Runs.antt =====
-- Runs of the traceparent code at concrete values.
use opal_cpp.Common.{
  ℕ, zero, suc, ◌<◌, ◌^◌, ◌≡◌, refl, arith, true, none, some, Bytes, codes, bytes_eq,
}
use opal_cpp.Http.TraceContext.{
  TraceContext, is_lower_hex_char, is_lower_hex, all_zeros, has_shape, has_fields, is_sampled,
  parse_traceparent, format_traceparent, random_digits, random_hex, nonzero_hex, generate_span_id,
  generate_trace_context,
}
use opal_cpp.Http.TraceContext.Parse.{IsContext, parse-format, parse_traceparent-IsContext}
use opal_cpp.Http.TraceContext.Mint.{generate_span_id_returns}

abbrev header_value : Bytes
header_value = codes "00-4bf92f3577b34da6a3ce929d0e0e4736-00f067aa0ba902b7-01"

abbrev context_read : TraceContext
context_read = record {
  trace_id = codes "4bf92f3577b34da6a3ce929d0e0e4736";
  parent_id = codes "00f067aa0ba902b7";
  sampled = true;
}

parse_run : parse_traceparent header_value ≡ some context_read
unfolding parse_traceparent codes has_shape has_fields is_lower_hex is_lower_hex_char all_zeros
    is_sampled bytes_eq
parse_run = refl

parse_refuses_zeros :
    parse_traceparent (codes "00-00000000000000000000000000000000-00f067aa0ba902b7-01") ≡ none
unfolding parse_traceparent codes has_shape has_fields is_lower_hex is_lower_hex_char all_zeros
    is_sampled bytes_eq
parse_refuses_zeros = refl

parse_refuses_version :
    parse_traceparent (codes "ff-4bf92f3577b34da6a3ce929d0e0e4736-00f067aa0ba902b7-01") ≡ none
unfolding parse_traceparent codes has_shape has_fields is_lower_hex is_lower_hex_char all_zeros
    is_sampled bytes_eq
parse_refuses_version = refl

parse_traceparent-IsContext_example : IsContext context_read
parse_traceparent-IsContext_example =
    parse_traceparent-IsContext header_value context_read parse_run

parse-format_example : parse_traceparent (format_traceparent context_read) ≡ some context_read
parse-format_example = parse-format context_read parse_traceparent-IsContext_example

-- An engine that gives zero first, and then its own position.
abbrev counter : ℕ → ℕ
counter zero = 0
counter (suc n) = 0x123456789abcdef

generate_run :
    generate_trace_context 3 counter 0
    ≡ some (
      record {
        trace_id = codes "0000000000000000fedcba9876543210";
        parent_id = codes "fedcba9876543210";
        sampled = true;
      },
      3,
    )
unfolding generate_trace_context generate_span_id nonzero_hex random_hex random_digits all_zeros
    codes
generate_run = refl

counter_small : (k : ℕ) → counter k < 2 ^ 64
counter_small zero = omega arith
counter_small (suc k) = omega arith

generate_span_id_returns_example :
    (id : Bytes) × (drawn' : ℕ) × (generate_span_id 2 counter 0 ≡ some (id, drawn'))
generate_span_id_returns_example =
    generate_span_id_returns 2 1 counter 0 (omega arith) counter_small (omega arith)
