-- ===== src/Http/Uri/Runs.antt =====
-- Runs of the request-target parser, and the theorems at concrete inputs.
use opal_cpp.Common.{
  ◌≡◌, refl, arith, true, List, [], ◌∷◌, ◌++◌, some, none, Bytes, codes, ok, err, ◌>>=◌, find, cut,
  map,
}
use opal_cpp.Http.Uri.{
  is_unreserved, hex_digit, encode, hex_value, escaped, percent_decode, malformed_escape,
  segments_loop, params_loop, read_pair, or_empty, trailing_segment, parse_split,
  parse_request_target, slash, question, to_string,
}
use opal_cpp.Http.Uri.Target.{
  read_path, read_query, parse_request_target_lem, parse-write, path_text, add_entries, Entry,
  entry_pair,
}

-- A trailing slash gives an empty segment, an empty pair gives nothing.
parse_forecast :
    parse_request_target (codes "/a%20b/c/?x=1&&y")
    ≡ ok (record {
      path_segments = codes "a b" ∷ codes "c" ∷ [] ∷ [];
      query_params = (codes "x", codes "1") ∷ (codes "y", []) ∷ [];
    })
unfolding parse_request_target parse_split segments_loop params_loop read_pair or_empty
    trailing_segment percent_decode escaped hex_value cut find codes
parse_forecast = refl

percent_cut : percent_decode (codes "a%4") ≡ err malformed_escape
unfolding percent_decode codes
percent_cut = refl

encode_greedy : encode true (codes "a b/c") ≡ codes "a%20b/c"
unfolding encode is_unreserved hex_digit codes
encode_greedy = refl

parse_request_target_lem_example :
    parse_request_target ((slash ∷ b'a' ∷ []) ++ (question ∷ b'b' ∷ [])) ≡ (
      read_path (b'a' ∷ []) >>= λ segments. read_query (b'b' ∷ []) >>= λ params.
      ok (record { path_segments = segments; query_params = params }))
parse_request_target_lem_example = parse_request_target_lem (b'a' ∷ []) (b'b' ∷ []) (omega arith)

abbrev two_segments : List Bytes
two_segments = (b'a' ∷ slash ∷ []) ∷ [] ∷ []

abbrev two_entries : List Entry
two_entries = (b'k' ∷ [], some (b'=' ∷ [])) ∷ (b'f' ∷ [], none) ∷ []

parse-write_example :
    parse_request_target
      ((slash ∷ path_text two_segments) ++ to_string (add_entries two_entries []))
    ≡ ok (record { path_segments = two_segments; query_params = map entry_pair two_entries })
parse-write_example =
    parse-write two_segments two_entries (omega arith) (λ e. cc)
      ((omega arith, omega arith), ((omega arith, λ e. cc), tt))
