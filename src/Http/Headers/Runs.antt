-- ===== src/Http/Headers/Runs.antt =====
-- Runs of the header functions, and the theorems at concrete inputs.
use opal_cpp.Common.{
  ◌≡◌, refl, arith, true, false, ◌↔◌, All, if◌then◌else◌, [], ◌∷◌, some, none, codes, join, cut,
  find, bytes_eq,
}
use opal_cpp.Http.Headers.{
  Headers, comma, get, set, header_name_equals, ascii_lower, split_loop, split_header_list_values,
  trim_spaces, trim_front, trim_back, is_blank, media_type_of, lower_all, accept_matches,
  accept_loop, range_matches, find_unsafe_header, get_all, remove, has, valid_request_line_field,
  no_byte, splits_request_line, header_name_starts_with,
}
use opal_cpp.Http.Headers.Store.{get_all-set}
use opal_cpp.Http.Headers.Lists.{split-join}
use opal_cpp.Http.Headers.Wire.{find_unsafe_header_iff, IsWritable}

abbrev two_headers : Headers
two_headers = (codes "Accept", codes "text/html") ∷ (codes "Host", codes "a") ∷ []

get_any_case : get (codes "host") two_headers ≡ some (codes "a")
unfolding get header_name_equals ascii_lower codes
get_any_case = refl

split_list :
    split_header_list_values (codes "a, b,\tc ,") ≡ codes "a" ∷ codes "b" ∷ codes "c" ∷ [] ∷ []
unfolding split_header_list_values split_loop trim_spaces trim_front trim_back is_blank cut find
    codes
split_list = refl

media_type : media_type_of (codes "Application/JSON ; charset=utf-8") ≡ codes "application/json"
unfolding media_type_of lower_all ascii_lower trim_spaces trim_front trim_back is_blank cut find
    codes
media_type = refl

accept_range :
    accept_matches (codes "text/html;q=1, application/*") (codes "application/json") ≡ true
unfolding accept_matches accept_loop range_matches header_name_equals ascii_lower bytes_eq
    trim_spaces trim_front trim_back is_blank cut find codes
accept_range = refl

split-join_example :
    split_header_list_values (join comma ((b'a' ∷ []) ∷ [] ∷ [])) ≡ (b'a' ∷ []) ∷ [] ∷ []
unfolding trim_spaces trim_front trim_back is_blank
split-join_example = split-join ((b'a' ∷ []) ∷ [] ∷ []) (λ e. cc) (omega arith) (refl, (refl, tt))

abbrev one_header : Headers
one_header = (b'a' ∷ [], 9 ∷ b'x' ∷ []) ∷ []

find_unsafe_header_iff_example : (find_unsafe_header one_header ≡ none) ↔ All IsWritable one_header
find_unsafe_header_iff_example = find_unsafe_header_iff one_header

get_all-set_example :
    (get_all (b'A' ∷ []) (set (b'a' ∷ []) [] one_header) ≡ (
      if header_name_equals (b'a' ∷ []) (b'A' ∷ [])
      then [] ∷ []
      else get_all (b'A' ∷ []) one_header))
    × (get (b'A' ∷ []) (set (b'a' ∷ []) [] one_header) ≡ (
        if header_name_equals (b'a' ∷ []) (b'A' ∷ []) then some [] else get (b'A' ∷ []) one_header))
    × (has (b'A' ∷ []) (remove (b'a' ∷ []) one_header) ≡ (
        if header_name_equals (b'a' ∷ []) (b'A' ∷ []) then false else has (b'A' ∷ []) one_header))
get_all-set_example = get_all-set (b'A' ∷ []) (b'a' ∷ []) [] one_header

valid_line : valid_request_line_field (codes "/a b") ≡ false
unfolding valid_request_line_field no_byte splits_request_line codes
valid_line = refl

starts_with_prefix : header_name_starts_with (codes "X-Meta-a") (codes "x-meta-") ≡ true
unfolding header_name_starts_with ascii_lower codes
starts_with_prefix = refl
