-- ===== src/Http/Headers.antt =====
-- runtime/src/http/headers.cc and headers.h: the header multimap, name comparison, list values and
-- the checks of what may be written to a wire. (The HTTP-date forms are not here.)
pub mod Names
pub mod Store
pub mod Lists
pub mod Wire
mod Runs
use opal_cpp.Common.{
  ℕ, zero, suc, ◌+◌, ◌-◌, Bool, true, false, not, ◌&&◌, ◌||◌, List, [], ◌∷◌, ◌++◌, Option, none,
  some, Bytes, codes, length, take, drop, ltb, leb, ◌==◌, if◌then◌else◌, bytes_eq, cut,
}

abbrev pub comma : ℕ
comma = b','

abbrev pub semicolon : ℕ
semicolon = b';'

-- `AsciiLower`.
unfoldable pub ascii_lower : ℕ → ℕ
ascii_lower c = if leb b'A' c && leb c b'Z' then c - b'A' + b'a' else c

-- `HeaderNameEquals`: the sizes and then the characters.
unfoldable pub header_name_equals : Bytes → Bytes → Bool
header_name_equals [] [] = true
header_name_equals [] (y ∷ b) = false
header_name_equals (x ∷ a) [] = false
header_name_equals (x ∷ a) (y ∷ b) = ascii_lower x == ascii_lower y && header_name_equals a b

-- `HeaderNameStartsWith`.
pub header_name_starts_with : Bytes → Bytes → Bool
header_name_starts_with name [] = true
header_name_starts_with [] (y ∷ prefix) = false
header_name_starts_with (x ∷ name) (y ∷ prefix) =
    ascii_lower y == ascii_lower x && header_name_starts_with name prefix

-- `Headers` is its `entries_`: names with values, in the order of arrival.
abbrev pub Entry : Type 0
Entry = Bytes × Bytes

abbrev pub Headers : Type 0
Headers = List Entry

unfoldable pub get : Bytes → Headers → Option Bytes
get name [] = none
get name ((key, value) ∷ entries) =
    let later = get name entries in if header_name_equals key name then some value else later

unfoldable pub get_all : Bytes → Headers → List Bytes
get_all name [] = []
get_all name ((key, value) ∷ entries) =
    (if header_name_equals key name then value ∷ [] else []) ++ get_all name entries

unfoldable pub has_value : Option Bytes → Bool
has_value none = false
has_value (some value) = true

unfoldable pub has : Bytes → Headers → Bool
has name entries = has_value (get name entries)

unfoldable pub remove : Bytes → Headers → Headers
remove name [] = []
remove name ((key, value) ∷ entries) =
    (if header_name_equals key name then [] else (key, value) ∷ []) ++ remove name entries

unfoldable pub add : Bytes → Bytes → Headers → Headers
add name value entries = entries ++ ((name, value) ∷ [])

unfoldable pub set : Bytes → Bytes → Headers → Headers
set name value entries = add name value (remove name entries)

unfoldable pub is_blank : ℕ → Bool
is_blank c = c == b' ' || c == b'\t'

-- `remove_prefix` while the front is blank, `remove_suffix` while the back is.
unfoldable pub trim_front : Bytes → Bytes
trim_front [] = []
trim_front (c ∷ text) = let rest = trim_front text in if is_blank c then rest else c ∷ text

unfoldable pub trim_back : Bytes → Bytes
trim_back [] = []
trim_back (c ∷ text) = elim (trim_back text) [
  | [] ↦ if is_blank c then [] else c ∷ []
  | d ∷ rest ↦ c ∷ d ∷ rest
]

-- `TrimSpaces`, and the two loops that are written out in the other functions.
unfoldable pub trim_spaces : Bytes → Bytes
trim_spaces text = trim_back (trim_front text)

-- The loop of `SplitHeaderListValues` on the text from `start` on. Each round takes a comma away
-- but the last, so `length value + 1` rounds are enough.
pub split_loop : ℕ → Bytes → List Bytes
split_loop zero text = []
split_loop (suc fuel) text =
    let (part, rest) = cut comma text in
    trim_spaces part ∷ elim rest [ none ↦ [] | some more ↦ split_loop fuel more ]

pub split_header_list_values : Bytes → List Bytes
split_header_list_values value = split_loop (length value + 1) value

-- `std::tolower` in the "C" locale is `ascii_lower`.
pub lower_all : Bytes → Bytes
lower_all [] = []
lower_all (c ∷ text) = ascii_lower c ∷ lower_all text

-- `MediaTypeOf`.
pub media_type_of : Bytes → Bytes
media_type_of content_type = lower_all (trim_spaces (cut semicolon content_type).0)

-- The byte tests of `ValidHeaderName`, `ValidHeaderValue` and `ValidRequestLineField`.
unfoldable pub splits_name : ℕ → Bool
splits_name c = leb c 0x20 || c == 0x7f || c == b':'

unfoldable pub no_byte : (ℕ → Bool) → Bytes → Bool
no_byte bad [] = true
no_byte bad (c ∷ text) = not (bad c) && no_byte bad text

unfoldable pub valid_header_name : Bytes → Bool
valid_header_name [] = false
valid_header_name (c ∷ name) = no_byte splits_name (c ∷ name)

unfoldable pub splits_value : ℕ → Bool
splits_value c = not (c == b'\t' || (leb 0x20 c && not (c == 0x7f)))

unfoldable pub valid_header_value : Bytes → Bool
valid_header_value value = no_byte splits_value value

unfoldable pub splits_request_line : ℕ → Bool
splits_request_line c = leb c 0x20 || c == 0x7f

unfoldable pub valid_request_line_field : Bytes → Bool
valid_request_line_field field = no_byte splits_request_line field

-- `FindUnsafeHeader`: the first name that, or whose value, may not be written.
unfoldable pub find_unsafe_header : Headers → Option Bytes
find_unsafe_header [] = none
find_unsafe_header ((name, value) ∷ entries) =
    let later = find_unsafe_header entries in
    if not (valid_header_name name) || not (valid_header_value value) then some name else later

-- The part of `AcceptMatches` that looks at one media range.
pub range_matches : Bytes → Bytes → Bytes → Bool
range_matches range content_type expected_type =
    bytes_eq range (codes "*/*")
    || header_name_equals range content_type
    || (ltb 2 (length range)
        && (bytes_eq (drop (length range - 2) range) (codes "/*")
            && header_name_equals (take (length range - 2) range) expected_type))

-- The loop of `AcceptMatches`, with fuel as in `split_loop`; an empty rest ends it.
pub accept_loop : ℕ → Bytes → Bytes → Bytes → Bool
accept_loop zero accept content_type expected_type = false
accept_loop (suc fuel) [] content_type expected_type = false
accept_loop (suc fuel) (c ∷ accept) content_type expected_type =
    let (range, rest) = cut comma (c ∷ accept) in
    range_matches (trim_spaces (cut semicolon range).0) content_type expected_type
    || elim rest [ none ↦ false | some more ↦ accept_loop fuel more content_type expected_type ]

pub accept_matches : Bytes → Bytes → Bool
accept_matches accept content_type =
    accept_loop (length accept) accept content_type (cut b'/' content_type).0
