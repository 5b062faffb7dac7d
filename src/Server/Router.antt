-- ===== src/Server/Router.antt =====
-- runtime/src/server/router.cc and router.h: patterns, matching, precedence and the route table.
-- A `std::map` is an association list in the order of its keys.
pub mod Pattern
pub mod Accepted
pub mod Match
pub mod Order
pub mod Table
mod Runs
use opal_cpp.Common.{
  ℕ, zero, suc, ◌-◌, Bool, true, false, not, ◌&&◌, ◌||◌, List, [], ◌∷◌, ◌++◌, Option, none, some,
  Bytes, codes, bytes_eq, length, ltb, ◌==◌, if◌then◌else◌, cut, join, Outcome, ok, err, ◌>>=◌,
  Error, validation_error, take,
}
use opal_cpp.Http.Uri.{slash, RequestTarget, parse_request_target}
use opal_cpp.Http.Headers.{set}
use opal_cpp.Http.Message.{HttpRequest, HttpResponse}

pub data Kind : Type 0 where
  literal label greedy : Kind

pub record Segment : Type 0 where
  pub kind : Kind
  pub text : Bytes

abbrev pub open_brace : ℕ
open_brace = b'{'

abbrev pub close_brace : ℕ
close_brace = b'}'

abbrev pub plus : ℕ
plus = b'+'

-- `text.back()`, and `text` without it.
unfoldable pub last_of : Bytes → Option ℕ
last_of [] = none
last_of (c ∷ []) = some c
last_of (c ∷ d ∷ text) = last_of (d ∷ text)

unfoldable pub but_last : Bytes → Bytes
but_last [] = []
but_last (c ∷ []) = []
but_last (c ∷ d ∷ text) = c ∷ but_last (d ∷ text)

unfoldable pub ends_with : ℕ → Bytes → Bool
ends_with c text = elim (last_of text) [ none ↦ false | some d ↦ d == c ]

pub no_slash_error : Bytes → Error
no_slash_error pattern = validation_error (codes "router: pattern must start with '/': " ++ pattern)

pub empty_label_error : Bytes → Error
empty_label_error pattern = validation_error (codes "router: empty label in pattern: " ++ pattern)

pub empty_segment_error : Bytes → Error
empty_segment_error pattern =
    validation_error (codes "router: empty segment in pattern: " ++ pattern)

pub greedy_error : Bytes → Error
greedy_error pattern =
    validation_error (codes "router: greedy label must be the final segment: " ++ pattern)

-- The label whose braces hold `name`.
unfoldable pub read_label : Bytes → Kind → Bytes → Outcome Segment
read_label pattern kind [] = err (empty_label_error pattern)
read_label pattern kind (c ∷ name) = ok (record { kind = kind; text = c ∷ name })

unfoldable pub read_braces : Bytes → Bytes → Outcome Segment
read_braces pattern name =
    if ends_with plus name
    then read_label pattern greedy (but_last name)
    else read_label pattern label name

-- The test for a label: two characters or more, the first and the last of them braces.
unfoldable pub is_braced : Bytes → Bool
is_braced [] = false
is_braced (c ∷ raw) =
    not (ltb (length (c ∷ raw)) 2) && c == open_brace && ends_with close_brace (c ∷ raw)

-- One part of the pattern between slashes.
unfoldable pub read_segment : Bytes → Bytes → Outcome Segment
read_segment pattern [] = err (empty_segment_error pattern)
read_segment pattern (c ∷ raw) =
    if is_braced (c ∷ raw)
    then read_braces pattern (but_last raw)
    else ok (record { kind = literal; text = c ∷ raw })

unfoldable pub is_greedy : Kind → Bool
is_greedy literal = false
is_greedy label = false
is_greedy greedy = true

-- The loop over the pattern. The fuel is the length of the pattern, which is more than that of
-- `rest`, and `rest` is shorter at every round.
unfoldable pub pattern_loop : ℕ → Bytes → Bytes → List Segment → Outcome (List Segment)
pattern_loop zero pattern rest segments = ok segments
pattern_loop (suc fuel) pattern rest segments =
    let (raw, behind) = cut slash rest in
    read_segment pattern raw >>= λ segment. elim behind [
      | none ↦ ok (segments ++ (segment ∷ []))
      | some more ↦
          let later = pattern_loop fuel pattern more (segments ++ (segment ∷ [])) in
          if is_greedy segment.kind then err (greedy_error pattern) else later
    ]

unfoldable pub pattern_behind : Bytes → Bytes → Outcome (List Segment)
pattern_behind pattern [] = ok []
pattern_behind pattern (c ∷ rest) = pattern_loop (length pattern) pattern (c ∷ rest) []

-- `ParsePattern`.
unfoldable pub parse_pattern : Bytes → Outcome (List Segment)
parse_pattern [] = err (no_slash_error [])
parse_pattern (c ∷ rest) =
    if c == slash then pattern_behind (c ∷ rest) rest else err (no_slash_error (c ∷ rest))

abbrev pub PathLabels : Type 0
PathLabels = List (Bytes × Bytes)

-- `labels->emplace(name, value)`, which keeps a value that is there. The order of the labels is not
-- kept.
unfoldable pub emplace : Bytes → Bytes → PathLabels → PathLabels
emplace name value [] = (name, value) ∷ []
emplace name value ((name', value') ∷ labels) =
    let later = emplace name value labels in
    if bytes_eq name' name then (name', value') ∷ labels else (name', value') ∷ later

unfoldable pub is_empty {ℓ} : {A : Type ℓ} → List A → Bool
is_empty [] = true
is_empty (x ∷ xs) = false

-- The loop of `MatchSegments` from a pair of positions on. A pattern segment with no request
-- segment at its position is never reached, by the test on the sizes.
unfoldable pub match_loop : List Segment → List Bytes → PathLabels → Bool × PathLabels
match_loop [] segments labels = (true, labels)
match_loop (expected ∷ pattern) [] labels = (false, labels)
match_loop (expected ∷ pattern) (segment ∷ segments) labels = elim expected.kind [
  | literal ↦
      if bytes_eq segment expected.text then match_loop pattern segments labels else (false, labels)
  | label ↦
      if is_empty segment
      then (false, labels)
      else match_loop pattern segments (emplace expected.text segment labels)
  | greedy ↦
      if is_empty segments && is_empty segment
      then (false, labels)
      else (true, emplace expected.text (join slash (segment ∷ segments)) labels)
]

unfoldable pub has_greedy : List Segment → Bool
has_greedy [] = false
has_greedy (s ∷ []) = is_greedy s.kind
has_greedy (s ∷ t ∷ pattern) = has_greedy (t ∷ pattern)

-- `MatchSegments`, whose labels are cleared first.
unfoldable pub match_segments : List Segment → List Bytes → Bool × PathLabels
match_segments pattern segments =
    if (if has_greedy pattern
      then ltb (length segments) (length pattern)
      else not (length segments == length pattern))
    then (false, [])
    else match_loop pattern segments []

unfoldable pub rank : Kind → ℕ
rank literal = 0
rank label = 1
rank greedy = 2

-- `MoreSpecific`.
unfoldable pub more_specific : List Segment → List Segment → Bool
more_specific [] b = false
more_specific (s ∷ a) [] = true
more_specific (s ∷ a) (t ∷ b) =
    let later = more_specific a b in
    if rank s.kind == rank t.kind then later else ltb (rank s.kind) (rank t.kind)

-- `SameShape`.
unfoldable pub same_segment : Segment → Segment → Bool
same_segment s t = elim s.kind [
  | literal ↦ elim t.kind [ literal ↦ bytes_eq s.text t.text | label ↦ false | greedy ↦ false ]
  | label ↦ elim t.kind [ literal ↦ false | label ↦ true | greedy ↦ false ]
  | greedy ↦ elim t.kind [ literal ↦ false | label ↦ false | greedy ↦ true ]
]

unfoldable pub same_shape : List Segment → List Segment → Bool
same_shape [] [] = true
same_shape [] (t ∷ b) = false
same_shape (s ∷ a) [] = false
same_shape (s ∷ a) (t ∷ b) = same_segment s t && same_shape a b

unfoldable pub drop_trailing : List Bytes → List Bytes
drop_trailing [] = []
drop_trailing (segment ∷ []) = if is_empty segment then [] else segment ∷ []
drop_trailing (segment ∷ next ∷ segments) = segment ∷ drop_trailing (next ∷ segments)

-- `NormalizedTarget`.
unfoldable pub normalized_target : HttpRequest → Outcome RequestTarget
normalized_target request = parse_request_target request.target >>= λ target. ok (record {
  path_segments = drop_trailing target.path_segments;
  query_params = target.query_params;
})
