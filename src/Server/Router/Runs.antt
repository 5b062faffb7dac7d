-- ===== src/Server/Router/Runs.antt =====
-- Runs of patterns and matching.
use opal_cpp.Common.{
  ◌≡◌, ◌≢◌, ◌↔◌, refl, arith, true, false, List, [], ◌∷◌, Bytes, codes, bytes_eq, ok, err, find,
  cut, join, cons-ne-nil,
}
use opal_cpp.Server.Router.{
  literal, label, greedy, Segment, parse_pattern, match_segments, match_loop, more_specific,
  same_shape, rank, has_greedy, is_greedy, is_empty, emplace, is_braced, read_segment, read_braces,
  read_label, pattern_loop, pattern_behind, ends_with, last_of, but_last, greedy_error,
}
use opal_cpp.Server.Router.Pattern.{IsPattern, write_pattern, parse_pattern-write}
use opal_cpp.Server.Router.Accepted.{parse_pattern_sound}
use opal_cpp.Server.Router.Match.{Matches, at_label, at_literal, match_segments_iff}
use opal_cpp.Server.Router.Order.{more_specific_order, same_shape-Matches}

abbrev files : List Segment
files =
    record { kind = literal; text = codes "files" }
    ∷ record { kind = label; text = codes "id" }
    ∷ record { kind = greedy; text = codes "path" }
    ∷ []

parse_run : parse_pattern (codes "/files/{id}/{path+}") ≡ ok files
unfolding parse_pattern pattern_behind pattern_loop read_segment is_braced read_braces read_label
    ends_with last_of but_last is_greedy cut find codes
parse_run = refl

parse_greedy_run : parse_pattern (codes "/{path+}/x") ≡ err (greedy_error (codes "/{path+}/x"))
unfolding parse_pattern pattern_behind pattern_loop read_segment is_braced read_braces read_label
    ends_with last_of but_last is_greedy cut find codes
parse_greedy_run = refl

match_run :
    match_segments files (codes "files" ∷ codes "7" ∷ codes "a" ∷ codes "b" ∷ [])
    ≡ (true, (codes "id", codes "7") ∷ (codes "path", codes "a/b") ∷ [])
unfolding match_segments match_loop has_greedy is_greedy is_empty emplace bytes_eq join codes
match_run = refl

files-IsPattern : IsPattern files
unfolding codes is_braced ends_with last_of
files-IsPattern = (
  (
    (
      cons-ne-nil _ _,
      (
        (λ h. absurd (omega arith)),
        (
          (λ h. absurd (omega arith)),
          (
            (λ h. absurd (omega arith)),
            ((λ h. absurd (omega arith)), ((λ h. absurd (omega arith)), tt)),
          ),
        ),
      ),
      refl,
    ),
    (
      (cons-ne-nil _ _, ((λ h. absurd (omega arith)), ((λ h. absurd (omega arith)), tt)), refl),
      (
        (
          cons-ne-nil _ _,
          (
            (λ h. absurd (omega arith)),
            (
              (λ h. absurd (omega arith)),
              ((λ h. absurd (omega arith)), ((λ h. absurd (omega arith)), tt)),
            ),
          ),
          tt,
        ),
        tt,
      ),
    ),
  ),
  ((λ h. cc), ((λ h. cc), tt)),
)

parse_pattern-write_example : parse_pattern (write_pattern files) ≡ ok files
parse_pattern-write_example = parse_pattern-write files files-IsPattern

parse_pattern_sound_example : IsPattern files × (write_pattern files ≡ codes "/files/{id}/{path+}")
parse_pattern_sound_example = parse_pattern_sound (codes "/files/{id}/{path+}") files parse_run

abbrev asked : List Bytes
asked = codes "files" ∷ codes "7" ∷ codes "a" ∷ codes "b" ∷ []

match_segments_iff_example : ((match_segments files asked).0 ≡ true) ↔ Matches files asked
match_segments_iff_example = match_segments_iff files asked files-IsPattern.1

abbrev exact : List Segment
exact =
    record { kind = literal; text = codes "files" }
    ∷ record { kind = literal; text = codes "new" }
    ∷ []

abbrev one : List Segment
one =
    record { kind = literal; text = codes "files" }
    ∷ record { kind = label; text = codes "id" }
    ∷ []

more_specific_run : more_specific exact one ≡ true
unfolding more_specific rank
more_specific_run = refl

more_specific_order_example :
    (more_specific exact exact ≡ false)
    × ((more_specific exact one ≡ true) → more_specific one exact ≡ false)
    × ((more_specific exact one ≡ true)
        → (more_specific one files ≡ true)
        → more_specific exact files ≡ true)
more_specific_order_example = more_specific_order exact one files

abbrev named : List Segment
named =
    record { kind = literal; text = codes "files" }
    ∷ record { kind = label; text = codes "name" }
    ∷ []

one_not_more : (more_specific one named ≡ false) × (more_specific named one ≡ false)
unfolding more_specific rank
one_not_more = (refl, refl)

seven : codes "7" ≢ []
unfolding codes
seven = cons-ne-nil _ _

same_shape-Matches_example : same_shape one named ≡ true
same_shape-Matches_example =
    same_shape-Matches {a = one} {b = named} {segments = codes "files" ∷ codes "7" ∷ []}
      (at_literal (at_label seven Matches.at_end)) (at_literal (at_label seven Matches.at_end))
      one_not_more.0 one_not_more.1
