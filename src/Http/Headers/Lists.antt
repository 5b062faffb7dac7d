-- ===== src/Http/Headers/Lists.antt =====
-- The list loop of `SplitHeaderListValues` against the pieces that it goes through.
use opal_cpp.Common.{
  ℕ, zero, suc, ◌+◌, ◌≤◌, ◌<◌, ◌≡◌, ◌≢◌, refl, ap, sym, arith, List, [], ◌∷◌, Option, none, some,
  Bytes, map, length, ◌∙◌, pieces, cut, pieces-cut, cut-shorter, later_pieces, Lacks, All, join,
  pieces-join,
}
use opal_cpp.Http.Headers.{comma, trim_front, trim_spaces, split_loop, split_header_list_values}

split_from :
    (fuel : ℕ) (text first : Bytes) (rest : Option Bytes)
    → cut comma text ≡ (first, rest)
    → length text ≤ fuel
    → ((more : Bytes)
        → length more < fuel
        → split_loop fuel more ≡ map trim_spaces (pieces comma more))
    → split_loop (suc fuel) text ≡ map trim_spaces (first ∷ later_pieces comma rest)
unfolding split_loop
split_from fuel text first none e h ih = rw e
split_from fuel text first (some more) e h ih =
    rw e (
      ap (λ t. trim_spaces first ∷ t)
        (ih more (omega (arith, cut-shorter comma text first more e))))

split_through :
    (fuel : ℕ) (text : Bytes)
    → length text < fuel
    → split_loop fuel text ≡ map trim_spaces (pieces comma text)
split_through zero text h = absurd (omega arith)
split_through (suc fuel) text h =
    split_from fuel text (cut comma text).0 (cut comma text).1 refl (omega arith)
      (split_through fuel)
    ∙ ap (map trim_spaces) (sym (pieces-cut comma text))

-- Text with no blank at either end.
abbrev pub IsTrimmed : Bytes → Type 0
IsTrimmed text = trim_spaces text ≡ text

trim_front_blank : (text : Bytes) → trim_front (trim_front text) ≡ trim_front text
unfolding trim_front
trim_front_blank [] = refl
trim_front_blank (c ∷ text) = ground (arith, trim_front_blank text)

-- The values of a list header are the pieces between its commas, each trimmed; the loop ends.
pub split_header_list_values_lem :
    (value : Bytes) → split_header_list_values value ≡ map trim_spaces (pieces comma value)
unfolding split_header_list_values
split_header_list_values_lem value = split_through (length value + 1) value (omega arith)

map_trimmed : (values : List Bytes) → All IsTrimmed values → map trim_spaces values ≡ values
map_trimmed [] h = refl
map_trimmed (v ∷ values) (hv, h) = rw (hv, map_trimmed values h)

-- Joined by commas, one or more trimmed values that hold no comma are read back.
pub split-join :
    (values : List Bytes)
    → values ≢ []
    → All (Lacks comma) values
    → All IsTrimmed values
    → split_header_list_values (join comma values) ≡ values
split-join values ne h trimmed =
    split_header_list_values_lem (join comma values)
    ∙ ap (map trim_spaces) (pieces-join comma values ne h)
    ∙ map_trimmed values trimmed
