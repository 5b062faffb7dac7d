-- ===== src/Server/Router/Match.antt =====
-- Matching against a description of what a pattern matches.
use opal_cpp.Common.{
  ◌≡◌, ◌≢◌, ◌↔◌, refl, arith, true, false, not, List, [], ◌∷◌, Bytes, bytes_eq, bytes_eq_sound,
  bytes_eq_refl, length, ltb, ◌==◌, if◌then◌else◌, Bool-cases, inl, inr, ◌⊎◌, cons-ne-nil,
}
use mathlib.Core.Bool.{false≢true}
use opal_cpp.Server.Router.{
  Kind, literal, label, greedy, Segment, is_empty, match_loop, has_greedy, is_greedy,
  match_segments, PathLabels,
}

-- A greedy label stands at the end only, as `ParsePattern` sees to.
abbrev pub IsGreedyLast : List Segment → Type 0
IsGreedyLast [] = Unit
IsGreedyLast (s ∷ []) = Unit
IsGreedyLast (s ∷ t ∷ pattern) = (s.kind ≢ greedy) × IsGreedyLast (t ∷ pattern)

-- What a pattern is meant to match: a literal its own text, a label one segment that is not empty,
-- a greedy label all that is left, unless that is nothing or one empty segment.
pub data Matches : List Segment → List Bytes → Type 0 where
  at_end : Matches [] []
  at_literal :
      {text : Bytes} {pattern : List Segment} {segments : List Bytes}
      → Matches pattern segments
      → Matches (record { kind = literal; text = text } ∷ pattern) (text ∷ segments)
  at_label :
      {text segment : Bytes} {pattern : List Segment} {segments : List Bytes}
      → segment ≢ []
      → Matches pattern segments
      → Matches (record { kind = label; text = text } ∷ pattern) (segment ∷ segments)
  at_greedy :
      {text segment : Bytes} {segments : List Bytes}
      → (segment ≢ []) ⊎ (segments ≢ [])
      → Matches (record { kind = greedy; text = text } ∷ []) (segment ∷ segments)

is_empty-false {ℓ} : {A : Type ℓ} (xs : List A) → is_empty xs ≡ false → xs ≢ []
unfolding is_empty
is_empty-false [] e h = cc
is_empty-false (x ∷ xs) e h = cons-ne-nil x xs h

pub is_empty-ne {ℓ} : {A : Type ℓ} (xs : List A) → xs ≢ [] → is_empty xs ≡ false
unfolding is_empty
is_empty-ne [] h = absurd (h refl)
is_empty-ne (x ∷ xs) h = refl

-- The test on the sizes, for the part of a pattern from one position on.
abbrev pub Fits : List Segment → List Bytes → Type 0
Fits pattern segments =
    (if has_greedy pattern
      then ltb (length segments) (length pattern)
      else not (length segments == length pattern))
    ≡ false

is_greedy-ne : (kind : Kind) → kind ≢ greedy → is_greedy kind ≡ false
unfolding is_greedy
is_greedy-ne literal h = refl
is_greedy-ne label h = refl
is_greedy-ne greedy h = absurd (h refl)

Fits-rest :
    (s : Segment) (pattern : List Segment) (segment : Bytes) (segments : List Bytes)
    → s.kind ≢ greedy
    → Fits (s ∷ pattern) (segment ∷ segments)
    → Fits pattern segments
unfolding has_greedy
Fits-rest s [] segment segments h fits =
    let shown = rw (is_greedy-ne s.kind h) at fits in ground arith
Fits-rest s (t ∷ pattern) segment segments h fits = ground arith

IsGreedyLast-rest :
    (s : Segment) (pattern : List Segment) → IsGreedyLast (s ∷ pattern) → IsGreedyLast pattern
IsGreedyLast-rest s [] h = tt
IsGreedyLast-rest s (t ∷ pattern) h = h.1

no_segments : (segments : List Bytes) → Fits [] segments → segments ≡ []
unfolding has_greedy
no_segments [] fits = refl
no_segments (segment ∷ segments) fits = absurd (ground arith)

literal≢greedy : literal ≢ greedy
literal≢greedy h = cc

label≢greedy : label ≢ greedy
label≢greedy h = cc

greedy_alone :
    (text : Bytes) (pattern : List Segment)
    → IsGreedyLast (record { kind = greedy; text = text } ∷ pattern)
    → pattern ≡ []
greedy_alone text [] h = refl
greedy_alone text (t ∷ pattern) h = absurd (h.0 refl)

first_kind :
    (kind : Kind) (text : Bytes) (pattern : List Segment) (segment : Bytes) (segments : List Bytes)
    (labels : PathLabels)
    → IsGreedyLast (record { kind = kind; text = text } ∷ pattern)
    → Fits (record { kind = kind; text = text } ∷ pattern) (segment ∷ segments)
    → ((labels : PathLabels)
        → Fits pattern segments
        → (match_loop pattern segments labels).0 ≡ true
        → Matches pattern segments)
    → (match_loop (record { kind = kind; text = text } ∷ pattern) (segment ∷ segments) labels).0
      ≡ true
    → Matches (record { kind = kind; text = text } ∷ pattern) (segment ∷ segments)
unfolding match_loop
first_kind literal text pattern segment segments labels last fits ih e =
    elim (Bool-cases (bytes_eq segment text)) [
      | inl same ↦ rw (bytes_eq_sound segment text same) (
          at_literal
            (ih labels (Fits-rest _ pattern segment segments literal≢greedy fits) (rw same at e)))
      | inr other ↦ absurd (false≢true (rw other at e))
    ]
first_kind label text pattern segment segments labels last fits ih e =
    elim (Bool-cases (is_empty segment)) [
      | inl empty ↦ absurd (false≢true (rw empty at e))
      | inr some_text ↦
          at_label (is_empty-false segment some_text)
            (ih _ (Fits-rest _ pattern segment segments label≢greedy fits) (rw some_text at e))
    ]
first_kind greedy text pattern segment segments labels last fits ih e =
    rw (greedy_alone text pattern last) (
      at_greedy {segment = segment} {segments = segments} (elim (Bool-cases (is_empty segment)) [
        | inr some_text ↦ inl (is_empty-false segment some_text)
        | inl empty ↦ elim (Bool-cases (is_empty segments)) [
          | inl none' ↦ absurd (false≢true (rw (empty, none') at e))
          | inr more ↦ inr (is_empty-false segments more)
        ]
      ]))

match_loop_sound :
    (pattern : List Segment) (segments : List Bytes) (labels : PathLabels)
    → IsGreedyLast pattern
    → Fits pattern segments
    → (match_loop pattern segments labels).0 ≡ true
    → Matches pattern segments
unfolding match_loop
match_loop_sound [] segments labels last fits e = rw (no_segments segments fits) at_end
match_loop_sound (s ∷ pattern) [] labels last fits e = absurd (false≢true e)
match_loop_sound (s ∷ pattern) (segment ∷ segments) labels last fits e =
    first_kind s.kind s.text pattern segment segments labels last fits
      (λ labels'. match_loop_sound pattern segments labels' (IsGreedyLast-rest s pattern last)) e

match_loop_complete :
    {pattern : List Segment} {segments : List Bytes} (labels : PathLabels)
    → Matches pattern segments
    → (match_loop pattern segments labels).0 ≡ true
unfolding match_loop
match_loop_complete labels at_end = refl
match_loop_complete labels (at_literal {text} m) =
    rw (bytes_eq_refl text) (match_loop_complete labels m)
match_loop_complete labels (at_label h m) = rw (is_empty-ne _ h) (match_loop_complete _ m)
match_loop_complete labels (at_greedy {segment = segment} {segments = segments} (inl h)) =
    rw (is_empty-ne segment h) (ground arith)
match_loop_complete labels (at_greedy (inr h)) = rw (is_empty-ne _ h) refl

Fits-more :
    (s : Segment) (pattern : List Segment) (segment : Bytes) (segments : List Bytes)
    → s.kind ≢ greedy
    → Fits pattern segments
    → Fits (s ∷ pattern) (segment ∷ segments)
unfolding has_greedy
Fits-more s [] segment segments h fits = rw (is_greedy-ne s.kind h) (ground arith)
Fits-more s (t ∷ pattern) segment segments h fits = ground arith

Fits-Matches :
    {pattern : List Segment} {segments : List Bytes}
    → Matches pattern segments
    → Fits pattern segments
unfolding has_greedy is_greedy
Fits-Matches at_end = refl
Fits-Matches (at_literal {text = text} {pattern = pattern} {segments = segments} m) =
    Fits-more (record { kind = literal; text = text }) pattern text segments literal≢greedy
      (Fits-Matches m)
Fits-Matches
      (at_label {text = text} {segment = segment} {pattern = pattern} {segments = segments} h m) =
    Fits-more (record { kind = label; text = text }) pattern segment segments label≢greedy
      (Fits-Matches m)
Fits-Matches (at_greedy {segments = segments} h) = ground arith

-- `MatchSegments` answers true exactly on the segments that the pattern is meant to match, for a
-- pattern whose greedy label, if it has one, is its last segment.
pub match_segments_iff :
    (pattern : List Segment) (segments : List Bytes)
    → IsGreedyLast pattern
    → ((match_segments pattern segments).0 ≡ true) ↔ Matches pattern segments
unfolding match_segments
match_segments_iff pattern segments last = (
  λ e.
      elim (Bool-cases (
        if has_greedy pattern
        then ltb (length segments) (length pattern)
        else not (length segments == length pattern))) [
          | inl misfit ↦ absurd (false≢true (rw misfit at e))
          | inr fits ↦ match_loop_sound pattern segments [] last fits (rw fits at e)
        ],
  λ m. rw (Fits-Matches m) (match_loop_complete [] m),
)
