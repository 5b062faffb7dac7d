-- ===== src/Server/Router/Order.antt =====
-- The precedence of patterns: a strict order, which settles between any two routes that match one
-- target.
use opal_cpp.Common.{
  ◌∙◌, ◌≡◌, refl, sym, arith, true, false, List, [], ◌∷◌, Bytes, bytes_eq_refl, inl, inr,
  Bool-cases,
}
use mathlib.Core.Bool.{false≢true}
use opal_cpp.Server.Router.{Segment, rank, more_specific, same_segment, same_shape}
use opal_cpp.Server.Router.Match.{Matches, at_end, at_literal, at_label, at_greedy}

irreflexive : (a : List Segment) → more_specific a a ≡ false
unfolding more_specific
irreflexive [] = refl
irreflexive (s ∷ a) = ground (arith, irreflexive a)

transitive :
    (a b c : List Segment)
    → more_specific a b ≡ true
    → more_specific b c ≡ true
    → more_specific a c ≡ true
unfolding more_specific
transitive [] b c h k = cc
transitive (s ∷ a) [] c h k = cc
transitive (s ∷ a) (t ∷ b) [] h k = refl
transitive (s ∷ a) (t ∷ b) (u ∷ c) h k = ground (arith, transitive a b c)

-- `MoreSpecific` is a strict order: no pattern is more specific than itself, of two patterns at most
-- one is more specific than the other, and the relation is transitive.
pub more_specific_order :
    (a b c : List Segment)
    → (more_specific a a ≡ false)
      × ((more_specific a b ≡ true) → more_specific b a ≡ false)
      × ((more_specific a b ≡ true) → (more_specific b c ≡ true) → more_specific a c ≡ true)
more_specific_order a b c = (
  irreflexive a,
  (λ h. elim (Bool-cases (more_specific b a)) [
    | inl k ↦ absurd (false≢true (sym (irreflexive a) ∙ transitive a b a h k))
    | inr k ↦ k
  ]),
  transitive a b c,
)

-- Two patterns that match one target and neither of which is more specific have the same shape.
pub same_shape-Matches :
    {a b : List Segment} {segments : List Bytes}
    → Matches a segments
    → Matches b segments
    → more_specific a b ≡ false
    → more_specific b a ≡ false
    → same_shape a b ≡ true
unfolding more_specific same_shape same_segment rank
same_shape-Matches at_end at_end h k = refl
same_shape-Matches (at_literal {text = text} m) (at_literal n) h k =
    rw (bytes_eq_refl text) (same_shape-Matches m n h k)
same_shape-Matches (at_literal m) (at_label _ n) h k = cc
same_shape-Matches (at_literal m) (at_greedy _) h k = cc
same_shape-Matches (at_label _ m) (at_literal n) h k = cc
same_shape-Matches (at_label _ m) (at_label _ n) h k = same_shape-Matches m n h k
same_shape-Matches (at_label _ m) (at_greedy _) h k = cc
same_shape-Matches (at_greedy _) (at_literal n) h k = cc
same_shape-Matches (at_greedy _) (at_label _ n) h k = cc
same_shape-Matches (at_greedy _) (at_greedy _) h k = refl
