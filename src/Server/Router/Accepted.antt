-- ===== src/Server/Router/Accepted.antt =====
-- What `ParsePattern` says of a pattern that it accepts.
use opal_cpp.Common.{
  ℕ, zero, suc, ◌<◌, ◌≡◌, ◌≢◌, refl, ap, sym, ◌∙◌, arith, true, false, List, [], ◌∷◌, ◌++◌, Option,
  none, some, Bytes, map, length, ◌==◌, if◌then◌else◌, cut, join, Outcome, ok, err, >>=-elim, Error,
  Lacks, cut-shorter, cut_sound, join_first, Bool-cases, inl, inr, append_assoc, cons-ne-nil,
}
use mathlib.Core.Path.{subst}
use opal_cpp.Http.Uri.{slash}
use opal_cpp.Server.Router.{
  Kind, literal, label, greedy, Segment, open_brace, close_brace, plus, last_of, but_last,
  ends_with, is_braced, read_label, read_braces, read_segment, is_greedy, pattern_loop,
  pattern_behind, parse_pattern, greedy_error,
}
use opal_cpp.Server.Router.Match.{IsGreedyLast}
use opal_cpp.Server.Router.Pattern.{
  IsSegment, IsPattern, write_segment, write_pattern, ends_with_sound,
}

-- What one read segment is.
abbrev pub IsRead : Bytes → Segment → Type 0
IsRead raw s = IsSegment s × (write_segment s ≡ raw)

Lacks-but_last : (text : Bytes) → Lacks slash text → Lacks slash (but_last text)
unfolding but_last
Lacks-but_last [] h = tt
Lacks-but_last (c ∷ []) h = tt
Lacks-but_last (c ∷ d ∷ text) (hc, h) = (hc, Lacks-but_last (d ∷ text) h)

ok_same : (a b : Segment) → ok a ≡ ok b → a ≡ b
ok_same a b e = ap (λ (o : Outcome Segment). elim o [ ok x ↦ x | err failure ↦ a ]) e

read_label_sound :
    (pattern : Bytes) (kind : Kind) (name : Bytes) (s : Segment)
    → read_label pattern kind name ≡ ok s
    → (name ≢ []) × (record { kind = kind; text = name } ≡ s)
unfolding read_label
read_label_sound pattern kind [] s e = cc
read_label_sound pattern kind (c ∷ name) s e = (cons-ne-nil c name, ok_same _ s e)

IsRead-braces :
    (pattern name : Bytes) (s : Segment)
    → Lacks slash name
    → read_braces pattern name ≡ ok s
    → IsRead (open_brace ∷ (name ++ (close_brace ∷ []))) s
unfolding read_braces write_segment
IsRead-braces pattern name s lacks e = elim (Bool-cases (ends_with plus name)) [
  | inl starred ↦
      let (ne, same) = read_label_sound pattern greedy (but_last name) s (rw starred at e) in
      subst (IsRead (open_brace ∷ (name ++ (close_brace ∷ [])))) same (
        (ne, Lacks-but_last name lacks, tt),
        ap (λ (t : Bytes). open_brace ∷ t)
            (sym (append_assoc (but_last name) (plus ∷ []) (close_brace ∷ []))
              ∙ ap (λ (t : Bytes). t ++ (close_brace ∷ []))
                  (sym (ends_with_sound name plus starred))),
      )
  | inr plain ↦
      let (ne, same) = read_label_sound pattern label name s (rw plain at e) in
      subst (IsRead (open_brace ∷ (name ++ (close_brace ∷ [])))) same ((ne, lacks, plain), refl)
]

braced_sound :
    (c : ℕ) (raw : Bytes)
    → is_braced (c ∷ raw) ≡ true
    → (c ≡ open_brace) × (raw ≡ but_last raw ++ (close_brace ∷ []))
unfolding is_braced ends_with last_of
braced_sound c [] e = absurd (ground arith)
braced_sound c (d ∷ raw) e = (ground arith, ends_with_sound (d ∷ raw) close_brace (ground arith))

read_segment_sound :
    (pattern raw : Bytes) (s : Segment)
    → Lacks slash raw
    → read_segment pattern raw ≡ ok s
    → IsRead raw s
unfolding read_segment write_segment
read_segment_sound pattern [] s lacks e = cc
read_segment_sound pattern (c ∷ raw) s lacks e = elim (Bool-cases (is_braced (c ∷ raw))) [
  | inl braced ↦
      let (brace, shape) = braced_sound c raw braced in
      let result : IsRead (open_brace ∷ (but_last raw ++ (close_brace ∷ []))) s =
        IsRead-braces pattern (but_last raw) s (Lacks-but_last raw lacks.1) (rw braced at e) in
      (
        result.0,
        result.1
            ∙ ap (λ (t : Bytes). open_brace ∷ t) (sym shape)
            ∙ ap (λ (t : ℕ). t ∷ raw) (sym brace),
      )
  | inr plain ↦
      subst (IsRead (c ∷ raw)) (ok_same _ s (rw plain at e))
        ((cons-ne-nil c raw, lacks, plain), refl)
]

ok_list : (a b : List Segment) → ok a ≡ ok b → a ≡ b
ok_list a b e = ap (λ (o : Outcome (List Segment)). elim o [ ok x ↦ x | err failure ↦ a ]) e

err-ne-ok :
    {a : List Segment} {failure : Error} → ◌≢◌ {A = Outcome (List Segment)} (err failure) (ok a)
err-ne-ok e = cc

-- What the loop adds to the segments before it.
record Added (rest : Bytes) (before result : List Segment) : Type 0 where
  new : List Segment
  appended : result ≡ before ++ new
  nonempty : new ≢ []
  pattern : IsPattern new
  written : join slash (map write_segment new) ≡ rest

Added-last :
    (rest : Bytes) (before result : List Segment) (s : Segment)
    → IsRead rest s
    → ok (before ++ (s ∷ [])) ≡ ok result
    → Added rest before result
unfolding join
Added-last rest before result s (h, w) e = record {
  new = s ∷ [];
  appended = sym (ok_list _ result e);
  nonempty = cons-ne-nil s [];
  pattern = ((h, tt), tt);
  written = w;
}

IsGreedyLast-cons :
    (s : Segment) (segments : List Segment)
    → s.kind ≢ greedy
    → IsGreedyLast segments
    → IsGreedyLast (s ∷ segments)
IsGreedyLast-cons s [] h last = tt
IsGreedyLast-cons s (t ∷ segments) h last = (h, last)

join-cons :
    (first : Bytes) (s : Segment) (segments : List Segment)
    → segments ≢ []
    → write_segment s ≡ first
    → join slash (map write_segment (s ∷ segments))
      ≡ first ++ (slash ∷ join slash (map write_segment segments))
unfolding join
join-cons first s [] ne w = absurd (ne refl)
join-cons first s (t ∷ segments) ne w = rw w refl

Added-more :
    (rest first more : Bytes) (before result : List Segment) (s : Segment)
    → rest ≡ first ++ (slash ∷ more)
    → IsRead first s
    → s.kind ≢ greedy
    → Added more (before ++ (s ∷ [])) result
    → Added rest before result
Added-more rest first more before result s shape (h, w) plain later = record {
  new = s ∷ later.new;
  appended = later.appended ∙ append_assoc before (s ∷ []) later.new;
  nonempty = cons-ne-nil s later.new;
  pattern = ((h, later.pattern.0), IsGreedyLast-cons s later.new plain later.pattern.1);
  written =
      join-cons first s later.new later.nonempty w
      ∙ ap (λ (t : Bytes). first ++ (slash ∷ t)) later.written
      ∙ sym shape;
}

plain-ne : (kind : Kind) → is_greedy kind ≡ false → kind ≢ greedy
unfolding is_greedy
plain-ne literal e h = cc
plain-ne label e h = cc
plain-ne greedy e h = cc

-- One round, from the two parts of the cut.
round_sound :
    (fuel : ℕ) (pattern rest : Bytes) (before result : List Segment) (first : Bytes)
    (behind : Option Bytes)
    → cut slash rest ≡ (first, behind)
    → length rest < suc fuel
    → pattern_loop (suc fuel) pattern rest before ≡ ok result
    → ((more : Bytes) (before' : List Segment)
        → length more < fuel
        → pattern_loop fuel pattern more before' ≡ ok result
        → Added more before' result)
    → Added rest before result
unfolding pattern_loop join
round_sound fuel pattern rest before result first none c lt e ih =
    let (lacks, shape) = cut_sound slash rest first none c in
    >>=-elim (read_segment pattern first) (λ segment. ok (before ++ (segment ∷ []))) (rw c at e)
      (λ s read made.
        subst (λ (t : Bytes). Added t before result) (sym shape)
          (Added-last first before result s (read_segment_sound pattern first s lacks read) made))
round_sound fuel pattern rest before result first (some more) c lt e ih =
    let (lacks, shape) = cut_sound slash rest first (some more) c in
    >>=-elim (read_segment pattern first)
      (λ segment.
        if is_greedy segment.kind
        then err (greedy_error pattern)
        else pattern_loop fuel pattern more (before ++ (segment ∷ [])))
      (rw c at e)
      (λ s read made. elim (Bool-cases (is_greedy s.kind)) [
        | inl starred ↦ absurd (err-ne-ok (rw starred at made))
        | inr plain ↦
            Added-more rest first more before result s (shape ∙ join_first slash first more)
              (read_segment_sound pattern first s lacks read) (plain-ne s.kind plain)
              (ih more (before ++ (s ∷ [])) (omega (arith, cut-shorter slash rest first more c))
                (rw plain at made))
      ])

pattern_loop_sound :
    (fuel : ℕ) (pattern rest : Bytes) (before result : List Segment)
    → length rest < fuel
    → pattern_loop fuel pattern rest before ≡ ok result
    → Added rest before result
pattern_loop_sound zero pattern rest before result lt e = absurd (omega arith)
pattern_loop_sound (suc fuel) pattern rest before result lt e =
    round_sound fuel pattern rest before result (cut slash rest).0 (cut slash rest).1 refl lt e
      (λ more before' lt' e'. pattern_loop_sound fuel pattern more before' result lt' e')

behind_sound :
    (c : ℕ) (rest : Bytes) (segments : List Segment)
    → c ≡ slash
    → pattern_behind (c ∷ rest) rest ≡ ok segments
    → IsPattern segments × (write_pattern segments ≡ c ∷ rest)
unfolding pattern_behind write_pattern join
behind_sound c [] segments same e =
    subst (λ (t : List Segment). IsPattern t × (write_pattern t ≡ c ∷ [])) (ok_list [] segments e)
      ((tt, tt), ap (λ (t : ℕ). t ∷ []) (sym same))
behind_sound c (d ∷ rest) segments same e =
    let added =
      pattern_loop_sound (length (c ∷ d ∷ rest)) (c ∷ d ∷ rest) (d ∷ rest) [] segments (omega arith)
        e in
    subst (λ (t : List Segment). IsPattern t × (write_pattern t ≡ c ∷ d ∷ rest))
      (sym added.appended)
      (
        added.pattern,
        ap (λ (t : Bytes). slash ∷ t) added.written ∙ ap (λ (t : ℕ). t ∷ d ∷ rest) (sym same),
      )

-- Whatever `ParsePattern` accepts is the written form of the segments that it gives; they are well
-- formed, and a greedy label is the last of them.
pub parse_pattern_sound :
    (pattern : Bytes) (segments : List Segment)
    → parse_pattern pattern ≡ ok segments
    → IsPattern segments × (write_pattern segments ≡ pattern)
unfolding parse_pattern pattern_behind write_pattern join
parse_pattern_sound [] segments e = cc
parse_pattern_sound (c ∷ rest) segments e = elim (Bool-cases (c == slash)) [
  | inr other ↦ absurd (err-ne-ok (rw other at e))
  | inl same ↦ behind_sound c rest segments (ground arith) (rw same at e)
]
