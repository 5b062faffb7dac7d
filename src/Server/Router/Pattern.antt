-- ===== src/Server/Router/Pattern.antt =====
-- Patterns and their written form.
use opal_cpp.Common.{
  ℕ, zero, suc, ◌≤◌, ◌<◌, ◌≡◌, ◌≢◌, refl, ap, sym, ◌∙◌, arith, true, false, List, [], ◌∷◌, ◌++◌,
  Bytes, map, length, join, ok, All, All-append, Lacks, length-append, cut-append, cut-Lacks,
  append_assoc, cons-ne-nil,
}
use opal_cpp.Http.Uri.{slash}
use opal_cpp.Server.Router.{
  Kind, literal, label, greedy, Segment, open_brace, close_brace, plus, last_of, but_last,
  ends_with, is_braced, read_label, read_braces, read_segment, is_greedy, pattern_loop,
  pattern_behind, parse_pattern,
}
use opal_cpp.Server.Router.Match.{IsGreedyLast}

-- A segment as a pattern holds it, and how it is written.
abbrev pub IsSegment : Segment → Type 0
IsSegment s = (s.text ≢ []) × Lacks slash s.text × elim s.kind [
  | literal ↦ is_braced s.text ≡ false
  | label ↦ ends_with plus s.text ≡ false
  | greedy ↦ Unit
]

abbrev pub IsPattern : List Segment → Type 0
IsPattern segments = All IsSegment segments × IsGreedyLast segments

unfoldable pub write_segment : Segment → Bytes
write_segment s = elim s.kind [
  | literal ↦ s.text
  | label ↦ open_brace ∷ (s.text ++ (close_brace ∷ []))
  | greedy ↦ open_brace ∷ (s.text ++ (plus ∷ close_brace ∷ []))
]

unfoldable pub write_pattern : List Segment → Bytes
write_pattern segments = slash ∷ join slash (map write_segment segments)

but_last-append : (text : Bytes) (c : ℕ) → but_last (text ++ (c ∷ [])) ≡ text
unfolding but_last
but_last-append [] c = refl
but_last-append (x ∷ []) c = refl
but_last-append (x ∷ y ∷ text) c = ap (λ t. x ∷ t) (but_last-append (y ∷ text) c)

ends_with-append : (text : Bytes) (c : ℕ) → ends_with c (text ++ (c ∷ [])) ≡ true
unfolding ends_with last_of
ends_with-append [] c = ground arith
ends_with-append (x ∷ []) c = ground arith
ends_with-append (x ∷ y ∷ text) c = ends_with-append (y ∷ text) c

pub ends_with_sound :
    (text : Bytes) (c : ℕ) → ends_with c text ≡ true → text ≡ but_last text ++ (c ∷ [])
unfolding ends_with last_of but_last
ends_with_sound [] c h = cc
ends_with_sound (x ∷ []) c h = ap (λ (t : ℕ). t ∷ []) (ground arith)
ends_with_sound (x ∷ y ∷ text) c h = ap (λ t. x ∷ t) (ends_with_sound (y ∷ text) c h)

is_braced-wrap : (text : Bytes) → is_braced (open_brace ∷ (text ++ (close_brace ∷ []))) ≡ true
unfolding is_braced
is_braced-wrap text =
    rw (ends_with-append (open_brace ∷ text) close_brace)
      (ground (arith, length-append text (close_brace ∷ [])))

read_wrapped :
    (pattern text : Bytes)
    → read_segment pattern (open_brace ∷ (text ++ (close_brace ∷ []))) ≡ read_braces pattern text
unfolding read_segment
read_wrapped pattern text = rw (is_braced-wrap text, but_last-append text close_brace) refl

-- Reading one written segment.
read_segment-write :
    (pattern : Bytes) (kind : Kind) (text : Bytes)
    → IsSegment (record { kind = kind; text = text })
    → read_segment pattern (write_segment (record { kind = kind; text = text }))
      ≡ ok (record { kind = kind; text = text })
unfolding write_segment read_segment read_braces read_label
read_segment-write pattern kind [] (ne, lacks, plain) = absurd (ne refl)
read_segment-write pattern literal (c ∷ text) (ne, lacks, plain) = rw plain refl
read_segment-write pattern label (c ∷ text) (ne, lacks, plain) =
    read_wrapped pattern (c ∷ text) ∙ rw plain refl
read_segment-write pattern greedy (c ∷ text) (ne, lacks, plain) =
    ap (λ t. read_segment pattern (open_brace ∷ t))
      (sym (append_assoc (c ∷ text) (plus ∷ []) (close_brace ∷ [])))
    ∙ read_wrapped pattern ((c ∷ text) ++ (plus ∷ []))
    ∙ rw (ends_with-append (c ∷ text) plus, but_last-append (c ∷ text) plus) refl

write_segment-Lacks :
    (kind : Kind) (text : Bytes)
    → IsSegment (record { kind = kind; text = text })
    → Lacks slash (write_segment (record { kind = kind; text = text }))
unfolding write_segment
write_segment-Lacks literal text (ne, lacks, plain) = lacks
write_segment-Lacks label text (ne, lacks, plain) = (
  (λ h. absurd (omega arith)),
  All-append _ text (close_brace ∷ []) lacks ((λ h. absurd (omega arith)), tt),
)
write_segment-Lacks greedy text (ne, lacks, plain) = (
  (λ h. absurd (omega arith)),
  All-append _ text (plus ∷ close_brace ∷ []) lacks
      ((λ h. absurd (omega arith)), ((λ h. absurd (omega arith)), tt)),
)

not_greedy : (kind : Kind) → kind ≢ greedy → is_greedy kind ≡ false
unfolding is_greedy
not_greedy literal h = refl
not_greedy label h = refl
not_greedy greedy h = absurd (h refl)

pattern_loop-write :
    (fuel : ℕ) (pattern : Bytes) (s : Segment) (segments before : List Segment)
    → IsPattern (s ∷ segments)
    → length segments < fuel
    → pattern_loop fuel pattern (join slash (map write_segment (s ∷ segments))) before
      ≡ ok (before ++ (s ∷ segments))
unfolding pattern_loop join
pattern_loop-write zero pattern s segments before h lt = absurd (omega arith)
pattern_loop-write (suc fuel) pattern s [] before ((hs, h), last) lt =
    rw
      (
        cut-Lacks slash (write_segment s) (write_segment-Lacks s.kind s.text hs),
        read_segment-write pattern s.kind s.text hs,
      )
      refl
pattern_loop-write (suc fuel) pattern s (t ∷ segments) before ((hs, h), (plain, last)) lt =
    rw
      (
        cut-append slash (write_segment s) (join slash (map write_segment (t ∷ segments)))
            (write_segment-Lacks s.kind s.text hs),
        read_segment-write pattern s.kind s.text hs,
        not_greedy s.kind plain,
      )
      (pattern_loop-write fuel pattern t segments (before ++ (s ∷ [])) (h, last) (omega arith)
        ∙ ap (λ l. ok l) (append_assoc before (s ∷ []) (t ∷ segments)))

one_char :
    (kind : Kind) (text : Bytes)
    → text ≢ []
    → 1 ≤ length (write_segment (record { kind = kind; text = text }))
unfolding write_segment
one_char kind [] ne = absurd (ne refl)
one_char literal (c ∷ text) ne = omega arith
one_char label (c ∷ text) ne = omega arith
one_char greedy (c ∷ text) ne = omega arith

-- A written pattern is at least as long as it has segments.
length-join :
    (segments : List Segment)
    → All IsSegment segments
    → length segments ≤ length (join slash (map write_segment segments))
unfolding join
length-join [] h = omega arith
length-join (s ∷ []) (hs, h) = one_char s.kind s.text hs.0
length-join (s ∷ t ∷ segments) (hs, h) = omega (
  arith,
  length-append (write_segment s) (slash ∷ join slash (map write_segment (t ∷ segments))),
  length-join (t ∷ segments) h,
)

behind_slash :
    (pattern text : Bytes)
    → text ≢ []
    → pattern_behind pattern text ≡ pattern_loop (length pattern) pattern text []
unfolding pattern_behind
behind_slash pattern [] ne = absurd (ne refl)
behind_slash pattern (c ∷ text) ne = refl

long-ne : (text : Bytes) → 1 ≤ length text → text ≢ []
long-ne [] h = absurd (omega arith)
long-ne (c ∷ text) h = cons-ne-nil c text

-- A pattern whose segments are well formed, with its greedy label last, is read back from its
-- written form.
pub parse_pattern-write :
    (segments : List Segment)
    → IsPattern segments
    → parse_pattern (write_pattern segments) ≡ ok segments
unfolding parse_pattern write_pattern pattern_behind join
parse_pattern-write [] h = refl
parse_pattern-write (s ∷ segments) h =
    let long = length-join (s ∷ segments) h.0 in
    let text : Bytes = join slash (map write_segment (s ∷ segments)) in
    behind_slash (slash ∷ text) text (long-ne text (omega arith))
    ∙ pattern_loop-write (length (slash ∷ text)) (slash ∷ text) s segments [] h (omega arith)
