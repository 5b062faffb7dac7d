-- ===== src/Common/Split.antt =====
-- Cutting byte strings at a separator, as the parsers do: `find`, `substr` and `remove_prefix`.
use Prim.Native.Nat.{ℕ, suc, ◌<◌}
use mathlib.Core.Path.{◌≡◌, refl, ap, ◌∙◌, sym}
use mathlib.Core.Logic.{◌≢◌, ◌⊎◌, inl, inr}
use mathlib.Core.Option.{Option, none, some}
use mathlib.Core.List.{List, [], ◌∷◌, ◌++◌, cons-ne-nil}
use native.Mathlib.Omega.{arith}
use opal_cpp.Common.Tests.{◌==◌, if◌then◌else◌, Bool-cases, Option-cases}
use opal_cpp.Common.Lists.{All, length, take, drop, length-drop, take-append}
use opal_cpp.Common.Text.{Bytes}

-- `text.find(c)`; `none` is `npos`.
unfoldable pub find : ℕ → Bytes → Option ℕ
find c [] = none
find c (x ∷ text) =
    let later = find c text in
    if x == c then some 0 else elim later [ none ↦ none | some i ↦ some (suc i) ]

-- The part before the first `c`, and what is left when it and `c` are removed.
cut_at : Bytes → Option ℕ → Bytes × Option Bytes
cut_at text none = (text, none)
cut_at text (some i) = (take i text, some (drop (suc i) text))

unfoldable pub cut : ℕ → Bytes → Bytes × Option Bytes
unfolding cut_at find
cut c text = cut_at text (find c text)

-- What the loops over `cut` go through: the parts between the separators, at least one.
grow : ℕ → List Bytes → List Bytes
grow x [] = (x ∷ []) ∷ []
grow x (p ∷ ps) = (x ∷ p) ∷ ps

unfoldable pub pieces : ℕ → Bytes → List Bytes
unfolding grow
pieces c [] = [] ∷ []
pieces c (x ∷ text) = let rest = pieces c text in if x == c then [] ∷ rest else grow x rest

unfoldable pub join : ℕ → List Bytes → Bytes
join c [] = []
join c (p ∷ []) = p
join c (p ∷ q ∷ ps) = p ++ (c ∷ join c (q ∷ ps))

abbrev pub Lacks : ℕ → Bytes → Type 0
Lacks c = All (λ x. x ≢ c)

drop-suc_append : (c : ℕ) (text rest : Bytes) → drop (suc (length text)) (text ++ (c ∷ rest)) ≡ rest
drop-suc_append c [] rest = refl
drop-suc_append c (x ∷ text) rest = drop-suc_append c text rest

-- The pieces behind the first.
abbrev pub later_pieces : ℕ → Option Bytes → List Bytes
later_pieces c none = []
later_pieces c (some rest) = pieces c rest

grow_cut :
    (x : ℕ) (text : Bytes) (c : ℕ) (at : Option ℕ) (ps : List Bytes)
    → ps ≡ (cut_at text at).0 ∷ later_pieces c (cut_at text at).1
    → grow x ps
      ≡ (cut_at (x ∷ text) (elim at [ none ↦ none | some i ↦ some (suc i) ])).0
        ∷ later_pieces c (cut_at (x ∷ text) (elim at [ none ↦ none | some i ↦ some (suc i) ])).1
unfolding grow cut_at
grow_cut x text c none ps e = rw e
grow_cut x text c (some i) ps e = rw e

-- One cut takes the first piece off.
pub pieces-cut :
    (c : ℕ) (text : Bytes) → pieces c text ≡ (cut c text).0 ∷ later_pieces c (cut c text).1
unfolding cut find pieces cut_at
pieces-cut c [] = refl
pieces-cut c (x ∷ text) = elim (Bool-cases (x == c)) [
  | inl e ↦ rw e
  | inr e ↦ rw e (grow_cut x text c (find c text) (pieces c text) (pieces-cut c text))
]

find-lt : (c : ℕ) (text : Bytes) (i : ℕ) → find c text ≡ some i → i < length text
unfolding find
find-lt c [] i e = cc
find-lt c (x ∷ text) i e = elim (Option-cases (find c text)) [
  | inl absent ↦ ground arith
  | inr (k, later) ↦ ground (arith, find-lt c text k later)
]

-- What a cut leaves is shorter than the text.
pub cut-shorter :
    (c : ℕ) (text first rest : Bytes) → cut c text ≡ (first, some rest) → length rest < length text
unfolding cut cut_at
cut-shorter c text first rest e = elim (Option-cases (find c text)) [
  | inl absent ↦ ground arith
  | inr (k, found) ↦ ground (arith, find-lt c text k found, length-drop (suc k) text)
]

pub pieces-ne-nil : (c : ℕ) (text : Bytes) → pieces c text ≢ []
pieces-ne-nil c text e = cc (pieces-cut c text)

pub pieces-Lacks : (c : ℕ) (text : Bytes) → Lacks c text → pieces c text ≡ text ∷ []
unfolding pieces grow
pieces-Lacks c [] h = refl
pieces-Lacks c (x ∷ text) h = ground (arith, pieces-Lacks c text)

pub pieces-append :
    (c : ℕ) (text rest : Bytes)
    → Lacks c text
    → pieces c (text ++ (c ∷ rest)) ≡ text ∷ pieces c rest
unfolding pieces grow
pieces-append c [] rest h = ground arith
pieces-append c (x ∷ text) rest h = ground (arith, pieces-append c text rest)

-- The pieces of joined parts are the parts, if there is one and none holds the separator.
pub pieces-join : (c : ℕ) (ps : List Bytes) → ps ≢ [] → All (Lacks c) ps → pieces c (join c ps) ≡ ps
unfolding join
pieces-join c [] h _ = absurd (h refl)
pieces-join c (p ∷ []) h (hp, _) = pieces-Lacks c p hp
pieces-join c (p ∷ q ∷ ps) h (hp, hps) =
    pieces-append c p (join c (q ∷ ps)) hp
    ∙ ap (λ l. p ∷ l) (pieces-join c (q ∷ ps) (cons-ne-nil q ps) hps)

-- What is not found is not there.
pub Lacks-find : (c : ℕ) (text : Bytes) → find c text ≡ none → Lacks c text
unfolding find
Lacks-find c [] e = tt
Lacks-find c (x ∷ text) e = elim (Option-cases (find c text)) [
  | inl absent ↦ (ground arith, Lacks-find c text absent)
  | inr (i, later) ↦ absurd (ground arith)
]

-- Cutting at a separator that the first part lacks.
pub find-Lacks : (c : ℕ) (text : Bytes) → Lacks c text → find c text ≡ none
unfolding find
find-Lacks c [] h = refl
find-Lacks c (x ∷ text) h = ground (arith, find-Lacks c text)

pub find-append :
    (c : ℕ) (text rest : Bytes) → Lacks c text → find c (text ++ (c ∷ rest)) ≡ some (length text)
unfolding find
find-append c [] rest h = ground arith
find-append c (x ∷ text) rest h = ground (arith, find-append c text rest)

pub cut-Lacks : (c : ℕ) (text : Bytes) → Lacks c text → cut c text ≡ (text, none)
unfolding cut cut_at
cut-Lacks c text h = rw (find-Lacks c text h)

pub cut-append :
    (c : ℕ) (text rest : Bytes) → Lacks c text → cut c (text ++ (c ∷ rest)) ≡ (text, some rest)
unfolding cut cut_at
cut-append c text rest h = rw (
  find-append c text rest h,
  take-append (length text) text (c ∷ rest) refl,
  drop-suc_append c text rest,
)

-- What a cut says of the text: the first part lacks the separator, and the parts make the text.
join-grow : (c x : ℕ) (ps : List Bytes) → ps ≢ [] → join c (grow x ps) ≡ x ∷ join c ps
unfolding join grow
join-grow c x [] h = absurd (h refl)
join-grow c x (p ∷ []) h = refl
join-grow c x (p ∷ q ∷ ps) h = refl

join-skip : (c : ℕ) (ps : List Bytes) → ps ≢ [] → join c ([] ∷ ps) ≡ c ∷ join c ps
unfolding join
join-skip c [] h = absurd (h refl)
join-skip c (q ∷ ps) h = refl

join-pieces : (c : ℕ) (text : Bytes) → join c (pieces c text) ≡ text
unfolding pieces join
join-pieces c [] = refl
join-pieces c (x ∷ text) = elim (Bool-cases (x == c)) [
  | inl same ↦ rw same (
      join-skip c (pieces c text) (pieces-ne-nil c text)
      ∙ rw (join-pieces c text) (ap (λ (t : ℕ). t ∷ text) (ground arith)))
  | inr other ↦
      rw other (join-grow c x (pieces c text) (pieces-ne-nil c text) ∙ rw (join-pieces c text) refl)
]

All-grow : (c x : ℕ) (ps : List Bytes) → x ≢ c → All (Lacks c) ps → All (Lacks c) (grow x ps)
unfolding grow
All-grow c x [] ne h = ((ne, tt), tt)
All-grow c x (p ∷ ps) ne (hp, h) = ((ne, hp), h)

pieces_lack : (c : ℕ) (text : Bytes) → All (Lacks c) (pieces c text)
unfolding pieces
pieces_lack c [] = (tt, tt)
pieces_lack c (x ∷ text) = elim (Bool-cases (x == c)) [
  | inl same ↦ rw same (tt, pieces_lack c text)
  | inr other ↦ rw other (All-grow c x (pieces c text) (ground arith) (pieces_lack c text))
]

pub cut_sound :
    (c : ℕ) (text first : Bytes) (rest : Option Bytes)
    → cut c text ≡ (first, rest)
    → Lacks c first × (text ≡ join c (first ∷ later_pieces c rest))
cut_sound c text first rest e =
    let same : pieces c text ≡ first ∷ later_pieces c rest =
      pieces-cut c text ∙ ap (λ (t : Bytes × Option Bytes). t.0 ∷ later_pieces c t.1) e in
    let whole : All (Lacks c) (pieces c text) = pieces_lack c text in
    let lack = rw same at whole in (lack.0, sym (join-pieces c text) ∙ ap (join c) same)

list_cases : (ps : List Bytes) → (ps ≡ []) ⊎ ((p : Bytes) × (rest : List Bytes) × (ps ≡ p ∷ rest))
list_cases [] = inl refl
list_cases (p ∷ ps) = inr (p, ps, refl)

pub join_first : (c : ℕ) (first more : Bytes) → join c (first ∷ pieces c more) ≡ first ++ (c ∷ more)
unfolding join
join_first c first more = elim (list_cases (pieces c more)) [
  | inl empty ↦ absurd (pieces-ne-nil c more empty)
  | inr (p, ps, e) ↦
      rw e (ap (λ (t : Bytes). first ++ (c ∷ t)) (ap (join c) (sym e) ∙ join-pieces c more))
]
