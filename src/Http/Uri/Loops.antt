-- ===== src/Http/Uri/Loops.antt =====
-- The two loops of `ParseRequestTarget` against the pieces that they go through.
use opal_cpp.Common.{
  ℕ, zero, suc, ◌≤◌, ◌≡◌, refl, ap, sym, arith, List, [], ◌∷◌, ◌++◌, Option, none, some, Bytes,
  length, Outcome, ok, err, ◌>>=◌, ◌∙◌, append_assoc, append-nil, pieces, cut, pieces-cut,
  cut-shorter, later_pieces,
}
use opal_cpp.Http.Uri.{
  percent_decode, slash, ampersand, segments_loop, params_loop, read_pair, trailing_segment,
}

-- Each piece decoded, the first failure first.
unfoldable pub decode_all : List Bytes → Outcome (List Bytes)
decode_all [] = ok []
decode_all (p ∷ ps) = percent_decode p >>= λ s. decode_all ps >>= λ ss. ok (s ∷ ss)

unfoldable pub read_pairs : List Bytes → Outcome (List (Bytes × Bytes))
read_pairs [] = ok []
read_pairs (p ∷ ps) = read_pair p >>= λ s. read_pairs ps >>= λ ss. ok (s ++ ss)

-- One round, from what the cut gives.
segments_round :
    (fuel : ℕ) (c : ℕ) (path raw : Bytes) (rest : Option Bytes) (out : List Bytes)
    → cut slash (c ∷ path) ≡ (raw, rest)
    → segments_loop (suc fuel) (c ∷ path) out ≡ (
        percent_decode raw >>= λ segment. elim rest [
          | none ↦ ok (out ++ (segment ∷ []))
          | some more ↦ segments_loop fuel more ((out ++ (segment ∷ [])) ++ trailing_segment more)
        ])
unfolding segments_loop
segments_round fuel c path raw rest out e = rw e

pieces_of_cut :
    (sep : ℕ) (text raw : Bytes) (rest : Option Bytes)
    → cut sep text ≡ (raw, rest)
    → pieces sep text ≡ raw ∷ later_pieces sep rest
pieces_of_cut sep text raw rest e = rw (pieces-cut, e)

module _ {ℓ} {A : Type ℓ} (s : A) (out : List A) where
  -- The results so far, with one more in front of the rest.
  regroup :
      (n : Outcome (List A))
      → (n >>= λ ss. ok ((out ++ (s ∷ [])) ++ ss))
        ≡ ((n >>= λ ss. ok (s ∷ ss)) >>= λ ss. ok (out ++ ss))
  regroup (ok ss) = ap ok (append_assoc out (s ∷ []) ss)
  regroup (err e) = refl

segments_last :
    (m : Outcome Bytes) (out : List Bytes)
    → (m >>= λ s. ok (out ++ (s ∷ []))) ≡ ((m >>= λ s. ok (s ∷ [])) >>= λ ss. ok (out ++ ss))
segments_last (ok s) out = refl
segments_last (err e) out = refl

segments_more :
    (m : Outcome Bytes) (fuel : ℕ) (more : Bytes) (out : List Bytes)
    → ((out' : List Bytes)
        → segments_loop fuel more (out' ++ trailing_segment more)
          ≡ (decode_all (pieces slash more) >>= λ ss. ok (out' ++ ss)))
    → (m >>= λ s. segments_loop fuel more ((out ++ (s ∷ [])) ++ trailing_segment more))
      ≡ ((m >>= λ s. decode_all (pieces slash more) >>= λ ss. ok (s ∷ ss)) >>= λ ss. ok (out ++ ss))
segments_more (ok s) fuel more out ih =
    ih (out ++ (s ∷ [])) ∙ regroup s out (decode_all (pieces slash more))
segments_more (err e) fuel more out ih = refl

abbrev LoopsThrough : ℕ → Bytes → Type 0
LoopsThrough fuel path =
    (out : List Bytes)
    → segments_loop fuel path (out ++ trailing_segment path)
      ≡ (decode_all (pieces slash path) >>= λ ss. ok (out ++ ss))

segments_split :
    (fuel c : ℕ) (path raw : Bytes) (rest : Option Bytes) (out : List Bytes)
    → cut slash (c ∷ path) ≡ (raw, rest)
    → length path ≤ fuel
    → ((more : Bytes) → length more ≤ fuel → LoopsThrough fuel more)
    → segments_loop (suc fuel) (c ∷ path) out
      ≡ (decode_all (pieces slash (c ∷ path)) >>= λ ss. ok (out ++ ss))
unfolding decode_all
segments_split fuel c path raw none out e h ih =
    segments_round fuel c path raw none out e
    ∙ rw (pieces_of_cut slash (c ∷ path) raw none e) (segments_last (percent_decode raw) out)
segments_split fuel c path raw (some more) out e h ih =
    segments_round fuel c path raw (some more) out e
    ∙ rw (pieces_of_cut slash (c ∷ path) raw (some more) e) (
        segments_more (percent_decode raw) fuel more out
          (ih more (omega (arith, cut-shorter slash (c ∷ path) raw more e))))

segments_through : (fuel : ℕ) (path : Bytes) → length path ≤ fuel → LoopsThrough fuel path
unfolding segments_loop trailing_segment pieces decode_all percent_decode
segments_through fuel [] h out = refl
segments_through zero (c ∷ path) h out = absurd (omega arith)
segments_through (suc fuel) (c ∷ path) h out =
    ap (segments_loop (suc fuel) (c ∷ path)) (append-nil out)
    ∙ segments_split fuel c path (cut slash (c ∷ path)).0 (cut slash (c ∷ path)).1 out refl
        (omega arith) (segments_through fuel)

-- The loop over a path that is not empty decodes the pieces between its slashes, in order.
pub segments_loop_lem :
    (c : ℕ) (path : Bytes)
    → segments_loop (length (c ∷ path)) (c ∷ path) [] ≡ decode_all (pieces slash (c ∷ path))
segments_loop_lem c path =
    segments_split (length path) c path (cut slash (c ∷ path)).0 (cut slash (c ∷ path)).1 [] refl
      (omega arith) (segments_through (length path))
    ∙ ok_self (decode_all (pieces slash (c ∷ path)))
  where
    ok_self : (n : Outcome (List Bytes)) → (n >>= λ ss. ok ss) ≡ n
    ok_self (ok ss) = refl
    ok_self (err e) = refl

params_round :
    (fuel c : ℕ) (query raw : Bytes) (rest : Option Bytes) (out : List (Bytes × Bytes))
    → cut ampersand (c ∷ query) ≡ (raw, rest)
    → params_loop (suc fuel) (c ∷ query) out ≡ (
        read_pair raw >>= λ param. elim rest [
          | none ↦ ok (out ++ param)
          | some more ↦ params_loop fuel more (out ++ param)
        ])
unfolding params_loop
params_round fuel c query raw rest out e = rw e

module _ (param out : List (Bytes × Bytes)) where
  regroup_pairs :
      (n : Outcome (List (Bytes × Bytes)))
      → (n >>= λ ss. ok ((out ++ param) ++ ss))
        ≡ ((n >>= λ ss. ok (param ++ ss)) >>= λ ss. ok (out ++ ss))
  regroup_pairs (ok ss) = ap ok (append_assoc out param ss)
  regroup_pairs (err e) = refl

params_last :
    (m : Outcome (List (Bytes × Bytes))) (out : List (Bytes × Bytes))
    → (m >>= λ s. ok (out ++ s)) ≡ ((m >>= λ s. ok (s ++ [])) >>= λ ss. ok (out ++ ss))
params_last (ok s) out = ap (λ l. ok (out ++ l)) (sym (append-nil s))
params_last (err e) out = refl

abbrev RunsThrough : ℕ → Bytes → Type 0
RunsThrough fuel query =
    (out : List (Bytes × Bytes))
    → params_loop fuel query out ≡ (read_pairs (pieces ampersand query) >>= λ ss. ok (out ++ ss))

params_more :
    (m : Outcome (List (Bytes × Bytes))) (fuel : ℕ) (more : Bytes) (out : List (Bytes × Bytes))
    → RunsThrough fuel more
    → (m >>= λ s. params_loop fuel more (out ++ s)) ≡ (
        (m >>= λ s. read_pairs (pieces ampersand more) >>= λ ss. ok (s ++ ss)) >>= λ ss.
        ok (out ++ ss))
params_more (ok s) fuel more out ih =
    ih (out ++ s) ∙ regroup_pairs s out (read_pairs (pieces ampersand more))
params_more (err e) fuel more out ih = refl

params_split :
    (fuel c : ℕ) (query raw : Bytes) (rest : Option Bytes) (out : List (Bytes × Bytes))
    → cut ampersand (c ∷ query) ≡ (raw, rest)
    → length query ≤ fuel
    → ((more : Bytes) → length more ≤ fuel → RunsThrough fuel more)
    → params_loop (suc fuel) (c ∷ query) out
      ≡ (read_pairs (pieces ampersand (c ∷ query)) >>= λ ss. ok (out ++ ss))
unfolding read_pairs
params_split fuel c query raw none out e h ih =
    params_round fuel c query raw none out e
    ∙ rw (pieces_of_cut ampersand (c ∷ query) raw none e) (params_last (read_pair raw) out)
params_split fuel c query raw (some more) out e h ih =
    params_round fuel c query raw (some more) out e
    ∙ rw (pieces_of_cut ampersand (c ∷ query) raw (some more) e) (
        params_more (read_pair raw) fuel more out
          (ih more (omega (arith, cut-shorter ampersand (c ∷ query) raw more e))))

params_through : (fuel : ℕ) (query : Bytes) → length query ≤ fuel → RunsThrough fuel query
unfolding params_loop pieces read_pairs read_pair
params_through fuel [] h out = ap ok (sym (append-nil out))
params_through zero (c ∷ query) h out = absurd (omega arith)
params_through (suc fuel) (c ∷ query) h out =
    params_split fuel c query (cut ampersand (c ∷ query)).0 (cut ampersand (c ∷ query)).1 out refl
      (omega arith) (params_through fuel)

-- The loop over the query reads the pieces between its ampersands, in order.
pub params_loop_lem :
    (query : Bytes) → params_loop (length query) query [] ≡ read_pairs (pieces ampersand query)
params_loop_lem query =
    params_through (length query) query (omega arith) []
    ∙ ok_self (read_pairs (pieces ampersand query))
  where
    ok_self : (n : Outcome (List (Bytes × Bytes))) → (n >>= λ ss. ok ss) ≡ n
    ok_self (ok ss) = refl
    ok_self (err e) = refl
