-- ===== src/Server/Router/Table/Best.antt =====
-- The scan for the winning route.
use opal_cpp.Common.{
  ◌≡◌, ◌↔◌, refl, ap, sym, ◌∙◌, true, false, List, [], ◌∷◌, Option, none, some, Bytes, ◌⊎◌, inl,
  inr, if◌then◌else◌, Bool-cases, All,
}
use mathlib.Core.Bool.{false≢true}
use opal_cpp.Server.Router.{more_specific, same_shape}
use opal_cpp.Server.Router.Match.{IsGreedyLast, match_segments_iff}
use opal_cpp.Server.Router.Order.{more_specific_order, same_shape-Matches}
use opal_cpp.Server.Router.Table.{RouteEntry, Bucket, matches, better, best_loop}

-- No two routes of a bucket have one shape.
abbrev pub HasOwnShapes : Bucket → Type 0
HasOwnShapes [] = Unit
HasOwnShapes (route ∷ bucket) =
    All (λ later. same_shape route.segments later.segments ≡ false) bucket × HasOwnShapes bucket

abbrev pub AreGreedyLast : Bucket → Type 0
AreGreedyLast = All (λ route. IsGreedyLast route.segments)

abbrev pub IsIn : RouteEntry → Bucket → Type 0
IsIn route [] = ⊥
IsIn route (first ∷ bucket) = (first ≡ route) ⊎ IsIn route bucket

-- A route gives way to a best one: it does not match, is that one, or is less specific.
abbrev pub GivesWay : List Bytes → RouteEntry → RouteEntry → Type 0
GivesWay segments best route =
    (matches segments route ≡ true)
    → (route ≡ best) ⊎ (more_specific best.segments route.segments ≡ true)

-- Either of two matching routes of different shapes is more specific.
settled :
    (segments : List Bytes) (a b : RouteEntry)
    → IsGreedyLast a.segments
    → IsGreedyLast b.segments
    → matches segments a ≡ true
    → matches segments b ≡ true
    → same_shape a.segments b.segments ≡ false
    → more_specific b.segments a.segments ≡ false
    → more_specific a.segments b.segments ≡ true
unfolding matches
settled segments a b la lb ma mb differ less =
    elim (Bool-cases (more_specific a.segments b.segments)) [
      | inl more ↦ more
      | inr less' ↦ absurd (
          false≢true (
            sym differ
            ∙ same_shape-Matches ((match_segments_iff a.segments segments la).0 ma)
                ((match_segments_iff b.segments segments lb).0 mb) less' less))
    ]

-- What beats a route that beats another beats the other.
beats :
    (w b r : RouteEntry)
    → (w ≡ b) ⊎ (more_specific w.segments b.segments ≡ true)
    → more_specific b.segments r.segments ≡ true
    → more_specific w.segments r.segments ≡ true
beats w b r (inl same) h = rw same h
beats w b r (inr more) h = (more_specific_order w.segments b.segments r.segments).2 more h

-- What the scan of the rest of a bucket makes of a best route so far.
record Won (segments : List Bytes) (best : RouteEntry) (bucket : Bucket) (winner : RouteEntry)
    : Type 0 where
  found : best_loop segments bucket (some best) ≡ some winner
  matching : matches segments winner ≡ true
  kept : (winner ≡ best) ⊎ (more_specific winner.segments best.segments ≡ true)
  source : (winner ≡ best) ⊎ IsIn winner bucket
  others : All (GivesWay segments winner) bucket

-- A first route that is passed over, and one that takes the lead.
Won-passed :
    (segments : List Bytes) (best route : RouteEntry) (bucket : Bucket) (winner : RouteEntry)
    → (if matches segments route then some (better route (some best)) else some best) ≡ some best
    → (((winner ≡ best) ⊎ (more_specific winner.segments best.segments ≡ true))
        → GivesWay segments winner route)
    → Won segments best bucket winner
    → Won segments best (route ∷ bucket) winner
unfolding best_loop
Won-passed segments best route bucket winner passed way r = record {
  found = rw passed r.found;
  matching = r.matching;
  kept = r.kept;
  source = elim r.source [ inl same ↦ inl same | inr behind ↦ inr (inr behind) ];
  others = (way r.kept, r.others);
}

Won-taken :
    (segments : List Bytes) (best route : RouteEntry) (bucket : Bucket) (winner : RouteEntry)
    → matches segments route ≡ true
    → more_specific route.segments best.segments ≡ true
    → Won segments route bucket winner
    → Won segments best (route ∷ bucket) winner
unfolding best_loop better
Won-taken segments best route bucket winner hit more r = record {
  found = rw (hit, more) r.found;
  matching = r.matching;
  kept = inr (beats winner route best r.kept more);
  source = elim r.source [ inl same ↦ inr (inl (sym same)) | inr behind ↦ inr (inr behind) ];
  others = ((λ _. elim r.kept [ inl same ↦ inl (sym same) | inr beaten ↦ inr beaten ]), r.others);
}

won :
    (segments : List Bytes) (best : RouteEntry) (bucket : Bucket)
    → matches segments best ≡ true
    → IsGreedyLast best.segments
    → AreGreedyLast bucket
    → All (λ later. same_shape best.segments later.segments ≡ false) bucket
    → HasOwnShapes bucket
    → (winner : RouteEntry) × Won segments best bucket winner
unfolding best_loop better
won segments best [] m last lasts apart own =
    (best, record { found = refl; matching = m; kept = inl refl; source = inl refl; others = tt })
won segments best (route ∷ bucket) m last lasts apart own =
    elim (Bool-cases (matches segments route)) [
      | inr miss ↦
          let (w, r) = won segments best bucket m last lasts.1 apart.1 own.1 in
          (
            w,
            Won-passed segments best route bucket w (rw miss refl)
                (λ _ hit. absurd (false≢true (sym miss ∙ hit))) r,
          )
      | inl hit ↦ elim (Bool-cases (more_specific route.segments best.segments)) [
        | inl more ↦
            let (w, r) = won segments route bucket hit lasts.0 lasts.1 own.0 own.1 in
            (w, Won-taken segments best route bucket w hit more r)
        | inr less ↦
            let (w, r) = won segments best bucket m last lasts.1 apart.1 own.1 in
            (
              w,
              Won-passed segments best route bucket w (rw (hit, less) refl)
                  (λ kept _. inr (
                    beats w best route kept
                      (settled segments best route last lasts.0 m hit apart.0 less)))
                  r,
            )
      ]
    ]

-- What the scan of a whole bucket gives: no route, if none matches, or the winner.
pub data IsBest (segments : List Bytes) (bucket : Bucket) (result : Option RouteEntry)
    : Type 0 where
  no_route :
      result ≡ none
      → All (λ route. matches segments route ≡ false) bucket
      → IsBest segments bucket result
  a_route :
      (winner : RouteEntry)
      → result ≡ some winner
      → IsIn winner bucket
      → matches segments winner ≡ true
      → All (GivesWay segments winner) bucket
      → IsBest segments bucket result

-- In a bucket with no two routes of one shape the scan finds no route exactly when none matches,
-- and else a matching route of the bucket that is more specific than every other one that matches.
pub best_loop_lem :
    (segments : List Bytes) (bucket : Bucket)
    → AreGreedyLast bucket
    → HasOwnShapes bucket
    → IsBest segments bucket (best_loop segments bucket none)
unfolding best_loop better
best_loop_lem segments [] lasts own = no_route refl tt
best_loop_lem segments (route ∷ bucket) lasts own = elim (Bool-cases (matches segments route)) [
  | inl hit ↦
      let (w, r) = won segments route bucket hit lasts.0 lasts.1 own.0 own.1 in
      a_route w (rw hit r.found)
        (elim r.source [ inl same ↦ inl (sym same) | inr behind ↦ inr behind ]) r.matching
        ((λ _. elim r.kept [ inl same ↦ inl (sym same) | inr beaten ↦ inr beaten ]), r.others)
  | inr miss ↦ rw miss (elim (best_loop_lem segments bucket lasts.1 own.1) [
    | no_route failed none' ↦ no_route failed (miss, none')
    | a_route w found behind m others ↦
        a_route w found (inr behind) m ((λ hit. absurd (false≢true (sym miss ∙ hit))), others)
  ])
]

All_at :
    (P : RouteEntry → Type 0) (route : RouteEntry) (bucket : Bucket)
    → All P bucket
    → IsIn route bucket
    → P route
All_at P route [] h at = absurd at
All_at P route (first ∷ bucket) (p, h) (inl same) = rw (← same) p
All_at P route (first ∷ bucket) (p, h) (inr behind) = All_at P route bucket h behind

one_winner :
    (segments : List Bytes) (w v : RouteEntry)
    → GivesWay segments w v
    → GivesWay segments v w
    → matches segments w ≡ true
    → matches segments v ≡ true
    → w ≡ v
one_winner segments w v wv vw mw mv = elim (wv mv) [
  | inl same ↦ sym same
  | inr more ↦ elim (vw mw) [
    | inl same ↦ same
    | inr less ↦
        absurd
          (false≢true (sym ((more_specific_order w.segments v.segments w.segments).1 more) ∙ less))
  ]
]

-- The winner does not depend on the order in which the routes were added: two buckets with the same
-- routes, none of which share a shape, give the same result.
pub best_loop_unordered :
    (segments : List Bytes) (bucket bucket' : Bucket)
    → AreGreedyLast bucket
    → HasOwnShapes bucket
    → AreGreedyLast bucket'
    → HasOwnShapes bucket'
    → ((route : RouteEntry) → IsIn route bucket ↔ IsIn route bucket')
    → best_loop segments bucket none ≡ best_loop segments bucket' none
best_loop_unordered segments bucket bucket' lasts own lasts' own' same =
    elim (best_loop_lem segments bucket lasts own) [
      | no_route failed none' ↦ elim (best_loop_lem segments bucket' lasts' own') [
        | no_route failed' _ ↦ failed ∙ sym failed'
        | a_route w found at m _ ↦ absurd (
            false≢true
              (sym (All_at (λ r. matches segments r ≡ false) w bucket none' ((same w).1 at)) ∙ m))
      ]
      | a_route w found at m others ↦ elim (best_loop_lem segments bucket' lasts' own') [
        | no_route failed' none' ↦ absurd (
            false≢true
              (sym (All_at (λ r. matches segments r ≡ false) w bucket' none' ((same w).0 at)) ∙ m))
        | a_route v found' at' m' others' ↦
            found
            ∙ ap (λ (t : RouteEntry). some t)
                (one_winner segments w v
                  (All_at (GivesWay segments w) v bucket others ((same v).1 at'))
                  (All_at (GivesWay segments v) w bucket' others' ((same w).0 at)) m m')
            ∙ sym found'
      ]
    ]
