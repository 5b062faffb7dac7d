-- ===== src/Server/Router/Table/Register.antt =====
-- What `Router::Add` keeps true of the table, and what it changes.
use opal_cpp.Common.{
  ◌≡◌, refl, sym, ◌∙◌, arith, Bool, true, false, ◌||◌, List, [], ◌∷◌, ◌++◌, Bytes, bytes_eq,
  bytes_eq_refl, bytes_eq_sound, if◌then◌else◌, ◌++◌, All-append, sym, Outcome, ok, err, All,
  All-append, Bool-cases, if_elim, inl, inr,
}
use opal_cpp.Server.Router.{Segment, parse_pattern}
use opal_cpp.Server.Router.Match.{IsGreedyLast}
use opal_cpp.Server.Router.Accepted.{parse_pattern_sound}
use opal_cpp.Server.Router.Table.{
  RouteEntry, RouteHandler, Bucket, Routes, bytes_lt, bucket_of, try_emplace, push_back,
  has_shape_of, add, add_parsed,
}
use opal_cpp.Server.Router.Table.Best.{HasOwnShapes, AreGreedyLast}

bytes_lt_irrefl : (a : Bytes) → bytes_lt a a ≡ false
unfolding bytes_lt
bytes_lt_irrefl [] = refl
bytes_lt_irrefl (x ∷ a) = ground (arith, bytes_lt_irrefl a)

pub bytes_lt_trans :
    (a b c : Bytes) → bytes_lt a b ≡ true → bytes_lt b c ≡ true → bytes_lt a c ≡ true
unfolding bytes_lt
bytes_lt_trans a [] c h k = cc
bytes_lt_trans [] (y ∷ b) [] h k = cc
bytes_lt_trans [] (y ∷ b) (z ∷ c) h k = refl
bytes_lt_trans (x ∷ a) (y ∷ b) [] h k = cc
bytes_lt_trans (x ∷ a) (y ∷ b) (z ∷ c) h k = ground (arith, bytes_lt_trans a b c)

bytes_lt_total : (a b : Bytes) → bytes_eq a b ≡ false → bytes_lt b a ≡ false → bytes_lt a b ≡ true
unfolding bytes_lt bytes_eq
bytes_lt_total [] [] e h = cc
bytes_lt_total [] (y ∷ b) e h = refl
bytes_lt_total (x ∷ a) [] e h = cc
bytes_lt_total (x ∷ a) (y ∷ b) e h = ground (arith, bytes_lt_total a b)

bytes_lt_ne : (a b : Bytes) → bytes_lt a b ≡ true → bytes_eq b a ≡ false
unfolding bytes_lt bytes_eq
bytes_lt_ne a [] h = cc
bytes_lt_ne [] (y ∷ b) h = refl
bytes_lt_ne (x ∷ a) (y ∷ b) h = ground (arith, bytes_lt_ne a b)

-- Each bucket's routes have patterns that end in their greedy label, if they have one, and no two of
-- them share a shape; the methods are in order.
abbrev pub IsBucket : Bucket → Type 0
IsBucket bucket = AreGreedyLast bucket × HasOwnShapes bucket

abbrev pub AreBehind : Bytes → Routes → Type 0
AreBehind method = All (λ entry. bytes_lt method entry.0 ≡ true)

abbrev pub IsTable : Routes → Type 0
IsTable [] = Unit
IsTable ((method, bucket) ∷ routes) = IsBucket bucket × AreBehind method routes × IsTable routes

behind_more :
    (m method : Bytes) (routes : Routes)
    → bytes_lt m method ≡ true
    → AreBehind method routes
    → AreBehind m routes
behind_more m method [] lt h = tt
behind_more m method ((key, bucket) ∷ routes) lt (hk, h) =
    (bytes_lt_trans m method key lt hk, behind_more m method routes lt h)

bucket_of_behind : (m : Bytes) (routes : Routes) → AreBehind m routes → bucket_of m routes ≡ []
unfolding bucket_of
bucket_of_behind m [] h = refl
bucket_of_behind m ((key, bucket) ∷ routes) (hk, h) =
    rw (bytes_lt_ne m key hk) (bucket_of_behind m routes h)

AreBehind-try_emplace :
    (m method : Bytes) (routes : Routes)
    → bytes_lt m method ≡ true
    → AreBehind m routes
    → AreBehind m (try_emplace method routes)
unfolding try_emplace
AreBehind-try_emplace m method [] lt h = (lt, tt)
AreBehind-try_emplace m method ((key, bucket) ∷ routes) lt (hk, h) =
    elim (Bool-cases (bytes_eq key method)) [
      | inl same ↦ rw same (hk, h)
      | inr other ↦ elim (Bool-cases (bytes_lt method key)) [
        | inl before ↦ rw (other, before) (lt, (hk, h))
        | inr behind ↦ rw (other, behind) (hk, AreBehind-try_emplace m method routes lt h)
      ]
    ]

IsTable-try_emplace :
    (method : Bytes) (routes : Routes) → IsTable routes → IsTable (try_emplace method routes)
unfolding try_emplace
IsTable-try_emplace method [] h = ((tt, tt), tt, tt)
IsTable-try_emplace method ((key, bucket) ∷ routes) (hb, hk, h) =
    elim (Bool-cases (bytes_eq key method)) [
      | inl same ↦ rw same (hb, hk, h)
      | inr other ↦ elim (Bool-cases (bytes_lt method key)) [
        | inl before ↦
            rw (other, before)
              ((tt, tt), (before, behind_more method key routes before hk), (hb, hk, h))
        | inr behind ↦
            rw (other, behind)
              (
                hb,
                AreBehind-try_emplace key method routes (bytes_lt_total key method other behind) hk,
                IsTable-try_emplace method routes h,
              )
      ]
    ]

-- A method that is put in has no routes, as before.
bucket_of-try_emplace :
    (m method : Bytes) (routes : Routes)
    → IsTable routes
    → bucket_of m (try_emplace method routes) ≡ bucket_of m routes
unfolding try_emplace bucket_of
bucket_of-try_emplace m method [] h = ground arith
bucket_of-try_emplace m method ((key, bucket) ∷ routes) (hb, hk, h) =
    elim (Bool-cases (bytes_eq key method)) [
      | inl same ↦ rw same refl
      | inr other ↦ elim (Bool-cases (bytes_lt method key)) [
        | inl before ↦ rw (other, before) (put_first before)
        | inr behind ↦ rw (other, behind) (ground (arith, bucket_of-try_emplace m method routes h))
      ]
    ]
  where
    put_first :
        bytes_lt method key ≡ true
        → (if bytes_eq method m then [] else if bytes_eq key m then bucket else bucket_of m routes)
          ≡ (if bytes_eq key m then bucket else bucket_of m routes)
    put_first before = elim (Bool-cases (bytes_eq method m)) [
      | inr other ↦ rw other refl
      | inl same ↦
          rw (same, ← bytes_eq_sound method m same, bytes_lt_ne method key before)
            (sym (bucket_of_behind method routes (behind_more method key routes before hk)))
    ]

has_key : Bytes → Routes → Bool
has_key method [] = false
has_key method ((key, bucket) ∷ routes) = bytes_eq key method || has_key method routes

has_key-try_emplace :
    (method : Bytes) (routes : Routes) → has_key method (try_emplace method routes) ≡ true
unfolding try_emplace has_key
has_key-try_emplace method [] = rw (bytes_eq_refl method) refl
has_key-try_emplace method ((key, bucket) ∷ routes) = elim (Bool-cases (bytes_eq key method)) [
  | inl same ↦ rw (same, same) refl
  | inr other ↦ elim (Bool-cases (bytes_lt method key)) [
    | inl before ↦ rw (other, before, bytes_eq_refl method) refl
    | inr behind ↦ rw (other, behind) (ground (arith, has_key-try_emplace method routes))
  ]
]

-- A pushed route stands at the end of its own bucket, and nowhere else.
push_here :
    (m method : Bytes) (entry : RouteEntry) (bucket : Bucket) (routes : Routes)
    → (if bytes_eq method m then bucket ++ (entry ∷ []) else bucket_of m routes) ≡ (
        if bytes_eq method m
        then bucket ++ (entry ∷ [])
        else (if bytes_eq method m then bucket else bucket_of m routes))
push_here m method entry bucket routes = elim (Bool-cases (bytes_eq method m)) [
  | inl same ↦ rw same refl
  | inr other ↦ rw other refl
]

push_there :
    (m method key : Bytes) (entry : RouteEntry) (bucket : Bucket) (routes : Routes)
    → bytes_eq key method ≡ false
    → (if bytes_eq key m
        then bucket
        else (if bytes_eq method m
            then bucket_of method routes ++ (entry ∷ [])
            else bucket_of m routes))
      ≡ (if bytes_eq method m
          then bucket_of method routes ++ (entry ∷ [])
          else (if bytes_eq key m then bucket else bucket_of m routes))
push_there m method key entry bucket routes other = elim (Bool-cases (bytes_eq method m)) [
  | inl same ↦ rw (same, ← bytes_eq_sound method m same, other) refl
  | inr apart ↦ rw apart refl
]

bucket_of-push_back :
    (m method : Bytes) (entry : RouteEntry) (routes : Routes)
    → has_key method routes ≡ true
    → bucket_of m (push_back method entry routes)
      ≡ (if bytes_eq method m then bucket_of method routes ++ (entry ∷ []) else bucket_of m routes)
unfolding push_back bucket_of has_key
bucket_of-push_back m method entry [] h = cc
bucket_of-push_back m method entry ((key, bucket) ∷ routes) h =
    elim (Bool-cases (bytes_eq key method)) [
      | inl same ↦
          rw (same, bytes_eq_sound key method same) (push_here m method entry bucket routes)
      | inr other ↦
          rw (other, bucket_of-push_back m method entry routes (rw other at h))
            (push_there m method key entry bucket routes other)
    ]

HasOwnShapes-append :
    (bucket : Bucket) (entry : RouteEntry)
    → HasOwnShapes bucket
    → has_shape_of entry.segments bucket ≡ false
    → HasOwnShapes (bucket ++ (entry ∷ []))
unfolding has_shape_of
HasOwnShapes-append [] entry h e = (tt, tt)
HasOwnShapes-append (route ∷ bucket) entry (apart, h) e = (
  All-append _ bucket (entry ∷ []) apart (ground arith, tt),
  HasOwnShapes-append bucket entry h (ground arith),
)

AreBehind-push_back :
    (m method : Bytes) (entry : RouteEntry) (routes : Routes)
    → AreBehind m routes
    → AreBehind m (push_back method entry routes)
unfolding push_back
AreBehind-push_back m method entry [] h = tt
AreBehind-push_back m method entry ((key, bucket) ∷ routes) (hk, h) =
    elim (Bool-cases (bytes_eq key method)) [
      | inl same ↦ rw same (hk, h)
      | inr other ↦ rw other (hk, AreBehind-push_back m method entry routes h)
    ]

IsTable-push_back :
    (method : Bytes) (entry : RouteEntry) (routes : Routes)
    → IsTable routes
    → IsGreedyLast entry.segments
    → has_shape_of entry.segments (bucket_of method routes) ≡ false
    → IsTable (push_back method entry routes)
unfolding push_back bucket_of
IsTable-push_back method entry [] h last e = tt
IsTable-push_back method entry ((key, bucket) ∷ routes) ((lasts, own), hk, h) last e =
    elim (Bool-cases (bytes_eq key method)) [
      | inl same ↦ rw same (
        (
          All-append _ bucket (entry ∷ []) lasts (last, tt),
          HasOwnShapes-append bucket entry own (rw same at e),
        ),
        hk,
        h,
      )
      | inr other ↦ rw other (
        (lasts, own),
        AreBehind-push_back key method entry routes hk,
        IsTable-push_back method entry routes h last (rw other at e),
      )
    ]

-- The table after `Add`, by its result: a refused route changes no bucket, and an added one stands at
-- the end of the bucket of its method.
abbrev pub IsAdded :
    Bytes → Bytes → RouteHandler → Bytes → Routes → Outcome {0} Unit × Routes → Type 0
IsAdded method pattern handler operation routes (err failure, routes') =
    (m : Bytes) → bucket_of m routes' ≡ bucket_of m routes
IsAdded method pattern handler operation routes (ok done, routes') =
    (segments : List Segment) × (parse_pattern pattern ≡ ok segments)
    × ((m : Bytes)
        → bucket_of m routes' ≡ (
            if bytes_eq method m
            then bucket_of method routes
              ++ (record { segments = segments; handler = handler; operation = operation } ∷ [])
            else bucket_of m routes))

abbrev IsKept : Bytes → Bytes → RouteHandler → Bytes → Routes → Outcome {0} Unit × Routes → Type 0
IsKept method pattern handler operation routes result =
    IsTable result.1 × IsAdded method pattern handler operation routes result

pushed :
    (method pattern : Bytes) (handler : RouteHandler) (operation : Bytes) (routes : Routes)
    (segments : List Segment)
    → IsTable routes
    → parse_pattern pattern ≡ ok segments
    → has_shape_of segments (bucket_of method (try_emplace method routes)) ≡ false
    → IsKept method pattern handler operation routes (
      ok tt,
      push_back method
          (record { segments = segments; handler = handler; operation = operation })
          (try_emplace method routes),
    )
pushed method pattern handler operation routes segments h accepted apart = (
  IsTable-push_back method _ (try_emplace method routes) (IsTable-try_emplace method routes h)
      (parse_pattern_sound pattern segments accepted).0.1 apart,
  (
    segments,
    accepted,
    λ m.
        bucket_of-push_back m method _ (try_emplace method routes)
          (has_key-try_emplace method routes)
        ∙ rw (bucket_of-try_emplace method method routes h, bucket_of-try_emplace m method routes h)
            refl,
  ),
)

IsKept-add_parsed :
    (method pattern : Bytes) (handler : RouteHandler) (operation : Bytes) (routes : Routes)
    (parsed : Outcome (List Segment))
    → IsTable routes
    → parse_pattern pattern ≡ parsed
    → IsKept method pattern handler operation routes
        (add_parsed method pattern handler operation routes parsed)
unfolding add_parsed
IsKept-add_parsed method pattern handler operation routes (err failure) h e = (h, λ m. refl)
IsKept-add_parsed method pattern handler operation routes (ok segments) h e =
    if_elim (IsKept method pattern handler operation routes)
      (has_shape_of segments (bucket_of method (try_emplace method routes))) _ _
      (λ conflict.
        (IsTable-try_emplace method routes h, λ m. bucket_of-try_emplace m method routes h))
      (pushed method pattern handler operation routes segments h e)

-- `Add` keeps the table well formed, also when it fails: the methods in order, each greedy label
-- last, and no two routes of one method with the same shape. A refused route changes no method's
-- routes; an added one comes behind its own method's routes and changes no other method's.
pub add_lem :
    (method pattern : Bytes) (handler : RouteHandler) (operation : Bytes) (routes : Routes)
    → IsTable routes
    → IsTable (add method pattern handler operation routes).1
      × IsAdded method pattern handler operation routes
          (add method pattern handler operation routes)
unfolding add
add_lem method pattern handler operation routes h =
    IsKept-add_parsed method pattern handler operation routes (parse_pattern pattern) h refl
