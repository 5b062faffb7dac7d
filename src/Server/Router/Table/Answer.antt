-- ===== src/Server/Router/Table/Answer.antt =====
-- What `Router::Route` answers.
use opal_cpp.Common.{
  ◌≡◌, ◌≢◌, refl, sym, arith, bytes_eq_sound, bytes_eq_refl, ◌∙◌, true, false, not, ◌||◌, List, [],
  ◌∷◌, ◌++◌, none, some, Bytes, codes, bytes_eq, if◌then◌else◌, Outcome, ok, err, Error, All,
  Bool-cases, inl, inr, cons-ne-nil, append_assoc,
}
use mathlib.Core.Bool.{false≢true}
use opal_cpp.Http.Headers.{get, header_name_equals, ascii_lower}
use opal_cpp.Http.Headers.Store.{get_all-set}
use opal_cpp.Http.Uri.{RequestTarget}
use opal_cpp.Http.Message.{HttpRequest, HttpResponse}
use opal_cpp.Http.Dispatch.{Attempt, returned}
use opal_cpp.Server.Router.Match.{is_empty-ne}
use opal_cpp.Server.Router.{is_empty, normalized_target}
use opal_cpp.Server.Router.Table.{
  RouteEntry, Bucket, Routes, bucket_of, matches, any_match, best_loop, allow_loop, missed,
  with_header, make_error_response, call_route, answer, route_target, route,
}
use opal_cpp.Server.Router.Table.Best.{no_route, a_route, best_loop_lem, IsIn, GivesWay}
use opal_cpp.Server.Router.Table.Register.{IsTable, IsBucket}

-- The other methods with a route for the target, in the order of the table: a method is left out
-- exactly if it is the request's own or none of its routes matches.
pub data AreOthers (own : Bytes) (segments : List Bytes) : Routes → List Bytes → Type 0 where
  no_more : AreOthers own segments [] []
  leave_own :
      (bucket : Bucket) (routes : Routes) (names : List Bytes)
      → AreOthers own segments routes names
      → AreOthers own segments ((own, bucket) ∷ routes) names
  leave_unmatched :
      (method : Bytes) (bucket : Bucket) (routes : Routes) (names : List Bytes)
      → All (λ entry. matches segments entry ≡ false) bucket
      → AreOthers own segments routes names
      → AreOthers own segments ((method, bucket) ∷ routes) names
  take_matched :
      (method : Bytes) (bucket : Bucket) (routes : Routes) (names : List Bytes) (entry : RouteEntry)
      → method ≢ own
      → IsIn entry bucket
      → matches segments entry ≡ true
      → AreOthers own segments routes names
      → AreOthers own segments ((method, bucket) ∷ routes) (method ∷ names)

any_match_none :
    (segments : List Bytes) (bucket : Bucket)
    → any_match segments bucket ≡ false
    → All (λ entry. matches segments entry ≡ false) bucket
unfolding any_match
any_match_none segments [] e = tt
any_match_none segments (entry ∷ bucket) e =
    (ground arith, any_match_none segments bucket (ground arith))

any_match_some :
    (segments : List Bytes) (bucket : Bucket)
    → any_match segments bucket ≡ true
    → (entry : RouteEntry) × IsIn entry bucket × (matches segments entry ≡ true)
unfolding any_match
any_match_some segments [] e = cc
any_match_some segments (entry ∷ bucket) e = elim (Bool-cases (matches segments entry)) [
  | inl m ↦ (entry, inl refl, m)
  | inr not_here ↦
      let (found, at, m) = any_match_some segments bucket (rw not_here at e) in (found, inr at, m)
]

other_methods : Bytes → List Bytes → Routes → List Bytes
other_methods own segments [] = []
other_methods own segments ((method, bucket) ∷ routes) =
    let later = other_methods own segments routes in
    if bytes_eq method own || not (any_match segments bucket) then later else method ∷ later

pub listed : List Bytes → Bytes
listed [] = []
listed (name ∷ []) = name
listed (name ∷ next ∷ names) = name ++ (codes ", " ++ listed (next ∷ names))

AreOthers-cons :
    (own : Bytes) (segments : List Bytes) (method : Bytes) (bucket : Bucket) (routes : Routes)
    (names : List Bytes)
    → AreOthers own segments routes names
    → AreOthers own segments
        ((method, bucket) ∷ routes)
        (if bytes_eq method own || not (any_match segments bucket) then names else method ∷ names)
AreOthers-cons own segments method bucket routes names h = elim (Bool-cases (bytes_eq method own)) [
  | inl same ↦ rw (same, bytes_eq_sound method own same) (leave_own bucket routes names h)
  | inr other ↦ elim (Bool-cases (any_match segments bucket)) [
    | inl some' ↦
        let (entry, at, m) = any_match_some segments bucket some' in
        rw (other, some')
          (take_matched method bucket routes names entry
            (λ e. false≢true (sym other ∙ rw e (bytes_eq_refl own))) at m h)
    | inr none' ↦
        rw (other, none')
          (leave_unmatched method bucket routes names (any_match_none segments bucket none') h)
  ]
]

AreOthers-other_methods :
    (own : Bytes) (segments : List Bytes) (routes : Routes)
    → AreOthers own segments routes (other_methods own segments routes)
unfolding other_methods
AreOthers-other_methods own segments [] = no_more
AreOthers-other_methods own segments ((method, bucket) ∷ routes) =
    AreOthers-cons own segments method bucket routes _ (AreOthers-other_methods own segments routes)

listed_behind : Bytes → List Bytes → Bytes
listed_behind text [] = text
listed_behind text (name ∷ names) =
    listed_behind ((if is_empty text then text else text ++ codes ", ") ++ name) names

allow_loop_methods :
    (own : Bytes) (segments : List Bytes) (routes : Routes) (allow : Bytes)
    → allow_loop own segments routes allow ≡ listed_behind allow (other_methods own segments routes)
unfolding allow_loop other_methods listed_behind
allow_loop_methods own segments [] allow = refl
allow_loop_methods own segments ((method, bucket) ∷ routes) allow =
    elim (Bool-cases (bytes_eq method own || not (any_match segments bucket))) [
      | inl skip ↦ rw skip (allow_loop_methods own segments routes allow)
      | inr take ↦ rw take (allow_loop_methods own segments routes _)
    ]

abbrev pub AreNames : List Bytes → Type 0
AreNames = All (λ name. name ≢ [])

regroup :
    (text name : Bytes) (names : List Bytes)
    → listed (((text ++ codes ", ") ++ name) ∷ names)
      ≡ text ++ (codes ", " ++ listed (name ∷ names))
unfolding listed
regroup text name [] = append_assoc text (codes ", ") name
regroup text name (next ∷ names) =
    append_assoc (text ++ codes ", ") name _ ∙ append_assoc text (codes ", ") _

listed_behind-listed :
    (names : List Bytes) (text : Bytes)
    → text ≢ []
    → AreNames names
    → listed_behind text names ≡ listed (text ∷ names)
unfolding listed_behind listed is_empty
listed_behind-listed [] text ne h = refl
listed_behind-listed (name ∷ names) [] ne h = absurd (ne refl)
listed_behind-listed (name ∷ names) (c ∷ text) ne (hn, h) =
    listed_behind-listed names (((c ∷ text) ++ codes ", ") ++ name) (cons-ne-nil c _) h
    ∙ regroup (c ∷ text) name names

allow_listed : (names : List Bytes) → AreNames names → listed_behind [] names ≡ listed names
unfolding listed_behind listed is_empty
allow_listed [] h = refl
allow_listed (name ∷ names) (hn, h) = listed_behind-listed names name hn h

other_methods_named :
    (own : Bytes) (segments : List Bytes) (routes : Routes)
    → All (λ entry. entry.0 ≢ []) routes
    → AreNames (other_methods own segments routes)
unfolding other_methods
other_methods_named own segments [] h = tt
other_methods_named own segments ((method, bucket) ∷ routes) (hm, h) =
    elim (Bool-cases (bytes_eq method own || not (any_match segments bucket))) [
      | inl skip ↦ rw skip (other_methods_named own segments routes h)
      | inr take ↦ rw take (hm, other_methods_named own segments routes h)
    ]

IsBucket-bucket_of :
    (method : Bytes) (routes : Routes) → IsTable routes → IsBucket (bucket_of method routes)
unfolding bucket_of
IsBucket-bucket_of method [] h = (tt, tt)
IsBucket-bucket_of method ((key, bucket) ∷ routes) (hb, hk, h) =
    elim (Bool-cases (bytes_eq key method)) [
      | inl same ↦ rw same hb
      | inr other ↦ rw other (IsBucket-bucket_of method routes h)
    ]

-- The response when no route of the request's own method matches.
abbrev pub IsMiss : List Bytes → HttpResponse → Type 0
IsMiss [] response = response.status ≡ 404
IsMiss (method ∷ methods) response =
    (response.status ≡ 405)
    × (get (codes "allow") response.headers ≡ some (listed (method ∷ methods)))

allow_name : header_name_equals (codes "allow") (codes "allow") ≡ true
unfolding header_name_equals ascii_lower codes
allow_name = refl

listed-ne : (name : Bytes) (names : List Bytes) → name ≢ [] → listed (name ∷ names) ≢ []
unfolding listed
listed-ne [] names h = absurd (h refl)
listed-ne (c ∷ name) [] h = cons-ne-nil c name
listed-ne (c ∷ name) (next ∷ names) h = cons-ne-nil c _

IsMiss-missed : (methods : List Bytes) → AreNames methods → IsMiss methods (missed (listed methods))
unfolding missed make_error_response with_header is_empty listed
IsMiss-missed [] h = refl
IsMiss-missed (method ∷ methods) h =
    rw (is_empty-ne (listed (method ∷ methods)) (listed-ne method methods h.0)) (
      refl,
      rw ((get_all-set (codes "allow") (codes "allow") (listed (method ∷ methods)) _).1, allow_name)
          refl,
    )

-- The answers to a request, one for each way that it can go.
pub data IsAnswer (routes : Routes) (request : HttpRequest) (answer : Attempt) : Type 0 where
  bad_request :
      (failure : Error) (response : HttpResponse)
      → normalized_target request ≡ err failure
      → answer ≡ returned response
      → response.status ≡ 400
      → IsAnswer routes request answer
  miss :
      (target : RequestTarget) (names : List Bytes) (response : HttpResponse)
      → normalized_target request ≡ ok target
      → All (λ entry. matches target.path_segments entry ≡ false) (bucket_of request.method routes)
      → answer ≡ returned response
      → AreOthers request.method target.path_segments routes names
      → IsMiss names response
      → IsAnswer routes request answer
  call :
      (target : RequestTarget) (winner : RouteEntry)
      → normalized_target request ≡ ok target
      → IsIn winner (bucket_of request.method routes)
      → matches target.path_segments winner ≡ true
      → All (GivesWay target.path_segments winner) (bucket_of request.method routes)
      → answer ≡ call_route request target winner
      → IsAnswer routes request answer

IsAnswer-answer :
    (routes : Routes) (request : HttpRequest) (target : RequestTarget)
    → IsTable routes
    → All (λ entry. entry.0 ≢ []) routes
    → normalized_target request ≡ ok target
    → IsAnswer routes request (
        answer routes request target
          (best_loop target.path_segments (bucket_of request.method routes) none))
unfolding answer
IsAnswer-answer routes request target h named good =
    let (lasts, own) = IsBucket-bucket_of request.method routes h in
    let names = other_methods_named request.method target.path_segments routes named in
    elim (best_loop_lem target.path_segments (bucket_of request.method routes) lasts own) [
      | no_route failed none' ↦
          miss target (other_methods request.method target.path_segments routes)
            (missed (allow_loop request.method target.path_segments routes [])) good none'
            (rw failed refl) (AreOthers-other_methods request.method target.path_segments routes)
            (rw
              (
                allow_loop_methods request.method target.path_segments routes [],
                allow_listed _ names,
              )
              (IsMiss-missed _ names))
      | a_route winner found at m others ↦ call target winner good at m others (rw found refl)
    ]

IsAnswer-route_target :
    (routes : Routes) (request : HttpRequest) (parsed : Outcome RequestTarget)
    → IsTable routes
    → All (λ entry. entry.0 ≢ []) routes
    → normalized_target request ≡ parsed
    → IsAnswer routes request (route_target routes request parsed)
unfolding route_target make_error_response
IsAnswer-route_target routes request (err failure) h named bad = bad_request failure _ bad refl refl
IsAnswer-route_target routes request (ok target) h named good =
    IsAnswer-answer routes request target h named good

-- `Route` answers 400 exactly on a target that cannot be read. Else, if a route of the request's
-- method matches, the handler of the most specific such route is called. If none matches the answer
-- is 405 with an Allow header that lists, in order, the other methods with a matching route, or 404
-- if there is no such method. No method of the table is the empty string.
pub route_lem :
    (routes : Routes) (request : HttpRequest)
    → IsTable routes
    → All (λ entry. entry.0 ≢ []) routes
    → IsAnswer routes request (route routes request)
unfolding route
route_lem routes request h named =
    IsAnswer-route_target routes request (normalized_target request) h named refl
