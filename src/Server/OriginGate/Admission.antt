-- ===== src/Server/OriginGate/Admission.antt =====
-- What the gate lets through.
use opal_cpp.Common.{
  ◌≡◌, ◌≢◌, ◌++◌, map, false, decimal, Lacks, Lacks-find, find-Lacks, find, Option-cases,
  ok-injective, Outcome, ok, err, err-ne-ok, ◌↔◌, ◌⊎◌, inl, inr, refl, ap, sym, ◌∙◌, arith, true,
  List, [], ◌∷◌, Option, none, some, Bytes, bytes_eq, bytes_eq_refl, bytes_eq_sound, codes,
  Bool-cases,
}
use mathlib.Core.Path.{subst}
use mathlib.Core.Option.{some-injective, none-ne-some}
use mathlib.Core.Bool.{false≢true}
use opal_cpp.Http.Headers.{ascii_lower, get_all}
use opal_cpp.Http.Endpoint.{Endpoint, parse_endpoint, is_nothing}
use opal_cpp.Http.Message.{HttpRequest}
use opal_cpp.Server.Router.Table.{make_error_response}
use opal_cpp.Server.OriginGate.{
  has_at, origin_of, normalize_origin, allowed_origins, with_entry, contains, is_allowed, forbidden,
  judge, gate,
}

-- The normal form of an origin: `null`, or an endpoint without a path prefix and without an at sign in
-- its host, written with its port. Letters are lowered first.
abbrev pub HasOrigin : Bytes → Bytes → Type 0
HasOrigin text origin =
    let lowered = map ascii_lower text in
    ((lowered ≡ codes "null") × (origin ≡ codes "null"))
    ⊎ ((lowered ≢ codes "null")
        × ((endpoint : Endpoint) × (parse_endpoint lowered ≡ ok endpoint)
            × (endpoint.path_prefix ≡ [])
            × Lacks b'@' endpoint.host
            × (origin
                ≡ endpoint.scheme
                  ++ (codes "://" ++ (endpoint.host ++ (codes ":" ++ decimal endpoint.port))))))

nothing_iff : (text : Bytes) → (is_nothing text ≡ true) ↔ (text ≡ [])
unfolding is_nothing
nothing_iff [] = ((λ e. refl), (λ e. refl))
nothing_iff (c ∷ text) = ((λ e. cc), (λ e. cc))

Lacks-has_at : (host : Bytes) → (has_at host ≡ false) ↔ Lacks b'@' host
unfolding has_at
Lacks-has_at host = elim (Option-cases (find b'@' host)) [
  | inl none' ↦ rw (has_at, none') ((λ e. Lacks-find b'@' host none'), (λ h. refl))
  | inr (i, found) ↦
      rw (has_at, found)
        ((λ e. cc), (λ h. absurd (none-ne-some _ (sym (find-Lacks b'@' host h) ∙ found))))
]

origin_of_iff :
    (parsed : Outcome Endpoint) (origin : Bytes)
    → (origin_of parsed ≡ some origin) ↔ (
        (endpoint : Endpoint) × (parsed ≡ ok endpoint)
        × (endpoint.path_prefix ≡ [])
        × Lacks b'@' endpoint.host
        × (origin
            ≡ endpoint.scheme
              ++ (codes "://" ++ (endpoint.host ++ (codes ":" ++ decimal endpoint.port)))))
unfolding origin_of
origin_of_iff (err failure) origin = ((λ e. cc), (λ h. absurd (err-ne-ok h.1)))
origin_of_iff (ok endpoint) origin = elim (Bool-cases (is_nothing endpoint.path_prefix)) [
  | inr path ↦ rw path (
    (λ e. cc),
    (λ h. absurd (
        false≢true (
          sym path
          ∙ (nothing_iff endpoint.path_prefix).1
              (ap (λ (x : Endpoint). x.path_prefix) (ok-injective h.1) ∙ h.2)))),
  )
  | inl no_path ↦ elim (Bool-cases (has_at endpoint.host)) [
    | inl at ↦
        rw (no_path, at)
          (
            (λ e. cc),
            (λ h. absurd (
                false≢true (
                  sym (
                    (Lacks-has_at endpoint.host).1
                      (subst (λ (x : Endpoint). Lacks b'@' x.host) (sym (ok-injective h.1)) h.3))
                  ∙ at))),
          )
    | inr not_at ↦
        rw (no_path, not_at)
          (
            (λ e. (
              endpoint,
              refl,
              (nothing_iff endpoint.path_prefix).0 no_path,
              (Lacks-has_at endpoint.host).0 not_at,
              sym (some-injective _ _ e),
            )),
            (λ h.
                ap
                  (λ (x : Endpoint).
                    some (x.scheme ++ (codes "://" ++ (x.host ++ (codes ":" ++ decimal x.port)))))
                  (ok-injective h.1)
                ∙ ap (λ (t : Bytes). some t) (sym h.4)),
          )
  ]
]

normalize_iff :
    (text origin : Bytes) → (normalize_origin text ≡ some origin) ↔ HasOrigin text origin
unfolding normalize_origin
normalize_iff text origin = elim (Bool-cases (bytes_eq (map ascii_lower text) (codes "null"))) [
  | inl null' ↦
      let same : map ascii_lower text ≡ codes "null" = bytes_eq_sound _ _ null' in
      rw null' (
        (λ e. inl (same, sym (some-injective _ _ e) ∙ same)),
        (λ h. elim h [
          | inl (_, is_null) ↦ ap (λ (t : Bytes). some t) (same ∙ sym is_null)
          | inr (not_null, more) ↦ absurd (not_null same)
        ]),
      )
  | inr other ↦
      let differ : map ascii_lower text ≢ codes "null" =
        λ same. false≢true (sym other ∙ rw same (bytes_eq_refl (codes "null"))) in
      rw other (
        (λ e. inr (differ, (origin_of_iff (parse_endpoint (map ascii_lower text)) origin).0 e)),
        (λ h. elim h [
          | inl (is_null, _) ↦ absurd (differ is_null)
          | inr (not_null, more) ↦
              (origin_of_iff (parse_endpoint (map ascii_lower text)) origin).1 more
        ]),
      )
]

-- The configured entries of which one has the same normal form.
abbrev pub IsConfigured : List Bytes → Bytes → Type 0
IsConfigured [] origin = ⊥
IsConfigured (entry ∷ entries) origin = HasOrigin entry origin ⊎ IsConfigured entries origin

with_entry_cases :
    (entry : Option Bytes) (later : Option (List Bytes)) (allowed : List Bytes)
    → with_entry entry later ≡ some allowed
    → (normalized : Bytes) × (rest : List Bytes) × (entry ≡ some normalized)
      × (later ≡ some rest)
      × (normalized ∷ rest ≡ allowed)
unfolding with_entry
with_entry_cases none later allowed e = cc
with_entry_cases (some normalized) none allowed e = cc
with_entry_cases (some normalized) (some rest) allowed e =
    (normalized, rest, refl, refl, some-injective _ _ e)

contains-cons :
    (normalized : Bytes) (rest : List Bytes) (entry origin : Bytes) (Later : Type 0)
    → normalize_origin entry ≡ some normalized
    → (contains rest origin ≡ true) ↔ Later
    → (contains (normalized ∷ rest) origin ≡ true) ↔ (HasOrigin entry origin ⊎ Later)
unfolding contains
contains-cons normalized rest entry origin Later e ih = (
  λ h. elim (Bool-cases (bytes_eq normalized origin)) [
    | inl same ↦ inl (
        (normalize_iff entry origin).0
          (e ∙ ap (λ (t : Bytes). some t) (bytes_eq_sound normalized origin same)))
    | inr other ↦ inr (ih.0 (rw other at h))
  ],
  λ h. elim h [
    | inl here ↦
        let same : normalized ≡ origin =
          some-injective _ _ (sym e ∙ (normalize_iff entry origin).1 here) in
        rw (same, bytes_eq_refl origin) refl
    | inr later ↦ let found = ih.1 later in ground arith
  ],
)

nothing_contained : (origin : Bytes) → (contains [] origin ≡ true) ↔ ⊥
unfolding contains
nothing_contained origin = ((λ h. cc), (λ h. absurd h))

contains-IsConfigured :
    (entries allowed : List Bytes) (origin : Bytes)
    → allowed_origins entries ≡ some allowed
    → (contains allowed origin ≡ true) ↔ IsConfigured entries origin
unfolding allowed_origins
contains-IsConfigured [] allowed origin e =
    let same : [] ≡ allowed = some-injective _ _ e in rw (← same) (nothing_contained origin)
contains-IsConfigured (entry ∷ entries) allowed origin e =
    let (normalized, rest, here, later, same) =
      with_entry_cases (normalize_origin entry) (allowed_origins entries) allowed e in
    rw (← same) (
      contains-cons normalized rest entry origin (IsConfigured entries origin) here
        (contains-IsConfigured entries rest origin later))

-- What the gate is meant to let through: requests without an Origin, and those with one whose normal
-- form is that of a configured entry.
abbrev pub IsAdmitted : List Bytes → List Bytes → Type 0
IsAdmitted entries [] = Unit
IsAdmitted entries (origin ∷ []) =
    (normalized : Bytes) × HasOrigin origin normalized × IsConfigured entries normalized
IsAdmitted entries (origin ∷ second ∷ origins) = ⊥

is_allowed_iff :
    (entries allowed : List Bytes) (o : Option Bytes)
    → allowed_origins entries ≡ some allowed
    → (is_allowed allowed o ≡ true)
      ↔ ((normalized : Bytes) × (o ≡ some normalized) × IsConfigured entries normalized)
unfolding is_allowed
is_allowed_iff entries allowed none e = ((λ h. cc), (λ h. absurd (none-ne-some _ h.1)))
is_allowed_iff entries allowed (some origin) e = (
  λ h. (origin, refl, (contains-IsConfigured entries allowed origin e).0 h),
  λ h.
      let same : origin ≡ h.0 = some-injective _ _ h.1 in
      rw same ((contains-IsConfigured entries allowed h.0 e).1 h.2),
)

judge_lem :
    (entries allowed origins : List Bytes)
    → allowed_origins entries ≡ some allowed
    → ((judge allowed origins ≡ none) × IsAdmitted entries origins)
      ⊎ ((judge allowed origins ≡ some forbidden) × ¬ IsAdmitted entries origins)
unfolding judge
judge_lem entries allowed [] e = inl (refl, tt)
judge_lem entries allowed (origin ∷ second ∷ origins) e = inr (refl, λ h. h)
judge_lem entries allowed (origin ∷ []) e =
    elim (Bool-cases (is_allowed allowed (normalize_origin origin))) [
      | inl good ↦
          let (normalized, found, configured) =
            (is_allowed_iff entries allowed (normalize_origin origin) e).0 good in
          inl (rw good refl, (normalized, (normalize_iff origin normalized).0 found, configured))
      | inr bad ↦ inr (
        rw bad refl,
        λ h. false≢true (
            sym bad
            ∙ (is_allowed_iff entries allowed (normalize_origin origin) e).1
                (h.0, (normalize_iff origin h.0).1 h.1, h.2)),
      )
    ]

-- Built from entries that all have a normal form, the gate lets a request through exactly when it
-- has no Origin header, or one whose normal form is that of a configured entry; every other request
-- is refused with a 403. A normal form is `null`, or the scheme, host and port of what ParseEndpoint
-- reads, if that has no path prefix and no at sign in its host, all in lower case. So slashes behind the
-- authority are dropped, and a query stays in the host.
pub gate_lem :
    (entries allowed : List Bytes) (request : HttpRequest)
    → allowed_origins entries ≡ some allowed
    → ((gate allowed request ≡ none)
        × IsAdmitted entries (get_all (codes "origin") request.headers))
      ⊎ ((gate allowed request ≡ some forbidden)
          × (forbidden.status ≡ 403)
          × ¬ IsAdmitted entries (get_all (codes "origin") request.headers))
unfolding gate forbidden make_error_response
gate_lem entries allowed request e =
    elim (judge_lem entries allowed (get_all (codes "origin") request.headers) e) [
      | inl passed ↦ inl passed
      | inr (refused, why) ↦ inr (refused, refl, why)
    ]
