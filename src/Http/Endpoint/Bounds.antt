-- ===== src/Http/Endpoint/Bounds.antt =====
-- What an accepted endpoint is.
use opal_cpp.Common.{
  ℕ, ◌+◌, ◌-◌, ◌*◌, ◌≤◌, ◌<◌, ◌≡◌, ◌≢◌, refl, ap, arith, ◌&&◌, false, [], ◌∷◌, ◌++◌, Option, none,
  some, Bytes, codes, drop, ◌==◌, cut, cut_sound, Lacks, Outcome, ok, err, >>=-elim, Bool-cases,
  ◌⊎◌, inl, inr, cons-ne-nil, Error,
}
use mathlib.Core.Path.{subst}
use opal_cpp.Http.Uri.{slash}
use opal_cpp.Http.Endpoint.{
  Endpoint, is_nothing, strip_slashes, colon, last_colon, split_colon, read_port, checked_port,
  port_and_host, prefix_of, with_host, parse_rest, starts_with, parse_endpoint,
}

-- The text does not end in a slash.
abbrev pub NoSlashEnd : Bytes → Type 0
NoSlashEnd text = (front : Bytes) → text ≢ front ++ (slash ∷ [])

pub record IsEndpoint (endpoint : Endpoint) : Type 0 where
  pub scheme : (endpoint.scheme ≡ codes "http") ⊎ (endpoint.scheme ≡ codes "https")
  pub host : (endpoint.host ≢ []) × Lacks slash endpoint.host
  pub port : (0 < endpoint.port) × (endpoint.port ≤ 65535)
  pub path_prefix : NoSlashEnd endpoint.path_prefix

read_port_bound :
    (text : Bytes) (port result : ℕ)
    → port ≤ 65535
    → read_port port text ≡ some result
    → result ≤ 65535
unfolding read_port
read_port_bound [] port result h e = ground arith
read_port_bound (c ∷ text) port result h e =
    ground (arith, read_port_bound text (port * 10 + (c - 48)) result)

NoSlashEnd-nil : NoSlashEnd []
NoSlashEnd-nil [] e = cc
NoSlashEnd-nil (d ∷ front) e = cc

NoSlashEnd-cons :
    (c : ℕ) (text : Bytes)
    → (is_nothing text && c == slash) ≡ false
    → NoSlashEnd text
    → NoSlashEnd (c ∷ text)
unfolding is_nothing
NoSlashEnd-cons c [] stays h [] e = ground (arith, head_of e)
  where
    head_of : c ∷ [] ≡ slash ∷ [] → c ≡ slash
    head_of same = cc
NoSlashEnd-cons c (d ∷ text) stays h [] e = cc
NoSlashEnd-cons c text stays h (d ∷ front) e = h front (tail_of e)
  where
    tail_of : c ∷ text ≡ d ∷ (front ++ (slash ∷ [])) → text ≡ front ++ (slash ∷ [])
    tail_of same = cc

NoSlashEnd-strip_slashes : (text : Bytes) → NoSlashEnd (strip_slashes text)
unfolding strip_slashes
NoSlashEnd-strip_slashes [] = NoSlashEnd-nil
NoSlashEnd-strip_slashes (c ∷ text) =
    elim (Bool-cases (is_nothing (strip_slashes text) && c == slash)) [
      | inl gone ↦ rw gone NoSlashEnd-nil
      | inr stays ↦
          rw stays (NoSlashEnd-cons c (strip_slashes text) stays (NoSlashEnd-strip_slashes text))
    ]

NoSlashEnd-prefix_of : (path : Option Bytes) → NoSlashEnd (prefix_of path)
unfolding prefix_of
NoSlashEnd-prefix_of none = NoSlashEnd-nil
NoSlashEnd-prefix_of (some more) = NoSlashEnd-strip_slashes (slash ∷ more)

-- The part before the last colon lacks what the text lacks.
AllLack : Option (Bytes × Bytes) → Type 0
AllLack none = Unit
AllLack (some (host, digits)) = Lacks slash host

AllLack-last_colon :
    (c : ℕ) (text : Bytes) (at : Option (Bytes × Bytes))
    → c ≢ slash
    → AllLack at
    → AllLack (last_colon c text at)
unfolding last_colon AllLack
AllLack-last_colon c text (some (host, digits)) hc h = (hc, h)
AllLack-last_colon c text none hc h = elim (Bool-cases (c == colon)) [
  | inl here ↦ rw here tt
  | inr other ↦ rw other tt
]

AllLack-split_colon : (text : Bytes) → Lacks slash text → AllLack (split_colon text)
unfolding split_colon AllLack
AllLack-split_colon [] h = tt
AllLack-split_colon (c ∷ text) (hc, h) =
    AllLack-last_colon c text (split_colon text) hc (AllLack-split_colon text h)

abbrev IsPort : ℕ → Type 0
IsPort port = (0 < port) × (port ≤ 65535)

IsPort-checked :
    (host : Bytes) (o : Option ℕ) (found : ℕ × Bytes)
    → ((p : ℕ) → o ≡ some p → p ≤ 65535)
    → checked_port host o ≡ ok found
    → IsPort found.0 × (found.1 ≡ host)
unfolding checked_port
IsPort-checked host none found bound e = cc
IsPort-checked host (some p) found bound e = elim (Bool-cases (p == 0)) [
  | inl zero' ↦ absurd (err-ne-ok (rw zero' at e))
  | inr good ↦
      let small = bound p refl in
      let same : (p, host) ≡ found = ok_same (p, host) found (rw good at e) in
      rw (← same) ((ground arith, small), refl)
]
  where
    err-ne-ok : {failure : Error} → ◌≢◌ {A = Outcome (ℕ × Bytes)} (err failure) (ok found)
    err-ne-ok h = cc

    ok_same : (a b : ℕ × Bytes) → ok a ≡ ok b → a ≡ b
    ok_same a b h = ap (λ (o : Outcome (ℕ × Bytes)). elim o [ ok x ↦ x | err failure ↦ a ]) h

IsPort-port_and_host :
    (port : ℕ) (authority : Bytes) (at : Option (Bytes × Bytes)) (found : ℕ × Bytes)
    → IsPort port
    → Lacks slash authority
    → AllLack at
    → port_and_host port authority at ≡ ok found
    → IsPort found.0 × Lacks slash found.1
unfolding port_and_host AllLack
IsPort-port_and_host port authority none found hp h hs e =
    let same : (port, authority) ≡ found = ok_same (port, authority) found e in rw (← same) (hp, h)
  where
    ok_same : (a b : ℕ × Bytes) → ok a ≡ ok b → a ≡ b
    ok_same a b h' = ap (λ (o : Outcome (ℕ × Bytes)). elim o [ ok x ↦ x | err failure ↦ a ]) h'
IsPort-port_and_host port authority (some (host, digits)) found hp h hs e =
    let (good, same) =
      IsPort-checked host (read_port 0 digits) found
        (λ p read. read_port_bound digits 0 p (omega arith) read) e in
    (good, rw same hs)

IsEndpoint-with_host :
    (scheme path_prefix : Bytes) (found : ℕ × Bytes) (endpoint : Endpoint)
    → (scheme ≡ codes "http") ⊎ (scheme ≡ codes "https")
    → IsPort found.0
    → Lacks slash found.1
    → NoSlashEnd path_prefix
    → with_host scheme path_prefix found ≡ ok endpoint
    → IsEndpoint endpoint
unfolding with_host
IsEndpoint-with_host scheme path_prefix (port, []) endpoint hs hp hl ht e = cc
IsEndpoint-with_host scheme path_prefix (port, c ∷ host) endpoint hs hp hl ht e =
    let same : record { scheme = scheme; host = c ∷ host; port = port; path_prefix = path_prefix }
        ≡ endpoint =
      ap
        (λ (o : Outcome Endpoint). elim o [
          | ok x ↦ x
          | err failure ↦ record {
            scheme = scheme;
            host = c ∷ host;
            port = port;
            path_prefix = path_prefix;
          }
        ])
        e in
    subst IsEndpoint same
      (record { scheme = hs; host = (cons-ne-nil c host, hl); port = hp; path_prefix = ht })

IsEndpoint-parse_rest :
    (scheme : Bytes) (port : ℕ) (rest : Bytes) (endpoint : Endpoint)
    → (scheme ≡ codes "http") ⊎ (scheme ≡ codes "https")
    → IsPort port
    → parse_rest scheme port rest ≡ ok endpoint
    → IsEndpoint endpoint
unfolding parse_rest
IsEndpoint-parse_rest scheme port rest endpoint hs hp e =
    let (lacks, shape) = cut_sound slash rest (cut slash rest).0 (cut slash rest).1 refl in
    >>=-elim (port_and_host port (cut slash rest).0 (split_colon (cut slash rest).0))
      (λ found. with_host scheme (prefix_of (cut slash rest).1) found) e
      (λ found first made.
        let (good, clean) =
          IsPort-port_and_host port (cut slash rest).0 (split_colon (cut slash rest).0) found hp
            lacks (AllLack-split_colon _ lacks) first in
        IsEndpoint-with_host scheme (prefix_of (cut slash rest).1) found endpoint hs good clean
          (NoSlashEnd-prefix_of _) made)

-- Each endpoint that `ParseEndpoint` accepts has one of the two schemes, a host that is not empty and
-- holds no slash, a port from 1 to 65535, and a path prefix that does not end in a slash.
pub parse_endpoint-IsEndpoint :
    (url : Bytes) (endpoint : Endpoint) → parse_endpoint url ≡ ok endpoint → IsEndpoint endpoint
unfolding parse_endpoint
parse_endpoint-IsEndpoint url endpoint e = elim (Bool-cases (starts_with url (codes "http://"))) [
  | inl http ↦
      IsEndpoint-parse_rest (codes "http") 80 (drop 7 url) endpoint (inl refl)
        (omega arith, omega arith) (rw http at e)
  | inr other ↦ elim (Bool-cases (starts_with url (codes "https://"))) [
    | inl https ↦
        IsEndpoint-parse_rest (codes "https") 443 (drop 8 url) endpoint (inr refl)
          (omega arith, omega arith) (rw (other, https) at e)
    | inr neither ↦ absurd (err-ne-ok (rw (other, neither) at e))
  ]
]
  where
    err-ne-ok : {failure : Error} → ◌≢◌ {A = Outcome Endpoint} (err failure) (ok endpoint)
    err-ne-ok h = cc
