-- ===== src/Server/OriginGate.antt =====
-- runtime/src/server/origin_gate.cc: admission by the Origin header. The set of allowed origins is
-- the list of its members.
pub mod Admission
mod Runs
use opal_cpp.Common.{
  decimal, ℕ, zero, suc, ◌+◌, ◌/◌, ◌%◌, Bool, true, false, not, ◌||◌, List, [], ◌∷◌, ◌++◌, Option,
  none, some, Bytes, bytes_eq, codes, map, ltb, ◌==◌, if◌then◌else◌, Outcome, ok, err, find,
}
use opal_cpp.Http.Headers.{ascii_lower, get_all}
use opal_cpp.Http.Message.{HttpRequest, HttpResponse}
use opal_cpp.Http.Endpoint.{Endpoint, parse_endpoint, is_nothing}
use opal_cpp.Server.Router.Table.{make_error_response}

pub has_at : Bytes → Bool
has_at host = elim (find b'@' host) [ none ↦ false | some i ↦ true ]

pub origin_of : Outcome Endpoint → Option Bytes
origin_of (err failure) = none
origin_of (ok endpoint) =
    if not (is_nothing endpoint.path_prefix) || has_at endpoint.host
    then none
    else some (
        endpoint.scheme ++ (codes "://" ++ (endpoint.host ++ (codes ":" ++ decimal endpoint.port))))

-- `NormalizeOrigin`.
pub normalize_origin : Bytes → Option Bytes
normalize_origin text =
    let lowered = map ascii_lower text in
    if bytes_eq lowered (codes "null") then some lowered else origin_of (parse_endpoint lowered)

-- The set that `RequireOrigin` builds; `none` where it is fatal.
pub with_entry : Option Bytes → Option (List Bytes) → Option (List Bytes)
with_entry none later = none
with_entry (some normalized) none = none
with_entry (some normalized) (some later) = some (normalized ∷ later)

pub allowed_origins : List Bytes → Option (List Bytes)
allowed_origins [] = some []
allowed_origins (entry ∷ entries) = with_entry (normalize_origin entry) (allowed_origins entries)

pub contains : List Bytes → Bytes → Bool
contains [] origin = false
contains (member ∷ members) origin = bytes_eq member origin || contains members origin

pub is_allowed : List Bytes → Option Bytes → Bool
is_allowed allowed none = false
is_allowed allowed (some normalized) = contains allowed normalized

pub forbidden : HttpResponse
forbidden = make_error_response 403 (codes "Forbidden") (codes "origin is not allowed")

pub judge : List Bytes → List Bytes → Option HttpResponse
judge allowed [] = none
judge allowed (origin ∷ []) =
    if is_allowed allowed (normalize_origin origin) then none else some forbidden
judge allowed (origin ∷ second ∷ origins) = some forbidden

-- The gate that `RequireOrigin` returns.
pub gate : List Bytes → HttpRequest → Option HttpResponse
gate allowed request = judge allowed (get_all (codes "origin") request.headers)
