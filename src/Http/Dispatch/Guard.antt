-- ===== src/Http/Dispatch/Guard.antt =====
-- What the guard around a handler promises.
use opal_cpp.Common.{
  ℕ, ◌≤◌, ◌<◌, ◌≡◌, refl, ap, sym, ◌^◌, ◌∙◌, arith, true, false, ◌||◌, List, [], ◌∷◌, Option, none,
  some, Bytes, codes, ◌⊎◌, inl, inr, Bool-cases, Option-cases,
}
use mathlib.Core.Option.{some-injective}
use mathlib.Core.Bool.{false≢true}
use opal_cpp.Http.Headers.{Headers, header_name_equals, ascii_lower, get, get_all, has, set}
use opal_cpp.Http.Headers.Store.{get_all-set, get_all-remove, get-get_all, first_of}
use opal_cpp.Http.Message.{HttpRequest, HttpResponse}
use opal_cpp.Http.TraceContext.{TraceContext, parse_traceparent, format_traceparent}
use opal_cpp.Http.TraceContext.Parse.{IsContext, parse-format, parse_traceparent-IsContext}
use opal_cpp.Http.TraceContext.Mint.{IsContext-generate}
use opal_cpp.Http.Dispatch.{
  Attempt, returned, threw, RequestHandler, is_parsed, is_one_identity, with_identity,
  ensure_inbound_trace_identity, value_or_empty, trace_id_or_empty, request_trace_id,
  internal_error, correlate_server_error, is_below_500, contained, invoke_handler_guarded,
}

-- A request whose only traceparent parses to a given well-formed context.
abbrev pub IsIdentified : HttpRequest → TraceContext → Type 0
IsIdentified request context =
    (value : Bytes) × (get_all (codes "traceparent") request.headers ≡ value ∷ [])
    × (parse_traceparent value ≡ some context)
    × IsContext context

IsOneIdentity : List Bytes → Type 0
IsOneIdentity values =
    (value : Bytes) × (context : TraceContext) × (values ≡ value ∷ [])
    × (parse_traceparent value ≡ some context)

is_one_identity_sound : (values : List Bytes) → is_one_identity values ≡ true → IsOneIdentity values
unfolding is_one_identity is_parsed IsOneIdentity
is_one_identity_sound [] e = cc
is_one_identity_sound (value ∷ second ∷ values) e = cc
is_one_identity_sound (value ∷ []) e = elim (Option-cases (parse_traceparent value)) [
  | inl none' ↦ absurd (false≢true (rw none' at e))
  | inr (context, found) ↦ (value, context, refl, found)
]

IsIdentified-kept :
    (request : HttpRequest)
    → is_one_identity (get_all (codes "traceparent") request.headers) ≡ true
    → (context : TraceContext) × IsIdentified request context
unfolding IsOneIdentity
IsIdentified-kept request e =
    let (value, context, one, found) = is_one_identity_sound _ e in
    (context, (value, one, found, parse_traceparent-IsContext value context found))

traceparent_name :
    (header_name_equals (codes "traceparent") (codes "traceparent") ≡ true)
    × (header_name_equals (codes "tracestate") (codes "traceparent") ≡ false)
    × (header_name_equals (codes "tracestate") (codes "tracestate") ≡ true)
unfolding header_name_equals ascii_lower codes
traceparent_name = (refl, refl, refl)

IsIdentified-minted :
    (context : TraceContext) (request : HttpRequest)
    → IsContext context
    → IsIdentified (with_identity context request) context
unfolding with_identity
IsIdentified-minted context request h = (
  format_traceparent context,
  rw
      (
        get_all-remove,
        traceparent_name.1,
        (get_all-set (codes "traceparent") (codes "traceparent") (format_traceparent context)
            request.headers).0,
        traceparent_name.0,
      )
      refl,
  parse-format context h,
  h,
)

tracestate_dropped :
    (context : TraceContext) (request : HttpRequest)
    → get_all (codes "tracestate") (with_identity context request).headers ≡ []
unfolding with_identity
tracestate_dropped context request = rw (get_all-remove, traceparent_name.2) refl

-- How a request is settled: one with a single well-formed traceparent is kept, and any other gets a
-- minted one in place of what it had, loses its tracestate and keeps the rest.
abbrev pub IsSettled : HttpRequest → HttpRequest → Type 0
IsSettled request request' =
    (((context : TraceContext) × IsIdentified request context) × (request' ≡ request))
    ⊎ (¬ ((context : TraceContext) × IsIdentified request context)
        × (get_all (codes "tracestate") request'.headers ≡ [])
        × ((name : Bytes)
            → header_name_equals (codes "traceparent") name ≡ false
            → header_name_equals (codes "tracestate") name ≡ false
            → get_all name request'.headers ≡ get_all name request.headers)
        × (request'.method ≡ request.method)
        × (request'.target ≡ request.target)
        × (request'.body ≡ request.body)
        × (request'.peer_address ≡ request.peer_address))

others_kept :
    (context : TraceContext) (request : HttpRequest) (name : Bytes)
    → header_name_equals (codes "traceparent") name ≡ false
    → header_name_equals (codes "tracestate") name ≡ false
    → get_all name (with_identity context request).headers ≡ get_all name request.headers
unfolding with_identity
others_kept context request name parent state =
    rw
      (
        get_all-remove,
        state,
        (get_all-set name (codes "traceparent") (format_traceparent context) request.headers).0,
        parent,
      )
      refl

is_one_identity_complete :
    (request : HttpRequest) (context : TraceContext)
    → IsIdentified request context
    → is_one_identity (get_all (codes "traceparent") request.headers) ≡ true
unfolding is_one_identity is_parsed
is_one_identity_complete request context (value, one, found, h) = rw (one, found) refl

IsSettled-minted :
    (context : TraceContext) (request : HttpRequest)
    → is_one_identity (get_all (codes "traceparent") request.headers) ≡ false
    → IsSettled request (with_identity context request)
unfolding with_identity
IsSettled-minted context request bad = inr (
  (λ identified. false≢true (sym bad ∙ is_one_identity_complete request identified.0 identified.1)),
  tracestate_dropped context request,
  others_kept context request,
  refl,
  refl,
  refl,
  refl,
)

-- What is done on either outcome of the generator.
after_generate :
    (request request' : HttpRequest) (drawn' : ℕ) (generated : Option (TraceContext × ℕ))
    → elim generated as (λ o. Option (HttpRequest × ℕ)) [
      | none ↦ none
      | some t ↦ some (with_identity t.0 request, t.1)
    ]
      ≡ some (request', drawn')
    → (context : TraceContext) × (n : ℕ) × (generated ≡ some (context, n))
      × (with_identity context request ≡ request')
after_generate request request' drawn' none e = cc
after_generate request request' drawn' (some (context, n)) e =
    (context, n, refl, ap (λ (t : HttpRequest × ℕ). t.0) (some-injective _ _ e))

-- After `EnsureInboundTraceIdentity` the request has exactly one traceparent, which parses to a
-- well-formed context. A request that had such a one is untouched. Any other loses its tracestate, and
-- keeps its other headers, method, target, body and peer address.
pub ensure_inbound_trace_identity_lem :
    (fuel : ℕ) (engine : ℕ → ℕ) (drawn : ℕ) (request request' : HttpRequest) (drawn' : ℕ)
    → ensure_inbound_trace_identity fuel engine drawn request ≡ some (request', drawn')
    → ((context : TraceContext) × IsIdentified request' context) × IsSettled request request'
unfolding ensure_inbound_trace_identity
ensure_inbound_trace_identity_lem fuel engine drawn request request' drawn' e =
    elim (Bool-cases (is_one_identity (get_all (codes "traceparent") request.headers))) [
      | inl one ↦
          let same : request ≡ request' =
            ap (λ (t : HttpRequest × ℕ). t.0) (some-injective _ _ (rw one at e)) in
          rw (← same) (IsIdentified-kept request one, inl (IsIdentified-kept request one, refl))
      | inr bad ↦
          let (context, n, generated, same) =
            after_generate request request' drawn' _ (rw bad at e) in
          rw (← same) (
            (
              context,
              IsIdentified-minted context request
                  (IsContext-generate fuel engine drawn context n generated),
            ),
            IsSettled-minted context request bad,
          )
    ]

correlation_name : header_name_equals (codes "x-correlation-id") (codes "x-correlation-id") ≡ true
unfolding header_name_equals ascii_lower codes
correlation_name = refl

request_trace_id_lem :
    (request : HttpRequest) (context : TraceContext)
    → IsIdentified request context
    → request_trace_id request ≡ context.trace_id
unfolding request_trace_id trace_id_or_empty value_or_empty first_of
request_trace_id_lem request context (value, one, found, h) = rw (get-get_all, one, found) refl

-- How the guard's response stands to what the handler did.
abbrev pub IsCorrelated : TraceContext → Attempt → HttpResponse → Type 0
IsCorrelated context (returned given) response =
    ((response ≡ given)
      × ((given.status < 500)
          ⊎ (2 ^ 31 ≤ given.status)
          ⊎ (has (codes "x-correlation-id") given.headers ≡ true)))
    ⊎ ((500 ≤ given.status)
        × (given.status < 2 ^ 31)
        × (has (codes "x-correlation-id") given.headers ≡ false)
        × (response.status ≡ given.status)
        × (response.body ≡ given.body)
        × (get (codes "x-correlation-id") response.headers ≡ some context.trace_id))
IsCorrelated context (threw what) response =
    (response.status ≡ 500)
    × (get (codes "x-correlation-id") response.headers ≡ some context.trace_id)

correlation_set :
    (id : Bytes) (headers : Headers)
    → get (codes "x-correlation-id") (set (codes "x-correlation-id") id headers) ≡ some id
correlation_set id headers =
    rw
      (
        (get_all-set (codes "x-correlation-id") (codes "x-correlation-id") id headers).1,
        correlation_name,
      )
      refl

IsCorrelated-contained :
    (request : HttpRequest) (context : TraceContext) (attempt : Attempt)
    → IsIdentified request context
    → IsCorrelated context attempt (contained request attempt).0
unfolding contained correlate_server_error internal_error is_below_500
IsCorrelated-contained request context (threw what) h =
    (refl, correlation_set _ _ ∙ ap (λ t. some t) (request_trace_id_lem request context h))
IsCorrelated-contained request context (returned given) h =
    elim (Bool-cases (is_below_500 given.status || has (codes "x-correlation-id") given.headers)) [
      | inl keep ↦ inl (rw keep refl, kept_by keep)
      | inr change ↦ inr (
          rw change (
            ground arith,
            ground arith,
            ground arith,
            refl,
            refl,
            correlation_set _ _ ∙ ap (λ t. some t) (request_trace_id_lem request context h),
          ))
    ]
  where
    kept_by :
        (is_below_500 given.status || has (codes "x-correlation-id") given.headers) ≡ true
        → (given.status < 500)
          ⊎ (2 ^ 31 ≤ given.status)
          ⊎ (has (codes "x-correlation-id") given.headers ≡ true)
    kept_by keep = ground arith

after_ensure :
    (handler : RequestHandler) (response : HttpResponse) (log : Bytes)
    (ensured : Option (HttpRequest × ℕ))
    → elim ensured as (λ o. Option (HttpResponse × Bytes)) [
      | none ↦ none
      | some t ↦ some (contained t.0 (handler t.0))
    ]
      ≡ some (response, log)
    → (request : HttpRequest) × (n : ℕ) × (ensured ≡ some (request, n))
      × ((contained request (handler request)).0 ≡ response)
after_ensure handler response log none e = cc
after_ensure handler response log (some (request, n)) e =
    (request, n, refl, ap (λ (t : HttpResponse × Bytes). t.0) (some-injective _ _ e))

-- A guarded handler runs on the request with one well-formed traceparent: on the request itself if it
-- has one, and else on the request with a minted one. If it throws, the response is a 500 with the
-- trace id as its correlation id. If it returns a response below 500, or one with a correlation id, that
-- response is kept; any other gets the trace id as its correlation id and keeps its status and body.
pub invoke_handler_guarded_lem :
    (fuel : ℕ) (engine : ℕ → ℕ) (drawn : ℕ) (handler : RequestHandler) (request : HttpRequest)
    (response : HttpResponse) (log : Bytes)
    → invoke_handler_guarded fuel engine drawn (some handler) request ≡ some (response, log)
    → (given : HttpRequest) × (context : TraceContext) × IsIdentified given context
      × IsSettled request given
      × IsCorrelated context (handler given) response
unfolding invoke_handler_guarded
invoke_handler_guarded_lem fuel engine drawn handler request response log e =
    let (given, n, ensured, same) = after_ensure handler response log _ e in
    let ((context, identified), kept) =
      ensure_inbound_trace_identity_lem fuel engine drawn request given n ensured in
    (
      given,
      context,
      identified,
      kept,
      rw (← same) (IsCorrelated-contained given context (handler given) identified),
    )
