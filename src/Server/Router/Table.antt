-- ===== src/Server/Router/Table.antt =====
-- `Router` of runtime/src/server/router.cc: the routes by method, `Add` and `Route`.
pub mod Register
pub mod Best
pub mod Answer
mod Runs
use opal_cpp.Common.{
  ℕ, Bool, true, false, not, ◌&&◌, ◌||◌, List, [], ◌∷◌, ◌++◌, Option, none, some, Bytes, codes,
  bytes_eq, ◌==◌, ltb, if◌then◌else◌, Outcome, ok, err, Error, validation_error,
}
use opal_cpp.Http.Headers.{Headers, set}
use opal_cpp.Http.Message.{HttpRequest, HttpResponse}
use opal_cpp.Http.Dispatch.{Attempt, returned, threw}
use opal_cpp.Http.Uri.{RequestTarget}
use opal_cpp.Server.Router.{
  Segment, PathLabels, parse_pattern, match_segments, more_specific, same_shape, is_empty,
  normalized_target,
}

pub record RequestContext : Type 0 where
  pub labels : PathLabels
  pub query_params : List (Bytes × Bytes)
  pub request : HttpRequest

abbrev pub RouteHandler : Type 0
RouteHandler = HttpRequest → RequestContext → Attempt

pub record RouteEntry : Type 0 where
  pub segments : List Segment
  pub handler : RouteHandler
  pub operation : Bytes

abbrev pub Bucket : Type 0
Bucket = List RouteEntry

abbrev pub Routes : Type 0
Routes = List (Bytes × Bucket)

-- The order of `std::string`.
unfoldable pub bytes_lt : Bytes → Bytes → Bool
bytes_lt a [] = false
bytes_lt [] (y ∷ b) = true
bytes_lt (x ∷ a) (y ∷ b) = ltb x y || (x == y && bytes_lt a b)

-- `routes_.find(method)`; a method that is absent has no routes.
unfoldable pub bucket_of : Bytes → Routes → Bucket
bucket_of method [] = []
bucket_of method ((key, bucket) ∷ routes) =
    if bytes_eq key method then bucket else bucket_of method routes

-- `routes_.try_emplace(method)`.
unfoldable pub try_emplace : Bytes → Routes → Routes
try_emplace method [] = (method, []) ∷ []
try_emplace method ((key, bucket) ∷ routes) =
    let later = try_emplace method routes in
    if bytes_eq key method
    then (key, bucket) ∷ routes
    else if bytes_lt method key
    then (method, []) ∷ (key, bucket) ∷ routes
    else (key, bucket) ∷ later

-- `bucket.push_back(entry)` in the bucket of a method that is there.
unfoldable pub push_back : Bytes → RouteEntry → Routes → Routes
push_back method entry [] = []
push_back method entry ((key, bucket) ∷ routes) =
    let later = push_back method entry routes in
    if bytes_eq key method then (key, bucket ++ (entry ∷ [])) ∷ routes else (key, bucket) ∷ later

unfoldable pub has_shape_of : List Segment → Bucket → Bool
has_shape_of segments [] = false
has_shape_of segments (existing ∷ bucket) =
    same_shape existing.segments segments || has_shape_of segments bucket

pub conflict_error : Bytes → Bytes → Error
conflict_error method pattern =
    validation_error (codes "router: conflicting route: " ++ (method ++ (codes " " ++ pattern)))

-- `Router::Add` from the parsed pattern on, with the table that it leaves behind.
unfoldable pub add_parsed :
    Bytes
    → Bytes
    → RouteHandler
    → Bytes
    → Routes
    → Outcome (List Segment)
    → Outcome {0} Unit × Routes
add_parsed method pattern handler operation routes (err failure) = (err failure, routes)
add_parsed method pattern handler operation routes (ok segments) =
    let routes' = try_emplace method routes in
    if has_shape_of segments (bucket_of method routes')
    then (err (conflict_error method pattern), routes')
    else (
      ok tt,
      push_back method (record { segments = segments; handler = handler; operation = operation })
          routes',
    )

-- `Router::Add`.
unfoldable pub add : Bytes → Bytes → RouteHandler → Bytes → Routes → Outcome {0} Unit × Routes
add method pattern handler operation routes =
    add_parsed method pattern handler operation routes (parse_pattern pattern)

-- `MakeErrorResponse`.
unfoldable pub make_error_response : ℕ → Bytes → Bytes → HttpResponse
make_error_response status code message = record {
  status = status;
  headers = set (codes "content-type") (codes "application/json") [];
  body = codes "{\"code\":\"" ++ (code ++ (codes "\",\"message\":\"" ++ (message ++ codes "\"}")));
  operation = [];
}

unfoldable pub matches : List Bytes → RouteEntry → Bool
matches segments route = (match_segments route.segments segments).0

-- What one matching route makes of the best so far.
unfoldable pub better : RouteEntry → Option RouteEntry → RouteEntry
better route none = route
better route (some best) = if more_specific route.segments best.segments then route else best

-- The scan of the request's own bucket.
unfoldable pub best_loop : List Bytes → Bucket → Option RouteEntry → Option RouteEntry
best_loop segments [] best = best
best_loop segments (route ∷ bucket) best =
    best_loop segments bucket (if matches segments route then some (better route best) else best)

unfoldable pub any_match : List Bytes → Bucket → Bool
any_match segments [] = false
any_match segments (route ∷ bucket) = matches segments route || any_match segments bucket

-- The list of the other methods that match.
unfoldable pub allow_loop : Bytes → List Bytes → Routes → Bytes → Bytes
allow_loop own segments [] allow = allow
allow_loop own segments ((method, bucket) ∷ routes) allow = allow_loop own segments routes (
    if bytes_eq method own || not (any_match segments bucket)
    then allow
    else (if is_empty allow then allow else allow ++ codes ", ") ++ method)

unfoldable pub with_header : Bytes → Bytes → HttpResponse → HttpResponse
with_header name value response = record {
  status = response.status;
  headers = set name value response.headers;
  body = response.body;
  operation = response.operation;
}

unfoldable pub missed : Bytes → HttpResponse
missed allow =
    if is_empty allow
    then make_error_response 404 (codes "NotFound") (codes "no route matches the request")
    else with_header (codes "allow") allow
        (make_error_response 405 (codes "MethodNotAllowed") (codes "method not allowed"))

-- The operation's name, on the response of a handler that returns.
unfoldable pub stamp : Bytes → Attempt → Attempt
stamp operation (threw what) = threw what
stamp operation (returned response) =
    if is_empty operation
    then returned response
    else returned (record {
      status = response.status;
      headers = response.headers;
      body = response.body;
      operation = operation;
    })

-- The call of the winning route's handler.
unfoldable pub call_route : HttpRequest → RequestTarget → RouteEntry → Attempt
call_route request target best = stamp best.operation (
    best.handler request (record {
      labels = (match_segments best.segments target.path_segments).1;
      query_params = target.query_params;
      request = request;
    }))

-- The answer, once the own bucket is scanned.
unfoldable pub answer : Routes → HttpRequest → RequestTarget → Option RouteEntry → Attempt
answer routes request target none =
    returned (missed (allow_loop request.method target.path_segments routes []))
answer routes request target (some best) = call_route request target best

-- `Router::Route` from the normalized target on.
unfoldable pub route_target : Routes → HttpRequest → Outcome RequestTarget → Attempt
route_target routes request (err failure) =
    returned (make_error_response 400 (codes "BadRequest") (codes "malformed request target"))
route_target routes request (ok target) =
    answer routes request target
      (best_loop target.path_segments (bucket_of request.method routes) none)

-- `Router::Route`.
unfoldable pub route : Routes → HttpRequest → Attempt
route routes request = route_target routes request (normalized_target request)
