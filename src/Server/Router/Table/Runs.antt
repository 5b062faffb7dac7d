-- ===== src/Server/Router/Table/Runs.antt =====
-- Runs of the route table.
use opal_cpp.Common.{
  ◌≡◌, ◌≢◌, ◌↔◌, refl, List, [], ◌∷◌, none, some, Bytes, codes, bytes_eq, ok, err, find, cut,
  cons-ne-nil, ◌⊎◌, inl, inr,
}
use opal_cpp.Http.Message.{HttpRequest}
use opal_cpp.Http.Dispatch.{returned}
use opal_cpp.Server.Router.{
  literal, label, Segment, parse_pattern, match_segments, match_loop, more_specific, same_shape,
  same_segment, rank, has_greedy, is_greedy, is_empty, emplace, is_braced, read_segment,
  read_braces, read_label, pattern_loop, pattern_behind, ends_with, last_of, but_last,
}
use opal_cpp.Server.Router.Table.{
  RouteEntry, RouteHandler, Bucket, Routes, add, add_parsed, try_emplace, push_back, bytes_lt,
  bucket_of, has_shape_of, conflict_error, best_loop, better, matches, route,
}
use opal_cpp.Server.Router.Table.Best.{
  IsBest, IsIn, HasOwnShapes, best_loop_lem, best_loop_unordered,
}
use opal_cpp.Server.Router.Table.Register.{IsTable, IsAdded, add_lem}
use opal_cpp.Server.Router.Table.Answer.{IsAnswer, route_lem}

abbrev greet : RouteHandler
greet request context =
    returned (record { status = 200; headers = []; body = codes "hi"; operation = [] })

abbrev entry : List Segment → RouteEntry
entry segments = record { segments = segments; handler = greet; operation = codes "Greet" }

abbrev exact : RouteEntry
exact = entry (record { kind = literal; text = codes "new" } ∷ [])

abbrev any : RouteEntry
any = entry (record { kind = label; text = codes "id" } ∷ [])

abbrev both : Bucket
both = any ∷ exact ∷ []

abbrev both' : Bucket
both' = exact ∷ any ∷ []

own_shapes : HasOwnShapes both × HasOwnShapes both'
unfolding same_shape same_segment
own_shapes = (((refl, tt), (tt, tt)), ((refl, tt), (tt, tt)))

abbrev asked : List Bytes
asked = codes "new" ∷ []

best_run : best_loop asked both none ≡ some exact
unfolding best_loop better matches match_segments match_loop has_greedy is_greedy is_empty emplace
    bytes_eq more_specific rank codes
best_run = refl

best_loop_lem_example : IsBest asked both (best_loop asked both none)
best_loop_lem_example = best_loop_lem asked both (tt, (tt, tt)) own_shapes.0

same_routes : (r : RouteEntry) → IsIn r both ↔ IsIn r both'
same_routes r = ((λ h. swap h), (λ h. swap h))
  where
    swap : {a b : RouteEntry} → (a ≡ r) ⊎ ((b ≡ r) ⊎ ⊥) → (b ≡ r) ⊎ ((a ≡ r) ⊎ ⊥)
    swap (inl first) = inr (inl first)
    swap (inr (inl second)) = inl second
    swap (inr (inr nowhere)) = absurd nowhere

best_loop_unordered_example : best_loop asked both none ≡ best_loop asked both' none
best_loop_unordered_example =
    best_loop_unordered asked both both' (tt, (tt, tt)) own_shapes.0 (tt, (tt, tt)) own_shapes.1
      same_routes

abbrev table_one : Routes
table_one = (codes "GET", both) ∷ []

add_run :
    add (codes "POST") (codes "/new") greet (codes "Greet") table_one
    ≡ (ok tt, (codes "GET", both) ∷ (codes "POST", exact ∷ []) ∷ [])
unfolding add add_parsed try_emplace push_back bytes_lt bytes_eq bucket_of has_shape_of
    parse_pattern pattern_behind pattern_loop read_segment is_braced read_braces read_label
    ends_with last_of but_last is_greedy cut find codes
add_run = refl

add_conflict_run :
    add (codes "GET") (codes "/{name}") greet [] table_one
    ≡ (err (conflict_error (codes "GET") (codes "/{name}")), table_one)
unfolding add add_parsed try_emplace push_back bytes_lt bytes_eq bucket_of has_shape_of same_shape
    same_segment parse_pattern pattern_behind pattern_loop read_segment is_braced read_braces
    read_label ends_with last_of but_last is_greedy cut find codes
add_conflict_run = refl

table_one-IsTable : IsTable table_one
table_one-IsTable = (((tt, (tt, tt)), own_shapes.0), tt, tt)

add_lem_example :
    IsTable (add (codes "POST") (codes "/new") greet (codes "Greet") table_one).1
    × IsAdded
        (codes "POST")
        (codes "/new")
        greet
        (codes "Greet")
        table_one
        (add (codes "POST") (codes "/new") greet (codes "Greet") table_one)
add_lem_example =
    add_lem (codes "POST") (codes "/new") greet (codes "Greet") table_one table_one-IsTable

abbrev ask : HttpRequest
ask = record {
  method = codes "GET";
  target = codes "/new/";
  headers = [];
  body = [];
  peer_address = [];
}

get_name : codes "GET" ≢ []
unfolding codes
get_name = cons-ne-nil _ _

route_lem_example : IsAnswer table_one ask (route table_one ask)
route_lem_example = route_lem table_one ask table_one-IsTable (get_name, tt)
