-- ===== src/Server/OriginGate/Runs.antt =====
-- Runs of the origin gate.
use opal_cpp.Common.{
  decimal, decimal_loop, ◌≡◌, refl, List, [], ◌∷◌, none, some, codes, Bytes, find, cut, bytes_eq,
  ◌⊎◌,
}
use opal_cpp.Http.Headers.{ascii_lower, get_all, header_name_equals}
use opal_cpp.Http.Message.{HttpRequest}
use opal_cpp.Http.Endpoint.{
  parse_endpoint, parse_rest, starts_with, port_and_host, checked_port, read_port, split_colon,
  last_colon, prefix_of, strip_slashes, is_nothing, with_host,
}
use opal_cpp.Server.OriginGate.{
  normalize_origin, origin_of, has_at, allowed_origins, with_entry, gate, judge, is_allowed,
  contains, forbidden,
}
use opal_cpp.Server.OriginGate.Admission.{IsAdmitted, gate_lem}

abbrev entries : List Bytes
entries = codes "https://A.com" ∷ codes "null" ∷ []

abbrev allowed : List Bytes
allowed = codes "https://a.com:443" ∷ codes "null" ∷ []

allowed_run : allowed_origins entries ≡ some allowed
unfolding allowed_origins with_entry normalize_origin origin_of has_at decimal decimal_loop
    ascii_lower parse_endpoint parse_rest starts_with port_and_host checked_port read_port
    split_colon last_colon prefix_of strip_slashes is_nothing with_host bytes_eq cut find codes
allowed_run = refl

abbrev ask : HttpRequest
ask = record {
  method = codes "GET";
  target = codes "/";
  headers = (codes "Origin", codes "https://a.com:443") ∷ [];
  body = [];
  peer_address = [];
}

gate_run : gate allowed ask ≡ none
unfolding gate judge is_allowed contains get_all header_name_equals normalize_origin origin_of
    has_at decimal decimal_loop ascii_lower parse_endpoint parse_rest starts_with port_and_host
    checked_port read_port split_colon last_colon prefix_of strip_slashes is_nothing with_host
    bytes_eq cut find codes
gate_run = refl

gate_lem_example :
    ((gate allowed ask ≡ none) × IsAdmitted entries (get_all (codes "origin") ask.headers))
    ⊎ ((gate allowed ask ≡ some forbidden)
        × (forbidden.status ≡ 403)
        × ¬ IsAdmitted entries (get_all (codes "origin") ask.headers))
gate_lem_example = gate_lem entries allowed ask allowed_run

-- A path of slashes only and a query stay unnoticed.
normalize_slash_run : normalize_origin (codes "https://a.com/") ≡ some (codes "https://a.com:443")
unfolding normalize_origin origin_of has_at decimal decimal_loop ascii_lower parse_endpoint
    parse_rest starts_with port_and_host checked_port read_port split_colon last_colon prefix_of
    strip_slashes is_nothing with_host bytes_eq cut find codes
normalize_slash_run = refl

normalize_query_run :
    normalize_origin (codes "https://a.com?x") ≡ some (codes "https://a.com?x:443")
unfolding normalize_origin origin_of has_at decimal decimal_loop ascii_lower parse_endpoint
    parse_rest starts_with port_and_host checked_port read_port split_colon last_colon prefix_of
    strip_slashes is_nothing with_host bytes_eq cut find codes
normalize_query_run = refl
