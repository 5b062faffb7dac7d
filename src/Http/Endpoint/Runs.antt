-- ===== src/Http/Endpoint/Runs.antt =====
-- Runs of `ParseEndpoint`.
use opal_cpp.Common.{◌≡◌, refl, codes, ok, err, find, cut, bytes_eq}
use opal_cpp.Http.Endpoint.{
  Endpoint, parse_endpoint, parse_rest, starts_with, port_and_host, checked_port, read_port,
  split_colon, last_colon, prefix_of, strip_slashes, is_nothing, with_host, port_error,
}
use opal_cpp.Http.Endpoint.Bounds.{IsEndpoint, parse_endpoint-IsEndpoint}

abbrev local : Endpoint
local = record {
  scheme = codes "http";
  host = codes "localhost";
  port = 8080;
  path_prefix = codes "/v1";
}

parse_run : parse_endpoint (codes "http://localhost:8080/v1//") ≡ ok local
unfolding parse_endpoint parse_rest starts_with port_and_host checked_port read_port split_colon
    last_colon prefix_of strip_slashes is_nothing with_host bytes_eq cut find codes
parse_run = refl

parse_port_run : parse_endpoint (codes "https://a:65536") ≡ err port_error
unfolding parse_endpoint parse_rest starts_with port_and_host checked_port read_port split_colon
    last_colon prefix_of strip_slashes is_nothing with_host bytes_eq cut find codes
parse_port_run = refl

parse_endpoint-IsEndpoint_example : IsEndpoint local
parse_endpoint-IsEndpoint_example =
    parse_endpoint-IsEndpoint (codes "http://localhost:8080/v1//") local parse_run
