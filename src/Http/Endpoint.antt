-- ===== src/Http/Endpoint.antt =====
-- `ParseEndpoint` of runtime/src/http/uri.cc.
pub mod Bounds
mod Runs
use opal_cpp.Common.{
  ℕ, zero, suc, ◌+◌, ◌-◌, ◌*◌, Bool, true, false, not, ◌&&◌, ◌||◌, List, [], ◌∷◌, ◌++◌, Option,
  none, some, Bytes, bytes_eq, codes, length, take, drop, ltb, ◌==◌, if◌then◌else◌, cut, Outcome,
  ok, err, ◌>>=◌, validation_error, Error,
}
use opal_cpp.Http.Uri.{slash}

pub record Endpoint : Type 0 where
  pub scheme : Bytes
  pub host : Bytes
  pub port : ℕ
  pub path_prefix : Bytes

abbrev pub colon : ℕ
colon = b':'

unfoldable pub is_nothing : Bytes → Bool
is_nothing [] = true
is_nothing (c ∷ text) = false

-- `while (prefix.ends_with('/')) prefix.remove_suffix(1)`.
unfoldable pub strip_slashes : Bytes → Bytes
strip_slashes [] = []
strip_slashes (c ∷ text) =
    let rest = strip_slashes text in if is_nothing rest && c == slash then [] else c ∷ rest

-- The parts around `authority.rfind(':')`: the last colon of the text behind a character, or that
-- character itself.
unfoldable pub last_colon : ℕ → Bytes → Option (Bytes × Bytes) → Option (Bytes × Bytes)
last_colon c text none = if c == colon then some ([], text) else none
last_colon c text (some (host, digits)) = some (c ∷ host, digits)

unfoldable pub split_colon : Bytes → Option (Bytes × Bytes)
split_colon [] = none
split_colon (c ∷ text) = last_colon c text (split_colon text)

-- The loop over the digits of the port; `none` where it fails.
unfoldable pub read_port : ℕ → Bytes → Option ℕ
read_port port [] = some port
read_port port (c ∷ text) =
    let next = port * 10 + (c - b'0') in
    let rest = read_port next text in
    if ltb c b'0' || ltb b'9' c || ltb 65535 next then none else rest

pub port_error : Error
port_error = validation_error (codes "endpoint: invalid port")

unfoldable pub checked_port : Bytes → Option ℕ → Outcome (ℕ × Bytes)
checked_port host none = err port_error
checked_port host (some port) = if port == 0 then err port_error else ok (port, host)

-- The port and the host of an authority.
unfoldable pub port_and_host : ℕ → Bytes → Option (Bytes × Bytes) → Outcome (ℕ × Bytes)
port_and_host port authority none = ok (port, authority)
port_and_host port authority (some (host, digits)) = checked_port host (read_port 0 digits)

unfoldable pub prefix_of : Option Bytes → Bytes
prefix_of none = []
prefix_of (some more) = strip_slashes (slash ∷ more)

unfoldable pub with_host : Bytes → Bytes → ℕ × Bytes → Outcome Endpoint
with_host scheme path_prefix (port, []) = err (validation_error (codes "endpoint: missing host"))
with_host scheme path_prefix (port, c ∷ host) =
    ok (record { scheme = scheme; host = c ∷ host; port = port; path_prefix = path_prefix })

-- The part behind the scheme.
unfoldable pub parse_rest : Bytes → ℕ → Bytes → Outcome Endpoint
parse_rest scheme port rest =
    let (authority, path) = cut slash rest in
    port_and_host port authority (split_colon authority) >>= λ found.
    with_host scheme (prefix_of path) found

unfoldable pub starts_with : Bytes → Bytes → Bool
starts_with text prefix = bytes_eq (take (length prefix) text) prefix

-- `ParseEndpoint`.
unfoldable pub parse_endpoint : Bytes → Outcome Endpoint
parse_endpoint url =
    if starts_with url (codes "http://")
    then parse_rest (codes "http") 80 (drop 7 url)
    else if starts_with url (codes "https://")
    then parse_rest (codes "https") 443 (drop 8 url)
    else err (
        validation_error
          (codes "endpoint: expected an http:// or https:// URL (got: " ++ (url ++ codes ")")))
