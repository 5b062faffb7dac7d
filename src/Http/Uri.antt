-- ===== src/Http/Uri.antt =====
-- runtime/src/http/uri.cc and uri.h: percent encoding, query strings and request targets.
pub mod Percent
pub mod Loops
pub mod Target
mod Runs
use Prim.Native.Nat.{bit_and, bit_or}
use opal_cpp.Common.{
  ℕ, zero, suc, ◌+◌, Bool, true, false, not, ◌&&◌, ◌||◌, List, [], ◌∷◌, ◌++◌, map, Option, none,
  some, Bytes, codes, length, get_or, ltb, leb, ◌==◌, if◌then◌else◌, Outcome, ok, err, ◌>>=◌, Error,
  serialization_error, bytes_eq, cut, ◌-◌,
}
use opal_cpp.Common.Bits.{◌>>◌, ◌<<◌}

abbrev pub percent : ℕ
percent = b'%'

abbrev pub slash : ℕ
slash = b'/'

abbrev pub question : ℕ
question = b'?'

abbrev pub ampersand : ℕ
ampersand = b'&'

abbrev pub equals : ℕ
equals = b'='

-- `IsUnreserved`.
pub is_unreserved : ℕ → Bool
is_unreserved c =
    (leb b'A' c && leb c b'Z')
    || (leb b'a' c && leb c b'z')
    || (leb b'0' c && leb c b'9')
    || c == b'-'
    || c == b'_'
    || c == b'.'
    || c == b'~'

-- `kHex[n]`.
pub hex_digit : ℕ → ℕ
hex_digit n = get_or (codes "0123456789ABCDEF") n 0

-- `Encode`: what the loop appends for each byte.
pub encode : Bool → Bytes → Bytes
encode keep_slash [] = []
encode keep_slash (c ∷ text) =
    (if is_unreserved c || (keep_slash && c == slash)
      then c ∷ []
      else percent ∷ hex_digit (c >> 4) ∷ hex_digit (bit_and c 0xf) ∷ [])
    ++ encode keep_slash text

abbrev pub encode_path_segment : Bytes → Bytes
encode_path_segment = encode false

abbrev pub encode_greedy_path_segment : Bytes → Bytes
encode_greedy_path_segment = encode true

abbrev pub encode_query_component : Bytes → Bytes
encode_query_component = encode false

-- `HexValue`; `none` is -1.
pub hex_value : ℕ → Option ℕ
hex_value c =
    if leb b'0' c && leb c b'9'
    then some (c - b'0')
    else if leb b'A' c && leb c b'F'
    then some (c - b'A' + 10)
    else if leb b'a' c && leb c b'f'
    then some (c - b'a' + 10)
    else none

pub malformed_escape : Error
malformed_escape = serialization_error (codes "uri: malformed percent escape")

-- The byte of an escape; a digit past the end of the text is `none`.
pub escaped : Option ℕ → Option ℕ → Outcome ℕ
escaped (some high) (some low) = ok (bit_or (high << 4) low)
escaped _ _ = err malformed_escape

-- `PercentDecode`. The index is the list that is left, and `i += 2` drops two more.
pub percent_decode : Bytes → Outcome Bytes
percent_decode [] = ok []
percent_decode (c ∷ []) = elim (c == percent) [ true ↦ err malformed_escape | false ↦ ok (c ∷ []) ]
percent_decode (c ∷ h ∷ []) = elim (c == percent) [
  | true ↦ err malformed_escape
  | false ↦ percent_decode (h ∷ []) >>= λ out. ok (c ∷ out)
]
percent_decode (c ∷ h ∷ l ∷ text) = elim (c == percent) [
  | true ↦
      escaped (hex_value h) (hex_value l) >>= λ byte. percent_decode text >>= λ out. ok (byte ∷ out)
  | false ↦ percent_decode (h ∷ l ∷ text) >>= λ out. ok (c ∷ out)
]

-- `QueryString` is its `params_`.
pub record Param : Type 0 where
  pub key : Bytes
  pub value : Bytes
  pub flag : Bool

abbrev pub QueryString : Type 0
QueryString = List Param

pub add : Bytes → Bytes → QueryString → QueryString
add key value params =
    params
    ++ (record {
      key = encode_query_component key;
      value = encode_query_component value;
      flag = false;
    }
        ∷ [])

pub add_flag : Bytes → QueryString → QueryString
add_flag key params =
    params ++ (record { key = encode_query_component key; value = []; flag = true } ∷ [])

pub has_encoded : Bytes → QueryString → Bool
has_encoded encoded [] = false
has_encoded encoded (param ∷ params) = bytes_eq param.key encoded || has_encoded encoded params

pub has : Bytes → QueryString → Bool
has key params = has_encoded (encode_query_component key) params

-- The body of the loop of `ToString`, `i` its counter.
pub write_param : ℕ → Param → Bytes
write_param i param =
    (if ltb 0 i then ampersand ∷ [] else [])
    ++ (param.key ++ (if param.flag then [] else equals ∷ param.value))

pub write_params : ℕ → QueryString → Bytes
write_params i [] = []
write_params i (param ∷ params) = write_param i param ++ write_params (i + 1) params

pub to_string : QueryString → Bytes
to_string [] = []
to_string (param ∷ params) = question ∷ write_params 0 (param ∷ params)

pub record RequestTarget : Type 0 where
  pub path_segments : List Bytes
  pub query_params : List (Bytes × Bytes)

-- What the loop appends behind a trailing slash.
pub trailing_segment : Bytes → List Bytes
trailing_segment [] = [] ∷ []
trailing_segment (c ∷ path) = []

-- The loop over the path. The fuel is at least the length of `path`, which falls at every round, so
-- the path is empty when it runs out.
pub segments_loop : ℕ → Bytes → List Bytes → Outcome (List Bytes)
segments_loop fuel [] out = ok out
segments_loop zero (c ∷ path) out = ok out
segments_loop (suc fuel) (c ∷ path) out =
    let (raw, rest) = cut slash (c ∷ path) in
    percent_decode raw >>= λ segment. elim rest [
      | none ↦ ok (out ++ (segment ∷ []))
      | some more ↦ segments_loop fuel more ((out ++ (segment ∷ [])) ++ trailing_segment more)
    ]

pub or_empty : Option Bytes → Bytes
or_empty none = []
or_empty (some text) = text

-- One `key=value` pair of the query; an empty one adds nothing.
pub read_pair : Bytes → Outcome (List (Bytes × Bytes))
read_pair [] = ok []
read_pair (c ∷ pair) =
    let (raw_key, raw_value) = cut equals (c ∷ pair) in
    percent_decode raw_key >>= λ key.
    percent_decode (or_empty raw_value) >>= λ value. ok ((key, value) ∷ [])

-- The loop over the query, with fuel as above.
pub params_loop : ℕ → Bytes → List (Bytes × Bytes) → Outcome (List (Bytes × Bytes))
params_loop fuel [] out = ok out
params_loop zero (c ∷ query) out = ok out
params_loop (suc fuel) (c ∷ query) out =
    let (pair, rest) = cut ampersand (c ∷ query) in
    read_pair pair >>= λ param. elim rest [
      | none ↦ ok (out ++ param)
      | some more ↦ params_loop fuel more (out ++ param)
    ]

pub no_leading_slash : Error
no_leading_slash = serialization_error (codes "uri: request target must start with '/'")

-- `ParseRequestTarget` on the path and the query, once they are split.
pub parse_split : Bytes → Bytes → Outcome RequestTarget
parse_split [] query = err no_leading_slash
parse_split (c ∷ path) query =
    if c == slash
    then (segments_loop (length path) path [] >>= λ segments.
        params_loop (length query) query [] >>= λ params.
        ok (record { path_segments = segments; query_params = params }))
    else err no_leading_slash

pub parse_request_target : Bytes → Outcome RequestTarget
parse_request_target target =
    let (path, query) = cut question target in parse_split path (or_empty query)
