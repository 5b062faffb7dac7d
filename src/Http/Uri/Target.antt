-- ===== src/Http/Uri/Target.antt =====
-- A request target that is written from segments and a query string is read back.
use opal_cpp.Common.{
  ℕ, ◌+◌, ◌<◌, ◌≡◌, ◌≢◌, refl, ap, sym, arith, true, false, List, [], ◌∷◌, ◌++◌, Option, none, some,
  Bytes, map, length, Outcome, ok, ◌>>=◌, ◌∙◌, append_assoc, append-nil, pieces, cut, AreBytes,
  Lacks, All, All-append, join, pieces-join, cut-Lacks, cut-append, lt→ltb, if◌then◌else◌,
}
use opal_cpp.Http.Uri.{
  percent_decode, encode, slash, ampersand, equals, question, segments_loop, read_pair, or_empty,
  parse_request_target, parse_split, encode_path_segment, encode_query_component, QueryString,
  Param, add, add_flag, to_string, write_params, write_param, is_unreserved,
}
use opal_cpp.Http.Uri.Percent.{percent_decode-encode, encode-Lacks}
use opal_cpp.Http.Uri.Loops.{decode_all, read_pairs, segments_loop_lem, params_loop_lem}

-- What the loops amount to, on a path and on a query.
pub read_path : Bytes → Outcome (List Bytes)
read_path [] = ok []
read_path (c ∷ path) = decode_all (pieces slash (c ∷ path))

abbrev pub read_query : Bytes → Outcome (List (Bytes × Bytes))
read_query query = read_pairs (pieces ampersand query)

segments_loop-read_path : (path : Bytes) → segments_loop (length path) path [] ≡ read_path path
unfolding read_path
segments_loop-read_path [] = unfold segments_loop in refl
segments_loop-read_path (c ∷ path) = segments_loop_lem c path

parse_split_lem :
    (path query : Bytes)
    → parse_split (slash ∷ path) query ≡ (
        read_path path >>= λ segments. read_query query >>= λ params.
        ok (record { path_segments = segments; query_params = params }))
unfolding parse_split
parse_split_lem path query = rw (segments_loop-read_path, params_loop_lem)

-- The parser splits the target at the first question mark, and reads the path and the query piece
-- by piece: its loops end, and give what a decoding of the pieces between the separators gives.
pub parse_request_target_lem :
    (path query : Bytes)
    → Lacks question path
    → parse_request_target ((slash ∷ path) ++ (question ∷ query)) ≡ (
        read_path path >>= λ segments. read_query query >>= λ params.
        ok (record { path_segments = segments; query_params = params }))
unfolding parse_request_target
parse_request_target_lem path query h =
    rw (cut-append question (slash ∷ path) query ((λ e. absurd (omega arith)), h))
      (unfold or_empty in parse_split_lem path query)

read_query-nil : read_query [] ≡ ok []
unfolding read_pairs pieces read_pair
read_query-nil = refl

parse_request_target_plain :
    (path : Bytes)
    → Lacks question path
    → parse_request_target (slash ∷ path)
      ≡ (read_path path >>= λ segments. ok (record { path_segments = segments; query_params = [] }))
unfolding parse_request_target
parse_request_target_plain path h =
    rw (cut-Lacks question (slash ∷ path) ((λ e. absurd (omega arith)), h))
      (unfold or_empty in parse_split_lem path [] ∙ simp read_query-nil)

decode_all-map :
    (segments : List Bytes)
    → All AreBytes segments
    → decode_all (map encode_path_segment segments) ≡ ok segments
unfolding decode_all
decode_all-map [] h = refl
decode_all-map (s ∷ segments) (hs, h) =
    rw (percent_decode-encode false s hs, decode_all-map segments h)

-- Encoded text lacks the separators.
encoded-Lacks :
    (text : Bytes)
    → AreBytes text
    → Lacks slash (encode false text)
      × Lacks question (encode false text)
      × Lacks ampersand (encode false text)
      × Lacks equals (encode false text)
unfolding is_unreserved
encoded-Lacks text h = (
  encode-Lacks slash refl (λ e. absurd (omega arith)) text h,
  encode-Lacks question refl (λ e. absurd (omega arith)) text h,
  encode-Lacks ampersand refl (λ e. absurd (omega arith)) text h,
  encode-Lacks equals refl (λ e. absurd (omega arith)) text h,
)

module _ (x c : ℕ) (apart : c ≢ x) where
  join-Lacks : (ps : List Bytes) → All (Lacks x) ps → Lacks x (join c ps)
  unfolding join
  join-Lacks [] h = tt
  join-Lacks (p ∷ []) (hp, _) = hp
  join-Lacks (p ∷ q ∷ ps) (hp, h) =
      All-append (λ y. y ≢ x) p (c ∷ join c (q ∷ ps)) hp (apart, join-Lacks (q ∷ ps) h)

-- A parameter as it was given: a key with its value, or a flag.
abbrev pub Entry : Type 0
Entry = Bytes × Option Bytes

pub add_entry : Entry → QueryString → QueryString
add_entry (key, none) params = add_flag key params
add_entry (key, some value) params = add key value params

-- The query string after a sequence of `Add` and `AddFlag`.
pub add_entries : List Entry → QueryString → QueryString
add_entries [] params = params
add_entries (e ∷ es) params = add_entries es (add_entry e params)

-- A flag with an empty key would leave nothing to read.
abbrev pub IsEntry : Entry → Type 0
IsEntry (key, none) = AreBytes key × (key ≢ [])
IsEntry (key, some value) = AreBytes key × AreBytes value

abbrev pub entry_pair : Entry → Bytes × Bytes
entry_pair (key, none) = (key, [])
entry_pair (key, some value) = (key, value)

param_of : Entry → Param
param_of (key, none) = record { key = encode_query_component key; value = []; flag = true }
param_of (key, some value) = record {
  key = encode_query_component key;
  value = encode_query_component value;
  flag = false;
}

add_entries_lem :
    (es : List Entry) (params : QueryString) → add_entries es params ≡ params ++ map param_of es
unfolding add_entries add_entry add add_flag param_of
add_entries_lem [] params = sym (append-nil params)
add_entries_lem ((key, none) ∷ es) params = add_entries_lem es _ ∙ append_assoc params _ _
add_entries_lem ((key, some value) ∷ es) params = add_entries_lem es _ ∙ append_assoc params _ _

param_text : Param → Bytes
param_text param = param.key ++ (if param.flag then [] else equals ∷ param.value)

write_param_later :
    (i : ℕ) (param : Param) → 0 < i → write_param i param ≡ ampersand ∷ param_text param
unfolding write_param param_text
write_param_later i param h = rw (lt→ltb 0 i h)

join-write_params :
    (i : ℕ) (x : Bytes) (params : QueryString)
    → 0 < i
    → x ++ write_params i params ≡ join ampersand (x ∷ map param_text params)
unfolding write_params join
join-write_params i x [] h = append-nil x
join-write_params i x (param ∷ params) h = rw (write_param_later i param h) (
    ap (λ t. x ++ (ampersand ∷ t))
      (join-write_params (i + 1) (param_text param) params (omega arith)))

to_string-join :
    (param : Param) (params : QueryString)
    → to_string (param ∷ params) ≡ question ∷ join ampersand (map param_text (param ∷ params))
unfolding to_string write_params write_param param_text
to_string-join param params =
    ap (λ t. question ∷ t) (join-write_params (0 + 1) (param_text param) params (omega arith))

read_pair-cut :
    (pair raw : Bytes) (rest : Option Bytes)
    → pair ≢ []
    → cut equals pair ≡ (raw, rest)
    → read_pair pair ≡ (
        percent_decode raw >>= λ key.
        percent_decode (or_empty rest) >>= λ value. ok ((key, value) ∷ []))
unfolding read_pair
read_pair-cut [] raw rest h e = absurd (h refl)
read_pair-cut (c ∷ pair) raw rest h e = rw e

encode-ne-nil : (key : Bytes) → AreBytes key → key ≢ [] → encode false key ≢ []
encode-ne-nil key h ne e = ne (unfold percent_decode in cc (percent_decode-encode false key h))

append-ne-nil : (xs : Bytes) (c : ℕ) (ys : Bytes) → xs ++ (c ∷ ys) ≢ []
append-ne-nil [] c ys e = cc
append-ne-nil (x ∷ xs) c ys e = cc

read_pair-param :
    (e : Entry) → IsEntry e → read_pair (param_text (param_of e)) ≡ ok (entry_pair e ∷ [])
unfolding param_text param_of or_empty
read_pair-param (key, none) (hk, ne) =
    let text = encode false key in
    rw
      (
        append-nil,
        read_pair-cut text text none (encode-ne-nil key hk ne)
            (cut-Lacks equals text (encoded-Lacks key hk).3),
        percent_decode-encode false key hk,
      )
      (unfold percent_decode in refl)
read_pair-param (key, some value) (hk, hv) =
    let text = encode false key in
    let behind = encode false value in
    rw (
      read_pair-cut (text ++ (equals ∷ behind)) text (some behind)
          (append-ne-nil text equals behind)
          (cut-append equals text behind (encoded-Lacks key hk).3),
      percent_decode-encode false key hk,
      percent_decode-encode false value hv,
    )

read_pairs-params :
    (es : List Entry)
    → All IsEntry es
    → read_pairs (map param_text (map param_of es)) ≡ ok (map entry_pair es)
unfolding read_pairs
read_pairs-params [] h = refl
read_pairs-params (e ∷ es) (he, h) = rw (read_pair-param e he, read_pairs-params es h)

param_text-Lacks : (e : Entry) → IsEntry e → Lacks ampersand (param_text (param_of e))
unfolding param_text param_of
param_text-Lacks (key, none) (hk, _) = rw append-nil (encoded-Lacks key hk).2
param_text-Lacks (key, some value) (hk, hv) =
    All-append (λ y. y ≢ ampersand) _ (equals ∷ encode false value) (encoded-Lacks key hk).2
      ((λ e. absurd (omega arith)), (encoded-Lacks value hv).2)

params-Lack :
    (es : List Entry) → All IsEntry es → All (Lacks ampersand) (map param_text (map param_of es))
params-Lack [] h = tt
params-Lack (e ∷ es) (he, h) = (param_text-Lacks e he, params-Lack es h)

-- The text behind the question mark.
query_text : List Entry → Bytes
query_text es = join ampersand (map param_text (map param_of es))

read_query-text :
    (e : Entry) (es : List Entry)
    → All IsEntry (e ∷ es)
    → read_query (query_text (e ∷ es)) ≡ ok (map entry_pair (e ∷ es))
unfolding query_text
read_query-text e es h =
    rw
      (pieces-join ampersand (map param_text (map param_of (e ∷ es))) (λ q. cc)
        (params-Lack (e ∷ es) h))
      (read_pairs-params (e ∷ es) h)

-- The path behind the first slash.
pub path_text : List Bytes → Bytes
path_text segments = join slash (map encode_path_segment segments)

segments-Lack :
    (segments : List Bytes)
    → All AreBytes segments
    → All (Lacks slash) (map encode_path_segment segments)
      × All (Lacks question) (map encode_path_segment segments)
segments-Lack [] h = (tt, tt)
segments-Lack (s ∷ segments) (hs, h) =
    let rest = segments-Lack segments h in
    (((encoded-Lacks s hs).0, rest.0), ((encoded-Lacks s hs).1, rest.1))

pieces-path_text :
    (s : Bytes) (segments : List Bytes)
    → All AreBytes (s ∷ segments)
    → pieces slash (path_text (s ∷ segments)) ≡ map encode_path_segment (s ∷ segments)
unfolding path_text
pieces-path_text s segments h =
    pieces-join slash (map encode_path_segment (s ∷ segments)) (λ q. cc)
      (segments-Lack (s ∷ segments) h).0

no_query : (text : Bytes) → text ++ to_string (add_entries [] []) ≡ text
unfolding to_string add_entries
no_query text = append-nil text

to_string-entries :
    (e : Entry) (es : List Entry)
    → to_string (add_entries (e ∷ es) []) ≡ question ∷ query_text (e ∷ es)
unfolding query_text
to_string-entries e es =
    ap to_string (add_entries_lem (e ∷ es) []) ∙ to_string-join (param_of e) (map param_of es)

read_path-pieces :
    (path : Bytes) (segments : List Bytes)
    → segments ≢ [] ∷ []
    → decode_all (pieces slash path) ≡ ok segments
    → read_path path ≡ ok segments
unfolding read_path pieces decode_all percent_decode
read_path-pieces [] segments one e = absurd (one (cc))
read_path-pieces (c ∷ path) segments one e = e

read_path-text :
    (segments : List Bytes)
    → All AreBytes segments
    → segments ≢ [] ∷ []
    → read_path (path_text segments) ≡ ok segments
read_path-text [] h one = unfold read_path path_text join in refl
read_path-text (s ∷ segments) h one =
    read_path-pieces (path_text (s ∷ segments)) (s ∷ segments) one
      (ap decode_all (pieces-path_text s segments h) ∙ decode_all-map (s ∷ segments) h)

path_text-Lacks :
    (segments : List Bytes) → All AreBytes segments → Lacks question (path_text segments)
unfolding path_text
path_text-Lacks segments h =
    join-Lacks question slash (λ e. absurd (omega arith)) _ (segments-Lack segments h).1

-- A target that is written from segments and query parameters is parsed to them: percent encoding,
-- slashes, the question mark, ampersands and equals signs keep them apart. A flag is read as a key
-- with an empty value. Excluded are bytes above 255, a flag with an empty key, and a path of one
-- empty segment, which is written like the path of none.
pub parse-write :
    (segments : List Bytes) (es : List Entry)
    → All AreBytes segments
    → segments ≢ [] ∷ []
    → All IsEntry es
    → parse_request_target ((slash ∷ path_text segments) ++ to_string (add_entries es []))
      ≡ ok (record { path_segments = segments; query_params = map entry_pair es })
parse-write segments [] hs one he =
    ap parse_request_target (no_query (slash ∷ path_text segments))
    ∙ parse_request_target_plain (path_text segments) (path_text-Lacks segments hs)
    ∙ rw (read_path-text segments hs one)
parse-write segments (e ∷ es) hs one he =
    ap (λ t. parse_request_target ((slash ∷ path_text segments) ++ t)) (to_string-entries e es)
    ∙ parse_request_target_lem (path_text segments) (query_text (e ∷ es))
        (path_text-Lacks segments hs)
    ∙ rw (read_path-text segments hs one, read_query-text e es he)
