-- ===== src/Http/Http1.antt =====
-- runtime/src/http/http1.cc: the reader of one HTTP/1.1 message. What the byte source answers to the
-- calls of the read function is a list; behind its end the source is at its end of file.
pub mod Framed
pub mod Lines
pub mod Chunks
pub mod Whole
use opal_cpp.Common.{
  ℕ, zero, suc, ◌+◌, ◌-◌, ◌*◌, ◌^◌, Bool, true, false, not, ◌&&◌, ◌||◌, List, [], ◌∷◌, ◌++◌, Option,
  none, some, Bytes, codes, length, take, drop, substr, ltb, leb, ◌==◌, if◌then◌else◌, cut, find,
  Outcome, ok, err, ◌>>=◌, Error, transport_error, find_text, is_front, decimal, digits_value,
}
use opal_cpp.Http.Headers.{Headers, get, get_all, has, add, trim_spaces, no_byte}

-- What a call of the read function gives: the bytes, none at the end of the file, or an error.
pub data Read : Type 0 where
  received : Bytes → Read
  failed : Read

pub record Http1Message : Type 0 where
  pub start_line : Bytes
  pub headers : Headers
  pub body : Bytes

abbrev pub max_header_bytes : ℕ
max_header_bytes = 64 * 1024

abbrev pub default_max_body_bytes : ℕ
default_max_body_bytes = 64 * 1024 * 1024

abbrev pub crlf : Bytes
crlf = b'\r' ∷ b'\n' ∷ []

abbrev pub blank_line : Bytes
blank_line = b'\r' ∷ b'\n' ∷ b'\r' ∷ b'\n' ∷ []

-- `BodyTooLarge`.
unfoldable pub body_too_large : ℕ → Error
body_too_large max_body_bytes =
    transport_error
      (codes "http: response body exceeds max_response_bytes ("
        ++ (decimal max_body_bytes ++ codes " bytes)"))
      false

unfoldable pub broken : Bytes → Error
broken what = transport_error (codes "http: " ++ what) true

-- The loop that reads the header block: the buffer, where the block ends in it, and the reads that
-- are left. The first argument is what the source answers next.
abbrev pub Head : Type 0
Head = Bytes × ℕ × List Read

unfoldable pub head_read : Bytes → List Read → Option ℕ → Outcome Head → Outcome Head
head_read buffer reads none later = later
head_read buffer reads (some header_end) later = ok (buffer, header_end, reads)

unfoldable pub head_loop : List Read → Bytes → Outcome Head
head_loop [] buffer =
    if ltb max_header_bytes (length buffer)
    then err (broken (codes "headers too large"))
    else err (broken (codes "connection closed mid-headers"))
head_loop (failed ∷ reads) buffer =
    if ltb max_header_bytes (length buffer)
    then err (broken (codes "headers too large"))
    else err (broken (codes "read failed"))
head_loop (received [] ∷ reads) buffer =
    if ltb max_header_bytes (length buffer)
    then err (broken (codes "headers too large"))
    else err (broken (codes "connection closed mid-headers"))
head_loop (received (c ∷ chunk) ∷ reads) buffer =
    let later = head_loop reads (buffer ++ (c ∷ chunk)) in
    if ltb max_header_bytes (length buffer)
    then err (broken (codes "headers too large"))
    else head_read (buffer ++ (c ∷ chunk)) reads (find_text blank_line (buffer ++ (c ∷ chunk)))
        later

-- A text at its first line end: `find("\r\n")`, with the parts around it.
unfoldable pub line_at : Bytes → Option ℕ → Bytes × Option Bytes
line_at text none = (text, none)
line_at text (some i) = (take i text, some (drop (i + 2) text))

unfoldable pub cut_line : Bytes → Bytes × Option Bytes
cut_line text = line_at text (find_text crlf text)

-- One line of the header block.
unfoldable pub read_field : Headers → Bytes × Option Bytes → Outcome Headers
read_field headers (name, none) = err (broken (codes "malformed header line"))
read_field headers (name, some value) = ok (add name (trim_spaces value) headers)

-- The loop over the header block. Each round but the last takes a line end away, so its length is
-- enough fuel.
unfoldable pub fields_behind :
    (Bytes → Headers → Outcome Headers) → Option Bytes → Headers → Outcome Headers
fields_behind loop none headers = ok headers
fields_behind loop (some block) headers = loop block headers

unfoldable pub read_fields : ℕ → Bytes → Headers → Outcome Headers
read_fields fuel [] headers = ok headers
read_fields zero (c ∷ block) headers = ok headers
read_fields (suc fuel) (c ∷ block) headers =
    let (line, rest) = cut_line (c ∷ block) in
    read_field headers (cut b':' line) >>= λ more. fields_behind (read_fields fuel) rest more

unfoldable pub header_block : Option Bytes → Bytes
header_block none = []
header_block (some block) = block

-- The tests of the framing.
unfoldable pub check_framing : Headers → Outcome Headers
check_framing headers =
    if ltb 1 (length (get_all (codes "content-length") headers))
    then err (broken (codes "conflicting content-length"))
    else if has (codes "transfer-encoding") headers
    then err (broken (codes "transfer-encoding is not supported"))
    else ok headers

unfoldable pub is_no_digit : ℕ → Bool
is_no_digit c = ltb c b'0' || ltb b'9' c

unfoldable pub is_empty : Bytes → Bool
is_empty [] = true
is_empty (c ∷ text) = false

abbrev pub min_of : ℕ → ℕ → ℕ
min_of a b = if leb a b then a else b

-- A declared length. `strtoull` takes all of a text of digits and clamps it to 64 bits.
unfoldable pub declared_length : Bytes → Outcome ℕ
declared_length text =
    if is_empty text || not (no_byte is_no_digit text)
    then err (broken (codes "invalid content-length"))
    else ok (min_of (digits_value 0 text) (2 ^ 64 - 1))

-- The loop that reads a body of a declared length.
unfoldable pub body_loop : List Read → ℕ → Bytes → Outcome Bytes
body_loop [] size body =
    if ltb (length body) size then err (broken (codes "connection closed mid-body")) else ok body
body_loop (failed ∷ reads) size body =
    if ltb (length body) size then err (broken (codes "connection closed mid-body")) else ok body
body_loop (received [] ∷ reads) size body =
    if ltb (length body) size then err (broken (codes "connection closed mid-body")) else ok body
body_loop (received (c ∷ chunk) ∷ reads) size body =
    let later = body_loop reads size (body ++ (c ∷ chunk)) in
    if ltb (length body) size then later else ok body

unfoldable pub exact_body : ℕ → Bytes → Outcome Bytes
exact_body size body =
    if length body == size then ok body else err (broken (codes "excess body bytes"))

-- The loop that reads up to the end of the file.
unfoldable pub rest_loop : List Read → ℕ → Bytes → Outcome Bytes
rest_loop [] limit body = if ltb limit (length body) then err (body_too_large limit) else ok body
rest_loop (failed ∷ reads) limit body =
    if ltb limit (length body)
    then err (body_too_large limit)
    else err (broken (codes "read failed"))
rest_loop (received [] ∷ reads) limit body =
    if ltb limit (length body) then err (body_too_large limit) else ok body
rest_loop (received (c ∷ chunk) ∷ reads) limit body =
    let later = rest_loop reads limit (body ++ (c ∷ chunk)) in
    if ltb limit (length body) then err (body_too_large limit) else later

-- The body behind the header block, by what the headers declare.
unfoldable pub sized_body : List Read → ℕ → Bytes → ℕ → Outcome Bytes
sized_body reads limit body size =
    if ltb limit size
    then err (body_too_large limit)
    else body_loop reads size body >>= λ whole. exact_body size whole

unfoldable pub framed_body : List Read → Bool → ℕ → Bytes → Option Bytes → Outcome Bytes
framed_body reads body_until_eof limit body (some text) =
    declared_length text >>= λ size. sized_body reads limit body size
framed_body reads body_until_eof limit body none =
    if body_until_eof then rest_loop reads limit body else ok body

unfoldable pub read_body : List Read → Bool → Bool → ℕ → Bytes → Headers → Outcome Bytes
read_body reads body_until_eof has_body limit body headers =
    if has_body
    then framed_body reads body_until_eof limit body (get (codes "content-length") headers)
    else ok []

-- From the buffer that holds the header block on.
unfoldable pub read_behind : Bool → Bool → ℕ → Head → Outcome Http1Message
read_behind body_until_eof has_body limit (buffer, header_end, reads) =
    let (start_line, rest) = cut_line (take header_end buffer) in
    read_fields (length (header_block rest)) (header_block rest) [] >>= λ headers.
    check_framing headers >>= λ framed.
    read_body reads body_until_eof has_body limit (drop (header_end + 4) buffer) framed >>= λ body.
    ok (record { start_line = start_line; headers = framed; body = body })

-- `ReadHttp1Message`.
unfoldable pub read_http1_message : List Read → Bool → Bool → ℕ → Outcome Http1Message
read_http1_message reads body_until_eof has_body limit =
    head_loop reads [] >>= λ head. read_behind body_until_eof has_body limit head

-- `ParseRequestLine`: the method and the target.
unfoldable pub target_of : Bytes → Bytes × Option Bytes → Option (Bytes × Bytes)
target_of method (target, none) = none
target_of method (target, some version) = some (method, target)

unfoldable pub behind_method : Bytes × Option Bytes → Option (Bytes × Bytes)
behind_method (method, none) = none
behind_method (method, some rest) = target_of method (cut b' ' rest)

unfoldable pub parse_request_line : Bytes → Option (Bytes × Bytes)
parse_request_line line = behind_method (cut b' ' line)

-- `std::atoi` of a text: the blanks and the sign in front, and the digits.
unfoldable pub digits_front : ℕ → Bytes → ℕ
digits_front n [] = n
digits_front n (c ∷ text) =
    let more = digits_front (n * 10 + (c - b'0')) text in if is_no_digit c then n else more

unfoldable pub is_space : ℕ → Bool
is_space c = c == b' ' || (leb b'\t' c && leb c b'\r')

unfoldable pub skip_spaces : Bytes → Bytes
skip_spaces [] = []
skip_spaces (c ∷ text) = let rest = skip_spaces text in if is_space c then rest else c ∷ text

-- A negative number counts as 0, which `ParseStatusLine` refuses alike. The behaviour of `atoi` on a
-- number that an `int` does not hold is undefined; it is the number here.
unfoldable pub signed_front : Bytes → ℕ
signed_front [] = 0
signed_front (c ∷ text) =
    if c == b'-' then 0 else if c == b'+' then digits_front 0 text else digits_front 0 (c ∷ text)

unfoldable pub atoi : Bytes → ℕ
atoi text = signed_front (skip_spaces text)

unfoldable pub plausible_status : Bytes → ℕ → Outcome ℕ
plausible_status line status =
    if ltb status 100 || ltb 599 status
    then err (broken (codes "implausible status in: " ++ line))
    else ok status

-- `ParseStatusLine`.
unfoldable pub status_behind : Bytes → Option ℕ → Outcome ℕ
status_behind line none = err (broken (codes "malformed status line: " ++ line))
status_behind line (some space) =
    if ltb (length line) (space + 4) || not (is_front (codes "HTTP/") line)
    then err (broken (codes "malformed status line: " ++ line))
    else plausible_status line (atoi (drop (space + 1) line))

unfoldable pub parse_status_line : Bytes → Outcome ℕ
parse_status_line line = status_behind line (find b' ' line)
