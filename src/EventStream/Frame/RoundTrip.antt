-- ===== src/EventStream/Frame/RoundTrip.antt =====
-- Frames that are encoded and decoded.
use opal_cpp.Common.{
  ℕ, zero, suc, ◌+◌, ◌-◌, ◌≤◌, ◌<◌, ◌≡◌, refl, ap, sym, ◌∙◌, arith, false, ◌||◌, List, [], ◌∷◌,
  ◌++◌, append_assoc, append-nil, Option, none, some, Bytes, length, take-append, drop-append,
  length-append, ltb, ◌==◌, Outcome, ok, err, >>=-elim, Error, Bool-cases, inl, inr, All,
}
use opal_cpp.EventStream.Value.{HeaderValue, encode_value}
use opal_cpp.EventStream.Value.RoundTrip.{IsValue, decode_value-encode}
use opal_cpp.EventStream.Frame.Layout.{
  total_of, whole, length-whole, block_read, payload_read, prelude_good, end_good, total_good,
  headers_length_good,
}
use opal_cpp.EventStream.Frame.{
  Header, Message, max_header_block_bytes, max_message_bytes, prelude_bytes, frame_overhead_bytes,
  sized_value, encode_header, encode_headers, frame_of, encode_block, encode_message, read_value,
  read_header, read_headers, read_frame, decode_declared, decode_message,
}

abbrev pub IsMessage : Message → Type 0
IsMessage message = All (λ header. IsValue header.value) message.headers

record Encoded (header : Header) (bytes : Bytes) : Type 0 where
  named : (0 < length header.name) × (length header.name ≤ 255)
  value_bytes : Bytes
  encoded : encode_value header.value ≡ some value_bytes
  shape : length header.name ∷ (header.name ++ value_bytes) ≡ bytes

ok_bytes : (a b : Bytes) → ok a ≡ ok b → a ≡ b
ok_bytes a b same = ap (λ (o : Outcome Bytes). elim o [ ok x ↦ x | err failure ↦ a ]) same

Encoded-sized :
    (header : Header) (bytes : Bytes) (value : Option Bytes)
    → encode_value header.value ≡ value
    → (0 < length header.name) × (length header.name ≤ 255)
    → sized_value header.name value ≡ ok bytes
    → Encoded header bytes
unfolding sized_value
Encoded-sized header bytes none e h made = cc
Encoded-sized header bytes (some value_bytes) e h made = record {
  named = h;
  value_bytes = value_bytes;
  encoded = e;
  shape = ok_bytes _ bytes made;
}

Encoded-header :
    (header : Header) (bytes : Bytes) → encode_header header ≡ ok bytes → Encoded header bytes
unfolding encode_header
Encoded-header header bytes e =
    elim (Bool-cases (length header.name == 0 || ltb 255 (length header.name))) [
      | inl bad ↦ absurd (err-ne-ok (rw bad at e))
      | inr good ↦
          Encoded-sized header bytes (encode_value header.value) refl (ground arith) (rw good at e)
    ]
  where
    err-ne-ok : {failure : Error} → err failure ≡ ok bytes → ⊥
    err-ne-ok h = cc

read_named :
    (name value_bytes rest : Bytes) (value : HeaderValue)
    → IsValue value
    → (0 < length name) × (length name ≤ 255)
    → encode_value value ≡ some value_bytes
    → read_header (length name) (name ++ (value_bytes ++ rest))
      ≡ ok (record { name = name; value = value }, rest)
unfolding read_header read_value
read_named name value_bytes rest value valid named e =
    elim (Bool-cases
      (length name == 0 || ltb (length (name ++ (value_bytes ++ rest))) (length name))) [
        | inl bad ↦ absurd (ground (arith, length-append name (value_bytes ++ rest)))
        | inr good ↦
            rw
              (
                good,
                take-append (length name) name (value_bytes ++ rest) refl,
                drop-append (length name) name (value_bytes ++ rest) refl,
                decode_value-encode value value_bytes rest valid e,
              )
              refl
      ]

-- One encoded header, and what the decoder makes of it.
record ReadBack (header : Header) (bytes rest : Bytes) : Type 0 where
  first : ℕ
  block : Bytes
  shape : bytes ++ rest ≡ first ∷ block
  shorter : length rest < length (first ∷ block)
  read : read_header first block ≡ ok (header, rest)

ReadBack-Encoded :
    (header : Header) (bytes rest : Bytes)
    → IsValue header.value
    → Encoded header bytes
    → ReadBack header bytes rest
ReadBack-Encoded header bytes rest valid e = record {
  first = length header.name;
  block = header.name ++ (e.value_bytes ++ rest);
  shape =
      ap (λ (t : Bytes). t ++ rest) (sym e.shape)
      ∙ ap (λ (t : Bytes). length header.name ∷ t) (append_assoc header.name e.value_bytes rest);
  shorter =
      omega (
        arith,
        length-append header.name (e.value_bytes ++ rest),
        length-append e.value_bytes rest,
      );
  read = read_named header.name e.value_bytes rest header.value valid e.named e.encoded;
}

-- What the encoder's loop appends, the decoder's loop reads.
record Looped (headers : List Header) (out result : Bytes) : Type 0 where
  block : Bytes
  appended : result ≡ out ++ block
  read :
      (fuel : ℕ) (before : List Header)
      → length block ≤ fuel
      → read_headers fuel block before ≡ ok (before ++ headers)

read_round :
    (header : Header) (headers before : List Header) (fuel : ℕ) (bytes rest : Bytes)
    → ReadBack header bytes rest
    → length (bytes ++ rest) ≤ fuel
    → ((fuel' : ℕ) (before' : List Header)
        → length rest ≤ fuel'
        → read_headers fuel' rest before' ≡ ok (before' ++ headers))
    → read_headers fuel (bytes ++ rest) before ≡ ok (before ++ (header ∷ headers))
unfolding read_headers
read_round header headers before zero bytes rest back fits ih =
    let shape : length (bytes ++ rest) ≡ length (back.first ∷ back.block) = ap length back.shape in
    absurd (omega arith)
read_round header headers before (suc fuel) bytes rest back fits ih =
    let shape : length (bytes ++ rest) ≡ length (back.first ∷ back.block) = ap length back.shape in
    rw (back.shape, back.read)
      (ih fuel (before ++ (header ∷ [])) (omega (arith, back.shorter))
        ∙ ap (λ l. ok l) (append_assoc before (header ∷ []) headers))

Looped-encode_headers :
    (headers : List Header) (out result : Bytes)
    → All (λ header. IsValue header.value) headers
    → encode_headers headers out ≡ ok result
    → Looped headers out result
unfolding encode_headers read_headers
Looped-encode_headers [] out result h e = record {
  block = [];
  appended = ok_bytes result out (sym e) ∙ sym (append-nil out);
  read = λ fuel before _. ap (λ l. ok l) (sym (append-nil before));
}
Looped-encode_headers (header ∷ headers) out result (hv, h) e =
    >>=-elim (encode_header header) (λ bytes. encode_headers headers (out ++ bytes)) e
      (λ bytes first later.
        let l = Looped-encode_headers headers (out ++ bytes) result h later in
        record {
          block = bytes ++ l.block;
          appended = l.appended ∙ append_assoc out bytes l.block;
          read = λ fuel before fits.
              read_round header headers before fuel bytes l.block
                (ReadBack-Encoded header bytes l.block hv (Encoded-header header bytes first)) fits
                l.read;
        })

-- A frame within the limits, with its header block read, is decoded whatever follows it.
module _ (headers payload rest : Bytes) (block_fits : length headers ≤ max_header_block_bytes)
    (frame_fits : 16 + length headers + length payload ≤ max_message_bytes) where
  read_whole :
      (read : List Header)
      → read_headers (length headers) headers [] ≡ ok read
      → read_frame (whole headers payload rest) (total_of headers payload rest) (length headers)
        ≡ ok (
            some (record {
              message = record { headers = read; payload = payload };
              bytes_consumed = total_of headers payload rest;
            }))
  unfolding read_frame
  read_whole read e =
      rw
        (
          block_read headers payload rest,
          payload_read headers payload rest (total_of headers payload rest - 16 - length headers)
              (omega arith),
          e,
        )
        refl

  in_bounds :
      (ltb max_message_bytes (total_of headers payload rest)
        || ltb (total_of headers payload rest) frame_overhead_bytes
        || ltb max_header_block_bytes (length headers)
        || ltb (total_of headers payload rest - frame_overhead_bytes) (length headers))
      ≡ false
  in_bounds = ground arith

  long_enough : ltb (length (whole headers payload rest)) (total_of headers payload rest) ≡ false
  long_enough = ground (arith, length-whole headers payload rest)

  has_prelude : ltb (length (whole headers payload rest)) prelude_bytes ≡ false
  has_prelude = ground (arith, length-whole headers payload rest)

  declared_whole :
      decode_declared (whole headers payload rest) (total_of headers payload rest) (length headers)
      ≡ read_frame (whole headers payload rest) (total_of headers payload rest) (length headers)
  unfolding decode_declared
  declared_whole =
      rw
        (
          in_bounds,
          long_enough,
          end_good headers payload rest (total_of headers payload rest - 4) (omega arith),
        )
        refl

  decode_whole :
      decode_message (whole headers payload rest)
      ≡ read_frame (whole headers payload rest) (total_of headers payload rest) (length headers)
  unfolding decode_message
  decode_whole =
      rw
        (
          has_prelude,
          prelude_good headers payload rest,
          total_good headers payload rest (omega arith),
          headers_length_good headers payload rest (omega arith),
        )
        declared_whole

-- The limits that an encoded block keeps.
pub record InLimits (headers payload frame : Bytes) : Type 0 where
  pub block_fits : length headers ≤ max_header_block_bytes
  pub frame_fits : 16 + length headers + length payload ≤ max_message_bytes
  pub shape : frame_of headers payload ≡ frame

pub InLimits-encode_block :
    (headers payload frame : Bytes)
    → encode_block headers payload ≡ ok frame
    → InLimits headers payload frame
unfolding encode_block
InLimits-encode_block headers payload frame e =
    elim (Bool-cases (ltb max_header_block_bytes (length headers))) [
      | inl large ↦ absurd (err-ne-ok (rw large at e))
      | inr fits ↦
          elim (Bool-cases
            (ltb max_message_bytes (frame_overhead_bytes + length headers + length payload))) [
              | inl large ↦ absurd (err-ne-ok (rw (fits, large) at e))
              | inr fits' ↦ record {
                block_fits = ground arith;
                frame_fits = ground arith;
                shape = ok_bytes _ frame (rw (fits, fits') at e);
              }
            ]
    ]
  where
    err-ne-ok : {failure : Error} → err failure ≡ ok frame → ⊥
    err-ne-ok h = cc

block_loop :
    (headers : List Header) (block : Bytes)
    → Looped headers [] block
    → read_headers (length block) block [] ≡ ok headers
block_loop headers block l = rw l.appended (l.read (length l.block) [] (omega arith))

decode_limited :
    (message : Message) (headers frame rest : Bytes)
    → InLimits headers message.payload frame
    → read_headers (length headers) headers [] ≡ ok message.headers
    → decode_message (frame ++ rest)
      ≡ ok (some (record { message = message; bytes_consumed = length frame }))
unfolding whole
decode_limited message headers frame rest l e =
    ap (λ (t : Bytes). decode_message (t ++ rest)) (sym l.shape)
    ∙ decode_whole headers message.payload rest l.block_fits l.frame_fits
    ∙ read_whole headers message.payload rest l.block_fits l.frame_fits message.headers e
    ∙ ap (λ (n : ℕ). ok (some (record { message = message; bytes_consumed = n })))
        (frame_length headers message.payload frame l.shape)
  where
    frame_length :
        (headers payload frame : Bytes)
        → frame_of headers payload ≡ frame
        → total_of headers payload rest ≡ length frame
    frame_length headers payload frame shape = omega (
      arith,
      length-whole headers payload [],
      ap length (append-nil (frame_of headers payload)),
      ap length shape,
    )

-- A message whose header values fit their types and that `EncodeMessage` encodes is decoded again,
-- with its whole frame consumed, whatever bytes follow the frame.
pub decode_message-encode :
    (message : Message) (frame rest : Bytes)
    → IsMessage message
    → encode_message message ≡ ok frame
    → decode_message (frame ++ rest)
      ≡ ok (some (record { message = message; bytes_consumed = length frame }))
unfolding encode_message
decode_message-encode message frame rest h e =
    >>=-elim (encode_headers message.headers []) (λ headers. encode_block headers message.payload) e
      (λ headers encoded framed.
        let l = InLimits-encode_block headers message.payload frame framed in
        let loop = Looped-encode_headers message.headers [] headers h encoded in
        decode_limited message headers frame rest l (block_loop message.headers headers loop))
