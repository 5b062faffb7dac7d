-- ===== src/EventStream/Frame/Stream.antt =====
-- The decoder on a stream: what more bytes change, and how much is consumed.
use opal_cpp.Common.{
  ℕ, ◌+◌, ◌-◌, ◌%◌, ◌^◌, ◌≤◌, ◌<◌, ◌≡◌, ◌≢◌, refl, ap, sym, ◌∙◌, arith, true, false, ◌||◌, [], ◌∷◌,
  ◌++◌, append-nil, Option, none, some, Bytes, length, substr, substr-append_near, length-append,
  ltb, ◌==◌, ==_iff, Outcome, ok, err, >>=-elim, Error, Bool-cases, inl, inr,
}
use mathlib.Core.Bool.{false≢true}
use opal_cpp.EventStream.Value.{read_big_endian}
use opal_cpp.EventStream.Frame.Layout.{
  total_of, whole, length-whole, prelude_good, total_good, headers_length_good,
}
use opal_cpp.EventStream.Frame.{
  Message, DecodedFrame, max_header_block_bytes, max_message_bytes, prelude_bytes,
  frame_overhead_bytes, crc32, frame_of, encode_block, encode_message, encode_headers, read_headers,
  read_frame, decode_declared, decode_message,
}
use opal_cpp.EventStream.Frame.RoundTrip.{InLimits, InLimits-encode_block}

abbrev IsWaiting : Outcome (Option DecodedFrame) → Type 0
IsWaiting result = result ≡ ok none

read_frame-append :
    (buffer more : Bytes) (total headers_length : ℕ)
    → total ≤ length buffer
    → frame_overhead_bytes ≤ total
    → headers_length ≤ total - frame_overhead_bytes
    → read_frame (buffer ++ more) total headers_length ≡ read_frame buffer total headers_length
unfolding read_frame
read_frame-append buffer more total headers_length long over fits =
    rw
      (
        substr-append_near 12 headers_length buffer more (omega arith),
        substr-append_near (12 + headers_length) (total - 16 - headers_length) buffer more
            (omega arith),
      )
      refl

decode_declared-append :
    (buffer more : Bytes) (total headers_length : ℕ)
    → ¬ IsWaiting (decode_declared buffer total headers_length)
    → decode_declared (buffer ++ more) total headers_length
      ≡ decode_declared buffer total headers_length
unfolding decode_declared
decode_declared-append buffer more total headers_length settled =
    elim (Bool-cases (
      ltb max_message_bytes total
      || ltb total frame_overhead_bytes
      || ltb max_header_block_bytes headers_length
      || ltb (total - frame_overhead_bytes) headers_length)) [
        | inl out ↦ rw out refl
        | inr fits ↦ elim (Bool-cases (ltb (length buffer) total)) [
          | inl short ↦ absurd (settled (rw (fits, short) refl))
          | inr long ↦
              let enough : ltb (length (buffer ++ more)) total ≡ false =
                ground (arith, length-append buffer more) in
              rw
                (
                  fits,
                  long,
                  enough,
                  substr-append_near 0 (total - 4) buffer more (ground arith),
                  substr-append_near (total - 4) 4 buffer more (ground arith),
                  read_frame-append buffer more total headers_length (ground arith) (ground arith)
                      (ground arith),
                )
                refl
        ]
      ]

-- The bytes of the prelude are read alike with more bytes behind.
module _ (buffer more : Bytes) (long : 12 ≤ length buffer) where
  same_prelude : substr 0 8 (buffer ++ more) ≡ substr 0 8 buffer
  same_prelude = substr-append_near 0 8 buffer more (omega arith)

  same_check : substr 8 4 (buffer ++ more) ≡ substr 8 4 buffer
  same_check = substr-append_near 8 4 buffer more (omega arith)

  same_total : substr 0 4 (buffer ++ more) ≡ substr 0 4 buffer
  same_total = substr-append_near 0 4 buffer more (omega arith)

  same_headers_length : substr 4 4 (buffer ++ more) ≡ substr 4 4 buffer
  same_headers_length = substr-append_near 4 4 buffer more (omega arith)

-- A decoder that has its answer, a frame or an error, gives the same one with more bytes behind.
pub decode_message-append :
    (buffer more : Bytes)
    → ¬ (decode_message buffer ≡ ok none)
    → decode_message (buffer ++ more) ≡ decode_message buffer
unfolding decode_message
decode_message-append buffer more settled = elim (Bool-cases (ltb (length buffer) prelude_bytes)) [
  | inl short ↦ absurd (settled (rw short refl))
  | inr long ↦
      let enough : ltb (length (buffer ++ more)) prelude_bytes ≡ false =
        ground (arith, length-append buffer more) in
      let has : 12 ≤ length buffer = ground arith in
      rw
        (
          long,
          enough,
          same_prelude buffer more has,
          same_check buffer more has,
          same_total buffer more has,
          same_headers_length buffer more has,
        )
        (elim (Bool-cases
          (crc32 (substr 0 8 buffer) == read_big_endian (substr 8 4 buffer) % 2 ^ 32)) [
            | inr bad ↦ rw bad refl
            | inl good ↦ rw good (
                decode_declared-append buffer more _ _
                  (λ waiting. settled (rw (long, good) waiting)))
          ])
]

-- The part of a frame that has come so far.
module _ (headers payload part missing : Bytes) (shape : part ++ missing ≡ whole headers payload [])
    (short : length part < total_of headers payload []) where
  waits_declared :
      length headers ≤ max_header_block_bytes
      → total_of headers payload [] ≤ max_message_bytes
      → decode_declared part (total_of headers payload []) (length headers) ≡ ok none
  unfolding decode_declared
  waits_declared block_fits frame_fits =
      let in_bounds : (ltb max_message_bytes (total_of headers payload [])
            || ltb (total_of headers payload []) frame_overhead_bytes
            || ltb max_header_block_bytes (length headers)
            || ltb (total_of headers payload [] - frame_overhead_bytes) (length headers))
          ≡ false =
        ground arith in
      let waiting : ltb (length part) (total_of headers payload []) ≡ true = ground arith in
      rw (in_bounds, waiting) refl

  good_part :
      12 ≤ length part
      → (crc32 (substr 0 8 part) == read_big_endian (substr 8 4 part) % 2 ^ 32) ≡ true
  good_part long =
      rw (← same_prelude part missing long, ← same_check part missing long, shape)
        (prelude_good headers payload [])

  waits :
      length headers ≤ max_header_block_bytes
      → total_of headers payload [] ≤ max_message_bytes
      → decode_message part ≡ ok none
  unfolding decode_message
  waits block_fits frame_fits = elim (Bool-cases (ltb (length part) prelude_bytes)) [
    | inl few ↦ rw few refl
    | inr many ↦
        let long : 12 ≤ length part = ground arith in
        rw
          (
            many,
            good_part long,
            sym (same_total part missing long) ∙ ap (substr 0 4) shape,
            sym (same_headers_length part missing long) ∙ ap (substr 4 4) shape,
            total_good headers payload [] (omega arith),
            headers_length_good headers payload [] (omega arith),
          )
          (waits_declared block_fits frame_fits)
  ]

length-missing : (missing : Bytes) → missing ≢ [] → 0 < length missing
length-missing [] ne = absurd (ne refl)
length-missing (c ∷ missing) ne = omega arith

part_waits :
    (headers payload frame part missing : Bytes)
    → InLimits headers payload frame
    → part ++ missing ≡ frame
    → missing ≢ []
    → decode_message part ≡ ok none
unfolding whole
part_waits headers payload frame part missing l shape ne =
    let same : part ++ missing ≡ frame_of headers payload ++ [] =
      shape ∙ sym l.shape ∙ sym (append-nil (frame_of headers payload)) in
    let wide : length (part ++ missing) ≡ total_of headers payload [] =
      ap length same ∙ length-whole headers payload [] ∙ omega arith in
    waits headers payload part missing same
      (omega (arith, length-append part missing, length-missing missing ne, wide)) l.block_fits
      l.frame_fits

-- Of a frame that `EncodeMessage` gives, any part that is not all of it makes the decoder ask for
-- more bytes: it is never an error.
pub decode_message-part :
    (message : Message) (frame part missing : Bytes)
    → encode_message message ≡ ok frame
    → part ++ missing ≡ frame
    → missing ≢ []
    → decode_message part ≡ ok none
unfolding encode_message
decode_message-part message frame part missing e shape ne =
    >>=-elim (encode_headers message.headers []) (λ headers. encode_block headers message.payload) e
      (λ headers encoded framed.
        let l = InLimits-encode_block headers message.payload frame framed in
        part_waits headers message.payload frame part missing l shape ne)

-- What a decoded frame says of the buffer.
pub record IsChecked (buffer : Bytes) (frame : DecodedFrame) : Type 0 where
  pub complete : frame.bytes_consumed ≤ length buffer
  pub limits :
      (frame_overhead_bytes ≤ frame.bytes_consumed) × (frame.bytes_consumed ≤ max_message_bytes)
  pub headers_limits :
      (read_big_endian (substr 4 4 buffer) ≤ max_header_block_bytes)
      × (read_big_endian (substr 4 4 buffer) + frame_overhead_bytes ≤ frame.bytes_consumed)
  pub declared : read_big_endian (substr 0 4 buffer) ≡ frame.bytes_consumed
  pub checksum :
      crc32 (substr 0 (frame.bytes_consumed - 4) buffer)
      ≡ read_big_endian (substr (frame.bytes_consumed - 4) 4 buffer) % 2 ^ 32

err-ne-some :
    {failure : Error} {frame : DecodedFrame}
    → ◌≢◌ {A = Outcome (Option DecodedFrame)} (err failure) (ok (some frame))
err-ne-some e = cc

none-ne-frame :
    {frame : DecodedFrame} → ◌≢◌ {A = Outcome (Option DecodedFrame)} (ok none) (ok (some frame))
none-ne-frame e = false≢true (
    ap
      (λ (o : Outcome (Option DecodedFrame)). elim o [
        | err failure ↦ false
        | ok none ↦ false
        | ok (some f) ↦ true
      ])
      e)

read_frame_total :
    (buffer : Bytes) (total headers_length : ℕ) (frame : DecodedFrame)
    → read_frame buffer total headers_length ≡ ok (some frame)
    → total ≡ frame.bytes_consumed
unfolding read_frame
read_frame_total buffer total headers_length frame e =
    >>=-elim
      (read_headers (length (substr prelude_bytes headers_length buffer))
        (substr prelude_bytes headers_length buffer) [])
      _ e
      (λ headers read made.
        ap
          (λ (o : Outcome (Option DecodedFrame)). elim o [
            | err failure ↦ total
            | ok none ↦ total
            | ok (some f) ↦ f.bytes_consumed
          ])
          made)

IsChecked-declared :
    (buffer : Bytes) (total headers_length : ℕ) (frame : DecodedFrame)
    → read_big_endian (substr 0 4 buffer) ≡ total
    → read_big_endian (substr 4 4 buffer) ≡ headers_length
    → decode_declared buffer total headers_length ≡ ok (some frame)
    → IsChecked buffer frame
unfolding decode_declared read_frame
IsChecked-declared buffer total headers_length frame declared in_headers e =
    elim (Bool-cases (
      ltb max_message_bytes total
      || ltb total frame_overhead_bytes
      || ltb max_header_block_bytes headers_length
      || ltb (total - frame_overhead_bytes) headers_length)) [
        | inl out ↦ absurd (err-ne-some (rw out at e))
        | inr fits ↦ elim (Bool-cases (ltb (length buffer) total)) [
          | inl short ↦ absurd (none-ne-frame (rw (fits, short) at e))
          | inr long ↦
              elim (Bool-cases (
                crc32 (substr 0 (total - 4) buffer)
                == read_big_endian (substr (total - 4) 4 buffer) % 2 ^ 32)) [
                  | inr bad ↦ absurd (err-ne-some (rw (fits, long, bad) at e))
                  | inl good ↦
                      let consumed : total ≡ frame.bytes_consumed =
                        read_frame_total buffer total headers_length frame
                          (rw (fits, long, good) at e) in
                      record {
                        complete = rw (← consumed) (ground arith);
                        limits = rw (← consumed) (ground arith, ground arith);
                        headers_limits = rw (in_headers, ← consumed) (ground arith, ground arith);
                        declared = declared ∙ consumed;
                        checksum = rw (← consumed) ((==_iff _ _).0 good);
                      }
                ]
        ]
      ]

-- Each decoded frame is complete in the buffer and within the limits of the format: at most 16 MiB
-- with at most 128 KiB of headers, which fit the frame. Its length is the one that the prelude
-- declares, and the checksum at its end is that of all bytes before it.
pub decode_message-IsChecked :
    (buffer : Bytes) (frame : DecodedFrame)
    → decode_message buffer ≡ ok (some frame)
    → IsChecked buffer frame
unfolding decode_message
decode_message-IsChecked buffer frame e = elim (Bool-cases (ltb (length buffer) prelude_bytes)) [
  | inl short ↦ absurd (none-ne-frame (rw short at e))
  | inr long ↦
      elim (Bool-cases
        (crc32 (substr 0 8 buffer) == read_big_endian (substr 8 4 buffer) % 2 ^ 32)) [
          | inr bad ↦ absurd (err-ne-some (rw (long, bad) at e))
          | inl good ↦ IsChecked-declared buffer _ _ frame refl refl (rw (long, good) at e)
        ]
]
