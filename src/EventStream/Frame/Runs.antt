-- ===== src/EventStream/Frame/Runs.antt =====
-- Runs of the frame codec.
use opal_cpp.Common.{
  ◌≡◌, sym, ◌∙◌, Error, refl, codes, Bytes, [], ◌∷◌, ◌++◌, Option, none, some, Outcome, ok, err,
  arith, take, drop, cons-ne-nil,
}
use opal_cpp.EventStream.Value.{
  int_value, string_value, big_endian, read_loop, read_big_endian, encode_sized, encode_value,
  fixed, decode_number, decode_bytes, decode_sized, decode_tagged, decode_value,
}
use opal_cpp.EventStream.Frame.{
  Message, DecodedFrame, crc32, crc_loop, crc_entry, crc_step, sized_value, encode_header,
  encode_headers, prelude, front, frame_of, encode_block, encode_message, read_value, read_header,
  read_headers, read_frame, decode_declared, decode_message, malformed,
}
use opal_cpp.EventStream.Frame.RoundTrip.{IsMessage, decode_message-encode}
use opal_cpp.EventStream.Frame.Stream.{
  decode_message-append, decode_message-part, decode_message-IsChecked, IsChecked,
}

-- The check value of CRC-32/ISO-HDLC.
crc32_run : crc32 (codes "123456789") ≡ 0xcbf43926
unfolding crc32 crc_loop crc_entry crc_step codes
crc32_run = refl

abbrev hello : Message
hello = record {
  headers =
      record { name = codes "k"; value = string_value (codes "v") }
      ∷ record { name = codes "n"; value = int_value 7 }
      ∷ [];
  payload = codes "hi";
}

abbrev hello_frame : Bytes
hello_frame =
    0 ∷ 0 ∷ 0 ∷ 31 ∷ 0 ∷ 0 ∷ 0 ∷ 13 ∷ 249 ∷ 35 ∷ 163 ∷ 135 ∷ 1 ∷ 107 ∷ 7 ∷ 0 ∷ 1 ∷ 118 ∷ 1 ∷ 110 ∷ 4
    ∷ 0 ∷ 0 ∷ 0 ∷ 7 ∷ 104 ∷ 105 ∷ 90 ∷ 92 ∷ 249 ∷ 112 ∷ []

encode_run : encode_message hello ≡ ok hello_frame
unfolding encode_message encode_headers encode_header sized_value encode_value encode_sized
    big_endian encode_block frame_of front prelude crc32 crc_loop crc_entry crc_step codes
encode_run = refl

hello_valid : IsMessage hello
unfolding codes
hello_valid = ((omega arith, tt), (omega arith, tt))

decode_message-encode_example :
    decode_message (hello_frame ++ codes "x")
    ≡ ok (some (record { message = hello; bytes_consumed = 31 }))
decode_message-encode_example =
    decode_message-encode hello hello_frame (codes "x") hello_valid encode_run

decode_message-part_example : decode_message (take 20 hello_frame) ≡ ok none
decode_message-part_example =
    decode_message-part hello hello_frame (take 20 hello_frame) (drop 20 hello_frame) encode_run
      refl (cons-ne-nil _ _)

abbrev broken : Bytes
broken = take 30 hello_frame ++ (0 ∷ [])

decode_broken_run : decode_message broken ≡ err (malformed (codes "message CRC mismatch"))
unfolding decode_message decode_declared crc32 crc_loop crc_entry crc_step read_big_endian read_loop
decode_broken_run = refl

broken_settled : decode_message broken ≡ ok none → ⊥
broken_settled h = err-ne-none (sym decode_broken_run ∙ h)
  where
    err-ne-none :
        {failure : Error} → ◌≡◌ {A = Outcome (Option DecodedFrame)} (err failure) (ok none) → ⊥
    err-ne-none e = cc

decode_message-append_example : decode_message (broken ++ codes "more") ≡ decode_message broken
decode_message-append_example = decode_message-append broken (codes "more") broken_settled

abbrev decoded : DecodedFrame
decoded = record { message = hello; bytes_consumed = 31 }

decode_run : decode_message (hello_frame ++ codes "x") ≡ ok (some decoded)
unfolding decode_message decode_declared read_frame read_headers read_header read_value decode_value
    decode_tagged decode_number decode_sized decode_bytes fixed crc32 crc_loop crc_entry crc_step
    read_big_endian read_loop codes
decode_run = refl

decode_message-IsChecked_example : IsChecked (hello_frame ++ codes "x") decoded
decode_message-IsChecked_example =
    decode_message-IsChecked (hello_frame ++ codes "x") decoded decode_run

value_run : encode_value (string_value (118 ∷ [])) ≡ some (7 ∷ 0 ∷ 1 ∷ 118 ∷ [])
unfolding encode_value encode_sized big_endian
value_run = refl
