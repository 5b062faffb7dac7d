-- ===== src/EventStream/Frame/Layout.antt =====
-- Where the parts of a frame stand.
use opal_cpp.Common.{
  ℕ, ◌+◌, ◌%◌, ◌^◌, ◌<◌, ◌≡◌, refl, ap, sym, ◌∙◌, arith, ◌++◌, append_assoc, Bytes, length, take,
  substr, take-append, substr-append, length-append, ◌==◌, ==_iff, true,
}
use native.Mathlib.Nat.{mod-eq_of_lt}
use opal_cpp.EventStream.Value.{big_endian, read_big_endian}
use opal_cpp.EventStream.Value.BigEndian.{length-big_endian, read-big_endian}
use opal_cpp.EventStream.Frame.{crc32, prelude, front, frame_of, frame_overhead_bytes}

crc32_small : (bytes : Bytes) → crc32 bytes < 2 ^ 32
unfolding crc32
crc32_small bytes = omega arith

-- A checksum that is written behind a text is the one that is read.
checksum_read :
    (text check : Bytes)
    → check ≡ big_endian (crc32 text) 4
    → (crc32 text == read_big_endian check % 2 ^ 32) ≡ true
checksum_read text check e =
    rw
      (
        e,
        read-big_endian 4 (crc32 text) (omega arith) (crc32_small text),
        mod-eq_of_lt (crc32_small text),
      )
      ((==_iff (crc32 text) (crc32 text)).1 refl)

module _ (headers payload rest : Bytes) where
  abbrev pub total_of : ℕ
  total_of = frame_overhead_bytes + length headers + length payload

  lengths : Bytes
  lengths = prelude total_of (length headers)

  checks : Bytes
  checks = big_endian (crc32 lengths) 4

  end_check : Bytes
  end_check = big_endian (crc32 (front headers payload)) 4

  unfoldable pub whole : Bytes
  whole = frame_of headers payload ++ rest

  length-lengths : length lengths ≡ 8
  unfolding lengths prelude
  length-lengths = omega (
    arith,
    length-append (big_endian total_of 4) (big_endian (length headers) 4),
    length-big_endian total_of 4,
    length-big_endian (length headers) 4,
  )

  whole-front : whole ≡ front headers payload ++ (end_check ++ rest)
  unfolding whole frame_of end_check
  whole-front = append_assoc (front headers payload) end_check rest

  length-front : length (front headers payload) ≡ 12 + length headers + length payload
  unfolding front lengths checks
  length-front = omega (
    arith,
    length-lengths,
    length-big_endian (crc32 lengths) 4,
    length-append ((lengths ++ checks) ++ headers) payload,
    length-append (lengths ++ checks) headers,
    length-append lengths checks,
  )

  whole_parts : whole ≡ lengths ++ (checks ++ (headers ++ (payload ++ (end_check ++ rest))))
  unfolding front lengths checks
  whole_parts =
      whole-front
      ∙ append_assoc ((lengths ++ checks) ++ headers) payload (end_check ++ rest)
      ∙ append_assoc (lengths ++ checks) headers (payload ++ (end_check ++ rest))
      ∙ append_assoc lengths checks (headers ++ (payload ++ (end_check ++ rest)))

  pub length-whole : length whole ≡ total_of + length rest
  unfolding end_check
  length-whole =
      ap length whole-front
      ∙ omega (
        arith,
        length-front,
        length-append (front headers payload) (end_check ++ rest),
        length-append end_check rest,
        length-big_endian (crc32 (front headers payload)) 4,
      )

  prelude_read : substr 0 8 whole ≡ lengths
  prelude_read = ap (take 8) whole_parts ∙ take-append 8 lengths _ length-lengths

  prelude_check_read : substr 8 4 whole ≡ checks
  unfolding checks
  prelude_check_read =
      ap (substr 8 4) whole_parts
      ∙ substr-append 8 4 lengths checks _ length-lengths (length-big_endian (crc32 lengths) 4)

  after_lengths : Bytes
  after_lengths = checks ++ (headers ++ (payload ++ (end_check ++ rest)))

  total_read : substr 0 4 whole ≡ big_endian total_of 4
  unfolding lengths prelude after_lengths
  total_read =
      ap (substr 0 4) whole_parts
      ∙ ap (take 4)
          (append_assoc (big_endian total_of 4) (big_endian (length headers) 4) after_lengths)
      ∙ take-append 4 (big_endian total_of 4) _ (length-big_endian total_of 4)

  headers_length_read : substr 4 4 whole ≡ big_endian (length headers) 4
  unfolding lengths prelude after_lengths
  headers_length_read =
      ap (substr 4 4) whole_parts
      ∙ ap (substr 4 4)
          (append_assoc (big_endian total_of 4) (big_endian (length headers) 4) after_lengths)
      ∙ substr-append 4 4 (big_endian total_of 4) (big_endian (length headers) 4) after_lengths
          (length-big_endian total_of 4) (length-big_endian (length headers) 4)

  pub block_read : substr 12 (length headers) whole ≡ headers
  unfolding checks
  block_read =
      ap (substr 12 (length headers)) (
        whole_parts
        ∙ sym (append_assoc lengths checks (headers ++ (payload ++ (end_check ++ rest)))))
      ∙ substr-append 12 (length headers) (lengths ++ checks) headers
          (payload ++ (end_check ++ rest))
          (omega (
            arith,
            length-append lengths checks,
            length-lengths,
            length-big_endian (crc32 lengths) 4,
          ))
          refl

  pub payload_read :
      (count : ℕ) → count ≡ length payload → substr (12 + length headers) count whole ≡ payload
  unfolding checks
  payload_read count e =
      ap (substr (12 + length headers) count) (whole_front_parts)
      ∙ substr-append (12 + length headers) count ((lengths ++ checks) ++ headers) payload
          (end_check ++ rest)
          (omega (
            arith,
            length-append (lengths ++ checks) headers,
            length-append lengths checks,
            length-lengths,
            length-big_endian (crc32 lengths) 4,
          ))
          (sym e)
    where
      whole_front_parts :
          whole ≡ ((lengths ++ checks) ++ headers) ++ (payload ++ (end_check ++ rest))
      whole_front_parts =
          whole_parts
          ∙ sym (append_assoc lengths checks (headers ++ (payload ++ (end_check ++ rest))))
          ∙ sym (append_assoc (lengths ++ checks) headers (payload ++ (end_check ++ rest)))

  front_read :
      (count : ℕ)
      → count ≡ 12 + length headers + length payload
      → substr 0 count whole ≡ front headers payload
  front_read count e =
      ap (take count) whole-front
      ∙ take-append count (front headers payload) _ (omega (arith, length-front))

  end_check_read :
      (from : ℕ) → from ≡ 12 + length headers + length payload → substr from 4 whole ≡ end_check
  unfolding end_check
  end_check_read from e =
      ap (substr from 4) whole-front
      ∙ substr-append from 4 (front headers payload) end_check rest (omega (arith, length-front))
          (length-big_endian (crc32 (front headers payload)) 4)

-- What the decoder reads of a whole frame.
module _ (headers payload rest : Bytes) where
  pub prelude_good :
      (crc32 (substr 0 8 (whole headers payload rest))
        == read_big_endian (substr 8 4 (whole headers payload rest)) % 2 ^ 32)
      ≡ true
  unfolding checks
  prelude_good =
      rw (prelude_read headers payload rest)
        (checksum_read (lengths headers payload rest) _ (prelude_check_read headers payload rest))

  pub end_good :
      (count : ℕ)
      → count ≡ 12 + length headers + length payload
      → (crc32 (substr 0 count (whole headers payload rest))
          == read_big_endian (substr count 4 (whole headers payload rest)) % 2 ^ 32)
        ≡ true
  unfolding end_check
  end_good count e =
      rw (front_read headers payload rest count e)
        (checksum_read (front headers payload) _ (end_check_read headers payload rest count e))

  pub total_good :
      total_of headers payload rest < 2 ^ 32
      → read_big_endian (substr 0 4 (whole headers payload rest)) ≡ total_of headers payload rest
  total_good small =
      ap read_big_endian (total_read headers payload rest)
      ∙ read-big_endian 4 (total_of headers payload rest) (omega arith) small

  pub headers_length_good :
      length headers < 2 ^ 32
      → read_big_endian (substr 4 4 (whole headers payload rest)) ≡ length headers
  headers_length_good small =
      ap read_big_endian (headers_length_read headers payload rest)
      ∙ read-big_endian 4 (length headers) (omega arith) small
