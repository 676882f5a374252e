-- ===== src/Bacnet/Value.antt =====
-- Application-tagged values: buildBacnetApplicationValue and parseBacnetApplicationValue of
-- internal/conn/bacnet_manager.go. Bytes are numbers below 256; `b & 0x80` is written as a comparison
-- with 128, `b >> 4` as a division and `b & 0x0f` as a remainder.
pub mod Words
pub mod Trim
pub mod Numeric
pub mod RoundTrip
use multiple_protocol_contro.Common.{List, [], bit_or, drop, false, get_or, if◌then◌else◌, leb}
use multiple_protocol_contro.Common.{length, ltb, take, true, ℕ, ◌%◌, ◌&&◌, ◌*◌, ◌+◌, ◌-◌, ◌/◌}
use multiple_protocol_contro.Common.{◌==◌, ◌^◌, ◌∷◌}
use multiple_protocol_contro.Common.Int.{is_negative, negsuc, of_word, pos, pos_part, to_word, ℤ}
use multiple_protocol_contro.Modbus.Bytes.{put_uint32, put_uint64, uint32_of, uint64_of}
use multiple_protocol_contro.Values.{Floats, IntKind, Result, Value, ValueOf, bad_bool, bad_tag}
use multiple_protocol_contro.Values.{bools, empty_payload, err, integer, items, nil, number}
use multiple_protocol_contro.Values.{of_option, ok, other, require, text, unsupported_type}
use multiple_protocol_contro.Values.{wrong_length, ◌>>=◌, ◌>>◌}

-- encodeUint: the loop stops at the last byte.
unfoldable pub trim_zeros : List ℕ → List ℕ
trim_zeros [] = []
trim_zeros (b ∷ []) = b ∷ []
trim_zeros (b ∷ c ∷ bs) = if b == 0 then trim_zeros (c ∷ bs) else b ∷ c ∷ bs

unfoldable pub encode_uint : ℕ → List ℕ
encode_uint v = if v == 0 then 0 ∷ [] else trim_zeros (put_uint64 v)

-- encodeInt: a byte goes while the next one has the same sign in its top bit.
unfoldable pub trim_nonnegative : List ℕ → List ℕ
trim_nonnegative [] = []
trim_nonnegative (b ∷ []) = b ∷ []
trim_nonnegative (b ∷ c ∷ bs) =
    if b == 0 && ltb c 128 then trim_nonnegative (c ∷ bs) else b ∷ c ∷ bs

unfoldable pub trim_negative : List ℕ → List ℕ
trim_negative [] = []
trim_negative (b ∷ []) = b ∷ []
trim_negative (b ∷ c ∷ bs) = if b == 255 && leb 128 c then trim_negative (c ∷ bs) else b ∷ c ∷ bs

unfoldable pub encode_int : ℤ → List ℕ
encode_int v =
    if is_negative v
    then trim_negative (put_uint64 (to_word (2 ^ 64) v))
    else trim_nonnegative (put_uint64 (to_word (2 ^ 64) v))

-- buildBacnetNumericValue
unfoldable pub build_numeric_value : ℕ → List ℕ → List ℕ
build_numeric_value tag raw =
    if leb (length raw) 4
    then bit_or tag (length raw % 256) ∷ raw
    else bit_or tag 5 ∷ length raw % 256 ∷ raw

unfoldable pub build_unsigned_value : ℕ → List ℕ
build_unsigned_value v = build_numeric_value 32 (encode_uint v)

unfoldable pub build_signed_value : ℤ → List ℕ
build_signed_value v = build_numeric_value 48 (encode_int v)

-- parseUnsigned and parseSigned, without the offset that they return: it is `offset + length`. The
-- value is held as a word of 64 bits.
unfoldable pub shift_in : ℕ → List ℕ → ℕ
shift_in value [] = value
shift_in value (b ∷ bs) = shift_in (bit_or (value * 2 ^ 8 % 2 ^ 64) b) bs

-- `>>` of a signed number rounds down.
abbrev pub shift_right : ℤ → ℕ → ℤ
shift_right (pos n) s = pos (n / 2 ^ s)
shift_right (negsuc n) s = negsuc (n / 2 ^ s)

unfoldable pub sign_extend : ℕ → ℕ → ℤ
sign_extend word size =
    let shift = 64 - size * 8 in shift_right (of_word (2 ^ 63) (word * 2 ^ shift % 2 ^ 64)) shift

-- `frame[offset : offset+length]` behind the length checks.
unfoldable pub numeric_slice : List ℕ → ℕ → ℕ → Result (List ℕ)
numeric_slice frame offset size = do
  require (ltb 0 size && leb size 8 && leb (offset + size) (length frame)) wrong_length
  ok (take size (drop offset frame))

module _ (fl : Floats) where
  unfoldable pub parse_unsigned : List ℕ → ℕ → ℕ → Result (ValueOf fl × ℕ)
  parse_unsigned frame offset size = do
    bytes ← numeric_slice frame offset size
    ok (integer IntKind.uint64 (pos (shift_in 0 bytes)), offset + size)

  unfoldable pub parse_signed : List ℕ → ℕ → ℕ → Result (ValueOf fl × ℕ)
  parse_signed frame offset size = do
    bytes ← numeric_slice frame offset size
    ok (integer IntKind.int64 (sign_extend (shift_in 0 bytes) size), offset + size)

  unfoldable pub parse_real : List ℕ → ℕ → ℕ → Result (ValueOf fl × ℕ)
  parse_real frame offset size = do
    require (size == 4 && leb (offset + 4) (length frame)) wrong_length
    bits ← of_option (uint32_of (drop offset frame)) wrong_length
    ok (Value.float32 (fl.of_bits32 bits), offset + 4)

  unfoldable pub parse_double : List ℕ → ℕ → ℕ → Result (ValueOf fl × ℕ)
  parse_double frame offset size = do
    require (size == 8 && leb (offset + 8) (length frame)) wrong_length
    bits ← of_option (uint64_of (drop offset frame)) wrong_length
    ok (Value.float64 (fl.of_bits64 bits), offset + 8)

  -- The byte after the tag names the character set and is skipped.
  unfoldable pub parse_string : List ℕ → ℕ → ℕ → Result (ValueOf fl × ℕ)
  parse_string frame offset size = do
    require (leb (offset + size) (length frame) && ltb 0 size) wrong_length
    ok (text (take (size - 1) (drop (offset + 1) frame)), offset + size)

  -- The switch on the tag number.
  unfoldable pub parse_tagged : ℕ → List ℕ → ℕ → ℕ → Result (ValueOf fl × ℕ)
  parse_tagged tag_number frame offset size =
      if tag_number == 2
      then parse_unsigned frame offset size
      else if tag_number == 3
      then parse_signed frame offset size
      else if tag_number == 4
      then parse_real frame offset size
      else if tag_number == 5
      then parse_double frame offset size
      else if tag_number == 7
      then parse_string frame offset size
      else if tag_number == 9
      then parse_unsigned frame offset size
      else err bad_tag

  -- The length and the offset of the contents, after an extended length or without one.
  unfoldable pub content_length : ℕ → List ℕ → Result (ℕ × ℕ)
  content_length size frame =
      if size == 5
      then (require (leb 2 (length frame)) wrong_length
          >> require (ltb (get_or frame 1 0) 254) wrong_length
          >> ok (get_or frame 1 0, 2))
      else ok (size, 1)

  unfoldable pub parse_application_value : List ℕ → Result (ValueOf fl × ℕ)
  parse_application_value [] = err empty_payload
  parse_application_value (tag ∷ rest) =
      if tag / 8 % 2 == 1
      then err bad_tag
      else if tag / 16 == 1
      then (if ltb 1 (tag % 8) then err bad_bool else ok (Value.bool (tag % 8 == 1), 1))
      else if ltb 5 (tag % 8)
      then err wrong_length
      else content_length (tag % 8) (tag ∷ rest) >>= λ c.
          parse_tagged (tag / 16) (tag ∷ rest) c.1 c.0

  unfoldable pub build_integer : IntKind → ℤ → List ℕ
  build_integer IntKind.int n = build_signed_value n
  build_integer IntKind.int8 n = build_signed_value n
  build_integer IntKind.int16 n = build_signed_value n
  build_integer IntKind.int32 n = build_signed_value n
  build_integer IntKind.int64 n = build_signed_value n
  build_integer IntKind.uint n = build_unsigned_value (pos_part n)
  build_integer IntKind.uint8 n = build_unsigned_value (pos_part n)
  build_integer IntKind.uint16 n = build_unsigned_value (pos_part n)
  build_integer IntKind.uint32 n = build_unsigned_value (pos_part n)
  build_integer IntKind.uint64 n = build_unsigned_value (pos_part n)

  unfoldable pub build_application_value : ValueOf fl → Result (List ℕ)
  build_application_value (Value.bool true) = ok (17 ∷ [])
  build_application_value (Value.bool false) = ok (16 ∷ [])
  build_application_value (Value.float32 x) = ok (68 ∷ put_uint32 (fl.bits32 x))
  build_application_value (Value.float64 x) = ok (build_numeric_value 80 (put_uint64 (fl.bits64 x)))
  build_application_value (integer k n) = ok (build_integer k n)
  build_application_value nil = err unsupported_type
  build_application_value (number s) = err unsupported_type
  build_application_value (text s) = err unsupported_type
  build_application_value (bools bs) = err unsupported_type
  build_application_value (items vs) = err unsupported_type
  build_application_value other = err unsupported_type
