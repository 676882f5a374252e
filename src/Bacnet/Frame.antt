-- ===== src/Bacnet/Frame.antt =====
-- Request and response frames of internal/conn/bacnet_manager.go. `b & 0x08` is written as a digit of
-- the byte and `instance & 0x3FFFFF` as a remainder; an index is read after the length checks that
-- precede it in the source, and a check that a frame of ten bytes always passes is left out.
pub mod Answer
use multiple_protocol_contro.Common.{Bool, List, Option, Text, [], bit_or, codes, drop, false}
use multiple_protocol_contro.Common.{get_or, if◌then◌else◌, leb, length, ltb, none, not, some}
use multiple_protocol_contro.Common.{switch, take, to_lower, trim_space, true, ℕ, ◌%◌, ◌&&◌, ◌*◌}
use multiple_protocol_contro.Common.{◌++◌, ◌+◌, ◌/◌, ◌==◌, ◌^◌, ◌||◌, ◌∷◌}
use multiple_protocol_contro.Bacnet.Value.{build_application_value, parse_application_value}
use multiple_protocol_contro.Modbus.Bytes.{put_uint16, put_uint32}
use multiple_protocol_contro.Values.{Floats, Result, ValueOf, bad_bvlc, bad_npdu, bad_service}
use multiple_protocol_contro.Values.{bad_tag, err, error_response, missing_tag, ok, require}
use multiple_protocol_contro.Values.{short_frame, trailing_bytes, unsupported_type, wrong_length}
use multiple_protocol_contro.Values.{◌>>=◌, ◌>>◌}

-- nextInvokeID: the new identifier, of the one before.
unfoldable pub next_invoke_id : ℕ → ℕ
next_invoke_id id = if (id + 1) % 256 == 0 then 1 else (id + 1) % 256

-- strings.ReplaceAll(s, c, "") for a text c of one byte.
unfoldable pub without_byte : ℕ → Text → Text
without_byte c [] = []
without_byte c (d ∷ s) = if d == c then without_byte c s else d ∷ without_byte c s

-- bacnetObjectTypeID
unfoldable pub object_type_id : Text → Result ℕ
object_type_id object_type =
    switch
      ((codes "analoginput", ok 0)
        ∷ (codes "analogoutput", ok 1)
        ∷ (codes "analogvalue", ok 2)
        ∷ (codes "binaryinput", ok 3)
        ∷ (codes "binaryoutput", ok 4)
        ∷ (codes "binaryvalue", ok 5)
        ∷ (codes "multistateinput", ok 13)
        ∷ (codes "multistateoutput", ok 14)
        ∷ (codes "multistatevalue", ok 19)
        ∷ [])
      (err unsupported_type)
      (to_lower (without_byte b'-' (without_byte b'_' (trim_space object_type))))

unfoldable pub object_id : ℕ → ℕ → ℕ
object_id type_id instance_number = bit_or (type_id * 2 ^ 22 % 2 ^ 32) (instance_number % 2 ^ 22)

-- The BVLC and NPDU headers before an APDU.
unfoldable pub frame_of : List ℕ → List ℕ
frame_of apdu = 129 ∷ 10 ∷ (put_uint16 ((6 + length apdu) % 2 ^ 16) ++ (1 ∷ 4 ∷ apdu))

unfoldable pub build_read_request : ℕ → Text → ℕ → Result (List ℕ)
build_read_request invoke_id object_type instance_number = do
  type_id ← object_type_id object_type
  ok (
      frame_of (
        0
        ∷ 5
        ∷ invoke_id
        ∷ 12
        ∷ 12
        ∷ (put_uint32 (object_id type_id instance_number) ++ (25 ∷ 85 ∷ []))))

-- The loop over the context fields of extractReadPropertyValue, a pass at a time, on what is left of
-- the body.
valid_length : ℕ → ℕ → Bool
valid_length field n = not ((field == 0 && not (n == 4)) || (field == 1 && (ltb n 1 || ltb 4 n)))

unfoldable pub skip_content : ℕ → ℕ → List ℕ → Result (List ℕ)
unfolding valid_length
skip_content field n rest = do
  require (valid_length field n) wrong_length
  require (not (ltb (length rest) n)) wrong_length
  ok (drop n rest)

unfoldable pub skip_extended : ℕ → List ℕ → Result (List ℕ)
skip_extended field [] = err wrong_length
skip_extended field (n ∷ rest) = skip_content field n rest

unfoldable pub skip_field : ℕ → List ℕ → Result (List ℕ)
skip_field field [] = err missing_tag
skip_field field (b ∷ rest) =
    if not (b / 16 == field) || b / 8 % 2 == 0
    then err missing_tag
    else if b % 8 == 5
    then skip_extended field rest
    else skip_content field (b % 8) rest

unfoldable pub closing_tag : List ℕ → Result (Unit {0})
closing_tag [] = err missing_tag
closing_tag (b ∷ rest) =
    if not (b == 63) then err missing_tag else require (length rest == 0) trailing_bytes

-- The closing comparison of a frame's own length, in uint16.
unfoldable pub bvlc_length : List ℕ → ℕ
bvlc_length frame = get_or frame 2 0 * 2 ^ 8 + get_or frame 3 0

module _ (fl : Floats) where
  unfoldable pub value_payload : List ℕ → Result (List ℕ)
  value_payload [] = err missing_tag
  value_payload (b ∷ rest) =
      if not (b == 62)
      then err missing_tag
      else parse_application_value fl rest >>= λ r.
          closing_tag (drop r.1 rest) >> ok (take r.1 rest)

  unfoldable pub extract_read_property_value : List ℕ → Result (List ℕ)
  extract_read_property_value body = do
    after_object ← skip_field 0 body
    after_property ← skip_field 1 after_object
    value_payload after_property

  unfoldable pub build_write_request : ℕ → Text → ℕ → ValueOf fl → Result (List ℕ)
  build_write_request invoke_id object_type instance_number value = do
    type_id ← object_type_id object_type
    payload ← build_application_value fl value
    ok (
        frame_of (
          0
          ∷ 5
          ∷ invoke_id
          ∷ 15
          ∷ 12
          ∷ (put_uint32 (object_id type_id instance_number)
              ++ (25 ∷ 85 ∷ 62 ∷ (payload ++ (63 ∷ []))))))

  -- The APDU of the response, from its first octet on: none where the caller reads on.
  unfoldable pub parse_read_apdu : List ℕ → ℕ → Result (Option (ValueOf fl))
  parse_read_apdu apdu invoke_id =
      if get_or apdu 0 0 / 16 == 3
      then (if not (get_or apdu 1 0 == invoke_id)
          then ok none
          else if not (get_or apdu 2 0 == 12)
          then err bad_service
          else extract_read_property_value (drop 3 apdu) >>= λ payload.
              parse_application_value fl payload >>= λ r. ok (some r.0))
      else if get_or apdu 0 0 / 16 == 5
      then err error_response
      else err bad_tag

  unfoldable pub parse_read_response : List ℕ → ℕ → Result (Option (ValueOf fl))
  parse_read_response frame invoke_id = do
    require (not (ltb (length frame) 10)) short_frame
    require (get_or frame 0 0 == 129) bad_bvlc
    require (leb (bvlc_length frame) (length frame % 2 ^ 16)) bad_bvlc
    require (get_or frame 4 0 == 1) bad_npdu
    parse_read_apdu (drop 6 frame) invoke_id

-- parseWritePresentValueResponse, which leaves the BVLC length unread; false where the caller reads on.
unfoldable pub parse_write_apdu : List ℕ → ℕ → Result Bool
parse_write_apdu apdu invoke_id =
    if get_or apdu 0 0 / 16 == 2
    then (if not (get_or apdu 1 0 == invoke_id)
        then ok false
        else if not (get_or apdu 2 0 == 15)
        then err bad_service
        else ok true)
    else if get_or apdu 0 0 / 16 == 5
    then err error_response
    else err bad_tag

unfoldable pub parse_write_response : List ℕ → ℕ → Result Bool
parse_write_response frame invoke_id = do
  require (not (ltb (length frame) 10)) short_frame
  require (get_or frame 0 0 == 129) bad_bvlc
  require (get_or frame 4 0 == 1) bad_npdu
  parse_write_apdu (drop 6 frame) invoke_id
