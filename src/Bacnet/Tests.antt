-- ===== src/Bacnet/Tests.antt =====
-- Concrete BACnet frames, and the theorems at concrete inputs.
use multiple_protocol_contro.Common.{List, [], ap, arith, codes, lower, refl, some, switch}
use multiple_protocol_contro.Common.{text_eq, trim_space, ℕ, ◌∷◌, ◌≡◌, ◌≢◌}
use multiple_protocol_contro.Common.Int.{negsuc, to_word}
use multiple_protocol_contro.Bacnet.Exchange.{read_present_value, write_present_value}
use multiple_protocol_contro.Bacnet.Exchange.Late.{frames_with, read_present_value-late}
use multiple_protocol_contro.Bacnet.Exchange.Late.{write_present_value-confirmed}
use multiple_protocol_contro.Bacnet.Frame.{build_read_request, build_write_request, frame_of}
use multiple_protocol_contro.Bacnet.Frame.{next_invoke_id, object_id, object_type_id}
use multiple_protocol_contro.Bacnet.Frame.{parse_read_response, without_byte}
use multiple_protocol_contro.Bacnet.Frame.Answer.{parse_read_response-read_answer, read_answer}
use multiple_protocol_contro.Bacnet.Frame.Answer.{reply_of, write_answer}
use multiple_protocol_contro.Bacnet.Value.{build_application_value, build_integer}
use multiple_protocol_contro.Bacnet.Value.{build_numeric_value, build_signed_value, encode_int}
use multiple_protocol_contro.Bacnet.Value.{parse_application_value, trim_negative}
use multiple_protocol_contro.Bacnet.Value.RoundTrip.{parse-build}
use multiple_protocol_contro.Modbus.Bytes.{put_uint16, put_uint32, put_uint64}
use multiple_protocol_contro.Values.{IntKind, ValueOf, err, integer, ok, short_frame}
use multiple_protocol_contro.Values.Samples.{two_floats, two_floats_laws}

minus_300 : build_signed_value (negsuc 299) ≡ 50 ∷ 254 ∷ 212 ∷ []
unfolding build_signed_value build_numeric_value encode_int trim_negative put_uint64 to_word
minus_300 = refl

abbrev reading : ValueOf two_floats
reading = integer IntKind.int16 (negsuc 299)

reading_built : build_application_value two_floats reading ≡ ok (50 ∷ 254 ∷ 212 ∷ [])
unfolding build_application_value build_integer
reading_built = ap ok minus_300

parse-build_example :
    parse_application_value two_floats (50 ∷ 254 ∷ 212 ∷ 63 ∷ [])
    ≡ ok (integer IntKind.int64 (negsuc 299), 3)
parse-build_example =
    parse-build two_floats two_floats_laws reading (50 ∷ 254 ∷ 212 ∷ []) (63 ∷ []) (omega arith)
      reading_built

analog_value_7 : object_id 2 7 ≡ 8388615
unfolding object_id
analog_value_7 = refl

parse_read_response-read_answer_example :
    parse_read_response two_floats (read_answer 9 8388615 (50 ∷ 254 ∷ 212 ∷ [])) 9
    ≡ ok (some (integer IntKind.int64 (negsuc 299)))
parse_read_response-read_answer_example =
    parse_read_response-read_answer two_floats two_floats_laws 9 8388615 reading
      (50 ∷ 254 ∷ 212 ∷ []) (omega arith) reading_built

abbrev read_request : List ℕ
read_request = 129 ∷ 10 ∷ 0 ∷ 17 ∷ 1 ∷ 4 ∷ 0 ∷ 5 ∷ 1 ∷ 12 ∷ 12 ∷ 0 ∷ 128 ∷ 0 ∷ 7 ∷ 25 ∷ 85 ∷ []

request_for_value :
    build_read_request (next_invoke_id 255) (codes "Analog-Value") 7 ≡ ok read_request
unfolding next_invoke_id build_read_request object_type_id object_id frame_of put_uint16 put_uint32
    without_byte trim_space switch text_eq lower
request_for_value = refl

-- After the wrap of the identifiers an answer to request 255 comes late.
read_present_value-late_example :
    let id = next_invoke_id 255 in
    let frames =
      frames_with
        ((255, (8388615, 17 ∷ [])) ∷ [])
        (read_answer id 8388615 (50 ∷ 254 ∷ 212 ∷ []) ∷ []) in
    (read_present_value two_floats (codes "Analog-Value") 7 frames 255
      ≡ (id, ok (read_request, integer IntKind.int64 (negsuc 299))))
    × (id ≢ 255)
unfolding next_invoke_id
read_present_value-late_example =
    read_present_value-late two_floats two_floats_laws (codes "Analog-Value") 7 255 8388615 reading
      read_request (50 ∷ 254 ∷ 212 ∷ []) ((255, (8388615, 17 ∷ [])) ∷ []) [] (omega arith)
      request_for_value (omega arith) reading_built
      (((λ e. omega arith), unfold read_answer reply_of put_uint16 put_uint32 in omega arith), tt)
      (unfold read_answer reply_of put_uint16 put_uint32 in omega arith)

abbrev write_request : List ℕ
write_request =
    129 ∷ 10 ∷ 0 ∷ 22 ∷ 1 ∷ 4 ∷ 0 ∷ 5 ∷ 10 ∷ 15 ∷ 12 ∷ 0 ∷ 128 ∷ 0 ∷ 7 ∷ 25 ∷ 85 ∷ 62 ∷ 50 ∷ 254
    ∷ 212 ∷ 63 ∷ []

request_to_write :
    build_write_request two_floats (next_invoke_id 9) (codes "Analog-Value") 7 reading
    ≡ ok write_request
unfolding next_invoke_id build_write_request object_type_id object_id frame_of put_uint16 put_uint32
    without_byte trim_space switch text_eq lower build_application_value build_integer
    build_signed_value build_numeric_value encode_int trim_negative put_uint64 to_word
request_to_write = refl

write_present_value-confirmed_example :
    write_present_value two_floats
      (codes "Analog-Value")
      7
      reading
      (write_answer (next_invoke_id 9) ∷ [])
      9
    ≡ (next_invoke_id 9, err short_frame)
write_present_value-confirmed_example =
    write_present_value-confirmed two_floats (codes "Analog-Value") 7 9 reading write_request []
      request_to_write

-- An answer of a device, which is none of the encoder's frames.
float_ack :
    read_answer 7 2 (68 ∷ 63 ∷ 128 ∷ 0 ∷ 0 ∷ [])
    ≡ 129 ∷ 10 ∷ 0 ∷ 23 ∷ 1 ∷ 0 ∷ 48 ∷ 7 ∷ 12 ∷ 12 ∷ 0 ∷ 0 ∷ 0 ∷ 2 ∷ 25 ∷ 85 ∷ 62 ∷ 68 ∷ 63 ∷ 128
      ∷ 0 ∷ 0 ∷ 63 ∷ []
unfolding read_answer reply_of put_uint16 put_uint32
float_ack = refl
