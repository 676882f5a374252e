-- ===== src/Bacnet/Frame/Answer.antt =====
-- The frames in which a device answers, as the BACnet standard lays them out, and what the client makes
-- of them.
use multiple_protocol_contro.Common.{==_refl, List, [], ap, append-nil, arith, drop-append, false}
use multiple_protocol_contro.Common.{leb, length, le→leb, ltb, refl, some, suc, sym, take-append}
use multiple_protocol_contro.Common.{true, ℕ, ◌%◌, ◌*◌, ◌++◌, ◌+◌, ◌/◌, ◌^◌, ◌∙◌, ◌∷◌, ◌≡◌, ◌≤◌}
use multiple_protocol_contro.Bacnet.Frame.{bvlc_length, closing_tag, extract_read_property_value}
use multiple_protocol_contro.Bacnet.Frame.{parse_read_apdu, parse_read_response}
use multiple_protocol_contro.Bacnet.Frame.{parse_write_response, skip_content, skip_field}
use multiple_protocol_contro.Bacnet.Frame.{value_payload}
use multiple_protocol_contro.Bacnet.Value.{build_application_value, parse_application_value}
use multiple_protocol_contro.Bacnet.Value.RoundTrip.{parse-build, read_value}
use multiple_protocol_contro.Modbus.Bytes.{put_uint16, put_uint32}
use multiple_protocol_contro.Values.{FloatLaws, Floats, ValueOf, err, ok, short_frame}
use multiple_protocol_contro.Values.Coerce.Exact.{IsTyped}

-- The BVLC and NPDU headers of an answer, whose control octet is 0: it expects no reply.
unfoldable pub reply_of : List ℕ → List ℕ
reply_of apdu = 129 ∷ 10 ∷ (put_uint16 ((6 + length apdu) % 2 ^ 16) ++ (1 ∷ 0 ∷ apdu))

-- A complex ACK to ReadProperty of the present value, for an object identifier of four bytes.
unfoldable pub read_answer : ℕ → ℕ → List ℕ → List ℕ
read_answer invoke_id object_number value =
    reply_of (
      48
      ∷ invoke_id
      ∷ 12
      ∷ 12
      ∷ (put_uint32 object_number ++ (25 ∷ 85 ∷ 62 ∷ (value ++ (63 ∷ [])))))

-- A simple ACK to WriteProperty.
unfoldable pub write_answer : ℕ → List ℕ
write_answer invoke_id = reply_of (32 ∷ invoke_id ∷ 15 ∷ [])

-- The headers before an APDU of at least four bytes pass the checks.
pub parse_read_response-reply_of :
    (fl : Floats) (apdu : List ℕ) (invoke_id : ℕ)
    → 4 ≤ length apdu
    → parse_read_response fl (reply_of apdu) invoke_id ≡ parse_read_apdu fl apdu invoke_id
unfolding parse_read_response reply_of bvlc_length put_uint16
parse_read_response-reply_of fl apdu invoke_id long =
    let n = length apdu in
    let m = suc (suc (suc (suc (suc (suc n))))) in
    let enough : ltb m 10 ≡ false = ground arith in
    let own : leb ((6 + n) % 65536 / 256 % 256 * 256 + (6 + n) % 65536 % 256) (m % 65536) ≡ true =
      le→leb _ _ (omega arith) in
    rw (enough, own) refl

module _ (fl : Floats) (laws : FloatLaws fl) where
  value_payload-build :
      (v : ValueOf fl) (bytes : List ℕ)
      → IsTyped v
      → build_application_value fl v ≡ ok bytes
      → value_payload fl (62 ∷ (bytes ++ (63 ∷ []))) ≡ ok bytes
  unfolding value_payload closing_tag
  value_payload-build v bytes h e =
      rw
        (
          parse-build fl laws v bytes (63 ∷ []) h e,
          drop-append bytes (63 ∷ []),
          take-append bytes (63 ∷ []),
        )
        refl

  extract-build :
      (object_number : ℕ) (v : ValueOf fl) (bytes : List ℕ)
      → IsTyped v
      → build_application_value fl v ≡ ok bytes
      → extract_read_property_value fl
          (12 ∷ (put_uint32 object_number ++ (25 ∷ 85 ∷ 62 ∷ (bytes ++ (63 ∷ [])))))
        ≡ ok bytes
  unfolding extract_read_property_value skip_field skip_content put_uint32
  extract-build object_number v bytes h e =
      let n = length (bytes ++ (63 ∷ [])) in
      let first : ltb (suc (suc (suc (suc (suc (suc (suc n))))))) 4 ≡ false = ground arith in
      let second : ltb (suc (suc n)) 1 ≡ false = ground arith in
      rw (first, second) (value_payload-build v bytes h e)

  parse_read_apdu-build :
      (invoke_id object_number : ℕ) (v : ValueOf fl) (bytes : List ℕ)
      → IsTyped v
      → build_application_value fl v ≡ ok bytes
      → parse_read_apdu fl
          (48
            ∷ invoke_id
            ∷ 12
            ∷ 12
            ∷ (put_uint32 object_number ++ (25 ∷ 85 ∷ 62 ∷ (bytes ++ (63 ∷ [])))))
          invoke_id
        ≡ ok (some (read_value v))
  unfolding parse_read_apdu
  parse_read_apdu-build invoke_id object_number v bytes h e =
      let whole : parse_application_value fl bytes ≡ ok (read_value v, length bytes) =
        ap (parse_application_value fl) (sym (append-nil bytes))
        ∙ parse-build fl laws v bytes [] h e in
      rw (==_refl invoke_id, extract-build object_number v bytes h e, whole) refl

  -- What a device answers to a read of the present value, with the request's invoke id and a value in
  -- the builder's encoding, for any object, the client returns as that value; integers with 64 bits.
  pub parse_read_response-read_answer :
      (invoke_id object_number : ℕ) (v : ValueOf fl) (bytes : List ℕ)
      → IsTyped v
      → build_application_value fl v ≡ ok bytes
      → parse_read_response fl (read_answer invoke_id object_number bytes) invoke_id
        ≡ ok (some (read_value v))
  unfolding read_answer
  parse_read_response-read_answer invoke_id object_number v bytes h e =
      parse_read_response-reply_of fl _ invoke_id (omega arith)
      ∙ parse_read_apdu-build invoke_id object_number v bytes h e

-- A simple ACK to a write is refused as too short.
pub write_answer_refused :
    (invoke_id : ℕ) → parse_write_response (write_answer invoke_id) invoke_id ≡ err short_frame
unfolding parse_write_response write_answer reply_of put_uint16
write_answer_refused invoke_id = refl
