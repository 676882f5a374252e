-- ===== src/Bacnet/Exchange/Late.antt =====
-- Answers that come late, and the identifiers of requests.
use multiple_protocol_contro.Common.{All, List, Text, [], arith, false, length, none, refl}
use multiple_protocol_contro.Common.{take_all, ℕ, ◌<◌, ◌==◌, ◌∙◌, ◌∷◌, ◌≡◌, ◌≢◌, ◌≤◌}
use multiple_protocol_contro.Bacnet.Exchange.{answer_or, await_read, await_write, done_or}
use multiple_protocol_contro.Bacnet.Exchange.{read_present_value, write_present_value}
use multiple_protocol_contro.Bacnet.Frame.{build_read_request, build_write_request}
use multiple_protocol_contro.Bacnet.Frame.{next_invoke_id, parse_read_apdu, parse_read_response}
use multiple_protocol_contro.Bacnet.Frame.Answer.{parse_read_response-read_answer}
use multiple_protocol_contro.Bacnet.Frame.Answer.{parse_read_response-reply_of, read_answer}
use multiple_protocol_contro.Bacnet.Frame.Answer.{reply_of, write_answer, write_answer_refused}
use multiple_protocol_contro.Bacnet.Value.{build_application_value}
use multiple_protocol_contro.Bacnet.Value.RoundTrip.{read_value}
use multiple_protocol_contro.Modbus.Bytes.{put_uint16}
use multiple_protocol_contro.Values.{FloatLaws, Floats, ValueOf, err, ok, short_frame}
use multiple_protocol_contro.Values.Coerce.Exact.{IsTyped}

next_invoke_id-ne : (id : ℕ) → id < 256 → next_invoke_id id ≢ id
unfolding next_invoke_id
next_invoke_id-ne id small same = ground arith

module _ (fl : Floats) where
  parse_read_response-other :
      (invoke_id other_id object_number : ℕ) (bytes : List ℕ)
      → other_id ≢ invoke_id
      → parse_read_response fl (read_answer other_id object_number bytes) invoke_id ≡ ok none
  unfolding read_answer parse_read_apdu
  parse_read_response-other invoke_id other_id object_number bytes h =
      let other_request : (other_id == invoke_id) ≡ false = ground arith in
      parse_read_response-reply_of fl _ invoke_id (omega arith) ∙ rw other_request refl

-- An answer of the device, by its invoke id, object identifier and value bytes.
abbrev pub Answered : Type 0
Answered = ℕ × (ℕ × List ℕ)

abbrev pub frame_with : Answered → List ℕ
frame_with a = read_answer a.0 a.1.0 a.1.1

-- No longer than the buffer that it is read into.
abbrev pub FitsBuffer : List ℕ → Type 0
FitsBuffer datagram = length datagram ≤ 1500

-- An answer to another request.
abbrev pub IsLate : ℕ → Answered → Type 0
IsLate invoke_id a = (a.0 ≢ invoke_id) × FitsBuffer (frame_with a)

abbrev pub frames_with : List Answered → List (List ℕ) → List (List ℕ)
frames_with [] later = later
frames_with (a ∷ answers) later = frame_with a ∷ frames_with answers later

module _ (fl : Floats) (laws : FloatLaws fl) where
  await_read-frames_with :
      (invoke_id : ℕ) (late : List Answered) (later : List (List ℕ))
      → All (IsLate invoke_id) late
      → await_read fl invoke_id (frames_with late later) ≡ await_read fl invoke_id later
  unfolding await_read answer_or
  await_read-frames_with invoke_id [] later h = refl
  await_read-frames_with invoke_id (a ∷ late) later ((h, fits), hs) =
      rw
        (
          take_all 1500 (frame_with a) fits,
          parse_read_response-other fl invoke_id a.0 a.1.0 a.1.1 h,
        )
        (await_read-frames_with invoke_id late later hs)

  -- A read whose request can be built returns the value of its own answer, whatever answers to reads
  -- with other invoke ids arrive before it, with values of any form, and whatever arrives after it, if
  -- the answers fit the buffer of 1500 bytes; and the invoke id of its request is not that of the request
  -- before.
  pub read_present_value-late :
      (object_type : Text) (instance_number last_id object_number : ℕ) (v : ValueOf fl)
      (request bytes : List ℕ) (late : List Answered) (later : List (List ℕ))
      → last_id < 256
      → build_read_request (next_invoke_id last_id) object_type instance_number ≡ ok request
      → IsTyped v
      → build_application_value fl v ≡ ok bytes
      → All (IsLate (next_invoke_id last_id)) late
      → FitsBuffer (read_answer (next_invoke_id last_id) object_number bytes)
      → let id = next_invoke_id last_id in
        let frames = frames_with late (read_answer id object_number bytes ∷ later) in
        (read_present_value fl object_type instance_number frames last_id
          ≡ (id, ok (request, read_value v)))
        × (id ≢ last_id)
  unfolding read_present_value await_read answer_or
  read_present_value-late object_type instance_number last_id object_number v request bytes late
        later small requested typed encoded others fits =
      let id = next_invoke_id last_id in
      let frames = frames_with late (read_answer id object_number bytes ∷ later) in
      let own : await_read fl id (read_answer id object_number bytes ∷ later) ≡ ok (read_value v) =
        rw
          (
            take_all 1500 (read_answer id object_number bytes) fits,
            parse_read_response-read_answer fl laws id object_number v bytes typed encoded,
          )
          refl in
      let whole : await_read fl id frames ≡ ok (read_value v) =
        await_read-frames_with id late (read_answer id object_number bytes ∷ later) others ∙ own in
      (rw (requested, whole) refl, next_invoke_id-ne last_id small)

-- A write whose request can be built fails, as too short an answer, when the simple ACK of nine bytes
-- with which the device confirms it is the first datagram to arrive.
pub write_present_value-confirmed :
    (fl : Floats) (object_type : Text) (instance_number last_id : ℕ) (v : ValueOf fl)
    (request : List ℕ) (later : List (List ℕ))
    → build_write_request fl (next_invoke_id last_id) object_type instance_number v ≡ ok request
    → write_present_value fl object_type instance_number v
        (write_answer (next_invoke_id last_id) ∷ later)
        last_id
      ≡ (next_invoke_id last_id, err short_frame)
unfolding write_present_value await_write done_or
write_present_value-confirmed fl object_type instance_number last_id v request later requested =
    let id = next_invoke_id last_id in
    rw
      (
        requested,
        take_all 1500 (write_answer id) (unfold write_answer reply_of put_uint16 in omega arith),
        write_answer_refused id,
      )
      refl
