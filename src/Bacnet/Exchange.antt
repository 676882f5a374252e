-- ===== src/Bacnet/Exchange.antt =====
-- The loops of ReadPresentValue and WritePresentValue of internal/conn/bacnet_manager.go over the
-- datagrams that arrive: a list, at whose end the read fails, as at the deadline.
pub mod Late
use multiple_protocol_contro.Common.{Bool, List, Option, Text, [], false, none, some, take, true}
use multiple_protocol_contro.Common.{ℕ, ◌∷◌}
use multiple_protocol_contro.Bacnet.Frame.{build_read_request, build_write_request}
use multiple_protocol_contro.Bacnet.Frame.{next_invoke_id, parse_read_response}
use multiple_protocol_contro.Bacnet.Frame.{parse_write_response}
use multiple_protocol_contro.Values.{Floats, Result, ValueOf, err, io_failed, ok, panic, ◌>>=◌}
use multiple_protocol_contro.Values.{◌>>◌}

-- After a datagram: return what it says, or read on.
unfoldable pub answer_or {ℓ} : {A : Type ℓ} → Result (Option A) → Result A → Result A
answer_or (ok none) later = later
answer_or (ok (some value)) later = ok value
answer_or (err e) later = err e
answer_or panic later = panic

unfoldable pub done_or : Result Bool → Result (Unit {0}) → Result (Unit {0})
done_or (ok false) later = later
done_or (ok true) later = ok tt
done_or (err e) later = err e
done_or panic later = panic

-- Conn.Read into the buffer of 1500 bytes, which cuts off what a longer datagram has beyond it.
abbrev pub buffered : List ℕ → List ℕ
buffered datagram = take 1500 datagram

module _ (fl : Floats) where
  unfoldable pub await_read : ℕ → List (List ℕ) → Result (ValueOf fl)
  await_read invoke_id [] = err io_failed
  await_read invoke_id (frame ∷ frames) =
      answer_or (parse_read_response fl (buffered frame) invoke_id) (await_read invoke_id frames)

unfoldable pub await_write : ℕ → List (List ℕ) → Result (Unit {0})
await_write invoke_id [] = err io_failed
await_write invoke_id (frame ∷ frames) =
    done_or (parse_write_response (buffered frame) invoke_id) (await_write invoke_id frames)

-- A read from the invoke id of the connection on: the request that is sent, the new invoke id, and what
-- comes of the datagrams. An object type that is not known ends it before anything is sent, but after
-- the invoke id has been taken.
module _ (fl : Floats) where
  unfoldable pub read_present_value :
      Text → ℕ → List (List ℕ) → ℕ → ℕ × Result (List ℕ × ValueOf fl)
  read_present_value object_type instance_number frames last_id =
      let invoke_id = next_invoke_id last_id in
      (
        invoke_id,
        build_read_request invoke_id object_type instance_number >>= λ request.
            await_read fl invoke_id frames >>= λ value. ok (request, value),
      )

  unfoldable pub write_present_value :
      Text → ℕ → ValueOf fl → List (List ℕ) → ℕ → ℕ × Result (List ℕ)
  write_present_value object_type instance_number value frames last_id =
      let invoke_id = next_invoke_id last_id in
      (
        invoke_id,
        build_write_request fl invoke_id object_type instance_number value >>= λ request.
            await_write invoke_id frames >> ok request,
      )
