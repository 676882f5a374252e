-- ===== src/Modbus/Collect.antt =====
-- The second half of `collectModbusBatch` of internal/collector/modbus.go: the values of a batch from
-- the response to its request.
pub mod Device
pub mod Agree
use multiple_protocol_contro.Common.{List, Text, [], drop, false, get_or, if◌then◌else◌, leb}
use multiple_protocol_contro.Common.{length, ltb, not, take, ℕ, ◌%◌, ◌&&◌, ◌*◌, ◌+◌, ◌-◌, ◌/◌}
use multiple_protocol_contro.Common.{◌==◌, ◌^◌, ◌||◌, ◌∷◌}
use multiple_protocol_contro.Modbus.Batch.{BatchQuery}
use multiple_protocol_contro.Modbus.Crc.{verify_crc}
use multiple_protocol_contro.Modbus.Decode.{decode_register_value, payload_of}
use multiple_protocol_contro.Modbus.Registers.{ModbusParam, quantity_for_param}
use multiple_protocol_contro.Values.{Floats, Result, Value, ValueOf, crc_mismatch, err, ok, panic}
use multiple_protocol_contro.Values.{require, unsupported_function, ◌>>=◌, ◌>>◌}

-- `registerByteSize`
abbrev pub register_byte_size : ModbusParam → ℕ
register_byte_size p = quantity_for_param p * 2

-- `recordCollectedValue`, or the log entry of a value that did not decode; `rest` is what the points
-- after this one record.
unfoldable pub record_value {ℓ} :
    {V : Type ℓ} → Text → Result V → Result (List (Text × V)) → Result (List (Text × V))
record_value identify (ok v) (ok rest) = ok ((identify, v) ∷ rest)
record_value identify (ok v) (err e) = err e
record_value identify (ok v) panic = panic
record_value identify (err e) rest = rest
record_value identify panic rest = panic

module _ (fl : Floats) where
  -- A point below the start or beyond the payload is passed over. The offsets of the source are int64:
  -- at addresses where they would wrap, both ways pass the point over.
  unfoldable pub register_values : ℕ → List ℕ → List ModbusParam → Result (List (Text × ValueOf fl))
  register_values start payload [] = ok []
  register_values start payload (p ∷ ps) =
      let rest = register_values start payload ps in
      let offset = (p.address - start) * 2 in
      let need = register_byte_size p in
      if ltb p.address start
      then rest
      else if ltb (length payload) (offset + need)
      then rest
      else record_value p.identify (decode_register_value fl p (take need (drop offset payload)))
          rest

  unfoldable pub decode_register_batch : BatchQuery → List ℕ → Result (List (Text × ValueOf fl))
  decode_register_batch q frame = do
    payload ← payload_of frame
    register_values q.start_addr payload q.params

  -- An offset between -7 and -1 divides to 0 in Go, and its bit, shifted by a huge number, is 0. No
  -- request has such a point.
  unfoldable pub discrete_values : ℕ → List ℕ → List ModbusParam → Result (List (Text × ValueOf fl))
  discrete_values start payload [] = ok []
  discrete_values start payload (p ∷ ps) =
      let rest = discrete_values start payload ps in
      let offset = p.address - start in
      if ltb p.address start && not (ltb (start - p.address) 8)
      then rest
      else if leb (length payload) (offset / 8)
      then rest
      else if ltb p.address start
      then record_value p.identify (ok (Value.bool false)) rest
      else record_value p.identify
          (ok (Value.bool (get_or payload (offset / 8) 0 / 2 ^ (offset % 8) % 2 == 1))) rest

  unfoldable pub decode_discrete_batch : BatchQuery → List ℕ → Result (List (Text × ValueOf fl))
  decode_discrete_batch q frame = do
    payload ← payload_of frame
    discrete_values q.start_addr payload q.params

  unfoldable pub batch_response : BatchQuery → List ℕ → Result (List (Text × ValueOf fl))
  batch_response q buffer = do
    require (verify_crc buffer) crc_mismatch
    if q.function_code == 1 || q.function_code == 2
        then decode_discrete_batch q buffer
        else if q.function_code == 3 || q.function_code == 4
        then decode_register_batch q buffer
        else err unsupported_function
