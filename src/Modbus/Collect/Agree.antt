-- ===== src/Modbus/Collect/Agree.antt =====
-- A batch records for each of its points what a request for that point alone would have given.
use multiple_protocol_contro.Common.{All, List, Text, [], arith, false, length, ltb, refl, true}
use multiple_protocol_contro.Common.{ℕ, ◌*◌, ◌+◌, ◌-◌, ◌<◌, ◌==◌, ◌||◌, ◌∷◌, ◌≡◌, ◌≤◌, ◌⊎◌}
use multiple_protocol_contro.Modbus.Batch.{BatchQuery, param_width}
use multiple_protocol_contro.Modbus.Batch.Builder.{Covers, Within, quantity-le-width}
use multiple_protocol_contro.Modbus.Collect.{batch_response, decode_register_batch, record_value}
use multiple_protocol_contro.Modbus.Collect.{register_values}
use multiple_protocol_contro.Modbus.Collect.Device.{image, length-image, payload_of-respond}
use multiple_protocol_contro.Modbus.Collect.Device.{respond_registers, slice-image}
use multiple_protocol_contro.Modbus.Collect.Device.{verify_crc-respond}
use multiple_protocol_contro.Modbus.Decode.{decode_payload, decode_register_value, read_response}
use multiple_protocol_contro.Modbus.Registers.{ModbusParam, quantity_for_param}
use multiple_protocol_contro.Values.{Floats, Result, ValueOf, ok}

register_tests :
    (fc : ℕ) → (fc ≡ 3) ⊎ (fc ≡ 4) → ((fc == 1 || fc == 2) ≡ false) × ((fc == 3 || fc == 4) ≡ true)
register_tests fc h = ground arith

code-lt : (fc : ℕ) → (fc ≡ 3) ⊎ (fc ≡ 4) → fc < 256
code-lt fc h = omega arith

module _ (fl : Floats) (mem : ℕ → ℕ) (device : ℕ) where
  -- The points one by one, each by a request of its own.
  unfoldable pub single_values : List ModbusParam → Result (List (Text × ValueOf fl))
  single_values [] = ok []
  single_values (p ∷ ps) =
      record_value p.identify
        (read_response fl p
          (respond_registers device p.function_code mem p.address (quantity_for_param p)))
        (single_values ps)

  abbrev IsRegister : ModbusParam → Type 0
  IsRegister p = (p.function_code ≡ 3) ⊎ (p.function_code ≡ 4)

  read_response-respond :
      (p : ModbusParam)
      → IsRegister p
      → device < 256
      → quantity_for_param p * 2 < 256
      → read_response fl p
          (respond_registers device p.function_code mem p.address (quantity_for_param p))
        ≡ decode_register_value fl p (image mem p.address (quantity_for_param p))
  unfolding read_response decode_payload
  read_response-respond p c d h =
      let fc : ℕ = p.function_code in
      rw (
        verify_crc-respond device fc mem p.address (quantity_for_param p) d (code-lt fc c) h,
        payload_of-respond device fc mem p.address (quantity_for_param p),
        (register_tests fc c).0,
        (register_tests fc c).1,
      )

  register_values-agree :
      (fc start n : ℕ) (ps : List ModbusParam)
      → (fc ≡ 3) ⊎ (fc ≡ 4)
      → device < 256
      → 1 ≤ n
      → n * 2 < 256
      → All (Within fc start (start + n - 1)) ps
      → register_values fl start (image mem start n) ps ≡ single_values ps
  unfolding register_values single_values
  register_values-agree fc start n [] c d some_register small h = refl
  register_values-agree fc start n (p ∷ ps) c d some_register small (w, ws) =
      let reg : IsRegister p = rw w.code c in
      let width : quantity_for_param p ≤ param_width p =
        quantity-le-width p (register_tests p.function_code reg).0 in
      let k : ℕ = p.address - start in
      let q : ℕ = quantity_for_param p in
      let above : ltb p.address start ≡ false = ground (arith, w.from) in
      let inside : ltb (length (image mem start n)) (k * 2 + q * 2) ≡ false =
        ground (arith, length-image mem start n, w.from, w.upto) in
      let at : start + k ≡ p.address = omega (arith, w.from) in
      rw (
        above,
        inside,
        slice-image mem start n k q (omega (arith, w.from, w.upto)),
        at,
        register_values-agree fc start n ps c d some_register small ws,
        read_response-respond p reg d (omega (arith, w.from, w.upto)),
      )

  -- For a register request that spans its points, of at most 127 registers: from the answer of a
  -- device to the batch the collector records the same values, in the same order and with the same
  -- points left out, as from its answers to a request for each point.
  pub batch_response-agree :
      (q : BatchQuery)
      → (q.function_code ≡ 3) ⊎ (q.function_code ≡ 4)
      → device < 256
      → q.quantity < 128
      → Covers q.function_code q
      → batch_response fl q (respond_registers device q.function_code mem q.start_addr q.quantity)
        ≡ single_values q.params
  unfolding batch_response decode_register_batch
  batch_response-agree q c d small v =
      let fc : ℕ = q.function_code in
      rw
        (
          verify_crc-respond device fc mem q.start_addr q.quantity d (code-lt fc c) (omega arith),
          (register_tests fc c).0,
          (register_tests fc c).1,
          payload_of-respond device fc mem q.start_addr q.quantity,
        )
        (register_values-agree fc q.start_addr q.quantity q.params c d v.nonempty (omega arith)
          v.spans)
