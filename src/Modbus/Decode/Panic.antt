-- ===== src/Modbus/Decode/Panic.antt =====
-- When `decodeRegisterValue` slices beyond its data.
use multiple_protocol_contro.Common.{Bool, Bool-cases, List, Option, arith, false, inl, inr, leb}
use multiple_protocol_contro.Common.{leb→le, length, length-append, length-replicate, length-take}
use multiple_protocol_contro.Common.{ltb, none, refl, replicate, some, take, to_lower, true, ℕ}
use multiple_protocol_contro.Common.{◌*◌, ◌-◌, ◌∙◌, ◌≡◌, ◌≢◌, ◌≤◌}
use multiple_protocol_contro.Modbus.Bytes.{uint16_of, uint16_of_enough, uint32_of}
use multiple_protocol_contro.Modbus.Bytes.{uint32_of_enough, uint64_of, uint64_of_enough}
use multiple_protocol_contro.Modbus.Decode.{decode_register_value, of_slice, pad_bytes}
use multiple_protocol_contro.Modbus.Decode.{required_bytes, value_of_bytes}
use multiple_protocol_contro.Modbus.Endian.{apply_endian, length-apply_endian, normalize_endian}
use multiple_protocol_contro.Modbus.Registers.{ModbusParam, RegisterType, default_quantity}
use multiple_protocol_contro.Modbus.Registers.{double, float, float32, float64, int16, int32}
use multiple_protocol_contro.Modbus.Registers.{int64, quantity_for_param, register_type, short}
use multiple_protocol_contro.Modbus.Registers.{uint32, uint64}
use multiple_protocol_contro.Values.{Floats, ok, panic, ◌>>=◌}

length-pad_bytes : (bytes : List ℕ) → 8 ≤ length (pad_bytes bytes 8)
unfolding pad_bytes
length-pad_bytes bytes = elim (Bool-cases (leb 8 (length bytes))) [
  | inl long ↦ rw long (omega (arith, length-take 8 bytes, leb→le 8 (length bytes) long))
  | inr short_of ↦ rw short_of (
      omega (
        arith,
        length-append (replicate (8 - length bytes) 0) bytes,
        length-replicate {A = ℕ} (8 - length bytes) 0,
      ))
]

bind_of_slice-ne-panic :
    {A : Type 0} (o : Option ℕ) (f : ℕ → A) → o ≢ none → (of_slice o >>= λ w. ok (f w)) ≢ panic
unfolding of_slice
bind_of_slice-ne-panic none f h e = h refl
bind_of_slice-ne-panic (some n) f h e = cc

module _ (fl : Floats) where
  value_of_bytes-ne-panic :
      (t : RegisterType) (explicit : Bool) (bytes : List ℕ)
      → default_quantity t explicit * 2 ≤ length bytes
      → value_of_bytes fl t explicit bytes ≢ panic
  unfolding value_of_bytes default_quantity
  value_of_bytes-ne-panic short x bs h =
      bind_of_slice-ne-panic (uint16_of bs) _ (uint16_of_enough bs h)
  value_of_bytes-ne-panic int16 x bs h =
      bind_of_slice-ne-panic (uint16_of bs) _ (uint16_of_enough bs h)
  value_of_bytes-ne-panic int32 x bs h =
      bind_of_slice-ne-panic (uint32_of bs) _ (uint32_of_enough bs h)
  value_of_bytes-ne-panic uint32 x bs h =
      bind_of_slice-ne-panic (uint32_of bs) _ (uint32_of_enough bs h)
  value_of_bytes-ne-panic float x bs h =
      bind_of_slice-ne-panic (uint32_of bs) _ (uint32_of_enough bs h)
  value_of_bytes-ne-panic float32 false bs h =
      bind_of_slice-ne-panic (uint16_of bs) _ (uint16_of_enough bs h)
  value_of_bytes-ne-panic float32 true bs h =
      bind_of_slice-ne-panic (uint32_of bs) _ (uint32_of_enough bs h)
  value_of_bytes-ne-panic double x bs h =
      bind_of_slice-ne-panic (uint64_of _) _ (uint64_of_enough _ (length-pad_bytes bs))
  value_of_bytes-ne-panic float64 false bs h =
      bind_of_slice-ne-panic (uint16_of bs) _ (uint16_of_enough bs h)
  value_of_bytes-ne-panic float64 true bs h =
      bind_of_slice-ne-panic (uint64_of _) _ (uint64_of_enough _ (length-pad_bytes bs))
  value_of_bytes-ne-panic int64 x bs h =
      bind_of_slice-ne-panic (uint64_of _) _ (uint64_of_enough _ (length-pad_bytes bs))
  value_of_bytes-ne-panic uint64 x bs h =
      bind_of_slice-ne-panic (uint64_of _) _ (uint64_of_enough _ (length-pad_bytes bs))
  value_of_bytes-ne-panic _ x bs h = bind_of_slice-ne-panic (uint16_of bs) _ (uint16_of_enough bs h)

  -- The bytes that are decoded, behind the length check.
  decoded_length :
      (p : ModbusParam) (payload : List ℕ)
      → ltb (length payload) (required_bytes p) ≡ false
      → length (apply_endian (normalize_endian p.endian) (take (required_bytes p) payload))
        ≡ required_bytes p
  decoded_length p payload h =
      length-apply_endian (normalize_endian p.endian) (take (required_bytes p) payload)
      ∙ ground (arith, length-take (required_bytes p) payload)

  -- With a register quantity of at least the width of its type a point is decoded, or refused as too
  -- short, and never panics, whatever the device sent.
  pub decode-ne-panic :
      (p : ModbusParam) (payload : List ℕ)
      → default_quantity (register_type (to_lower p.data_type)) p.explicit ≤ quantity_for_param p
      → decode_register_value fl p payload ≢ panic
  unfolding decode_register_value
  decode-ne-panic p payload h e = elim (Bool-cases (ltb (length payload) (required_bytes p))) [
    | inl small ↦ cc (rw small at e)
    | inr enough ↦
        value_of_bytes-ne-panic (register_type (to_lower p.data_type)) p.explicit _
          (rw (decoded_length p payload enough) (wide enough)) (rw enough at e)
  ]
    where
      wide :
          ltb (length payload) (required_bytes p) ≡ false
          → default_quantity (register_type (to_lower p.data_type)) p.explicit * 2
            ≤ required_bytes p
      wide _ = unfold required_bytes in ground arith
