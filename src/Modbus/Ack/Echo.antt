-- ===== src/Modbus/Ack/Echo.antt =====
-- The acknowledgement of a device that echoes the first six bytes of a write request, as the Modbus
-- protocol has it for the function codes 5, 6, 15 and 16.
use multiple_protocol_contro.Common.{==_iff, All, Bool, Bool-cases, List, [], ap, append_assoc}
use multiple_protocol_contro.Common.{arith, false, get_or, if◌then◌else◌, inl, inr, length, ltb}
use multiple_protocol_contro.Common.{not, refl, take, true, ℕ, ◌%◌, ◌&&◌, ◌++◌, ◌/◌, ◌<◌, ◌==◌}
use multiple_protocol_contro.Common.{◌^◌, ◌∙◌, ◌∷◌, ◌≡◌}
use multiple_protocol_contro.Common.Int.{pos_part}
use multiple_protocol_contro.Modbus.Ack.{ModbusCommand, check_ack, is_multiple, is_positive}
use multiple_protocol_contro.Modbus.Ack.{word_at}
use multiple_protocol_contro.Modbus.Bytes.{put_uint16}
use multiple_protocol_contro.Modbus.Crc.{IsByte, append_crc, compute_crc, verify_crc}
use multiple_protocol_contro.Modbus.Crc.Detect.{verify_crc-append_crc}
use multiple_protocol_contro.Modbus.Encode.{CommandMessage, build_modbus_frame}
use multiple_protocol_contro.Modbus.Encode.{encode_register_value, header, normalize_bool_slice}
use multiple_protocol_contro.Modbus.Encode.{pack_coils, write_coil, write_coils, write_register}
use multiple_protocol_contro.Modbus.Encode.{write_registers}
use multiple_protocol_contro.Modbus.Encode.Shape.{encode_register_value-IsByte}
use multiple_protocol_contro.Modbus.Endian.{normalize_endian}
use multiple_protocol_contro.Values.{>>=-ok, Floats, Result, ValueOf, empty_payload, err, map-ok}
use multiple_protocol_contro.Values.{ok, quantity_mismatch, require, require-ok, wrong_length}
use multiple_protocol_contro.Values.{◌>>◌}
use multiple_protocol_contro.Values.Coerce.{coerce_bool}

-- The first six bytes of a write frame, with a CRC of their own.
unfoldable pub echo_of : List ℕ → List ℕ
echo_of frame = append_crc (take 6 frame)

same_device : (slave b : ℕ) → b ≡ slave % 256 → not (ltb 0 slave && not (b == slave % 256)) ≡ true
same_device slave b e = ground arith

abbrev outcome_of : Bool → Result (Unit {0})
outcome_of differs = if differs then err quantity_mismatch else ok tt

last_test :
    (differs : Bool) → (require (not differs) quantity_mismatch >> ok tt) ≡ outcome_of differs
last_test true = refl
last_test false = refl

-- The command has a quantity, and the word after the address in the bytes is another.
abbrev pub quantity_differs : ModbusCommand → List ℕ → Bool
quantity_differs cmd buf =
    is_multiple cmd.function_code
    && is_positive cmd.quantity
    && not (word_at buf 4 == pos_part cmd.quantity)

-- The tests before the last.
check_ack-outcome :
    (slave : ℕ) (cmd : ModbusCommand) (buf : List ℕ)
    → verify_crc buf ≡ true
    → get_or buf 0 0 ≡ slave % 256
    → get_or buf 1 0 ≡ cmd.function_code
    → word_at buf 2 ≡ cmd.address
    → check_ack slave cmd buf ≡ outcome_of (quantity_differs cmd buf)
unfolding check_ack
check_ack-outcome slave cmd buf crc device code address =
    rw
      (
        crc,
        same_device slave (get_or buf 0 0) device,
        (==_iff (get_or buf 1 0) cmd.function_code).1 code,
        (==_iff (word_at buf 2) cmd.address).1 address,
      )
      (last_test (quantity_differs cmd buf))

module _ (fl : Floats) (m : CommandMessage (ValueOf fl)) where
  abbrev head_of : List ℕ → List ℕ
  head_of tail = header m.device_address m.function_code m.address ++ tail

  abbrev Layout : List ℕ → Type 0
  Layout frame =
      (x : ℕ) × (y : ℕ) × (rest : List ℕ) × (frame ≡ head_of (x ∷ y ∷ rest)) × (x < 256) × (y < 256)

  pair_of :
      (bytes : List ℕ)
      → (length bytes == 2) ≡ true
      → All IsByte bytes
      → (x : ℕ) × (y : ℕ) × (bytes ≡ x ∷ y ∷ []) × (x < 256) × (y < 256)
  pair_of [] h b = cc
  pair_of (x ∷ []) h b = absurd (ground arith)
  pair_of (x ∷ y ∷ []) h (bx, (by, _)) = (x, y, refl, bx, by)
  pair_of (x ∷ y ∷ z ∷ l) h b = absurd (ground arith)

  -- A frame that begins with the header and a 16-bit word.
  word-Layout :
      (w : ℕ) (tail frame : List ℕ) → frame ≡ head_of (put_uint16 w ++ tail) → Layout frame
  unfolding put_uint16
  word-Layout w tail frame e = (w / 2 ^ 8 % 256, w % 256, tail, e, omega arith, omega arith)

  crc_of : List ℕ → List ℕ
  crc_of frame = let crc = compute_crc frame in crc % 256 ∷ crc / 2 ^ 8 % 256 ∷ []

  append_crc-head :
      (tail : List ℕ)
      → append_crc (head_of [] ++ tail) ≡ head_of (tail ++ crc_of (head_of [] ++ tail))
  unfolding append_crc put_uint16 crc_of
  append_crc-head tail = refl

  write_coil-Layout : (frame : List ℕ) → write_coil fl m (head_of []) ≡ ok frame → Layout frame
  unfolding write_coil
  write_coil-Layout frame h =
      let (b, e, f) =
        map-ok (coerce_bool fl m.value)
          (λ b. append_crc (head_of [] ++ put_uint16 (if b then 0xFF00 else 0))) h in
      let tail = put_uint16 (if b then 0xFF00 else 0) in
      word-Layout (if b then 0xFF00 else 0) (crc_of (head_of [] ++ tail)) frame
        (f ∙ append_crc-head tail)

  write_register-Layout :
      (frame : List ℕ) → write_register fl m (head_of []) ≡ ok frame → Layout frame
  unfolding write_register
  write_register-Layout frame h =
      let code =
        encode_register_value fl m.value m.data_type (normalize_endian m.endian) m.explicit in
      let (bytes, e, f) =
        >>=-ok code
          (λ bytes.
            require (length bytes == 2) wrong_length >> ok (append_crc (head_of [] ++ bytes)))
          h in
      let (two_bytes, g) = require-ok (length bytes == 2) wrong_length f in
      let (x, y, eq, bx, by) = pair_of bytes two_bytes (
        encode_register_value-IsByte fl m.value m.data_type (normalize_endian m.endian) m.explicit
          e) in
      (
        x,
        y,
        crc_of (head_of [] ++ bytes),
        g ∙ append_crc-head bytes ∙ ap (λ b. head_of (b ++ crc_of (head_of [] ++ bytes))) eq,
        bx,
        by,
      )

  write_registers-Layout :
      (frame : List ℕ) → write_registers fl m (head_of []) ≡ ok frame → Layout frame
  unfolding write_registers
  write_registers-Layout frame h =
      let code =
        encode_register_value fl m.value m.data_type (normalize_endian m.endian) m.explicit in
      let (bytes, e, f) =
        >>=-ok code
          (λ bytes.
            require (length bytes % 2 == 0) wrong_length
            >> ok (
                append_crc (
                  head_of []
                  ++ (put_uint16 (length bytes / 2 % 2 ^ 16) ++ (length bytes % 256 ∷ bytes)))))
          h in
      let (even, g) = require-ok (length bytes % 2 == 0) wrong_length f in
      let w = length bytes / 2 % 2 ^ 16 in
      let rest = length bytes % 256 ∷ bytes in
      word-Layout w (rest ++ crc_of (head_of [] ++ (put_uint16 w ++ rest))) frame (
        g
        ∙ append_crc-head (put_uint16 w ++ rest)
        ∙ ap head_of (append_assoc (put_uint16 w) rest _))

  write_coils-Layout : (frame : List ℕ) → write_coils fl m (head_of []) ≡ ok frame → Layout frame
  unfolding write_coils
  write_coils-Layout frame h =
      let (bs, e, f) =
        >>=-ok (normalize_bool_slice fl m.value)
          (λ bs.
            require (not (length bs == 0)) empty_payload
            >> ok (
                append_crc (
                  head_of []
                  ++ (put_uint16 (length bs % 2 ^ 16)
                      ++ (length (pack_coils bs) % 256 ∷ pack_coils bs)))))
          h in
      let (some_coil, g) = require-ok (not (length bs == 0)) empty_payload f in
      let w = length bs % 2 ^ 16 in
      let rest = length (pack_coils bs) % 256 ∷ pack_coils bs in
      word-Layout w (rest ++ crc_of (head_of [] ++ (put_uint16 w ++ rest))) frame (
        g
        ∙ append_crc-head (put_uint16 w ++ rest)
        ∙ ap head_of (append_assoc (put_uint16 w) rest _))

  -- A frame that is built has the layout, and its code and address fit their fields.
  build-Layout :
      (frame : List ℕ)
      → build_modbus_frame fl m ≡ ok frame
      → (m.address < 2 ^ 16) × (m.function_code < 256) × Layout frame
  unfolding build_modbus_frame put_uint16
  build-Layout frame h = elim (Bool-cases (ltb 0xFFFF m.address)) [
    | inl big ↦ cc (rw big at h)
    | inr fits ↦ elim (Bool-cases (m.function_code == 6)) [
      | inl c6 ↦ (ground arith, ground arith, write_register-Layout frame (rw (fits, c6) at h))
      | inr n6 ↦ elim (Bool-cases (m.function_code == 5)) [
        | inl c5 ↦ (ground arith, ground arith, write_coil-Layout frame (rw (fits, n6, c5) at h))
        | inr n5 ↦ elim (Bool-cases (m.function_code == 16)) [
          | inl c16 ↦ (
            ground arith,
            ground arith,
            write_registers-Layout frame (rw (fits, n6, n5, c16) at h),
          )
          | inr n16 ↦ elim (Bool-cases (m.function_code == 15)) [
            | inl c15 ↦ (
              ground arith,
              ground arith,
              write_coils-Layout frame (rw (fits, n6, n5, n16, c15) at h),
            )
            | inr n15 ↦ cc (rw (fits, n6, n5, n16, n15) at h)
          ]
        ]
      ]
    ]
  ]

  -- The acknowledgement that echoes a frame built for a command passes every test but one: with the
  -- function codes 15 and 16 it is refused where the command has a quantity that is not the number of
  -- coils or registers that the frame carries. Otherwise it is accepted.
  pub check_ack-echo :
      (cmd : ModbusCommand) (frame : List ℕ)
      → build_modbus_frame fl m ≡ ok frame
      → cmd.function_code ≡ m.function_code
      → cmd.address ≡ m.address
      → check_ack m.device_address cmd (echo_of frame)
        ≡ (if quantity_differs cmd frame then err quantity_mismatch else ok tt)
  unfolding echo_of put_uint16
  check_ack-echo cmd frame h code address =
      let (fits, small, (x, y, rest, e, bx, by)) = build-Layout frame h in
      let six : List ℕ = head_of (x ∷ y ∷ []) in
      let a : ℕ = m.address in
      let bytes : All IsByte six =
        (omega arith, (omega arith, (omega arith, (omega arith, (bx, (by, tt)))))) in
      rw e (
        check_ack-outcome m.device_address cmd (append_crc six) (verify_crc-append_crc six bytes)
          (unfold append_crc in refl) (unfold append_crc in omega arith)
          (unfold append_crc in omega arith)
        ∙ (unfold append_crc in refl))
