-- ===== src/Modbus/Ack.antt =====
-- `WaitCommandAck` of internal/collector/modbus.go, from the eight bytes that it has read on.
pub mod Echo
use multiple_protocol_contro.Common.{Bool, List, false, get_or, if◌then◌else◌, ltb, not, ℕ, ◌%◌}
use multiple_protocol_contro.Common.{◌&&◌, ◌*◌, ◌+◌, ◌==◌, ◌^◌, ◌||◌}
use multiple_protocol_contro.Common.Int.{negsuc, pos, pos_part, ℤ}
use multiple_protocol_contro.Modbus.Crc.{verify_crc}
use multiple_protocol_contro.Values.{Result, address_mismatch, crc_mismatch, device_mismatch}
use multiple_protocol_contro.Values.{function_mismatch, ok, quantity_mismatch, require, ◌>>=◌}
use multiple_protocol_contro.Values.{◌>>◌}

-- What the check reads of config.ModbusCommand.
pub record ModbusCommand : Type 0 where
  pub function_code : ℕ
  pub address : ℕ
  pub quantity : ℤ

abbrev is_multiple : ℕ → Bool
is_multiple fc = fc == 15 || fc == 16

-- 0 means that no acknowledgement is awaited.
unfoldable pub write_ack_length : ℕ → ℕ
write_ack_length fc = if fc == 5 || fc == 6 || fc == 15 || fc == 16 then 8 else 0

abbrev is_positive : ℤ → Bool
is_positive (pos n) = ltb 0 n
is_positive (negsuc n) = false

-- `binary.BigEndian.Uint16(buf[i:i+2])` of the eight-byte buffer.
abbrev word_at : List ℕ → ℕ → ℕ
word_at buf i = get_or buf i 0 * 2 ^ 8 + get_or buf (i + 1) 0

unfoldable pub check_ack : ℕ → ModbusCommand → List ℕ → Result (Unit {0})
check_ack slave cmd buf = do
  require (verify_crc buf) crc_mismatch
  require (not (ltb 0 slave && not (get_or buf 0 0 == slave % 256))) device_mismatch
  require (get_or buf 1 0 == cmd.function_code) function_mismatch
  require (word_at buf 2 == cmd.address) address_mismatch
  require
      (not (
        is_multiple cmd.function_code
        && is_positive cmd.quantity
        && not (word_at buf 4 == pos_part cmd.quantity)))
      quantity_mismatch
  ok tt

-- `read` stands for io.ReadFull on the connection: the bytes that arrive before the deadline.
unfoldable pub wait_command_ack :
    (read : ℕ → Result (List ℕ)) → ℕ → ModbusCommand → Result (Unit {0})
wait_command_ack read slave cmd =
    let n = write_ack_length cmd.function_code in
    if n == 0 then ok tt else (read n >>= λ buf. check_ack slave cmd buf)
