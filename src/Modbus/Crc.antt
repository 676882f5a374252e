-- ===== src/Modbus/Crc.antt =====
-- The CRC helpers of internal/collector/modbus.go, which
-- internal/protocol/modbusRtu/encodeCommand.go repeats. A byte slice is a list of numbers.
pub mod Detect
use multiple_protocol_contro.Common.{Bool, List, [], bit_or, bit_xor, false, get_or}
use multiple_protocol_contro.Common.{if◌then◌else◌, length, ltb, suc, take, zero, ℕ, ◌%◌, ◌*◌}
use multiple_protocol_contro.Common.{◌++◌, ◌-◌, ◌/◌, ◌<◌, ◌==◌, ◌^◌, ◌∷◌}

abbrev pub IsByte : ℕ → Type 0
IsByte b = b < 256

-- One round of the inner loop, on a uint16.
unfoldable pub crc_bit : ℕ → ℕ
crc_bit crc = if crc % 2 == 1 then bit_xor (crc / 2) 0xA001 else crc / 2

-- `rounds` rounds of the inner loop.
unfoldable pub crc_bits : ℕ → ℕ → ℕ
crc_bits zero crc = crc
crc_bits (suc rounds) crc = crc_bits rounds (crc_bit crc)

-- The loop over the bytes.
unfoldable pub crc_bytes : ℕ → List ℕ → ℕ
crc_bytes crc [] = crc
crc_bytes crc (b ∷ bs) = crc_bytes (crc_bits 8 (bit_xor crc b)) bs

unfoldable pub compute_crc : List ℕ → ℕ
unfolding crc_bytes crc_bits crc_bit
compute_crc bs = crc_bytes 0xFFFF bs

unfoldable pub append_crc : List ℕ → List ℕ
append_crc frame = let crc = compute_crc frame in frame ++ (crc % 256 ∷ crc / 2 ^ 8 % 256 ∷ [])

-- `got` is `uint16(lo) | uint16(hi)<<8`.
unfoldable pub verify_crc : List ℕ → Bool
verify_crc frame =
    let n = length frame in
    if ltb n 2
    then false
    else compute_crc (take (n - 2) frame)
      == bit_or (get_or frame (n - 2) 0) (get_or frame (n - 1) 0 * 2 ^ 8 % 2 ^ 16)
