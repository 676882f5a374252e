-- ===== src/Control/Readback.antt =====
-- verifyControlReadback and executeModbusWrite of internal/control/verification.go.
pub mod Ends
pub mod Verified
use multiple_protocol_contro.Common.{Bool, Option, false, if◌then◌else◌, none, some, suc, zero, ℕ}
use multiple_protocol_contro.Values.{Result, err, ok, panic, ◌>>◌}

pub data CommandStatus : Type 0 where
  status_verified status_unverified status_failed : CommandStatus

-- What a command's read-backs meet: the i-th value or error, whether the context is done after it, and
-- whether it ends during the wait that follows.
pub record Readbacks (V : Type 0) : Type 0 where
  pub readback : ℕ → Result V
  pub done_after : ℕ → Bool
  pub done_waiting : ℕ → Bool

abbrev pub matches : {V : Type 0} → (V → Bool) → Result V → Bool
matches equal (ok v) = equal v
matches equal (err e) = false
matches equal panic = false

module _ {V : Type 0} (equal : V → Bool) (rb : Readbacks V) where
  -- The loop from the i-th read-back on, for a retry interval above zero, with the number of its last
  -- read-back; none where the fuel does not suffice.
  unfoldable pub verify_from : ℕ → ℕ → Option (ℕ × CommandStatus)
  verify_from zero i = none
  verify_from (suc fuel) i =
      let later = verify_from fuel (suc i) in
      if matches equal (rb.readback i)
      then some (i, status_verified)
      else if rb.done_after i
      then some (i, status_failed)
      else if rb.done_waiting i
      then some (i, status_failed)
      else later

  unfoldable pub verify_control_readback : ℕ → Option (ℕ × CommandStatus)
  verify_control_readback fuel = verify_from fuel 0

abbrev pub status_of : Option (ℕ × CommandStatus) → Option CommandStatus
status_of none = none
status_of (some (i, status)) = some status

-- What follows the write, whose three calls may each fail: without a parameter to read back the value
-- stays unverified.
unfoldable pub after_write :
    Result (Unit {0}) → Bool → Option (ℕ × CommandStatus) → Option CommandStatus
after_write (ok u) can_read verification =
    if can_read then status_of verification else some status_unverified
after_write (err e) can_read verification = some status_failed
after_write panic can_read verification = some status_failed

-- executeModbusWrite: SetWriteDeadline, Write and WaitCommandAck, and then the read-back.
unfoldable pub execute_modbus_write :
    Result (Unit {0})
    → Result (Unit {0})
    → Result (Unit {0})
    → Bool
    → Option (ℕ × CommandStatus)
    → Option CommandStatus
execute_modbus_write deadline_set written acknowledged can_read verification =
    after_write (deadline_set >> written >> acknowledged) can_read verification
