-- ===== src/Health/Status.antt =====
-- The status of gateways in Redis, internal/collector/gateway_status.go. `generation_at n` is the
-- configuration generation at the n-th look of a check at it.
pub mod Published
use multiple_protocol_contro.Common.{Bool, List, Option, Text, [], codes, false, if◌then◌else◌}
use multiple_protocol_contro.Common.{none, some, suc, text_eq, true, ℕ, ◌&&◌, ◌++◌, ◌==◌, ◌∷◌}
use multiple_protocol_contro.Common.Int.{ℤ}
use multiple_protocol_contro.Health.Probe.{GatewayProbeResult, GatewayProbeState, probe_busy}
use multiple_protocol_contro.Health.Probe.{probe_healthy, probe_stale, probe_unhealthy}
use multiple_protocol_contro.Health.Probe.{probe_unknown}
use multiple_protocol_contro.Health.Targets.{GatewayTarget}

-- gatewayStatusPayload, whose JSON is the value that is written.
pub record GatewayStatusPayload : Type 0 where
  pub status : Text
  pub timestamp : ℤ

-- A call of Set, whose error is logged only.
pub record StatusWrite : Type 0 where
  pub redis_key : Text
  pub payload : GatewayStatusPayload
  pub ttl : ℕ

abbrev pub gateway_status_online : Text
gateway_status_online = codes "0"

abbrev pub gateway_status_offline : Text
gateway_status_offline = codes "1"

unfoldable pub gateway_status_from_probe : GatewayProbeState → Option Text
gateway_status_from_probe probe_healthy = some gateway_status_online
gateway_status_from_probe probe_unhealthy = some gateway_status_offline
gateway_status_from_probe probe_unknown = none
gateway_status_from_probe probe_busy = none
gateway_status_from_probe probe_stale = none

unfoldable pub gateway_status_key : Text → Text
gateway_status_key id = codes "gateway:status:" ++ id

-- slices.Equal
unfoldable pub texts_equal : List Text → List Text → Bool
texts_equal [] [] = true
texts_equal [] (y ∷ ys) = false
texts_equal (x ∷ xs) [] = false
texts_equal (x ∷ xs) (y ∷ ys) = text_eq x y && texts_equal xs ys

-- A write to each device, up to the first look that finds another generation.
unfoldable pub write_ids : (ℕ → ℕ) → ℕ → GatewayStatusPayload → ℕ → ℕ → List Text → List StatusWrite
write_ids generation_at g payload ttl n [] = []
write_ids generation_at g payload ttl n (id ∷ ids) =
    let later = write_ids generation_at g payload ttl (suc n) ids in
    if generation_at n == g
    then record { redis_key = gateway_status_key id; payload = payload; ttl = ttl } ∷ later
    else []

unfoldable pub same_target : GatewayTarget → GatewayTarget → Bool
same_target a b = text_eq a.key b.key && texts_equal a.device_ids b.device_ids

unfoldable pub write_status :
    (ℕ → ℕ) → ℤ → ℕ → GatewayTarget → GatewayProbeResult → Option Text → List StatusWrite
write_status generation_at now ttl t r none = []
write_status generation_at now ttl t r (some status) =
    if generation_at 0 == r.generation && same_target r.target t
    then write_ids generation_at r.generation (record { status = status; timestamp = now }) ttl 1
        t.device_ids
    else []

-- checkTarget, from the result of its probe.
unfoldable pub check_target :
    (ℕ → ℕ) → ℤ → ℕ → GatewayTarget → GatewayProbeResult → List StatusWrite
check_target generation_at now ttl t r =
    write_status generation_at now ttl t r (gateway_status_from_probe r.state)
