-- ===== src/Health/Probe.antt =====
-- CheckGateway and what it calls, internal/conn/gateway_health.go. A connection is a number. Between
-- two sections under a lock other goroutines may change the manager: `others` is what they do there.
pub mod Sound
pub mod Unreachable
use multiple_protocol_contro.Common.{Bool, List, Option, Text, [], false, if◌then◌else◌, leb}
use multiple_protocol_contro.Common.{none, some, suc, text_eq, true, ℕ, ◌&&◌, ◌==◌, ◌||◌, ◌∷◌}
use multiple_protocol_contro.Health.Targets.{GatewayTarget}

pub data GatewayProbeState : Type 0 where
  probe_unknown probe_healthy probe_unhealthy probe_busy probe_stale : GatewayProbeState

pub data SocketVerdict : Type 0 where
  socket_unknown socket_healthy socket_dead : SocketVerdict

pub record GatewayProbeResult : Type 0 where
  pub state : GatewayProbeState
  pub target : GatewayTarget
  pub generation : ℕ

unfoldable pub classify_tcp_state : ℕ → SocketVerdict
classify_tcp_state state =
    if state == 1
    then socket_healthy
    else if state == 0 || state == 6 || state == 7 || state == 8 || state == 9 || state == 11
    then socket_dead
    else socket_unknown

-- Without the meta data, the time of the last use and the last error, which no check reads.
pub record GatewayConn : Type 0 where
  pub conn : Option ℕ
  pub keep_alive_ok : Bool

-- The fields of the Manager that the checks use: of the map `gateways` its keys, and of a guard its busy
-- bit. Its devices, contexts and locks are left out, and so is the time of the last log line.
pub record Manager : Type 0 where
  pub gateway_targets : List GatewayTarget
  pub config_generation : ℕ
  pub registered : Text → Bool
  pub conns : Text → Option GatewayConn
  pub busy : Text → Bool
  pub dial_failures : Text → ℕ
  pub closed : List ℕ

-- A check: whether its context is done, the socket states that the kernel gives, the one dial, and
-- whether keepalive is set on a connection, with none for an error.
pub record Round : Type 0 where
  pub is_done : Bool
  pub others : ℕ → Manager → Manager
  pub inspect_socket : ℕ → Option SocketVerdict
  pub dial : Option ℕ
  pub apply_keep_alive : ℕ → Option Bool

unfoldable pub set_at {ℓ} : {A : Type ℓ} → Text → A → (Text → A) → Text → A
set_at k value m k' = if text_eq k' k then value else m k'

unfoldable pub find_target : Text → List GatewayTarget → Option GatewayTarget
find_target k [] = none
find_target k (t ∷ ts) = let later = find_target k ts in if text_eq t.key k then some t else later

unfoldable pub of_entry : Option GatewayConn → Option ℕ × Bool
of_entry none = (none, false)
of_entry (some e) = (e.conn, e.keep_alive_ok)

abbrev pub pooled_gateway_conn : Text → Manager → Option ℕ × Bool
pooled_gateway_conn k m = of_entry (m.conns k)

unfoldable pub close_conn : ℕ → Manager → Manager
close_conn c m = record m { closed = c ∷ m.closed }

unfoldable pub holds_conn : ℕ → Option ℕ → Bool
holds_conn c none = false
holds_conn c (some d) = d == c

unfoldable pub drop_entry : Text → ℕ → Option GatewayConn → Manager → Manager
drop_entry k c none m = m
drop_entry k c (some e) m =
    if holds_conn c e.conn
    then record m {
      closed = c ∷ m.closed;
      conns = set_at k (some (record { conn = none; keep_alive_ok = false })) m.conns;
    }
    else m

abbrev pub drop_gateway_conn : Text → ℕ → Manager → Manager
drop_gateway_conn k c m = drop_entry k c (m.conns k) m

-- The connection that is replaced is closed.
unfoldable pub close_old : Option ℕ → List ℕ → List ℕ
close_old none cs = cs
close_old (some c) cs = c ∷ cs

unfoldable pub can_store : Text → ℕ → Manager → Bool
can_store k g m = m.config_generation == g && m.registered k

unfoldable pub store_gateway_conn : Text → ℕ → Bool → Manager → Manager
store_gateway_conn k c alive m = record m {
  conns = set_at k (some (record { conn = some c; keep_alive_ok = alive })) m.conns;
  closed = close_old (pooled_gateway_conn k m).0 m.closed;
}

unfoldable pub note_gateway_dial_failure : Text → Manager → Manager
note_gateway_dial_failure k m = record m {
  dial_failures = set_at k (suc (m.dial_failures k)) m.dial_failures;
}

unfoldable pub reset_gateway_dial_failures : Text → Manager → Manager
reset_gateway_dial_failures k m = record m { dial_failures = set_at k 0 m.dial_failures }

unfoldable pub mark_busy : Text → Bool → Manager → Manager
mark_busy k b m = record m { busy = set_at k b m.busy }

-- inspectPooledGateway: the state, and whether to dial.
unfoldable pub inspect_pooled_gateway :
    Option SocketVerdict → Bool → Bool → GatewayProbeState × Bool
inspect_pooled_gateway none alive allow_drop = (probe_unknown, false)
inspect_pooled_gateway (some socket_healthy) alive allow_drop =
    if alive then (probe_healthy, false) else (probe_unknown, allow_drop)
inspect_pooled_gateway (some socket_dead) alive allow_drop = (probe_unhealthy, allow_drop)
inspect_pooled_gateway (some socket_unknown) alive allow_drop = (probe_unknown, false)

-- A healthy connection resets the count of failures.
unfoldable pub after_inspection : Text → GatewayProbeState → Manager → Manager
after_inspection k probe_healthy m = reset_gateway_dial_failures k m
after_inspection k probe_unknown m = m
after_inspection k probe_unhealthy m = m
after_inspection k probe_busy m = m
after_inspection k probe_stale m = m

abbrev pub gateway_dial_failure_threshold : ℕ
gateway_dial_failure_threshold = 2

unfoldable pub failure_state : ℕ → GatewayProbeState
failure_state n = if leb gateway_dial_failure_threshold n then probe_unhealthy else probe_unknown

-- From the state alone, since the target and the generation of a check are fixed before.
unfoldable pub dialed_alive :
    Round → Text → ℕ → ℕ → Option Bool → Manager → GatewayProbeState × Manager
dialed_alive r k g c none m = (probe_unknown, close_conn c m)
dialed_alive r k g c (some alive) m =
    let m' = r.others 5 m in
    if can_store k g m'
    then (
      probe_healthy,
      reset_gateway_dial_failures k (r.others 6 (store_gateway_conn k c alive m')),
    )
    else (probe_stale, close_conn c m')

unfoldable pub dialed : Round → Text → ℕ → Option ℕ → Manager → GatewayProbeState × Manager
dialed r k g none m =
    let m' = note_gateway_dial_failure k m in (failure_state (m'.dial_failures k), m')
dialed r k g (some c) m = dialed_alive r k g c (r.apply_keep_alive c) m

abbrev pub dial_gateway_for_health : Round → Text → ℕ → Manager → GatewayProbeState × Manager
dial_gateway_for_health r k g m = dialed r k g r.dial (r.others 4 m)

-- The part under the guard, from the connection that is read there.
unfoldable pub check_pooled :
    Round → Text → ℕ → Option ℕ × Bool → Manager → GatewayProbeState × Manager
check_pooled r k g (none, alive) m = dial_gateway_for_health r k g m
check_pooled r k g (some c, alive) m =
    let inspected = inspect_pooled_gateway (r.inspect_socket c) alive true in
    let m' = after_inspection k inspected.0 m in
    let anew = dial_gateway_for_health r k g (drop_gateway_conn k c (r.others 3 m')) in
    if inspected.1 then anew else (inspected.0, m')

-- The part while another holds the guard, from the connection that was read before.
unfoldable pub check_busy : Round → Text → Option ℕ × Bool → Manager → GatewayProbeState × Manager
check_busy r k (none, alive) m = (probe_busy, m)
check_busy r k (some c, alive) m =
    let inspected = inspect_pooled_gateway (r.inspect_socket c) alive false in
    (inspected.0, after_inspection k inspected.0 m)

unfoldable pub check_state : Round → Text → ℕ → Manager → GatewayProbeState × Manager
check_state r k g m =
    let m0 = r.others 0 m in
    let pooled = pooled_gateway_conn k m0 in
    let m1 = r.others 1 m0 in
    let m2 = r.others 2 (mark_busy k true m1) in
    let checked = check_pooled r k g (pooled_gateway_conn k m2) m2 in
    if m1.busy k then check_busy r k pooled m1 else (checked.0, mark_busy k false checked.1)

abbrev pub no_target : GatewayTarget
no_target = record { device_ids = []; key = []; target_ip = []; target_port = 0 }

unfoldable pub check_found :
    Round → Text → Option GatewayTarget → Manager → GatewayProbeResult × Manager
check_found r k none m = (record { state = probe_stale; target = no_target; generation = 0 }, m)
check_found r k (some t) m =
    let g = m.config_generation in
    let checked = check_state r k g m in
    if r.is_done
    then (record { state = probe_unknown; target = t; generation = g }, m)
    else (record { state = checked.0; target = t; generation = g }, checked.1)

unfoldable pub check_gateway : Round → Text → Manager → GatewayProbeResult × Manager
check_gateway r k m = check_found r k (find_target k m.gateway_targets) m
