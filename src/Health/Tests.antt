-- ===== src/Health/Tests.antt =====
-- Two gateways at one endpoint, and a check of it.
use multiple_protocol_contro.Common.{List, Text, [], ap, codes, contains_byte, false, get_elem?}
use multiple_protocol_contro.Common.{if◌then◌else◌, refl, some, switch, text_eq, trim_space, true}
use multiple_protocol_contro.Common.{upper, ℕ, ◌++◌, ◌==◌, ◌∷◌, ◌≡◌}
use multiple_protocol_contro.Common.Int.{pos}
use Prim.Native.String.{String}
use multiple_protocol_contro.Health.Probe.{Manager, Round, after_inspection, can_store}
use multiple_protocol_contro.Health.Probe.{check_found, check_gateway, check_pooled, check_state}
use multiple_protocol_contro.Health.Probe.{classify_tcp_state, close_old, dialed, dialed_alive}
use multiple_protocol_contro.Health.Probe.{drop_entry, find_target, holds_conn}
use multiple_protocol_contro.Health.Probe.{inspect_pooled_gateway, mark_busy, of_entry}
use multiple_protocol_contro.Health.Probe.{probe_unhealthy, reset_gateway_dial_failures, set_at}
use multiple_protocol_contro.Health.Probe.{store_gateway_conn}
use multiple_protocol_contro.Health.Probe.Unreachable.{after_checks, dead_gateway-unhealthy}
use multiple_protocol_contro.Health.Probe.Unreachable.{dead_round, probed}
use multiple_protocol_contro.Health.Status.{StatusWrite, check_target, gateway_status_from_probe}
use multiple_protocol_contro.Health.Status.{gateway_status_key, same_target, texts_equal}
use multiple_protocol_contro.Health.Status.{write_ids, write_status}
use multiple_protocol_contro.Health.Status.Published.{Published, check_target-Published}
use multiple_protocol_contro.Health.Targets.{GatewayTarget, add_id, build_gateway_targets}
use multiple_protocol_contro.Health.Targets.{group_device, group_devices, group_id, has_id}
use multiple_protocol_contro.Health.Targets.{is_gateway, is_tcp_managed_protocol, is_type_one}
use multiple_protocol_contro.Health.Targets.{join_host_port, keep_named}
use multiple_protocol_contro.Health.Targets.Devices.{TargetsOf, build_gateway_targets-TargetsOf}
use multiple_protocol_contro.Protocol.Names.{normalize_name}
use multiple_protocol_contro.Runtime.Build.{DeviceRuntime, no_mqtt_params}
use multiple_protocol_contro.Values.Decimal.Print.{print_ℕ}

abbrev gateway_device : String → ℕ → DeviceRuntime Text
gateway_device id port = record {
  config = record {
    device_id = codes id;
    gateway_info = record { gateway_id = []; ip = codes "10.0.0.7"; port = pos port };
    serial_number = codes id;
    device_protocol = codes "modbus_tcp";
    device_type = pos 1;
    acq_freq = pos 1000;
    username = [];
    password = [];
    properties = [];
    params = [];
  };
  slave_id = 1;
  gateway_serial = codes id;
  runtime_gateway_id = [];
  gateway_ip = codes "10.0.0.7 ";
  gateway_port = port;
  response_timeout_ms = 1000;
  read_points = [];
  write_points = [];
  bacnet_device_instance = 0;
  bacnet_read_points = [];
  bacnet_write_points = [];
  opcua_endpoint = [];
  opcua_security = ([], []);
  opcua_read_points = [];
  opcua_write_points = [];
  mqtt_broker = [];
  mqtt_params = no_mqtt_params;
  mqtt_read_points = [];
  mqtt_write_points = [];
}

abbrev two_gateways : List (DeviceRuntime Text)
two_gateways = gateway_device "a" 502 ∷ gateway_device " b" 502 ∷ gateway_device "a" 502 ∷ []

abbrev plant : GatewayTarget
plant = record {
  device_ids = codes "a" ∷ codes "b" ∷ [];
  key = codes "10.0.0.7:502";
  target_ip = codes "10.0.0.7";
  target_port = 502;
}

targets_of_two : build_gateway_targets two_gateways ≡ plant ∷ []
unfolding build_gateway_targets group_devices group_device group_id keep_named is_gateway
    is_type_one is_tcp_managed_protocol switch normalize_name trim_space text_eq upper
    join_host_port contains_byte print_ℕ add_id has_id
targets_of_two = refl

build_gateway_targets-TargetsOf_example :
    TargetsOf two_gateways (build_gateway_targets two_gateways)
build_gateway_targets-TargetsOf_example = build_gateway_targets-TargetsOf two_gateways

-- The connection 4 to the endpoint is in the pool.
abbrev manager : Manager
manager = record {
  gateway_targets = plant ∷ [];
  config_generation = 3;
  registered = λ k. true;
  conns = λ k. some (record { conn = some 4; keep_alive_ok = true });
  busy = λ k. false;
  dial_failures = λ k. 0;
  closed = [];
}

dead_gateway-unhealthy_example :
    (check_gateway dead_round plant.key (after_checks 1 plant.key manager)).0
    ≡ probed probe_unhealthy plant 3
unfolding find_target text_eq
dead_gateway-unhealthy_example = dead_gateway-unhealthy 1 plant.key plant manager refl refl

-- The connection is dead, another one is dialed.
abbrev redial : Round
redial = record {
  is_done = false;
  others = λ n m. m;
  inspect_socket = λ c. some (classify_tcp_state 8);
  dial = some 5;
  apply_keep_alive = λ c. some true;
}

abbrev write_to : String → StatusWrite
write_to id = record {
  redis_key = codes "gateway:status:" ++ codes id;
  payload = record { status = codes "0"; timestamp = pos 1700 };
  ttl = 30;
}

online :
    check_target (λ n. 3) (pos 1700) 30 plant (check_gateway redial plant.key manager).0
    ≡ write_to "a" ∷ write_to "b" ∷ []
unfolding check_target write_status write_ids same_target texts_equal gateway_status_from_probe
    gateway_status_key check_gateway check_found check_state check_pooled inspect_pooled_gateway
    after_inspection classify_tcp_state drop_entry holds_conn dialed dialed_alive can_store
    store_gateway_conn close_old reset_gateway_dial_failures mark_busy set_at of_entry find_target
    text_eq
online = refl

-- The configuration changes before the second device.
stops_between :
    check_target
      (λ n. if n == 2 then 4 else 3)
      (pos 1700)
      30
      plant
      (check_gateway redial plant.key manager).0
    ≡ write_to "a" ∷ []
unfolding check_target write_status write_ids same_target texts_equal gateway_status_from_probe
    gateway_status_key check_gateway check_found check_state check_pooled inspect_pooled_gateway
    after_inspection classify_tcp_state drop_entry holds_conn dialed dialed_alive can_store
    store_gateway_conn close_old reset_gateway_dial_failures mark_busy set_at of_entry find_target
    text_eq
stops_between = refl

check_target-Published_example : Published redial manager (λ n. 3) plant 1 (write_to "b")
check_target-Published_example =
    check_target-Published redial manager (λ n. 3) plant (pos 1700) 30 1 (write_to "b")
      (ap (λ ws. get_elem? ws 1) online)
