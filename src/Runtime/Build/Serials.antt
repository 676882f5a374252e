-- ===== src/Runtime/Build/Serials.antt =====
-- The maps of the runtime configuration, beside a description of them by the list of devices.
use multiple_protocol_contro.Common.{Bool-cases, List, Option, Text, [], append-nil, append_assoc}
use multiple_protocol_contro.Common.{if◌then◌else◌, inl, inr, none, refl, some, sym, text_eq}
use multiple_protocol_contro.Common.{text_eq→eq, ◌++◌, ◌∙◌, ◌∷◌, ◌≡◌}
use multiple_protocol_contro.Protocol.Points.{JsonOf}
use multiple_protocol_contro.Runtime.Build.{DeviceRuntime, IotCfg, add_built, add_device}
use multiple_protocol_contro.Runtime.Build.{append_at, build_device_runtime, build_from}
use multiple_protocol_contro.Runtime.Build.{build_runtime_config, empty_cfg, put_at}
use multiple_protocol_contro.Runtime.Device.{DeviceConfig, add_valid, keep_valid}
use multiple_protocol_contro.Runtime.Params.{JsonValues}
use multiple_protocol_contro.Values.{Floats, Result, err, ok, panic}

pub last_of {ℓ} : {A : Type ℓ} → List A → Option A → Option A
last_of [] earlier = earlier
last_of (a ∷ rest) earlier = last_of rest (some a)

pub concat_of {ℓ} : {A B : Type ℓ} → (A → List B) → List A → List B
concat_of f [] = []
concat_of f (a ∷ rest) = f a ++ concat_of f rest

module _ {Raw : Type 0} where
  -- The devices of a serial number.
  pub with_serial : Text → List (DeviceRuntime Raw) → List (DeviceRuntime Raw)
  with_serial k [] = []
  with_serial k (rt ∷ rts) =
      let rest = with_serial k rts in if text_eq k rt.config.serial_number then rt ∷ rest else rest

  -- What the maps hold of a serial number, when they began from `before` and the devices `rts` were added.
  pub record Holds (before cfg : IotCfg Raw) (rts : List (DeviceRuntime Raw)) (k : Text)
      : Type 0 where
    pub all_devices : cfg.devices ≡ before.devices ++ rts
    pub by_serial : cfg.device_by_serial k ≡ last_of (with_serial k rts) (before.device_by_serial k)
    pub cmd_by_serial :
        cfg.device_cmd_by_serial k
        ≡ before.device_cmd_by_serial k ++ concat_of (λ rt. rt.write_points) (with_serial k rts)
    pub bacnet_by_serial :
        cfg.device_bacnet_by_serial k
        ≡ before.device_bacnet_by_serial k
          ++ concat_of (λ rt. rt.bacnet_read_points) (with_serial k rts)
    pub bacnet_cmd_by_serial :
        cfg.device_bacnet_cmd_by_serial k
        ≡ before.device_bacnet_cmd_by_serial k
          ++ concat_of (λ rt. rt.bacnet_write_points) (with_serial k rts)
    pub opcua_cmd_by_serial :
        cfg.device_opcua_cmd_by_serial k
        ≡ before.device_opcua_cmd_by_serial k
          ++ concat_of (λ rt. rt.opcua_write_points) (with_serial k rts)
    pub mqtt_cmd_by_serial :
        cfg.device_mqtt_cmd_by_serial k
        ≡ before.device_mqtt_cmd_by_serial k
          ++ concat_of (λ rt. rt.mqtt_write_points) (with_serial k rts)

  nothing_added : (cfg : IotCfg Raw) (k : Text) → Holds cfg cfg [] k
  unfolding last_of concat_of with_serial
  nothing_added cfg k = record {
    all_devices = sym (append-nil cfg.devices);
    by_serial = refl;
    cmd_by_serial = sym (append-nil (cfg.device_cmd_by_serial k));
    bacnet_by_serial = sym (append-nil (cfg.device_bacnet_by_serial k));
    bacnet_cmd_by_serial = sym (append-nil (cfg.device_bacnet_cmd_by_serial k));
    opcua_cmd_by_serial = sym (append-nil (cfg.device_opcua_cmd_by_serial k));
    mqtt_cmd_by_serial = sym (append-nil (cfg.device_mqtt_cmd_by_serial k));
  }

  append_at-with_serial :
      {A : Type 0} (f : DeviceRuntime Raw → List A) (rt : DeviceRuntime Raw)
      (rts : List (DeviceRuntime Raw)) (m : Text → List A) (k : Text)
      → append_at rt.config.serial_number (f rt) m k ++ concat_of f (with_serial k rts)
        ≡ m k ++ concat_of f (with_serial k (rt ∷ rts))
  unfolding append_at with_serial concat_of
  append_at-with_serial f rt rts m k = elim (Bool-cases (text_eq k rt.config.serial_number)) [
    | inl same ↦ rw same (append_assoc (m k) (f rt) (concat_of f (with_serial k rts)))
    | inr other_serial ↦ rw other_serial refl
  ]

  put_at-with_serial :
      (rt : DeviceRuntime Raw) (rts : List (DeviceRuntime Raw))
      (m : Text → Option (DeviceRuntime Raw)) (k : Text)
      → last_of (with_serial k rts) (put_at rt.config.serial_number rt m k)
        ≡ last_of (with_serial k (rt ∷ rts)) (m k)
  unfolding put_at with_serial last_of
  put_at-with_serial rt rts m k = elim (Bool-cases (text_eq k rt.config.serial_number)) [
    | inl same ↦ rw same refl
    | inr other_serial ↦ rw other_serial refl
  ]

  one_added :
      (rt : DeviceRuntime Raw) (rts : List (DeviceRuntime Raw)) (before cfg : IotCfg Raw) (k : Text)
      → Holds (add_device rt before) cfg rts k
      → Holds before cfg (rt ∷ rts) k
  unfolding add_device
  one_added rt rts before cfg k h = record {
    all_devices = h.all_devices ∙ append_assoc before.devices (rt ∷ []) rts;
    by_serial = h.by_serial ∙ put_at-with_serial rt rts before.device_by_serial k;
    cmd_by_serial =
        h.cmd_by_serial
        ∙ append_at-with_serial (λ r. r.write_points) rt rts before.device_cmd_by_serial k;
    bacnet_by_serial =
        h.bacnet_by_serial
        ∙ append_at-with_serial (λ r. r.bacnet_read_points) rt rts before.device_bacnet_by_serial k;
    bacnet_cmd_by_serial =
        h.bacnet_cmd_by_serial
        ∙ append_at-with_serial (λ r. r.bacnet_write_points) rt rts
            before.device_bacnet_cmd_by_serial k;
    opcua_cmd_by_serial =
        h.opcua_cmd_by_serial
        ∙ append_at-with_serial (λ r. r.opcua_write_points) rt rts before.device_opcua_cmd_by_serial
            k;
    mqtt_cmd_by_serial =
        h.mqtt_cmd_by_serial
        ∙ append_at-with_serial (λ r. r.mqtt_write_points) rt rts before.device_mqtt_cmd_by_serial
            k;
  }

module _ (fl : Floats) {Raw : Type 0} (js : JsonOf Raw) (vs : JsonValues fl Raw) where
  -- The devices that are built, in their order.
  abbrev pub built : List (DeviceConfig Raw) → List (DeviceRuntime Raw)
  built devs = keep_valid (build_device_runtime fl js vs) devs

  added :
      (r : Result (DeviceRuntime Raw)) (rts : List (DeviceRuntime Raw)) (before cfg : IotCfg Raw)
      (k : Text)
      → Holds (add_built r before) cfg rts k
      → Holds before cfg (add_valid r rts) k
  unfolding add_built add_valid
  added (ok rt) rts before cfg k h = one_added rt rts before cfg k h
  added (err e) rts before cfg k h = h
  added panic rts before cfg k h = h

  build_from-Holds :
      (devs : List (DeviceConfig Raw)) (before : IotCfg Raw) (k : Text)
      → Holds before (build_from fl js vs devs before) (built devs) k
  unfolding build_from keep_valid
  build_from-Holds [] before k = nothing_added before k
  build_from-Holds (dev ∷ devs) before k =
      let r = build_device_runtime fl js vs dev in
      added r (built devs) before _ k (build_from-Holds devs (add_built r before) k)

  -- The runtime configuration holds the devices that can be built, in their order; under each serial
  -- number the last device of it, and the points of all devices of it, one after the other.
  pub build_runtime_config-Holds :
      (devs : List (DeviceConfig Raw)) (k : Text)
      → Holds empty_cfg (build_runtime_config fl js vs devs) (built devs) k
  unfolding build_runtime_config
  build_runtime_config-Holds devs k = build_from-Holds devs empty_cfg k

  with_serial-last_of :
      (k : Text) (rts : List (DeviceRuntime Raw)) (before : Option (DeviceRuntime Raw))
      (rt : DeviceRuntime Raw)
      → ((q : DeviceRuntime Raw) → before ≡ some q → q.config.serial_number ≡ k)
      → last_of (with_serial k rts) before ≡ some rt
      → rt.config.serial_number ≡ k
  unfolding with_serial last_of
  with_serial-last_of k [] before rt known e = known rt e
  with_serial-last_of k (q ∷ rts) before rt known e =
      elim (Bool-cases (text_eq k q.config.serial_number)) [
        | inl same ↦
            with_serial-last_of k rts (some q) rt
              (λ other_one found.
                sym (text_eq→eq k other_one.config.serial_number (cc (found, same))))
              (rw same at e)
        | inr other_serial ↦ with_serial-last_of k rts before rt known (rw other_serial at e)
      ]

  -- The device of a serial number has that number.
  pub device_by_serial-serial_number :
      (devs : List (DeviceConfig Raw)) (k : Text) (rt : DeviceRuntime Raw)
      → (build_runtime_config fl js vs devs).device_by_serial k ≡ some rt
      → rt.config.serial_number ≡ k
  device_by_serial-serial_number devs k rt e =
      with_serial-last_of k (built devs) none rt (λ q found. absurd cc)
        (sym (build_runtime_config-Holds devs k).by_serial ∙ e)
