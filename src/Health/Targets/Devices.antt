-- ===== src/Health/Targets/Devices.antt =====
-- The targets of a configuration are its gateways, each endpoint and each device once.
use multiple_protocol_contro.Common.{All, Bool-cases, In, In-All, In-append_left, List, Text, []}
use multiple_protocol_contro.Common.{false, inl, inr, refl, sym, text_eq, true, ◌∷◌, ◌≡◌, ◌≢◌}
use multiple_protocol_contro.Common.{◌⊎◌}
use multiple_protocol_contro.Control.Results.Summary.{named}
use multiple_protocol_contro.Health.Probe.Sound.{either_branch}
use multiple_protocol_contro.Health.Targets.{GatewayTarget, build_gateway_targets, endpoint_of}
use multiple_protocol_contro.Health.Targets.{group_device, group_devices, id_of, is_gateway}
use multiple_protocol_contro.Health.Targets.Grouped.{In-keep_named, grouped-All-Distinct}
use multiple_protocol_contro.Health.Targets.Grouped.{grouped-Distinct, grouped-adds, grouped-back}
use multiple_protocol_contro.Health.Targets.Grouped.{grouped-keeps, keep_named-Distinct}
use multiple_protocol_contro.Health.Targets.Grouped.{keep_named-In}
use multiple_protocol_contro.Health.Targets.Ids.{Distinct, Has, keys}
use multiple_protocol_contro.Runtime.Build.{DeviceRuntime}
use mathlib.Core.Path.{subst}

abbrev IsProper : List GatewayTarget → Type 0
IsProper ts = Distinct (keys ts) × All (λ t. Distinct t.device_ids) ts

module _ {Raw : Type 0} where
  -- A device of that endpoint and that identifier, which is a gateway.
  pub record Source (devs : List (DeviceRuntime Raw)) (k id : Text) : Type 0 where
    pub device : DeviceRuntime Raw
    pub listed : In device devs
    pub gateway : is_gateway device ≡ true
    pub endpoint : endpoint_of device ≡ k
    pub identifier : id_of device ≡ id

  group_device-keeps :
      (dev : DeviceRuntime Raw) (ts : List GatewayTarget) (k id : Text)
      → Has ts k id
      → Has (group_device dev ts) k id
  unfolding group_device
  group_device-keeps dev ts k id h =
      either_branch (is_gateway dev) (λ l. Has l k id) (grouped-keeps _ _ _ _ k id ts h) h

  group_devices-keeps :
      (devs : List (DeviceRuntime Raw)) (ts : List GatewayTarget) (k id : Text)
      → Has ts k id
      → Has (group_devices devs ts) k id
  unfolding group_devices
  group_devices-keeps [] ts k id h = h
  group_devices-keeps (dev ∷ devs) ts k id h =
      group_devices-keeps devs (group_device dev ts) k id (group_device-keeps dev ts k id h)

  group_devices-adds :
      (devs : List (DeviceRuntime Raw)) (dev : DeviceRuntime Raw) (ts : List GatewayTarget)
      → In dev devs
      → is_gateway dev ≡ true
      → text_eq (id_of dev) [] ≡ false
      → Has (group_devices devs ts) (endpoint_of dev) (id_of dev)
  unfolding group_devices group_device
  group_devices-adds [] dev ts m gateway named = absurd m
  group_devices-adds (d ∷ devs) dev ts (inl e) gateway named =
      group_devices-keeps devs (group_device d ts) (endpoint_of dev) (id_of dev) (
        subst (λ d'. Has (group_device d' ts) (endpoint_of dev) (id_of dev)) e
          (rw gateway (grouped-adds _ _ _ _ ts named)))
  group_devices-adds (d ∷ devs) dev ts (inr m) gateway named =
      group_devices-adds devs dev (group_device d ts) m gateway named

  group_device-back :
      (dev : DeviceRuntime Raw) (ts : List GatewayTarget) (k id : Text)
      → Has (group_device dev ts) k id
      → Has ts k id ⊎ Source (dev ∷ []) k id
  unfolding group_device
  group_device-back dev ts k id h = elim (Bool-cases (is_gateway dev)) [
    | inl gateway ↦ elim (grouped-back _ _ _ _ k id ts (rw gateway at h)) [
      | inl old ↦ inl old
      | inr (same, is_id) ↦ inr (record {
        device = dev;
        listed = inl refl;
        gateway = gateway;
        endpoint = sym same;
        identifier = sym is_id;
      })
    ]
    | inr subordinate ↦ inl (rw subordinate at h)
  ]

  listed_first :
      (dev : DeviceRuntime Raw) (devs : List (DeviceRuntime Raw)) (k id : Text)
      → Source (dev ∷ []) k id
      → Source (dev ∷ devs) k id
  listed_first dev devs k id s = record {
    device = s.device;
    listed = In-append_left s.device (dev ∷ []) devs s.listed;
    gateway = s.gateway;
    endpoint = s.endpoint;
    identifier = s.identifier;
  }

  listed_later :
      (dev : DeviceRuntime Raw) (devs : List (DeviceRuntime Raw)) (k id : Text)
      → Source devs k id
      → Source (dev ∷ devs) k id
  listed_later dev devs k id s = record {
    device = s.device;
    listed = inr s.listed;
    gateway = s.gateway;
    endpoint = s.endpoint;
    identifier = s.identifier;
  }

  group_devices-back :
      (devs : List (DeviceRuntime Raw)) (ts : List GatewayTarget) (k id : Text)
      → Has (group_devices devs ts) k id
      → Has ts k id ⊎ Source devs k id
  unfolding group_devices
  group_devices-back [] ts k id h = inl h
  group_devices-back (dev ∷ devs) ts k id h =
      elim (group_devices-back devs (group_device dev ts) k id h) [
        | inr later ↦ inr (listed_later dev devs k id later)
        | inl here ↦ elim (group_device-back dev ts k id here) [
          | inl old ↦ inl old
          | inr source ↦ inr (listed_first dev devs k id source)
        ]
      ]

  group_devices-IsProper :
      (devs : List (DeviceRuntime Raw)) (ts : List GatewayTarget)
      → IsProper ts
      → IsProper (group_devices devs ts)
  unfolding group_devices group_device
  group_devices-IsProper [] ts h = h
  group_devices-IsProper (dev ∷ devs) ts h = group_devices-IsProper devs (group_device dev ts) (
      either_branch (is_gateway dev) IsProper
        (grouped-Distinct _ _ _ _ ts h.0, grouped-All-Distinct _ _ _ _ ts h.1) h)

  -- The targets of a list of devices.
  pub record TargetsOf (devs : List (DeviceRuntime Raw)) (ts : List GatewayTarget) : Type 0 where
    pub distinct_keys : Distinct (keys ts)
    pub distinct_ids : (t : GatewayTarget) → In t ts → Distinct t.device_ids
    pub some_device : (t : GatewayTarget) → In t ts → t.device_ids ≢ []
    pub complete :
        (dev : DeviceRuntime Raw)
        → In dev devs
        → is_gateway dev ≡ true
        → text_eq (id_of dev) [] ≡ false
        → Has ts (endpoint_of dev) (id_of dev)
    pub sound : (k id : Text) → Has ts k id → Source devs k id

  -- The targets have different endpoints, and each has at least one device and none twice; each Modbus
  -- gateway of the configuration with an address, a port and an identifier is a device of the target of
  -- its endpoint, and no other device is one of any target.
  pub build_gateway_targets-TargetsOf :
      (devs : List (DeviceRuntime Raw)) → TargetsOf devs (build_gateway_targets devs)
  unfolding build_gateway_targets
  build_gateway_targets-TargetsOf devs =
      let all_targets = group_devices devs [] in
      let (keys_differ, ids_differ) = group_devices-IsProper devs [] (tt, tt) in
      record {
        distinct_keys = keep_named-Distinct all_targets keys_differ;
        distinct_ids = λ t h.
            In-All (λ u. Distinct u.device_ids) t all_targets (keep_named-In t all_targets h).0
              ids_differ;
        some_device = λ t h. (keep_named-In t all_targets h).1;
        complete = λ dev m gateway named.
            let (t, h, e, m') = group_devices-adds devs dev [] m gateway named in
            (t, In-keep_named t all_targets (id_of dev) m' h, e, m');
        sound = λ k id (t, h, e, m).
            only_source k id
              (group_devices-back devs [] k id (t, (keep_named-In t all_targets h).0, e, m));
      }
    where
      only_source : (k id : Text) → Has [] k id ⊎ Source devs k id → Source devs k id
      only_source k id (inl (t, h, e, m)) = absurd h
      only_source k id (inr source) = source
