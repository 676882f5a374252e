-- ===== src/Judge/Config/Limits.antt =====
-- The ranges of the normalised limits of the Judge Source.
use multiple_protocol_contro.Common.{Text, [], arith, false, refl, suc, trim_space, zero, ℕ, ◌^◌}
use multiple_protocol_contro.Common.{◌∷◌, ◌≡◌, ◌≤◌}
use multiple_protocol_contro.Common.Int.{negsuc, pos, ℤ}
use multiple_protocol_contro.Judge.Config.{JudgeSourceCfg, JudgeSourceConfig, accepts_config}
use multiple_protocol_contro.Judge.Config.{channel_or_default, event_limit, is_empty, lowered}
use multiple_protocol_contro.Judge.Config.{normalized_config, positive_or, raised}

positive_or-lem : (d : ℕ) (n : ℤ) → 1 ≤ d → 1 ≤ positive_or d n
unfolding positive_or
positive_or-lem d (pos zero) h = h
positive_or-lem d (pos (suc n)) h = omega arith
positive_or-lem d (negsuc n) h = h

channel-nonempty : (s : Text) → is_empty (channel_or_default s) ≡ false
unfolding channel_or_default
channel-nonempty [] = refl
channel-nonempty (c ∷ s) = refl

-- The promise to the publisher.
pub record Limits (c : JudgeSourceConfig) : Type 0 where
  pub workers : (1 ≤ c.worker_count) × (c.worker_count ≤ 64)
  pub queue : (c.worker_count ≤ c.queue_size) × (c.queue_size ≤ 1048576)
  pub bytes : (1 ≤ c.queue_max_bytes) × (c.queue_max_bytes ≤ 2 ^ 30)
  pub device : (1 ≤ c.device_queue_size) × (c.device_queue_size ≤ c.queue_size)
  pub device_bytes : (1 ≤ c.device_queue_max_bytes) × (c.device_queue_max_bytes ≤ c.queue_max_bytes)
  pub event : (1 ≤ c.maximum_event_bytes) × (c.maximum_event_bytes ≤ 65536)
  pub timeout : (1 ≤ c.write_timeout) × (c.write_timeout ≤ 2000000000)

lowered-lem : (m n : ℕ) → 1 ≤ m → 1 ≤ n → (1 ≤ lowered m n) × (lowered m n ≤ m)
unfolding lowered
lowered-lem m n h k = ground arith

raised-lem : (l n m : ℕ) → l ≤ m → n ≤ m → (l ≤ raised l n) × (raised l n ≤ m)
unfolding raised
raised-lem l n m h k = ground arith

-- Whatever numbers the configuration file holds, zero, negative, huge or wrapping ones included, the
-- normalised limits are in their ranges, and consistent with each other.
pub normalized_config-Limits : (raw : JudgeSourceCfg) → Limits (normalized_config raw)
unfolding normalized_config event_limit
normalized_config-Limits raw =
    let w =
      lowered-lem 64 (positive_or 8 raw.worker_count) (omega arith)
        (positive_or-lem 8 raw.worker_count (omega arith)) in
    let q =
      lowered-lem 1048576 (positive_or 2048 raw.queue_size) (omega arith)
        (positive_or-lem 2048 raw.queue_size (omega arith)) in
    let r =
      raised-lem (lowered 64 (positive_or 8 raw.worker_count))
        (lowered 1048576 (positive_or 2048 raw.queue_size)) 1048576 (omega (arith, w.1)) q.1 in
    let b =
      lowered-lem (2 ^ 30) (positive_or (2 ^ 24) raw.queue_max_bytes) (omega arith)
        (positive_or-lem (2 ^ 24) raw.queue_max_bytes (omega arith)) in
    record {
      workers = w;
      queue = r;
      bytes = b;
      device =
          lowered-lem _ _ (omega (arith, w.0, r.0))
            (positive_or-lem 64 raw.device_queue_size (omega arith));
      device_bytes =
          lowered-lem _ _ b.0 (positive_or-lem (2 ^ 20) raw.device_queue_max_bytes (omega arith));
      event =
          lowered-lem 65536 _ (omega arith)
            (positive_or-lem 65536 raw.max_event_bytes (omega arith));
      timeout = lowered-lem 2000000000 _ (omega arith) (positive_or-lem 200000000 _ (omega arith));
    }

accepts-Limits :
    (c : JudgeSourceConfig) → Limits c → is_empty c.channel ≡ false → accepts_config c ≡ c.enabled
unfolding accepts_config
accepts-Limits c l h = ground arith

-- The publisher's constructor takes a normalised configuration exactly when the source is enabled.
pub accepts-normalized :
    (raw : JudgeSourceCfg) → accepts_config (normalized_config raw) ≡ raw.enabled
unfolding normalized_config
accepts-normalized raw =
    accepts-Limits (normalized_config raw) (normalized_config-Limits raw)
      (channel-nonempty (trim_space raw.channel))
