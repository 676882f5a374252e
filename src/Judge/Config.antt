-- ===== src/Judge/Config.antt =====
-- The limits of the Judge Source: normalizedJudgeSourceConfig of internal/collector/judge_source.go and
-- the test of newJudgeSourcePublisher. Go's `int` is an integer, a duration a number of nanoseconds.
pub mod Limits
use multiple_protocol_contro.Common.{Bool, Text, [], codes, false, if◌then◌else◌, ltb, not, suc}
use multiple_protocol_contro.Common.{trim_space, true, zero, ℕ, ◌%◌, ◌*◌, ◌==◌, ◌^◌, ◌||◌, ◌∷◌}
use multiple_protocol_contro.Common.Int.{negsuc, of_word, pos, to_word, ℤ}

-- JudgeSourceCfg, with the fields that the normalisation reads.
pub record JudgeSourceCfg : Type 0 where
  pub enabled : Bool
  pub channel : Text
  pub write_timeout_ms : ℤ
  pub worker_count : ℤ
  pub queue_size : ℤ
  pub queue_max_bytes : ℤ
  pub device_queue_size : ℤ
  pub device_queue_max_bytes : ℤ
  pub max_event_bytes : ℤ

pub record JudgeSourceConfig : Type 0 where
  pub enabled : Bool
  pub channel : Text
  pub write_timeout : ℕ
  pub worker_count : ℕ
  pub queue_size : ℕ
  pub queue_max_bytes : ℕ
  pub device_queue_size : ℕ
  pub device_queue_max_bytes : ℕ
  pub maximum_event_bytes : ℕ

-- `if value <= 0 { value = byDefault }`: the number that is left is positive.
unfoldable pub positive_or : ℕ → ℤ → ℕ
positive_or by_default (pos zero) = by_default
positive_or by_default (pos (suc n)) = suc n
positive_or by_default (negsuc n) = by_default

-- `if value > most { value = most }` and `if value < least { value = least }`
unfoldable pub lowered : ℕ → ℕ → ℕ
lowered most value = if ltb most value then most else value

unfoldable pub raised : ℕ → ℕ → ℕ
raised least value = if ltb value least then least else value

-- `time.Duration(ms) * time.Millisecond`, in int64, which wraps.
unfoldable pub milliseconds : ℤ → ℤ
milliseconds ms = of_word (2 ^ 63) (to_word (2 ^ 64) ms * 1000000 % 2 ^ 64)

unfoldable pub channel_or_default : Text → Text
channel_or_default [] = codes "iot:judge:device-events"
channel_or_default (c ∷ s) = c ∷ s

unfoldable pub event_limit : ℤ → ℕ
event_limit n = lowered 65536 (positive_or 65536 n)

unfoldable pub normalized_config : JudgeSourceCfg → JudgeSourceConfig
normalized_config raw =
    let workers = lowered 64 (positive_or 8 raw.worker_count) in
    let queue = raised workers (lowered 1048576 (positive_or 2048 raw.queue_size)) in
    let queue_bytes = lowered (2 ^ 30) (positive_or (2 ^ 24) raw.queue_max_bytes) in
    record {
      enabled = raw.enabled;
      channel = channel_or_default (trim_space raw.channel);
      write_timeout =
          lowered 2000000000 (positive_or 200000000 (milliseconds raw.write_timeout_ms));
      worker_count = workers;
      queue_size = queue;
      queue_max_bytes = queue_bytes;
      device_queue_size = lowered queue (positive_or 64 raw.device_queue_size);
      device_queue_max_bytes =
          lowered queue_bytes (positive_or (2 ^ 20) raw.device_queue_max_bytes);
      maximum_event_bytes = event_limit raw.max_event_bytes;
    }

abbrev pub is_empty : Text → Bool
is_empty [] = true
is_empty (c ∷ s) = false

-- The test of newJudgeSourcePublisher, of a context and a client that are not nil.
unfoldable pub accepts_config : JudgeSourceConfig → Bool
accepts_config c = not (
    not c.enabled
    || c.worker_count == 0
    || ltb c.queue_size c.worker_count
    || c.queue_max_bytes == 0
    || c.device_queue_size == 0
    || c.device_queue_max_bytes == 0
    || is_empty c.channel
    || c.write_timeout == 0)
