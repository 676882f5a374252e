-- ===== src/Judge/Tests.antt =====
-- Concrete runs of the failure log and of the limits, and the theorems at concrete inputs.
use multiple_protocol_contro.Common.{List, Text, [], codes, length, none, refl, some, text_eq}
use multiple_protocol_contro.Common.{true, ◌+◌, ◌∷◌, ◌≡◌, ◌≢◌, ◌≤◌}
use multiple_protocol_contro.Common.Int.{negsuc, pos}
use multiple_protocol_contro.Judge.Config.{JudgeSourceCfg, JudgeSourceConfig, accepts_config}
use multiple_protocol_contro.Judge.Config.{lowered, normalized_config, positive_or, raised}
use multiple_protocol_contro.Judge.Config.Limits.{Limits, accepts-normalized}
use multiple_protocol_contro.Judge.Config.Limits.{normalized_config-Limits}
use multiple_protocol_contro.Judge.FailureLog.{confirm_success, flush_at, flush_entry, new_log}
use multiple_protocol_contro.Judge.FailureLog.{queue_full, record_failure, record_reason}
use multiple_protocol_contro.Judge.FailureLog.{redis_timeout, report_change, report_first}
use multiple_protocol_contro.Judge.FailureLog.{success, summaries_of}
use multiple_protocol_contro.Judge.FailureLog.Consistent.{LogInv, run-LogInv}
use multiple_protocol_contro.Judge.FailureLog.Invariant.{new-Inv}
use multiple_protocol_contro.Judge.FailureLog.Runs.{Call, failed, failures_of, flushed, run}
use multiple_protocol_contro.Judge.FailureLog.Runs.{run_conserves, step, succeeded, times_failed}
use multiple_protocol_contro.Judge.Queue.{Publication, Publisher, admit, admitted, charge}
use multiple_protocol_contro.Judge.Queue.{complete_publication, enqueue, new_publisher}
use multiple_protocol_contro.Judge.Queue.{next_publication, refusal, send_ready, set_queue}
use multiple_protocol_contro.Judge.Queue.Reachable.{queue_safe}
use multiple_protocol_contro.Judge.Queue.Ready.{Reachable, State, enqueued, plus_at, received}
use multiple_protocol_contro.Judge.Queue.Ready.{started, stepped}
use multiple_protocol_contro.Judge.Queue.Tokens.{count_of}

abbrev history : List Call
history =
    failed redis_timeout
    ∷ flushed 5
    ∷ failed redis_timeout
    ∷ failed queue_full
    ∷ failed redis_timeout
    ∷ flushed 6
    ∷ succeeded (redis_timeout ∷ [])
    ∷ flushed 7
    ∷ []

-- The timeout is written when it first fails and when it has recovered, with one and two failures.
timeouts_written : failures_of redis_timeout (run history new_log).1 ≡ 3
unfolding run step record_reason record_failure flush_at summaries_of flush_entry report_first
    report_change success confirm_success
timeouts_written = refl

run_conserves_example :
    failures_of redis_timeout (run history new_log).1
      + ((run history new_log).0 redis_timeout).count
    ≡ (new_log redis_timeout).count + times_failed redis_timeout history
run_conserves_example = run_conserves redis_timeout history new_log

abbrev raw_limits : JudgeSourceCfg
raw_limits = record {
  enabled = true;
  channel = codes "  ";
  write_timeout_ms = pos 9000;
  worker_count = pos 100;
  queue_size = pos 3;
  queue_max_bytes = negsuc 0;
  device_queue_size = pos 500;
  device_queue_max_bytes = pos 0;
  max_event_bytes = pos 1000;
}

queue_raised : (normalized_config raw_limits).queue_size ≡ 64
unfolding normalized_config lowered raised positive_or
queue_raised = refl

normalized_config-Limits_example : Limits (normalized_config raw_limits)
normalized_config-Limits_example = normalized_config-Limits raw_limits

accepts-normalized_example : accepts_config (normalized_config raw_limits) ≡ true
accepts-normalized_example = accepts-normalized raw_limits

-- Two publications of one device, of which a worker has taken the first.
abbrev limits : JudgeSourceConfig
limits = record {
  enabled = true;
  channel = codes "c";
  write_timeout = 1;
  worker_count = 1;
  queue_size = 2;
  queue_max_bytes = 100;
  device_queue_size = 2;
  device_queue_max_bytes = 100;
  maximum_event_bytes = 50;
}

abbrev meter : Text
meter = codes "m1"

abbrev first : Publication
first = record { device_id = meter; payload = 1 ∷ 2 ∷ [] }

abbrev second : Publication
second = record { device_id = meter; payload = 3 ∷ [] }

abbrev with_first : Publisher
with_first = record {
  ready_devices = meter ∷ [];
  device_queues =
      set_queue meter
        (some (record {
          pending = first ∷ [];
          scheduled = true;
          outstanding_count = 1;
          outstanding_bytes = 2;
        }))
        (λ d. none);
  queued_publications = 1;
  queue_bytes = 2;
}

first_admitted : enqueue limits first new_publisher ≡ some (admitted, with_first)
unfolding enqueue refusal admit charge send_ready
first_admitted = refl

abbrev after_first : State
after_first = record { publisher = with_first; taken = λ d. 0; serving = λ d. 0 }

abbrev token_taken : State
token_taken = record {
  publisher = record with_first { ready_devices = [] };
  taken = plus_at meter (λ d. 0);
  serving = λ d. 0;
}

token_taken-Reachable : Reachable limits token_taken
token_taken-Reachable =
    stepped (stepped started (enqueued first admitted first_admitted))
      (received meter [] {s = after_first} refl)

queue_safe_example :
    ((x : Publication) → enqueue limits x token_taken.publisher ≢ none)
    × ((x : Publication)
        → 1 ≤ token_taken.serving x.device_id
        → complete_publication limits x token_taken.publisher ≢ none)
    × ((d : Text) → 1 ≤ token_taken.taken d → (next_publication d token_taken.publisher).0 ≢ none)
    × ((d : Text)
        → count_of d token_taken.publisher.ready_devices
            + token_taken.taken d
            + token_taken.serving d
          ≤ 1)
    × (token_taken.publisher.queued_publications ≤ limits.queue_size)
    × (length token_taken.publisher.ready_devices ≤ limits.queue_size)
queue_safe_example = queue_safe limits token_taken token_taken-Reachable

-- The second publication is admitted without a second token.
one_token :
    (elim (enqueue limits second with_first) [ none ↦ [] | some r ↦ r.1.ready_devices ])
    ≡ meter ∷ []
unfolding enqueue refusal admit charge set_queue text_eq
one_token = refl

run-LogInv_example : LogInv (run history new_log).0
run-LogInv_example = run-LogInv history new_log (λ r. new-Inv)
