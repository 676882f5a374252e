-- ===== src/History/Batches.antt =====
-- The queue and the batch of historyWriter: newHistoryWriter, writeAsync, stop and run of
-- internal/collector/history_writer.go.
pub mod Refine
pub mod Bounds
pub mod Drain
use multiple_protocol_contro.Common.{Bool, List, [], false, if◌then◌else◌, leb, length, suc, true}
use multiple_protocol_contro.Common.{zero, ℕ, ◌++◌, ◌<◌, ◌∷◌, ◌≡◌, ◌≤◌}
use multiple_protocol_contro.Common.Int.{negsuc, pos, ℤ}

-- The defaults of the settings, and positiveOrDefault.
abbrev pub default_history_batch_size : ℕ
default_history_batch_size = 100

abbrev pub default_history_queue_size : ℕ
default_history_queue_size = 10000

abbrev pub default_history_retry_count : ℕ
default_history_retry_count = 3

unfoldable pub positive_or_default : ℤ → ℕ → ℕ
positive_or_default (pos zero) fallback = fallback
positive_or_default (pos (suc n)) fallback = suc n
positive_or_default (negsuc n) fallback = fallback

-- What newHistoryWriter keeps of its configuration for a writer that is enabled.
pub record WriterSettings : Type 0 where
  pub batch_size : ℕ
  pub queue_size : ℕ
  pub retry_count : ℕ

unfoldable pub writer_settings : ℤ → ℤ → ℤ → WriterSettings
writer_settings batch queue retries = record {
  batch_size = positive_or_default batch default_history_batch_size;
  queue_size = positive_or_default queue default_history_queue_size;
  retry_count = positive_or_default retries default_history_retry_count;
}

-- Where the goroutine of `run` stands: in its loop, in the inner loop after the context is done, or returned.
pub data Phase : Type 0 where
  running draining stopped : Phase

-- `written` holds the batches that flush has handed on, the oldest first; `canceled` that the context is done.
pub record HistoryWriter (A : Type 0) : Type 0 where
  pub phase : Phase
  pub canceled : Bool
  pub queue : List A
  pub batch : List A
  pub written : List (List A)
  pub dropped : ℕ

module _ {A : Type 0} where
  abbrev pub new_history_writer : HistoryWriter A
  new_history_writer = record {
    phase = running;
    canceled = false;
    queue = [];
    batch = [];
    written = [];
    dropped = 0;
  }

  unfoldable pub flush_batch : List A → List (List A) → List (List A)
  flush_batch [] written = written
  flush_batch (p ∷ batch) written = written ++ ((p ∷ batch) ∷ [])

  unfoldable pub flush_writer : HistoryWriter A → HistoryWriter A
  flush_writer w = record w { batch = []; written = flush_batch w.batch w.written }

  unfoldable pub put_point : A → HistoryWriter A → HistoryWriter A
  put_point p w = record w { queue = w.queue ++ (p ∷ []) }

  unfoldable pub drop_point : HistoryWriter A → HistoryWriter A
  drop_point w = record w { dropped = suc w.dropped }

  unfoldable pub cancel : HistoryWriter A → HistoryWriter A
  cancel w = record w { canceled = true }

  unfoldable pub enter : Phase → HistoryWriter A → HistoryWriter A
  enter phase w = record w { phase = phase }

  -- `batch = append(batch, point)` for a point that leaves the queue.
  unfoldable pub collect : A → List A → HistoryWriter A → HistoryWriter A
  collect p rest w = record w { queue = rest; batch = w.batch ++ (p ∷ []) }

  unfoldable pub receive_point : ℕ → A → List A → HistoryWriter A → HistoryWriter A
  receive_point size p rest w =
      let next = collect p rest w in
      if leb size (length next.batch) then flush_writer next else next

  -- The steps of the goroutine of `run`. Where several cases of a select are ready, any is taken.
  pub data RunStep (s : WriterSettings) : HistoryWriter A → HistoryWriter A → Type 0 where
    receive :
        {w : HistoryWriter A} (p : A) (rest : List A)
        → w.phase ≡ running
        → w.queue ≡ p ∷ rest
        → RunStep s w (receive_point s.batch_size p rest w)
    tick : {w : HistoryWriter A} → w.phase ≡ running → RunStep s w (flush_writer w)
    begin_drain :
        {w : HistoryWriter A}
        → w.phase ≡ running
        → w.canceled ≡ true
        → RunStep s w (enter draining w)
    drain_point :
        {w : HistoryWriter A} (p : A) (rest : List A)
        → w.phase ≡ draining
        → w.queue ≡ p ∷ rest
        → RunStep s w (collect p rest w)
    finish :
        {w : HistoryWriter A}
        → w.phase ≡ draining
        → w.queue ≡ []
        → RunStep s w (enter stopped (flush_writer w))

  -- The calls of the others, with the point that a call has put into the queue. A writer that is
  -- cancelled returns from writeAsync, and where its queue has room may also take the point.
  pub data CallStep (s : WriterSettings) : List A → HistoryWriter A → HistoryWriter A → Type 0 where
    accept :
        {w : HistoryWriter A} (p : A)
        → length w.queue < s.queue_size
        → CallStep s (p ∷ []) w (put_point p w)
    full :
        {w : HistoryWriter A}
        → s.queue_size ≤ length w.queue
        → w.canceled ≡ false
        → CallStep s [] w (drop_point w)
    refuse : {w : HistoryWriter A} → w.canceled ≡ true → CallStep s [] w w
    stop : {w : HistoryWriter A} → CallStep s [] w (cancel w)

  -- The writers that such steps lead to, with all points that were accepted, in their order.
  pub data Reached (s : WriterSettings) : List A → HistoryWriter A → Type 0 where
    started : Reached s [] new_history_writer
    ran :
        {accepted : List A} {w v : HistoryWriter A}
        → Reached s accepted w
        → RunStep s w v
        → Reached s accepted v
    called :
        {accepted more : List A} {w v : HistoryWriter A}
        → Reached s accepted w
        → CallStep s more w v
        → Reached s (accepted ++ more) v
