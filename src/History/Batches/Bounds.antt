-- ===== src/History/Batches/Bounds.antt =====
-- What the queue, the batch and the written batches of the writer never exceed.
use multiple_protocol_contro.Common.{All, All-append, Bool-cases, List, [], ap, arith, inl, inr}
use multiple_protocol_contro.Common.{leb, length, length-append, refl, suc, zero, ℕ, ◌++◌, ◌<◌}
use multiple_protocol_contro.Common.{◌∷◌, ◌≡◌, ◌≢◌, ◌≤◌}
use multiple_protocol_contro.Common.Int.{negsuc, pos, ℤ}
use multiple_protocol_contro.Gateway.History.{step}
use multiple_protocol_contro.History.Batches.{CallStep, HistoryWriter, Reached, RunStep}
use multiple_protocol_contro.History.Batches.{WriterSettings, accept, begin_drain, called, cancel}
use multiple_protocol_contro.History.Batches.{collect, drain_point, drop_point, enter, finish}
use multiple_protocol_contro.History.Batches.{flush_batch, flush_writer, full}
use multiple_protocol_contro.History.Batches.{positive_or_default, put_point, ran, receive}
use multiple_protocol_contro.History.Batches.{receive_point, refuse, running, started, stop}
use multiple_protocol_contro.History.Batches.{stopped, tick}

abbrev pub Fits : {A : Type 0} → ℕ → List A → Type 0
Fits size batch = (0 < length batch) × (length batch ≤ size)

-- The drain puts no bound on its one last batch.
pub record WithinBounds {A : Type 0} (s : WriterSettings) (w : HistoryWriter A) : Type 0 where
  pub queue_bound : length w.queue ≤ s.queue_size
  pub batch_bound : w.phase ≡ running → length w.batch < s.batch_size
  pub written_bound : w.phase ≢ stopped → All (Fits s.batch_size) w.written
  pub drained : w.phase ≡ stopped → w.batch ≡ []

pub positive_or_default_positive :
    (n : ℤ) (fallback : ℕ) → 0 < fallback → 0 < positive_or_default n fallback
unfolding positive_or_default
positive_or_default_positive (pos zero) fallback h = h
positive_or_default_positive (pos (suc n)) fallback h = omega arith
positive_or_default_positive (negsuc n) fallback h = h

module _ {A : Type 0} where
  flush_batch-All :
      (size : ℕ) (batch : List A) (written : List (List A))
      → length batch ≤ size
      → All (Fits size) written
      → All (Fits size) (flush_batch batch written)
  unfolding flush_batch
  flush_batch-All size [] written h k = k
  flush_batch-All size (p ∷ batch) written h k =
      All-append (Fits size) written ((p ∷ batch) ∷ []) k ((omega arith, h), tt)

  receive-WithinBounds :
      (s : WriterSettings) (p : A) (rest : List A) (w : HistoryWriter A)
      → 0 < s.batch_size
      → w.phase ≡ running
      → w.queue ≡ p ∷ rest
      → WithinBounds s w
      → WithinBounds s (receive_point s.batch_size p rest w)
  unfolding receive_point collect flush_writer
  receive-WithinBounds s p rest w positive is_running e inv =
      let one_less : length rest ≤ s.queue_size = omega (arith, inv.queue_bound, ap length e) in
      let longer = length-append w.batch (p ∷ []) in
      let bound = inv.batch_bound is_running in
      let written = inv.written_bound (λ is_stopped. cc) in
      elim (Bool-cases (leb s.batch_size (length (w.batch ++ (p ∷ []))))) [
        | inl e_full ↦ rw e_full (record {
          queue_bound = one_less;
          batch_bound = λ _. positive;
          written_bound = λ _.
              flush_batch-All s.batch_size (w.batch ++ (p ∷ [])) w.written (omega arith) written;
          drained = λ is_stopped. refl;
        })
        | inr e_room ↦ rw e_room (record {
          queue_bound = one_less;
          batch_bound = λ _. ground arith;
          written_bound = λ _. written;
          drained = λ is_stopped. absurd cc;
        })
      ]

  run-WithinBounds :
      (s : WriterSettings) (w v : HistoryWriter A)
      → 0 < s.batch_size
      → RunStep s w v
      → WithinBounds s w
      → WithinBounds s v
  unfolding flush_writer enter collect
  run-WithinBounds s w v positive (receive p rest is_running e) inv =
      receive-WithinBounds s p rest w positive is_running e inv
  run-WithinBounds s w v positive (tick is_running) inv =
      let bound = inv.batch_bound is_running in
      record {
        queue_bound = inv.queue_bound;
        batch_bound = λ _. positive;
        written_bound = λ going.
            flush_batch-All s.batch_size w.batch w.written (omega arith) (inv.written_bound going);
        drained = λ _. refl;
      }
  run-WithinBounds s w v positive (begin_drain is_running _) inv = record {
    queue_bound = inv.queue_bound;
    batch_bound = λ again. absurd cc;
    written_bound = λ _. inv.written_bound (λ is_stopped. cc);
    drained = λ is_stopped. absurd cc;
  }
  run-WithinBounds s w v positive (drain_point p rest is_draining e) inv = record {
    queue_bound = omega (arith, inv.queue_bound, ap length e);
    batch_bound = λ again. absurd cc;
    written_bound = inv.written_bound;
    drained = λ is_stopped. absurd cc;
  }
  run-WithinBounds s w v positive (finish is_draining e) inv = record {
    queue_bound = inv.queue_bound;
    batch_bound = λ again. absurd cc;
    written_bound = λ going. absurd (going refl);
    drained = λ _. refl;
  }

  call-WithinBounds :
      (s : WriterSettings) (more : List A) (w v : HistoryWriter A)
      → CallStep s more w v
      → WithinBounds s w
      → WithinBounds s v
  unfolding put_point drop_point cancel
  call-WithinBounds s more w v (accept p h) inv = record {
    queue_bound = omega (arith, length-append w.queue (p ∷ []));
    batch_bound = inv.batch_bound;
    written_bound = inv.written_bound;
    drained = inv.drained;
  }
  call-WithinBounds s more w v (full _ _) inv = record {
    queue_bound = inv.queue_bound;
    batch_bound = inv.batch_bound;
    written_bound = inv.written_bound;
    drained = inv.drained;
  }
  call-WithinBounds s more w v (refuse _) inv = inv
  call-WithinBounds s more w v stop inv = record {
    queue_bound = inv.queue_bound;
    batch_bound = inv.batch_bound;
    written_bound = inv.written_bound;
    drained = inv.drained;
  }

  -- A writer whose batches hold at least one point keeps its queue within its size at every moment, and its
  -- batch while it runs; the batch of the drain has no bound. Until it has stopped, every batch that it has
  -- written has a point and at most so many.
  pub Reached-WithinBounds :
      (s : WriterSettings) (accepted : List A) (w : HistoryWriter A)
      → 0 < s.batch_size
      → Reached s accepted w
      → WithinBounds s w
  Reached-WithinBounds s accepted w positive started = record {
    queue_bound = omega arith;
    batch_bound = λ _. positive;
    written_bound = λ _. tt;
    drained = λ is_stopped. absurd cc;
  }
  Reached-WithinBounds s accepted w positive (ran before step) =
      run-WithinBounds s _ w positive step (Reached-WithinBounds s accepted _ positive before)
  Reached-WithinBounds s accepted w positive (called before step) =
      call-WithinBounds s _ _ w step (Reached-WithinBounds s _ _ positive before)
