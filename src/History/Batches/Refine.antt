-- ===== src/History/Batches/Refine.antt =====
-- The writer as a log that only grows and a line of points that wait for it.
use multiple_protocol_contro.Common.{Bool-cases, List, [], ap, append-nil, append_assoc, inl, inr}
use multiple_protocol_contro.Common.{leb, length, refl, sym, ℕ, ◌++◌, ◌∙◌, ◌∷◌, ◌≡◌}
use multiple_protocol_contro.Gateway.History.{step}
use multiple_protocol_contro.History.Batches.{CallStep, HistoryWriter, Reached, RunStep}
use multiple_protocol_contro.History.Batches.{WriterSettings, accept, begin_drain, called, cancel}
use multiple_protocol_contro.History.Batches.{collect, drain_point, drop_point, enter, finish}
use multiple_protocol_contro.History.Batches.{flush_batch, flush_writer, full, put_point, ran}
use multiple_protocol_contro.History.Batches.{receive, receive_point, refuse, started, stop, tick}
use mathlib.Core.Path.{subst}

pub record Log (A : Type 0) : Type 0 where
  pub done : List A
  pub waiting : List A

module _ {A : Type 0} where
  abbrev pub concat : List (List A) → List A
  concat [] = []
  concat (xs ∷ xss) = xs ++ concat xss

  -- One step of the log: nothing, a point more that waits, or the first of the waiting written in their order.
  pub data LogStep : List A → Log A → Log A → Type 0 where
    idle : {l m : Log A} → m.done ≡ l.done → m.waiting ≡ l.waiting → LogStep [] l m
    push :
        {l m : Log A} (p : A)
        → m.done ≡ l.done
        → m.waiting ≡ l.waiting ++ (p ∷ [])
        → LogStep (p ∷ []) l m
    deliver :
        {l m : Log A} (first : List A)
        → l.waiting ≡ first ++ m.waiting
        → m.done ≡ l.done ++ first
        → LogStep [] l m

  -- The logs that such steps lead to from an empty one, with the points pushed.
  pub data LogReached : List A → Log A → Type 0 where
    empty_log : (l : Log A) → l.done ≡ [] → l.waiting ≡ [] → LogReached [] l
    stepped :
        {pushed more : List A} {l m : Log A}
        → LogReached pushed l
        → LogStep more l m
        → LogReached (pushed ++ more) m

  unfoldable pub log_of : HistoryWriter A → Log A
  log_of w = record { done = concat w.written; waiting = w.batch ++ w.queue }

  concat-flush_batch :
      (batch : List A) (written : List (List A))
      → concat (flush_batch batch written) ≡ concat written ++ batch
  unfolding flush_batch
  concat-flush_batch [] written = sym (append-nil (concat written))
  concat-flush_batch (p ∷ batch) [] = append-nil (p ∷ batch)
  concat-flush_batch (p ∷ batch) (b ∷ written) =
      ap (λ t. b ++ t) (concat-flush_batch (p ∷ batch) written)
      ∙ sym (append_assoc b (concat written) (p ∷ batch))

  flush_writer-LogStep :
      (w : HistoryWriter A) (l : Log A)
      → l.done ≡ concat w.written
      → l.waiting ≡ w.batch ++ w.queue
      → LogStep [] l (log_of (flush_writer w))
  unfolding log_of flush_writer
  flush_writer-LogStep w l d e =
      deliver w.batch e (rw (concat-flush_batch w.batch w.written, d) refl)

  collect_waiting :
      (p : A) (rest : List A) (w : HistoryWriter A)
      → w.queue ≡ p ∷ rest
      → (log_of (collect p rest w)).waiting ≡ (log_of w).waiting
  unfolding log_of collect
  collect_waiting p rest w e = rw (e, append_assoc w.batch (p ∷ []) rest) refl

  receive-LogStep :
      (size : ℕ) (p : A) (rest : List A) (w : HistoryWriter A)
      → w.queue ≡ p ∷ rest
      → LogStep [] (log_of w) (log_of (receive_point size p rest w))
  unfolding receive_point collect log_of
  receive-LogStep size p rest w e = elim (Bool-cases (leb size (length (collect p rest w).batch))) [
    | inl e_full ↦ rw e_full (
        flush_writer-LogStep (collect p rest w) (log_of w) (unfold log_of collect in refl)
          (sym (collect_waiting p rest w e)))
    | inr e_room ↦ rw e_room (idle refl (collect_waiting p rest w e))
  ]

  run-LogStep :
      (s : WriterSettings) (w v : HistoryWriter A)
      → RunStep s w v
      → LogStep [] (log_of w) (log_of v)
  unfolding log_of enter collect
  run-LogStep s w v (receive p rest _ e) = receive-LogStep s.batch_size p rest w e
  run-LogStep s w v (tick _) = flush_writer-LogStep w (log_of w) refl refl
  run-LogStep s w v (begin_drain _ _) = idle refl refl
  run-LogStep s w v (drain_point p rest _ e) = idle refl (collect_waiting p rest w e)
  run-LogStep s w v (finish _ _) = flush_writer-LogStep w (log_of w) refl refl

  call-LogStep :
      (s : WriterSettings) (more : List A) (w v : HistoryWriter A)
      → CallStep s more w v
      → LogStep more (log_of w) (log_of v)
  unfolding log_of
  call-LogStep s more w v (accept p _) =
      unfold put_point in push p refl (sym (append_assoc w.batch w.queue (p ∷ [])))
  call-LogStep s more w v (full _ _) = unfold drop_point in idle refl refl
  call-LogStep s more w v (refuse _) = idle refl refl
  call-LogStep s more w v stop = unfold cancel in idle refl refl

  -- However the calls and the goroutine's steps interleave, the writer is a log: what was accepted is
  -- pushed, and delivered in that order.
  pub Reached-LogReached :
      (s : WriterSettings) (accepted : List A) (w : HistoryWriter A)
      → Reached s accepted w
      → LogReached accepted (log_of w)
  Reached-LogReached s accepted w started = unfold log_of in empty_log _ refl refl
  Reached-LogReached s accepted w (ran before step) =
      subst (λ t. LogReached t (log_of w)) (append-nil accepted)
        (stepped (Reached-LogReached s accepted _ before) (run-LogStep s _ w step))
  Reached-LogReached s accepted w (called before step) =
      stepped (Reached-LogReached s _ _ before) (call-LogStep s _ _ w step)

  LogStep-append :
      (more : List A) (l m : Log A)
      → LogStep more l m
      → m.done ++ m.waiting ≡ (l.done ++ l.waiting) ++ more
  LogStep-append more l m (idle d e) = rw (d, e) (sym (append-nil (l.done ++ l.waiting)))
  LogStep-append more l m (push p d e) = rw (d, e) (sym (append_assoc l.done l.waiting (p ∷ [])))
  LogStep-append more l m (deliver first e d) =
      rw (d, e, append_assoc l.done first m.waiting)
        (sym (append-nil (l.done ++ (first ++ m.waiting))))

  LogReached-append :
      (pushed : List A) (l : Log A) → LogReached pushed l → l.done ++ l.waiting ≡ pushed
  LogReached-append pushed l (empty_log _ d e) = rw (d, e) refl
  LogReached-append pushed l (stepped {more = more} before step) =
      LogStep-append more _ l step ∙ ap (λ t. t ++ more) (LogReached-append _ _ before)

  -- No point is lost, doubled or moved before another.
  pub Reached-append :
      (s : WriterSettings) (accepted : List A) (w : HistoryWriter A)
      → Reached s accepted w
      → concat w.written ++ (w.batch ++ w.queue) ≡ accepted
  Reached-append s accepted w r =
      unfold log_of in LogReached-append accepted (log_of w) (Reached-LogReached s accepted w r)
