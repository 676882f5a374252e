-- ===== src/History/Batches/Drain.antt =====
-- What `stop` leads to: the inner loop of run ends, and leaves nothing behind.
use multiple_protocol_contro.Common.{Bool, Bool-cases, List, [], ap, append-nil, arith, false}
use multiple_protocol_contro.Common.{if◌then◌else◌, inl, inr, leb, length, length-append, refl}
use multiple_protocol_contro.Common.{suc, sym, true, zero, ℕ, ◌++◌, ◌+◌, ◌∙◌, ◌∷◌, ◌≡◌, ◌≢◌, ◌≤◌}
use multiple_protocol_contro.Common.{◌⊎◌}
use multiple_protocol_contro.Gateway.History.{step}
use multiple_protocol_contro.History.Batches.{CallStep, HistoryWriter, Phase, Reached, RunStep}
use multiple_protocol_contro.History.Batches.{WriterSettings, accept, begin_drain, cancel}
use multiple_protocol_contro.History.Batches.{collect, drain_point, draining, drop_point, enter}
use multiple_protocol_contro.History.Batches.{finish, flush_writer, full, put_point, ran, receive}
use multiple_protocol_contro.History.Batches.{receive_point, refuse, running, stop, stopped, tick}
use multiple_protocol_contro.History.Batches.Refine.{Reached-append, concat}

Phase-cases : (phase : Phase) → (phase ≡ running) ⊎ (phase ≡ draining) ⊎ (phase ≡ stopped)
Phase-cases running = inl refl
Phase-cases draining = inr (inl refl)
Phase-cases stopped = inr (inr refl)

-- The steps that a phase has still to take besides those for points: to begin the drain, and to finish.
abbrev pub phase_steps : Phase → ℕ
phase_steps running = 2
phase_steps draining = 1
phase_steps stopped = 0

at_most_two : (phase : Phase) → phase_steps phase ≤ 2
at_most_two running = omega arith
at_most_two draining = omega arith
at_most_two stopped = omega arith

module _ {A : Type 0} where
  -- So many steps of the goroutine in a row.
  pub data RunSteps (s : WriterSettings) : ℕ → HistoryWriter A → HistoryWriter A → Type 0 where
    no_steps : {w : HistoryWriter A} → RunSteps s zero w w
    one_step :
        {n : ℕ} {w u v : HistoryWriter A}
        → RunStep s w u
        → RunSteps s n u v
        → RunSteps s (suc n) w v

  -- Steps of the goroutine and calls of the others, in any order.
  pub data Course (s : WriterSettings) : HistoryWriter A → HistoryWriter A → Type 0 where
    course_ends : {w : HistoryWriter A} → Course s w w
    then_runs : {w u v : HistoryWriter A} → RunStep s w u → Course s u v → Course s w v
    then_called :
        {more : List A} {w u v : HistoryWriter A}
        → CallStep s more w u
        → Course s u v
        → Course s w v

  abbrev is_tick : {s : WriterSettings} {w v : HistoryWriter A} → RunStep s w v → Bool
  is_tick (receive p xs is_running _) = false
  is_tick (tick is_running) = true
  is_tick (begin_drain is_running _) = false
  is_tick (drain_point p xs is_draining _) = false
  is_tick (finish is_draining _) = false

  -- The steps of the goroutine, and how many of them are ticks.
  pub run_steps : {s : WriterSettings} {w v : HistoryWriter A} → Course s w v → ℕ
  run_steps course_ends = 0
  run_steps (then_runs step later) = suc (run_steps later)
  run_steps (then_called call later) = run_steps later

  pub ticks : {s : WriterSettings} {w v : HistoryWriter A} → Course s w v → ℕ
  ticks course_ends = 0
  ticks (then_runs step later) = if is_tick step then suc (ticks later) else ticks later
  ticks (then_called call later) = ticks later

  -- The points that the calls have put into the queue.
  pub accepted_in : {s : WriterSettings} {w v : HistoryWriter A} → Course s w v → List A
  accepted_in course_ends = []
  accepted_in (then_runs step later) = accepted_in later
  accepted_in (then_called {more = more} call later) = more ++ accepted_in later

  receive-measure :
      (size : ℕ) (p : A) (xs : List A) (w : HistoryWriter A)
      → length (receive_point size p xs w).queue + phase_steps (receive_point size p xs w).phase
        ≡ length xs + phase_steps w.phase
  unfolding receive_point collect flush_writer
  receive-measure size p xs w = elim (Bool-cases (leb size (length (w.batch ++ (p ∷ []))))) [
    | inl full_batch ↦ rw full_batch refl
    | inr room ↦ rw room refl
  ]

  RunStep-measure :
      (s : WriterSettings) (w u : HistoryWriter A) (n t a : ℕ) (step : RunStep s w u)
      → n ≤ length u.queue + phase_steps u.phase + t + a
      → suc n ≤ length w.queue + phase_steps w.phase + (if is_tick step then suc t else t) + a
  unfolding receive_point collect flush_writer enter
  RunStep-measure s w u n t a (receive p xs is_running q) h =
      omega (arith, h, receive-measure s.batch_size p xs w, ap length q)
  RunStep-measure s w u n t a (tick is_running) h = omega arith
  RunStep-measure s w u n t a (begin_drain is_running c) h = rw is_running (omega arith)
  RunStep-measure s w u n t a (drain_point p xs is_draining q) h = omega (arith, ap length q)
  RunStep-measure s w u n t a (finish is_draining q) h = rw is_draining (omega arith)

  CallStep-measure :
      (s : WriterSettings) (more : List A) (w u : HistoryWriter A)
      → CallStep s more w u
      → length u.queue + phase_steps u.phase ≡ length w.queue + phase_steps w.phase + length more
  unfolding put_point drop_point cancel
  CallStep-measure s more w u (accept p room) = omega (arith, length-append w.queue (p ∷ []))
  CallStep-measure s more w u (full _ _) = omega arith
  CallStep-measure s more w u (refuse _) = omega arith
  CallStep-measure s more w u stop = omega arith

  -- In any course, the goroutine takes at most one step for each point that waits or that a call puts into
  -- the queue meanwhile, two more to begin and to finish the drain, and its ticks.
  pub run_steps-bounded :
      (s : WriterSettings) (w v : HistoryWriter A) (c : Course s w v)
      → run_steps c ≤ length w.queue + phase_steps w.phase + ticks c + length (accepted_in c)
  unfolding run_steps ticks accepted_in
  run_steps-bounded s w v course_ends = omega arith
  run_steps-bounded s w v (then_runs {u = u} step later) = omega (
    arith,
    RunStep-measure s w u (run_steps later) (ticks later) (length (accepted_in later)) step
        (run_steps-bounded s u v later),
  )
  run_steps-bounded s w v (then_called {more = more} {u = u} call later) = omega (
    arith,
    run_steps-bounded s u v later,
    CallStep-measure s more w u call,
    length-append more (accepted_in later),
  )

  abbrev Drained : WriterSettings → ℕ → HistoryWriter A → Type 0
  Drained s n w =
      (v : HistoryWriter A) × RunSteps s n w v
      × (v.phase ≡ stopped)
      × (v.batch ≡ [])
      × (v.queue ≡ [])

  drain_run :
      (s : WriterSettings) (xs : List A) (w : HistoryWriter A)
      → w.phase ≡ draining
      → w.queue ≡ xs
      → Drained s (suc (length xs)) w
  unfolding enter flush_writer collect
  drain_run s [] w e q =
      (enter stopped (flush_writer w), one_step (finish e q) no_steps, refl, refl, q)
  drain_run s (p ∷ xs) w e q =
      let (v, steps, is_stopped, no_batch, no_queue) = drain_run s xs (collect p xs w) e refl in
      (v, one_step (drain_point p xs e q) steps, is_stopped, no_batch, no_queue)

  RunSteps-Reached :
      (s : WriterSettings) (n : ℕ) (accepted : List A) (w v : HistoryWriter A)
      → Reached s accepted w
      → RunSteps s n w v
      → Reached s accepted v
  RunSteps-Reached s n accepted w v r no_steps = r
  RunSteps-Reached s n accepted w v r (one_step step steps) =
      RunSteps-Reached s _ accepted _ v (ran r step) steps

  nothing_left : {xs ys : List A} → xs ≡ [] → ys ≡ [] → [] ≡ xs ++ ys
  nothing_left e f = rw (e, f) refl

  Drained-written :
      (s : WriterSettings) (n : ℕ) (accepted : List A) (w : HistoryWriter A)
      → Reached s accepted w
      → Drained s n w
      → (v : HistoryWriter A) × RunSteps s n w v
        × (v.phase ≡ stopped)
        × (concat v.written ≡ accepted)
  Drained-written s n accepted w r (v, steps, is_stopped, no_batch, no_queue) = (
    v,
    steps,
    is_stopped,
    sym (append-nil (concat v.written))
        ∙ ap (λ t. concat v.written ++ t) (nothing_left no_batch no_queue)
        ∙ Reached-append s accepted v (RunSteps-Reached s n accepted w v r steps),
  )

  stop_within :
      (s : WriterSettings) (accepted : List A) (w : HistoryWriter A)
      → Reached s accepted w
      → w.canceled ≡ true
      → w.phase ≢ stopped
      → (n : ℕ) × (n ≤ length w.queue + 2)
        × (v : HistoryWriter A) × RunSteps s n w v
        × (v.phase ≡ stopped)
        × (concat v.written ≡ accepted)
  stop_within s accepted w r c going = elim (Phase-cases w.phase) [
    | inl is_running ↦
        let w' = enter draining w in
        let step : RunStep s w w' = begin_drain is_running c in
        let (v, steps, is_stopped, written) =
          Drained-written s (suc (length w.queue)) accepted w' (ran r step)
            (drain_run s w.queue w' (unfold enter in refl) (unfold enter in refl)) in
        (suc (suc (length w.queue)), omega arith, v, one_step step steps, is_stopped, written)
    | inr (inl is_draining) ↦
        let (v, steps, is_stopped, written) =
          Drained-written s (suc (length w.queue)) accepted w r
            (drain_run s w.queue w is_draining refl) in
        (suc (length w.queue), omega arith, v, steps, is_stopped, written)
    | inr (inr is_stopped) ↦ absurd (going is_stopped)
  ]

  -- A canceled writer that has not stopped is never stuck: at most as many steps of its own as its queue
  -- has points, and two more, lead it to its end, where every point accepted until then is in a batch that
  -- it has written, in order. In any course of its steps and of calls it takes at most so many steps, one
  -- more for each point that the calls have put into the queue, and its ticks, which its select may take
  -- until it takes the end of the context.
  pub canceled_finishes :
      (s : WriterSettings) (accepted : List A) (w u : HistoryWriter A) (course : Course s w u)
      → Reached s accepted w
      → w.canceled ≡ true
      → w.phase ≢ stopped
      → ((n : ℕ) × (n ≤ length w.queue + 2)
          × (v : HistoryWriter A) × RunSteps s n w v
          × (v.phase ≡ stopped)
          × (concat v.written ≡ accepted))
        × (run_steps course ≤ length w.queue + 2 + ticks course + length (accepted_in course))
  canceled_finishes s accepted w u course r c going = (
    stop_within s accepted w r c going,
    omega (arith, run_steps-bounded s w u course, at_most_two w.phase),
  )
