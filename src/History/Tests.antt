-- ===== src/History/Tests.antt =====
-- Concrete points and writers.
use multiple_protocol_contro.Common.{Bool, List, Text, [], arith, codes, false}
use multiple_protocol_contro.Common.{if◌then◌else◌, inl, inr, length, ltb, none, refl}
use multiple_protocol_contro.Common.{some, true, ℕ, ◌++◌, ◌+◌, ◌||◌, ◌∷◌, ◌≡◌, ◌≤◌}
use multiple_protocol_contro.Common.Int.{negsuc, pos}
use multiple_protocol_contro.History.Batches.{HistoryWriter, Reached, WriterSettings, accept}
use multiple_protocol_contro.History.Batches.{begin_drain, called, cancel, collect, drain_point}
use multiple_protocol_contro.History.Batches.{draining, drop_point, enter, full}
use multiple_protocol_contro.History.Batches.{new_history_writer, put_point, started, stop}
use multiple_protocol_contro.History.Batches.{stopped}
use multiple_protocol_contro.History.Batches.Bounds.{Reached-WithinBounds, WithinBounds}
use multiple_protocol_contro.History.Batches.Drain.{Course, RunSteps, accepted_in}
use multiple_protocol_contro.History.Batches.Drain.{canceled_finishes, course_ends, phase_steps}
use multiple_protocol_contro.History.Batches.Drain.{run_steps, run_steps-bounded, then_called}
use multiple_protocol_contro.History.Batches.Drain.{then_runs, ticks}
use multiple_protocol_contro.History.Batches.Refine.{LogReached, Reached-LogReached, concat}
use multiple_protocol_contro.History.Batches.Refine.{log_of}
use multiple_protocol_contro.History.Escape.{escape_string, quote}
use multiple_protocol_contro.History.Escape.Read.{is_awkward, read_string}
use multiple_protocol_contro.History.Escape.Read.{read_string-escape_string}
use multiple_protocol_contro.History.Line.{Formats, HistoryPoint}
use multiple_protocol_contro.History.Send.{after_attempt, attempt_from, attempts_of, failed, sent}
use multiple_protocol_contro.History.Send.{write_batch, write_batch_with_retry}
use multiple_protocol_contro.History.Send.Poison.{not_finite-failed}
use multiple_protocol_contro.Values.{Floats, IntKind, Result, Value, err, error_response, integer}
use multiple_protocol_contro.Values.{ok}
use multiple_protocol_contro.Values.Samples.{two_floats}

abbrev plain_formats : (fl : Floats) → Formats fl
plain_formats fl = record { sprint = λ v. codes "?"; format_float = λ f. codes "1.5" }

abbrev pump_point : HistoryPoint two_floats
pump_point = record {
  device_id = codes " pump 1 ";
  serial_number = codes "";
  property_key = codes "t,a";
  property_id = codes "7";
  property_name = codes " ";
  protocol = codes "modbus-tcp";
  unit = codes "";
  data_type = codes "int16";
  value = integer IntKind.int16 (negsuc 11);
  timestamp = some (pos 5);
}

abbrev pump_text : Text
pump_text =
    codes
      "device_history,device_id=pump\\ 1,property_key=t\\,a,property_id=7,protocol=modbus-tcp,data_type=int16 value_number=-12 5"

awkward_in : Text → Bool
awkward_in [] = false
awkward_in (c ∷ s) = is_awkward c || awkward_in s

awkward_tags : List (Text × Text) → Bool
awkward_tags [] = false
awkward_tags (tag ∷ tags) = awkward_in tag.1 || awkward_tags tags

read_string-escape_string_example :
    read_string (escape_string (codes "a\"b\\c") ++ (quote ∷ codes " 5"))
    ≡ some (codes "a\"b\\c", codes " 5")
read_string-escape_string_example = read_string-escape_string (codes "a\"b\\c") (codes " 5")

abbrev pair_settings : WriterSettings
pair_settings = record { batch_size = 2; queue_size = 1; retry_count = 3 }

-- A point is taken, one is dropped, and the context ends with the point in the queue.
abbrev crowded : HistoryWriter ℕ
crowded = cancel (drop_point (put_point 4 new_history_writer))

crowded-Reached : Reached pair_settings (4 ∷ []) crowded
unfolding cancel drop_point put_point
crowded-Reached =
    called (called (called started (accept 4 (omega arith))) (full (omega arith) refl)) stop

Reached-LogReached_example : LogReached (4 ∷ []) (log_of crowded)
Reached-LogReached_example = Reached-LogReached pair_settings (4 ∷ []) crowded crowded-Reached

Reached-WithinBounds_example : WithinBounds pair_settings crowded
Reached-WithinBounds_example =
    Reached-WithinBounds pair_settings (4 ∷ []) crowded (omega arith) crowded-Reached

abbrev draining_one : HistoryWriter ℕ
draining_one = enter draining crowded

abbrev after_late : HistoryWriter ℕ
after_late = put_point 5 (collect 4 [] draining_one)

-- The drain takes the point, and another is put into the queue.
abbrev late_call : Course pair_settings crowded after_late
late_call =
    then_runs
      (begin_drain {w = crowded} (unfold cancel drop_point put_point in refl)
        (unfold cancel in refl))
      (then_runs
        (drain_point {w = draining_one} 4 [] (unfold enter in refl)
          (unfold enter cancel drop_point put_point in refl))
        (then_called (accept {w = collect 4 [] draining_one} 5 (unfold collect in omega arith))
          course_ends))

canceled_finishes_example :
    ((n : ℕ) × (n ≤ length crowded.queue + 2)
      × (v : HistoryWriter ℕ) × RunSteps pair_settings n crowded v
      × (v.phase ≡ stopped)
      × (concat v.written ≡ 4 ∷ []))
    × (run_steps late_call
        ≤ length crowded.queue + 2 + ticks late_call + length (accepted_in late_call))
canceled_finishes_example =
    canceled_finishes pair_settings (4 ∷ []) crowded after_late late_call crowded-Reached
      (unfold cancel in refl) (unfold cancel drop_point put_point in λ e. cc)

run_steps-bounded_example :
    run_steps late_call
    ≤ length crowded.queue
      + phase_steps crowded.phase
      + ticks late_call
      + length (accepted_in late_call)
run_steps-bounded_example = run_steps-bounded pair_settings crowded after_late late_call

-- The server answers 503, 503 and 204.
abbrev third_time : ℕ → Result (Unit {0})
third_time n = if ltb n 3 then err error_response else ok tt

third_time_sent : write_batch_with_retry 3 third_time (λ n. false) ≡ (3, sent)
unfolding write_batch_with_retry attempt_from after_attempt attempts_of
third_time_sent = refl

-- With one float that is not a number.
abbrev nan_floats : Floats
nan_floats = record two_floats { is_nan = λ x. x }

abbrev nan_point : HistoryPoint nan_floats
nan_point = record {
  device_id = codes "a";
  serial_number = [];
  property_key = codes "k";
  property_id = [];
  property_name = [];
  protocol = [];
  unit = [];
  data_type = [];
  value = Value.float32 true;
  timestamp = none;
}

abbrev good_point : HistoryPoint nan_floats
good_point = record nan_point { value = Value.bool true }

not_finite-failed_example :
    write_batch_with_retry 3
      (λ attempt.
        write_batch nan_floats
          (plain_formats nan_floats)
          (λ i. pos i)
          (λ body. ok 204)
          (good_point ∷ nan_point ∷ []))
      (λ attempt. false)
    ≡ (attempts_of 3, failed)
not_finite-failed_example =
    not_finite-failed nan_floats (plain_formats nan_floats) 3 (λ attempt i. pos i)
      (λ attempt body. ok 204) (good_point ∷ nan_point ∷ []) nan_point refl (inr (inl refl))
