-- ===== src/History/Send/Poison.antt =====
-- One point that cannot be written keeps its whole batch from being written.
use multiple_protocol_contro.Common.{Bool, In, List, Text, [], false, inl, inr, not, refl, suc}
use multiple_protocol_contro.Common.{sym, trim_space, true, ℕ, ◌||◌, ◌∷◌, ◌≡◌}
use multiple_protocol_contro.Common.Int.{ℤ}
use multiple_protocol_contro.History.Line.{Formats, HistoryPoint, build_history_field}
use multiple_protocol_contro.History.Line.{build_history_line, format_history_float, is_blank}
use multiple_protocol_contro.History.Send.{attempts_of, failed, history_lines, write_batch}
use multiple_protocol_contro.History.Send.{write_batch_with_retry}
use multiple_protocol_contro.History.Send.Attempts.{is_ok, never_sent}
use multiple_protocol_contro.Values.{Error, Floats, Result, Value, ValueOf, empty_payload, err}
use multiple_protocol_contro.Values.{ok, panic, require, ◌>>=◌, ◌>>◌}

is_ok->>= :
    {A B : Type 0} (first : Result A) (next : A → Result B)
    → is_ok first ≡ false
    → is_ok (first >>= next) ≡ false
is_ok->>= (ok a) next e = cc
is_ok->>= (err why) next e = refl
is_ok->>= panic next e = refl

later_fails :
    {A : Type 0} (first : Result A) (rest : Result (List A))
    → is_ok rest ≡ false
    → is_ok (first >>= λ a. rest >>= λ later. ok (a ∷ later)) ≡ false
later_fails (ok a) rest e = is_ok->>= rest _ e
later_fails (err why) rest e = refl
later_fails panic rest e = refl

guarded :
    {A : Type 0} (test : Bool) (why : Error) (rest : Result A)
    → is_ok rest ≡ false
    → is_ok (require test why >> rest) ≡ false
guarded true why rest e = e
guarded false why rest e = refl

module _ (fl : Floats) (fm : Formats fl) where
  -- A point of which no line is made, whatever the clock.
  abbrev pub Unprintable : HistoryPoint fl → Type 0
  Unprintable p = (now : ℤ) → is_ok (build_history_line fl fm now p) ≡ false

  history_lines-Unprintable :
      (clock : ℕ → ℤ) (i : ℕ) (points : List (HistoryPoint fl)) (p : HistoryPoint fl)
      → Unprintable p
      → In p points
      → is_ok (history_lines fl fm clock i points) ≡ false
  unfolding history_lines
  history_lines-Unprintable clock i [] p bad m = absurd m
  history_lines-Unprintable clock i (q ∷ points) p bad (inl e) =
      is_ok->>= (build_history_line fl fm (clock i) q) _ (rw (sym e) (bad (clock i)))
  history_lines-Unprintable clock i (q ∷ points) p bad (inr m) =
      later_fails (build_history_line fl fm (clock i) q) _
        (history_lines-Unprintable clock (suc i) points p bad m)

  write_batch-Unprintable :
      (clock : ℕ → ℤ) (post : Text → Result ℕ) (points : List (HistoryPoint fl))
      (p : HistoryPoint fl)
      → Unprintable p
      → In p points
      → is_ok (write_batch fl fm clock post points) ≡ false
  unfolding write_batch
  write_batch-Unprintable clock post [] p bad m = absurd m
  write_batch-Unprintable clock post (q ∷ points) p bad m =
      is_ok->>= (history_lines fl fm clock 0 (q ∷ points)) _
        (history_lines-Unprintable clock 0 (q ∷ points) p bad m)

  -- A value that InfluxDB does not take: a float64 that is not a number or infinite, or a float32 that
  -- widens to one.
  abbrev pub IsNotFinite : ValueOf fl → Type 0
  IsNotFinite (Value.float64 f) = fl.is_nan f || fl.is_inf f ≡ true
  IsNotFinite (Value.float32 f) = fl.is_nan (fl.widen f) || fl.is_inf (fl.widen f) ≡ true
  IsNotFinite v = ⊥

  build_history_field-IsNotFinite :
      (v : ValueOf fl) → IsNotFinite v → is_ok (build_history_field fl fm v) ≡ false
  unfolding build_history_field format_history_float
  build_history_field-IsNotFinite (Value.float64 f) bad = rw bad refl
  build_history_field-IsNotFinite (Value.float32 f) bad = rw bad refl
  build_history_field-IsNotFinite v bad = absurd bad

  IsNotFinite-Unprintable : (p : HistoryPoint fl) → IsNotFinite p.value → Unprintable p
  unfolding build_history_line
  IsNotFinite-Unprintable p bad now =
      guarded (not (is_blank (trim_space p.device_id) || is_blank (trim_space p.property_key)))
        empty_payload _
        (is_ok->>= (build_history_field fl fm p.value) _
          (build_history_field-IsNotFinite p.value bad))

  -- A batch with a point whose value is a float of 32 or 64 bits that is not finite fails at each attempt,
  -- whatever the server answers, while the context is not done: none of its points is written, and all of
  -- them are given up.
  pub not_finite-failed :
      (retry_count : ℕ) (clock : ℕ → ℕ → ℤ) (post : ℕ → Text → Result ℕ)
      (points : List (HistoryPoint fl)) (p : HistoryPoint fl)
      → IsNotFinite p.value
      → In p points
      → write_batch_with_retry retry_count
          (λ attempt. write_batch fl fm (clock attempt) (post attempt) points)
          (λ attempt. false)
        ≡ (attempts_of retry_count, failed)
  not_finite-failed retry_count clock post points p bad m =
      never_sent (λ attempt. write_batch fl fm (clock attempt) (post attempt) points)
        (λ attempt. false) retry_count
        (λ attempt.
          write_batch-Unprintable (clock attempt) (post attempt) points p
            (IsNotFinite-Unprintable p bad) m)
        (λ attempt. refl)
