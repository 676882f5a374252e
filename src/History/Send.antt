-- ===== src/History/Send.antt =====
-- One batch on its way: writeBatch and writeBatchWithRetry of internal/collector/history_writer.go.
pub mod Attempts
pub mod Poison
use multiple_protocol_contro.Common.{Bool, List, Text, [], codes, if◌then◌else◌, leb, ltb, suc}
use multiple_protocol_contro.Common.{zero, ℕ, ◌&&◌, ◌-◌, ◌^◌, ◌∷◌}
use multiple_protocol_contro.Common.Int.{ℤ}
use multiple_protocol_contro.History.Line.{Formats, HistoryPoint, build_history_line, join}
use multiple_protocol_contro.Values.{Floats, Result, err, error_response, ok, panic, require}
use multiple_protocol_contro.Values.{◌>>=◌, ◌>>◌}

-- How writeBatchWithRetry ends.
pub data SendOutcome : Type 0 where
  sent failed canceled : SendOutcome

module _ (fl : Floats) where
  -- The loop over the points of a batch; `clock` is time.Now at each of them.
  unfoldable pub history_lines :
      Formats fl → (ℕ → ℤ) → ℕ → List (HistoryPoint fl) → Result (List Text)
  history_lines fm clock i [] = ok []
  history_lines fm clock i (p ∷ points) = do
    line ← build_history_line fl fm (clock i) p
    lines ← history_lines fm clock (suc i) points
    ok (line ∷ lines)

  -- `post` is the endpoint's url.Parse, http.NewRequestWithContext and client.Do: an error of one of
  -- them, or the status code.
  unfoldable pub write_batch :
      Formats fl → (ℕ → ℤ) → (Text → Result ℕ) → List (HistoryPoint fl) → Result (Unit {0})
  write_batch fm clock post [] = ok tt
  write_batch fm clock post (p ∷ points) = do
    lines ← history_lines fm clock 0 (p ∷ points)
    status ← post (join (codes "\n") lines)
    require (leb 204 status && ltb status 300) error_response

-- `retryCount + 1` of an int, and 1 where that is not positive.
unfoldable pub attempts_of : ℕ → ℕ
attempts_of retry_count = if ltb retry_count (2 ^ 63 - 1) then suc retry_count else 1

-- What follows an attempt: `left` more are allowed, and `later` is the outcome of the next. A writeBatch has no panic of its own.
unfoldable pub after_attempt : ℕ → ℕ → Bool → Result (Unit {0}) → ℕ × SendOutcome → ℕ × SendOutcome
after_attempt attempt left is_canceled (ok passed) later = (attempt, sent)
after_attempt attempt zero is_canceled (err e) later = (attempt, failed)
after_attempt attempt (suc left) is_canceled (err e) later =
    if is_canceled then (attempt, canceled) else later
after_attempt attempt zero is_canceled panic later = (attempt, failed)
after_attempt attempt (suc left) is_canceled panic later =
    if is_canceled then (attempt, canceled) else later

-- The loop from `attempt` on, with the number of the last attempt. `write` is the writeBatch of each
-- attempt, and `is_canceled` whether the context ends during the wait after it.
unfoldable pub attempt_from : (ℕ → Result (Unit {0})) → (ℕ → Bool) → ℕ → ℕ → ℕ × SendOutcome
attempt_from write is_canceled attempt zero =
    after_attempt attempt zero (is_canceled attempt) (write attempt) (attempt, failed)
attempt_from write is_canceled attempt (suc left) =
    let later = attempt_from write is_canceled (suc attempt) left in
    after_attempt attempt (suc left) (is_canceled attempt) (write attempt) later

unfoldable pub write_batch_with_retry : ℕ → (ℕ → Result (Unit {0})) → (ℕ → Bool) → ℕ × SendOutcome
write_batch_with_retry retry_count write is_canceled =
    attempt_from write is_canceled 1 (attempts_of retry_count - 1)
