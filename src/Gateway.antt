-- ===== src/Gateway.antt =====
-- Pausing the collectors of a gateway: internal/collector/gateway_pause.go. The methods hold the mutex,
-- so that a history is a sequence of calls. A channel is a number, and those that have been closed are
-- listed; a gateway has a state from the start, which is the one that its first call would make.
pub mod History
mod Tests
use multiple_protocol_contro.Common.{Bool, List, Option, Text, [], false, if◌then◌else◌, none}
use multiple_protocol_contro.Common.{not, some, suc, text_eq, true, ℕ, ◌&&◌, ◌+◌, ◌-◌, ◌==◌, ◌||◌}
use multiple_protocol_contro.Common.{◌∷◌}
use multiple_protocol_contro.Values.{Result, ok, panic, ◌>>=◌}

pub record PauseState : Type 0 where
  pub paused : Bool
  pub ref_count : ℕ
  pub resume_ch : Option ℕ
  -- The channels made so far are those below this number.
  pub made : ℕ
  pub closed : List ℕ

abbrev pub new_state : PauseState
new_state = record { paused = false; ref_count = 0; resume_ch = none; made = 0; closed = [] }

abbrev pub member : ℕ → List ℕ → Bool
member c [] = false
member c (d ∷ ds) = c == d || member c ds

-- `close(ch)`, which panics for a channel that is closed, behind `if ch != nil`.
unfoldable pub close_channel : Option ℕ → PauseState → Result PauseState
close_channel none s = ok s
close_channel (some c) s =
    if member c s.closed then panic else ok (record s { closed = c ∷ s.closed })

unfoldable pub pause : PauseState → PauseState
pause s =
    if s.ref_count + 1 == 1
    then record s {
      ref_count = s.ref_count + 1;
      paused = true;
      resume_ch = some s.made;
      made = suc s.made;
    }
    else record s { ref_count = s.ref_count + 1 }

unfoldable pub resume : PauseState → Result PauseState
resume s =
    if s.ref_count == 0
    then ok s
    else if s.ref_count - 1 == 0 && s.paused
    then close_channel s.resume_ch
        (record s { ref_count = s.ref_count - 1; paused = false; resume_ch = none })
    else ok (record s { ref_count = s.ref_count - 1 })

-- A pass of waitGatewayResume: none when it returns, or the channel that it then waits for.
unfoldable pub wait_on : PauseState → Option (Option ℕ)
wait_on s = if not s.paused then none else some s.resume_ch

-- The states by serial number; the empty serial has none.
abbrev pub PauseManager : Type 0
PauseManager = Text → PauseState

abbrev pub new_manager : PauseManager
new_manager serial = new_state

unfoldable pub set_state : Text → PauseState → PauseManager → PauseManager
set_state serial s m serial' = if text_eq serial serial' then s else m serial'

abbrev pub is_empty : Text → Bool
is_empty [] = true
is_empty (c ∷ s) = false

unfoldable pub pause_gateway : Text → PauseManager → PauseManager
pause_gateway serial m = if is_empty serial then m else set_state serial (pause (m serial)) m

unfoldable pub resume_gateway : Text → PauseManager → Result PauseManager
resume_gateway serial m =
    if is_empty serial then ok m else resume (m serial) >>= λ s. ok (set_state serial s m)

unfoldable pub is_gateway_paused : Text → PauseManager → Bool
is_gateway_paused serial m = if is_empty serial then false else (m serial).paused
