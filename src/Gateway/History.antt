-- ===== src/Gateway/History.antt =====
-- Histories of pauses and resumptions of gateways.
use multiple_protocol_contro.Common.{All, Bool-cases, List, Text, [], arith, false, if◌then◌else◌}
use multiple_protocol_contro.Common.{inl, inr, none, refl, some, suc, sym, text_eq, text_eq→eq}
use multiple_protocol_contro.Common.{true, zero, ℕ, ◌+◌, ◌-◌, ◌==◌, ◌∷◌, ◌≡◌, ◌≤◌}
use multiple_protocol_contro.Gateway.{PauseManager, PauseState, close_channel, is_empty, member}
use multiple_protocol_contro.Gateway.{new_manager, pause, pause_gateway, resume, resume_gateway}
use multiple_protocol_contro.Gateway.{set_state}
use multiple_protocol_contro.Values.{Result, ok, ◌>>=◌}
use native.Mathlib.Nat.{le_refl}
use mathlib.Core.Path.{subst}

pub data Call : Type 0 where
  paused : Text → Call
  resumed : Text → Call

unfoldable pub step : Call → PauseManager → Result PauseManager
step (paused serial) m = ok (pause_gateway serial m)
step (resumed serial) m = resume_gateway serial m

unfoldable pub run : List Call → PauseManager → Result PauseManager
run [] m = ok m
run (c ∷ cs) m = step c m >>= λ m'. run cs m'

abbrev pub one_less : ℕ → ℕ
one_less zero = zero
one_less (suc n) = n

-- The pauses of a serial that are not resumed; a resumption too many counts for nothing.
abbrev pub pauses_left : Text → ℕ → List Call → ℕ
pauses_left serial n [] = n
pauses_left serial n (paused serial' ∷ cs) =
    pauses_left serial (if text_eq serial' serial then suc n else n) cs
pauses_left serial n (resumed serial' ∷ cs) =
    pauses_left serial (if text_eq serial' serial then one_less n else n) cs

-- The channels below n, the last one first.
abbrev pub below : ℕ → List ℕ
below zero = []
below (suc n) = n ∷ below n

abbrev held_state : ℕ → ℕ → PauseState
held_state n k = record {
  paused = true;
  ref_count = n;
  resume_ch = some k;
  made = suc k;
  closed = below k;
}

-- Of a state with n pauses left: it is paused when there are some, and then waits for the last channel
-- made; every other channel is closed, once.
pub data Counts : ℕ → PauseState → Type 0 where
  idle :
      (k : ℕ)
      → Counts 0
          (record { paused = false; ref_count = 0; resume_ch = none; made = k; closed = below k })
  held :
      (n k : ℕ)
      → Counts (suc n) (record {
        paused = true;
        ref_count = suc n;
        resume_ch = some k;
        made = suc k;
        closed = below k;
      })

not_member-below : (k c : ℕ) → k ≤ c → member c (below k) ≡ false
not_member-below zero c h = refl
not_member-below (suc k) c h =
    let other : (c == k) ≡ false = ground arith in
    rw (other, not_member-below k c (omega arith)) refl

pause-Counts : (n : ℕ) (s : PauseState) → Counts n s → Counts (suc n) (pause s)
unfolding pause
pause-Counts _ _ (idle k) = held 0 k
pause-Counts _ _ (held n k) =
    let further : (suc n + 1 == 1) ≡ false = ground arith in
    let count : suc n + 1 ≡ suc (suc n) = omega arith in rw (further, count) (held (suc n) k)

resume-Counts :
    (n : ℕ) (s : PauseState)
    → Counts n s
    → (s' : PauseState) × (resume s ≡ ok s') × Counts (one_less n) s'
unfolding resume close_channel
resume-Counts _ _ (idle k) = (_, refl, idle k)
resume-Counts _ _ (held zero k) = (_, rw (not_member-below k k (le_refl k)) refl, idle (suc k))
resume-Counts _ _ (held (suc n) k) =
    let more : (suc (suc n) == 0) ≡ false = ground arith in
    let further : (suc (suc n) - 1 == 0) ≡ false = ground arith in
    let count : suc (suc n) - 1 ≡ suc n = omega arith in
    (held_state (suc n) k, rw (more, further, count) refl, held n k)

-- Of a manager after a history: the state of each gateway counts its own pauses.
abbrev pub Agrees : (Text → ℕ) → PauseManager → Type 0
Agrees left m = (serial : Text) → Counts (left serial) (m serial)

new-Agrees : Agrees (λ serial. 0) new_manager
new-Agrees serial = idle 0

abbrev after : Call → (Text → ℕ) → Text → ℕ
after (paused serial') left serial =
    if text_eq serial' serial then suc (left serial) else left serial
after (resumed serial') left serial =
    if text_eq serial' serial then one_less (left serial) else left serial

set_state-Agrees :
    (serial : Text) (f : ℕ → ℕ) (left : Text → ℕ) (s : PauseState) (m : PauseManager)
    → Agrees left m
    → Counts (f (left serial)) s
    → (serial' : Text)
    → Counts
        (if text_eq serial serial' then f (left serial') else left serial')
        (set_state serial s m serial')
unfolding set_state
set_state-Agrees serial f left s m h c serial' = elim (Bool-cases (text_eq serial serial')) [
  | inl e ↦ rw e (subst (λ t. Counts (f (left t)) s) (text_eq→eq serial serial' e) c)
  | inr e ↦ rw e (h serial')
]

-- A call with a serial that is not empty.
abbrev pub Named : Call → Type 0
Named (paused serial) = is_empty serial ≡ false
Named (resumed serial) = is_empty serial ≡ false

step-Agrees :
    (c : Call) (left : Text → ℕ) (m : PauseManager)
    → Named c
    → Agrees left m
    → (m' : PauseManager) × (step c m ≡ ok m') × Agrees (after c left) m'
unfolding step pause_gateway resume_gateway
step-Agrees (paused serial) left m named h = (
  set_state serial (pause (m serial)) m,
  rw named refl,
  set_state-Agrees serial suc left (pause (m serial)) m h (pause-Counts _ _ (h serial)),
)
step-Agrees (resumed serial) left m named h =
    let (s, e, c) = resume-Counts (left serial) (m serial) (h serial) in
    (set_state serial s m, rw (named, e) refl, set_state-Agrees serial one_less left s m h c)

left-after :
    (c : Call) (cs : List Call) (left : Text → ℕ) (serial : Text)
    → pauses_left serial (left serial) (c ∷ cs) ≡ pauses_left serial (after c left serial) cs
left-after (paused t) cs left serial = refl
left-after (resumed t) cs left serial = refl

run_from :
    (cs : List Call) (left : Text → ℕ) (m : PauseManager)
    → All Named cs
    → Agrees left m
    → (m' : PauseManager) × (run cs m ≡ ok m')
      × Agrees (λ serial. pauses_left serial (left serial) cs) m'
unfolding run
run_from [] left m named h = (m, refl, h)
run_from (c ∷ cs) left m (n, named) h =
    let (m1, e1, h1) = step-Agrees c left m n h in
    let (m2, e2, h2) = run_from cs (after c left) m1 named h1 in
    (
      m2,
      rw (e1, e2) refl,
      λ serial. subst (λ k. Counts k (m2 serial)) (sym (left-after c cs left serial)) (h2 serial),
    )

-- No history of pauses and resumptions panics by closing a channel twice, and after it each gateway is
-- paused exactly while some of its pauses are not resumed, waits then for the last channel made, and has
-- closed every other one, once. The serials are not empty.
pub run-Counts :
    (cs : List Call)
    → All Named cs
    → (m : PauseManager) × (run cs new_manager ≡ ok m)
      × ((serial : Text) → Counts (pauses_left serial 0 cs) (m serial))
run-Counts cs named = run_from cs (λ serial. 0) new_manager named new-Agrees
