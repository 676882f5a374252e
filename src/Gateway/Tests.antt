-- ===== src/Gateway/Tests.antt =====
-- A history of a gateway, and the theorem at it.
use multiple_protocol_contro.Common.{List, Text, [], codes, refl, text_eq, ◌∷◌, ◌≡◌}
use multiple_protocol_contro.Gateway.{PauseManager, new_manager}
use multiple_protocol_contro.Gateway.History.{Call, Counts, pauses_left, resumed, run, run-Counts}
use multiple_protocol_contro.Values.{ok}

abbrev serial : Text
serial = codes "GW-1"

abbrev history : List Call
history = Call.paused serial ∷ Call.paused serial ∷ resumed serial ∷ []

one_left : pauses_left serial 0 history ≡ 1
unfolding text_eq
one_left = refl

run-Counts_example :
    (m : PauseManager) × (run history new_manager ≡ ok m)
    × ((t : Text) → Counts (pauses_left t 0 history) (m t))
run-Counts_example = run-Counts history (refl, (refl, (refl, tt)))
