-- ===== src/Breaker/Tests.antt =====
-- Runs of the breaker, and its theorems at concrete inputs.
use chain_forge.Common.{◌≤◌, ◌<◌, ◌≡◌, ◌⊎◌, ◌↔◌, refl, true, false, arith, List, [], ◌∷◌}
use chain_forge.Breaker.{Breaker, Event, closed, open_state, half_open, allows, succeeds, fails}
use chain_forge.Breaker.{new, allow, success, failure, step, run}
use chain_forge.Breaker.Probe.{IsValid, run-new-IsValid, admits, after, cooldown_window}
use chain_forge.Breaker.Trips.{failures_in_row, opens_iff_failures_in_row}

program : Unit {0}
unfolding new allow success failure step run admits after failures_in_row
program = tt

abbrev history : List Event
history = allows 1 ∷ fails 2 ∷ allows 3 ∷ fails 4 ∷ []

-- Two failures open a breaker of threshold 2.
abbrev tripped : Breaker
tripped = record {
  threshold = 2;
  cooldown = 10;
  failures = 2;
  state = open_state;
  opened_at = 4;
  probing = false;
}

history_trips : run (new 2 10) history ≡ tripped
unfolding program
history_trips = refl

tripped-IsValid : IsValid tripped
unfolding program
tripped-IsValid = run-new-IsValid 2 10 history

abbrev failing : Breaker
failing = record {
  threshold = 2;
  cooldown = 10;
  failures = 1;
  state = closed;
  opened_at = 0;
  probing = false;
}

cooldown_window_example :
    (admits (failure failing 4) (5 ∷ 13 ∷ []) ≡ 0)
    × ((allow (after (failure failing 4) (5 ∷ 13 ∷ [])) 14).1 ≡ true)
    × ((allow (after (failure failing 4) (5 ∷ 13 ∷ [])) 14).0.state ≡ half_open)
    × ((allow (after (failure failing 4) (5 ∷ 13 ∷ [])) 14).0.probing ≡ true)
    × (admits (allow (after (failure failing 4) (5 ∷ 13 ∷ [])) 14).0 (15 ∷ 99 ∷ []) ≡ 0)
unfolding program
cooldown_window_example =
    cooldown_window failing 4 14 (5 ∷ 13 ∷ []) (15 ∷ 99 ∷ []) (λ e. cc) refl (omega arith)
      (omega arith)

opens_iff_failures_in_row_example :
    (((run (new 2 10) (fails 1 ∷ succeeds ∷ fails 2 ∷ fails 3 ∷ [])).state ≡ open_state)
      ↔ ((0 < 2) × (2 ≤ 2)))
    × (((run (new 2 10) (fails 1 ∷ succeeds ∷ fails 2 ∷ fails 3 ∷ [])).state ≡ open_state)
        ⊎ ((run (new 2 10) (fails 1 ∷ succeeds ∷ fails 2 ∷ fails 3 ∷ [])).state ≡ closed))
unfolding program
opens_iff_failures_in_row_example =
    opens_iff_failures_in_row 2 10 (fails 1 ∷ succeeds ∷ fails 2 ∷ fails 3 ∷ [])
      (tt, (tt, (tt, (tt, tt))))
