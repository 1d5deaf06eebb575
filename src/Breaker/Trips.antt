-- ===== src/Breaker/Trips.antt =====
-- When the breaker of services/gateway/internal/breaker/breaker.go opens: the count of failures in
-- a row.
use chain_forge.Common.{ℕ, ◌+◌, ◌≤◌, ◌<◌, ◌≡◌, ◌↔◌, refl, arith, List, [], ◌∷◌}
use chain_forge.Common.{◌⊎◌, All, ltb, leb, ◌&&◌, if◌then◌else◌}
use chain_forge.Breaker.{Breaker, State, Event, closed, open_state, allows, succeeds, fails}
use chain_forge.Breaker.{new, success, failure, step, run}

-- An outcome that is reported to the breaker.
abbrev pub IsOutcome : Event → Type 0
IsOutcome (allows _) = ⊥
IsOutcome succeeds = Unit {0}
IsOutcome (fails _) = Unit {0}

-- The number of failures since the last success.
unfoldable pub failures_in_row : ℕ → List Event → ℕ
failures_in_row n [] = n
failures_in_row n (allows _ ∷ es) = failures_in_row n es
failures_in_row n (succeeds ∷ es) = failures_in_row 0 es
failures_in_row n (fails _ ∷ es) = failures_in_row (n + 1) es

-- The state that a run of `n` failures leads to.
abbrev expected : ℕ → ℕ → State
expected threshold n = if ltb 0 n && leb threshold n then open_state else closed

record Tracks (b : Breaker) (threshold n : ℕ) : Type 0 where
  limit : b.threshold ≡ threshold
  count : b.failures ≡ n
  state : b.state ≡ expected threshold n

success-Tracks : (b : Breaker) (t n : ℕ) → Tracks b t n → Tracks (success b) t 0
unfolding success
success-Tracks b t n v = ground arith

failure-Tracks : (b : Breaker) (now t n : ℕ) → Tracks b t n → Tracks (failure b now) t (n + 1)
unfolding failure
failure-Tracks b now t n v = ground arith

run-Tracks :
    (b : Breaker) (es : List Event) (t n : ℕ)
    → All IsOutcome es
    → Tracks b t n
    → Tracks (run b es) t (failures_in_row n es)
unfolding run step failures_in_row
run-Tracks b [] t n o v = v
run-Tracks b (allows now ∷ es) t n o v = absurd o.0
run-Tracks b (succeeds ∷ es) t n o v = run-Tracks (success b) es t 0 o.1 (success-Tracks b t n v)
run-Tracks b (fails now ∷ es) t n o v =
    run-Tracks (failure b now) es t (n + 1) o.1 (failure-Tracks b now t n v)

-- For any sequence of reported outcomes on a new breaker, the breaker is open exactly when the
-- sequence ends in at least one failure and at least `threshold` of them in a row; otherwise it is
-- closed.
pub opens_iff_failures_in_row :
    (threshold cooldown : ℕ) (es : List Event)
    → All IsOutcome es
    → let n = failures_in_row 0 es in
      let s = (run (new threshold cooldown) es).state in
      ((s ≡ open_state) ↔ ((0 < n) × (threshold ≤ n))) × ((s ≡ open_state) ⊎ (s ≡ closed))
unfolding new
opens_iff_failures_in_row threshold cooldown es o =
    let n = failures_in_row 0 es in
    let v =
      run-Tracks (new threshold cooldown) es threshold 0 o
        (record { limit = refl; count = refl; state = refl }) in
    ground (arith, v.state)
