-- ===== src/Breaker.antt =====
-- services/gateway/internal/breaker/breaker.go: the circuit breaker. A time is a count of
-- nanoseconds since Go's zero time, and a method that reads the clock takes the reading `now`.
-- The children prove what the methods do over whole histories.
pub mod Probe
pub mod Trips
mod Tests
use chain_forge.Common.{ℕ, ◌+◌, Bool, true, false, ◌||◌, ltb, leb, if◌then◌else◌, List, [], ◌∷◌}
use chain_forge.Common.{String}

pub data State : Type 0 where
  closed open_state half_open : State

unfoldable pub state_text : State → String
state_text closed = "closed"
state_text open_state = "open"
state_text half_open = "half-open"

pub record Breaker : Type 0 where
  pub threshold : ℕ
  pub cooldown : ℕ
  pub failures : ℕ
  pub state : State
  pub opened_at : ℕ
  pub probing : Bool

-- `New`; the clock is no field, since the methods are given its readings.
unfoldable pub new : ℕ → ℕ → Breaker
new threshold cooldown = record {
  threshold = threshold;
  cooldown = cooldown;
  failures = 0;
  state = closed;
  opened_at = 0;
  probing = false;
}

-- `now.Sub(openedAt) < cooldown`, with the subtraction moved to the other side.
abbrev pub cooling : Breaker → ℕ → Bool
cooling b now = ltb now (b.opened_at + b.cooldown)

allow_in : State → Breaker → ℕ → Breaker × Bool
allow_in closed b now = (b, true)
allow_in open_state b now =
    if cooling b now then (b, false) else (record b { state = half_open; probing = true }, true)
allow_in half_open b now = if b.probing then (b, false) else (record b { probing = true }, true)

unfoldable pub allow : Breaker → ℕ → Breaker × Bool
unfolding allow_in
allow b now = allow_in b.state b now

unfoldable pub success : Breaker → Breaker
success b = record b { failures = 0; state = closed; probing = false }

is_half_open : State → Bool
is_half_open half_open = true
is_half_open _ = false

unfoldable pub failure : Breaker → ℕ → Breaker
unfolding is_half_open
failure b now =
    let failures' = b.failures + 1 in
    if is_half_open b.state || leb b.threshold failures'
    then record b { failures = failures'; probing = false; state = open_state; opened_at = now }
    else record b { failures = failures'; probing = false }

-- What callers do with a breaker, each with its reading of the clock.
pub data Event : Type 0 where
  allows : ℕ → Event
  succeeds : Event
  fails : ℕ → Event

pub step : Breaker → Event → Breaker
step b (allows now) = (allow b now).0
step b succeeds = success b
step b (fails now) = failure b now

pub run : Breaker → List Event → Breaker
run b [] = b
run b (e ∷ es) = run (step b e) es
