-- ===== src/Breaker/Probe.antt =====
-- The half-open state of services/gateway/internal/breaker/breaker.go: probes over any history.
use chain_forge.Common.{ℕ, ◌+◌, ◌≤◌, ◌<◌, ◌≡◌, ◌↔◌, refl, true, false, arith, List, [], ◌∷◌}
use chain_forge.Common.{◌⊎◌, inl, ◌≢◌, All, if◌then◌else◌}
use chain_forge.Breaker.{
  Breaker, State, Event, closed, open_state, half_open, allows, succeeds, fails,
}
use chain_forge.Breaker.{new, allow, success, failure, step, run}

-- A probe is under way exactly in the half-open state, and a closed breaker has failed less often
-- than the threshold, or not at all.
pub record IsValid (b : Breaker) : Type 0 where
  pub probe : (b.probing ≡ true) ↔ (b.state ≡ half_open)
  pub below : b.state ≡ closed → (b.failures ≡ 0) ⊎ (b.failures < b.threshold)

pub new-IsValid : (threshold cooldown : ℕ) → IsValid (new threshold cooldown)
unfolding new
new-IsValid threshold cooldown = record { probe = ((λ e. cc), (λ e. cc)); below = λ e. inl refl }

pub allow-IsValid : (b : Breaker) (now : ℕ) → IsValid b → IsValid (allow b now).0
unfolding allow
allow-IsValid b now v = ground arith

pub success-IsValid : (b : Breaker) → IsValid (success b)
unfolding success
success-IsValid b = record { probe = ((λ e. cc), (λ e. cc)); below = λ e. inl refl }

pub failure-IsValid : (b : Breaker) (now : ℕ) → IsValid b → IsValid (failure b now)
unfolding failure
failure-IsValid b now v = ground arith

pub run-IsValid : (b : Breaker) (es : List Event) → IsValid b → IsValid (run b es)
unfolding run step
run-IsValid b [] v = v
run-IsValid b (allows now ∷ es) v = run-IsValid (allow b now).0 es (allow-IsValid b now v)
run-IsValid b (succeeds ∷ es) v = run-IsValid (success b) es (success-IsValid b)
run-IsValid b (fails now ∷ es) v = run-IsValid (failure b now) es (failure-IsValid b now v)

-- After any history of calls on a new breaker, a probe is marked as running exactly when the
-- breaker is half-open, and a closed breaker has counted no failure or fewer than the threshold.
pub run-new-IsValid :
    (threshold cooldown : ℕ) (es : List Event) → IsValid (run (new threshold cooldown) es)
run-new-IsValid threshold cooldown es = run-IsValid _ es (new-IsValid threshold cooldown)

-- How many of the calls of `Allow` at the given times are admitted.
unfoldable pub admits : Breaker → List ℕ → ℕ
admits b [] = 0
admits b (now ∷ ts) =
    let rest = admits (allow b now).0 ts in if (allow b now).1 then rest + 1 else rest

unfoldable pub after : Breaker → List ℕ → Breaker
after b [] = b
after b (now ∷ ts) = after (allow b now).0 ts

probing_refuses :
    (b : Breaker) (now : ℕ)
    → b.state ≡ half_open
    → b.probing ≡ true
    → ((allow b now).0 ≡ b) × ((allow b now).1 ≡ false)
unfolding allow
probing_refuses b now s p = ground arith

admits_none : (b : Breaker) (ts : List ℕ) → b.state ≡ half_open → b.probing ≡ true → admits b ts ≡ 0
unfolding admits
admits_none b [] s p = refl
admits_none b (now ∷ ts) s p =
    let (same, no_call) = probing_refuses b now s p in rw (same, no_call) (admits_none b ts s p)

open_allow :
    (b : Breaker) (now : ℕ)
    → b.state ≡ open_state
    → (((allow b now).0 ≡ b) × ((allow b now).1 ≡ false) × (now < b.opened_at + b.cooldown))
      ⊎ (((allow b now).0.state ≡ half_open)
          × ((allow b now).0.probing ≡ true)
          × ((allow b now).1 ≡ true)
          × (b.opened_at + b.cooldown ≤ now))
unfolding allow
open_allow b now s = ground arith

admits_open : (b : Breaker) (ts : List ℕ) → b.state ≡ open_state → admits b ts ≤ 1
unfolding admits
admits_open b [] s = omega arith
admits_open b (now ∷ ts) s =
    ground (arith, open_allow b now s, admits_open b ts, admits_none (allow b now).0 ts)

-- While no outcome is reported, a valid breaker that is not closed admits at most one call, however
-- often and at whatever times it is asked; a half-open one admits none.
pub one_probe :
    (b : Breaker) (ts : List ℕ)
    → IsValid b
    → b.state ≢ closed
    → (admits b ts ≤ 1) × (b.state ≡ half_open → admits b ts ≡ 0)
one_probe b ts v h = (at_most_one b.state refl, λ s. admits_none b ts s (v.probe.1 s))
  where
    at_most_one : (s : State) → b.state ≡ s → admits b ts ≤ 1
    at_most_one closed e = absurd (h e)
    at_most_one open_state e = admits_open b ts e
    at_most_one half_open e = omega (arith, admits_none b ts e (v.probe.1 e))

cooling_refuses :
    (b : Breaker) (ts : List ℕ)
    → b.state ≡ open_state
    → All (λ t. t < b.opened_at + b.cooldown) ts
    → (admits b ts ≡ 0) × (after b ts ≡ b)
unfolding admits after
cooling_refuses b [] s early = (refl, refl)
cooling_refuses b (now ∷ ts) s early =
    ground (arith, open_allow b now s, cooling_refuses b ts s early.1)

tripped :
    (b : Breaker) (now : ℕ)
    → (failure b now).state ≡ open_state
    → b.state ≢ open_state
    → ((failure b now).opened_at ≡ now) × ((failure b now).cooldown ≡ b.cooldown)
unfolding failure
tripped b now e h = ground arith

-- A failure at `now` that opens a breaker starts a full cooldown: every later call of `Allow`
-- before its end is refused and changes nothing, and the first one at or after its end is admitted
-- and leaves the breaker half-open with that call as its probe, and no call after it is admitted while
-- the probe has no outcome.
pub cooldown_window :
    (b : Breaker) (now later : ℕ) (ts us : List ℕ)
    → b.state ≢ open_state
    → (failure b now).state ≡ open_state
    → All (λ t. t < now + b.cooldown) ts
    → now + b.cooldown ≤ later
    → (admits (failure b now) ts ≡ 0)
      × ((allow (after (failure b now) ts) later).1 ≡ true)
      × ((allow (after (failure b now) ts) later).0.state ≡ half_open)
      × ((allow (after (failure b now) ts) later).0.probing ≡ true)
      × (admits (allow (after (failure b now) ts) later).0 us ≡ 0)
cooldown_window b now later ts us h e early late =
    let (at_now, same) = tripped b now e h in
    let early' : All (λ t. t < (failure b now).opened_at + (failure b now).cooldown) ts =
      rw (at_now, same) early in
    let (none_in, kept) = cooling_refuses (failure b now) ts e early' in
    let probe : ((allow (failure b now) later).1 ≡ true)
        × ((allow (failure b now) later).0.state ≡ half_open)
        × ((allow (failure b now) later).0.probing ≡ true) =
      ground (arith, open_allow (failure b now) later e) in
    (
      none_in,
      rw kept (probe.0),
      rw kept (probe.1),
      rw kept (probe.2),
      rw kept (admits_none (allow (failure b now) later).0 us probe.1 probe.2),
    )
