-- ===== src/RateLimit.antt =====
-- services/gateway/internal/ratelimit/ratelimit.go: a bucket of tokens for every key. The numbers of type
-- float64 and the readings of the clock are types of their own, with the operations that the code
-- applies to them in the record `Floats`. A duration holds the 64 bits of the Go value.
pub mod Buckets
pub mod Lookup
pub mod Exact
pub mod Admitted
mod Tests
use chain_forge.Common.{ℕ, Bool, str_eq, if◌then◌else◌, List, [], ◌∷◌, Option, none, some, String}

-- `since t last` is the float `t.Sub(last).Seconds()`, `is_token` the test `>= 1`, `to_duration` the
-- conversion to a time.Duration.
pub record Floats (F T : Type 0) : Type 0 where
  pub of_int : ℕ → F
  pub add : F → F → F
  pub sub : F → F → F
  pub mul : F → F → F
  pub quot : F → F → F
  pub min : F → F → F
  pub is_token : F → Bool
  pub since : T → T → F
  pub to_duration : F → ℕ

pub record Bucket (F T : Type 0) : Type 0 where
  pub tokens : F
  pub last : T

pub record Limiter (F T : Type 0) : Type 0 where
  pub rate : F
  pub burst : F
  pub buckets : List (String × Bucket F T)

module _ {F T : Type 0} where
  unfoldable pub find : List (String × Bucket F T) → String → Option (Bucket F T)
  find [] key = none
  find (e ∷ more) key = if str_eq e.0 key then some e.1 else find more key

  -- An assignment to a key's bucket.
  unfoldable pub place :
      List (String × Bucket F T) → String → Bucket F T → List (String × Bucket F T)
  place [] key b = (key, b) ∷ []
  place (e ∷ more) key b = if str_eq e.0 key then (key, b) ∷ more else e ∷ place more key b

module _ {F T : Type 0} (fl : Floats F T) where
  -- `New`, for a burst that is not negative.
  unfoldable pub new : F → ℕ → Limiter F T
  new rate burst = record { rate = rate; burst = fl.of_int burst; buckets = [] }

  -- The key's bucket, a full one if it has none.
  unfoldable pub bucket_of : Limiter F T → T → String → Bucket F T
  bucket_of l t key = elim (find l.buckets key) [
    | none ↦ record { tokens = l.burst; last = t }
    | some b ↦ b
  ]

  unfoldable pub refilled : Limiter F T → T → Bucket F T → F
  refilled l t b = fl.min l.burst (fl.add b.tokens (fl.mul (fl.since t b.last) l.rate))

  -- The time to wait for the next token.
  unfoldable pub wait : Limiter F T → F → ℕ
  wait l tokens =
      fl.to_duration (fl.mul (fl.quot (fl.sub (fl.of_int 1) tokens) l.rate) (fl.of_int 1000000000))

  -- `Allow` at a reading of the clock: none if the key is admitted, or else the wait.
  unfoldable pub allow : Limiter F T → T → String → Option ℕ × Limiter F T
  allow l t key =
      let tokens = refilled l t (bucket_of l t key) in
      let left = if fl.is_token tokens then fl.sub tokens (fl.of_int 1) else tokens in
      let b : Bucket F T = record { tokens = left; last = t } in
      (
        if fl.is_token tokens then none else some (wait l tokens),
        record l { buckets = place l.buckets key b },
      )
