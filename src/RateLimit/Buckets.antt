-- ===== src/RateLimit/Buckets.antt =====
-- The answers of the limiter in services/gateway/internal/ratelimit/ratelimit.go to a history of calls,
-- and buckets of natural numbers to compare them with.
use chain_forge.Common.{
  ℕ, ◌+◌, ◌-◌, ◌*◌, ◌≤◌, min, leb, arith, Bool, true, false, if◌then◌else◌, str_eq,
}
use chain_forge.Common.{List, [], ◌∷◌, Option, none, some, String}
use chain_forge.RateLimit.{Floats, Limiter, allow}

-- Whether a key is admitted.
unfoldable pub admits : Option ℕ → Bool
admits none = true
admits (some wait) = false

-- The answers that one key gets to its calls among those of all keys, at the seconds of the clock.
unfoldable pub answers :
    {F T : Type 0} → Floats F T → (ℕ → T) → Limiter F T → String → List (ℕ × String) → List Bool
answers fl at_second l key [] = []
answers fl at_second l key ((t, k) ∷ calls) =
    let (answer, l') = allow fl l (at_second t) k in
    let more = answers fl at_second l' key calls in
    if str_eq k key then admits answer ∷ more else more

-- The limiter after some calls.
unfoldable pub after :
    {F T : Type 0} → Floats F T → (ℕ → T) → Limiter F T → List (ℕ × String) → Limiter F T
after fl at_second l [] = l
after fl at_second l ((t, k) ∷ calls) = after fl at_second (allow fl l (at_second t) k).1 calls

-- How many of some answers admit.
unfoldable pub granted : List Bool → ℕ
granted [] = 0
granted (b ∷ bs) = if b then granted bs + 1 else granted bs

-- The seconds of a key's calls.
unfoldable pub times : String → List (ℕ × String) → List ℕ
times key [] = []
times key ((t, k) ∷ calls) = if str_eq k key then t ∷ times key calls else times key calls

-- The calls stand in order between two seconds.
unfoldable pub IsOrdered : ℕ → ℕ → List (ℕ × String) → Type 0
IsOrdered from until [] = from ≤ until
IsOrdered from until ((t, k) ∷ calls) = from ≤ t × IsOrdered t until calls

module _ (rate burst : ℕ) where
  -- The tokens of a bucket at a second: those it was left with, at the second of its last call, and what
  -- has come since. It is full before the first call.
  unfoldable pub available : Option (ℕ × ℕ) → ℕ → ℕ
  available none t = burst
  available (some (n, s)) t = min burst (n + (t - s) * rate)

  pub available-le : (held : Option (ℕ × ℕ)) (t : ℕ) → available held t ≤ burst
  unfolding available
  available-le none t = omega arith
  available-le (some (n, s)) t = omega arith

  -- The answers of a bucket to calls at some seconds.
  unfoldable pub bucket_answers : Option (ℕ × ℕ) → List ℕ → List Bool
  bucket_answers held [] = []
  bucket_answers held (t ∷ ts) =
      let n = available held t in leb 1 n ∷ bucket_answers (some (n - 1, t)) ts
