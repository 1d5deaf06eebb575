-- ===== src/Upstream/Slots.antt =====
-- The order in which `Call` of services/gateway/internal/upstream/upstream.go visits the endpoints.
use chain_forge.Common.{ℕ, ◌+◌, ◌-◌, ◌%◌, ◌^◌, ◌≤◌, ◌<◌, ◌≡◌, arith, ◌⊎◌}
use chain_forge.Common.{some, max, inl, inr, ◌∙◌}
use chain_forge.Upstream.{slot}
use native.Mathlib.Nat.{mod-lt, mod-eq_of_lt, mod-eq-sub-mod}
use native.Mathlib.Decide.{dec_lt}

-- Round i of a call that starts at the counter v, among n endpoints.
abbrev pub place : ℕ → ℕ → ℕ → ℕ
place v n i = (v % n + i) % n

pub slot-place : (v n i : ℕ) → v < 2 ^ 63 → 0 < n → slot v n i ≡ some (place v n i)
unfolding slot
slot-place v n i hv hn = let e : max n 1 ≡ n = omega arith in rw e (ground arith)

pub place-lt : (v n i : ℕ) → 0 < n → place v n i < n
place-lt v n i h = mod-lt (v % n + i) h

wraps_once :
    (s i n : ℕ)
    → s < n
    → i < n
    → (((s + i) % n ≡ s + i) × (s + i < n)) ⊎ (((s + i) % n ≡ s + i - n) × (n ≤ s + i))
wraps_once s i n hs hi = elim (dec_lt (s + i) n) [
  | yes p ↦ inl (mod-eq_of_lt p, p)
  | no p ↦
      let fits : s + i - n < n = omega arith in
      let over : n ≤ s + i = omega arith in inr (mod-eq-sub-mod over ∙ mod-eq_of_lt fits, over)
]

-- No endpoint comes twice in the n rounds of a call.
pub place_injective : (v n i j : ℕ) → i < n → j < n → place v n i ≡ place v n j → i ≡ j
place_injective v n i j hi hj e =
    let s : v % n < n = mod-lt v (omega arith) in
    ground (arith, wraps_once (v % n) i n, wraps_once (v % n) j n)

-- Each endpoint comes in one of them.
pub round_of : (v n j : ℕ) → j < n → (i : ℕ) × (i < n) × (place v n i ≡ j)
round_of v n j h = elim (dec_lt j (v % n)) [
  | yes p ↦ (
    j + n - v % n,
    omega (arith, start),
    ground (arith, start, wraps_once (v % n) (j + n - v % n) n),
  )
  | no p ↦ (j - v % n, omega arith, ground (arith, start, wraps_once (v % n) (j - v % n) n))
]
  where
    start : v % n < n
    start = mod-lt v (omega arith)
