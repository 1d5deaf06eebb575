-- ===== src/RateLimit/Admitted.antt =====
-- How many calls of a key the limiter of services/gateway/internal/ratelimit/ratelimit.go admits in any
-- span of time.
use chain_forge.Common.{ℕ, ◌+◌, ◌-◌, ◌*◌, ◌^◌, ◌≤◌, ◌<◌, min, ◌≡◌, refl, sym, ap, ◌∙◌, arith}
use chain_forge.Common.{Bool-cases, inl, inr, str_eq, List, [], ◌∷◌, Option, none, some, String}
use native.Mathlib.Nat.{mul-le-mul_right, add-mul}
use chain_forge.RateLimit.{Floats, new, find}
use chain_forge.RateLimit.Buckets.{
  answers, after, times, granted, IsOrdered, available, available-le, bucket_answers,
}
use chain_forge.RateLimit.Exact.{
  IsExact, IsOrdered-le, Holds, IsFit, kept, Holds-after, answers-held,
}

module _ (rate burst until : ℕ) where
  -- A bucket gives no more than it has and what comes until the end.
  granted-tokens :
      (calls : List (ℕ × String)) (key : String) (n s from : ℕ)
      → s ≤ from
      → IsOrdered from until calls
      → granted (bucket_answers rate burst (some (n, s)) (times key calls)) ≤ n + (until - s) * rate
  unfolding bucket_answers times IsOrdered granted available
  granted-tokens [] key n s from past order = omega arith
  granted-tokens ((t, k) ∷ calls) key n s from past (due, more) = elim (Bool-cases (str_eq k key)) [
    | inr differ ↦ rw (differ, times) (granted-tokens calls key n s t (omega arith) more)
    | inl same ↦
        let parts : (until - t) * rate + (t - s) * rate ≡ (until - s) * rate =
          sym (add-mul (until - t) (t - s) rate)
          ∙ ap (λ x. x * rate) (omega (arith, IsOrdered-le t until calls more)) in
        let n' = min burst (n + (t - s) * rate) in
        let rest = granted-tokens calls key (n' - 1) t t (omega arith) more in
        rw (same, times) (ground (arith, rest, parts))
  ]

  granted-window :
      (calls : List (ℕ × String)) (key : String) (held : Option (ℕ × ℕ)) (from : ℕ)
      → ((t : ℕ) → available rate burst held t ≤ burst)
      → IsOrdered from until calls
      → granted (bucket_answers rate burst held (times key calls)) ≤ burst + (until - from) * rate
  unfolding bucket_answers times IsOrdered granted
  granted-window [] key held from low order = omega arith
  granted-window ((t, k) ∷ calls) key held from low (due, more) =
      let shorter : (until - t) * rate ≤ (until - from) * rate =
        mul-le-mul_right rate (omega arith) in
      elim (Bool-cases (str_eq k key)) [
        | inr differ ↦
            rw (differ, times) (omega (arith, granted-window calls key held t low more, shorter))
        | inl same ↦
            let n = available rate burst held t in
            let rest = granted-tokens calls key (n - 1) t t (omega arith) more in
            rw (same, times) (ground (arith, rest, shorter, low t))
      ]

module _ {F T : Type 0} (fl : Floats F T) (at_second : ℕ → T) (exact : IsExact fl at_second)
    (rate burst until : ℕ) (small : burst + until * rate ≤ 2 ^ 53) (soon : until < 2 ^ 33) where
  -- At an integral rate and whole seconds, with a burst and a span for which the integers of a float are
  -- exact, a key is admitted in any span of time at most as often as the burst and the seconds of the
  -- span times the rate, whatever calls it and others made before and make meanwhile.
  pub granted-span :
      (earlier later : List (ℕ × String)) (key : String) (from : ℕ)
      → IsOrdered 0 from earlier
      → IsOrdered from until later
      → let l = after fl at_second (new fl (fl.of_int rate) burst) earlier in
        granted (answers fl at_second l key later) ≤ burst + (until - from) * rate
  unfolding Holds IsFit new find kept
  granted-span earlier later key from before within =
      let l = new fl (fl.of_int rate) burst in
      let due = IsOrdered-le from until later within in
      let (held, holds, fit) =
        Holds-after fl at_second exact rate burst until small soon earlier l key none 0 from
          (refl, refl, refl) tt before due in
      rw
        (answers-held fl at_second exact rate burst until small soon later
          (after fl at_second l earlier) key held from holds fit within)
        (granted-window rate burst until later key held from (available-le rate burst held) within)
