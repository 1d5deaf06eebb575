-- ===== src/Webhook/Delivery.antt =====
-- The counts of a delivery in services/gateway/internal/webhook/webhook.go.
use chain_forge.Common.{ℕ, ◌+◌, ◌≤◌, ◌<◌, ◌≡◌, refl, arith, Bool, true}
use chain_forge.Common.{List, [], ◌∷◌, String, length, Bool-cases, inl, inr, if◌then◌else◌}
use chain_forge.Webhook.{Registration, Dispatcher, Env, post, attempt, deliver_to, deliver}
use chain_forge.Webhook.Retry.{before, attempt-first}

-- How many registrations pass a test.
unfoldable pub count : (Registration → Bool) → List Registration → ℕ
count p [] = 0
count p (r ∷ rs) = if p r then count p rs + 1 else count p rs

module _ {W : Type 0} (env : Env W) (d : Dispatcher) (typ : String) (body : List ℕ) where
  sums :
      (rs : List Registration) (ok failed : ℕ) (w : W)
      → (deliver_to env d typ body rs ok failed w).0 + (deliver_to env d typ body rs ok failed w).1
        ≡ ok + failed + length rs
  unfolding deliver_to
  sums [] ok failed w = omega arith
  sums (r ∷ rs) ok failed w =
      let t = attempt env d.attempts d.backoff r typ body w in
      elim (Bool-cases t.0) [
        | inl e ↦ rw (e, deliver_to) (omega (arith, sums rs (ok + 1) failed t.1))
        | inr e ↦ rw (e, deliver_to) (omega (arith, sums rs ok (failed + 1) t.1))
      ]

  module _ (reliable : Registration → Bool)
      (answers : (r : Registration) (w : W) → reliable r ≡ true → (post env r typ body w).0 ≡ true)
      (some_attempt : 0 < d.attempts) where
    reached :
        (rs : List Registration) (ok failed : ℕ) (w : W)
        → ok + count reliable rs ≤ (deliver_to env d typ body rs ok failed w).0
    unfolding deliver_to count
    reached [] ok failed w = omega arith
    reached (r ∷ rs) ok failed w =
        let t = attempt env d.attempts d.backoff r typ body w in
        elim (Bool-cases t.0) [
          | inl e ↦
              let rest = reached rs (ok + 1) failed t.1 in rw (e, deliver_to) (ground (arith, rest))
          | inr e ↦
              let rest = reached rs ok (failed + 1) t.1 in
              elim (Bool-cases (reliable r)) [
                | inr unsure ↦ rw (e, deliver_to) (rw (unsure, count) rest)
                | inl sure ↦ absurd (cc (hits r w sure, e))
              ]
        ]
      where
        hits :
            (r : Registration) (w : W)
            → reliable r ≡ true
            → (attempt env d.attempts d.backoff r typ body w).0 ≡ true
        hits r w sure =
            rw
              (attempt-first env r typ body d.attempts 0 d.backoff w some_attempt
                (λ i lt. absurd (omega arith)) (unfold before in answers r w sure))
              refl

    -- With at least one attempt, a delivery counts every registration once, as a success or as a
    -- failure, and the endpoints that accept every post are among the successes, whatever the others
    -- do before them.
    pub deliver-counts :
        (rs : List Registration) (w : W)
        → ((deliver env d typ body rs w).0 + (deliver env d typ body rs w).1 ≡ length rs)
          × (count reliable rs ≤ (deliver env d typ body rs w).0)
    unfolding deliver
    deliver-counts rs w = (omega (arith, sums rs 0 0 w), omega (arith, reached rs 0 0 w))
