-- ===== src/Webhook/Retry.antt =====
-- The retries for one endpoint in services/gateway/internal/webhook/webhook.go.
use chain_forge.Common.{ℕ, zero, suc, ◌*◌, ◌%◌, ◌^◌, ◌≤◌, ◌<◌, ◌==◌, ◌≡◌, refl, arith, true, false}
use chain_forge.Common.{List, String}
use chain_forge.Webhook.{Registration, Env, post, attempt}

module _ {W : Type 0} (env : Env W) (r : Registration) (typ : String) (body : List ℕ) where
  -- The world in which attempt number `a` is made, if all those before it fail: behind each of them
  -- comes a wait, and each wait is twice the one before.
  unfoldable pub before : ℕ → W → ℕ → W
  before wait w zero = w
  before wait w (suc a) = before (wait * 2 % 2 ^ 64) (env.sleep wait (post env r typ body w).1) a

  -- The attempts stop at the first that succeeds, if it is within their number; each is made behind
  -- the doubling waits of those before it.
  pub attempt-first :
      (k a wait : ℕ) (w : W)
      → a < k
      → ((i : ℕ) → i < a → (post env r typ body (before wait w i)).0 ≡ false)
      → (post env r typ body (before wait w a)).0 ≡ true
      → attempt env k wait r typ body w ≡ (true, (post env r typ body (before wait w a)).1)
  unfolding attempt before
  attempt-first zero a wait w h fails hit = absurd (omega arith)
  attempt-first (suc k) zero wait w h fails hit = rw (hit, attempt) refl
  attempt-first (suc k) (suc a) wait w h fails hit =
      let first : (post env r typ body w).0 ≡ false = fails 0 (omega arith) in
      let more : (k == 0) ≡ false = ground arith in
      rw (first, attempt)
        (rw (more, attempt)
          (attempt-first k a (wait * 2 % 2 ^ 64) _ (omega arith)
            (λ i lt. fails (suc i) (omega arith)) hit))

  -- If all of them fail, the delivery fails, and no wait follows the last.
  pub attempt-none :
      (k wait : ℕ) (w : W)
      → ((i : ℕ) → i ≤ k → (post env r typ body (before wait w i)).0 ≡ false)
      → attempt env (suc k) wait r typ body w ≡ (false, (post env r typ body (before wait w k)).1)
  unfolding attempt before
  attempt-none zero wait w fails =
      let first : (post env r typ body w).0 ≡ false = fails 0 (omega arith) in
      rw (first, attempt) refl
  attempt-none (suc k) wait w fails =
      let first : (post env r typ body w).0 ≡ false = fails 0 (omega arith) in
      let more : (suc k == 0) ≡ false = ground arith in
      rw (first, attempt)
        (rw (more, attempt)
          (attempt-none k (wait * 2 % 2 ^ 64) _ (λ i le. fails (suc i) (omega arith))))
