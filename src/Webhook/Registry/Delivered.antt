-- ===== src/Webhook/Registry/Delivered.antt =====
-- An event of services/gateway/internal/webhook/webhook.go is delivered to what is registered.
use chain_forge.Common.{ℕ, ◌+◌, ◌≤◌, ◌<◌, ◌≡◌, Bool, true, List, [], String, length}
use chain_forge.Webhook.{Registration, Dispatcher, Env, post}
use chain_forge.Webhook.Delivery.{count, deliver-counts}
use chain_forge.Webhook.Registry.{Net, empty, deliver_listed}
use chain_forge.Webhook.Registry.Listing.{Op, after, live, list-live}
use mathlib.Core.List.{Perm}

module _ {W : Type 0} (env : Env W) (d : Dispatcher) (typ : String) (body : List ℕ) where
  -- After any history of registrations and removals, in which fewer than 10000 are accepted, Deliver
  -- with at least one attempt counts every registration that was accepted and not removed once, as a
  -- success or as a failure, and those whose endpoints accept every post are among the successes.
  pub deliver_listed-counts :
      (net : Net) (allow : Bool) (ops : List Op) (order : List Registration) (w : W)
      (reliable : Registration → Bool)
      → (after net (empty allow) ops).seq < 10000
      → Perm order (after net (empty allow) ops).regs
      → ((r : Registration) (v : W) → reliable r ≡ true → (post env r typ body v).0 ≡ true)
      → 0 < d.attempts
      → let done = deliver_listed env d order typ body w in
        (done.0 + done.1 ≡ length (live net allow ops 0 []))
        × (count reliable (live net allow ops 0 []) ≤ done.0)
  unfolding deliver_listed
  deliver_listed-counts net allow ops order w reliable bound visits answers some_attempt =
      rw (list-live net allow ops order bound visits)
        (deliver-counts env d typ body reliable answers some_attempt (live net allow ops 0 []) w)
