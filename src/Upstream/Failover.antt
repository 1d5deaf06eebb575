-- ===== src/Upstream/Failover.antt =====
-- `Call` of services/gateway/internal/upstream/upstream.go finds an endpoint that works.
use chain_forge.Common.{ℕ, ◌+◌, ◌^◌, ◌≤◌, ◌<◌, ◌≡◌, refl, arith, ◌≢◌}
use chain_forge.Common.{none, some, List, length, get_elem?, set}
use chain_forge.Common.{get_elem?-set_ne, ◌∙◌, lt-length}
use chain_forge.Breaker.{allow, closed, success}
use chain_forge.Upstream.{Env, Endpoint, Pool, answers, try, visit, call}
use chain_forge.Upstream.Loop.{call_from_rule}
use chain_forge.Upstream.Slots.{place, round_of}
use native.Mathlib.Decide.{ℕ_discrete}

module _ {W : Type 0} (env : Env W) (body : List ℕ) where
  pub visit_closed :
      (ep : Endpoint) (w : W) (out : List ℕ)
      → ep.br.state ≡ closed
      → (try env ep.url body w).0 ≡ some out
      → ((visit env body ep w).0 ≡ some out)
        × ((visit env body ep w).1 ≡ record ep { br = success ep.br })
        × ((visit env body ep w).2 ≡ (try env ep.url body w).1)
  unfolding visit allow
  visit_closed ep w out s r = ground arith

  still_ahead :
      (v n j r i : ℕ) (eps : List Endpoint) (ep t t' : Endpoint) (w : W)
      → i < n
      → r < n
      → place v n r ≡ j
      → get_elem? eps (place v n i) ≡ some t
      → (visit env body t w).0 ≡ none
      → ep.br.state ≡ closed
      → (out : List ℕ) × ((try env ep.url body w).0 ≡ some out)
      → i ≤ r
      → get_elem? eps j ≡ some ep
      → (i + 1 ≤ r) × (get_elem? (set eps (place v n i) t') j ≡ some ep)
  still_ahead v n j r i eps ep t t' w hi hr turn at e s (out, works) lo q =
      elim (ℕ_discrete (place v n i) j) [
        | yes p ↦
            let same : t ≡ ep = cc (at, q, p) in
            let no_answer : (visit env body ep w).0 ≡ none = rw (← same) e in
            absurd (ground (arith, no_answer, visit_closed ep w out s works))
        | no p ↦
            let later : i ≢ r = λ h. p (rw h turn) in
            (omega arith, get_elem?-set_ne eps _ j t' p ∙ q)
      ]

  -- When the counter is below 2 ^ 63 and some endpoint's breaker is closed and every attempt on
  -- that endpoint would be answered, `Call` returns an answer, whatever the other endpoints and
  -- their breakers do.
  pub call-answers :
      (p : Pool) (w : W) (j : ℕ) (ep : Endpoint)
      → p.next < 2 ^ 63
      → get_elem? p.eps j ≡ some ep
      → ep.br.state ≡ closed
      → ((w' : W) → (out : List ℕ) × ((try env ep.url body w').0 ≡ some out))
      → (out : List ℕ) × ((call env body p w).0 ≡ answers out)
  unfolding call
  call-answers p w j ep hv at s works =
      let n = length p.eps in
      let (r, hr, turn) = round_of p.next n j (lt-length p.eps j at) in
      call_from_rule env body p.next n hv (λ i eps _. (i ≤ r) × (get_elem? eps j ≡ some ep))
        (λ o. (out : List ℕ) × (o.0 ≡ answers out))
        (λ i eps w' t hi at' e q.
          still_ahead p.next n j r i eps ep t _ w' hi hr turn at' e s (works w') q.0 q.1)
        (λ i eps w' t out hi at' e q. (out, refl)) (λ eps w' q. absurd (omega arith)) n 0 p.eps w
        (omega arith) refl (omega arith, at)
