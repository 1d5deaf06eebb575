-- ===== src/Upstream/Visits.antt =====
-- What a call of `Call` in services/gateway/internal/upstream/upstream.go does to the endpoints.
use chain_forge.Common.{
  ℕ, zero, suc, ◌+◌, ◌-◌, ◌%◌, ◌^◌, ◌≤◌, ◌<◌, ◌≡◌, refl, arith, ◌⊎◌, inl, inr, ◌≢◌,
}
use chain_forge.Common.{Option, none, some, List, [], ◌∷◌, length, get_elem?, set, true, false}
use chain_forge.Common.{get_elem?-set_ne, get_elem?-set_self, sym, ◌∙◌, lt-length, All, All-set}
use chain_forge.Common.{All-get_elem?, map, ap, Bool-cases}
use chain_forge.Breaker.{allow, closed, success, failure}
use chain_forge.Breaker.Probe.{IsValid, allow-IsValid, success-IsValid, failure-IsValid}
use chain_forge.Upstream.{Env, Endpoint, Pool, answers, no_upstream, panics, try, visit}
use chain_forge.Upstream.{tried, call}
use chain_forge.Upstream.Loop.{call_from_rule, round_answers}
use chain_forge.Upstream.Failover.{visit_closed}
use chain_forge.Upstream.Slots.{place, place_injective, round_of}
use native.Mathlib.Decide.{ℕ_discrete}
use native.Mathlib.Nat.{mod-lt, add-zero, mod-eq_of_lt}

map-set :
    (eps : List Endpoint) (j : ℕ) (t t' : Endpoint)
    → get_elem? eps j ≡ some t
    → t'.url ≡ t.url
    → map (λ e. e.url) (set eps j t') ≡ map (λ e. e.url) eps
map-set [] j t t' at same = refl
map-set (e ∷ eps) zero t t' at same = ground arith
map-set (e ∷ eps) (suc j) t t' at same = ap (◌∷◌ e.url) (map-set eps j t t' at same)

module _ {W : Type 0} (env : Env W) (body : List ℕ) where
  -- An endpoint was refused by its breaker, or was tried in vain and the failure was recorded.
  pub data Passed (ep ep' : Endpoint) : Type 0 where
    refused :
        (w : W)
        → (allow ep.br (env.now w)).1 ≡ false
        → ep' ≡ record ep { br = (allow ep.br (env.now w)).0 }
        → Passed ep ep'
    failed :
        (w : W)
        → (allow ep.br (env.now w)).1 ≡ true
        → (try env ep.url body w).0 ≡ none
        → ep' ≡ record ep {
          br = failure (allow ep.br (env.now w)).0 (env.now (try env ep.url body w).1);
        }
        → Passed ep ep'

  visit_passes :
      (ep : Endpoint) (w : W) → (visit env body ep w).0 ≡ none → Passed ep (visit env body ep w).1
  unfolding visit
  visit_passes ep w e = elim (Bool-cases (allow ep.br (env.now w)).1) [
    | inl y ↦ failed w y (ground arith) (ground arith)
    | inr n ↦ refused w n (ground arith)
  ]

  tried_keeps :
      (ep : Endpoint) (r : Option (List ℕ)) (w : W)
      → IsValid ep.br
      → IsValid (tried env ep r w).1.br
  unfolding tried
  tried_keeps ep none w v = failure-IsValid ep.br (env.now w) v
  tried_keeps ep (some out) w v = success-IsValid ep.br

  visit_keeps : (ep : Endpoint) (w : W) → IsValid ep.br → IsValid (visit env body ep w).1.br
  unfolding visit
  visit_keeps ep w v =
      let v' : IsValid (allow ep.br (env.now w)).0 = allow-IsValid ep.br (env.now w) v in
      elim (Bool-cases (allow ep.br (env.now w)).1) [
        | inl y ↦
            rw (y, visit) (tried_keeps _ (try env ep.url body w).0 (try env ep.url body w).1 v')
        | inr n ↦ rw (n, visit) v'
      ]

  visit-url : (ep : Endpoint) (w : W) → (visit env body ep w).1.url ≡ ep.url
  unfolding visit
  visit-url ep w = ground arith

  Kept : Pool → List Endpoint → Type 0
  Kept p eps = All (λ e. IsValid e.br) eps × (map (λ e. e.url) eps ≡ map (λ e. e.url) p.eps)

  visit-Kept :
      (p : Pool) (eps : List Endpoint) (j : ℕ) (ep : Endpoint) (w : W)
      → get_elem? eps j ≡ some ep
      → Kept p eps
      → Kept p (set eps j (visit env body ep w).1)
  unfolding Kept
  visit-Kept p eps j ep w at (valid, urls) = (
    All-set (λ e. IsValid e.br) eps j _ valid
        (visit_keeps ep w (All-get_elem? (λ e. IsValid e.br) eps j ep valid at)),
    map-set eps j ep _ at (visit-url ep w) ∙ urls,
  )

  -- While the counter is below 2 ^ 63, a call on valid breakers does not go out of range, leaves
  -- every breaker valid and the endpoints' urls as they were, and moves the counter on by one.
  pub call_keeps :
      (p : Pool) (w : W)
      → p.next < 2 ^ 63
      → All (λ e. IsValid e.br) p.eps
      → ((call env body p w).0 ≢ panics)
        × All (λ e. IsValid e.br) (call env body p w).1.eps
        × (map (λ e. e.url) (call env body p w).1.eps ≡ map (λ e. e.url) p.eps)
        × ((call env body p w).1.next ≡ p.next + 1)
  unfolding call Kept
  call_keeps p w hv valid =
      let n = length p.eps in
      let (sound, kept) =
        call_from_rule env body p.next n hv (λ i eps _. Kept p eps)
          (λ o. (o.0 ≢ panics) × Kept p o.1) (λ i eps w' t hi at e q. visit-Kept p eps _ t w' at q)
          (λ i eps w' t out hi at e q. ((λ h. cc), visit-Kept p eps _ t w' at q))
          (λ eps w' q. ((λ h. cc), q)) n 0 p.eps w (omega arith) refl (valid, refl) in
      (sound, kept.0, kept.1, omega arith)

  pass_on :
      (v n j r i : ℕ) (eps : List Endpoint) (ep t : Endpoint) (w : W)
      → i < n
      → r < n
      → place v n r ≡ j
      → get_elem? eps (place v n i) ≡ some t
      → (visit env body t w).0 ≡ none
      → ((i ≤ r) × (get_elem? eps j ≡ some ep))
        ⊎ ((ep' : Endpoint) × (get_elem? eps j ≡ some ep') × Passed ep ep' × (r < i))
      → ((i + 1 ≤ r) × (get_elem? (set eps (place v n i) (visit env body t w).1) j ≡ some ep))
        ⊎ ((ep' : Endpoint) × (get_elem? (set eps (place v n i) (visit env body t w).1) j
              ≡ some ep')
            × Passed ep ep'
            × (r < i + 1))
  pass_on v n j r i eps ep t w hi hr turn at e (inl (lo, q)) = elim (ℕ_discrete (place v n i) j) [
    | yes p ↦
        let same : t ≡ ep = cc (at, q, p) in
        let turned : i ≡ r = place_injective v n i r hi hr (p ∙ sym turn) in
        inr (
          (visit env body t w).1,
          rw (← p) (get_elem?-set_self eps _ _ (lt-length eps _ at)),
          rw (← same) (visit_passes t w e),
          omega arith,
        )
    | no p ↦
        let later : i ≢ r = λ h. p (rw h turn) in
        inl (omega arith, get_elem?-set_ne eps _ j _ p ∙ q)
  ]
  pass_on v n j r i eps ep t w hi hr turn at e (inr (ep', q, passed, over)) =
      elim (ℕ_discrete (place v n i) j) [
        | yes p ↦
            let again : i ≡ r = place_injective v n i r hi hr (p ∙ sym turn) in absurd (omega arith)
        | no p ↦ inr (ep', get_elem?-set_ne eps _ j _ p ∙ q, passed, omega arith)
      ]

  -- With the counter below 2 ^ 63: if `Call` gives up, then each endpoint was visited once and in
  -- vain: its breaker refused the call, or admitted it and the attempt failed and was recorded as a
  -- failure, and nothing else was done to it.
  pub no_upstream_visits_all :
      (p : Pool) (w : W) (j : ℕ) (ep : Endpoint)
      → p.next < 2 ^ 63
      → (call env body p w).0 ≡ no_upstream
      → get_elem? p.eps j ≡ some ep
      → (ep' : Endpoint) × (get_elem? (call env body p w).1.eps j ≡ some ep') × Passed ep ep'
  unfolding call
  no_upstream_visits_all p w j ep hv gave_up at =
      let n = length p.eps in
      let (r, hr, turn) = round_of p.next n j (lt-length p.eps j at) in
      call_from_rule env body p.next n hv
        (λ i eps _.
          ((i ≤ r) × (get_elem? eps j ≡ some ep))
          ⊎ ((ep' : Endpoint) × (get_elem? eps j ≡ some ep') × Passed ep ep' × (r < i)))
        (λ o. o.0 ≡ no_upstream → (ep' : Endpoint) × (get_elem? o.1 j ≡ some ep') × Passed ep ep')
        (λ i eps w' t hi at' e q. pass_on p.next n j r i eps ep t w' hi hr turn at' e q)
        (λ i eps w' t out hi at' e q h. cc)
        (λ eps w' q h. elim q [
          | inl (lo, _) ↦ absurd (omega arith)
          | inr (ep', here, passed, _) ↦ (ep', here, passed)
        ])
        n 0 p.eps w (omega arith) refl (inl (omega arith, at)) gave_up

  -- Successive calls start at successive endpoints: with the counter below 2 ^ 63, if the endpoint
  -- whose turn it is has a closed breaker and answers, the call returns that answer, records the
  -- success there, touches no other endpoint, and moves the counter on by one.
  pub call_round_robin :
      (p : Pool) (w : W) (ep : Endpoint) (out : List ℕ)
      → p.next < 2 ^ 63
      → get_elem? p.eps (p.next % length p.eps) ≡ some ep
      → ep.br.state ≡ closed
      → (try env ep.url body w).0 ≡ some out
      → call env body p w ≡ (
        answers out,
        record {
          eps = set p.eps (p.next % length p.eps) (record ep { br = success ep.br });
          next = p.next + 1;
        },
        (try env ep.url body w).1,
      )
  unfolding call
  call_round_robin p w ep out hv at s works =
      let n = length p.eps in
      let (r, e, e') = visit_closed env body ep w out s works in
      let pos : 0 < n = omega (arith, lt-length p.eps (p.next % n) at) in
      let first : place p.next n 0 ≡ p.next % n = rw add-zero (mod-eq_of_lt (mod-lt p.next pos)) in
      let len : n ≡ suc (n - 1) = omega arith in
      rw len (
        rw (round_answers env body (n - 1) 0 p.next p.eps w ep out hv pos (rw first at) r)
          (rw (first, e, e') (ground arith)))
