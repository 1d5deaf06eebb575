-- ===== src/Server/Limits.antt =====
-- What `ready` and `blocks` of services/gateway/internal/server/server.go tell.
use chain_forge.Common.{
  ℕ, zero, suc, ◌≤◌, ◌<◌, ◌==◌, ◌≡◌, ◌≢◌, ◌↔◌, refl, sym, ap, ◌∙◌, arith, true,
}
use chain_forge.Common.{◌||◌, ltb, str_eq, min, map, get_elem?}
use chain_forge.Common.{
  List, [], ◌∷◌, length, take, length-take, Option, none, some, String, Bool-cases, Option-cases,
  inl, inr,
}
use chain_forge.Common.Int.{ℤ, pos, negsuc, clip}
use chain_forge.Breaker
use chain_forge.Breaker.{state_text}
use chain_forge.Upstream.{Pool, Status, Endpoint, health}
use chain_forge.Indexer
use chain_forge.Indexer.{Indexer, Block, newest}
use chain_forge.Server.Access.{healthy, ready, limit_of, bounded, blocks}

-- An endpoint whose breaker is not open.
pub record HasLive (eps : List Endpoint) : Type 0 where
  pub index : ℕ
  pub endpoint : Endpoint
  pub there : get_elem? eps index ≡ some endpoint
  pub live : endpoint.br.state ≢ Breaker.open_state

abbrev statuses : List Endpoint → List Status
statuses eps = map (λ e. record { url = e.url; state = state_text e.br.state }) eps

open_text : (s : Breaker.State) → (str_eq (state_text s) "open" ≡ true) ↔ (s ≡ Breaker.open_state)
unfolding state_text str_eq
open_text Breaker.closed = ((λ e. absurd (cc e)), (λ e. absurd (cc e)))
open_text Breaker.open_state = ((λ e. refl), (λ e. refl))
open_text Breaker.half_open = ((λ e. absurd (cc e)), (λ e. absurd (cc e)))

HasLive-more : (e : Endpoint) (eps : List Endpoint) → HasLive eps → HasLive (e ∷ eps)
HasLive-more e eps h = record {
  index = suc h.index;
  endpoint = h.endpoint;
  there = h.there;
  live = h.live;
}

healthy_live : (eps : List Endpoint) → 0 < healthy (statuses eps) → HasLive eps
unfolding healthy
healthy_live [] h = absurd (omega (arith, h))
healthy_live (e ∷ eps) h = elim (Bool-cases (str_eq (state_text e.br.state) "open")) [
  | inl is ↦ HasLive-more e eps (healthy_live eps (rw (is, healthy) at h))
  | inr isnt ↦ record {
    index = 0;
    endpoint = e;
    there = refl;
    live = λ o. absurd (cc ((open_text e.br.state).1 o, isnt));
  }
]

live_healthy :
    (eps : List Endpoint) (i : ℕ) (e : Endpoint)
    → get_elem? eps i ≡ some e
    → e.br.state ≢ Breaker.open_state
    → 0 < healthy (statuses eps)
unfolding healthy
live_healthy [] i e h live = absurd (cc h)
live_healthy (x ∷ eps) zero e h live = elim (Bool-cases (str_eq (state_text x.br.state) "open")) [
  | inr isnt ↦ rw (isnt, healthy) (omega arith)
  | inl is ↦
      let same : x ≡ e = cc h in
      absurd (live (ap (λ y. y.br.state) (sym same) ∙ (open_text x.br.state).0 is))
]
live_healthy (x ∷ eps) (suc i) e h live =
    let rest = live_healthy eps i e h live in
    elim (Bool-cases (str_eq (state_text x.br.state) "open")) [
      | inr isnt ↦ rw (isnt, healthy) (omega arith)
      | inl is ↦ rw (is, healthy) rest
    ]

bounded_small : (o : Option ℤ) (n : ℤ) → bounded o ≡ some n → clip n ≤ 500
unfolding bounded
bounded_small none n e = absurd (cc e)
bounded_small (some (negsuc k)) n e = absurd (cc e)
bounded_small (some (pos k)) n e = elim (Bool-cases (ltb k 1 || ltb 500 k)) [
  | inl outside ↦ absurd (cc (rw (outside, bounded) at e))
  | inr inside ↦
      let same : pos k ≡ n = cc (rw (inside, bounded) at e) in rw (← same) (ground (arith, inside))
]

limit_small :
    (atoi : String → Option ℤ) (v : String) (n : ℤ) → limit_of atoi v ≡ some n → clip n ≤ 500
unfolding limit_of
limit_small atoi v n e = elim (Bool-cases (str_eq v "")) [
  | inl default ↦
      let same : pos 20 ≡ n = cc (rw (default, limit_of) at e) in rw (← same) (omega arith)
  | inr given ↦ bounded_small (atoi v) n (rw (given, limit_of) at e)
]

-- The gateway is ready exactly when a block is stored and some endpoint of the pool has a breaker that
-- is not open.
pub ready_iff :
    (p : Pool) (ix : Indexer) → (ready p ix ≡ true) ↔ ((newest ix ≢ none) × HasLive p.eps)
unfolding ready health
ready_iff p ix = elim (Option-cases (newest ix)) [
  | inl no_head ↦
      ((λ e. absurd (cc (rw (no_head, ready) at e))), (λ (head, _). absurd (head no_head)))
  | inr (tip, head) ↦ elim (Bool-cases (healthy (statuses p.eps) == 0)) [
    | inl dead ↦ (
      (λ e. absurd (cc (rw (dead, ready) at (rw (head, ready) at e)))),
      (λ (_, h).
          absurd (ground (arith, dead, live_healthy p.eps h.index h.endpoint h.there h.live))),
    )
    | inr alive ↦ (
      (λ e. (
        (λ none_there. absurd (cc (none_there, head))),
        healthy_live p.eps (ground (arith, alive)),
      )),
      (λ _. rw (head, ready) (rw (alive, ready) refl)),
    )
  ]
]

-- Whatever limit is asked for, at most 500 blocks are told, the newest ones.
pub length-blocks :
    (atoi : String → Option ℤ) (ix : Indexer) (v : String) (bs : List Block)
    → blocks atoi ix v ≡ some bs
    → (length bs ≤ 500) × ((n : ℕ) × (bs ≡ take n ix.chain))
unfolding blocks Indexer.blocks
length-blocks atoi ix v bs e = elim (Option-cases (limit_of atoi v)) [
  | inl bad ↦ absurd (cc (rw (bad, blocks) at e))
  | inr (n, good) ↦
      let told : take (min (clip n) (length ix.chain)) ix.chain ≡ bs =
        cc (rw (good, blocks) at e) in
      let small = limit_small atoi v n good in
      (
        rw (← told)
            (rw (length-take (min (clip n) (length ix.chain)) ix.chain) (omega (arith, small))),
        (min (clip n) (length ix.chain), sym told),
      )
]
