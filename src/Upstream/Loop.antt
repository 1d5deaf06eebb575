-- ===== src/Upstream/Loop.antt =====
-- The loop of `Call` in services/gateway/internal/upstream/upstream.go: one round, and the rule
-- that proofs about the loop use.
use chain_forge.Common.{ℕ, zero, suc, ◌+◌, ◌^◌, ◌<◌, ◌≡◌, arith, inl, inr}
use chain_forge.Common.{none, some, List, length, get_elem?, set, Option-cases}
use chain_forge.Common.{get_elem?-some, length-set, ◌∙◌}
use mathlib.Core.Path.{subst}
use chain_forge.Upstream.{Env, Endpoint, Outcome, answers, visit, call_from, no_upstream}
use chain_forge.Upstream.Slots.{place, slot-place, place-lt}

module _ {W : Type 0} (env : Env W) (body : List ℕ) where
  -- One round of the loop, in terms of the endpoint whose turn it is.
  pub round_answers :
      (k i v : ℕ) (eps : List Endpoint) (w : W) (ep : Endpoint) (out : List ℕ)
      → v < 2 ^ 63
      → 0 < length eps
      → get_elem? eps (place v (length eps) i) ≡ some ep
      → (visit env body ep w).0 ≡ some out
      → call_from env (suc k) i v body eps w ≡ (
        answers out,
        set eps (place v (length eps) i) (visit env body ep w).1,
        (visit env body ep w).2,
      )
  unfolding call_from
  round_answers k i v eps w ep out hv hn at r =
      rw (slot-place v (length eps) i hv hn, call_from) (rw (at, call_from) (rw (r, call_from)))

  pub round_goes_on :
      (k i v : ℕ) (eps : List Endpoint) (w : W) (ep : Endpoint)
      → v < 2 ^ 63
      → 0 < length eps
      → get_elem? eps (place v (length eps) i) ≡ some ep
      → (visit env body ep w).0 ≡ none
      → call_from env (suc k) i v body eps w
        ≡ call_from env k
            (i + 1)
            v
            body
            (set eps (place v (length eps) i) (visit env body ep w).1)
            (visit env body ep w).2
  unfolding call_from
  round_goes_on k i v eps w ep hv hn at r = ground (arith, slot-place v (length eps) i hv hn)

  -- The loop from round i on: what each round keeps, and what the end then has.
  module _ (v n : ℕ) (hv : v < 2 ^ 63) (P : ℕ → List Endpoint → W → Type 0)
      (Q : Outcome × List Endpoint × W → Type 0)
      (on : (i : ℕ) (eps : List Endpoint) (w : W) (ep : Endpoint)
        → i < n
        → get_elem? eps (place v n i) ≡ some ep
        → (visit env body ep w).0 ≡ none
        → P i eps w
        → P (i + 1) (set eps (place v n i) (visit env body ep w).1) (visit env body ep w).2)
      (stop : (i : ℕ) (eps : List Endpoint) (w : W) (ep : Endpoint) (out : List ℕ)
        → i < n
        → get_elem? eps (place v n i) ≡ some ep
        → (visit env body ep w).0 ≡ some out
        → P i eps w
        → Q (answers out, set eps (place v n i) (visit env body ep w).1, (visit env body ep w).2))
      (end : (eps : List Endpoint) (w : W) → P n eps w → Q (no_upstream, eps, w)) where
    pub call_from_rule :
        (k i : ℕ) (eps : List Endpoint) (w : W)
        → i + k ≡ n
        → length eps ≡ n
        → P i eps w
        → Q (call_from env k i v body eps w)
    call_from_rule zero i eps w hk hl p =
        let e : i ≡ n = omega arith in unfold call_from in end eps w (subst (λ m. P m eps w) e p)
    call_from_rule (suc k) i eps w hk hl p =
        round
          (get_elem?-some eps (place v n i) (rw (← hl) (place-lt v (length eps) i (omega arith))))
          (call_from_rule k (i + 1))
      where
        round :
            (t : Endpoint) × (get_elem? eps (place v n i) ≡ some t)
            → ((eps' : List Endpoint) (w' : W)
                → i + 1 + k ≡ n
                → length eps' ≡ n
                → P (i + 1) eps' w'
                → Q (call_from env k (i + 1) v body eps' w'))
            → Q (call_from env (suc k) i v body eps w)
        round (ep, at) rest = elim (Option-cases (visit env body ep w).0) [
          | inr (out, e) ↦
              rw (round_answers k i v eps w ep out hv (omega arith) (rw hl at) e, hl)
                (stop i eps w ep out (omega arith) at e p)
          | inl e ↦
              rw (round_goes_on k i v eps w ep hv (omega arith) (rw hl at) e, hl)
                (rest _ _ (omega arith) (length-set eps _ _ ∙ hl)
                  (on i eps w ep (omega arith) at e p))
        ]
