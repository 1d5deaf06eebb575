-- ===== src/Server/Keys.antt =====
-- The keys of the cached calls of services/gateway/internal/server/server.go.
use Prim.Native.Char.{code}
use Prim.Native.String.{◌++◌ as append}
use text.Mathlib.TextLemmas.{append_cancel_left, append_assoc, cons-append, head-eq_of_cons-eq}
use chain_forge.Common.{◌≡◌, ◌≢◌, sym, ap, ◌∙◌, arith, true, str_eq, str_eq_iff}
use chain_forge.Common.{String, Bool-cases, inl, inr, ◌⊎◌}
use chain_forge.JsonRpc.{Request}
use chain_forge.Server.{Env, cacheable, key_of}

cacheable-cases :
    (m : String) → cacheable m ≡ true → (m ≡ "eth_chainId") ⊎ (m ≡ "eth_getBlockByHash")
unfolding cacheable
cacheable-cases m h = elim (Bool-cases (str_eq m "eth_chainId")) [
  | inl is ↦ inl ((str_eq_iff m "eth_chainId").0 is)
  | inr isnt ↦ inr ((str_eq_iff m "eth_getBlockByHash").0 (rw (isnt) at h))
]

-- No key of the one method is a key of the other.
apart : (a b : String) → append "eth_chainId" a ≢ append "eth_getBlockByHash" b
apart a b e =
    let same : append "chainId" a ≡ append "getBlockByHash" b =
      append_cancel_left "eth_" (append "chainId" a) (append "getBlockByHash" b)
        (sym (append_assoc "eth_" "chainId" a) ∙ e ∙ append_assoc "eth_" "getBlockByHash" b) in
    let firsts : String.◌∷◌ "c" (append "hainId" a) ≡ String.◌∷◌ "g" (append "etBlockByHash" b) =
      sym (cons-append "c" "hainId" a) ∙ same ∙ cons-append "g" "etBlockByHash" b in
    let codes : 99 ≡ 103 = ap code (head-eq_of_cons-eq firsts) in omega (arith, codes)

-- The key of a cached call tells its method and its parameters.
pub key_of-injective :
    {W : Type 0} (env : Env W) (q q' : Request)
    → cacheable q.method ≡ true
    → cacheable q'.method ≡ true
    → key_of env q ≡ key_of env q'
    → (q.method ≡ q'.method) × (env.text q.params ≡ env.text q'.params)
unfolding key_of
key_of-injective env q q' h h' e = cases (cacheable-cases q.method h) (cacheable-cases q'.method h')
  where
    same_method :
        (m : String)
        → q.method ≡ m
        → q'.method ≡ m
        → (q.method ≡ q'.method) × (env.text q.params ≡ env.text q'.params)
    same_method m is is' = (
      is ∙ sym is',
      append_cancel_left m (env.text q.params) (env.text q'.params) (
          ap (λ n. append n (env.text q.params)) (sym is)
          ∙ e
          ∙ ap (λ n. append n (env.text q'.params)) is'),
    )

    cases :
        (q.method ≡ "eth_chainId") ⊎ (q.method ≡ "eth_getBlockByHash")
        → (q'.method ≡ "eth_chainId") ⊎ (q'.method ≡ "eth_getBlockByHash")
        → (q.method ≡ q'.method) × (env.text q.params ≡ env.text q'.params)
    cases (inl is) (inl is') = same_method "eth_chainId" is is'
    cases (inl is) (inr is') = absurd (
        apart (env.text q.params) (env.text q'.params) (
          ap (λ n. append n (env.text q.params)) (sym is)
          ∙ e
          ∙ ap (λ n. append n (env.text q'.params)) is'))
    cases (inr is) (inl is') = absurd (
        apart (env.text q'.params) (env.text q.params) (
          ap (λ n. append n (env.text q'.params)) (sym is')
          ∙ sym e
          ∙ ap (λ n. append n (env.text q.params)) is))
    cases (inr is) (inr is') = same_method "eth_getBlockByHash" is is'
