-- ===== src/Server/Transparent.antt =====
-- That the cache in front of the nodes does not change what a caller of the proxy of
-- services/gateway/internal/server/server.go is told.
use chain_forge.Common.{ℕ, ◌≡◌, refl, true}
use chain_forge.Common.{
  List, [], ◌∷◌, Option, none, some, String, All, Bool-cases, Option-cases, inl, inr, subst,
}
use chain_forge.Common.Int.{ℤ}
use chain_forge.Cache
use chain_forge.Cache.{Cache, get, put}
use chain_forge.Cache.Holds.{Holds, get-Holds, put-Holds, new-Holds}
use chain_forge.JsonRpc.{Request, Response, fail}
use chain_forge.Server.{
  Env, State, Label, cacheable, key_of, answer, forward, look_up, proxy, handle, is_null,
}
use chain_forge.Server.Keys.{key_of-injective}

unfoldable pub new_state : {W : Type 0} → ℤ → ℕ → W → State W
new_state cap ttl w = record { cache = Cache.new cap ttl; counts = []; world = w }

module _ {W : Type 0} (env : Env W) where
  -- The calls of the clients in their order, each with its response.
  unfoldable pub responses : List (String × Request) → State W → List (Request × Response)
  responses [] s = []
  responses ((client, q) ∷ calls) s =
      let (r, s') = handle env client q s in (q, r) ∷ responses calls s'

  -- What holds of every result that a node gives to a request.
  unfoldable pub IsTrue : (String → String → List ℕ → Type 0) → Type 0
  IsTrue P =
      (q : Request) (w : W) (raw : List ℕ) (resp : Response)
      → (env.call (env.marshal q) w).0 ≡ some raw
      → env.unmarshal raw ≡ some resp
      → resp.error ≡ none
      → P q.method (env.text q.params) resp.result

  module _ (P : String → String → List ℕ → Type 0) (true_of : IsTrue P) where
    -- What is stored under a key is right for all requests with that key.
    abbrev Right : String → List ℕ → Type 0
    Right key val =
        (q : Request)
        → cacheable q.method ≡ true
        → key ≡ key_of env q
        → P q.method (env.text q.params) val

    abbrev Told : Request → Response × Label × State W → Type 0
    Told q (r, _, s') =
        Holds Right s'.cache × (r.error ≡ none → P q.method (env.text q.params) r.result)

    Right-own :
        (q : Request) (val : List ℕ)
        → cacheable q.method ≡ true
        → P q.method (env.text q.params) val
        → Right (key_of env q) val
    Right-own q val c h q' c' e =
        let (m, t) = key_of-injective env q q' c c' e in
        subst (λ t. P q'.method t val) t (subst (λ m. P m (env.text q.params) val) m h)

    answer-Told :
        (q : Request) (o : Option Response) (s : State W)
        → Holds Right s.cache
        → ((resp : Response)
            → o ≡ some resp
            → resp.error ≡ none
            → P q.method (env.text q.params) resp.result)
        → Told q (answer env q o s)
    unfolding answer fail
    answer-Told q none s h right = (h, (λ e. absurd (cc e)))
    answer-Told q (some resp) s h right = elim (Option-cases resp.error) [
      | inr (e, bad) ↦ rw (bad, answer) (h, (λ e'. absurd (cc (e', bad))))
      | inl good ↦
          let p = right resp refl good in
          elim (Bool-cases (cacheable q.method)) [
            | inl c ↦ elim (Bool-cases (is_null resp.result)) [
              | inl nothing ↦
                  rw (good, answer) (rw (c, answer) (rw (nothing, answer) (h, (λ _. p))))
              | inr something ↦
                  rw (good, answer)
                    (rw (c, answer)
                      (rw (something, answer)
                        (
                          put-Holds Right s.cache (env.now s.world) (key_of env q) resp.result h
                              (Right-own q resp.result c p),
                          (λ _. p),
                        )))
            ]
            | inr not_c ↦ rw (good, answer) (rw (not_c, answer) (h, (λ _. p)))
          ]
    ]

    forward-Told : (q : Request) (s : State W) → Holds Right s.cache → Told q (forward env q s)
    unfolding forward fail IsTrue
    forward-Told q s h = elim (Option-cases (env.call (env.marshal q) s.world).0) [
      | inl lost ↦ rw (lost, forward) (h, (λ e. absurd (cc e)))
      | inr (raw, got) ↦
          rw (got, forward)
            (answer-Told q (env.unmarshal raw)
              (record s { world = (env.call (env.marshal q) s.world).1 }) h
              (λ resp e good. true_of q s.world raw resp got e good))
    ]

    look_up-Told :
        (q : Request) (s : State W)
        → cacheable q.method ≡ true
        → Holds Right s.cache
        → Told q (look_up env q s)
    unfolding look_up
    look_up-Told q s c h =
        let found = get-Holds Right s.cache (env.now s.world) (key_of env q) h in
        elim (Option-cases (get s.cache (env.now s.world) (key_of env q)).0) [
          | inl miss ↦
              rw (miss, look_up)
                (forward-Told q
                  (record s { cache = (get s.cache (env.now s.world) (key_of env q)).1 }) found.0)
          | inr (v, hit) ↦ rw (hit, look_up) (found.0, (λ _. found.1 v hit q c refl))
        ]

    proxy-Told :
        (client : String) (q : Request) (s : State W)
        → Holds Right s.cache
        → Told q (proxy env client q s)
    unfolding proxy fail
    proxy-Told client q s h = elim (Option-cases (env.allow client s.world).0) [
      | inr (ns, wait) ↦ rw (wait, proxy) (h, (λ e. absurd (cc e)))
      | inl admitted ↦
          let s' : State W = record s { world = (env.allow client s.world).1 } in
          elim (Bool-cases (cacheable q.method)) [
            | inl c ↦ rw (admitted, proxy) (rw (c, proxy) (look_up-Told q s' c h))
            | inr not_c ↦ rw (admitted, proxy) (rw (not_c, proxy) (forward-Told q s' h))
          ]
    ]

    responses-Told :
        (calls : List (String × Request)) (s : State W)
        → Holds Right s.cache
        → All
            (λ (q, r). r.error ≡ none → P q.method (env.text q.params) r.result)
            (responses calls s)
    unfolding responses handle
    responses-Told [] s h = tt
    responses-Told ((client, q) ∷ calls) s h =
        let (kept, told) = proxy-Told client q s h in
        (told, responses-Told calls (handle env client q s).1 kept)

    -- Whatever holds of all results that the nodes give without an error, for the method and the
    -- parameters of the request, holds of all that the callers are given without an error, from the
    -- cache or from a node, in any order of calls of any clients, from an empty cache on.
    pub responses_true :
        (cap : ℤ) (ttl : ℕ) (w : W) (calls : List (String × Request))
        → All
            (λ (q, r). r.error ≡ none → P q.method (env.text q.params) r.result)
            (responses calls (new_state cap ttl w))
    unfolding new_state
    responses_true cap ttl w calls =
        responses-Told calls (new_state cap ttl w) (new-Holds Right cap ttl)
