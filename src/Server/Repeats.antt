-- ===== src/Server/Repeats.antt =====
-- A call that is repeated to services/gateway/internal/server/server.go.
use chain_forge.Common.{
  ℕ, suc, ◌+◌, ◌<◌, ◌≡◌, refl, ◌∙◌, ap, true, false, ltb, if◌then◌else◌, lt→ltb,
}
use chain_forge.Common.{List, none, some, String}
use chain_forge.Common.Int.{pos}
use chain_forge.Cache.{get, put}
use chain_forge.Cache.Views.{IsValid}
use chain_forge.Cache.Bounds.{get-put}
use chain_forge.JsonRpc.{Request, Response}
use chain_forge.Server.{
  Env, State, cacheable, key_of, answer, forward, look_up, proxy, is_null, id_or_null,
}

module _ {W : Type 0} (env : Env W) where
  -- What a node answered to the request and the gateway stored.
  pub record IsStored (q : Request) (s : State W) (result : List ℕ) : Type 0 where
    pub raw : List ℕ
    pub response : Response
    pub called : (env.call (env.marshal q) s.world).0 ≡ some raw
    pub decoded : env.unmarshal raw ≡ some response
    pub no_error : response.error ≡ none
    pub result_is : response.result ≡ result
    pub some_result : is_null result ≡ false
    pub is_cacheable : cacheable q.method ≡ true

  -- The state behind the call of the node.
  unfoldable pub behind : Request → State W → List ℕ → State W
  behind q s result =
      let w = (env.call (env.marshal q) s.world).1 in
      record s { cache = put s.cache (env.now w) (key_of env q) result; world = w }

  forward-IsStored :
      (q : Request) (s : State W) (result : List ℕ)
      → IsStored q s result
      → (forward env q s).2 ≡ behind q s result
  unfolding forward answer behind
  forward-IsStored q s result h =
      rw (h.called, forward)
        (rw (h.decoded, forward)
          (rw (h.no_error, answer)
            (rw (h.is_cacheable, answer)
              (rw (h.result_is, answer) (rw (h.some_result, answer) refl)))))

  proxy-hit :
      (client : String) (q : Request) (s : State W) (v : List ℕ)
      → (env.allow client s.world).0 ≡ none
      → cacheable q.method ≡ true
      → (get s.cache (env.now (env.allow client s.world).1) (key_of env q)).0 ≡ some v
      → ((proxy env client q s).0
          ≡ record { jsonrpc = "2.0"; result = v; error = none; id = id_or_null q.id })
        × ((proxy env client q s).2.world ≡ (env.allow client s.world).1)
  unfolding proxy look_up
  proxy-hit client q s v admitted c hit =
      rw (admitted, proxy) (rw (c, proxy) (rw (hit, look_up) (refl, refl)))

  -- When a node's answer to a cacheable request is stored in a valid cache with capacity 1 or more, a
  -- repeat of the request under any identifier that comes before the expiry, admitted by the limiter
  -- and with nothing in between, gets that result under its own identifier, and no node is called.
  pub repeat_cached :
      (client : String) (q : Request) (s : State W) (result id : List ℕ) (k : ℕ)
      → IsStored q s result
      → IsValid s.cache
      → s.cache.cap ≡ pos (suc k)
      → (env.allow client (behind q s result).world).0 ≡ none
      → env.now (env.allow client (behind q s result).world).1
        < env.now (behind q s result).world + s.cache.ttl
      → let again = proxy env client (record q { id = id }) (forward env q s).2 in
        (again.0 ≡ record { jsonrpc = "2.0"; result = result; error = none; id = id_or_null id })
        × (again.2.world ≡ (env.allow client (behind q s result).world).1)
  unfolding behind key_of
  repeat_cached client q s result id k h valid room admitted early =
      let after = behind q s result in
      let w = (env.allow client after.world).1 in
      let live : ltb (env.now w) (env.now after.world + s.cache.ttl) ≡ true = lt→ltb _ _ early in
      let there : (get after.cache (env.now w) (key_of env q)).0 ≡ some result =
        get-put s.cache k (env.now after.world) (env.now w) (key_of env q) result valid room
        ∙ ap (λ t. if t then some result else none) live in
      rw (forward-IsStored q s result h)
        (proxy-hit client (record q { id = id }) after result admitted h.is_cacheable there)
