-- ===== src/Server/Answers.antt =====
-- The responses of `/rpc` of services/gateway/internal/server/server.go, each under the identifier of its
-- request.
use chain_forge.Common.{ℕ, ◌≡◌, refl, Bool}
use chain_forge.Common.{
  List, [], ◌∷◌, Option, none, some, String, Bool-cases, Option-cases, inl, inr,
}
use chain_forge.Cache
use chain_forge.JsonRpc
use chain_forge.JsonRpc.{Request, Response, Json, fail, norm_id, requests}
use chain_forge.JsonRpc.Served.{IsAnswer, serve-IsAnswer}
use chain_forge.Server.{
  Env, State, cacheable, key_of, answer, forward, look_up, proxy, handle, id_or_null, rpc,
}

id_or_null_lem : (id : List ℕ) → id_or_null id ≡ norm_id id
unfolding id_or_null norm_id
id_or_null_lem [] = refl
id_or_null_lem (c ∷ id) = refl

module _ {W : Type 0} (env : Env W) where
  answer-id :
      (q : Request) (o : Option Response) (s : State W) → (answer env q o s).0.id ≡ norm_id q.id
  unfolding answer fail
  answer-id q none s = refl
  answer-id q (some resp) s = elim (Option-cases resp.error) [
    | inr (e, bad) ↦ rw (bad, answer) (id_or_null_lem q.id)
    | inl good ↦ rw (good, answer) (id_or_null_lem q.id)
  ]

  forward-id : (q : Request) (s : State W) → (forward env q s).0.id ≡ norm_id q.id
  unfolding forward fail
  forward-id q s = elim (Option-cases (env.call (env.marshal q) s.world).0) [
    | inl lost ↦ rw (lost, forward) refl
    | inr (raw, got) ↦
        rw (got, forward)
          (answer-id q (env.unmarshal raw)
            (record s { world = (env.call (env.marshal q) s.world).1 }))
  ]

  look_up-id : (q : Request) (s : State W) → (look_up env q s).0.id ≡ norm_id q.id
  unfolding look_up
  look_up-id q s = elim (Option-cases (Cache.get s.cache (env.now s.world) (key_of env q)).0) [
    | inr (v, hit) ↦ rw (hit, look_up) (id_or_null_lem q.id)
    | inl miss ↦
        rw (miss, look_up)
          (forward-id q
            (record s { cache = (Cache.get s.cache (env.now s.world) (key_of env q)).1 }))
  ]

  handle-id :
      (client : String) (q : Request) (s : State W) → (handle env client q s).0.id ≡ norm_id q.id
  unfolding handle proxy fail
  handle-id client q s = elim (Option-cases (env.allow client s.world).0) [
    | inr (ns, wait) ↦ rw (wait, proxy) refl
    | inl admitted ↦
        let s' : State W = record s { world = (env.allow client s.world).1 } in
        elim (Bool-cases (cacheable q.method)) [
          | inl c ↦ rw (admitted, proxy) (rw (c, proxy) (look_up-id q s'))
          | inr not_c ↦ rw (admitted, proxy) (rw (not_c, proxy) (forward-id q s'))
        ]
  ]

  -- A body that decodes is answered request by request, in order, each response under its request's
  -- identifier, whether it is refused, cached, or comes from a node, whatever that answers.
  pub rpc-IsAnswer :
      (json : Json) (client : String) (body : List ℕ) (s : State W) (reqs : List Request)
      (batch : Bool)
      → JsonRpc.decode json body ≡ requests reqs batch
      → IsAnswer reqs batch (rpc env json client (some body) s).0
  unfolding rpc
  rpc-IsAnswer json client body s reqs batch e =
      serve-IsAnswer json (handle env client) (handle-id client) body s reqs batch e
