-- ===== src/Server/Refused.antt =====
-- The limit on the calls of a client of services/gateway/internal/server/server.go.
use chain_forge.Common.{
  ℕ, zero, suc, ◌≡◌, ◌≢◌, refl, arith, ◌∙◌, ap, Bool, true, false, ◌||◌, not, str_eq,
}
use chain_forge.Common.{
  List, [], ◌∷◌, length, Option, none, some, String, Bool-cases, Option-cases, inl, inr, All,
}
use chain_forge.Common.{sym}
use chain_forge.Common.Int.{ℤ}
use chain_forge.Cache.{Cache}
use chain_forge.JsonRpc
use chain_forge.JsonRpc.{
  Request, Response, Json, fail, serve_each, serve, decode, reply_of, requests,
}
use chain_forge.JsonRpc.Served.{IsBounded, decode-IsBounded, Decoded-cases, length-serve_each}
use chain_forge.Server.{Env, State, proxy, handle, rpc}

-- A reply that is an error throughout.
unfoldable pub IsRefusal : JsonRpc.Reply → Type 0
IsRefusal (JsonRpc.array out) = All (λ r. r.error ≢ none) out
IsRefusal (JsonRpc.object r) = r.error ≢ none
IsRefusal JsonRpc.panics = ⊥

fail_error : (id : List ℕ) (code : ℤ) (msg : String) → (fail id code msg).error ≢ none
unfolding fail
fail_error id code msg = λ e. absurd (cc e)

module _ {W : Type 0} (env : Env W) (client : String) (start : W) where
  -- What so many questions to the limiter, and nothing else, make of the world.
  unfoldable pub asked : ℕ → W
  asked zero = start
  asked (suc n) = (env.allow client (asked n)).1

  -- The limiter has nothing left for the client.
  unfoldable pub IsSpent : Type 0
  IsSpent = (n : ℕ) → (env.allow client (asked n)).0 ≢ none

  -- The cache is as before, and nobody but the limiter was asked.
  pub record IsQuiet (c : Cache) (s : State W) : Type 0 where
    pub cache : s.cache ≡ c
    pub questions : ℕ
    pub world : s.world ≡ asked questions

  module _ (spent : IsSpent) (json : Json) (c : Cache) where
    handle-IsQuiet :
        (q : Request) (s : State W)
        → IsQuiet c s
        → ((handle env client q s).0.error ≢ none) × IsQuiet c (handle env client q s).1
    unfolding handle proxy IsSpent asked
    handle-IsQuiet q s quiet = elim (Option-cases (env.allow client s.world).0) [
      | inl admitted ↦
          absurd
            (spent quiet.questions (ap (λ w. (env.allow client w).0) (sym quiet.world) ∙ admitted))
      | inr (ns, wait) ↦
          rw (wait, proxy)
            (
              fail_error q.id _ _,
              record {
                cache = quiet.cache;
                questions = suc quiet.questions;
                world = ap (λ w. (env.allow client w).1) quiet.world;
              },
            )
    ]

    serve_each-IsQuiet :
        (qs : List Request) (s : State W)
        → IsQuiet c s
        → All (λ r. r.error ≢ none) (serve_each json (handle env client) qs s).0
          × IsQuiet c (serve_each json (handle env client) qs s).1
    unfolding serve_each
    serve_each-IsQuiet [] s quiet = (tt, quiet)
    serve_each-IsQuiet (q ∷ qs) s quiet =
        elim (Bool-cases (not (str_eq q.jsonrpc "2.0") || str_eq q.method "")) [
          | inl bad ↦
              let (rest, quiet') = serve_each-IsQuiet qs s quiet in
              rw (bad, serve_each) ((fail_error q.id _ _, rest), quiet')
          | inr good ↦
              let (refused, quiet') = handle-IsQuiet q s quiet in
              let (rest, quiet'') = serve_each-IsQuiet qs (handle env client q s).1 quiet' in
              rw (good, serve_each) ((refused, rest), quiet'')
        ]

    reply-IsRefusal :
        (qs : List Request) (batch : Bool) (out : List Response)
        → IsBounded qs batch
        → length out ≡ length qs
        → All (λ r. r.error ≢ none) out
        → IsRefusal (reply_of json (handle env client) batch out)
    unfolding reply_of IsRefusal
    reply-IsRefusal qs true out b same h = h
    reply-IsRefusal qs false (r ∷ out) b same h = h.0
    reply-IsRefusal qs false [] b same h = absurd (omega (arith, b.alone refl, same))

  -- While the limiter has nothing left for a client, whatever body it sends is answered by errors
  -- alone, the cache is neither read nor written, and no node is called.
  pub rpc_refused :
      (json : Json) (body : Option (List ℕ)) (s : State W)
      → IsSpent
      → s.world ≡ start
      → IsRefusal (rpc env json client body s).0 × IsQuiet s.cache (rpc env json client body s).1
  unfolding rpc serve IsRefusal asked
  rpc_refused json body s spent here =
      let quiet : IsQuiet s.cache s = record { cache = refl; questions = 0; world = here } in
      go body quiet
    where
      go :
          (body : Option (List ℕ))
          → IsQuiet s.cache s
          → IsRefusal (rpc env json client body s).0
            × IsQuiet s.cache (rpc env json client body s).1
      go none quiet = (fail_error [] _ _, quiet)
      go (some bytes) quiet = elim (Decoded-cases (decode json bytes)) [
        | inl (code, msg, e) ↦ rw (e, serve) (fail_error [] code msg, quiet)
        | inr (reqs, batch, e) ↦
            let (refused, quiet') = serve_each-IsQuiet spent json s.cache reqs s quiet in
            rw (e, serve)
              (
                reply-IsRefusal spent json s.cache reqs batch
                    (serve_each json (handle env client) reqs s).0
                    (decode-IsBounded json bytes reqs batch e)
                    (length-serve_each json (handle env client) reqs s) refused,
                quiet',
              )
      ]
