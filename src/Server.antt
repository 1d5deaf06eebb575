-- ===== src/Server.antt =====
-- services/gateway/internal/server/server.go: the proxy of JSON-RPC calls, with the limit on a client's
-- calls in front and the cache of answers behind. The rate limiter, the pool of nodes and encoding/json
-- are the record `Env` over the states `W` of the world outside.
pub mod Keys
pub mod Transparent
pub mod Repeats
pub mod Refused
pub mod Answers
pub mod Access
pub mod Limits
pub mod Intents
pub mod Hooks
pub mod Routes
mod Tests
mod AccessTests
use Prim.Native.String.{◌++◌ as append, len, slice}
use chain_forge.Common.{ℕ, ◌/◌, ◌^◌, ◌==◌, Bool, true, false, ◌&&◌, ◌||◌, not, ltb, str_eq}
use chain_forge.Common.{if◌then◌else◌, List, [], ◌∷◌, Option, none, some, String}
use chain_forge.Cache
use chain_forge.Cache.{Cache}
use chain_forge.JsonRpc
use chain_forge.JsonRpc.{Request, Response, Json, fail, code_rate_limited, code_upstream}

-- `allow` is the limiter, which admits or tells how many nanoseconds to wait; `call` is the pool;
-- `text` is the string of some bytes; `retry_text` is the message for the milliseconds to wait.
pub record Env (W : Type 0) : Type 0 where
  pub allow : String → W → Option ℕ × W
  pub now : W → ℕ
  pub call : List ℕ → W → Option (List ℕ) × W
  pub marshal : Request → List ℕ
  pub unmarshal : List ℕ → Option Response
  pub text : List ℕ → String
  pub retry_text : ℕ → String

-- What became of a call, as the metrics name it.
pub data Label : Type 0 where
  ratelimited cached upstream_error error ok : Label

-- `counts` are the increments of gateway_rpc_calls_total, the last one in front.
pub record State (W : Type 0) : Type 0 where
  pub cache : Cache
  pub counts : List (String × Label)
  pub world : W

unfoldable pub cacheable : String → Bool
cacheable m = str_eq m "eth_chainId" || str_eq m "eth_getBlockByHash"

unfoldable pub id_or_null : List ℕ → List ℕ
id_or_null [] = b'n' ∷ b'u' ∷ b'l' ∷ b'l' ∷ []
id_or_null (c ∷ id) = c ∷ id

-- `string(resp.Result) == "null"`
unfoldable pub is_null : List ℕ → Bool
is_null (a ∷ b ∷ c ∷ d ∷ []) = a == b'n' && b == b'u' && c == b'l' && d == b'l'
is_null _ = false

-- The label of a method that the caller chose.
unfoldable pub method_label : String → String
method_label m =
    if ltb 4 (len m) && str_eq (slice m 0 4) "eth_" && ltb (len m) 40 then m else "other"

module _ {W : Type 0} (env : Env W) where
  unfoldable pub key_of : Request → String
  key_of q = append q.method (env.text q.params)

  -- The answer of the node, decoded or not.
  unfoldable pub answer : Request → Option Response → State W → Response × Label × State W
  answer q none s = (fail q.id code_upstream "malformed upstream response", upstream_error, s)
  answer q (some resp) s =
      let r : Response = record resp { id = id_or_null q.id } in
      let stored = Cache.put s.cache (env.now s.world) (key_of q) resp.result in
      let s' : State W =
        if cacheable q.method && not (is_null resp.result)
        then record s { cache = stored }
        else s in
      elim resp.error [ some _ ↦ (r, error, s) | none ↦ (r, ok, s') ]

  -- The call of the node.
  unfoldable pub forward : Request → State W → Response × Label × State W
  forward q s =
      let (raw, w) = env.call (env.marshal q) s.world in
      let s' : State W = record s { world = w } in
      elim raw [
        | none ↦ (fail q.id code_upstream "upstream unavailable", upstream_error, s')
        | some b ↦ answer q (env.unmarshal b) s'
      ]

  -- What the cache holds under the key of the request, and else the node's answer.
  unfoldable pub look_up : Request → State W → Response × Label × State W
  look_up q s =
      let (hit, c) = Cache.get s.cache (env.now s.world) (key_of q) in
      let s' : State W = record s { cache = c } in
      elim hit [
        | some v ↦
            (record { jsonrpc = "2.0"; result = v; error = none; id = id_or_null q.id }, cached, s')
        | none ↦ forward q s'
      ]

  -- `s.proxy`, for a client by its name.
  unfoldable pub proxy : String → Request → State W → Response × Label × State W
  proxy client q s =
      let (wait, w) = env.allow client s.world in
      let s' : State W = record s { world = w } in
      elim wait [
        | some ns ↦ (fail q.id code_rate_limited (env.retry_text (ns / 10 ^ 6)), ratelimited, s')
        | none ↦ if cacheable q.method then look_up q s' else forward q s'
      ]

  -- The handler of `s.rpc`: the call is counted under its method and what became of it.
  unfoldable pub handle : String → Request → State W → Response × State W
  handle client q s =
      let (r, label, s') = proxy client q s in
      (r, record s' { counts = (method_label q.method, label) ∷ s'.counts })

  unfoldable pub rpc : Json → String → Option (List ℕ) → State W → JsonRpc.Reply × State W
  rpc json client body s = JsonRpc.serve json (handle client) body s
