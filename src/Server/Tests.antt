-- ===== src/Server/Tests.antt =====
-- A gateway with one node, and the theorems there.
use chain_forge.Common.{
  ℕ, zero, suc, ◌+◌, ◌<◌, ◌≡◌, refl, ap, arith, true, str_eq, reverse, reverse_onto,
}
use chain_forge.Common.{List, [], ◌∷◌, Option, none, some, String, All, if◌then◌else◌}
use chain_forge.Common.Int.{pos}
use chain_forge.Cache
use chain_forge.Cache.{Cache}
use chain_forge.Cache.Refine.{new-IsValid}
use chain_forge.JsonRpc
use chain_forge.JsonRpc.{Request, Response, Json, requests}
use chain_forge.JsonRpc.Served.{IsAnswer}
use chain_forge.Server.{
  Env, State, ok, cached, cacheable, key_of, answer, forward, look_up, proxy, handle, rpc,
  id_or_null, is_null, method_label,
}
use chain_forge.Server.Transparent.{responses, new_state, IsTrue, responses_true}
use chain_forge.Server.Repeats.{IsStored, behind, repeat_cached}
use chain_forge.Server.Refused.{IsRefusal, IsSpent, asked, IsQuiet, rpc_refused}
use chain_forge.Server.Answers.{rpc-IsAnswer}

program : Unit {0}
unfolding Cache.new Cache.write Cache.get Cache.put Cache.exceeds Cache.insert Cache.assign
    Cache.unlink Cache.back Cache.on_list Cache.move_to_front JsonRpc.fail JsonRpc.norm_id
    JsonRpc.trim_space JsonRpc.decode JsonRpc.serve_each JsonRpc.serve IsAnswer cacheable key_of
    answer forward look_up proxy handle rpc id_or_null is_null method_label responses new_state
    IsTrue behind IsRefusal IsSpent asked str_eq reverse reverse_onto
program = tt

-- The world is the number of the limiter's tokens: a call takes one of "app", and "other" has none.
abbrev take_token : String → ℕ → Option ℕ × ℕ
take_token client zero = (some 1500000000, zero)
take_token client (suc n) = if str_eq client "app" then (none, n) else (some 2000000, suc n)

-- The node gives back what a call is marshalled to, which tells whether its method is eth_chainId.
abbrev env : Env ℕ
env = record {
  allow = take_token;
  now = λ w. 10;
  call = λ body w. (some body, w);
  marshal = λ q. if str_eq q.method "eth_chainId" then 1 ∷ [] else 2 ∷ [];
  unmarshal = λ raw. some (record { jsonrpc = "2.0"; result = raw; error = none; id = [] });
  text = λ bytes. "[]";
  retry_text = λ ms. "rate limited";
}

abbrev chain_id_call : Request
chain_id_call = record { jsonrpc = "2.0"; method = "eth_chainId"; params = []; id = b'7' ∷ [] }

abbrev number_call : Request
number_call = record { jsonrpc = "2.0"; method = "eth_blockNumber"; params = []; id = b'8' ∷ [] }

abbrev start : State ℕ
start = new_state (pos 2) 60 5

-- What the node's results have in common: the result of eth_chainId is 1, and no other is.
abbrev Known : String → String → List ℕ → Type 0
Known m t result = result ≡ (if str_eq m "eth_chainId" then 1 ∷ [] else 2 ∷ [])

env-IsTrue : IsTrue env Known
unfolding program
env-IsTrue q w raw resp got decoded good =
    let sent : (if str_eq q.method "eth_chainId" then 1 ∷ [] else 2 ∷ []) ≡ raw = cc got in
    let told : raw ≡ resp.result = cc decoded in cc (sent, told)

abbrev calls : List (String × Request)
calls =
    ("app", chain_id_call)
    ∷ ("app", chain_id_call)
    ∷ ("other", chain_id_call)
    ∷ ("app", number_call)
    ∷ []

responses_true_example :
    All
      (λ (q, r). r.error ≡ none → Known q.method "[]" r.result)
      (responses env calls (new_state (pos 2) 60 5))
responses_true_example = responses_true env Known env-IsTrue (pos 2) 60 5 calls

labels :
    (handle env "app" chain_id_call (handle env "app" chain_id_call start).1).1.counts
    ≡ ("eth_chainId", cached) ∷ ("eth_chainId", ok) ∷ []
unfolding program
labels = refl

call-IsStored : IsStored env chain_id_call start (1 ∷ [])
unfolding program
call-IsStored = record {
  raw = 1 ∷ [];
  response = record { jsonrpc = "2.0"; result = 1 ∷ []; error = none; id = [] };
  called = refl;
  decoded = refl;
  no_error = refl;
  result_is = refl;
  some_result = refl;
  is_cacheable = refl;
}

admitted : (env.allow "app" (behind env chain_id_call start (1 ∷ [])).world).0 ≡ none
unfolding program
admitted = refl

early :
    env.now (env.allow "app" (behind env chain_id_call start (1 ∷ [])).world).1
    < env.now (behind env chain_id_call start (1 ∷ [])).world + start.cache.ttl
unfolding program
early = omega arith

start-IsValid : Cache.Views.IsValid start.cache
unfolding program
start-IsValid = new-IsValid (pos 2) 60

start-cap : start.cache.cap ≡ pos 2
unfolding program
start-cap = refl

repeat_cached_example :
    let again =
      proxy env "app"
        (record chain_id_call { id = b'9' ∷ [] })
        (forward env chain_id_call start).2 in
    (again.0
      ≡ record { jsonrpc = "2.0"; result = 1 ∷ []; error = none; id = id_or_null (b'9' ∷ []) })
    × (again.2.world ≡ (env.allow "app" (behind env chain_id_call start (1 ∷ [])).world).1)
repeat_cached_example =
    repeat_cached env "app" chain_id_call start (1 ∷ []) (b'9' ∷ []) 1 call-IsStored start-IsValid
      start-cap admitted early

-- A decoder that knows two texts.
abbrev json : Json
json = record { one = λ t. some chain_id_call; many = λ t. some (chain_id_call ∷ number_call ∷ []) }

still_none : (n : ℕ) → asked env "app" 0 n ≡ 0
unfolding program
still_none zero = refl
still_none (suc n) = ap (λ w. (take_token "app" w).1) (still_none n)

no_tokens : IsSpent env "app" 0
unfolding IsSpent
no_tokens n e =
    let refused : (take_token "app" (asked env "app" 0 n)).0 ≡ some 1500000000 =
      ap (λ w. (take_token "app" w).0) (still_none n) in
    absurd (cc (e, refused))

abbrev empty : State ℕ
empty = record { cache = Cache.new (pos 2) 60; counts = []; world = 0 }

rpc_refused_example :
    IsRefusal (rpc env json "app" (some (b'[' ∷ [])) empty).0
    × IsQuiet env "app" 0 empty.cache (rpc env json "app" (some (b'[' ∷ [])) empty).1
rpc_refused_example = rpc_refused env "app" 0 json (some (b'[' ∷ [])) empty no_tokens refl

decoded : JsonRpc.decode json (32 ∷ b'[' ∷ []) ≡ requests (chain_id_call ∷ number_call ∷ []) true
unfolding program
decoded = refl

rpc-IsAnswer_example :
    IsAnswer
      (chain_id_call ∷ number_call ∷ [])
      true
      (rpc env json "app" (some (32 ∷ b'[' ∷ [])) start).0
rpc-IsAnswer_example =
    rpc-IsAnswer env json "app" (32 ∷ b'[' ∷ []) start (chain_id_call ∷ number_call ∷ []) true
      decoded

labelled : (method_label "eth_chainId" ≡ "eth_chainId") × (method_label "net_version" ≡ "other")
unfolding program
labelled = (refl, refl)
