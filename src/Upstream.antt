-- ===== src/Upstream.antt =====
-- services/gateway/internal/upstream/upstream.go: the pool of endpoints, each behind a circuit
-- breaker. net/http and the remote nodes are the record `Env` over the states `W` of the world
-- outside. A body is its list of bytes.
pub mod Slots
pub mod Loop
pub mod Failover
pub mod Visits
mod Tests
use chain_forge.Common.{ℕ, zero, suc, ◌+◌, ◌-◌, ◌*◌, ◌%◌, ◌^◌, Bool, true, false, ltb, leb, not}
use chain_forge.Common.{if◌then◌else◌, List, [], ◌∷◌, map, length, get_elem?, set, take, max}
use chain_forge.Common.{Option, none, some, String}
use chain_forge.Breaker
use chain_forge.Breaker.{Breaker, allow, success, failure, state_text}

-- What `client.Do` may return: a status, the bytes that the body yields, and whether reading it
-- ends in an error.
pub record Response : Type 0 where
  pub status : ℕ
  pub body : List ℕ
  pub broken : Bool

pub record Env (W : Type 0) : Type 0 where
  pub now : W → ℕ
  pub new_request : String → List ℕ → Bool
  pub do_post : String → List ℕ → W → Option Response × W

pub record Endpoint : Type 0 where
  pub url : String
  pub br : Breaker

pub record Pool : Type 0 where
  pub eps : List Endpoint
  pub next : ℕ

pub record Status : Type 0 where
  pub url : String
  pub state : String

unfoldable pub new_pool : List String → ℕ → ℕ → Pool
new_pool urls threshold cooldown = record {
  eps = map (λ u. record { url = u; br = Breaker.new threshold cooldown }) urls;
  next = 0;
}

-- `io.ReadAll(io.LimitReader(body, limit))`: the error at the end is met only if the limit is not
-- reached before it.
pub read_limited : ℕ → Response → Option (List ℕ)
read_limited limit r =
    if ltb (length r.body) limit
    then (if r.broken then none else some r.body)
    else some (take limit r.body)

answer_of : Option Response → Option (List ℕ)
unfolding read_limited
answer_of none = none
answer_of (some r) = if leb 500 r.status then none else read_limited (8 * 2 ^ 20) r

-- Where `int(p.next.Add(1)-1) % max(len(p.eps), 1)` plus i leads, for the counter `v`: `int` makes
-- a counter of 2 ^ 63 or more negative, and Go's `%` keeps the sign. A negative index is `none`.
unfoldable pub slot : ℕ → ℕ → ℕ → Option ℕ
slot v n i =
    if ltb v (2 ^ 63)
    then some ((v % max n 1 + i) % n)
    else let back = (2 ^ 64 - v) % max n 1 in if leb back i then some ((i - back) % n) else none

-- `panics` is an index out of range.
pub data Outcome : Type 0 where
  answers : List ℕ → Outcome
  no_upstream : Outcome
  panics : Outcome

module _ {W : Type 0} (env : Env W) where
  unfoldable pub try : String → List ℕ → W → Option (List ℕ) × W
  unfolding answer_of
  try url body w =
      if env.new_request url body
      then (let (r, w') = env.do_post url body w in (answer_of r, w'))
      else (none, w)

  tried : Endpoint → Option (List ℕ) → W → Option (List ℕ) × Endpoint × W
  tried ep (some out) w = (some out, record ep { br = success ep.br }, w)
  tried ep none w = (none, record ep { br = failure ep.br (env.now w) }, w)

  -- One round of the loop of `Call`: the breaker is asked, the endpoint tried, the outcome reported.
  unfoldable pub visit : List ℕ → Endpoint → W → Option (List ℕ) × Endpoint × W
  unfolding tried
  visit body ep w =
      let (br', admitted) = allow ep.br (env.now w) in
      let ep' : Endpoint = record ep { br = br' } in
      let r = try ep.url body w in if admitted then tried ep' r.0 r.1 else (none, ep', w)

  -- The loop, with the rounds left and the index of this one.
  unfoldable pub call_from : ℕ → ℕ → ℕ → List ℕ → List Endpoint → W → Outcome × List Endpoint × W
  call_from zero i v body eps w = (no_upstream, eps, w)
  call_from (suc k) i v body eps w = elim (slot v (length eps) i) [
    | none ↦ (panics, eps, w)
    | some j ↦ elim (get_elem? eps j) [
      | none ↦ (panics, eps, w)
      | some ep ↦
          let (r, ep', w') = visit body ep w in
          elim r [
            | some out ↦ (answers out, set eps j ep', w')
            | none ↦ call_from k (i + 1) v body (set eps j ep') w'
          ]
    ]
  ]

  -- `p.next.Add(1)-1` is the counter before the call.
  unfoldable pub call : List ℕ → Pool → W → Outcome × Pool × W
  call body p w =
      let (r, eps', w') = call_from (length p.eps) 0 p.next body p.eps w in
      (r, record { eps = eps'; next = (p.next + 1) % 2 ^ 64 }, w')

unfoldable pub health : Pool → List Status
unfolding state_text
health p = map (λ e. record { url = e.url; state = state_text e.br.state }) p.eps
