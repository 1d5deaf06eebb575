-- ===== src/Rpcx.antt =====
-- services/gateway/internal/rpcx/rpcx.go: one JSON-RPC call to a node and what became of it. The pool
-- that carries it is `send`, over the states `W` of the world outside; encoding/json is `request` and
-- `envelope`, and the decoder of the result is given with the call. `P` are the parameters' values.
use chain_forge.Common.{
  ℕ, ◌==◌, ◌&&◌, Bool, false, if◌then◌else◌, List, [], ◌∷◌, Option, none, some, String,
}
use chain_forge.Common.Int.{ℤ}

pub record RpcError : Type 0 where
  pub code : ℤ
  pub message : String

pub record Envelope : Type 0 where
  pub result : List ℕ
  pub error : Option RpcError

pub record Node (P W : Type 0) : Type 0 where
  pub request : String → List P → Option (List ℕ)
  pub envelope : List ℕ → Option Envelope
  pub send : List ℕ → W → Option (List ℕ) × W

-- The errors of `Call`, `null_result` being `ErrNull`.
pub data Fault : Type 0 where
  unencodable transport malformed null_result undecodable : Fault
  refused : RpcError → Fault

pub data Result (A : Type 0) : Type 0 where
  ok : A → Result A
  failed : Fault → Result A

-- `string(env.Result) == "null"`
is_null : List ℕ → Bool
is_null (a ∷ b ∷ c ∷ d ∷ []) = a == b'n' && b == b'u' && c == b'l' && d == b'l'
is_null _ = false

decoded : {A : Type 0} → Option A → Result A
decoded none = failed undecodable
decoded (some a) = ok a

result_of : {A : Type 0} → (List ℕ → Option A) → Option Envelope → Result A
result_of decode none = failed malformed
result_of decode (some env) = elim env.error [
  | some e ↦ failed (refused e)
  | none ↦ if is_null env.result then failed null_result else decoded (decode env.result)
]

module _ {P W : Type 0} (node : Node P W) where
  answer_of : {A : Type 0} → (List ℕ → Option A) → Option (List ℕ) → Result A
  answer_of decode none = failed transport
  answer_of decode (some raw) = result_of decode (node.envelope raw)

  unfoldable pub call : {A : Type 0} → (List ℕ → Option A) → String → List P → W → Result A × W
  unfolding answer_of result_of is_null decoded
  call decode method params w = elim (node.request method params) [
    | none ↦ (failed unencodable, w)
    | some body ↦ let (r, w') = node.send body w in (answer_of decode r, w')
  ]
