-- ===== src/Server/Intents.antt =====
-- services/gateway/internal/server/intents.go, with `sign` of server.go: the routes that simulate, sign and
-- broadcast. The services behind them are the record `Services` over the states `W` of the world outside, and
-- a body is its decoded form, or none if it does not decode. `counts` are the increments of the counters, the
-- last one in front.
pub mod Permission
pub mod Composed
mod Tests
use Prim.Native.String.{◌++◌ as append}
use chain_forge.Common.{
  ℕ, ◌==◌, ◌&&◌, ◌||◌, not, Bool, true, false, str_eq, if◌then◌else◌, List, [], ◌∷◌, length,
}
use chain_forge.Common.{Option, none, some, String}
use chain_forge.EngineClient.{Outcome, unset, success, revert, halt}
use chain_forge.Intent.{Tx, Prepared, SolanaSim}
use chain_forge.Intent.Checks.{EvmRequest}
use chain_forge.Intent.Views.{Simulation}
use chain_forge.SignerClient
use chain_forge.SignerClient.{SignRequest, SignResponse, TxRequest, TxResponse}

-- What an error is taken for by `fail`: the first of these that it is.
pub data Failure : Type 0 where
  malformed_raw : Failure
  invalid : List ℕ → Failure
  engine : ℕ → List ℕ → Failure
  node : List ℕ → Failure
  other : Failure

pub data Answer {ℓ} (A : Type ℓ) : Type ℓ where
  ok : A → Answer A
  failed : Failure → Answer A

-- The texts that are told.
pub data Message : Type 0 where
  told : List ℕ → Message
  node_error : List ℕ → Message
  no_relay : String → Message
  signer_unavailable bad_raw engine_unavailable engine_error upstream_unavailable : Message
  not_configured bad_intent evm_only unknown_chain bad_broadcast bad_sign : Message

pub data Skipped : Type 0 where
  not_asked creates_contract : Skipped
  unsuccessful : Outcome → Skipped

-- `signed` and `signing_skipped`, of which one at most is there.
pub data Signing : Type 0 where
  skipped : Skipped → Signing
  signed : TxResponse → Signing

pub data Body : Type 0 where
  message : Message → Body
  evm_answer : Tx → Simulation → Signing → Body
  solana_answer : SolanaSim → Body
  sent : String → List ℕ → Body
  signature : SignResponse → Body

pub record Reply : Type 0 where
  pub status : ℕ
  pub body : Body

unfoldable pub signer_fail : SignerClient.Fault → Reply
signer_fail (SignerClient.api status text) = record { status = status; body = message (told text) }
signer_fail SignerClient.broken = record { status = 502; body = message signer_unavailable }

-- The status of an engine's error by its gRPC code.
unfoldable pub engine_fail : ℕ → List ℕ → Reply
engine_fail code text =
    if code == 3
    then record { status = 400; body = message (told text) }
    else if code == 8 || code == 9
    then record { status = 422; body = message (told text) }
    else if code == 14 || code == 4
    then record { status = 503; body = message engine_unavailable }
    else record { status = 502; body = message engine_error }

unfoldable pub fail : Failure → Reply
fail malformed_raw = record { status = 400; body = message bad_raw }
fail (invalid text) = record { status = 400; body = message (told text) }
fail (engine code text) = engine_fail code text
fail (node text) = record { status = 502; body = message (node_error text) }
fail other = record { status = 502; body = message upstream_unavailable }

pub record IntentBody : Type 0 where
  pub chain : String
  pub evm : EvmRequest
  pub tx : List ℕ
  pub key_id : Option (List ℕ)

pub record BroadcastBody : Type 0 where
  pub chain : String
  pub raw_tx : List ℕ

pub record Services (W : Type 0) : Type 0 where
  pub configured : Bool
  pub prepare_evm : EvmRequest → W → Answer Prepared × W
  pub simulate_solana : List ℕ → W → Answer SolanaSim × W
  pub sign_tx : TxRequest → W → SignerClient.Result TxResponse × W
  pub sign : SignRequest → W → SignerClient.Result SignResponse × W
  pub relay : String → Option (List ℕ → W → Answer (List ℕ) × W)

pub data Count : Type 0 where
  simulated_evm : Outcome → Count
  simulated_solana : Bool → Count
  broadcast_sent broadcast_error : String → Count

pub record State (W : Type 0) : Type 0 where
  pub counts : List Count
  pub engine_elapsed_us : ℕ
  pub world : W

unfoldable pub tx_request : List ℕ → Tx → TxRequest
tx_request key tx = record {
  key_id = key;
  chain_id = tx.chain_id;
  nonce = tx.nonce;
  gas_price = tx.gas_price;
  gas_limit = tx.gas_limit;
  to = tx.to;
  value = tx.value;
  payload = tx.payload;
}

-- Why nothing is signed, or none.
unfoldable pub refusal : Prepared → Option Skipped
refusal p = elim p.simulation.outcome [
  | success ↦ if length p.tx.to == 0 then some creates_contract else none
  | revert ↦ some (unsuccessful revert)
  | halt ↦ some (unsuccessful halt)
  | unset ↦ some (unsuccessful unset)
]

unfoldable pub evm_reply : Prepared → Signing → Reply
evm_reply p s = record { status = 200; body = evm_answer p.tx p.simulation s }

module _ {W : Type 0} (srv : Services W) where
  -- The answer of the signer.
  unfoldable pub signed_reply : Prepared → SignerClient.Result TxResponse → Reply
  signed_reply p (SignerClient.ok t) = evm_reply p (signed t)
  signed_reply p (SignerClient.failed e) = signer_fail e

  unfoldable pub sign_prepared : Prepared → List ℕ → State W → Reply × State W
  sign_prepared p key s = elim (refusal p) [
    | some why ↦ (evm_reply p (skipped why), s)
    | none ↦
        let (r, w) = srv.sign_tx (tx_request key p.tx) s.world in
        (signed_reply p r, record s { world = w })
  ]

  -- What is left of the EVM route behind `PrepareEVM`.
  unfoldable pub finish_evm : Bool → Option (List ℕ) → Prepared → State W → Reply × State W
  finish_evm allow_sign key p s =
      let s' : State W = record s {
        counts = simulated_evm p.simulation.outcome ∷ s.counts;
        engine_elapsed_us = p.simulation.elapsed_us;
      } in
      elim key [
        | none ↦ (evm_reply p (skipped not_asked), s')
        | some k ↦
            if allow_sign then sign_prepared p k s' else (evm_reply p (skipped not_asked), s')
      ]

  unfoldable pub do_evm : Bool → IntentBody → State W → Reply × State W
  do_evm allow_sign b s =
      let (r, w) = srv.prepare_evm b.evm s.world in
      let s' : State W = record s { world = w } in
      elim r [ failed e ↦ (fail e, s') | ok p ↦ finish_evm allow_sign b.key_id p s' ]

  unfoldable pub do_solana : IntentBody → State W → Reply × State W
  do_solana b s =
      let (r, w) = srv.simulate_solana b.tx s.world in
      let s' : State W = record s { world = w } in
      let simulated : Reply × State W = elim r [
        | failed e ↦ (fail e, s')
        | ok sim ↦ (
          record { status = 200; body = solana_answer sim },
          record s' { counts = simulated_solana sim.success ∷ s'.counts },
        )
      ] in
      elim b.key_id [
        | some k ↦ (record { status = 400; body = message evm_only }, s)
        | none ↦ simulated
      ]

  unfoldable pub by_chain : Bool → IntentBody → State W → Reply × State W
  by_chain allow_sign b s =
      if str_eq b.chain "solana"
      then do_solana b s
      else if str_eq b.chain "" || str_eq b.chain "evm"
      then do_evm allow_sign b s
      else (record { status = 400; body = message unknown_chain }, s)

  unfoldable pub do_intent : Bool → Option IntentBody → State W → Reply × State W
  do_intent allow_sign none s =
      if srv.configured
      then (record { status = 400; body = message bad_intent }, s)
      else (record { status = 501; body = message not_configured }, s)
  do_intent allow_sign (some b) s =
      if srv.configured
      then by_chain allow_sign b s
      else (record { status = 501; body = message not_configured }, s)

  unfoldable pub simulate : Option IntentBody → State W → Reply × State W
  simulate b s = do_intent false b s

  unfoldable pub intent_route : Option IntentBody → State W → Reply × State W
  intent_route b s = do_intent true b s

  unfoldable pub send :
      String → (List ℕ → W → Answer (List ℕ) × W) → List ℕ → State W → Reply × State W
  send chain rl raw s =
      let (r, w) = rl raw s.world in
      elim r [
        | failed e ↦ (fail e, record s { counts = broadcast_error chain ∷ s.counts; world = w })
        | ok id ↦ (
          record { status = 200; body = sent chain id },
          record s { counts = broadcast_sent chain ∷ s.counts; world = w },
        )
      ]

  unfoldable pub broadcast_to : String → List ℕ → State W → Reply × State W
  broadcast_to chain raw s = elim (srv.relay chain) [
    | none ↦ (record { status = 501; body = message (no_relay chain) }, s)
    | some rl ↦ send chain rl raw s
  ]

  unfoldable pub broadcast : Option BroadcastBody → State W → Reply × State W
  broadcast none s = (record { status = 400; body = message bad_broadcast }, s)
  broadcast (some b) s =
      if length b.raw_tx == 0
      then (record { status = 400; body = message bad_broadcast }, s)
      else broadcast_to (if str_eq b.chain "" then "evm" else b.chain) b.raw_tx s

  -- `sign` of server.go.
  unfoldable pub sign : Option SignRequest → State W → Reply × State W
  sign none s = (record { status = 400; body = message bad_sign }, s)
  sign (some r) s =
      let (out, w) = srv.sign r s.world in
      let s' : State W = record s { world = w } in
      if length r.key_id == 0 || length r.message == 0
      then (record { status = 400; body = message bad_sign }, s)
      else elim out [
        | SignerClient.failed e ↦ (signer_fail e, s')
        | SignerClient.ok t ↦ (record { status = 200; body = signature t }, s')
      ]
