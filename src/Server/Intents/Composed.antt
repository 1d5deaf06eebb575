-- ===== src/Server/Intents/Composed.antt =====
-- The routes of services/gateway/internal/server/intents.go over the service of
-- services/gateway/internal/intent/intent.go.
use chain_forge.Common.{
  ℕ, ◌*◌, ◌/◌, ◌%◌, ◌^◌, ◌≤◌, ◌<◌, ◌==◌, ◌≡◌, ◌≢◌, refl, sym, ap, ◌∙◌, arith, Bool, max, List, [],
}
use chain_forge.Common.Int.{ℤ}
use chain_forge.Common.{if◌then◌else◌, Option, none, some, inl, inr, ◌⊎◌}
use chain_forge.EngineClient.{success, SimRequest, Simulated}
use chain_forge.Rpcx.{Node}
use chain_forge.Intent
use chain_forge.Intent.{Param, Decoders, Prepared}
use chain_forge.Intent.Steps
use chain_forge.Intent.Text.{decimal_text}
use chain_forge.Intent.Shown.{IsShownAddress, hex_text}
use chain_forge.Intent.Predicted.{IsPredicted, prepare_evm-IsPredicted}
use chain_forge.SignerClient
use chain_forge.SignerClient.{TxRequest, TxResponse}
use chain_forge.Server.Intents.{
  Services, State, Failure, Answer, ok, failed, IntentBody, do_intent, tx_request, signed_reply,
  evm_reply, evm_answer, signed,
}
use chain_forge.Server.Intents.Permission.{IsPermitted, with_signer, do_intent-IsPermitted}

unfoldable pub answer_of : (Steps.Fault → Failure) → Steps.Result Prepared → Answer Prepared
answer_of failure_of (Steps.ok p) = ok p
answer_of failure_of (Steps.err e) = failed (failure_of e)

answer_of-ok :
    (failure_of : Steps.Fault → Failure) (r : Steps.Result Prepared) (p : Prepared)
    → answer_of failure_of r ≡ ok p
    → r ≡ Steps.ok p
unfolding answer_of
answer_of-ok failure_of (Steps.ok q) p e = let same : q ≡ p = cc e in ap Steps.ok same
answer_of-ok failure_of (Steps.err x) p e = absurd (cc e)

module _ {W : Type 0} (node : Node Param W) (dec : Decoders)
    (simulate : SimRequest → W → Simulated × W) (max_gas : ℕ)
    (failure_of : Steps.Fault → Failure) where
  -- The services with the intent service for `PrepareEVM`.
  unfoldable pub with_intents : Services W → Services W
  with_intents srv = record srv {
    prepare_evm = λ r w.
        let (p, w') = Intent.prepare_evm node dec (some simulate) max_gas r w in
        (answer_of failure_of p, w');
  }

  -- What the signer is asked for is what the engine ran with success, field by field, and has the
  -- gas that was used; what it signs is put into the reply.
  pub record IsBacked {b : Option IntentBody} {s : State W} {srv : Services W} {allow_sign : Bool}
      (perm : IsPermitted srv allow_sign b s) : Type 0 where
    pub prediction :
        IsPredicted simulate
          (if max_gas == 0 then 30000000 else max_gas)
          perm.body.evm
          perm.prepared
    pub succeeded : prediction.result.outcome ≡ success
    pub asked : TxRequest
    pub key : perm.body.key_id ≡ some asked.key_id
    pub chain : asked.chain_id ≡ prediction.request.chain_id
    pub nonce : asked.nonce ≡ prediction.sender.nonce
    pub price : asked.gas_price ≡ decimal_text prediction.price
    pub to : (a : List ℕ) × (prediction.request.to ≡ some a) × (asked.to ≡ hex_text a)
    pub value : (v : ℤ) × (prediction.request.value ≡ some v) × (asked.value ≡ decimal_text v)
    pub payload : asked.payload ≡ hex_text prediction.request.payload
    pub gas : asked.gas_limit ≡ max 21000 (prediction.result.gas_used * 12 % 2 ^ 64 / 10)
    pub gas_used :
        prediction.result.gas_used < 2 ^ 60 → prediction.result.gas_used ≤ asked.gas_limit
    pub signed :
        (t : TxResponse)
        → (srv.sign_tx asked (srv.prepare_evm perm.body.evm s.world).1).0 ≡ SignerClient.ok t
        → (do_intent srv allow_sign b s).0 ≡ record {
          status = 200;
          body = evm_answer perm.prepared.tx perm.prepared.simulation (signed t);
        }

  addressed :
      (to : Option (List ℕ)) (t : List ℕ)
      → IsShownAddress to t
      → t ≢ []
      → (a : List ℕ) × (to ≡ some a) × (t ≡ hex_text a)
  unfolding IsShownAddress
  addressed none t e given = absurd (given e)
  addressed (some a) t e given = (a, refl, e)

  IsPermitted-IsBacked :
      (srv : Services W) (allow_sign : Bool) (b : Option IntentBody) (s : State W)
      (perm : IsPermitted (with_intents srv) allow_sign b s)
      → IsBacked perm
  unfolding with_intents tx_request signed_reply evm_reply
  IsPermitted-IsBacked srv allow_sign b s perm =
      let prediction =
        prepare_evm-IsPredicted node dec simulate max_gas perm.body.evm s.world perm.prepared
          (answer_of-ok failure_of _ perm.prepared perm.ready) in
      let succeeded : prediction.result.outcome ≡ success =
        sym prediction.simulation.outcome ∙ perm.predicted in
      record {
        prediction = prediction;
        succeeded = succeeded;
        asked = tx_request perm.key perm.prepared.tx;
        key = perm.asked;
        chain = prediction.chain_id.0;
        nonce = prediction.nonce;
        price = prediction.price_text;
        to =
            addressed prediction.request.to perm.prepared.tx.to prediction.recipient perm.recipient;
        value = (prediction.value, prediction.value_is, prediction.value_text);
        payload = prediction.payload;
        gas = prediction.gas_ran succeeded;
        gas_used = λ small. omega (arith, prediction.gas_ran succeeded, small);
        signed = λ t e. perm.reply ∙ ap (signed_reply (with_intents srv) perm.prepared) e;
      }

  -- On any body and whatever the node, the engine and the signer do: either the signer is not asked, in
  -- that any other signer would lead to the same reply and state; or the route signs and the body asks
  -- for it by a key. Then the signer is asked with that key for the transaction that the engine was asked
  -- for and ran with success, field by field: its chain, the sender's nonce, the address that it calls,
  -- the value, the payload, the price that was prepared, and as gas 12 tenths of what was used (as
  -- uint64), at least 21000, which covers what was used, if that is below 2 ^ 60. The reply holds what
  -- the signer signs.
  pub do_intent-IsBacked :
      (srv : Services W) (f : TxRequest → W → SignerClient.Result TxResponse × W)
      (allow_sign : Bool) (b : Option IntentBody) (s : State W)
      → ((perm : IsPermitted (with_intents srv) allow_sign b s) × IsBacked perm)
        ⊎ (do_intent (with_intents srv) allow_sign b s
            ≡ do_intent (with_signer (with_intents srv) f) allow_sign b s)
  do_intent-IsBacked srv f allow_sign b s =
      elim (do_intent-IsPermitted (with_intents srv) f allow_sign b s) [
        | inl perm ↦ inl (perm, IsPermitted-IsBacked srv allow_sign b s perm)
        | inr same ↦ inr same
      ]
