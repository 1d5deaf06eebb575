-- ===== src/Server/Intents/Tests.antt =====
-- A gateway whose engine and signer answer, and the theorem there.
use chain_forge.Common.{ℕ, ◌+◌, ◌≡◌, refl, true, List, [], ◌∷◌, none, some, ◌⊎◌, str_eq}
use chain_forge.Common.Bytes.{bytes_eq}
use chain_forge.Rpcx
use chain_forge.Rpcx.{Node}
use chain_forge.EngineClient
use chain_forge.EngineClient.{SimRequest, SimResult, Simulated, answered, success}
use chain_forge.Intent
use chain_forge.Intent.{Param, Decoders, Prepared}
use chain_forge.Intent.Text.{
  has_0x, trim_0x, decode_hex, digits, some_digits, set_string, decimal_before, decimal_text,
  uint64,
}
use chain_forge.Intent.Checks.{
  EvmRequest, check, hex_addr, recipient, unsigned_word, decimal, payload_of, gas_limit_of,
}
use chain_forge.Intent.Views.{with_0x, created_text, view}
use chain_forge.Intent.Steps.{◌>>=◌}
use chain_forge.Indexer.Quantity.{digit_value}
use chain_forge.Webhook.{hex, hex_digit}
use chain_forge.SignerClient
use chain_forge.SignerClient.{TxRequest, TxResponse}
use chain_forge.Server.Intents.{
  Services, State, other, failed, IntentBody, do_intent, by_chain, do_evm, finish_evm,
  sign_prepared, refusal, evm_reply, signed_reply, tx_request,
}
use chain_forge.Server.Intents.Permission.{IsPermitted, with_signer}
use chain_forge.Server.Intents.Composed.{IsBacked, with_intents, answer_of, do_intent-IsBacked}

program : Unit {0}
unfolding do_intent by_chain do_evm finish_evm sign_prepared refusal evm_reply signed_reply
    tx_request answer_of with_intents Intent.prepare_evm Intent.prepare_checked Intent.call
    Intent.qty Intent.account Intent.price_of Intent.more_state Intent.of_rpc Intent.quantity_of
    Intent.head_numbers bytes_eq Intent.simulated Intent.result_of Intent.sim_request
    Intent.final_tx Intent.final_gas Rpcx.call check hex_addr recipient unsigned_word decimal
    payload_of gas_limit_of has_0x trim_0x decode_hex digits some_digits set_string decimal_before
    decimal_text uint64 with_0x created_text view hex hex_digit digit_value ◌>>=◌ str_eq
program = tt

-- A node that answers every call by "0x10".
abbrev node : Node Param ℕ
node = record {
  request = λ method params. some [];
  envelope = λ raw. some (record { result = b'0' ∷ b'x' ∷ b'1' ∷ b'0' ∷ []; error = none });
  send = λ body w. (some body, w);
}

abbrev decoders : Decoders
decoders = record {
  string_of = λ raw. some raw;
  head_of = λ raw. some (record { number = raw; timestamp = raw });
  solana_of = λ raw. none;
}

abbrev result : SimResult
result = record EngineClient.empty_result { outcome = success; gas_used = 50000 }

abbrev engine : SimRequest → ℕ → Simulated × ℕ
engine r w = (answered (EngineClient.ok result), w)

-- The world counts the calls of the signer.
abbrev signer : TxRequest → ℕ → SignerClient.Result TxResponse × ℕ
signer r w = (
  SignerClient.ok (record { address = []; signing_hash = []; raw_tx = r.payload; tx_hash = [] }),
  w + 1,
)

abbrev services : Services ℕ
services = record {
  configured = true;
  prepare_evm = λ r w. (failed other, w);
  simulate_solana = λ tx w. (failed other, w);
  sign_tx = signer;
  sign = λ r w. (SignerClient.failed SignerClient.broken, w);
  relay = λ chain. none;
}

abbrev address_text : List ℕ
address_text = with_0x EngineClient.zero_address

abbrev intent : EvmRequest
intent = record {
  chain_id = 1;
  from = address_text;
  to = address_text;
  value = b'5' ∷ [];
  payload = [];
  gas_limit = 0;
  gas_price = [];
}

abbrev body : IntentBody
body = record { chain = "evm"; evm = intent; tx = []; key_id = some (b'k' ∷ []) }

abbrev start : State ℕ
start = record { counts = []; engine_elapsed_us = 0; world = 0 }

signed_once :
    (do_intent
      (with_intents node decoders engine 0 (λ e. other) services)
      true
      (some body)
      start).1.world
    ≡ 1
unfolding program
signed_once = refl

-- A signer that signs nothing.
abbrev no_signer : TxRequest → ℕ → SignerClient.Result TxResponse × ℕ
no_signer r w = (SignerClient.failed SignerClient.broken, w)

do_intent-IsBacked_example :
    ((perm : IsPermitted
        (with_intents node decoders engine 0 (λ e. other) services)
        true
        (some body)
        start)
      × IsBacked node decoders engine 0 (λ e. other) perm)
    ⊎ (do_intent (with_intents node decoders engine 0 (λ e. other) services) true (some body) start
        ≡ do_intent
            (with_signer (with_intents node decoders engine 0 (λ e. other) services) no_signer)
            true
            (some body)
            start)
do_intent-IsBacked_example =
    do_intent-IsBacked node decoders engine 0 (λ e. other) services no_signer true (some body) start
