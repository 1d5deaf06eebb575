-- ===== src/Intent/Tests.antt =====
-- An intent, its transaction and its texts, and the theorems there.
use chain_forge.Common.{ℕ, ◌+◌, ◌≡◌, refl, if◌then◌else◌, ◌==◌, List, [], ◌∷◌, none, some}
use chain_forge.Common.Int.{negsuc}
use chain_forge.Common.Bytes.{bytes_eq}
use chain_forge.Rpcx
use chain_forge.Rpcx.{Node}
use chain_forge.EngineClient
use chain_forge.EngineClient.{SimRequest, SimResult, Simulated, answered, success}
use chain_forge.Indexer.Quantity.{digit_value}
use chain_forge.Webhook.{hex, hex_digit}
use chain_forge.Intent.{
  Param, Decoders, Prepared, prepare_evm, prepare_checked, call, qty, account, price_of, more_state,
}
use chain_forge.Intent.{
  of_rpc, quantity_of, head_numbers, simulated, result_of, sim_request, final_tx, final_gas,
}
use chain_forge.Intent.Steps.{ok, err, invalid, bad_value, ◌>>=◌}
use chain_forge.Intent.Text.{
  negated, has_0x, trim_0x, decode_hex, digits, some_digits, set_string, decimal_before,
  decimal_text, uint64,
}
use chain_forge.Intent.Checks.{
  EvmRequest, check, hex_addr, recipient, unsigned_word, decimal, payload_of, gas_limit_of,
}
use chain_forge.Intent.Views.{with_0x, created_text, view}
use chain_forge.Intent.Predicted.{IsPredicted, prepare_evm-IsPredicted}

program : Unit {0}
unfolding prepare_evm prepare_checked call qty account price_of more_state of_rpc quantity_of
    head_numbers bytes_eq simulated result_of sim_request final_tx final_gas Rpcx.call check
    hex_addr recipient unsigned_word decimal payload_of gas_limit_of has_0x trim_0x decode_hex
    digits some_digits set_string decimal_before decimal_text negated uint64 with_0x created_text
    view hex hex_digit digit_value ◌>>=◌
program = tt

-- A node that answers every call by "0x10".
abbrev node : Node Param ℕ
node = record {
  request = λ method params. some [];
  envelope = λ raw. some (record { result = b'0' ∷ b'x' ∷ b'1' ∷ b'0' ∷ []; error = none });
  send = λ body w. (some body, w + 1);
}

abbrev decoders : Decoders
decoders = record {
  string_of = λ raw. some raw;
  head_of = λ raw. some (record { number = raw; timestamp = raw });
  solana_of = λ raw. none;
}

abbrev result : SimResult
result = record EngineClient.empty_result { outcome = success; gas_used = 50000 }

abbrev engine : SimRequest → ℕ → Simulated × ℕ
engine r w = (answered (EngineClient.ok result), w)

abbrev address_text : List ℕ
address_text = with_0x EngineClient.zero_address

abbrev intent_of : List ℕ → EvmRequest
intent_of value = record {
  chain_id = 1;
  from = address_text;
  to = [];
  value = value;
  payload = b'0' ∷ b'x' ∷ b'f' ∷ b'f' ∷ [];
  gas_limit = 0;
  gas_price = [];
}

abbrev prepared : Prepared
prepared = record {
  tx = record {
    chain_id = 1;
    nonce = 16;
    gas_price = b'1' ∷ b'6' ∷ [];
    gas_limit = 60000;
    to = [];
    value = b'5' ∷ [];
    payload = b'0' ∷ b'x' ∷ b'f' ∷ b'f' ∷ [];
  };
  simulation = view result;
}

runs : (prepare_evm node decoders (some engine) 0 (intent_of (b'5' ∷ [])) 0).0 ≡ ok prepared
unfolding program
runs = refl

prepare_evm-IsPredicted_example :
    IsPredicted engine (if 0 == 0 then 30000000 else 0) (intent_of (b'5' ∷ [])) prepared
prepare_evm-IsPredicted_example =
    prepare_evm-IsPredicted node decoders engine 0 (intent_of (b'5' ∷ [])) 0 prepared runs

-- A negative value is refused before the node is asked.
refused :
    prepare_evm node decoders (some engine) 0 (intent_of (b'-' ∷ b'5' ∷ [])) 0
    ≡ (err (invalid bad_value), 0)
unfolding program
refused = refl

written : decimal_text (negsuc 41) ≡ b'-' ∷ b'4' ∷ b'2' ∷ []
unfolding program
written = refl

-- A quantity of the node may be negative.
negative_quantity : quantity_of (b'0' ∷ b'x' ∷ b'-' ∷ b'5' ∷ []) ≡ ok (negsuc 4)
unfolding program
negative_quantity = refl
