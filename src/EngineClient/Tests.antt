-- ===== src/EngineClient/Tests.antt =====
-- A request and a response of the engine, and the theorems there.
use chain_forge.Common.{ℕ, ◌≡◌, ◌≢◌, refl, arith, List, [], ◌∷◌, Option, none, some}
use chain_forge.Common.Int.{ℤ, pos, negsuc}
use chain_forge.PbWire
use chain_forge.PbWire.Entries.{put_entries, put_entry}
use chain_forge.PbWire.Optional.{opt_number, opt_bytes}
use chain_forge.EngineClient.{
  Slot, Account, SimRequest, SimResult, unset, success, Log, BalanceChange, zero_address,
}
use chain_forge.EngineClient.{
  ok, failed, stuck, encode, decode, no_outcome, word, add_slots, encode_account,
}
use chain_forge.EngineClient.{
  add_state, put_to, put_head, simulate, decode_with, each_field, result_field, be_bytes,
}
use chain_forge.EngineClient.Requests.{
  IsWord, HasWords, request_entries, account_entries, slot_entries, word_bytes, to_entries,
}
use chain_forge.EngineClient.Refusals.{AreWords, IsSized, encode-request}
use chain_forge.EngineClient.Parts.{IsLog, IsChange, log_entries, change_entries}
use chain_forge.EngineClient.Responses.{
  IsResult, IsCreated, result_entries, outcome_code, created_entries, decode-result_entries,
}
use chain_forge.EngineClient.Numbers.{word_bytes32}
use chain_forge.EngineClient.Ends.{decode-ends}

program : Unit {0}
unfolding PbWire.put_varint PbWire.get_varint PbWire.put_uint PbWire.put_raw PbWire.put_raw_always
    PbWire.next PbWire.body_of be_bytes word add_slots encode_account add_state put_to put_head
    encode put_entries put_entry opt_number opt_bytes decode decode_with each_field result_field
    IsWord HasWords request_entries account_entries slot_entries word_bytes to_entries log_entries
    change_entries IsCreated result_entries outcome_code created_entries simulate word_bytes32
program = tt

abbrev slot : Slot
slot = record { key = 1 ∷ []; value = some (pos 7) }

abbrev account : Account
account = record {
  address = 9 ∷ [];
  balance = some (pos 300);
  nonce = 2;
  code = [];
  storage = slot ∷ [];
}

abbrev request_of : Option ℤ → SimRequest
request_of v = record {
  chain_id = 1;
  from = 5 ∷ [];
  to = some (6 ∷ []);
  value = v;
  payload = [];
  gas_limit = 21000;
  gas_price = none;
  state = account ∷ [];
  block_number = 8;
  timestamp = 0;
}

abbrev request : SimRequest
request = request_of (some (pos 0))

negative_refused : encode (request_of (some (negsuc 0))) ≡ none
unfolding program
negative_refused = refl

abbrev written : List ℕ
written =
    8 ∷ 1 ∷ 18 ∷ 1 ∷ 5 ∷ 26 ∷ 1 ∷ 6 ∷ 48 ∷ 136 ∷ 164 ∷ 1 ∷ 66 ∷ 17 ∷ 10 ∷ 1 ∷ 9 ∷ 18 ∷ 2 ∷ 1 ∷ 44
    ∷ 24 ∷ 2 ∷ 42 ∷ 6 ∷ 10 ∷ 1 ∷ 1 ∷ 18 ∷ 1 ∷ 7 ∷ 72 ∷ 8 ∷ []

encodes : encode request ≡ some written
unfolding program
encodes = refl

request-AreWords : AreWords request
unfolding program
request-AreWords = record {
  value = omega arith;
  gas_price = tt;
  state = ((omega arith, (omega arith, tt)), tt);
}

request-IsSized : IsSized request
unfolding program
request-IsSized = record {
  chain_id = omega arith;
  gas_limit = omega arith;
  block_number = omega arith;
  timestamp = omega arith;
  from = omega arith;
  to = λ a e. ground (arith, e);
  payload = omega arith;
  state = (omega arith, tt);
}

encode-request_example :
    (AreWords request → encode request ≡ some (put_entries [] (request_entries request)))
    × ((b : List ℕ) → encode request ≡ some b → AreWords request)
encode-request_example = encode-request request

abbrev log : Log
log = record { address = zero_address; topics = (7 ∷ []) ∷ (8 ∷ 9 ∷ []) ∷ []; payload = 1 ∷ 2 ∷ [] }

abbrev change : BalanceChange
change = record { address = zero_address; before = 300; after = 0 }

abbrev result : SimResult
result = record {
  outcome = success;
  gas_used = 21000;
  output = 1 ∷ [];
  reason = [];
  logs = log ∷ log ∷ [];
  balance_changes = change ∷ [];
  elapsed_us = 5;
  created = some zero_address;
}

log-IsLog : IsLog log
log-IsLog = record {
  address = refl;
  topics = (omega arith, (omega arith, tt));
  payload = omega arith;
}

change-IsChange : IsChange change
change-IsChange = record { address = refl; before = omega arith; after = omega arith }

result-IsResult : IsResult result
unfolding program
result-IsResult = record {
  outcome = λ e. cc;
  gas_used = omega arith;
  output = omega arith;
  reason = omega arith;
  logs = ((log-IsLog, omega arith), ((log-IsLog, omega arith), tt));
  balance_changes = ((change-IsChange, omega arith), tt);
  elapsed_us = omega arith;
  created = refl;
}

decode-result_entries_example : decode (put_entries [] (result_entries result)) ≡ ok result
decode-result_entries_example = decode-result_entries result result-IsResult

-- A message with no outcome.
decode-ends_example :
    (decode (16 ∷ 5 ∷ []) ≢ stuck)
    × ((r : SimResult) → decode (16 ∷ 5 ∷ []) ≡ ok r → r.outcome ≢ unset)
decode-ends_example = decode-ends (16 ∷ 5 ∷ [])

no_outcome_refused : decode (16 ∷ 5 ∷ []) ≡ failed no_outcome
unfolding program
no_outcome_refused = refl
