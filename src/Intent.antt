-- ===== src/Intent.antt =====
-- services/gateway/internal/intent/intent.go: from an intent to a simulated, priced transaction. The node
-- is a `Rpcx.Node`, the engine a function over the states `W` of the world outside; texts are lists of
-- bytes, and a map of parameters is its pairs. The decoders of JSON results are the record `Decoders`.
pub mod Steps
pub mod Text
pub mod Checks
pub mod Views
pub mod Sound
pub mod Shown
pub mod Predicted
pub mod RoundTrip
mod Tests
use chain_forge.Common.{
  ℕ, zero, suc, ◌+◌, ◌-◌, ◌*◌, ◌/◌, ◌%◌, ◌^◌, ◌==◌, ◌&&◌, ◌||◌, not, Bool, true, false, ltb, leb,
  min, max,
}
use chain_forge.Common.{if◌then◌else◌, List, [], ◌∷◌, ◌++◌, map, length, Option, none, some, String}
use chain_forge.Common.Int.{ℤ, pos, negsuc}
use chain_forge.Common.Bytes.{bytes_eq}
use chain_forge.Webhook.{hex}
use chain_forge.Rpcx
use chain_forge.Rpcx.{Node}
use chain_forge.EngineClient
use chain_forge.EngineClient.{
  Account, SimRequest, SimResult, Log, BalanceChange, Outcome, Simulated, unencodable, unreachable,
  answered,
}
use chain_forge.Intent.Steps.{
  Run, Result, ok, err, Fault, Invalid, invalid, rpc, bad_quantity, bad_code, bad_head,
  no_simulation,
}
use chain_forge.Intent.Steps.{
  not_configured, no_chain_id, bad_from, bad_to, bad_value, bad_payload, bad_gas_price, bad_tx,
  above_ceiling,
}
use chain_forge.Intent.Steps.{◌>>=◌, lift}
use chain_forge.Intent.Checks.{EvmRequest, Checked, check, decimal}
use chain_forge.Intent.Views.{Simulation, view, with_0x, created_text}
use chain_forge.Intent.Text.{
  has_0x, trim_0x, decode_hex, set_string, decimal_text, uint64, difference,
}

pub data Setting : Type 0 where
  word : List ℕ → Setting
  switch : Bool → Setting

-- A parameter of a call: a text, a Boolean, or an object.
pub data Param : Type 0 where
  text : List ℕ → Param
  flag : Bool → Param
  options : List (String × Setting) → Param

pub record Tx : Type 0 where
  pub chain_id : ℕ
  pub nonce : ℕ
  pub gas_price : List ℕ
  pub gas_limit : ℕ
  pub to : List ℕ
  pub value : List ℕ
  pub payload : List ℕ

pub record Prepared : Type 0 where
  pub tx : Tx
  pub simulation : Simulation

-- The part of `eth_getBlockByNumber` that is read.
pub record Head : Type 0 where
  pub number : List ℕ
  pub timestamp : List ℕ

-- The `value` of `simulateTransaction`; no logs are a null.
pub record SolanaValue : Type 0 where
  pub fault : List ℕ
  pub logs : List (List ℕ)
  pub units_consumed : ℕ

pub record Decoders : Type 0 where
  pub string_of : List ℕ → Option (List ℕ)
  pub head_of : List ℕ → Option Head
  pub solana_of : List ℕ → Option SolanaValue

unfoldable pub of_rpc : {A : Type 0} → Rpcx.Result A → Result A
of_rpc (Rpcx.ok a) = ok a
of_rpc (Rpcx.failed e) = err (rpc e)

unfoldable pub quantity_of : List ℕ → Result ℤ
quantity_of s = elim (set_string 16 (trim_0x s)) [
  | none ↦ err bad_quantity
  | some v ↦ if has_0x s then ok v else err bad_quantity
]

unfoldable pub head_numbers : Head → Result (ℕ × ℕ)
head_numbers h = elim (set_string 16 (trim_0x h.number)) [
  | none ↦ err bad_head
  | some n ↦ elim (set_string 16 (trim_0x h.timestamp)) [
    | none ↦ err bad_head
    | some t ↦ ok (uint64 n, uint64 t)
  ]
]

-- 20 per cent above the measured use, on 64 bits, once the simulation succeeds.
unfoldable pub final_gas : Outcome → ℕ → ℕ → ℕ
final_gas EngineClient.success limit used = max 21000 (used * 12 % 2 ^ 64 / 10)
final_gas _ limit used = limit

unfoldable pub result_of : Simulated → Result SimResult
result_of (answered (EngineClient.ok r)) = ok r
result_of _ = err no_simulation

-- What is simulated, and what is signed thereafter.
unfoldable pub sim_request : ℕ → Checked → ℕ × ℕ → List Account → SimRequest
sim_request chain_id c (number, stamp) state = record {
  chain_id = chain_id;
  from = c.from;
  to = c.to;
  value = some c.value;
  payload = c.payload;
  gas_limit = c.gas_limit;
  gas_price = some (pos 0);
  state = state;
  block_number = number;
  timestamp = stamp;
}

unfoldable pub final_tx : ℕ → Checked → ℕ → ℤ → SimResult → Tx
final_tx chain_id s nonce price res = record {
  chain_id = chain_id;
  nonce = nonce;
  gas_price = decimal_text price;
  gas_limit = final_gas res.outcome s.gas_limit res.gas_used;
  to = created_text s.to;
  value = decimal_text s.value;
  payload = with_0x s.payload;
}

-- `simulate` with its answer as a result.
unfoldable pub simulated :
    {W : Type 0} → (SimRequest → W → Simulated × W) → SimRequest → Run W SimResult
simulated simulate r w = let (s, w') = simulate r w in (result_of s, w')

abbrev latest : List ℕ
latest = b'l' ∷ b'a' ∷ b't' ∷ b'e' ∷ b's' ∷ b't' ∷ []

-- The configuration of `simulateTransaction`.
abbrev simulation_options : List (String × Setting)
simulation_options =
    ("encoding", word (b'b' ∷ b'a' ∷ b's' ∷ b'e' ∷ b'6' ∷ b'4' ∷ []))
    ∷ ("sigVerify", switch false)
    ∷ ("replaceRecentBlockhash", switch true)
    ∷ ("commitment", word (b'c' ∷ b'o' ∷ b'n' ∷ b'f' ∷ b'i' ∷ b'r' ∷ b'm' ∷ b'e' ∷ b'd' ∷ []))
    ∷ []

pub record SolanaSim : Type 0 where
  pub success : Bool
  pub fault : List ℕ
  pub logs : List (List ℕ)
  pub units_consumed : ℕ

-- `string(out.Value.Err) == "null"`
unfoldable pub is_null : List ℕ → Bool
is_null (a ∷ b ∷ c ∷ d ∷ []) = a == b'n' && b == b'u' && c == b'l' && d == b'l'
is_null _ = false

unfoldable pub solana_view : SolanaValue → SolanaSim
solana_view v =
    let success = length v.fault == 0 || is_null v.fault in
    record {
      success = success;
      fault = if success then [] else v.fault;
      logs = v.logs;
      units_consumed = v.units_consumed;
    }

module _ {W : Type 0} (node : Node Param W) (dec : Decoders) where
  unfoldable pub call : {A : Type 0} → (List ℕ → Option A) → String → List Param → Run W A
  call decode method params w =
      let (r, w') = Rpcx.call node decode method params w in (of_rpc r, w')

  unfoldable pub qty : String → List Param → Run W ℤ
  qty method params = do s ← call dec.string_of method params; lift (quantity_of s)

  code_of : List ℕ → Result (List ℕ)
  code_of s = elim (decode_hex (trim_0x s)) [ none ↦ err bad_code | some b ↦ ok b ]

  unfoldable pub account : List ℕ → Run W Account
  unfolding code_of
  account a = do
    let at_latest = text (with_0x a) ∷ text latest ∷ []
    bal ← qty "eth_getBalance" at_latest
    nonce ← qty "eth_getTransactionCount" at_latest
    code ← call dec.string_of "eth_getCode" at_latest
    cb ← lift (code_of code)
    lift (
        ok (record {
          address = a;
          balance = some bal;
          nonce = uint64 nonce;
          code = cb;
          storage = [];
        }))

  -- The price that is given, or the node's.
  unfoldable pub price_of : List ℕ → Run W ℤ
  price_of [] = qty "eth_gasPrice" []
  price_of (c ∷ s) = lift (decimal bad_gas_price (c ∷ s))

  -- The account of the recipient, unless it is the sender.
  unfoldable pub more_state : List ℕ → Option (List ℕ) → Run W (List Account)
  more_state from none = lift (ok [])
  more_state from (some a) =
      if bytes_eq a from then lift (ok []) else (do acct ← account a; lift (ok (acct ∷ [])))

  -- `PrepareEVM` with a simulator, behind the checks of the intent.
  unfoldable pub prepare_checked :
      (SimRequest → W → Simulated × W) → EvmRequest → Checked → Run W Prepared
  prepare_checked simulate r c = do
    price ← price_of r.gas_price
    head ← call dec.head_of "eth_getBlockByNumber" (text latest ∷ flag false ∷ [])
    numbers ← lift (head_numbers head)
    sender ← account c.from
    more ← more_state c.from c.to
    res ← simulated simulate (sim_request r.chain_id c numbers (sender ∷ more))
    lift (ok (record { tx = final_tx r.chain_id c sender.nonce price res; simulation = view res }))

  -- `PrepareEVM`, for the ceiling of gas that is configured, 0 for 30 millions.
  unfoldable pub prepare_evm :
      Option (SimRequest → W → Simulated × W) → ℕ → EvmRequest → Run W Prepared
  prepare_evm none max_gas r = lift (err (invalid not_configured))
  prepare_evm (some simulate) max_gas r = do
    c ← lift (check (if max_gas == 0 then 30000000 else max_gas) r)
    prepare_checked simulate r c

  -- The call of `SimulateSolana`, behind the test of its text.
  unfoldable pub simulate_checked : List ℕ → Run W SolanaSim
  simulate_checked tx = do
    v ← call dec.solana_of "simulateTransaction" (text tx ∷ options simulation_options ∷ [])
    lift (ok (solana_view v))

  -- `SimulateSolana`, with the decoder of encoding/base64.
  unfoldable pub simulate_solana : (List ℕ → Option (List ℕ)) → List ℕ → Run W SolanaSim
  simulate_solana decode_base64 tx = elim (decode_base64 tx) [
    | none ↦ lift (err (invalid bad_tx))
    | some [] ↦ lift (err (invalid bad_tx))
    | some (b ∷ bs) ↦ simulate_checked tx
  ]
