-- ===== src/EngineClient/Messages.antt =====
-- The messages of services/gateway/internal/engineclient/engineclient.go.
use chain_forge.Common.{ℕ, List, Option}
use chain_forge.Common.Int.{ℤ}

pub record Slot : Type 0 where
  pub key : List ℕ
  pub value : Option ℤ

pub record Account : Type 0 where
  pub address : List ℕ
  pub balance : Option ℤ
  pub nonce : ℕ
  pub code : List ℕ
  pub storage : List Slot

pub record SimRequest : Type 0 where
  pub chain_id : ℕ
  pub from : List ℕ
  pub to : Option (List ℕ)
  pub value : Option ℤ
  pub payload : List ℕ
  pub gas_limit : ℕ
  pub gas_price : Option ℤ
  pub state : List Account
  pub block_number : ℕ
  pub timestamp : ℕ

pub record Log : Type 0 where
  pub address : List ℕ
  pub topics : List (List ℕ)
  pub payload : List ℕ

pub record BalanceChange : Type 0 where
  pub address : List ℕ
  pub before : ℕ
  pub after : ℕ

-- `unset` is the empty string.
pub data Outcome : Type 0 where
  unset success revert halt : Outcome

pub record SimResult : Type 0 where
  pub outcome : Outcome
  pub gas_used : ℕ
  pub output : List ℕ
  pub reason : List ℕ
  pub logs : List Log
  pub balance_changes : List BalanceChange
  pub elapsed_us : ℕ
  pub created : Option (List ℕ)
