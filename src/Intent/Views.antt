-- ===== src/Intent/Views.antt =====
-- The texts of a result of the engine in services/gateway/internal/intent/intent.go.
use chain_forge.Common.{ℕ, List, [], ◌∷◌, map, Option, none, some}
use chain_forge.Common.Int.{pos}
use chain_forge.Webhook.{hex}
use chain_forge.EngineClient.{SimResult, Log, BalanceChange, Outcome}
use chain_forge.Intent.Text.{decimal_text, difference}

pub record LogView : Type 0 where
  pub address : List ℕ
  pub topics : List (List ℕ)
  pub payload : List ℕ

pub record ChangeView : Type 0 where
  pub address : List ℕ
  pub before : List ℕ
  pub after : List ℕ
  pub delta : List ℕ

pub record Simulation : Type 0 where
  pub outcome : Outcome
  pub gas_used : ℕ
  pub output : List ℕ
  pub reason : List ℕ
  pub logs : List LogView
  pub balance_changes : List ChangeView
  pub elapsed_us : ℕ
  pub created : List ℕ

-- `"0x" + hex.EncodeToString(b)`
unfoldable pub with_0x : List ℕ → List ℕ
with_0x b = b'0' ∷ b'x' ∷ hex b

-- The views of a result.
unfoldable pub log_view : Log → LogView
log_view l = record {
  address = with_0x l.address;
  topics = map with_0x l.topics;
  payload = with_0x l.payload;
}

unfoldable pub change_view : BalanceChange → ChangeView
change_view c = record {
  address = with_0x c.address;
  before = decimal_text (pos c.before);
  after = decimal_text (pos c.after);
  delta = decimal_text (difference c.after c.before);
}

unfoldable pub created_text : Option (List ℕ) → List ℕ
created_text none = []
created_text (some a) = with_0x a

unfoldable pub view : SimResult → Simulation
view r = record {
  outcome = r.outcome;
  gas_used = r.gas_used;
  output = with_0x r.output;
  reason = r.reason;
  logs = map log_view r.logs;
  balance_changes = map change_view r.balance_changes;
  elapsed_us = r.elapsed_us;
  created = created_text r.created;
}
