-- ===== src/Indexer.antt =====
-- services/gateway/internal/indexer/indexer.go: the indexer, which follows the head of the chain
-- and publishes to the event log. The stored chain is a list with the newest block first. A node
-- is the record `Source` over the states `W` of the world outside; encoding/json is `marshal`.
pub mod Emits
pub mod Follow
pub mod Publish
pub mod Catchup
pub mod Still
pub mod Quantity
pub mod Rpc
mod Tests
use chain_forge.Common.{ℕ, zero, suc, ◌+◌, ◌-◌, ◌%◌, ◌^◌, Bool, true, false, ltb, leb, str_eq}
use chain_forge.Common.{
  if◌then◌else◌, List, [], ◌∷◌, length, take, Option, none, some, String, min, max,
}
use chain_forge.Common.Int.{ℤ, clip}
use chain_forge.EventLog
use chain_forge.EventLog.{Log, append}

pub record Block : Type 0 where
  pub number : ℕ
  pub hash : String
  pub parent_hash : String
  pub timestamp : ℕ
  pub tx_count : ℕ

-- What a query for a block may return: `not_found` is `ErrNotFound`, `fails` any other error.
pub data Answer : Type 0 where
  found : Block → Answer
  not_found fails : Answer

pub record Source (W : Type 0) : Type 0 where
  pub head : W → Option ℕ × W
  pub block : ℕ → W → Answer × W

pub record Indexer : Type 0 where
  pub window : ℕ
  pub chain : List Block
  pub log : Log

unfoldable pub new : Log → ℤ → Indexer
new log window = record { window = max (clip window) 1; chain = []; log = log }

-- How `Sync` ends: `synced` is a nil error, and `stuck` marks a loop that ran out of fuel.
pub data Outcome : Type 0 where
  synced source_error parent_mismatch panicked stuck : Outcome

-- The variables of `Sync` between its steps.
pub record At (W : Type 0) : Type 0 where
  pub chain : List Block
  pub log : Log
  pub world : W

-- The key "chain".
abbrev pub chain_key : List ℕ
chain_key = b'c' ∷ b'h' ∷ b'a' ∷ b'i' ∷ b'n' ∷ []

-- What the answer to a query for the stored tip says of it.
pub data Verdict : Type 0 where
  stays gone unknown : Verdict

unfoldable pub verdict : Block → Answer → Verdict
verdict tip (found b) = if str_eq b.hash tip.hash then stays else gone
verdict tip not_found = gone
verdict tip fails = unknown

-- Whether the check of the parent hash passes.
unfoldable pub extends : Block → List Block → Bool
extends b [] = true
extends b (tip ∷ _) = str_eq b.parent_hash tip.hash

unfoldable pub drop_oldest {ℓ} : {A : Type ℓ} → List A → List A
drop_oldest [] = []
drop_oldest (x ∷ []) = []
drop_oldest (x ∷ y ∷ ys) = x ∷ drop_oldest (y ∷ ys)

unfoldable pub push : ℕ → Block → List Block → List Block
push window b chain =
    let longer : List Block = b ∷ chain in
    if ltb window (length longer) then drop_oldest longer else longer

-- The first number that is fetched after the unwinding.
unfoldable pub next_number : ℕ → ℕ → List Block → ℕ
next_number window head [] =
    let end = (head + 1) % 2 ^ 64 in if ltb window end then end - window else 0
next_number window head (tip ∷ _) = (tip.number + 1) % 2 ^ 64

-- `none` is a panic of the log.
unfoldable pub emit : (Block → Option (List ℕ)) → Log → String → Block → Option Log
emit marshal log typ b = elim (append marshal log chain_key typ b) [
  | EventLog.ok (_, log') ↦ some log'
  | EventLog.json_error ↦ some log
  | EventLog.panics ↦ none
]

-- An error returns from `Sync`; else it goes on.
unfoldable pub and_then : {W : Type 0} → Outcome × At W → Outcome × At W → Outcome × At W
and_then (synced, s) more = more
and_then (o, s) more = (o, s)

module _ {W : Type 0} (src : Source W) (marshal : Block → Option (List ℕ)) where
  -- The first loop of `Sync`: until the stored tip is canonical again.
  unfoldable pub unwind : List Block → Log → W → Outcome × At W
  unwind [] log w = (synced, record { chain = []; log = log; world = w })
  unwind (tip ∷ rest) log w =
      let (a, w') = src.block tip.number w in
      elim (verdict tip a) [
        | stays ↦ (synced, record { chain = tip ∷ rest; log = log; world = w' })
        | unknown ↦ (source_error, record { chain = tip ∷ rest; log = log; world = w' })
        | gone ↦ elim (emit marshal log "block.reorged" tip) [
          | none ↦ (panicked, record { chain = rest; log = log; world = w' })
          | some log' ↦ unwind rest log' w'
        ]
      ]

  -- One round of the second loop, on the answer to its query.
  unfoldable pub take_block : ℕ → At W → Answer → W → Outcome × At W
  take_block window s (found b) w =
      let pushed = push window b s.chain in
      let added : Outcome × At W = elim (emit marshal s.log "block.new" b) [
        | none ↦ (panicked, record { chain = pushed; log = s.log; world = w })
        | some log' ↦ (synced, record { chain = pushed; log = log'; world = w })
      ] in
      if extends b s.chain
      then added
      else (parent_mismatch, record { chain = s.chain; log = s.log; world = w })
  take_block window s _ w = (source_error, record { chain = s.chain; log = s.log; world = w })

  -- The second loop, on fuel: the numbers from `n` to `head`.
  unfoldable pub catch_up : ℕ → ℕ → ℕ → ℕ → At W → Outcome × At W
  catch_up window head zero n s = (stuck, s)
  catch_up window head (suc fuel) n s =
      let (a, w) = src.block n s.world in
      let r = take_block window s a w in
      let rest = catch_up window head fuel ((n + 1) % 2 ^ 64) r.1 in
      if ltb head n then (synced, s) else and_then r rest

  -- `Sync` behind its query for the head.
  unfoldable pub sync_to : ℕ → Indexer → W → Outcome × At W
  sync_to head ix w =
      let r = unwind ix.chain ix.log w in
      let n = next_number ix.window head r.1.chain in
      and_then r (catch_up ix.window head (suc (head + 1 - n)) n r.1)

  -- The chain is stored however the pass ends.
  unfoldable pub sync : Indexer → W → Outcome × Indexer × W
  sync ix w =
      let (h, w') = src.head w in
      elim h [
        | none ↦ (source_error, ix, w')
        | some head ↦
            let (o, s) = sync_to head ix w' in
            (o, record { window = ix.window; chain = s.chain; log = s.log }, s.world)
      ]

unfoldable pub blocks : Indexer → ℤ → List Block
blocks ix limit = take (min (clip limit) (length ix.chain)) ix.chain

unfoldable pub newest : Indexer → Option Block
newest ix = elim ix.chain [ [] ↦ none | (tip ∷ _) ↦ some tip ]
