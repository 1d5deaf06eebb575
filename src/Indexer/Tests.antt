-- ===== src/Indexer/Tests.antt =====
-- A pass of the indexer over a chain whose stored blocks have gone stale, and its theorems there.
use chain_forge.Common.{none}
use chain_forge.Common.{
  ℕ, ◌+◌, ◌-◌, ◌≡◌, ◌≢◌, refl, arith, ap, String, leb, ◌==◌, if◌then◌else◌, str_eq,
}
use chain_forge.Common.{List, [], ◌∷◌, Option, some}
use chain_forge.Common.{replicate}
use chain_forge.Common.Int.{pos}
use chain_forge.EventLog
use chain_forge.EventLog.{Log, append, append_at, deliver, sum32}
use chain_forge.EventLog.Valid.{new-IsValid}
use chain_forge.Indexer.{
  Block, Source, Indexer, synced, stuck, found, not_found, sync, newest, blocks,
}
use chain_forge.Indexer.{
  verdict, extends, push, drop_oldest, next_number, and_then, emit, unwind, take_block,
}
use chain_forge.Indexer.{catch_up, sync_to}
use chain_forge.Indexer.Follow.{IsChain, IsLinked}
use chain_forge.Indexer.Publish.{Tracked, stored, sync-Tracked}
use chain_forge.Indexer.Catchup.{sync-ends}
use chain_forge.Indexer.Quantity.{parse_qty, format_qty, parse_digits, digit_value}
use chain_forge.Indexer.Still.{IsStill, sync-reaches_head}

abbrev name_of : ℕ → String
name_of n = if n == 4 then "0xd4" else if n == 5 then "0xe5" else if n == 6 then "0xf6" else "0xaa"

abbrev canon : ℕ → Block
canon n = record {
  number = n;
  hash = name_of n;
  parent_hash = name_of (n - 1);
  timestamp = 12;
  tx_count = 0;
}

abbrev node : Source ℕ
node = record {
  head = λ w. (some 6, w + 1);
  block = λ n w. (if leb n 6 then found (canon n) else not_found, w + 1);
}

node-IsStill : IsStill node 6 canon
node-IsStill = record {
  reports = λ w. refl;
  answers = λ n w word. refl;
  numbered = λ n low. refl;
  linked = λ n under. (let back : n + 1 - 1 ≡ n = omega arith in ap name_of back);
  below = omega arith;
}

abbrev raw : Block → List ℕ
raw b = b.number ∷ []

abbrev marshal : Block → Option (List ℕ)
marshal b = some (raw b)

abbrev stale : Block
stale = record { number = 5; hash = "0x5bad"; parent_hash = "0xd4"; timestamp = 12; tx_count = 0 }

abbrev log : Log
log = EventLog.new (pos 2)

abbrev ix : Indexer
ix = record { window = 2; chain = stale ∷ canon 4 ∷ []; log = log }

ix-IsChain : IsChain 2 (stale ∷ canon 4 ∷ [])
unfolding IsLinked extends str_eq
ix-IsChain = record { linked = (refl, (refl, tt)); bounded = omega arith }

program : Unit {0}
unfolding sync sync_to catch_up take_block unwind emit and_then next_number push drop_oldest extends
    verdict newest blocks stored EventLog.new append append_at deliver sum32 str_eq
program = tt

-- The stale tip goes, two blocks come, and the window of two drops the oldest.
passed : (sync node marshal ix 0).1.chain ≡ canon 6 ∷ canon 5 ∷ []
unfolding program
passed = refl

sync-Tracked_example :
    Tracked node marshal raw
      (λ b. refl)
      2
      ix.chain
      log
      (sync node marshal ix 0).0
      (stored (sync node marshal ix 0))
sync-Tracked_example =
    sync-Tracked node marshal raw (λ b. refl) ix 0 (new-IsValid (pos 2) (omega arith))

sync-ends_example : (sync node marshal ix 0).0 ≢ stuck
sync-ends_example = sync-ends node marshal ix 0 (λ head e. ground arith)

sync-reaches_head_example :
    ((sync node marshal ix 0).0 ≡ synced)
    × ((tip : Block) × (newest (sync node marshal ix 0).1 ≡ some tip) × (tip.hash ≡ "0xf6"))
sync-reaches_head_example =
    sync-reaches_head node marshal raw (λ b. refl) 6 canon node-IsStill ix 0 (omega arith)
      (omega arith, (omega arith, tt)) (new-IsValid (pos 2) (omega arith))

quantity : format_qty 255 ≡ b'0' ∷ b'x' ∷ b'f' ∷ b'f' ∷ []
unfolding format_qty
quantity = refl

too_long : parse_qty (b'0' ∷ b'x' ∷ replicate 17 b'f') ≡ none
unfolding parse_qty parse_digits digit_value
too_long = refl
