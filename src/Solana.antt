-- ===== src/Solana.antt =====
-- services/gateway/internal/solana/solana.go: a Solana node as a source of blocks for the indexer.
-- Every query is a `call` of Rpcx; the constant configuration objects of the queries are
-- constructors of `Param`, and the decoders of the results are the record `Decoders`.
pub mod Heights
mod Tests
use chain_forge.Common.{ℕ, zero, suc, ◌+◌, ◌-◌, ◌==◌, Bool, true, false, ltb, leb, if◌then◌else◌}
use chain_forge.Common.{List, [], ◌∷◌, length, get_elem?, Option, none, some, String}
use chain_forge.Indexer.{Block}
use chain_forge.Rpcx
use chain_forge.Rpcx.{Node, Result, ok, failed}

pub data Param : Type 0 where
  confirmed block_config : Param
  number : ℕ → Param

pub record RawBlock : Type 0 where
  pub blockhash : String
  pub previous_blockhash : String
  pub block_height : Option ℕ
  pub block_time : Option ℕ
  pub signatures : List String

pub record Decoders : Type 0 where
  pub uint : List ℕ → Option ℕ
  pub uints : List ℕ → Option (List ℕ)
  pub raw_block : List ℕ → Option RawBlock

abbrev pub default_lookback : ℕ
default_lookback = 512

-- What `Block` returns: `missing` is `ErrNotFound`, `mismatch` is `ErrParentMismatch`, `outside` the
-- error of the lookback window; `panics` is an index out of range.
pub data Resolved : Type 0 where
  resolved : Block → Resolved
  missing mismatch outside panics : Resolved
  fault : Rpcx.Fault → Resolved

-- The first slot that is scanned.
unfoldable pub first_slot : ℕ → ℕ → ℕ
first_slot lookback slot =
    let look = if lookback == 0 then default_lookback else lookback in
    if ltb look slot then slot - look else 0

time_of : Option ℕ → ℕ
time_of none = 0
time_of (some t) = t

-- The check of the height, and the block.
unfoldable pub checked : ℕ → RawBlock → Resolved
unfolding time_of
checked height raw = elim raw.block_height [
  | none ↦ mismatch
  | some h ↦
      if h == height
      then resolved (record {
        number = height;
        hash = raw.blockhash;
        parent_hash = raw.previous_blockhash;
        timestamp = time_of raw.block_time;
        tx_count = length raw.signatures;
      })
      else mismatch
]

module _ {W : Type 0} (node : Node Param W) (dec : Decoders) where
  unfoldable pub head : W → Result ℕ × W
  head w = Rpcx.call node dec.uint "getBlockHeight" (confirmed ∷ []) w

  unfoldable pub get_slot : W → Result ℕ × W
  get_slot w = Rpcx.call node dec.uint "getSlot" (confirmed ∷ []) w

  unfoldable pub get_blocks : ℕ → ℕ → W → Result (List ℕ) × W
  get_blocks from slot w =
      Rpcx.call node dec.uints "getBlocks" (number from ∷ number slot ∷ confirmed ∷ []) w

  unfoldable pub get_block : ℕ → W → Result RawBlock × W
  get_block slot w = Rpcx.call node dec.raw_block "getBlock" (number slot ∷ block_config ∷ []) w

  -- The last query, for the slot that lies `back` slots with a block before the newest.
  unfoldable pub fetch : ℕ → ℕ → List ℕ → W → Resolved × W
  fetch height back slots w = elim (get_elem? slots (length slots - 1 - back)) [
    | none ↦ (panics, w)
    | some slot ↦
        let (r, w') = get_block slot w in
        elim r [ ok raw ↦ (checked height raw, w') | failed e ↦ (fault e, w') ]
  ]

  -- `Block` once the head is known.
  unfoldable pub block_below : ℕ → ℕ → ℕ → W → Resolved × W
  block_below lookback top height w =
      let (s, w') = get_slot w in
      elim s [
        | failed e ↦ (fault e, w')
        | ok slot ↦
            let (l, w'') = get_blocks (first_slot lookback slot) slot w' in
            elim l [
              | failed e ↦ (fault e, w'')
              | ok slots ↦
                  if leb (length slots) (top - height)
                  then (outside, w'')
                  else fetch height (top - height) slots w''
            ]
      ]

  unfoldable pub block : ℕ → ℕ → W → Resolved × W
  block lookback height w =
      let (h, w') = head w in
      elim h [
        | failed e ↦ (fault e, w')
        | ok top ↦ if ltb top height then (missing, w') else block_below lookback top height w'
      ]
