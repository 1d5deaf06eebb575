-- ===== src/Chainsim.antt =====
-- services/gateway/internal/chainsim/chainsim.go: the chain of the simulated node, newest block last, and how
-- blocks are mined and replaced. A word of 64 bits is written as its eight bytes.
pub mod Chain
pub mod Handle
pub mod Answers
pub mod Followed
mod FollowedTests
mod Tests
use chain_forge.Common.{ℕ, zero, suc, ◌+◌, ◌-◌, ◌*◌, ◌/◌, ◌%◌, ◌^◌, Bool, leb, if◌then◌else◌}
use chain_forge.Common.{List, [], ◌∷◌, ◌++◌, length, take, Option, none, some}
use chain_forge.Common.Int.{ℤ, pos, negsuc}
use chain_forge.Keccak.{sum256}

abbrev pub block_time : ℕ
block_time = 12

abbrev pub genesis_time : ℕ
genesis_time = 1700000000

pub record Blk : Type 0 where
  pub num : ℕ
  pub hash : List ℕ
  pub parent : List ℕ
  pub ts : ℕ
  pub txs : ℕ

pub record Node : Type 0 where
  pub chain_id : ℕ
  pub salt : ℕ
  pub blocks : List Blk

-- `binary.BigEndian.PutUint64`
unfoldable pub big_bytes : ℕ → ℕ → List ℕ → List ℕ
big_bytes zero v bs = bs
big_bytes (suc k) v bs = big_bytes k (v / 256) (v % 256 ∷ bs)

-- 32 zero bytes.
abbrev pub no_hash : List ℕ
no_hash =
    0 ∷ 0 ∷ 0 ∷ 0 ∷ 0 ∷ 0 ∷ 0 ∷ 0 ∷ 0 ∷ 0 ∷ 0 ∷ 0 ∷ 0 ∷ 0 ∷ 0 ∷ 0 ∷ 0 ∷ 0 ∷ 0 ∷ 0 ∷ 0 ∷ 0 ∷ 0 ∷ 0
    ∷ 0 ∷ 0 ∷ 0 ∷ 0 ∷ 0 ∷ 0 ∷ 0 ∷ 0 ∷ []

-- The hash of the last block, or 32 zero bytes if there is none.
unfoldable pub tip_hash : List ℕ → List Blk → List ℕ
tip_hash before [] = before
tip_hash before (b ∷ bs) = tip_hash b.hash bs

-- `h[0]`
unfoldable pub first_byte : List ℕ → ℕ
first_byte [] = 0
first_byte (b ∷ bs) = b

unfoldable pub block_on : List ℕ → ℕ → ℕ → Blk
block_on parent num salt =
    let h = sum256 (parent ++ (big_bytes 8 num [] ++ big_bytes 8 salt [])) in
    record {
      num = num;
      hash = h;
      parent = parent;
      ts = (genesis_time + num * block_time) % 2 ^ 64;
      txs = first_byte h % 8;
    }

unfoldable pub mine : Node → Node
mine n = record n {
  blocks = n.blocks ++ (block_on (tip_hash no_hash n.blocks) (length n.blocks) n.salt ∷ []);
}

unfoldable pub new : ℕ → Node
new chain_id = mine (record { chain_id = chain_id; salt = 0; blocks = [] })

unfoldable pub mine_times : ℕ → Node → Node
mine_times zero n = n
mine_times (suc k) n = mine_times k (mine n)

-- `Reorg` for a depth that is not negative; no caller passes another one.
unfoldable pub reorg : ℕ → Node → Node
reorg depth n =
    let d = if leb (length n.blocks) depth then length n.blocks - 1 else depth in
    mine_times (d + 1)
      (record n { blocks = take (length n.blocks - d) n.blocks; salt = (n.salt + 1) % 2 ^ 64 })
