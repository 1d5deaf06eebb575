-- ===== src/Solana/Tests.antt =====
-- A Solana node with skipped slots, and the theorems there.
use chain_forge.Common.{ℕ, zero, suc, ◌+◌, ◌≡◌, refl, arith, ltb, str_eq, if◌then◌else◌}
use chain_forge.Common.{List, [], ◌∷◌, get_elem?, Option, none, some, String}
use chain_forge.Indexer.{Block}
use chain_forge.Rpcx
use chain_forge.Rpcx.{Node, ok}
use chain_forge.Solana.{
  Param, number, RawBlock, Decoders, resolved, outside, first_slot, checked, head,
}
use chain_forge.Solana.{get_slot, get_blocks, get_block, fetch, block_below, block}
use chain_forge.Solana.Heights.{IsSound, IsStill, block-resolves}

program : Unit {0}
unfolding Rpcx.call first_slot checked head get_slot get_blocks get_block fetch block_below block
    IsSound str_eq
program = tt

-- A message is its own answer: the head is 12 at slot 30, and the slots 20, 25 and 30 hold the
-- heights 10, 11 and 12.
abbrev query_of : String → List Param → Option (List ℕ)
query_of method (number s ∷ number s' ∷ _) = some (20 ∷ 25 ∷ 30 ∷ [])
query_of method (number s ∷ _) = some (s ∷ [])
query_of method _ = if str_eq method "getSlot" then some (30 ∷ []) else some (12 ∷ [])

abbrev node : Node Param ℕ
node = record {
  request = query_of;
  envelope = λ raw. some (record { result = raw; error = none });
  send = λ body w. (some body, w + 1);
}

abbrev height_in : ℕ → Option ℕ
height_in s = if ltb s 25 then some 10 else if ltb s 30 then some 11 else some 12

abbrev raw_in : ℕ → RawBlock
raw_in s = record {
  blockhash = "h";
  previous_blockhash = "p";
  block_height = height_in s;
  block_time = none;
  signatures = [];
}

abbrev raw_of : List ℕ → Option RawBlock
raw_of (s ∷ _) = some (raw_in s)
raw_of [] = none

abbrev uint_of : List ℕ → Option ℕ
uint_of (n ∷ _) = some n
uint_of [] = none

abbrev dec : Decoders
dec = record { uint = uint_of; uints = λ raw. some raw; raw_block = raw_of }

node-IsStill : IsStill node dec 512 12 30 (20 ∷ 25 ∷ 30 ∷ [])
unfolding program
node-IsStill = record {
  heads = λ w. refl;
  at_slot = λ w. refl;
  lists = λ w. refl;
  consecutive = blocks;
}
  where
    blocks :
        (i s : ℕ) (w : ℕ)
        → get_elem? (20 ∷ 25 ∷ 30 ∷ []) i ≡ some s
        → (raw : RawBlock) × (h : ℕ) × ((get_block node dec s w).0 ≡ ok raw)
          × (raw.block_height ≡ some h)
          × (h + 3 ≡ 12 + 1 + i)
    blocks zero s w e = (raw_in s, 10, refl, (let is : 20 ≡ s = cc e in rw (← is) refl), refl)
    blocks (suc zero) s w e = (raw_in s, 11, refl, (let is : 25 ≡ s = cc e in rw (← is) refl), refl)
    blocks (suc (suc zero)) s w e =
        (raw_in s, 12, refl, (let is : 30 ≡ s = cc e in rw (← is) refl), refl)
    blocks (suc (suc (suc i))) s w e = absurd (cc e)

too_old : (block node dec 512 9 0).0 ≡ outside
unfolding program
too_old = refl

block-resolves_example : (b : Block) × ((block node dec 512 11 0).0 ≡ resolved b) × (b.number ≡ 11)
block-resolves_example =
    block-resolves node dec 512 12 30 11 (20 ∷ 25 ∷ 30 ∷ []) 0 node-IsStill (omega arith)
      (omega arith)
