-- ===== src/Chainsim/Chain.antt =====
-- That the chain of services/gateway/internal/chainsim/chainsim.go stays linked from its genesis block.
use chain_forge.Common.{
  ℕ, zero, suc, ◌+◌, ◌-◌, ◌%◌, ◌^◌, ◌≤◌, ◌<◌, ◌≡◌, refl, ap, ◌∙◌, arith, leb, if◌then◌else◌,
}
use chain_forge.Common.{
  List, [], ◌∷◌, ◌++◌, length, take, length-append, length-take, take_of_length-le, Bool-cases, inl,
  inr,
}
use chain_forge.Chainsim.{Blk, Node, no_hash, tip_hash, block_on, mine, new, mine_times, reorg}

-- Blocks from a number on, each on the hash of the one in front.
unfoldable pub IsLinked : ℕ → List ℕ → List Blk → Type 0
IsLinked num before [] = Unit
IsLinked num before (b ∷ bs) = (b.num ≡ num) × (b.parent ≡ before) × IsLinked (num + 1) b.hash bs

-- A chain with a genesis block that is linked from it on.
pub record IsChain (n : Node) : Type 0 where
  pub linked : IsLinked 0 no_hash n.blocks
  pub genesis : 0 < length n.blocks

IsLinked-append :
    (num salt : ℕ) (before : List ℕ) (bs : List Blk) (at_num : ℕ)
    → IsLinked num before bs
    → at_num ≡ num + length bs
    → IsLinked num before (bs ++ (block_on (tip_hash before bs) at_num salt ∷ []))
unfolding IsLinked tip_hash block_on
IsLinked-append num salt before [] at_num h e = (omega (arith, e), refl, tt)
IsLinked-append num salt before (b ∷ bs) at_num (is, on, h) e =
    (is, on, IsLinked-append (num + 1) salt b.hash bs at_num h (omega (arith, e)))

IsLinked-take :
    (num k : ℕ) (before : List ℕ) (bs : List Blk)
    → IsLinked num before bs
    → IsLinked num before (take k bs)
unfolding IsLinked
IsLinked-take num zero before bs h = tt
IsLinked-take num (suc k) before [] h = tt
IsLinked-take num (suc k) before (b ∷ bs) (is, on, h) =
    (is, on, IsLinked-take (num + 1) k b.hash bs h)

mine-IsLinked : (n : Node) → IsLinked 0 no_hash n.blocks → IsLinked 0 no_hash (mine n).blocks
unfolding mine
mine-IsLinked n h = IsLinked-append 0 n.salt no_hash n.blocks (length n.blocks) h (omega arith)

pub length-mine : (n : Node) → length (mine n).blocks ≡ length n.blocks + 1
unfolding mine
length-mine n = length-append n.blocks _

mine_times-IsLinked :
    (k : ℕ) (n : Node) → IsLinked 0 no_hash n.blocks → IsLinked 0 no_hash (mine_times k n).blocks
unfolding mine_times
mine_times-IsLinked zero n h = h
mine_times-IsLinked (suc k) n h = mine_times-IsLinked k (mine n) (mine-IsLinked n h)

length-mine_times : (k : ℕ) (n : Node) → length (mine_times k n).blocks ≡ length n.blocks + k
unfolding mine_times
length-mine_times zero n = omega arith
length-mine_times (suc k) n = omega (arith, length-mine_times k (mine n), length-mine n)

take-append_short : (m : ℕ) (bs more : List Blk) → m ≤ length bs → take m (bs ++ more) ≡ take m bs
take-append_short zero bs more h = refl
take-append_short (suc m) [] more h = absurd (omega (arith, h))
take-append_short (suc m) (b ∷ bs) more h =
    ap (λ t. b ∷ t) (take-append_short m bs more (omega (arith, h)))

-- The blocks that stand before mining are kept.
take-mine_times :
    (k m : ℕ) (n : Node) → m ≤ length n.blocks → take m (mine_times k n).blocks ≡ take m n.blocks
unfolding mine_times mine
take-mine_times zero m n h = refl
take-mine_times (suc k) m n h =
    take-mine_times k m (mine n) (omega (arith, h, length-mine n))
    ∙ take-append_short m n.blocks _ h

pub new-IsChain : (chain_id : ℕ) → IsChain (new chain_id)
unfolding new mine IsLinked block_on tip_hash
new-IsChain chain_id = record { linked = (refl, refl, tt); genesis = omega arith }

pub mine-IsChain : (n : Node) → IsChain n → IsChain (mine n)
mine-IsChain n c = record {
  linked = mine-IsLinked n c.linked;
  genesis = omega (arith, length-mine n);
}

-- What `Reorg` keeps of a chain, in blocks.
unfoldable pub kept : ℕ → ℕ → ℕ
kept depth len = len - (if leb len depth then len - 1 else depth)

kept_fits : (depth len : ℕ) → 0 < len → (0 < kept depth len) × (kept depth len ≤ len)
unfolding kept
kept_fits depth len h = elim (Bool-cases (leb len depth)) [
  | inl deep ↦ rw (deep, kept) (omega (arith, h), omega (arith, h))
  | inr shallow ↦ rw (shallow, kept) (ground (arith, h, shallow), omega arith)
]

-- A reorganisation of any depth leaves a chain that is linked from a genesis block, longer by one block,
-- with the same blocks below the depth, and the genesis block at least.
pub reorg-IsChain :
    (depth : ℕ) (n : Node)
    → IsChain n
    → IsChain (reorg depth n)
      × (length (reorg depth n).blocks ≡ length n.blocks + 1)
      × (take (kept depth (length n.blocks)) (reorg depth n).blocks
          ≡ take (kept depth (length n.blocks)) n.blocks)
      × (0 < kept depth (length n.blocks))
unfolding reorg kept
reorg-IsChain depth n c =
    let len = length n.blocks in
    let d = if leb len depth then len - 1 else depth in
    let cut : Node = record n { blocks = take (len - d) n.blocks; salt = (n.salt + 1) % 2 ^ 64 } in
    let (some_kept, fits) = kept_fits depth len c.genesis in
    let size : length (take (len - d) n.blocks) ≡ len - d =
      length-take (len - d) n.blocks ∙ omega (arith, fits) in
    let total : length (mine_times (d + 1) cut).blocks ≡ len + 1 =
      length-mine_times (d + 1) cut ∙ omega (arith, size, some_kept) in
    (
      record {
        linked =
            mine_times-IsLinked (d + 1) cut (IsLinked-take 0 (len - d) no_hash n.blocks c.linked);
        genesis = omega (arith, total);
      },
      total,
      take-mine_times (d + 1) (len - d) cut (omega (arith, size))
          ∙ take_of_length-le (len - d) (take (len - d) n.blocks) (omega (arith, size)),
      some_kept,
    )
