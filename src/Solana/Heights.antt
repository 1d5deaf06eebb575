-- ===== src/Solana/Heights.antt =====
-- Which blocks services/gateway/internal/solana/solana.go returns.
use chain_forge.Common.{ℕ, ◌+◌, ◌-◌, ◌≤◌, ◌<◌, ◌==◌, ◌≡◌, refl, arith, true, false, ltb, leb}
use chain_forge.Common.{List, length, get_elem?, some, Bool-cases, Option-cases, inl, inr}
use chain_forge.Common.{◌⊎◌, ==_iff, get_elem?-some}
use chain_forge.Indexer.{Block}
use chain_forge.Rpcx
use chain_forge.Rpcx.{Node, Result, ok, failed}
use chain_forge.Solana.{Param, RawBlock, Decoders, Resolved, resolved, panics}
use chain_forge.Solana.{
  first_slot, time_of, checked, head, get_slot, get_blocks, get_block, fetch, block_below, block,
}

-- To split on a result and keep the equation.
Result-cases :
    {A : Type 0} (r : Result A) → ((a : A) × (r ≡ ok a)) ⊎ ((e : Rpcx.Fault) × (r ≡ failed e))
Result-cases (ok a) = inl (a, refl)
Result-cases (failed e) = inr (e, refl)

-- No index was out of range, and a block that was found has the height that was asked for.
unfoldable pub IsSound : ℕ → Resolved → Type 0
IsSound height (resolved b) = b.number ≡ height
IsSound height panics = ⊥
IsSound height _ = Unit

checked-IsSound : (height : ℕ) (raw : RawBlock) → IsSound height (checked height raw)
unfolding IsSound checked
checked-IsSound height raw = elim (Option-cases raw.block_height) [
  | inl e ↦ rw (e, checked) tt
  | inr (h, e) ↦ elim (Bool-cases (h == height)) [
    | inl is ↦ rw (e, checked) (rw (is, checked) refl)
    | inr isnt ↦ rw (e, checked) (rw (isnt, checked) tt)
  ]
]

module _ {W : Type 0} (node : Node Param W) (dec : Decoders) where
  fetch-IsSound :
      (height back : ℕ) (slots : List ℕ) (w : W)
      → back < length slots
      → IsSound height (fetch node dec height back slots w).0
  unfolding fetch IsSound
  fetch-IsSound height back slots w h =
      let (slot, at) = get_elem?-some slots (length slots - 1 - back) (omega arith) in
      elim (Result-cases (get_block node dec slot w).0) [
        | inl (raw, e) ↦ rw (at, fetch) (rw (e, fetch) (checked-IsSound height raw))
        | inr (f, e) ↦ rw (at, fetch) (rw (e, fetch) tt)
      ]

  below-IsSound :
      (lookback top height : ℕ) (w : W)
      → IsSound height (block_below node dec lookback top height w).0
  unfolding block_below IsSound
  below-IsSound lookback top height w =
      let s = get_slot node dec w in
      elim (Result-cases s.0) [
        | inr (f, e) ↦ rw (e, block_below) tt
        | inl (slot, e) ↦
            let l = get_blocks node dec (first_slot lookback slot) slot s.1 in
            elim (Result-cases l.0) [
              | inr (f, e') ↦ rw (e, block_below) (rw (e', block_below) tt)
              | inl (slots, e') ↦ elim (Bool-cases (leb (length slots) (top - height))) [
                | inl far ↦ rw (e, block_below) (rw (e', block_below) (rw (far, block_below) tt))
                | inr near ↦
                    rw (e, block_below)
                      (rw (e', block_below)
                        (rw (near, block_below)
                          (fetch-IsSound height (top - height) slots l.1 (ground arith))))
              ]
            ]
      ]

  -- Whatever the node answers, resolving a height indexes no list out of range, and a block that it
  -- finds has that height.
  pub block-IsSound :
      (lookback height : ℕ) (w : W) → IsSound height (block node dec lookback height w).0
  unfolding block IsSound
  block-IsSound lookback height w =
      let t = head node dec w in
      elim (Result-cases t.0) [
        | inr (f, e) ↦ rw (e, block) tt
        | inl (top, e) ↦ elim (Bool-cases (ltb top height)) [
          | inl beyond ↦ rw (e, block) (rw (beyond, block) tt)
          | inr within ↦ rw (e, block) (rw (within, block) (below-IsSound lookback top height t.1))
        ]
      ]

  -- A node that holds still: its head, its slot and the list of slots with a block that it gives for
  -- the lookback, whose blocks have consecutive heights up to the head's.
  pub record IsStill (lookback top slot : ℕ) (slots : List ℕ) : Type 0 where
    pub heads : (w : W) → (head node dec w).0 ≡ ok top
    pub at_slot : (w : W) → (get_slot node dec w).0 ≡ ok slot
    pub lists : (w : W) → (get_blocks node dec (first_slot lookback slot) slot w).0 ≡ ok slots
    pub consecutive :
        (i s : ℕ) (w : W)
        → get_elem? slots i ≡ some s
        → (raw : RawBlock) × (h : ℕ) × ((get_block node dec s w).0 ≡ ok raw)
          × (raw.block_height ≡ some h)
          × (h + length slots ≡ top + 1 + i)

  -- On a node that holds still, every height up to the head whose block lies within the lookback is
  -- resolved to a block of that height.
  pub block-resolves :
      (lookback top slot height : ℕ) (slots : List ℕ) (w : W)
      → IsStill lookback top slot slots
      → height ≤ top
      → top - height < length slots
      → (b : Block) × ((block node dec lookback height w).0 ≡ resolved b) × (b.number ≡ height)
  unfolding block block_below fetch checked
  block-resolves lookback top slot height slots w still low near =
      let i = length slots - 1 - (top - height) in
      let w1 = (head node dec w).1 in
      let w2 = (get_slot node dec w1).1 in
      let w3 = (get_blocks node dec (first_slot lookback slot) slot w2).1 in
      let (s, at) = get_elem?-some slots i (omega arith) in
      let (raw, h, got, has, sum) = still.consecutive i s w3 at in
      let within : ltb top height ≡ false = ground arith in
      let listed : leb (length slots) (top - height) ≡ false = ground arith in
      let same : (h == height) ≡ true = (==_iff h height).1 (omega arith) in
      let b : Block = record {
        number = height;
        hash = raw.blockhash;
        parent_hash = raw.previous_blockhash;
        timestamp = time_of raw.block_time;
        tx_count = length raw.signatures;
      } in
      (
        b,
        rw (still.heads w, block)
            (rw (within, block)
              (rw (still.at_slot w1, block_below)
                (rw (still.lists w2, block_below)
                  (rw (listed, block_below)
                    (rw (at, fetch)
                      (rw (got, fetch) (rw (has, checked) (rw (same, checked) refl)))))))),
        refl,
      )
