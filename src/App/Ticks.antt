-- ===== src/App/Ticks.antt =====
-- The chain of the simulated node that services/gateway/internal/app/app.go runs, at any tick.
use chain_forge.Common.{
  ℕ, zero, suc, ◌+◌, ◌-◌, ◌%◌, ◌^◌, ◌<◌, ◌≡◌, arith, ◌==◌, ◌&&◌, ltb, leb, Bool-cases, inl, inr,
  if◌then◌else◌,
}
use chain_forge.Common.{List, [], ◌∷◌, length, take, All, All-append}
use chain_forge.Common.Int.{clip}
use chain_forge.Chainsim.{Node, new, mine, mine_times, reorg, block_on, tip_hash, no_hash}
use chain_forge.Chainsim.Chain.{IsChain, new-IsChain, mine-IsChain, length-mine, reorg-IsChain}
use chain_forge.App.Sim.{Settings, sim_tick, sim_ticks, sim_run}

-- The timestamps are words of 64 bits.
abbrev pub IsStamped : Node → Type 0
IsStamped n = All (λ b. b.ts < 2 ^ 64) n.blocks

All-take : {A : Type 0} (P : A → Type 0) (k : ℕ) (xs : List A) → All P xs → All P (take k xs)
All-take P zero xs h = tt
All-take P (suc k) [] h = tt
All-take P (suc k) (x ∷ xs) h = (h.0, All-take P k xs h.1)

block_on-stamped : (h : List ℕ) (num salt : ℕ) → (block_on h num salt).ts < 2 ^ 64
unfolding block_on
block_on-stamped h num salt = omega arith

mine-IsStamped : (n : Node) → IsStamped n → IsStamped (mine n)
unfolding mine
mine-IsStamped n h =
    All-append (λ b. b.ts < 2 ^ 64) n.blocks
      (block_on (tip_hash no_hash n.blocks) (length n.blocks) n.salt ∷ []) h
      (block_on-stamped (tip_hash no_hash n.blocks) (length n.blocks) n.salt, tt)

mine_times-IsStamped : (k : ℕ) (n : Node) → IsStamped n → IsStamped (mine_times k n)
unfolding mine_times
mine_times-IsStamped zero n h = h
mine_times-IsStamped (suc k) n h = mine_times-IsStamped k (mine n) (mine-IsStamped n h)

reorg-IsStamped : (depth : ℕ) (n : Node) → IsStamped n → IsStamped (reorg depth n)
unfolding reorg
reorg-IsStamped depth n h =
    let d = if leb (length n.blocks) depth then length n.blocks - 1 else depth in
    mine_times-IsStamped (d + 1) _ (All-take (λ b. b.ts < 2 ^ 64) (length n.blocks - d) n.blocks h)

-- What holds of the node at a length of its chain.
record IsAt (len : ℕ) (n : Node) : Type 0 where
  chain : IsChain n
  stamped : IsStamped n
  len_is : length n.blocks ≡ len

sim_tick-IsAt : (every t len : ℕ) (n : Node) → IsAt len n → IsAt (len + 1) (sim_tick every t n)
unfolding sim_tick
sim_tick-IsAt every t len n at_len = elim (Bool-cases (ltb 0 every && t % every == 0)) [
  | inl e ↦
      let (linked, longer, _, _) = reorg-IsChain 2 n at_len.chain in
      rw (e, sim_tick)
        (record {
          chain = linked;
          stamped = reorg-IsStamped 2 n at_len.stamped;
          len_is = omega (arith, longer, at_len.len_is);
        })
  | inr e ↦
      rw (e, sim_tick)
        (record {
          chain = mine-IsChain n at_len.chain;
          stamped = mine-IsStamped n at_len.stamped;
          len_is = omega (arith, length-mine n, at_len.len_is);
        })
]

sim_ticks-IsAt :
    (every t k len : ℕ) (n : Node) → IsAt len n → IsAt (len + k) (sim_ticks every t k n)
unfolding sim_ticks
sim_ticks-IsAt every t zero len n at_len = let same : len + 0 ≡ len = omega arith in rw same at_len
sim_ticks-IsAt every t (suc k) len n at_len =
    let moved : len + suc k ≡ len + 1 + k = omega arith in
    rw moved (sim_ticks-IsAt every (t + 1) k (len + 1) _ (sim_tick-IsAt every t len n at_len))

-- Whatever the settings, after any number of ticks the node has a chain that is linked from its genesis
-- block, with one block more than there were ticks, reorganisations included, and timestamps of 64 bits.
pub sim_run-IsChain :
    (s : Settings) (k : ℕ)
    → IsChain (sim_run s k) × (length (sim_run s k).blocks ≡ k + 1) × IsStamped (sim_run s k)
unfolding sim_run
sim_run-IsChain s k =
    let done = sim_ticks-IsAt (clip s.reorg_every) 1 k 1 (new s.chain_id) start in
    (done.chain, omega (arith, done.len_is), done.stamped)
  where
    nothing : Node
    nothing = record { chain_id = s.chain_id; salt = 0; blocks = [] }

    start : IsAt 1 (new s.chain_id)
    start = record {
      chain = new-IsChain s.chain_id;
      stamped = unfold new in mine-IsStamped nothing tt;
      len_is = unfold new in length-mine nothing;
    }
