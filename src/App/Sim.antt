-- ===== src/App/Sim.antt =====
-- services/gateway/internal/app/app.go: the settings of the simulated node, and the ticks of its loop, on each of
-- which it mines a block or replaces the last two.
use chain_forge.Common.{
  ℕ, zero, suc, ◌+◌, ◌%◌, ◌^◌, ◌==◌, Bool, true, false, ◌&&◌, ltb, if◌then◌else◌, [], ◌∷◌, String,
}
use chain_forge.Common.Int.{ℤ, pos, negsuc, clip}
use chain_forge.Chainsim.{Node, new, mine, reorg}
use chain_forge.Intent.Text.{some_digits}
use chain_forge.Metrics.{Text}
use chain_forge.App.{
  Loaded, loaded, ◌>>=◌, wanted, checked, atoi, is_positive, or, bad_chain_id, bad_block_ms,
  bad_reorg_every,
}

pub record Settings : Type 0 where
  pub chain_id : ℕ
  pub block_ms : ℤ
  pub reorg_every : ℤ

-- "1337", "2000" and "0".
abbrev default_id : Text
default_id = b'1' ∷ b'3' ∷ b'3' ∷ b'7' ∷ []

abbrev default_ms : Text
default_ms = b'2' ∷ b'0' ∷ b'0' ∷ b'0' ∷ []

abbrev default_every : Text
default_every = b'0' ∷ []

unfoldable pub is_natural : ℤ → Bool
is_natural (pos n) = true
is_natural (negsuc n) = false

-- What `SimMain` reads of its environment.
unfoldable pub sim_settings : (String → Text) → Loaded Settings
sim_settings getenv = do
  let id = checked (λ n. ltb n (2 ^ 64)) (some_digits 10 (or (getenv "SIM_CHAIN_ID") default_id))
  chain_id ← wanted id bad_chain_id
  let ms = atoi (or (getenv "SIM_BLOCK_MS") default_ms)
  block_ms ← wanted (checked is_positive ms) bad_block_ms
  let every = atoi (or (getenv "SIM_REORG_EVERY") default_every)
  reorg_every ← wanted (checked is_natural every) bad_reorg_every
  loaded (record { chain_id = chain_id; block_ms = block_ms; reorg_every = reorg_every })

-- The tick `n` of the loop.
unfoldable pub sim_tick : ℕ → ℕ → Node → Node
sim_tick every n node = if ltb 0 every && n % every == 0 then reorg 2 node else mine node

-- Some ticks, from the tick `n` on.
unfoldable pub sim_ticks : ℕ → ℕ → ℕ → Node → Node
sim_ticks every n zero node = node
sim_ticks every n (suc k) node = sim_ticks every (n + 1) k (sim_tick every n node)

-- The node of `SimMain` after some ticks.
unfoldable pub sim_run : Settings → ℕ → Node
sim_run s k = sim_ticks (clip s.reorg_every) 1 k (new s.chain_id)
