-- ===== src/Chainsim/Tests.antt =====
-- A chain of three blocks, and the theorem there.
use chain_forge.Common.{◌+◌, ◌<◌, ◌≡◌, take, length}
use chain_forge.Chainsim.{Node, new, mine, reorg}
use chain_forge.Chainsim.Chain.{IsChain, kept, new-IsChain, mine-IsChain, reorg-IsChain}

abbrev node : Node
node = mine (mine (new 1))

node-IsChain : IsChain node
node-IsChain = mine-IsChain (mine (new 1)) (mine-IsChain (new 1) (new-IsChain 1))

reorg-IsChain_example :
    IsChain (reorg 7 node)
    × (length (reorg 7 node).blocks ≡ length node.blocks + 1)
    × (take (kept 7 (length node.blocks)) (reorg 7 node).blocks
        ≡ take (kept 7 (length node.blocks)) node.blocks)
    × (0 < kept 7 (length node.blocks))
reorg-IsChain_example = reorg-IsChain 7 node node-IsChain
