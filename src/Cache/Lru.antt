-- ===== src/Cache/Lru.antt =====
-- What the cache of services/gateway/internal/cache/cache.go promises, on a plain list of entries
-- with the one used last in front.
use chain_forge.Common.{
  ℕ, ltb, str_eq, if◌then◌else◌, List, [], ◌∷◌, length, Option, none, some, String,
}
use chain_forge.Common.Int.{ℤ}
use chain_forge.Cache.{Entry, exceeds, back}

unfoldable pub without : String → List Entry → List Entry
without key [] = []
without key (e ∷ es) = if str_eq key e.key then without key es else e ∷ without key es

unfoldable pub entry_of : String → List Entry → Option Entry
entry_of key [] = none
entry_of key (e ∷ es) = if str_eq key e.key then some e else entry_of key es

-- A live entry moves to the front, and one that has expired goes.
unfoldable pub lru_get : List Entry → ℕ → String → Option (List ℕ) × List Entry
lru_get es now key = elim (entry_of key es) [
  | none ↦ (none, es)
  | some e ↦ if ltb now e.expires then (some e.val, e ∷ without key es) else (none, without key es)
]

-- The new entry stands in front and takes the place of the key's old one; if it has none and the
-- capacity is exceeded, the key at the back goes.
unfoldable pub lru_put : ℤ → List Entry → Entry → List Entry
lru_put cap es e = elim (entry_of e.key es) [
  | some _ ↦ e ∷ without e.key es
  | none ↦ if exceeds (length (e ∷ es)) cap then without (back e es).key (e ∷ es) else e ∷ es
]
