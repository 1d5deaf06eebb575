-- ===== src/Cache/Tests.antt =====
-- Runs of the cache, and its theorems at concrete inputs.
use chain_forge.Common.{◌≡◌, refl, str_eq}
use chain_forge.Common.{List, [], ◌∷◌, none, some}
use chain_forge.Common.Int.{pos}
use chain_forge.Cache.{
  Cache, new, write, unlink, on_list, move_to_front, back, get, exceeds, assign, insert, put, len,
}
use chain_forge.Cache.Lru.{lru_get, lru_put, without, entry_of}
use chain_forge.Cache.Views.{view, IsValid}
use chain_forge.Cache.Refine.{new-IsValid, put-refines}
use chain_forge.Cache.Serve.{Call, gets, puts, serve, lru_serve, serve-refines}

program : Unit {0}
unfolding new write unlink on_list move_to_front back get exceeds assign insert put len serve
    lru_serve lru_get lru_put without entry_of view str_eq
program = tt

-- Two entries at most: "a" is used before "c" comes, so that "b" goes; later "a" has expired.
abbrev calls : List Call
calls =
    puts 0 "a" (1 ∷ [])
    ∷ puts 1 "b" (2 ∷ [])
    ∷ gets 2 "a"
    ∷ puts 3 "c" (3 ∷ [])
    ∷ gets 4 "b"
    ∷ gets 10 "a"
    ∷ gets 10 "c"
    ∷ []

answers : (serve (new (pos 2) 10) calls).0 ≡ some (1 ∷ []) ∷ none ∷ none ∷ some (3 ∷ []) ∷ []
unfolding program
answers = refl

serve-refines_example :
    ((serve (new (pos 2) 10) calls).0, view (serve (new (pos 2) 10) calls).1)
    ≡ lru_serve (pos 2) 10 [] calls
serve-refines_example = serve-refines (pos 2) 10 calls

abbrev two : Cache
two = put (put (new (pos 2) 10) 0 "a" (1 ∷ [])) 1 "b" (2 ∷ [])

two-IsValid : IsValid two
two-IsValid =
    (put-refines (put (new (pos 2) 10) 0 "a" (1 ∷ [])) 1 "b" (2 ∷ [])
      (put-refines (new (pos 2) 10) 0 "a" (1 ∷ []) (new-IsValid (pos 2) 10)).0).0

two_cap : two.cap ≡ pos 2
unfolding program
two_cap = refl
