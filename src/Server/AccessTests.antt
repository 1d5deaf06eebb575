-- ===== src/Server/AccessTests.antt =====
-- A gateway with two clients and two endpoints, and the theorems there.
use chain_forge.Common.{
  ℕ, ◌≡◌, ◌↔◌, refl, false, str_eq, if◌then◌else◌, List, [], ◌∷◌, Option, some, String,
}
use chain_forge.Common.Int.{pos}
use chain_forge.Common.Bytes.{bytes_eq}
use chain_forge.EventLog
use chain_forge.Upstream.{Pool, new_pool}
use chain_forge.Indexer
use chain_forge.Indexer.{Indexer, Block, newest}
use chain_forge.Server.Hooks.{del_hook}
use chain_forge.Server.Routes.{
  Route, IsBehindAuth, rpc, metrics, KeyedRequest, is_guarded, let_in, routed, dispatch, served,
  opened, unauthorized, dispatch_served_iff,
}
use chain_forge.Webhook.Registry.{empty as no_hooks, remove, without, has}
use chain_forge.Server.Access.{
  auth, new_keys, add_keys, credential, name_of, IsMap, NoCollision, ready, healthy, blocks,
}

program : Unit {0}
unfolding auth new_keys add_keys credential name_of IsMap NoCollision bytes_eq ready healthy blocks
    newest new_pool
program = tt

abbrev api_keys : List (List ℕ × String)
api_keys = (1 ∷ 2 ∷ [], "app") ∷ (3 ∷ [], "bot") ∷ []

abbrev hash : List ℕ → List ℕ
hash key = 0 ∷ key

own_keys : IsMap api_keys
unfolding program
own_keys = (refl, (refl, tt))

apart : NoCollision hash (credential [] (3 ∷ [])) api_keys
unfolding program
apart = ((λ e. absurd (cc e)), ((λ e. refl), tt))

bot_let_in : auth hash (new_keys hash api_keys) [] (3 ∷ []) ≡ some "bot"
unfolding program
bot_let_in = refl

abbrev pool : Pool
pool = new_pool ("a" ∷ "b" ∷ []) 2 10

abbrev empty : Indexer
empty = Indexer.new (EventLog.new (pos 1)) (pos 5)

abbrev tip : Block
tip = record { number = 1; hash = "h"; parent_hash = "p"; timestamp = 0; tx_count = 0 }

abbrev index : Indexer
index = record empty { chain = tip ∷ [] }

not_before_a_block : ready pool empty ≡ false
unfolding program Indexer.new
not_before_a_block = refl

-- The router knows one path, under two methods.
abbrev router : String → List ℕ → Option Route
router method path = if str_eq method "POST" then some rpc else some metrics

abbrev bot_call : KeyedRequest
bot_call = record { method = "POST"; path = 7 ∷ []; header_key = []; query_key = 3 ∷ [] }

scraped :
    dispatch hash router (new_keys hash api_keys) (record bot_call { method = "GET" })
    ≡ opened metrics
unfolding program dispatch routed let_in is_guarded str_eq
scraped = refl

stranger :
    dispatch hash router (new_keys hash api_keys) (record bot_call { query_key = 9 ∷ [] })
    ≡ unauthorized
unfolding program dispatch routed let_in is_guarded str_eq
stranger = refl

dispatch_served_iff_example :
    (dispatch hash router (new_keys hash api_keys) bot_call ≡ served rpc "bot") ↔ (
      (str_eq "POST" "OPTIONS" ≡ false)
      × (router "POST" (7 ∷ []) ≡ some rpc)
      × IsBehindAuth rpc
      × (name_of api_keys (credential [] (3 ∷ [])) ≡ some "bot"))
dispatch_served_iff_example =
    dispatch_served_iff hash router api_keys bot_call rpc "bot" own_keys apart

absent_hook : (del_hook (no_hooks false) (1 ∷ [])).0.status ≡ 404
unfolding del_hook remove has no_hooks without
absent_hook = refl
