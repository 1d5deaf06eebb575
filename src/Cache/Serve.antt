-- ===== src/Cache/Serve.antt =====
-- What callers see of services/gateway/internal/cache/cache.go over whole histories of calls.
use chain_forge.Common.{ℕ, ◌+◌, ◌≡◌, refl, ap, ap₂}
use chain_forge.Common.{List, [], ◌∷◌, length, Option, String, Bool-cases, Option-cases, inl, inr}
use chain_forge.Common.{ltb}
use chain_forge.Common.Int.{ℤ}
use chain_forge.Cache.{Entry, Cache, new, get, exceeds, insert, put}
use chain_forge.Cache.Lru.{lru_get, lru_put}
use chain_forge.Cache.Views.{view, IsValid}
use chain_forge.Cache.Refine.{new-IsValid, get-refines, put-refines}

-- The calls, each with its reading of the clock.
pub data Call : Type 0 where
  gets : ℕ → String → Call
  puts : ℕ → String → List ℕ → Call

-- The answers of the lookups, and the cache behind them.
unfoldable pub serve : Cache → List Call → List (Option (List ℕ)) × Cache
serve c [] = ([], c)
serve c (gets now key ∷ cs) =
    let (out, c') = serve (get c now key).1 cs in ((get c now key).0 ∷ out, c')
serve c (puts now key val ∷ cs) = serve (put c now key val) cs

-- The same on the plain list.
unfoldable pub lru_serve : ℤ → ℕ → List Entry → List Call → List (Option (List ℕ)) × List Entry
lru_serve cap ttl es [] = ([], es)
lru_serve cap ttl es (gets now key ∷ cs) =
    let (out, es') = lru_serve cap ttl (lru_get es now key).1 cs in
    ((lru_get es now key).0 ∷ out, es')
lru_serve cap ttl es (puts now key val ∷ cs) =
    lru_serve cap ttl (lru_put cap es (record { key = key; val = val; expires = now + ttl })) cs

-- No call changes the capacity or the time to live.
get_keeps :
    (c : Cache) (now : ℕ) (key : String)
    → ((get c now key).1.cap ≡ c.cap) × ((get c now key).1.ttl ≡ c.ttl)
unfolding get
get_keeps c now key = elim (Option-cases (c.m key)) [
  | inl e ↦ rw (e, get) (refl, refl)
  | inr (el, e) ↦ elim (Bool-cases (ltb now (c.elems el).expires)) [
    | inl live ↦ rw (e, get) (rw (live, get) (refl, refl))
    | inr late ↦ rw (e, get) (rw (late, get) (refl, refl))
  ]
]

put_keeps :
    (c : Cache) (now : ℕ) (key : String) (val : List ℕ)
    → ((put c now key val).cap ≡ c.cap) × ((put c now key val).ttl ≡ c.ttl)
unfolding put insert
put_keeps c now key val = elim (Option-cases (c.m key)) [
  | inr (el, e) ↦ rw (e, put) (refl, refl)
  | inl e ↦ elim (Bool-cases (exceeds (length (c.next_id ∷ c.ll)) c.cap)) [
    | inl full ↦ rw (e, put) (rw (full, insert) (refl, refl))
    | inr room ↦ rw (e, put) (rw (room, insert) (refl, refl))
  ]
]

serve-refines_from :
    (c : Cache) (es : List Entry) (cs : List Call)
    → IsValid c
    → view c ≡ es
    → ((serve c cs).0, view (serve c cs).1) ≡ lru_serve c.cap c.ttl es cs
unfolding serve lru_serve put
serve-refines_from c es [] v e = ap (λ x. ([], x)) e
serve-refines_from c es (gets now key ∷ cs) v e =
    let (v', step) = get-refines c now key v in
    let (cap, ttl) = get_keeps c now key in
    let same : ((get c now key).0, view (get c now key).1) ≡ lru_get es now key = rw e at step in
    let rest =
      serve-refines_from (get c now key).1 (lru_get es now key).1 cs v' (ap (λ r. r.1) same) in
    ap₂ (λ a r. (a ∷ r.0, r.1)) (ap (λ r. r.0) same) (rw (cap, ttl) at rest)
serve-refines_from c es (puts now key val ∷ cs) v e =
    let (v', step) = put-refines c now key val v in
    let (cap, ttl) = put_keeps c now key val in
    let rest = serve-refines_from (put c now key val) _ cs v' (rw e at step) in
    rw (cap, ttl) at rest

-- Whatever sequence of calls a new cache serves, its lookups answer and its list holds, in order,
-- what the plain list would: one that moves an entry to the front when it is used, drops it when it
-- is looked up at or after its expiry, and drops the one at the back when the capacity is exceeded.
pub serve-refines :
    (cap : ℤ) (ttl : ℕ) (cs : List Call)
    → ((serve (new cap ttl) cs).0, view (serve (new cap ttl) cs).1) ≡ lru_serve cap ttl [] cs
unfolding new view
serve-refines cap ttl cs = serve-refines_from (new cap ttl) [] cs (new-IsValid cap ttl) refl
