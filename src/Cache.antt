-- ===== src/Cache.antt =====
-- services/gateway/internal/cache/cache.go: the cache of RPC responses, which forgets by age and by
-- use. A list element is its number, `elems` holds what the elements point to, and the map leads
-- from keys to elements, as the Go code has it. Times and durations are counts of nanoseconds.
pub mod Lru
pub mod Views
pub mod Updates
pub mod Refine
pub mod Serve
pub mod Bounds
pub mod Holds
mod Tests
use chain_forge.Common.{ℕ, zero, suc, ◌+◌, ◌==◌, Bool, true, false, ltb, str_eq, if◌then◌else◌}
use chain_forge.Common.{List, [], ◌∷◌, length, Option, none, some, String}
use chain_forge.Common.Int.{ℤ, pos, negsuc}

pub record Entry : Type 0 where
  pub key : String
  pub val : List ℕ
  pub expires : ℕ

pub record Cache : Type 0 where
  pub cap : ℤ
  pub ttl : ℕ
  pub elems : ℕ → Entry
  pub ll : List ℕ
  pub m : String → Option ℕ
  pub next_id : ℕ

unfoldable pub new : ℤ → ℕ → Cache
new capacity ttl = record {
  cap = capacity;
  ttl = ttl;
  elems = λ _. record { key = ""; val = []; expires = 0 };
  ll = [];
  m = λ _. none;
  next_id = 0;
}

-- `m[key] = el`, and `delete(m, key)` for `none`.
unfoldable pub write : (String → Option ℕ) → String → Option ℕ → String → Option ℕ
write m key el k = if str_eq key k then el else m k

-- `ll.Remove(el)`, nothing for an element that the list has not.
unfoldable pub unlink : ℕ → List ℕ → List ℕ
unlink el [] = []
unlink el (x ∷ xs) = if x == el then unlink el xs else x ∷ unlink el xs

unfoldable pub on_list : ℕ → List ℕ → Bool
on_list el [] = false
on_list el (x ∷ xs) = if x == el then true else on_list el xs

-- `ll.MoveToFront(el)`
unfoldable pub move_to_front : ℕ → List ℕ → List ℕ
move_to_front el ll = if on_list el ll then el ∷ unlink el ll else ll

-- `ll.Back()` of a list with an element.
unfoldable pub back {ℓ} : {A : Type ℓ} → A → List A → A
back x [] = x
back x (y ∷ ys) = back y ys

unfoldable pub get : Cache → ℕ → String → Option (List ℕ) × Cache
get c now key = elim (c.m key) [
  | none ↦ (none, c)
  | some el ↦
      if ltb now (c.elems el).expires
      then (some (c.elems el).val, record c { ll = move_to_front el c.ll })
      else (none, record c { ll = unlink el c.ll; m = write c.m key none })
]

-- `n > cap`
unfoldable pub exceeds : ℕ → ℤ → Bool
exceeds n (pos k) = ltb k n
exceeds n (negsuc k) = true

-- `el.Value = e`
unfoldable pub assign : (ℕ → Entry) → ℕ → Entry → ℕ → Entry
assign elems el e i = if el == i then e else elems i

-- The insertion of a new element in front, and the eviction behind it.
unfoldable pub insert : Cache → Entry → Cache
insert c e =
    let el = c.next_id in
    let elems = assign c.elems el e in
    let m = write c.m e.key (some el) in
    let last = back el c.ll in
    if exceeds (length (el ∷ c.ll)) c.cap
    then record c {
      elems = elems;
      ll = unlink last (el ∷ c.ll);
      m = write m (elems last).key none;
      next_id = el + 1;
    }
    else record c { elems = elems; ll = el ∷ c.ll; m = m; next_id = el + 1 }

-- The method `Set`.
unfoldable pub put : Cache → ℕ → String → List ℕ → Cache
put c now key val =
    let e : Entry = record { key = key; val = val; expires = now + c.ttl } in
    elim (c.m key) [
      | some el ↦ record c { elems = assign c.elems el e; ll = move_to_front el c.ll }
      | none ↦ insert c e
    ]

unfoldable pub len : Cache → ℕ
len c = length c.ll
