-- ===== src/Cache/Bounds.antt =====
-- That the cache of services/gateway/internal/cache/cache.go stays within its capacity and gives back
-- what was stored.
use chain_forge.Common.{ℕ, suc, ◌+◌, ◌≤◌, ◌<◌, ◌≡◌, refl, sym, ◌∙◌, ap, arith, true, false}
use chain_forge.Common.{
  List, [], ◌∷◌, length, none, some, String, Bool-cases, Option-cases, inl, inr,
}
use chain_forge.Common.{ltb, str_eq, str_eq_iff, str_eq_refl, if◌then◌else◌, length-map}
use chain_forge.Common.Int.{ℤ, pos, negsuc, clip}
use chain_forge.Cache.{Entry, Cache, new, back, get, exceeds, put, len}
use chain_forge.Cache.Lru.{without, entry_of, lru_get, lru_put}
use chain_forge.Cache.Views.{view, IsValid, str_eq_ne}
use chain_forge.Cache.Refine.{get-refines, put-refines}
use chain_forge.Cache.Serve.{Call, gets, puts, serve, lru_serve, serve-refines}

-- The lengths of the plain list.
length-without : (key : String) (es : List Entry) → length (without key es) ≤ length es
unfolding without
length-without key [] = omega arith
length-without key (e ∷ es) = ground (arith, length-without key es)

length-without-back :
    (e : Entry) (es : List Entry) → length (without (back e es).key (e ∷ es)) ≤ length es
unfolding without back
length-without-back e [] = rw (str_eq_refl e.key, without) (omega arith)
length-without-back e (x ∷ es) =
    let rest = length-without-back x es in
    elim (Bool-cases (str_eq (back x es).key e.key)) [
      | inl is ↦ rw (is, without) (length-without _ (x ∷ es))
      | inr isnt ↦ rw (isnt, without) (omega (arith, rest))
    ]

length-without_hit :
    (key : String) (es : List Entry) (e : Entry)
    → entry_of key es ≡ some e
    → length (without key es) < length es
unfolding without entry_of
length-without_hit key [] e h = absurd (cc h)
length-without_hit key (x ∷ es) e h = elim (Bool-cases (str_eq key x.key)) [
  | inl is ↦ rw (is, without) (omega (arith, length-without key es))
  | inr isnt ↦
      let rest = length-without_hit key es e (rw (isnt, entry_of) at h) in
      rw (isnt, without) (omega (arith, rest))
]

length-lru_get :
    (es : List Entry) (now : ℕ) (key : String) → length (lru_get es now key).1 ≤ length es
unfolding lru_get
length-lru_get es now key = elim (Option-cases (entry_of key es)) [
  | inl h ↦ rw (h, lru_get) (omega arith)
  | inr (e, h) ↦
      let less = length-without_hit key es e h in
      elim (Bool-cases (ltb now e.expires)) [
        | inl live ↦ rw (h, lru_get) (rw (live, lru_get) (omega (arith, less)))
        | inr late ↦ rw (h, lru_get) (rw (late, lru_get) (omega (arith, less)))
      ]
]

length-lru_put :
    (cap : ℤ) (es : List Entry) (e : Entry)
    → length es ≤ clip cap
    → length (lru_put cap es e) ≤ clip cap
unfolding lru_put
length-lru_put cap es e small = elim (Option-cases (entry_of e.key es)) [
  | inr (old, h) ↦
      let less = length-without_hit e.key es old h in rw (h, lru_put) (omega (arith, less, small))
  | inl h ↦ elim (Bool-cases (exceeds (length (e ∷ es)) cap)) [
    | inl full ↦
        let less = length-without-back e es in
        rw (h, lru_put) (rw (full, lru_put) (omega (arith, less, small)))
    | inr room ↦ rw (h, lru_put) (rw (room, lru_put) (fits cap (length (e ∷ es)) room))
  ]
]
  where
    fits : (cap : ℤ) (n : ℕ) → exceeds n cap ≡ false → n ≤ clip cap
    fits (pos k) n e = unfold exceeds in ground arith
    fits (negsuc k) n e = unfold exceeds in absurd (cc e)

length-lru_serve :
    (cap : ℤ) (ttl : ℕ) (es : List Entry) (cs : List Call)
    → length es ≤ clip cap
    → length (lru_serve cap ttl es cs).1 ≤ clip cap
unfolding lru_serve
length-lru_serve cap ttl es [] small = small
length-lru_serve cap ttl es (gets now key ∷ cs) small =
    length-lru_serve cap ttl (lru_get es now key).1 cs
      (omega (arith, length-lru_get es now key, small))
length-lru_serve cap ttl es (puts now key val ∷ cs) small =
    length-lru_serve cap ttl _ cs (length-lru_put cap es _ small)

-- However it is used, a new cache never holds more entries than its capacity, and none if the
-- capacity is negative.
pub len-serve : (cap : ℤ) (ttl : ℕ) (cs : List Call) → len (serve (new cap ttl) cs).1 ≤ clip cap
unfolding len view
len-serve cap ttl cs =
    let c = (serve (new cap ttl) cs).1 in
    let same : length (view c) ≡ length c.ll = length-map c.elems c.ll in
    let spec : length (view c) ≡ length (lru_serve cap ttl [] cs).1 =
      ap (λ r. length r.1) (serve-refines cap ttl cs) in
    omega (arith, same, spec, length-lru_serve cap ttl [] cs (omega arith))

-- A key that is on no entry of a list is not on the one at its back.
back_other :
    (key : String) (x : Entry) (es : List Entry)
    → entry_of key (x ∷ es) ≡ none
    → str_eq (back x es).key key ≡ false
unfolding entry_of back
back_other key x [] h = elim (Bool-cases (str_eq key x.key)) [
  | inl is ↦ absurd (cc (rw (is, entry_of) at h))
  | inr isnt ↦ str_eq_ne x.key key (λ e. absurd (cc ((str_eq_iff key x.key).1 (sym e), isnt)))
]
back_other key x (y ∷ es) h = elim (Bool-cases (str_eq key x.key)) [
  | inl is ↦ absurd (cc (rw (is, entry_of) at h))
  | inr isnt ↦ back_other key y es (rw (isnt, entry_of) at h)
]

-- With room for one entry at least, the entry that was put is found.
entry_of-lru_put :
    (k : ℕ) (es : List Entry) (e : Entry) → entry_of e.key (lru_put (pos (suc k)) es e) ≡ some e
unfolding lru_put
entry_of-lru_put k es e = elim (Option-cases (entry_of e.key es)) [
  | inr (old, h) ↦ rw (h, lru_put) (found (without e.key es))
  | inl h ↦ elim (Bool-cases (ltb (suc k) (length (e ∷ es)))) [
    | inr room ↦ rw (h, lru_put) (unfold exceeds in rw (room, lru_put) (found es))
    | inl full ↦ rw (h, lru_put) (unfold exceeds in rw (full, lru_put) (kept es h full))
  ]
]
  where
    found : (xs : List Entry) → entry_of e.key (e ∷ xs) ≡ some e
    found xs = unfold entry_of in rw (str_eq_refl e.key, entry_of) refl

    kept :
        (xs : List Entry)
        → entry_of e.key xs ≡ none
        → ltb (suc k) (length (e ∷ xs)) ≡ true
        → entry_of e.key (without (back e xs).key (e ∷ xs)) ≡ some e
    kept [] h full = absurd (ground arith)
    kept (x ∷ xs) h full =
        let other = back_other e.key x xs h in
        unfold without back in rw (other, without) (found (without (back x xs).key (x ∷ xs)))

-- In a valid cache with a capacity of at least 1, whatever it held before: what was stored under a key is what
-- a lookup of the key finds at any time before its expiry, and from then on it finds nothing.
pub get-put :
    (c : Cache) (k now later : ℕ) (key : String) (val : List ℕ)
    → IsValid c
    → c.cap ≡ pos (suc k)
    → (get (put c now key val) later key).0 ≡ (if ltb later (now + c.ttl) then some val else none)
unfolding lru_get view
get-put c k now later key val v room =
    let (v', stored) = put-refines c now key val v in
    let (_, seen) = get-refines (put c now key val) later key v' in
    let e : Entry = record { key = key; val = val; expires = now + c.ttl } in
    let here : entry_of key (view (put c now key val)) ≡ some e =
      ap (entry_of key) stored ∙ rw room (entry_of-lru_put k (view c) e) in
    ap (λ r. r.0) seen ∙ elim (Bool-cases (ltb later (now + c.ttl))) [
      | inl live ↦ rw (here, lru_get) (rw (live, lru_get) refl)
      | inr late ↦ rw (here, lru_get) (rw (late, lru_get) refl)
    ]
