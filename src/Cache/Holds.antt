-- ===== src/Cache/Holds.antt =====
-- Properties that every entry of the cache of services/gateway/internal/cache/cache.go has.
use chain_forge.Common.{ℕ, ◌+◌, ◌≡◌, sym, ap, ◌∙◌, ltb, str_eq, str_eq_iff, length}
use chain_forge.Common.{List, [], ◌∷◌, some, String, All, Bool-cases, Option-cases, inl, inr}
use chain_forge.Common.Int.{ℤ}
use chain_forge.Cache.{Cache, Entry, new, get, put, back, exceeds}
use chain_forge.Cache.Lru.{without, entry_of, lru_get, lru_put}
use chain_forge.Cache.Views.{view, IsValid}
use chain_forge.Cache.Refine.{new-IsValid, get-refines, put-refines}

-- What holds of all entries of a cache.
unfoldable pub Holds : (String → List ℕ → Type 0) → Cache → Type 0
Holds R c = IsValid c × All (λ e. R e.key e.val) (view c)

module _ (R : String → List ℕ → Type 0) where
  abbrev AllOf : List Entry → Type 0
  AllOf es = All (λ e. R e.key e.val) es

  without-AllOf : (key : String) (es : List Entry) → AllOf es → AllOf (without key es)
  unfolding without
  without-AllOf key [] h = tt
  without-AllOf key (e ∷ es) (h, hs) = elim (Bool-cases (str_eq key e.key)) [
    | inl is ↦ rw (is, without) (without-AllOf key es hs)
    | inr isnt ↦ rw (isnt, without) (h, without-AllOf key es hs)
  ]

  entry_of-AllOf :
      (key : String) (es : List Entry) (e : Entry)
      → AllOf es
      → entry_of key es ≡ some e
      → R key e.val × R e.key e.val
  unfolding entry_of
  entry_of-AllOf key [] e h found = absurd (cc found)
  entry_of-AllOf key (x ∷ es) e (h, hs) found = elim (Bool-cases (str_eq key x.key)) [
    | inl is ↦
        let same : x ≡ e = cc (rw (is, entry_of) at found) in
        let named : key ≡ x.key = (str_eq_iff key x.key).0 is in rw (← same) (rw named h, h)
    | inr isnt ↦ entry_of-AllOf key es e hs (rw (isnt, entry_of) at found)
  ]

  lru_get-AllOf :
      (es : List Entry) (now : ℕ) (key : String)
      → AllOf es
      → AllOf (lru_get es now key).1 × ((v : List ℕ) → (lru_get es now key).0 ≡ some v → R key v)
  unfolding lru_get
  lru_get-AllOf es now key h = elim (Option-cases (entry_of key es)) [
    | inl miss ↦ rw (miss, lru_get) (h, (λ v e. absurd (cc e)))
    | inr (e, hit) ↦
        let (mine, own) = entry_of-AllOf key es e h hit in
        elim (Bool-cases (ltb now e.expires)) [
          | inl live ↦
              rw (hit, lru_get)
                (rw (live, lru_get)
                  (
                    (own, without-AllOf key es h),
                    (λ v same. let eq : e.val ≡ v = cc same in rw (← eq) mine),
                  ))
          | inr late ↦
              rw (hit, lru_get)
                (rw (late, lru_get) (without-AllOf key es h, (λ v e. absurd (cc e))))
        ]
  ]

  lru_put-AllOf :
      (cap : ℤ) (es : List Entry) (e : Entry) → AllOf es → R e.key e.val → AllOf (lru_put cap es e)
  unfolding lru_put
  lru_put-AllOf cap es e h own = elim (Option-cases (entry_of e.key es)) [
    | inr (old, hit) ↦ rw (hit, lru_put) (own, without-AllOf e.key es h)
    | inl miss ↦ elim (Bool-cases (exceeds (length (e ∷ es)) cap)) [
      | inl full ↦
          rw (miss, lru_put) (rw (full, lru_put) (without-AllOf (back e es).key (e ∷ es) (own, h)))
      | inr room ↦ rw (miss, lru_put) (rw (room, lru_put) (own, h))
    ]
  ]

  -- A lookup keeps what holds of all entries, and it holds of what is found.
  pub get-Holds :
      (c : Cache) (now : ℕ) (key : String)
      → Holds R c
      → Holds R (get c now key).1 × ((v : List ℕ) → (get c now key).0 ≡ some v → R key v)
  unfolding Holds
  get-Holds c now key (valid, h) =
      let (valid', same) = get-refines c now key valid in
      let (kept, found) = lru_get-AllOf (view c) now key h in
      let seen : view (get c now key).1 ≡ (lru_get (view c) now key).1 = ap (λ r. r.1) same in
      let answered : (get c now key).0 ≡ (lru_get (view c) now key).0 = ap (λ r. r.0) same in
      ((valid', rw seen kept), (λ v e. found v (sym answered ∙ e)))

  pub put-Holds :
      (c : Cache) (now : ℕ) (key : String) (val : List ℕ)
      → Holds R c
      → R key val
      → Holds R (put c now key val)
  unfolding Holds
  put-Holds c now key val (valid, h) own =
      let (valid', same) = put-refines c now key val valid in
      (
        valid',
        rw same (
            lru_put-AllOf c.cap (view c) (record { key = key; val = val; expires = now + c.ttl }) h
              own),
      )

pub new-Holds : (R : String → List ℕ → Type 0) (cap : ℤ) (ttl : ℕ) → Holds R (new cap ttl)
unfolding Holds new view
new-Holds R cap ttl = (new-IsValid cap ttl, tt)
