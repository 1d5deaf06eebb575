-- ===== src/Cache/Refine.antt =====
-- That the methods of services/gateway/internal/cache/cache.go do on the list and the map what `Lru`
-- says of a plain list of entries.
use chain_forge.Common.{ℕ, suc, ◌+◌, ◌≡◌, refl, sym, ◌∙◌, ap, ap₂}
use chain_forge.Common.{
  List, ◌∷◌, map, length, Option, none, some, String, Bool-cases, Option-cases, inl, inr,
}
use chain_forge.Common.{ltb, length-map}
use chain_forge.Common.Int.{ℤ}
use chain_forge.Cache.{Entry, Cache, new, write, unlink, move_to_front, back, get, exceeds, assign}
use chain_forge.Cache.{insert, put}
use chain_forge.Cache.Lru.{without, lru_get, lru_put}
use chain_forge.Cache.Views.{view, IsKnown, Fits, IsValid, known_of, Fits-drop, Fits-front}
use chain_forge.Cache.Views.{without-unlink, entry_of-known, entry_of-unknown}
use chain_forge.Cache.Views.{on_list-back, back-map}
use chain_forge.Cache.Updates.{
  assign-key, assign_self, map-assign, on_list-unlink_self, Fits-same_keys,
}
use chain_forge.Cache.Updates.{not_listed, Fits-new}

pub new-IsValid : (cap : ℤ) (ttl : ℕ) → IsValid (new cap ttl)
unfolding new IsKnown
new-IsValid cap ttl = record { known = tt; mapped = λ k i e. absurd (cc e) }

front_of :
    (elems : ℕ → Entry) (m : String → Option ℕ) (n el : ℕ) (key : String) (ll : List ℕ)
    → Fits elems m n ll
    → m key ≡ some el
    → move_to_front el ll ≡ el ∷ unlink el ll
unfolding move_to_front
front_of elems m n el key ll f e = rw ((f.mapped key el e).0, move_to_front) refl

-- `Get` on a valid cache is `lru_get` on its entries, and leaves the cache valid.
pub get-refines :
    (c : Cache) (now : ℕ) (key : String)
    → IsValid c
    → IsValid (get c now key).1
      × ((get c now key).0, view (get c now key).1) ≡ lru_get (view c) now key
unfolding get view lru_get
get-refines c now key v = elim (Option-cases (c.m key)) [
  | inl e ↦
      let miss = entry_of-unknown c.elems c.m c.next_id key c.ll e v.known in
      rw (e, get) (v, rw (miss, lru_get) refl)
  | inr (el, e) ↦
      let own = v.mapped key el e in
      let hit = entry_of-known c.elems c.m c.next_id key el c.ll e own.1 v.known own.0 in
      let out = without-unlink c.elems c.m c.next_id key el c.ll e own.1 v.known in
      let front = front_of c.elems c.m c.next_id el key c.ll v e in
      elim (Bool-cases (ltb now (c.elems el).expires)) [
        | inl live ↦
            rw (e, get)
              (rw (live, get)
                (
                  rw front (Fits-front c.elems c.m c.next_id el key c.ll v e),
                  rw (hit, lru_get) (rw (live, lru_get) (rw (front, out) refl)),
                ))
        | inr late ↦
            rw (e, get)
              (rw (late, get)
                (
                  Fits-drop c.elems c.m c.next_id el key c.ll v e own.1,
                  rw (hit, lru_get) (rw (late, lru_get) (rw out refl)),
                ))
      ]
]

-- The insertion of a new key, with its eviction.
insert-refines :
    (c : Cache) (e : Entry)
    → IsValid c
    → c.m e.key ≡ none
    → IsValid (insert c e) × view (insert c e) ≡ lru_put c.cap (view c) e
unfolding insert view lru_put
insert-refines c e v h =
    let n = c.next_id in
    let elems = assign c.elems n e in
    let m = write c.m e.key (some n) in
    let fresh = not_listed c.elems c.m n c.ll v.known in
    let fits = Fits-new c.elems c.m n e c.ll h v in
    let seen : map elems (n ∷ c.ll) ≡ e ∷ map c.elems c.ll =
      ap₂ ◌∷◌ (assign_self c.elems n e) (map-assign c.elems n e c.ll fresh) in
    let miss = entry_of-unknown c.elems c.m n e.key c.ll h v.known in
    let size : length (e ∷ map c.elems c.ll) ≡ length (n ∷ c.ll) =
      ap suc (length-map c.elems c.ll) in
    let last = back n c.ll in
    let own = known_of elems m (n + 1) last (n ∷ c.ll) fits.known (on_list-back n c.ll) in
    let last_key : (elems last).key ≡ (back e (map c.elems c.ll)).key =
      ap (λ x. x.key)
        (sym (back-map elems n c.ll)
          ∙ ap₂ back (assign_self c.elems n e) (map-assign c.elems n e c.ll fresh)) in
    elim (Bool-cases (exceeds (length (n ∷ c.ll)) c.cap)) [
      | inr room ↦
          rw (room, insert)
            (fits, rw (miss, lru_put) (rw (size, lru_put) (rw (room, lru_put) seen)))
      | inl full ↦
          rw (full, insert)
            (
              Fits-drop elems m (n + 1) last (elems last).key (n ∷ c.ll) fits own.0 refl,
              rw (miss, lru_put)
                  (rw (size, lru_put)
                    (rw (full, lru_put)
                      (sym (
                          without-unlink elems m (n + 1) (elems last).key last (n ∷ c.ll) own.0 refl
                            fits.known)
                        ∙ ap₂ without last_key seen))),
            )
    ]

-- `Set` on a valid cache is `lru_put` on its entries, and leaves the cache valid.
pub put-refines :
    (c : Cache) (now : ℕ) (key : String) (val : List ℕ)
    → IsValid c
    → IsValid (put c now key val)
      × view (put c now key val)
        ≡ lru_put c.cap (view c) (record { key = key; val = val; expires = now + c.ttl })
unfolding put view lru_put
put-refines c now key val v = elim (Option-cases (c.m key)) [
  | inl e ↦
      rw (e, put) (insert-refines c (record { key = key; val = val; expires = now + c.ttl }) v e)
  | inr (el, e) ↦
      let new_entry : Entry = record { key = key; val = val; expires = now + c.ttl } in
      let own = v.mapped key el e in
      let hit = entry_of-known c.elems c.m c.next_id key el c.ll e own.1 v.known own.0 in
      let out = without-unlink c.elems c.m c.next_id key el c.ll e own.1 v.known in
      let front = front_of c.elems c.m c.next_id el key c.ll v e in
      let kept = map-assign c.elems el new_entry (unlink el c.ll) (on_list-unlink_self el c.ll) in
      rw (e, put)
        (
          rw front (
              Fits-same_keys c.elems (assign c.elems el new_entry) c.m c.next_id
                (el ∷ unlink el c.ll) (λ i. assign-key c.elems el new_entry i own.1)
                (Fits-front c.elems c.m c.next_id el key c.ll v e)),
          rw (hit, lru_put)
              (rw front (ap₂ ◌∷◌ (assign_self c.elems el new_entry) (kept ∙ sym out))),
        )
]
