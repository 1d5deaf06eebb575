-- ===== src/Cache/Updates.antt =====
-- The list and the map of services/gateway/internal/cache/cache.go when an element is written.
use chain_forge.Common.{ℕ, ◌+◌, ◌==◌, ◌≡◌, refl, sym, ◌∙◌, ap, ap₂, arith, true, false}
use chain_forge.Common.{List, [], ◌∷◌, map, Option, none, some, String, Bool-cases, inl, inr}
use chain_forge.Common.{str_eq, str_eq_iff, str_eq_refl, ==_iff}
use chain_forge.Cache.{Entry, write, unlink, on_list, assign}
use chain_forge.Cache.Views.{IsKnown, Fits, known_of, str_eq_ne}

-- The elements keep their keys when one is assigned an entry of its own key, and the list does not
-- change when an element that is not on it is assigned.
pub assign-key :
    (elems : ℕ → Entry) (el : ℕ) (e : Entry) (i : ℕ)
    → (elems el).key ≡ e.key
    → (assign elems el e i).key ≡ (elems i).key
unfolding assign
assign-key elems el e i k = elim (Bool-cases (el == i)) [
  | inl is ↦
      let eq : el ≡ i = (==_iff el i).0 is in rw (is, assign) (sym k ∙ ap (λ j. (elems j).key) eq)
  | inr isnt ↦ rw (isnt, assign) refl
]

pub assign_self : (elems : ℕ → Entry) (el : ℕ) (e : Entry) → assign elems el e el ≡ e
unfolding assign
assign_self elems el e = let is : (el == el) ≡ true = (==_iff el el).1 refl in rw (is, assign) refl

pub map-assign :
    (elems : ℕ → Entry) (el : ℕ) (e : Entry) (ll : List ℕ)
    → on_list el ll ≡ false
    → map (assign elems el e) ll ≡ map elems ll
unfolding assign on_list
map-assign elems el e [] h = refl
map-assign elems el e (x ∷ ll) h = elim (Bool-cases (x == el)) [
  | inl is ↦ absurd (cc (rw (is, on_list) at h))
  | inr isnt ↦
      let flip : (el == x) ≡ false = ground arith in
      ap₂ ◌∷◌ (rw (flip, assign) refl) (map-assign elems el e ll (rw (isnt, on_list) at h))
]

pub on_list-unlink_self : (el : ℕ) (ll : List ℕ) → on_list el (unlink el ll) ≡ false
unfolding on_list unlink
on_list-unlink_self el [] = refl
on_list-unlink_self el (x ∷ ll) = elim (Bool-cases (x == el)) [
  | inl is ↦ rw (is, unlink) (on_list-unlink_self el ll)
  | inr isnt ↦ rw (isnt, unlink) (rw (isnt, on_list) (on_list-unlink_self el ll))
]

pub IsKnown-same_keys :
    (elems elems' : ℕ → Entry) (m : String → Option ℕ) (n : ℕ) (ll : List ℕ)
    → ((i : ℕ) → (elems' i).key ≡ (elems i).key)
    → IsKnown elems m n ll
    → IsKnown elems' m n ll
unfolding IsKnown
IsKnown-same_keys elems elems' m n [] k hs = tt
IsKnown-same_keys elems elems' m n (x ∷ ll) k (h, hs) =
    ((rw (k x) h.0, h.1), IsKnown-same_keys elems elems' m n ll k hs)

pub Fits-same_keys :
    (elems elems' : ℕ → Entry) (m : String → Option ℕ) (n : ℕ) (ll : List ℕ)
    → ((i : ℕ) → (elems' i).key ≡ (elems i).key)
    → Fits elems m n ll
    → Fits elems' m n ll
Fits-same_keys elems elems' m n ll k f = record {
  known = IsKnown-same_keys elems elems' m n ll k f.known;
  mapped = λ key i h. ((f.mapped key i h).0, k i ∙ (f.mapped key i h).1);
}

-- A new element for a key that the map has not.
pub not_listed :
    (elems : ℕ → Entry) (m : String → Option ℕ) (n : ℕ) (ll : List ℕ)
    → IsKnown elems m n ll
    → on_list n ll ≡ false
unfolding IsKnown on_list
not_listed elems m n [] hs = refl
not_listed elems m n (x ∷ ll) (h, hs) =
    let isnt : (x == n) ≡ false = ground arith in rw (isnt, on_list) (not_listed elems m n ll hs)

pub IsKnown-new :
    (elems : ℕ → Entry) (m : String → Option ℕ) (n : ℕ) (e : Entry) (ll : List ℕ)
    → m e.key ≡ none
    → IsKnown elems m n ll
    → IsKnown (assign elems n e) (write m e.key (some n)) (n + 1) ll
unfolding IsKnown assign write
IsKnown-new elems m n e [] h hs = tt
IsKnown-new elems m n e (x ∷ ll) h (hx, hs) =
    let isnt : (n == x) ≡ false = ground arith in
    let apart : str_eq e.key (elems x).key ≡ false =
      str_eq_ne e.key (elems x).key (λ s. absurd (cc (h, hx.0, s))) in
    ((rw (isnt, assign) (rw (apart, write) hx.0), omega arith), IsKnown-new elems m n e ll h hs)

pub Fits-new :
    (elems : ℕ → Entry) (m : String → Option ℕ) (n : ℕ) (e : Entry) (ll : List ℕ)
    → m e.key ≡ none
    → Fits elems m n ll
    → Fits (assign elems n e) (write m e.key (some n)) (n + 1) (n ∷ ll)
unfolding write on_list
Fits-new elems m n e ll h f = record {
  known =
      unfold IsKnown in
      (
        (rw (assign_self elems n e) (rw (str_eq_refl e.key, write) refl), omega arith),
        IsKnown-new elems m n e ll h f.known,
      );
  mapped = λ k i hk. elim (Bool-cases (str_eq e.key k)) [
    | inl is ↦
        let eq : some n ≡ some i = rw (is, write) at hk in
        let here : n ≡ i = cc eq in
        let on : (n == i) ≡ true = (==_iff n i).1 here in
        (
          rw (on, on_list) refl,
          rw (← here) (ap (λ x. x.key) (assign_self elems n e) ∙ (str_eq_iff e.key k).0 is),
        )
    | inr isnt ↦
        let old = f.mapped k i (rw (isnt, write) at hk) in
        let known = known_of elems m n i ll f.known old.0 in
        let apart : (n == i) ≡ false = ground arith in
        (rw (apart, on_list) old.0, (unfold assign in rw (apart, assign) old.1))
  ];
}
