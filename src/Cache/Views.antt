-- ===== src/Cache/Views.antt =====
-- The list and the map of services/gateway/internal/cache/cache.go as one list of entries.
use chain_forge.Common.{ℕ, ◌≤◌, ◌<◌, ◌==◌, ◌≡◌, ◌≢◌, refl, sym, ◌∙◌, ap, arith, true, false}
use chain_forge.Common.{
  List, [], ◌∷◌, map, length, Option, none, some, String, Bool-cases, inl, inr,
}
use chain_forge.Common.{str_eq, str_eq_iff, str_eq_refl, ==_iff, All}
use chain_forge.Cache.{Entry, Cache, write, unlink, on_list, back}
use chain_forge.Cache.Lru.{without, entry_of}

-- The entries of a cache, the one used last in front.
unfoldable pub view : Cache → List Entry
view c = map c.elems c.ll

-- What the map knows of the elements of a list.
unfoldable pub IsKnown : (ℕ → Entry) → (String → Option ℕ) → ℕ → List ℕ → Type 0
IsKnown elems m n ll = All (λ i. (m (elems i).key ≡ some i) × (i < n)) ll

-- The map leads each listed element's key to that element, and leads to listed elements only.
pub record Fits (elems : ℕ → Entry) (m : String → Option ℕ) (n : ℕ) (ll : List ℕ) : Type 0 where
  pub known : IsKnown elems m n ll
  pub mapped : (k : String) (i : ℕ) → m k ≡ some i → (on_list i ll ≡ true) × ((elems i).key ≡ k)

abbrev pub IsValid : Cache → Type 0
IsValid c = Fits c.elems c.m c.next_id c.ll

pub str_eq_ne : (s t : String) → s ≢ t → str_eq s t ≡ false
str_eq_ne s t h = elim (Bool-cases (str_eq s t)) [
  | inl e ↦ absurd (h ((str_eq_iff s t).0 e))
  | inr e ↦ e
]

-- An element of a list whose elements the map knows has the key exactly if it is the key's.
pub same_key :
    (elems : ℕ → Entry) (m : String → Option ℕ) (key : String) (el i : ℕ)
    → m key ≡ some el
    → (elems el).key ≡ key
    → m (elems i).key ≡ some i
    → str_eq key (elems i).key ≡ (i == el)
same_key elems m key el i e k h = elim (Bool-cases (i == el)) [
  | inl is ↦ let eq : i ≡ el = (==_iff i el).0 is in rw (is, eq, k) (str_eq_refl key)
  | inr isnt ↦
      str_eq_ne key (elems i).key (λ s.
        let eq : i ≡ el = cc (e, h, s) in
        let is : (i == el) ≡ true = (==_iff i el).1 eq in absurd (cc (is, isnt)))
      ∙ sym isnt
]

-- The list with the elements of one key taken out, or looked through for it.
module _ (elems : ℕ → Entry) (m : String → Option ℕ) (n : ℕ) (key : String) where
  pub without-unlink :
      (el : ℕ) (ll : List ℕ)
      → m key ≡ some el
      → (elems el).key ≡ key
      → IsKnown elems m n ll
      → without key (map elems ll) ≡ map elems (unlink el ll)
  unfolding without unlink IsKnown
  without-unlink el [] e k h = refl
  without-unlink el (i ∷ ll) e k (h, hs) =
      let same = same_key elems m key el i e k h.0 in
      let rest = without-unlink el ll e k hs in
      elim (Bool-cases (i == el)) [
        | inl is ↦ rw (same, without) (rw (is, unlink) rest)
        | inr isnt ↦ rw (same, without) (rw (isnt, unlink) (ap (λ es. elems i ∷ es) rest))
      ]

  pub entry_of-known :
      (el : ℕ) (ll : List ℕ)
      → m key ≡ some el
      → (elems el).key ≡ key
      → IsKnown elems m n ll
      → on_list el ll ≡ true
      → entry_of key (map elems ll) ≡ some (elems el)
  unfolding entry_of on_list IsKnown
  entry_of-known el [] e k h on = cc
  entry_of-known el (i ∷ ll) e k (h, hs) on =
      let same = same_key elems m key el i e k h.0 in
      elim (Bool-cases (i == el)) [
        | inl is ↦
            let eq : i ≡ el = (==_iff i el).0 is in
            rw (same, entry_of) (rw (is, entry_of) (ap (λ j. some (elems j)) eq))
        | inr isnt ↦
            rw (same, entry_of)
              (rw (isnt, entry_of) (entry_of-known el ll e k hs (rw (isnt, on_list) at on)))
      ]

  pub entry_of-unknown :
      (ll : List ℕ) → m key ≡ none → IsKnown elems m n ll → entry_of key (map elems ll) ≡ none
  unfolding entry_of IsKnown
  entry_of-unknown [] e h = refl
  entry_of-unknown (i ∷ ll) e (h, hs) =
      let apart : str_eq key (elems i).key ≡ false =
        str_eq_ne key (elems i).key (λ s. absurd (cc (e, h.0, s))) in
      rw (apart, entry_of) (entry_of-unknown ll e hs)

-- Lists without an element.
pub on_list-unlink : (el i : ℕ) (ll : List ℕ) → i ≢ el → on_list i (unlink el ll) ≡ on_list i ll
unfolding on_list unlink
on_list-unlink el i [] h = refl
on_list-unlink el i (x ∷ ll) h = ground (arith, on_list-unlink el i ll h)

pub length-unlink : (el : ℕ) (ll : List ℕ) → length (unlink el ll) ≤ length ll
unfolding unlink
length-unlink el [] = omega arith
length-unlink el (x ∷ ll) = ground (arith, length-unlink el ll)

pub length-unlink_on :
    (el : ℕ) (ll : List ℕ) → on_list el ll ≡ true → length (unlink el ll) < length ll
unfolding unlink on_list
length-unlink_on el [] h = cc
length-unlink_on el (x ∷ ll) h = ground (arith, length-unlink_on el ll, length-unlink el ll)

pub on_list-back : (x : ℕ) (ll : List ℕ) → on_list (back x ll) (x ∷ ll) ≡ true
unfolding on_list back
on_list-back x [] = ground arith
on_list-back x (y ∷ ll) = ground (arith, on_list-back y ll)

pub back-map :
    (elems : ℕ → Entry) (x : ℕ) (ll : List ℕ) → back (elems x) (map elems ll) ≡ elems (back x ll)
unfolding back
back-map elems x [] = refl
back-map elems x (y ∷ ll) = back-map elems y ll

-- A list of known elements after a change.
pub known_of :
    (elems : ℕ → Entry) (m : String → Option ℕ) (n i : ℕ) (ll : List ℕ)
    → IsKnown elems m n ll
    → on_list i ll ≡ true
    → (m (elems i).key ≡ some i) × (i < n)
unfolding IsKnown on_list
known_of elems m n i [] hs on = absurd (cc on)
known_of elems m n i (x ∷ ll) (h, hs) on = elim (Bool-cases (x == i)) [
  | inl is ↦ let eq : x ≡ i = (==_iff x i).0 is in rw eq at h
  | inr isnt ↦ known_of elems m n i ll hs (rw (isnt, on_list) at on)
]

pub IsKnown-unlink :
    (elems : ℕ → Entry) (m : String → Option ℕ) (n el : ℕ) (ll : List ℕ)
    → IsKnown elems m n ll
    → IsKnown elems m n (unlink el ll)
unfolding IsKnown unlink
IsKnown-unlink elems m n el [] hs = tt
IsKnown-unlink elems m n el (x ∷ ll) (h, hs) = elim (Bool-cases (x == el)) [
  | inl is ↦ rw (is, unlink) (IsKnown-unlink elems m n el ll hs)
  | inr isnt ↦ rw (isnt, unlink) (h, IsKnown-unlink elems m n el ll hs)
]

pub IsKnown-drop :
    (elems : ℕ → Entry) (m : String → Option ℕ) (n el : ℕ) (key : String) (ll : List ℕ)
    → m key ≡ some el
    → (elems el).key ≡ key
    → IsKnown elems m n ll
    → IsKnown elems (write m key none) n (unlink el ll)
unfolding IsKnown unlink write
IsKnown-drop elems m n el key [] e k hs = tt
IsKnown-drop elems m n el key (x ∷ ll) e k (h, hs) =
    let same = same_key elems m key el x e k h.0 in
    let rest = IsKnown-drop elems m n el key ll e k hs in
    elim (Bool-cases (x == el)) [
      | inl is ↦ rw (is, unlink) rest
      | inr isnt ↦ rw (isnt, unlink) ((rw (same, write) (rw (isnt, write) h.0), h.1), rest)
    ]

-- Taking an element out of the list and its key out of the map.
pub Fits-drop :
    (elems : ℕ → Entry) (m : String → Option ℕ) (n el : ℕ) (key : String) (ll : List ℕ)
    → Fits elems m n ll
    → m key ≡ some el
    → (elems el).key ≡ key
    → Fits elems (write m key none) n (unlink el ll)
unfolding write
Fits-drop elems m n el key ll f e k = record {
  known = IsKnown-drop elems m n el key ll e k f.known;
  mapped = λ k' i h. elim (Bool-cases (str_eq key k')) [
    | inl is ↦ absurd (cc (rw (is, write) at h))
    | inr isnt ↦
        let old = f.mapped k' i (rw (isnt, write) at h) in
        (
          on_list-unlink el i ll (λ eq.
                let same : key ≡ k' = cc (k, old.1, eq) in
                absurd (cc ((str_eq_iff key k').1 same, isnt)))
              ∙ old.0,
          old.1,
        )
  ];
}

-- Moving an element to the front.
pub Fits-front :
    (elems : ℕ → Entry) (m : String → Option ℕ) (n el : ℕ) (key : String) (ll : List ℕ)
    → Fits elems m n ll
    → m key ≡ some el
    → Fits elems m n (el ∷ unlink el ll)
unfolding on_list
Fits-front elems m n el key ll f e = record {
  known =
      unfold IsKnown in
      (
        known_of elems m n el ll f.known (f.mapped key el e).0,
        IsKnown-unlink elems m n el ll f.known,
      );
  mapped = λ k i h. (
    elim (Bool-cases (el == i)) [
      | inl is ↦ rw (is, on_list) refl
      | inr isnt ↦
          rw (isnt, on_list)
            (on_list-unlink el i ll (λ eq.
                let is : (el == i) ≡ true = (==_iff el i).1 (sym eq) in absurd (cc (is, isnt)))
              ∙ (f.mapped k i h).0)
    ],
    (f.mapped k i h).1,
  );
}
