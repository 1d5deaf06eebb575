-- ===== src/Common/Sorting/Ascending.antt =====
-- The order on texts is total, sorting is a rearrangement, and whatever the order of the elements, it
-- ends in the one ascending list of them.
use Prim.Native.Nat.{ℕ}
use mathlib.Core.Path.{◌≡◌, refl, ap₂}
use mathlib.Core.Logic.{inl, inr}
use mathlib.Core.Logic.Or
use mathlib.Core.Bool.{true, false, Bool-set}
use mathlib.Core.List.{
  List, [], ◌∷◌, Mem, Perm, Pairwise, Pairwise-singleton, mem-cons_self, eq-or-mem_of_mem-cons,
}
use mathlib.Core.List.Perm
use native.Mathlib.Omega.{arith}
use chain_forge.Common.Tests.{Bool-cases}
use chain_forge.Common.Sorting.{text_lt, insert_by, sort_by}

pub text_lt_asymm : (a b : List ℕ) → text_lt a b ≡ true → text_lt b a ≡ false
unfolding text_lt
text_lt_asymm _ [] h = cc
text_lt_asymm [] (b ∷ bs) h = refl
text_lt_asymm (a ∷ as_) (b ∷ bs) h = ground (arith, text_lt_asymm as_ bs)

pub text_lt_irrefl : (a : List ℕ) → text_lt a a ≡ false
unfolding text_lt
text_lt_irrefl [] = refl
text_lt_irrefl (a ∷ as_) = ground (arith, text_lt_irrefl as_)

-- Not above is transitive.
pub text_le_trans :
    (a b c : List ℕ) → text_lt b a ≡ false → text_lt c b ≡ false → text_lt c a ≡ false
unfolding text_lt
text_le_trans [] b c h h' = refl
text_le_trans (a ∷ as_) [] c h h' = absurd (cc h)
text_le_trans (a ∷ as_) (b ∷ bs) [] h h' = absurd (cc h')
text_le_trans (a ∷ as_) (b ∷ bs) (c ∷ cs) h h' = ground (arith, text_le_trans as_ bs cs)

pub text_lt_antisymm : (a b : List ℕ) → text_lt a b ≡ false → text_lt b a ≡ false → a ≡ b
unfolding text_lt
text_lt_antisymm [] [] h h' = refl
text_lt_antisymm [] (b ∷ bs) h h' = absurd (cc h)
text_lt_antisymm (a ∷ as_) [] h h' = absurd (cc h')
text_lt_antisymm (a ∷ as_) (b ∷ bs) h h' =
    let same : a ≡ b = ground arith in
    ap₂ ◌∷◌ same (text_lt_antisymm as_ bs (ground arith) (ground arith))

module _ {A : Type 0} (key : A → List ℕ) where
  abbrev pub IsAtMost : A → A → Type 0
  IsAtMost x y = text_lt (key y) (key x) ≡ false

  abbrev pub IsLess : A → A → Type 0
  IsLess x y = text_lt (key x) (key y) ≡ true

  pub insert_by-perm : (x : A) (l : List A) → Perm (insert_by key x l) (x ∷ l)
  unfolding insert_by
  insert_by-perm x [] = Perm.rfl
  insert_by-perm x (y ∷ ys) = elim (Bool-cases (text_lt (key y) (key x))) [
    | inl e ↦ rw (e, insert_by) (Perm.trans (Perm.cons y (insert_by-perm x ys)) (Perm.swap x y ys))
    | inr e ↦ rw (e, insert_by) Perm.rfl
  ]

  pub sort_by-perm : (l : List A) → Perm (sort_by key l) l
  unfolding sort_by
  sort_by-perm [] = Perm.rfl
  sort_by-perm (x ∷ xs) =
      Perm.trans (insert_by-perm x (sort_by key xs)) (Perm.cons x (sort_by-perm xs))

  insert_by-Pairwise :
      (x : A) {l : List A} → Pairwise IsAtMost l → Pairwise IsAtMost (insert_by key x l)
  unfolding insert_by
  insert_by-Pairwise x Pairwise.nil = Pairwise-singleton _ x
  insert_by-Pairwise x (Pairwise.cons {a = y} {l = ys} below s) =
      elim (Bool-cases (text_lt (key y) (key x))) [
        | inl e ↦ rw (e, insert_by) (Pairwise.cons (above e) (insert_by-Pairwise x s))
        | inr e ↦ rw (e, insert_by) (Pairwise.cons (under e) (Pairwise.cons below s))
      ]
    where
      above :
          text_lt (key y) (key x) ≡ true
          → (z : A) → Mem z (insert_by key x ys)
          → text_lt (key z) (key y) ≡ false
      above e z m =
          Or.elim (Bool-set _ _) (eq-or-mem_of_mem-cons ((Perm.mem_iff (insert_by-perm x ys)).0 m))
            (λ q. rw q (text_lt_asymm (key y) (key x) e)) (below z)

      under :
          text_lt (key y) (key x) ≡ false
          → (z : A) → Mem z (y ∷ ys)
          → text_lt (key z) (key x) ≡ false
      under e z m =
          Or.elim (Bool-set _ _) (eq-or-mem_of_mem-cons m) (λ q. rw q e)
            (λ t. text_le_trans (key x) (key y) (key z) e (below z t))

  pub sort_by-Pairwise : (l : List A) → Pairwise IsAtMost (sort_by key l)
  unfolding sort_by
  sort_by-Pairwise [] = Pairwise.nil
  sort_by-Pairwise (x ∷ xs) = insert_by-Pairwise x (sort_by-Pairwise xs)

  -- A list in which no element is above a later one is the strictly ascending list with its elements.
  ascending_unique :
      IsSet A → {l r : List A} → Pairwise IsAtMost l → Pairwise IsLess r → Perm l r → l ≡ r
  ascending_unique set {l = []} _ _ p = Perm.nil-eq p
  ascending_unique set {l = a ∷ l} {r = []} _ _ p = Perm.eq-nil p
  ascending_unique set {l = a ∷ l} {r = b ∷ r} (Pairwise.cons below sl) (Pairwise.cons above sr) p =
      let under : text_lt (key b) (key a) ≡ false =
        Or.elim (Bool-set _ _) (eq-or-mem_of_mem-cons ((Perm.mem_iff p).1 mem-cons_self))
          (λ q. rw q (text_lt_irrefl (key a))) (below b) in
      let heads : a ≡ b =
        Or.elim (set a b) (eq-or-mem_of_mem-cons ((Perm.mem_iff p).0 mem-cons_self)) (λ q. q)
          (λ m. absurd (cc (above a m, under))) in
      let tails = Perm.cons_inv (Perm.trans p (Perm.symm (Perm.cons' heads Perm.rfl))) in
      ap₂ ◌∷◌ heads (ascending_unique set {l = l} sl sr tails)

  pub sort_by-of_perm : IsSet A → {l r : List A} → Pairwise IsLess r → Perm l r → sort_by key l ≡ r
  sort_by-of_perm set {l} sr p =
      ascending_unique set (sort_by-Pairwise l) sr (Perm.trans (sort_by-perm l) p)

texts_unique :
    {l r : List (List ℕ)}
    → Pairwise (IsAtMost (λ t. t)) l
    → Pairwise (IsAtMost (λ t. t)) r
    → Perm l r
    → l ≡ r
texts_unique {l = []} _ _ p = Perm.nil-eq p
texts_unique {l = a ∷ l} {r = []} _ _ p = Perm.eq-nil p
texts_unique {l = a ∷ l} {r = b ∷ r} (Pairwise.cons below sl) (Pairwise.cons above sr) p =
    let under : text_lt b a ≡ false =
      Or.elim (Bool-set _ _) (eq-or-mem_of_mem-cons ((Perm.mem_iff p).1 mem-cons_self))
        (λ q. rw q (text_lt_irrefl a)) (below b) in
    let over : text_lt a b ≡ false =
      Or.elim (Bool-set _ _) (eq-or-mem_of_mem-cons ((Perm.mem_iff p).0 mem-cons_self))
        (λ q. rw q (text_lt_irrefl b)) (above a) in
    let heads = text_lt_antisymm a b over under in
    let tails = Perm.cons_inv (Perm.trans p (Perm.symm (Perm.cons' heads Perm.rfl))) in
    ap₂ ◌∷◌ heads (texts_unique {l = l} sl sr tails)

-- Texts have one sorted list, in whatever order they are.
pub sort_by-perm_eq : {l r : List (List ℕ)} → Perm l r → sort_by (λ t. t) l ≡ sort_by (λ t. t) r
sort_by-perm_eq {l} {r} p =
    texts_unique (sort_by-Pairwise (λ t. t) l) (sort_by-Pairwise (λ t. t) r)
      (Perm.trans (sort_by-perm (λ t. t) l) (Perm.trans p (Perm.symm (sort_by-perm (λ t. t) r))))
