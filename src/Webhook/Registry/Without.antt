-- ===== src/Webhook/Registry/Without.antt =====
-- Deletion from the map of registrations in services/gateway/internal/webhook/webhook.go.
use chain_forge.Common.{ℕ, ◌≡◌, refl, subst, true, false, Bool-cases, inl, inr}
use chain_forge.Common.{List, [], ◌∷◌}
use chain_forge.Common.Bytes.{bytes_eq, bytes_eq_same}
use chain_forge.Common.Sorting.{text_lt}
use chain_forge.Common.Sorting.Ascending.{IsLess, text_lt_irrefl}
use chain_forge.Webhook.{Registration}
use chain_forge.Webhook.Registry.{without}
use mathlib.Core.List.{
  Mem, Mem-prop, Perm, Perm-prop, Pairwise, mem-cons_self, mem-cons_of_mem, eq-or-mem_of_mem-cons,
  Permᴰ,
}
use mathlib.Core.List.Perm
use mathlib.Core.Logic.Or
use mathlib.Core.Logic.{∥∥₁_elim}

-- Deleting keeps the elements and their order, and a rearrangement.
pub without-mem :
    (i : List ℕ) (l : List Registration) {x : Registration} → Mem x (without i l) → Mem x l
unfolding without
without-mem i [] m = m
without-mem i (r ∷ rs) m = elim (Bool-cases (bytes_eq r.id i)) [
  | inl e ↦ mem-cons_of_mem r (without-mem i rs (rw (e, without) at m))
  | inr e ↦
      Or.elim Mem-prop (eq-or-mem_of_mem-cons (rw (e, without) at m)) (λ q. rw q mem-cons_self)
        (λ t. mem-cons_of_mem r (without-mem i rs t))
]

pub without-Pairwise :
    (i : List ℕ) {l : List Registration}
    → Pairwise (IsLess (λ r. r.id)) l
    → Pairwise (IsLess (λ r. r.id)) (without i l)
unfolding without
without-Pairwise i Pairwise.nil = Pairwise.nil
without-Pairwise i (Pairwise.cons {a = r} {l = rs} below s) = elim (Bool-cases (bytes_eq r.id i)) [
  | inl e ↦ rw (e, without) (without-Pairwise i s)
  | inr e ↦
      rw (e, without) (Pairwise.cons (λ x m. below x (without-mem i rs m)) (without-Pairwise i s))
]

without-Permᴰ :
    (i : List ℕ) {l r : List Registration} → Permᴰ l r → Perm (without i l) (without i r)
unfolding without
without-Permᴰ i Permᴰ.nil = Perm.rfl
without-Permᴰ i (Permᴰ.cons {a = a} {b = b} e p) = elim (Bool-cases (bytes_eq a.id i)) [
  | inl is ↦
      let is' : bytes_eq b.id i ≡ true = rw e at is in rw (is, is', without) (without-Permᴰ i p)
  | inr isnt ↦
      let isnt' : bytes_eq b.id i ≡ false = rw e at isnt in
      rw (isnt, isnt', without) (Perm.cons' e (without-Permᴰ i p))
]
without-Permᴰ i (Permᴰ.swap {a = a} {b = b} {a' = a'} {b' = b'} {l = l} e e') =
    subst (λ x. Perm (without i (a ∷ b ∷ l)) (without i (x ∷ b' ∷ l))) e'
      (subst (λ x. Perm (without i (a ∷ b ∷ l)) (without i (b ∷ x ∷ l))) e swapped)
  where
    swapped : Perm (without i (a ∷ b ∷ l)) (without i (b ∷ a ∷ l))
    swapped = elim (Bool-cases (bytes_eq a.id i)) [
      | inl p ↦ elim (Bool-cases (bytes_eq b.id i)) [
        | inl q ↦ rw (p, q, without) Perm.rfl
        | inr q ↦ rw (p, q, without) Perm.rfl
      ]
      | inr p ↦ elim (Bool-cases (bytes_eq b.id i)) [
        | inl q ↦ rw (p, q, without) Perm.rfl
        | inr q ↦ rw (p, q, without) (Perm.swap b a (without i l))
      ]
    ]
without-Permᴰ i (Permᴰ.trans p q) = Perm.trans (without-Permᴰ i p) (without-Permᴰ i q)

pub without-perm :
    (i : List ℕ) {l r : List Registration} → Perm l r → Perm (without i l) (without i r)
without-perm i p = ∥∥₁_elim p Perm-prop (without-Permᴰ i)

-- Deleting an identifier that is above all others changes nothing.
pub without-new :
    (i : List ℕ) (l : List Registration)
    → ((x : Registration) → Mem x l → text_lt x.id i ≡ true)
    → without i l ≡ l
unfolding without
without-new i [] h = refl
without-new i (r ∷ rs) h = elim (Bool-cases (bytes_eq r.id i)) [
  | inl e ↦ absurd (cc (h r mem-cons_self, text_lt_irrefl i, bytes_eq_same r.id i e))
  | inr e ↦ rw (e, without) (rw (without-new i rs (λ x m. h x (mem-cons_of_mem r m))) refl)
]
