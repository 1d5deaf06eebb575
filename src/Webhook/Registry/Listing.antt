-- ===== src/Webhook/Registry/Listing.antt =====
-- What the list of services/gateway/internal/webhook/webhook.go is after any history of registrations
-- and removals.
use chain_forge.Common.{
  ℕ, ◌+◌, ◌<◌, ◌≤◌, ◌≡◌, refl, arith, true, false, Bool, Bool-cases, inl, inr, if◌then◌else◌,
}
use chain_forge.Common.{List, [], ◌∷◌, ◌++◌, String}
use chain_forge.Common.Sorting.{text_lt}
use chain_forge.Common.Sorting.Ascending.{IsLess, sort_by-of_perm}
use chain_forge.Webhook.{Registration}
use chain_forge.Webhook.Registry.{
  Net, Registry, id_of, without, validate, register, remove, list, empty,
}
use chain_forge.Webhook.Registry.Identifiers.{id_of-lt}
use chain_forge.Webhook.Registry.Without.{without-mem, without-Pairwise, without-perm, without-new}
use text.Mathlib.TextEquality.{IsScalar-prop}
use mathlib.Core.Bool.{Bool-set}
use mathlib.Core.List.{
  Mem, Perm, Pairwise, Pairwise-singleton, mem-append, eq-or-mem_of_mem-cons, perm_append_singleton,
  not-mem-nil, Pairwise-append,
}
use mathlib.Core.List.Perm
use mathlib.Core.Logic.Or

-- What a caller does, and a registry after it.
pub data Op : Type 0 where
  adds : String → List ℕ → Op
  deletes : List ℕ → Op

unfoldable pub after_op : Net → Registry → Op → Registry
after_op net d (adds raw secret) = (register net d raw secret).1
after_op net d (deletes id) = (remove d id).1

unfoldable pub after : Net → Registry → List Op → Registry
after net d [] = d
after net d (op ∷ ops) = after net (after_op net d op) ops

-- The registrations of a history, in the order in which they were made, behind those there already.
unfoldable pub live : Net → Bool → List Op → ℕ → List Registration → List Registration
live net allow [] n l = l
live net allow (adds raw secret ∷ ops) n l =
    let r : Registration = record { id = id_of (n + 1); url = raw; secret = secret } in
    if validate net allow raw
    then live net allow ops (n + 1) (l ++ (r ∷ []))
    else live net allow ops n l
live net allow (deletes id ∷ ops) n l = live net allow ops n (without id l)

Registration-IsSet : IsSet Registration
Registration-IsSet = hlevel IsScalar-prop

abbrev id : Registration → List ℕ
id r = r.id

-- The registrations stand in the ascending order of identifiers that are below all that are to come.
abbrev IsBelowNext : ℕ → List Registration → Type 0
IsBelowNext n l =
    (x : Registration) → Mem x l → (k : ℕ) → n < k → k < 10000 → text_lt x.id (id_of k) ≡ true

abbrev IsListed : Registry → List Registration → Type 0
IsListed d l = Perm d.regs l × Pairwise (IsLess id) l × IsBelowNext d.seq l

registered : ℕ → String → List ℕ → Registration
registered n raw secret = record { id = id_of (n + 1); url = raw; secret = secret }

with_new : Registry → String → List ℕ → Registry
with_new d raw secret =
    let r = registered d.seq raw secret in
    record d { regs = r ∷ without r.id d.regs; seq = d.seq + 1 }

after_op-accepted :
    (net : Net) (d : Registry) (raw : String) (secret : List ℕ)
    → validate net d.allow_private raw ≡ true
    → after_op net d (adds raw secret) ≡ with_new d raw secret
unfolding after_op register with_new registered
after_op-accepted net d raw secret e = rw (e, after_op) refl

after_op-refused :
    (net : Net) (d : Registry) (raw : String) (secret : List ℕ)
    → validate net d.allow_private raw ≡ false
    → after_op net d (adds raw secret) ≡ d
unfolding after_op register
after_op-refused net d raw secret e = rw (e, after_op) refl

seq-with_new :
    (d : Registry) (raw : String) (secret : List ℕ) → (with_new d raw secret).seq ≡ d.seq + 1
unfolding with_new
seq-with_new d raw secret = refl

IsListed-adds :
    (d : Registry) (l : List Registration) (raw : String) (secret : List ℕ)
    → d.seq + 1 < 10000
    → IsListed d l
    → let r = registered d.seq raw secret in IsListed (with_new d raw secret) (l ++ (r ∷ []))
unfolding registered with_new
IsListed-adds d l raw secret bound (same, sorted, below) =
    let r : Registration = registered d.seq raw secret in
    let kept : Perm (without r.id d.regs) l =
      rw (without-new r.id l (λ x m. below x m (d.seq + 1) (omega arith) bound)) at
        (without-perm r.id same) in
    (
      Perm.trans (Perm.cons r kept) (Perm.symm (perm_append_singleton r l)),
      (Pairwise-append (λ a b. Bool-set _ _)).1 (
        sorted,
        Pairwise-singleton _ r,
        λ x m y m'.
            Or.elim (Bool-set _ _) (eq-or-mem_of_mem-cons m')
              (λ q. rw q (below x m (d.seq + 1) (omega arith) bound)) (λ t. absurd (not-mem-nil t)),
      ),
      λ x m k over under.
          Or.elim (Bool-set _ _) (mem-append.0 m) (λ old. below x old k (omega arith) under)
            (λ new.
              Or.elim (Bool-set _ _) (eq-or-mem_of_mem-cons new)
                (λ q. rw q (id_of-lt (d.seq + 1) k over under)) (λ t. absurd (not-mem-nil t))),
    )

IsListed-deletes :
    (d : Registry) (l : List Registration) (i : List ℕ)
    → IsListed d l
    → IsListed (record d { regs = without i d.regs }) (without i l)
IsListed-deletes d l i (same, sorted, below) =
    (without-perm i same, without-Pairwise i sorted, λ x m. below x (without-mem i l m))

seq-deletes : (net : Net) (d : Registry) (i : List ℕ) → (after_op net d (deletes i)).seq ≡ d.seq
unfolding after_op remove
seq-deletes net d i = refl

deletes-IsListed :
    (net : Net) (d : Registry) (l : List Registration) (i : List ℕ)
    → IsListed d l
    → IsListed (after_op net d (deletes i)) (without i l)
unfolding after_op remove
deletes-IsListed net d l i h = IsListed-deletes d l i h

seq-le-after : (net : Net) (ops : List Op) (d : Registry) → d.seq ≤ (after net d ops).seq
unfolding after
seq-le-after net [] d = omega arith
seq-le-after net (adds raw secret ∷ ops) d = elim (Bool-cases (validate net d.allow_private raw)) [
  | inl e ↦
      rw (after_op-accepted net d raw secret e, after)
        (omega (arith, seq-le-after net ops (with_new d raw secret), seq-with_new d raw secret))
  | inr e ↦ rw (after_op-refused net d raw secret e, after) (seq-le-after net ops d)
]
seq-le-after net (deletes i ∷ ops) d =
    omega (arith, seq-le-after net ops (after_op net d (deletes i)), seq-deletes net d i)

list-after :
    (net : Net) (ops : List Op) (d : Registry) (l order : List Registration)
    → (after net d ops).seq < 10000
    → IsListed d l
    → Perm order (after net d ops).regs
    → list order ≡ live net d.allow_private ops d.seq l
unfolding after after_op live remove list with_new registered
list-after net [] d l order bound (same, sorted, _) visits =
    sort_by-of_perm id Registration-IsSet sorted (Perm.trans visits same)
list-after net (adds raw secret ∷ ops) d l order bound listed visits =
    elim (Bool-cases (validate net d.allow_private raw)) [
      | inl e ↦
          let moved = after_op-accepted net d raw secret e in
          let d' = with_new d raw secret in
          let bound' : (after net d' ops).seq < 10000 = rw (moved, after) at bound in
          let small : d.seq + 1 < 10000 =
            omega (arith, seq-le-after net ops d', seq-with_new d raw secret) in
          rw (e, live)
            (list-after net ops d' (l ++ (registered d.seq raw secret ∷ [])) order bound'
              (IsListed-adds d l raw secret small listed) (rw (moved, after) at visits))
      | inr e ↦
          let moved = after_op-refused net d raw secret e in
          rw (e, live)
            (list-after net ops d l order (rw (moved, after) at bound) listed
              (rw (moved, after) at visits))
    ]
list-after net (deletes i ∷ ops) d l order bound listed visits =
    list-after net ops (remove d i).1 (without i l) order bound (IsListed-deletes d l i listed)
      visits

-- After any history of registrations and removals from an empty registry, in which fewer than 10000
-- are accepted, and whatever the order in which the map is visited, List returns the registrations
-- that were accepted and not removed, in the order in which they were made.
pub list-live :
    (net : Net) (allow : Bool) (ops : List Op) (order : List Registration)
    → (after net (empty allow) ops).seq < 10000
    → Perm order (after net (empty allow) ops).regs
    → list order ≡ live net allow ops 0 []
unfolding empty
list-live net allow ops order bound visits =
    list-after net ops (empty allow) [] order bound
      (Perm.rfl, Pairwise.nil, λ x m. absurd (not-mem-nil m)) visits
