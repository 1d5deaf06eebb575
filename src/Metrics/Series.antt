-- ===== src/Metrics/Series.antt =====
-- The series of services/gateway/internal/metrics/metrics.go: which calls mean the same one, and what its
-- value is after any history.
use chain_forge.Common.{
  ◌≡◌, refl, ap, ◌∙◌, Bool-cases, inl, inr, true, false, ◌⊎◌, All, if◌then◌else◌, List, [], ◌∷◌,
  some,
}
use chain_forge.Common.Bytes.{bytes_eq, bytes_eq_refl, bytes_eq_same}
use chain_forge.Metrics.{
  Text, Values, Labels, Registry, new, entry, assigned, key, describe, at, add, inc, set, value,
}
use chain_forge.Metrics.Identity.{IsSame, IsPlain, IsQuote, key-IsSame, IsSame-key}

-- What changes a registry.
pub data Op (F : Type 0) : Type 0 where
  adds : Text → Labels → F → Op F
  incs : Text → Labels → Op F
  sets : Text → Labels → F → Op F
  describes : Text → Text → Op F

module _ {A : Type 0} where
  pub entry-assigned_self :
      (m : List (Text × A)) (k : Text) (v : A) → entry (assigned m k v) k ≡ some v
  unfolding entry assigned
  entry-assigned_self [] k v = rw (bytes_eq_refl k) refl
  entry-assigned_self (e ∷ m) k v = elim (Bool-cases (bytes_eq e.0 k)) [
    | inl is ↦ rw (is, assigned) (rw (bytes_eq_refl k) refl)
    | inr isnt ↦ rw (isnt, assigned) (rw isnt (entry-assigned_self m k v))
  ]

  pub entry-assigned_other :
      (m : List (Text × A)) (k other : Text) (v : A)
      → bytes_eq k other ≡ false
      → entry (assigned m k v) other ≡ entry m other
  unfolding entry assigned
  entry-assigned_other [] k other v differ = rw differ refl
  entry-assigned_other (e ∷ m) k other v differ = elim (Bool-cases (bytes_eq e.0 k)) [
    | inl is ↦
        let as_key : bytes_eq e.0 other ≡ false = rw (bytes_eq_same e.0 k is) differ in
        rw (is, assigned) (rw (differ, as_key) refl)
    | inr isnt ↦ elim (Bool-cases (bytes_eq e.0 other)) [
      | inl at_other ↦ rw (isnt, assigned) (rw at_other refl)
      | inr past ↦ rw (isnt, assigned) (rw past (entry-assigned_other m k other v differ))
    ]
  ]

module _ {F : Type 0} (fl : Values F) where
  unfoldable pub apply : Registry F → Op F → Registry F
  apply r (adds name labels v) = add fl r name labels v
  apply r (incs name labels) = inc fl r name labels
  apply r (sets name labels v) = set fl r name labels v
  apply r (describes name help) = describe fl r name help

  unfoldable pub apply_all : Registry F → List (Op F) → Registry F
  apply_all r [] = r
  apply_all r (op ∷ ops) = apply_all (apply r op) ops

  -- A number under a history of calls, of which those for the series add to it or set it.
  pub data IsTotal (name : Text) (labels : Labels) : F → List (Op F) → F → Type 0 where
    nothing : (v : F) → IsTotal name labels v [] v
    added :
        (v x u : F) (n : Text) (l : Labels) (ops : List (Op F))
        → IsSame n l name labels
        → IsTotal name labels (fl.add v x) ops u
        → IsTotal name labels v (adds n l x ∷ ops) u
    not_added :
        (v x u : F) (n : Text) (l : Labels) (ops : List (Op F))
        → ¬ IsSame n l name labels
        → IsTotal name labels v ops u
        → IsTotal name labels v (adds n l x ∷ ops) u
    incremented :
        (v u : F) (n : Text) (l : Labels) (ops : List (Op F))
        → IsSame n l name labels
        → IsTotal name labels (fl.add v fl.one_value) ops u
        → IsTotal name labels v (incs n l ∷ ops) u
    not_incremented :
        (v u : F) (n : Text) (l : Labels) (ops : List (Op F))
        → ¬ IsSame n l name labels
        → IsTotal name labels v ops u
        → IsTotal name labels v (incs n l ∷ ops) u
    set_to :
        (v x u : F) (n : Text) (l : Labels) (ops : List (Op F))
        → IsSame n l name labels
        → IsTotal name labels x ops u
        → IsTotal name labels v (sets n l x ∷ ops) u
    not_set :
        (v x u : F) (n : Text) (l : Labels) (ops : List (Op F))
        → ¬ IsSame n l name labels
        → IsTotal name labels v ops u
        → IsTotal name labels v (sets n l x ∷ ops) u
    described :
        (v u : F) (n h : Text) (ops : List (Op F))
        → IsTotal name labels v ops u
        → IsTotal name labels v (describes n h ∷ ops) u

  -- The series of a call is plain.
  unfoldable pub IsPlainOp : Op F → Type 0
  IsPlainOp (adds n l x) = IsPlain n l
  IsPlainOp (incs n l) = IsPlain n l
  IsPlainOp (sets n l x) = IsPlain n l
  IsPlainOp (describes n h) = Unit

  at-assigned :
      (r : Registry F) (i k : Text) (x : F)
      → at fl (record r { vals = assigned r.vals i x }) k ≡ (if bytes_eq i k then x else at fl r k)
  unfolding at
  at-assigned r i k x = elim (Bool-cases (bytes_eq i k)) [
    | inl is ↦ rw (bytes_eq_same i k is, entry-assigned_self r.vals k x, bytes_eq_refl k, at) refl
    | inr isnt ↦ rw (isnt, entry-assigned_other r.vals i k x isnt, at) refl
  ]

  at-add :
      (r : Registry F) (name : Text) (labels : Labels) (x : F) (k : Text)
      → at fl (add fl r name labels x) k
        ≡ (if bytes_eq (key fl name labels) k then fl.add (at fl r k) x else at fl r k)
  unfolding add
  at-add r name labels x k =
      let i = key fl name labels in
      at-assigned r i k (fl.add (at fl r i) x) ∙ elim (Bool-cases (bytes_eq i k)) [
        | inl is ↦ rw is (ap (λ t. fl.add (at fl r t) x) (bytes_eq_same i k is))
        | inr isnt ↦ rw isnt refl
      ]

  at-describe :
      (r : Registry F) (name help : Text) (k : Text) → at fl (describe fl r name help) k ≡ at fl r k
  unfolding describe at
  at-describe r name help k = refl

  module _ (quoted : IsQuote fl.quote) (name : Text) (labels : Labels)
      (plain : IsPlain name labels) where
    k : Text
    k = key fl name labels

    -- A call is for the series exactly when its key is.
    key_test :
        (n : Text) (l : Labels)
        → IsPlain n l
        → ((bytes_eq (key fl n l) k ≡ true) × IsSame n l name labels)
          ⊎ ((bytes_eq (key fl n l) k ≡ false) × (¬ IsSame n l name labels))
    unfolding k
    key_test n l p = elim (Bool-cases (bytes_eq (key fl n l) (key fl name labels))) [
      | inl e ↦ inl (e, key-IsSame fl quoted l labels n name p plain (bytes_eq_same _ _ e))
      | inr e ↦ inr (
        e,
        λ s.
            let own : bytes_eq (key fl n l) (key fl name labels) ≡ true =
              rw (IsSame-key fl n name l labels s) (bytes_eq_refl _) in
            absurd (cc (own, e)),
      )
    ]

    value-from :
        (ops : List (Op F)) (r : Registry F)
        → All IsPlainOp ops
        → IsTotal name labels (at fl r k) ops (at fl (apply_all r ops) k)
    unfolding apply_all apply inc set IsPlainOp
    value-from [] r plains = nothing _
    value-from (adds n l x ∷ ops) r (p, plains) =
        let rest = value-from ops (add fl r n l x) plains in
        elim (key_test n l p) [
          | inl (e, s) ↦ added _ x _ n l ops s (rw e at (rw (at-add r n l x k) at rest))
          | inr (e, s) ↦ not_added _ x _ n l ops s (rw e at (rw (at-add r n l x k) at rest))
        ]
    value-from (incs n l ∷ ops) r (p, plains) =
        let rest = value-from ops (add fl r n l fl.one_value) plains in
        elim (key_test n l p) [
          | inl (e, s) ↦
              incremented _ _ n l ops s (rw e at (rw (at-add r n l fl.one_value k) at rest))
          | inr (e, s) ↦
              not_incremented _ _ n l ops s (rw e at (rw (at-add r n l fl.one_value k) at rest))
        ]
    value-from (sets n l x ∷ ops) r (p, plains) =
        let rest = value-from ops (set fl r n l x) plains in
        let old = at-assigned r (key fl n l) k x in
        elim (key_test n l p) [
          | inl (e, s) ↦ set_to _ x _ n l ops s (rw e at (rw old at rest))
          | inr (e, s) ↦ not_set _ x _ n l ops s (rw e at (rw old at rest))
        ]
    value-from (describes n h ∷ ops) r (p, plains) =
        described _ _ n h ops
          (rw (at-describe r n h k) at (value-from ops (describe fl r n h) plains))

    -- After any history of Add, Inc, Set and Describe, the value of a series is what the calls for it
    -- alone make of zero: those with the same name and the same set of labels with the same values, in
    -- whatever order the labels are visited. No name of a metric has a brace and no name of a label an
    -- equality sign, in the series and in the calls, and a text quoted by %q says where it ends.
    pub value-history :
        (ops : List (Op F))
        → All IsPlainOp ops
        → IsTotal name labels fl.zero_value ops (value fl (apply_all new ops) name labels)
    unfolding value k
    value-history ops plains =
        let empty : at fl new (key fl name labels) ≡ fl.zero_value = unfold at new entry in refl in
        rw empty at (value-from ops new plains)
