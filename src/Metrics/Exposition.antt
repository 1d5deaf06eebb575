-- ===== src/Metrics/Exposition.antt =====
-- The text that services/gateway/internal/metrics/metrics.go writes of a registry.
use chain_forge.Common.{
  ◌≡◌, refl, ap, Bool, Bool-cases, Option-cases, inl, inr, false, ◌||◌, if◌then◌else◌, List, [],
  ◌∷◌, ◌++◌, none, some, ◌⊎◌, ◌≢◌, ◌==◌, ==_iff, All, arith,
}
use chain_forge.Common.Bytes.{bytes_eq, bytes_eq_same}
use chain_forge.Common.Sorting.Ascending.{IsLess, sort_by-of_perm}
use chain_forge.Metrics.{
  Text, Values, Registry, entry, family, is_seen, help_line, sample_line, at, help_due, seen_after,
  write_from, write,
}
use mathlib.Core.List.{Perm, Pairwise}

-- The family of a key is what stands before its first brace, or all of it.
pub IsFamily : Text → Text → Type 0
IsFamily k fam =
    All (λ c. c ≢ b'{') fam × ((k ≡ fam) ⊎ ((rest : Text) × (k ≡ fam ++ (b'{' ∷ rest))))

-- Whether one of some keys is of a family.
unfoldable pub has_family : (Text → Text) → Text → List Text → Bool
has_family family_of fam [] = false
has_family family_of fam (k ∷ ks) = bytes_eq (family_of k) fam || has_family family_of fam ks

family-IsFamily : (k : Text) → IsFamily k (family k)
unfolding family IsFamily
family-IsFamily [] = (tt, inl refl)
family-IsFamily (c ∷ k) = elim (Bool-cases (c == b'{')) [
  | inl e ↦
      let brace : c ≡ b'{' = (==_iff c b'{').0 e in rw (e, family) (tt, inr (k, rw brace refl))
  | inr e ↦
      let (clean, split) = family-IsFamily k in
      let apart : c ≢ b'{' = ground (arith, e) in
      rw (e, family)
        (
          (apart, clean),
          elim split [
            | inl all ↦ inl (ap (◌∷◌ c) all)
            | inr (rest, cut) ↦ inr (rest, ap (◌∷◌ c) cut)
          ],
        )
]

module _ {F : Type 0} (fl : Values F) where
  -- `# HELP `, the family, a space, its help and the end of the line.
  unfoldable pub help_of : Registry F → Text → Text
  help_of r fam = elim (entry r.help fam) [
    | none ↦ []
    | some h ↦
        (b'#' ∷ b' ' ∷ b'H' ∷ b'E' ∷ b'L' ∷ b'P' ∷ b' ' ∷ []) ++ fam ++ (b' ' ∷ (h ++ (b'\n' ∷ [])))
  ]

  -- The key, a space, its number and the end of the line.
  unfoldable pub line_of : Registry F → Text → Text
  line_of r k =
      let number = elim (entry r.vals k) as (λ _. F) [ none ↦ fl.zero_value | some v ↦ v ] in
      k ++ (b' ' ∷ (fl.show number ++ (b'\n' ∷ [])))

  -- A line for each key, behind the help of its family at the first key of it.
  unfoldable pub exposition : (Text → Text) → Registry F → List Text → List Text → Text
  exposition family_of r before [] = []
  exposition family_of r before (k ∷ ks) =
      let rest = exposition family_of r (k ∷ before) ks in
      let help =
        if has_family family_of (family_of k) before then [] else help_of r (family_of k) in
      help ++ line_of r k ++ rest

  sample_line-line_of : (r : Registry F) (k : Text) → sample_line fl r k ≡ line_of r k
  unfolding sample_line line_of at
  sample_line-line_of r k = refl

  -- The families with a help text that are marked are those of the keys before.
  IsMarked : Registry F → List Text → List Text → Type 0
  IsMarked r seen before =
      (fam h : Text) → entry r.help fam ≡ some h → is_seen fam seen ≡ has_family family fam before

  IsMarked-next :
      (r : Registry F) (seen before : List Text) (k : Text)
      → IsMarked r seen before
      → IsMarked r (seen_after fl r seen (family k)) (k ∷ before)
  unfolding IsMarked seen_after is_seen has_family
  IsMarked-next r seen before k marked fam h e = elim (Option-cases (entry r.help (family k))) [
    | inl none_set ↦ elim (Bool-cases (bytes_eq (family k) fam)) [
      | inl is ↦ absurd (cc (ap (entry r.help) (bytes_eq_same (family k) fam is), none_set, e))
      | inr isnt ↦ rw (none_set, isnt, seen_after) (marked fam h e)
    ]
    | inr (h', set_to) ↦ elim (Bool-cases (is_seen (family k) seen)) [
      | inr unseen ↦
          rw (set_to, unseen, seen_after) (ap (λ b. bytes_eq (family k) fam || b) (marked fam h e))
      | inl seen_before ↦ elim (Bool-cases (bytes_eq (family k) fam)) [
        | inl is ↦
            rw (set_to, seen_before, is, seen_after)
              (rw (bytes_eq_same (family k) fam is) at seen_before)
        | inr isnt ↦ rw (set_to, seen_before, isnt, seen_after) (marked fam h e)
      ]
    ]
  ]

  help_due-help_of :
      (r : Registry F) (seen before : List Text) (fam : Text)
      → IsMarked r seen before
      → help_due fl r seen fam ≡ (if has_family family fam before then [] else help_of r fam)
  unfolding IsMarked help_due help_of help_line
  help_due-help_of r seen before fam marked = elim (Option-cases (entry r.help fam)) [
    | inl none_set ↦ elim (Bool-cases (has_family family fam before)) [
      | inl written ↦ rw (none_set, written, help_due) refl
      | inr unwritten ↦ rw (none_set, unwritten, help_due, help_of) refl
    ]
    | inr (h, set_to) ↦ rw (set_to, help_due, help_of) (rw (marked fam h set_to) refl)
  ]

  write_from-exposition :
      (r : Registry F) (ks seen before : List Text)
      → IsMarked r seen before
      → write_from fl r seen ks ≡ exposition family r before ks
  unfolding write_from exposition
  write_from-exposition r [] seen before marked = refl
  write_from-exposition r (k ∷ ks) seen before marked =
      rw
        (
          help_due-help_of r seen before (family k) marked,
          write_from-exposition r ks (seen_after fl r seen (family k)) (k ∷ before)
              (IsMarked-next r seen before k marked),
          sample_line-line_of r k,
        )
        refl

  -- In whatever order the keys are visited, Write gives a line for each of them in ascending order, of
  -- the key and its number, and the help of a family, if it has one, in front of the first line of it and
  -- nowhere else; the family of a key is what stands before its first brace.
  pub write-exposition :
      (r : Registry F) (order keys : List Text)
      → Pairwise (IsLess (λ t. t)) keys
      → Perm order keys
      → (family_of : Text → Text) × ((k : Text) → IsFamily k (family_of k))
        × (write fl r order ≡ exposition family_of r [] keys)
  unfolding write IsMarked is_seen has_family
  write-exposition r order keys ascending visits = (
    family,
    family-IsFamily,
    rw (sort_by-of_perm (λ t. t) (hlevel) ascending visits)
        (write_from-exposition r keys [] [] (λ fam h e. refl)),
  )
