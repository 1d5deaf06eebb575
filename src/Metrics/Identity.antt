-- ===== src/Metrics/Identity.antt =====
-- Which calls of services/gateway/internal/metrics/metrics.go mean the same series: the key of a series
-- against its name and its labels.
use chain_forge.Common.{
  ℕ, ◌≤◌, ◌≡◌, ◌≢◌, refl, ap, ap₂, sym, subst, ◌∙◌, arith, All, List, [], ◌∷◌, ◌++◌, map, length,
  length-append, append_assoc, Bool-cases, inl, inr,
}
use chain_forge.Common.Sorting.{text_lt, insert_by, sort_by}
use chain_forge.Common.Sorting.Ascending.{sort_by-perm, sort_by-perm_eq}
use chain_forge.Metrics.{Text, Values, Labels, join, part, braced, key}
use mathlib.Core.List.{Perm}
use mathlib.Core.List.Perm

-- A name, and the same set of labels with the same values.
pub record IsSame (name : Text) (labels : Labels) (name' : Text) (labels' : Labels) : Type 0 where
  pub one_name : name ≡ name'
  pub one_set : Perm labels.names labels'.names
  pub values : All (λ t. labels.value_of t ≡ labels'.value_of t) labels.names

-- No brace in the name, and no equality sign in the name of a label.
pub record IsPlain (name : Text) (labels : Labels) : Type 0 where
  pub no_brace : All (λ c. c ≢ b'{') name
  pub no_sign : All (All (λ c. c ≢ b'=')) labels.names

-- A quoted text says where it ends, and what was quoted.
unfoldable pub IsQuote : (Text → Text) → Type 0
IsQuote quote = (a b s t : Text) → quote a ++ s ≡ quote b ++ t → (a ≡ b) × (s ≡ t)

module _ (P : Text → Type 0) where
  insert_by-All : (x : Text) (l : List Text) → P x → All P l → All P (insert_by (λ t. t) x l)
  unfolding insert_by
  insert_by-All x [] p ps = (p, tt)
  insert_by-All x (y ∷ ys) p (q, qs) = elim (Bool-cases (text_lt y x)) [
    | inl e ↦ rw (e, insert_by) (q, insert_by-All x ys p qs)
    | inr e ↦ rw (e, insert_by) (p, (q, qs))
  ]

  All-insert_by : (x : Text) (l : List Text) → All P (insert_by (λ t. t) x l) → P x × All P l
  unfolding insert_by
  All-insert_by x [] h = h
  All-insert_by x (y ∷ ys) h = elim (Bool-cases (text_lt y x)) [
    | inl e ↦
        let (q, rest) = rw (e, insert_by) at h in
        let (p, qs) = All-insert_by x ys rest in (p, (q, qs))
    | inr e ↦ rw (e, insert_by) at h
  ]

  sort_by-All : (l : List Text) → All P l → All P (sort_by (λ t. t) l)
  unfolding sort_by
  sort_by-All [] h = tt
  sort_by-All (x ∷ xs) (p, ps) = insert_by-All x _ p (sort_by-All xs ps)

  All-sort_by : (l : List Text) → All P (sort_by (λ t. t) l) → All P l
  unfolding sort_by
  All-sort_by [] h = tt
  All-sort_by (x ∷ xs) h = let (p, ps) = All-insert_by x _ h in (p, All-sort_by xs ps)

pub head_same : (c d : ℕ) (s t : Text) → c ∷ s ≡ d ∷ t → c ≡ d
head_same c d s t e = cc

pub tail_same : (c d : ℕ) (s t : Text) → c ∷ s ≡ d ∷ t → s ≡ t
tail_same c d s t e = cc

-- A text up to a byte that is not in it.
cut_same :
    (b : ℕ) (x y s t : Text)
    → All (λ c. c ≢ b) x
    → All (λ c. c ≢ b) y
    → x ++ (b ∷ s) ≡ y ++ (b ∷ t)
    → (x ≡ y) × (s ≡ t)
cut_same b [] [] s t hx hy e = (refl, cc)
cut_same b [] (c ∷ y) s t hx hy e = absurd (hy.0 (sym (cc)))
cut_same b (c ∷ x) [] s t hx hy e = absurd (hx.0 (cc))
cut_same b (c ∷ x) (d ∷ y) s t hx hy e =
    let (same, rest) = cut_same b x y s t hx.1 hy.1 (cc) in (ap₂ ◌∷◌ (cc) same, rest)

not_cut : (b : ℕ) (x y s : Text) → All (λ c. c ≢ b) x → x ≢ y ++ (b ∷ s)
not_cut b [] [] s h e = cc
not_cut b [] (d ∷ y) s h e = cc
not_cut b (c ∷ x) [] s h e = h.0 (cc)
not_cut b (c ∷ x) (d ∷ y) s h e = not_cut b x y s h.1 (cc)

module _ {F : Type 0} (fl : Values F) where
  comma : ℕ
  comma = b','

  brace : ℕ
  brace = b'}'

  no_end : {s : Text} → b',' ∷ s ≢ b'}' ∷ []
  unfolding comma brace
  no_end {s} e = let same : comma ≡ brace = head_same comma brace s [] e in absurd (omega arith)

  -- What stands behind the first label.
  tail_text : Labels → List Text → Text
  tail_text labels [] = b'}' ∷ []
  tail_text labels (k ∷ ks) = b',' ∷ (part fl labels k ++ tail_text labels ks)

  join-tail_text :
      (labels : Labels) (k : Text) (ks : List Text)
      → join (map (part fl labels) (k ∷ ks)) ++ (b'}' ∷ [])
        ≡ part fl labels k ++ tail_text labels ks
  unfolding join tail_text
  join-tail_text labels k [] = refl
  join-tail_text labels k (l ∷ ks) =
      append_assoc (part fl labels k) _ (b'}' ∷ [])
      ∙ ap (λ t. part fl labels k ++ (b',' ∷ t)) (join-tail_text labels l ks)

  tail_text_longer : (labels : Labels) (ks : List Text) → 1 ≤ length (tail_text labels ks)
  unfolding tail_text
  tail_text_longer labels [] = omega arith
  tail_text_longer labels (k ∷ ks) = omega arith

  no_label :
      (labels : Labels) (k : Text) (ks : List Text)
      → join (map (part fl labels) (k ∷ ks)) ++ (b'}' ∷ []) ≢ b'}' ∷ []
  unfolding part
  no_label labels k ks e =
      let q = fl.quote (labels.value_of k) in
      let whole : (k ++ (b'=' ∷ q)) ++ tail_text labels ks ≡ b'}' ∷ [] =
        sym (join-tail_text labels k ks) ∙ e in
      absurd (
        omega (
          arith,
          ap length whole,
          length-append (k ++ (b'=' ∷ q)) (tail_text labels ks),
          length-append k (b'=' ∷ q),
          tail_text_longer labels ks,
        ))

  module _ (quoted : IsQuote fl.quote) (l l' : Labels) where
    part_same :
        (k k' s t : Text)
        → All (λ c. c ≢ b'=') k
        → All (λ c. c ≢ b'=') k'
        → part fl l k ++ s ≡ part fl l' k' ++ t
        → (k ≡ k') × (l.value_of k ≡ l'.value_of k') × (s ≡ t)
    unfolding part IsQuote
    part_same k k' s t h h' e =
        let (same, rest) =
          cut_same b'=' k k' (fl.quote (l.value_of k) ++ s) (fl.quote (l'.value_of k') ++ t) h h'
            (sym (append_assoc k _ s) ∙ e ∙ append_assoc k' _ t) in
        let (value, more) = quoted _ _ s t rest in (same, value, more)

    tail_text_same :
        (ks ls : List Text)
        → All (All (λ c. c ≢ b'=')) ks
        → All (All (λ c. c ≢ b'=')) ls
        → tail_text l ks ≡ tail_text l' ls
        → (ks ≡ ls) × All (λ t. l.value_of t ≡ l'.value_of t) ks
    unfolding tail_text
    tail_text_same [] [] h h' e = (refl, tt)
    tail_text_same [] (k ∷ ls) h h' e = absurd (no_end (sym e))
    tail_text_same (k ∷ ks) [] h h' e = absurd (no_end e)
    tail_text_same (k ∷ ks) (k' ∷ ls) h h' e =
        let (same, value, rest) =
          part_same k k' (tail_text l ks) (tail_text l' ls) h.0 h'.0 (tail_same b',' b',' _ _ e) in
        let (sames, values) = tail_text_same ks ls h.1 h'.1 rest in
        (ap₂ ◌∷◌ same sames, (value ∙ ap l'.value_of (sym same), values))

    bodies_same :
        (ks ls : List Text)
        → All (All (λ c. c ≢ b'=')) ks
        → All (All (λ c. c ≢ b'=')) ls
        → join (map (part fl l) ks) ++ (b'}' ∷ []) ≡ join (map (part fl l') ls) ++ (b'}' ∷ [])
        → (ks ≡ ls) × All (λ t. l.value_of t ≡ l'.value_of t) ks
    unfolding join
    bodies_same [] [] h h' e = (refl, tt)
    bodies_same [] (k ∷ ls) h h' e = absurd (no_label l' k ls (sym e))
    bodies_same (k ∷ ks) [] h h' e = absurd (no_label l k ks e)
    bodies_same (k ∷ ks) (k' ∷ ls) h h' e =
        let e' = sym (join-tail_text l k ks) ∙ e ∙ join-tail_text l' k' ls in
        tail_text_same (k ∷ ks) (k' ∷ ls) h h' (unfold tail_text in ap (◌∷◌ b',') e')

    -- Two plain series with one key are the same.
    pub key-IsSame :
        (name name' : Text)
        → IsPlain name l
        → IsPlain name' l'
        → key fl name l ≡ key fl name' l'
        → IsSame name l name' l'
    unfolding key braced
    key-IsSame name name' p p' e = cases l.names l'.names refl refl p.no_sign p'.no_sign e
      where
        sorted : List Text → List Text
        sorted = sort_by (λ t. t)

        cases :
            (ks ls : List Text)
            → l.names ≡ ks
            → l'.names ≡ ls
            → All (All (λ c. c ≢ b'=')) ks
            → All (All (λ c. c ≢ b'=')) ls
            → braced fl name l ks ≡ braced fl name' l' ls
            → IsSame name l name' l'
        cases [] [] is is' h h' e = record {
          one_name = e;
          one_set = rw (is, is') Perm.rfl;
          values = rw is tt;
        }
        cases [] (k ∷ ls) is is' h h' e = absurd (not_cut b'{' name name' _ p.no_brace e)
        cases (k ∷ ks) [] is is' h h' e = absurd (not_cut b'{' name' name _ p'.no_brace (sym e))
        cases (k ∷ ks) (k' ∷ ls) is is' h h' e =
            let (same, bodies) = cut_same b'{' name name' _ _ p.no_brace p'.no_brace e in
            let (sames, values) =
              bodies_same (sorted (k ∷ ks)) (sorted (k' ∷ ls)) (sort_by-All _ (k ∷ ks) h)
                (sort_by-All _ (k' ∷ ls) h') bodies in
            let back = Perm.symm (sort_by-perm (λ t. t) (k ∷ ks)) in
            let there = sort_by-perm (λ t. t) (k' ∷ ls) in
            record {
              one_name = same;
              one_set =
                  rw (is, is') (Perm.trans back (subst (λ t. Perm t (k' ∷ ls)) (sym sames) there));
              values = rw is (All-sort_by _ (k ∷ ks) values);
            }

  -- The same series has one key.
  pub IsSame-key :
      (name name' : Text) (l l' : Labels) → IsSame name l name' l' → key fl name l ≡ key fl name' l'
  unfolding key
  IsSame-key name name' l l' s = rw (s.one_name) (cases l.names l'.names s.one_set s.values)
    where
      parts_same :
          (ks : List Text)
          → All (λ t. l.value_of t ≡ l'.value_of t) ks
          → map (part fl l) ks ≡ map (part fl l') ks
      parts_same [] h = refl
      parts_same (k ∷ ks) h =
          ap₂ ◌∷◌ (unfold part in ap (λ v. k ++ (b'=' ∷ fl.quote v)) h.0) (parts_same ks h.1)

      cases :
          (ks ls : List Text)
          → Perm ks ls
          → All (λ t. l.value_of t ≡ l'.value_of t) ks
          → braced fl name' l ks ≡ braced fl name' l' ls
      cases [] ls p h = rw (← Perm.nil-eq p) (unfold braced in refl)
      cases (k ∷ ks) [] p h = absurd (cc (Perm.eq-nil p))
      cases (k ∷ ks) (k' ∷ ls) p h =
          unfold braced in rw (parts_same _ (sort_by-All _ (k ∷ ks) h), sort_by-perm_eq p) refl
