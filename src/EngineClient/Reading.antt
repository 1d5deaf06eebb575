-- ===== src/EngineClient/Reading.antt =====
-- The loop that the decoders of services/gateway/internal/engineclient/engineclient.go share: it ends on
-- every input, and on a list of entries it is a fold over them.
use chain_forge.Common.{ℕ, zero, suc, ◌<◌, ◌≡◌, ◌≢◌, refl, arith, ◌∙◌, ap, sym, All}
use chain_forge.Common.{
  List, [], ◌∷◌, ◌++◌, length, ◌⊎◌, inl, inr, map, Bool-cases, ◌==◌, append_assoc, append-nil,
}
use chain_forge.PbWire
use chain_forge.PbWire.{Field, Read, field, done, next}
use chain_forge.PbWire.Totality.{IsRead, ended, refused, found, next-IsRead}
use chain_forge.PbWire.Optional.{opt_number, opt_bytes}
use chain_forge.PbWire.Entries.{
  number, bytes, Entry, IsEntry, field_of, put_entries, next-put_entries, length-put_entries,
}
use chain_forge.EngineClient.{Fault, Result, ok, failed, stuck, each_field, decode_with, after_read}

pub Result-cases :
    {A : Type 0} (r : Result A)
    → ((a : A) × (r ≡ ok a)) ⊎ (((f : Fault) × (r ≡ failed f)) ⊎ (r ≡ stuck))
Result-cases (ok a) = inl (a, refl)
Result-cases (failed e) = inr (inl (e, refl))
Result-cases stuck = inr (inr refl)

module _ {S : Type 0} (step : S → Field → Result S) where
  -- The fold over the fields of entries.
  unfoldable pub fold_entries : S → List Entry → Result S
  fold_entries s [] = ok s
  fold_entries s (e ∷ es) = elim (step s (field_of e)) [
    | ok s' ↦ fold_entries s' es
    | failed e ↦ failed e
    | stuck ↦ stuck
  ]

  module _ (step_ends : (s : S) (f : Field) → step s f ≢ stuck) where
    each_field-ends :
        (fuel : ℕ) (s : S) (b : List ℕ) → length b < fuel → each_field step fuel s b ≢ stuck
    unfolding each_field
    each_field-ends zero s b h = absurd (omega arith)
    each_field-ends (suc fuel) s b h = read (PbWire.next b) (next-IsRead b) (each_field-ends fuel)
      where
        read :
            (r : PbWire.Result Read)
            → IsRead b r
            → ((s' : S) (b' : List ℕ) → length b' < fuel → each_field step fuel s' b' ≢ stuck)
            → after_read step (each_field step fuel) s r ≢ stuck
        read r ended more = λ e. cc
        read r refused more = λ e. cc
        read r (found f rest is) more = elim (Result-cases (step s f)) [
          | inl (s', e) ↦ rw (e, after_read) (more s' rest (omega (arith, is.shorter)))
          | inr (inl (x, e)) ↦ rw (e, after_read) (λ e'. cc)
          | inr (inr e) ↦ absurd (step_ends s f e)
        ]

    -- A decoder whose fields do not run out of fuel does not.
    pub decode_with-ends : (s : S) (b : List ℕ) → decode_with step s b ≢ stuck
    unfolding decode_with
    decode_with-ends s b = each_field-ends (suc (length b)) s b (omega arith)

  each_field-put_entries :
      (fuel : ℕ) (s : S) (es : List Entry)
      → All IsEntry es
      → length es < fuel
      → each_field step fuel s (put_entries [] es) ≡ fold_entries s es
  unfolding each_field fold_entries put_entries
  each_field-put_entries zero s es h lt = absurd (omega arith)
  each_field-put_entries (suc fuel) s [] h lt = empty_end
    where
      nothing : next [] ≡ PbWire.ok done
      nothing = unfold next in refl

      empty_end : after_read step (each_field step fuel) s (next []) ≡ ok s
      empty_end = rw (nothing, after_read) refl
  each_field-put_entries (suc fuel) s (e ∷ es) (h, hs) lt =
      elim (Result-cases (step s (field_of e))) [
        | inl (s', r) ↦
            rw (next-put_entries e es h hs, after_read)
              (rw (r, after_read)
                (rw (r, fold_entries) (each_field-put_entries fuel s' es hs (omega arith))))
        | inr (inl (x, r)) ↦
            rw (next-put_entries e es h hs, after_read)
              (rw (r, after_read) (rw (r, fold_entries) refl))
        | inr (inr r) ↦
            rw (next-put_entries e es h hs, after_read)
              (rw (r, after_read) (rw (r, fold_entries) refl))
      ]

  -- A decoder on a message that was written entry by entry.
  pub decode_with-put_entries :
      (s : S) (es : List Entry)
      → All IsEntry es
      → decode_with step s (put_entries [] es) ≡ fold_entries s es
  unfolding decode_with
  decode_with-put_entries s es h =
      each_field-put_entries (suc (length (put_entries [] es))) s es h
        (omega (arith, length-put_entries es h))

  pub fold_entries-append :
      (s s' : S) (xs ys : List Entry)
      → fold_entries s xs ≡ ok s'
      → fold_entries s (xs ++ ys) ≡ fold_entries s' ys
  unfolding fold_entries
  fold_entries-append s s' [] ys e = let same : s ≡ s' = cc e in rw same refl
  fold_entries-append s s' (x ∷ xs) ys e = elim (Result-cases (step s (field_of x))) [
    | inl (t, r) ↦ rw (r, fold_entries) (fold_entries-append t s' xs ys (rw (r, fold_entries) at e))
    | inr (inl (f, r)) ↦ absurd (cc (rw (r, fold_entries) at e))
    | inr (inr r) ↦ absurd (cc (rw (r, fold_entries) at e))
  ]

  pub fold_entries-one :
      (s s' : S) (e : Entry) → step s (field_of e) ≡ ok s' → fold_entries s (e ∷ []) ≡ ok s'
  unfolding fold_entries
  fold_entries-one s s' e r = rw (r, fold_entries) refl

  pub fold-opt_number :
      (s s' : S) (f v : ℕ)
      → (v ≡ 0 → s ≡ s')
      → step s (field_of (number f v)) ≡ ok s'
      → fold_entries s (opt_number f v) ≡ ok s'
  unfolding opt_number fold_entries
  fold-opt_number s s' f v same r = elim (Bool-cases (v == 0)) [
    | inl e ↦ let kept : s ≡ s' = same (ground arith) in rw (e, opt_number) (ap ok kept)
    | inr e ↦ rw (e, opt_number) (fold_entries-one s s' (number f v) r)
  ]

  pub fold-opt_bytes :
      (s s' : S) (f : ℕ) (v : List ℕ)
      → (v ≡ [] → s ≡ s')
      → step s (field_of (bytes f v)) ≡ ok s'
      → fold_entries s (opt_bytes f v) ≡ ok s'
  unfolding opt_bytes fold_entries
  fold-opt_bytes s s' f [] same r = ap ok (same refl)
  fold-opt_bytes s s' f (b ∷ bs) same r = fold_entries-one s s' (bytes f (b ∷ bs)) r

  -- Repeated entries, one for each item: `at` is the state behind some of them.
  pub fold-map :
      {A : Type 0} (P : A → Type 0) (entry : A → Entry) (at : List A → S) (seen xs : List A)
      → ((before : List A) (x : A)
          → P x
          → step (at before) (field_of (entry x)) ≡ ok (at (before ++ (x ∷ []))))
      → All P xs
      → fold_entries (at seen) (map entry xs) ≡ ok (at (seen ++ xs))
  unfolding fold_entries
  fold-map P entry at seen [] h all = ap (λ t. ok (at t)) (sym (append-nil seen))
  fold-map P entry at seen (x ∷ xs) h (here, there) =
      rw (h seen x here, fold_entries)
        (fold-map P entry at (seen ++ (x ∷ [])) xs h there
          ∙ ap (λ t. ok (at t)) (append_assoc seen (x ∷ []) xs))
