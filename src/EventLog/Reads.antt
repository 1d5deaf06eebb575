-- ===== src/EventLog/Reads.antt =====
-- `Read`, `Commit` and `Committed` of services/gateway/internal/eventlog/eventlog.go.
use chain_forge.Common.{
  ℕ, zero, suc, ◌+◌, ◌%◌, ◌^◌, ◌≤◌, ◌<◌, ◌≡◌, refl, List, [], ◌∷◌, ◌++◌, some, arith,
}
use chain_forge.Common.{
  length, get_elem?, take, drop, min, Bool-cases, Option-cases, inl, inr, ◌⊎◌, ◌≢◌, leb, ap, ◌∙◌,
  sym,
}
use chain_forge.Common.{ap₂, length-append}
use native.Mathlib.Nat.{zero-add, suc-add}
use chain_forge.Common.Int.{ℤ, pos, negsuc, clip}
use chain_forge.EventLog.{Event, Log, read, slice, ck, digit, commit, committed, same_text}
use chain_forge.EventLog.Valid.{IsValid}
use chain_forge.EventLog.Streams.{part_events, same_text_iff}

take-min {ℓ} : {A : Type ℓ} (n : ℕ) (xs : List A) → take (min (length xs) n) xs ≡ take n xs
take-min zero xs = let e : min (length xs) 0 ≡ 0 = omega arith in rw e
take-min (suc n) [] = let e : min 0 (suc n) ≡ 0 = omega arith in rw e
take-min (suc n) (x ∷ xs) =
    let e : min (suc (length xs)) (suc n) ≡ suc (min (length xs) n) = omega arith in
    rw e (ap (◌∷◌ x) (take-min n xs))

drop-take-min {ℓ} :
    {A : Type ℓ} (from n : ℕ) (xs : List A)
    → from ≤ length xs
    → drop from (take (min (length xs) (from + n)) xs) ≡ take n (drop from xs)
drop-take-min zero n xs h = rw zero-add (take-min n xs)
drop-take-min (suc from) n [] h = absurd (omega arith)
drop-take-min (suc from) n (x ∷ xs) h =
    let e : min (suc (length xs)) (suc from + n) ≡ suc (min (length xs) (from + n)) = omega arith in
    rw e (drop-take-min from n xs (omega arith))

drop_all {ℓ} : {A : Type ℓ} (n : ℕ) (xs : List A) → length xs ≤ n → drop n xs ≡ []
drop_all zero [] h = refl
drop_all zero (x ∷ xs) h = absurd (omega arith)
drop_all (suc n) [] h = refl
drop_all (suc n) (x ∷ xs) h = drop_all n xs (omega arith)

take-nil {ℓ} : {A : Type ℓ} (n : ℕ) → take {A = A} n [] ≡ []
take-nil zero = refl
take-nil (suc n) = refl

none_taken : (from n : ℕ) → take n (drop {A = Event} from []) ≡ []
none_taken from n =
    ap (take n) (drop_all {A = Event} from [] (omega arith)) ∙ take-nil {A = Event} n

-- The partition that an `int` names.
unfoldable pub addressed : Log → ℤ → List Event
addressed l (pos p) = part_events l p
addressed l (negsuc p) = []

slice_lem :
    (from n : ℕ) (evs : List Event)
    → from < length evs
    → length evs < 2 ^ 63
    → n < 2 ^ 63
    → slice from (min (length evs) ((from + n) % 2 ^ 64)) evs ≡ some (take n (drop from evs))
unfolding slice
slice_lem from n evs hf hl hn =
    let e : (from + n) % 2 ^ 64 ≡ from + n = omega arith in
    rw e (ground (arith, drop-take-min from n evs))

read_part :
    (l : Log) (p from : ℕ) (limit : ℤ)
    → clip limit < 2 ^ 63
    → length (part_events l p) < 2 ^ 63
    → read l (pos p) from limit ≡ some (take (clip limit) (drop from (part_events l p)))
unfolding read part_events
read_part l p from limit hl h = elim (Option-cases (get_elem? l.parts p)) [
  | inl e ↦ rw (e, read, part_events) (ap some (sym (none_taken from (clip limit))))
  | inr (evs, e) ↦
      let small : length evs < 2 ^ 63 = rw (e, part_events) at h in
      rw (e, read, part_events)
        (elim (Bool-cases (leb (length evs) from)) [
          | inl past ↦ rw past (
              ap some (
                sym (
                  ap (take (clip limit)) (drop_all from evs (ground arith))
                  ∙ take-nil {A = Event} (clip limit))))
          | inr inside ↦ rw inside (slice_lem from (clip limit) evs (ground arith) small hl)
        ])
]

negative_read : (l : Log) (p from : ℕ) (limit : ℤ) → read l (negsuc p) from limit ≡ some []
unfolding read
negative_read l p from limit = refl

-- Every read with a limit below 2 ^ 63, in a log whose partitions are shorter than that, is in
-- bounds. It returns the events of the partition from the offset `from` on, as many as there are
-- and at most `limit`; a partition that does not exist and a negative limit give none.
pub read_lem :
    (l : Log) (part limit : ℤ) (from : ℕ)
    → clip limit < 2 ^ 63
    → ((p : ℕ) → length (part_events l p) < 2 ^ 63)
    → read l part from limit ≡ some (take (clip limit) (drop from (addressed l part)))
unfolding addressed
read_lem l (pos p) limit from hl h = read_part l p from limit hl (h p)
read_lem l (negsuc p) limit from hl h =
    negative_read l p from limit ∙ ap some (sym (none_taken from (clip limit)))

get_elem?-take {ℓ} :
    {A : Type ℓ} (n i : ℕ) (xs : List A) {a : A}
    → get_elem? (take n xs) i ≡ some a
    → get_elem? xs i ≡ some a
get_elem?-take zero i xs e = cc
get_elem?-take (suc n) i [] e = cc
get_elem?-take (suc n) zero (x ∷ xs) e = e
get_elem?-take (suc n) (suc i) (x ∷ xs) e = get_elem?-take n i xs e

get_elem?-take-drop {ℓ} :
    {A : Type ℓ} (n from i : ℕ) (xs : List A) {a : A}
    → get_elem? (take n (drop from xs)) i ≡ some a
    → get_elem? xs (from + i) ≡ some a
get_elem?-take-drop n zero i xs e = rw zero-add (get_elem?-take n i xs e)
get_elem?-take-drop zero (suc from) i [] e = cc
get_elem?-take-drop (suc n) (suc from) i [] e = cc
get_elem?-take-drop n (suc from) i (x ∷ xs) e = rw suc-add (get_elem?-take-drop n from i xs e)

placed_in :
    (l : Log) (p i : ℕ) (ev : Event)
    → IsValid l
    → get_elem? (part_events l p) i ≡ some ev
    → (ev.offset ≡ i) × (pos p ≡ pos ev.partition)
unfolding part_events
placed_in l p i ev v e = elim (Option-cases (get_elem? l.parts p)) [
  | inl no_part ↦ absurd (ground (arith, no_part, e))
  | inr (evs, e') ↦
      let at : get_elem? evs i ≡ some ev = rw (e', part_events) at e in
      let w = v.placed p i evs ev e' at in (w.at, ap pos (sym w.own))
]

-- In a valid log with partitions shorter than 2 ^ 63, what a read with a limit below 2 ^ 63 returns
-- at position i is the event of that partition at the offset `from + i`.
pub read_offsets :
    (l : Log) (part limit : ℤ) (from i : ℕ) (out : List Event) (ev : Event)
    → IsValid l
    → clip limit < 2 ^ 63
    → ((p : ℕ) → length (part_events l p) < 2 ^ 63)
    → read l part from limit ≡ some out
    → get_elem? out i ≡ some ev
    → (ev.offset ≡ from + i) × (part ≡ pos ev.partition)
read_offsets l (negsuc p) limit from i out ev v hl h e at =
    let empty : out ≡ [] = cc (e, negative_read l p from limit) in
    absurd (ground (arith, empty, at))
read_offsets l (pos p) limit from i out ev v hl h e at =
    let same : out ≡ take (clip limit) (drop from (part_events l p)) =
      cc (e, read_part l p from limit hl (h p)) in
    let found : get_elem? (part_events l p) (from + i) ≡ some ev =
      get_elem?-take-drop (clip limit) from i (part_events l p) (rw same at at) in
    placed_in l p (from + i) ev v found

ck_injective :
    (g g' : List ℕ) (c c' : ℕ) → g ++ (b'/' ∷ c ∷ []) ≡ g' ++ (b'/' ∷ c' ∷ []) → (g ≡ g') × (c ≡ c')
ck_injective [] [] c c' e = (refl, cc)
ck_injective [] (x ∷ g') c c' e =
    absurd (omega (arith, ap length e, length-append g' (b'/' ∷ c' ∷ [])))
ck_injective (x ∷ g) [] c c' e =
    absurd (omega (arith, ap length e, length-append g (b'/' ∷ c ∷ [])))
ck_injective (x ∷ g) (y ∷ g') c c' e =
    let (same, last) = ck_injective g g' c c' (cc) in (ap₂ ◌∷◌ (cc) same, last)

digit_small : (p : ℕ) → p < 55248 → digit (pos p) ≡ 48 + p
unfolding digit
digit_small p h = ground arith

ck_pos :
    (g g' : List ℕ) (p p' : ℕ)
    → p < 55248
    → p' < 55248
    → ck g (pos p) ≡ ck g' (pos p')
    → (g ≡ g') × (p ≡ p')
unfolding ck
ck_pos g g' p p' hp hp' e =
    let (same, last) = ck_injective g g' _ _ e in
    (same, omega (arith, last, digit_small p hp, digit_small p' hp'))

-- For partitions below 55248: a group reads back the offset that it committed for a partition, and
-- no commit changes what another group, or the same group on another partition, reads.
pub committed-commit :
    (l : Log) (g g' : List ℕ) (p p' n : ℕ)
    → p < 55248
    → p' < 55248
    → (committed (commit l g (pos p) n) g (pos p) ≡ n)
      × ((g ≢ g') ⊎ (p ≢ p')
          → committed (commit l g (pos p) n) g' (pos p') ≡ committed l g' (pos p'))
unfolding commit committed
committed-commit l g g' p p' n hp hp' = (
  rw ((same_text_iff (ck g (pos p)) (ck g (pos p))).1 refl),
  λ differ. elim (Bool-cases (same_text (ck g (pos p)) (ck g' (pos p')))) [
    | inr e ↦ rw e
    | inl e ↦
        let (same_group, same_part) = ck_pos g g' p p' hp hp' ((same_text_iff _ _).0 e) in
        absurd (elim differ [ inl d ↦ d same_group | inr d ↦ d same_part ])
  ],
)
