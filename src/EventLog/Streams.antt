-- ===== src/EventLog/Streams.antt =====
-- What the log of services/gateway/internal/eventlog/eventlog.go holds under a key.
use chain_forge.Common.{
  ℕ, ◌%◌, ◌^◌, ◌≡◌, refl, List, [], ◌∷◌, ◌++◌, none, some, String, arith, Option-cases, inl, inr,
}
use chain_forge.Common.{
  length, get_elem?, length-set, get_elem?-set_self, get_elem?-set_ne, lt-length, Bool-cases,
}
use chain_forge.Common.{true, false, ◌↔◌, ==_iff, ap, if◌then◌else◌, append-nil, ◌∙◌, sym, max, ◌≢◌}
use chain_forge.Common.{get_elem?-replicate, length-replicate}
use chain_forge.Common.Int.{ℤ, clip}
use chain_forge.EventLog.{Event, Log, Result, new}
use chain_forge.EventLog.{same_text, partition_of, event_at, sum32}
use chain_forge.EventLog.Valid.{Appended}
use native.Mathlib.Decide.{ℕ_discrete}

pub same_text_iff : (s t : List ℕ) → (same_text s t ≡ true) ↔ (s ≡ t)
unfolding same_text
same_text_iff [] [] = ((λ _. refl), (λ _. refl))
same_text_iff [] (b ∷ t) = ((λ e. cc), (λ e. cc))
same_text_iff (a ∷ s) [] = ((λ e. cc), (λ e. cc))
same_text_iff (a ∷ s) (b ∷ t) =
    let ih = same_text_iff s t in
    let eq = ==_iff a b in ((λ e. ground (arith, ih, eq)), (λ e. ground (arith, ih, eq)))

-- The events of a partition; none, if there is no such partition.
unfoldable pub part_events : Log → ℕ → List Event
part_events l p = elim (get_elem? l.parts p) [ none ↦ [] | some evs ↦ evs ]

unfoldable pub with_key : List ℕ → List Event → List Event
with_key k [] = []
with_key k (ev ∷ evs) = if same_text k ev.key then ev ∷ with_key k evs else with_key k evs

-- What the log holds of a key, oldest first.
unfoldable pub stream : Log → List ℕ → List Event
stream l k = with_key k (part_events l (partition_of l k))

with_key-append :
    (k : List ℕ) (xs ys : List Event) → with_key k (xs ++ ys) ≡ with_key k xs ++ with_key k ys
unfolding with_key
with_key-append k [] ys = refl
with_key-append k (x ∷ xs) ys = ground (arith, with_key-append k xs ys)

part_events_of :
    (l : Log) (p : ℕ) (evs : List Event) → get_elem? l.parts p ≡ some evs → part_events l p ≡ evs
unfolding part_events
part_events_of l p evs e = rw (e, part_events)

part_events_same :
    (l l' : Log) (p : ℕ)
    → get_elem? l'.parts p ≡ get_elem? l.parts p
    → part_events l' p ≡ part_events l p
unfolding part_events
part_events_same l l' p e = rw (e, part_events)

pub part_events_empty :
    (l : Log) (p : ℕ)
    → ((evs : List Event) → get_elem? l.parts p ≡ some evs → [] ≡ evs)
    → part_events l p ≡ []
unfolding part_events
part_events_empty l p h = elim (Option-cases (get_elem? l.parts p)) [
  | inl e ↦ rw (e, part_events)
  | inr (evs, e) ↦ rw (e, part_events) (sym (h evs e))
]

pub new_parts : (n : ℤ) → length (new n).parts ≡ max (clip n) 1
unfolding new
new_parts n = length-replicate (max (clip n) 1) none_yet
  where
    none_yet : List Event
    none_yet = []

pub new-empty : (n : ℤ) (p : ℕ) (evs : List Event) → get_elem? (new n).parts p ≡ some evs → [] ≡ evs
unfolding new
new-empty n p evs e = get_elem?-replicate (max (clip n) 1) p [] evs e

pub same_parts : (l l' : Log) (k : List ℕ) → l'.parts ≡ l.parts → stream l' k ≡ stream l k
unfolding stream part_events
same_parts l l' k e = rw e

-- An append puts its event at the end of its key's stream and leaves the other streams alone.
pub stream-append :
    (l : Log) (key k : List ℕ) (typ : String) (raw : List ℕ) {r : Result (Event × Log)}
    → (a : Appended l key typ raw r)
    → stream a.out k
      ≡ stream l k
        ++ (if same_text k key then event_at (partition_of l key) a.evs key typ raw ∷ [] else [])
unfolding stream
stream-append l key k typ raw a = elim (ℕ_discrete p q) [
  | yes here ↦
      let new_part : part_events a.out q ≡ a.evs ++ (ev ∷ []) =
        part_events_of a.out q _ (
          rw (a.parts, ← here) (get_elem?-set_self l.parts p _ (lt-length l.parts p a.old_part))) in
      let old_part : part_events l q ≡ a.evs = part_events_of l q a.evs (rw (← here) a.old_part) in
      rw (same_q, new_part, old_part) (with_key-append k a.evs (ev ∷ []) ∙ unfold with_key in refl)
  | no apart ↦
      let other : same_text k key ≡ false = differ apart in
      let kept : part_events a.out q ≡ part_events l q =
        part_events_same l a.out q (rw a.parts (get_elem?-set_ne l.parts p q _ apart)) in
      rw (same_q, kept, other) (sym (append-nil _))
]
  where
    p : ℕ
    p = partition_of l key

    q : ℕ
    q = partition_of l k

    ev : Event
    ev = event_at p a.evs key typ raw

    same_q : partition_of a.out k ≡ q
    same_q = ap (λ m. sum32 k % (m % 2 ^ 32)) (ap length a.parts ∙ length-set l.parts p _)

    differ : p ≢ q → same_text k key ≡ false
    differ apart = elim (Bool-cases (same_text k key)) [
      | inr e ↦ e
      | inl e ↦ absurd (apart (ap (λ t. partition_of l t) (sym ((same_text_iff k key).0 e))))
    ]
