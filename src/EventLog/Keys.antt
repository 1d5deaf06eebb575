-- ===== src/EventLog/Keys.antt =====
-- The order of the events of one key in services/gateway/internal/eventlog/eventlog.go.
use chain_forge.Common.{
  ℕ, ◌≡◌, refl, List, [], ◌∷◌, ◌++◌, Option, none, some, String, arith, Option-cases, inl, inr,
}
use chain_forge.Common.{Bool-cases}
use chain_forge.Common.{
  Bool, true, false, ap, if◌then◌else◌, map, append-nil, append_assoc, map-append, ◌∙◌, sym,
}
use chain_forge.Common.{◌<◌}
use chain_forge.Common.Int.{ℤ}
use chain_forge.EventLog.{Event, Log, Result, new, commit, subscribe}
use chain_forge.EventLog.{receive, cancel, same_text, part_count}
use chain_forge.EventLog.Valid.{
  IsValid, new-IsValid, append_lem, append_unserialised, append_uncounted, Appended,
}
use chain_forge.EventLog.Subscribers.{cancel_lem, receive_keeps}
use chain_forge.EventLog.Histories.{
  Call, appends, reads, commits, subscribes, cancels, receives, step, run, step-Kept,
}
use native.Mathlib.Decide.{ℕ_discrete}
use chain_forge.EventLog.Streams.{
  stream, with_key, part_events_empty, new_parts, new-empty, same_parts, stream-append,
}

if-append {ℓ} :
    {A : Type ℓ} (b : Bool) (x : A) (xs : List A)
    → (if b then x ∷ [] else []) ++ xs ≡ (if b then x ∷ xs else xs)
if-append true x xs = refl
if-append false x xs = refl

-- What the calls send under a key, in their order: each event's type and payload.
module _ {V : Type 0} (marshal : V → Option (List ℕ)) where
  unfoldable pub sent : List ℕ → List (Call V) → List (String × List ℕ)
  sent k [] = []
  sent k (appends key typ v ∷ cs) = elim (marshal v) [
    | none ↦ sent k cs
    | some raw ↦ if same_text k key then (typ, raw) ∷ sent k cs else sent k cs
  ]
  sent k (_ ∷ cs) = sent k cs

  unfoldable pub contents : Log → List ℕ → List (String × List ℕ)
  contents l k = map (λ ev. (ev.typ, ev.payload)) (stream l k)

  pub contents-append :
      (l : Log) (key k : List ℕ) (typ : String) (raw : List ℕ) {r : Result (Event × Log)}
      → (a : Appended l key typ raw r)
      → contents a.out k ≡ contents l k ++ (if same_text k key then (typ, raw) ∷ [] else [])
  unfolding contents
  contents-append l key k typ raw a = elim (Bool-cases (same_text k key)) [
    | inl e ↦ rw (stream-append l key k typ raw a, e) (map-append _ _ _)
    | inr e ↦ rw (stream-append l key k typ raw a, e) (map-append _ _ _)
  ]

  contents-new : (n : ℤ) (k : List ℕ) → contents (new n) k ≡ []
  unfolding contents stream with_key
  contents-new n k = rw (part_events_empty (new n) _ (new-empty n _))

  contents-same : (l l' : Log) (k : List ℕ) → l'.parts ≡ l.parts → contents l' k ≡ contents l k
  unfolding contents
  contents-same l l' k e = ap (map (λ ev. (ev.typ, ev.payload))) (same_parts l l' k e)

  -- The calls other than an append leave the partitions as they are.
  commit_keeps :
      (l l' : Log) (g : List ℕ) (p : ℤ) (n : ℕ)
      → some (commit l g p n) ≡ some l'
      → l'.parts ≡ l.parts
  unfolding commit
  commit_keeps l l' g p n e = ground arith

  subscribe_keeps : (l l' : Log) (b : ℤ) → some (subscribe l b).0 ≡ some l' → l'.parts ≡ l.parts
  unfolding subscribe
  subscribe_keeps l l' b e = ground arith

  grows_append :
      (l l' : Log) (key : List ℕ) (typ : String) (v : V) (cs : List (Call V)) (k : List ℕ)
      → IsValid l
      → step marshal l (appends key typ v) ≡ some l'
      → contents l' k ++ sent k cs ≡ contents l k ++ sent k (appends key typ v ∷ cs)
  unfolding step sent
  grows_append l l' key typ v cs k valid e = elim (Option-cases (marshal v)) [
    | inl no_json ↦
        let kept : l' ≡ l = ground (arith, append_unserialised marshal l key typ v no_json, e) in
        rw (no_json, sent) (ap (λ x. contents x k ++ sent k cs) kept)
    | inr (raw, json) ↦
        let a = append_lem marshal l key typ v raw valid json in
        let kept : l' ≡ a.out = ground (arith, a.done, e) in
        rw (json, sent)
          (ap (λ x. contents x k ++ sent k cs) kept
            ∙ ap (λ x. x ++ sent k cs) (contents-append l key k typ raw a)
            ∙ append_assoc (contents l k) _ (sent k cs)
            ∙ ap (λ x. contents l k ++ x) (if-append (same_text k key) (typ, raw) (sent k cs)))
  ]

  grows :
      (l l' : Log) (c : Call V) (cs : List (Call V)) (k : List ℕ)
      → IsValid l
      → step marshal l c ≡ some l'
      → contents l' k ++ sent k cs ≡ contents l k ++ sent k (c ∷ cs)
  unfolding step sent
  grows l l' (appends key typ v) cs k valid e = grows_append l l' key typ v cs k valid e
  grows l l' (reads p from limit) cs k valid e =
      let same : l' ≡ l = ground (arith, e) in
      ap (λ x. x ++ sent k cs) (contents-same l l' k (rw same refl))
  grows l l' (commits g p n) cs k valid e =
      ap (λ x. x ++ sent k cs) (contents-same l l' k (commit_keeps l l' g p n e))
  grows l l' (subscribes b) cs k valid e =
      ap (λ x. x ++ sent k cs) (contents-same l l' k (subscribe_keeps l l' b e))
  grows l l' (cancels id) cs k valid e =
      let c = cancel_lem l id valid in
      let same : l' ≡ c.out = cc (e, c.done) in
      ap (λ x. x ++ sent k cs) (contents-same l l' k (rw same c.kept))
  grows l l' (receives id) cs k valid e =
      let same : l' ≡ (receive l id).0 = cc e in
      ap (λ x. x ++ sent k cs) (contents-same l l' k (rw same (receive_keeps l id)))

  keeps_order :
      (l l' : Log) (cs : List (Call V)) (k : List ℕ)
      → IsValid l
      → run marshal l cs ≡ some l'
      → contents l' k ≡ contents l k ++ sent k cs
  unfolding run sent
  keeps_order l l' [] k valid e = let same : l' ≡ l = cc e in rw same (sym (append-nil _))
  keeps_order l l' (c ∷ cs) k valid e = elim (Option-cases (step marshal l c)) [
    | inl e1 ↦ absurd (cc (rw (e1, run) at e))
    | inr (l1, e1) ↦
        let kept = step-Kept marshal l l1 c valid e1 in
        keeps_order l1 l' cs k kept.valid (rw (e1, run) at e) ∙ grows l l1 c cs k valid e1
  ]

  cancel_keeps : (l l' : Log) (id : ℕ) → cancel l id ≡ some l' → l'.parts ≡ l.parts
  unfolding cancel
  cancel_keeps l l' id e = ground (arith, e)

  -- While an append can only panic, nothing is sent or stored.
  idle_step :
      (l l' : Log) (c : Call V) (cs : List (Call V)) (k : List ℕ)
      → part_count l ≡ 0
      → step marshal l c ≡ some l'
      → (l'.parts ≡ l.parts) × (sent k (c ∷ cs) ≡ sent k cs)
  unfolding step sent
  idle_step l l' (appends key typ v) cs k h e = elim (Option-cases (marshal v)) [
    | inl no_json ↦
        let kept : l' ≡ l = ground (arith, append_unserialised marshal l key typ v no_json, e) in
        (rw kept refl, rw (no_json, sent) refl)
    | inr (raw, json) ↦ absurd (ground (arith, append_uncounted marshal l key typ v raw json h, e))
  ]
  idle_step l l' (reads p from limit) cs k h e =
      let same : l' ≡ l = ground (arith, e) in (rw same refl, refl)
  idle_step l l' (commits g p n) cs k h e = (commit_keeps l l' g p n e, refl)
  idle_step l l' (subscribes b) cs k h e = (subscribe_keeps l l' b e, refl)
  idle_step l l' (cancels id) cs k h e = (cancel_keeps l l' id e, refl)
  idle_step l l' (receives id) cs k h e =
      let same : l' ≡ (receive l id).0 = cc e in (rw same (receive_keeps l id), refl)

  idle :
      (l l' : Log) (cs : List (Call V)) (k : List ℕ)
      → part_count l ≡ 0
      → run marshal l cs ≡ some l'
      → contents l' k ≡ contents l k ++ sent k cs
  unfolding run
  idle l l' [] k h e = let same : l' ≡ l = cc e in rw same (sym (unfold sent in append-nil _))
  idle l l' (c ∷ cs) k h e = elim (Option-cases (step marshal l c)) [
    | inl e1 ↦ absurd (cc (rw (e1, run) at e))
    | inr (l1, e1) ↦
        let (parts, none_sent) = idle_step l l1 c cs k h e1 in
        rw none_sent (
          idle l1 l' cs k (rw parts h) (rw (e1, run) at e)
          ∙ ap (λ x. x ++ sent k cs) (contents-same l l1 k parts))
  ]

  new_order :
      (n : ℤ) (cs : List (Call V)) (l : Log) (k : List ℕ)
      → run marshal (new n) cs ≡ some l
      → contents l k ≡ contents (new n) k ++ sent k cs
  new_order n cs l k e = elim (ℕ_discrete (part_count (new n)) 0) [
    | yes h ↦ idle (new n) l cs k h e
    | no h ↦
        let counted : 0 < part_count (new n) = omega arith in
        keeps_order (new n) l cs k (new-IsValid n (rw (new_parts n) at counted)) e
  ]

  -- After any history of a new log, the events that it holds under a key are exactly those that
  -- the history appended under that key and that could be serialised, in the order of the appends.
  pub run-new_key_order :
      (n : ℤ) (cs : List (Call V)) (l : Log) (k : List ℕ)
      → run marshal (new n) cs ≡ some l
      → contents l k ≡ sent k cs
  run-new_key_order n cs l k e = new_order n cs l k e ∙ ap (λ x. x ++ sent k cs) (contents-new n k)
