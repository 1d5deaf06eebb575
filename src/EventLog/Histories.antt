-- ===== src/EventLog/Histories.antt =====
-- Whole histories of the log of services/gateway/internal/eventlog/eventlog.go.
use chain_forge.Common.{
  ℕ, suc, ◌+◌, ◌%◌, ◌^◌, ◌<◌, ◌≡◌, refl, arith, List, [], ◌∷◌, Option, none, some, String,
}
use chain_forge.Common.{Option-cases, inl, inr, length, max, All, subst}
use chain_forge.Common.Int.{ℤ, clip}
use chain_forge.EventLog.{
  Event, Log, Result, ok, json_error, panics, new, append, commit, subscribe, read,
}
use chain_forge.EventLog.{cancel, receive}
use chain_forge.EventLog.Valid.{IsValid, new-IsValid, append_lem, append_unserialised}
use chain_forge.EventLog.Subscribers.{subscribe-IsValid, cancel_lem, receive-IsValid, receive_keeps}
use chain_forge.EventLog.Short.{IsShort, new-IsShort, append-IsShort, read_served}

-- The calls of the log's users; a payload is of a type `V`.
pub data Call (V : Type 0) : Type 0 where
  appends : List ℕ → String → V → Call V
  reads : ℤ → ℕ → ℤ → Call V
  commits : List ℕ → ℤ → ℕ → Call V
  subscribes : ℤ → Call V
  cancels : ℕ → Call V
  receives : ℕ → Call V

-- The limit of a read is an int.
unfoldable pub IsCall : {V : Type 0} → Call V → Type 0
IsCall (reads part from limit) = clip limit < 2 ^ 63
IsCall _ = Unit

module _ {V : Type 0} (marshal : V → Option (List ℕ)) where
  pub appended : Log → Result (Event × Log) → Option Log
  appended l (ok (ev, l')) = some l'
  appended l json_error = some l
  appended l panics = none

  -- The log after a call; `none` is a panic.
  unfoldable pub step : Log → Call V → Option Log
  unfolding appended
  step l (appends key typ v) = appended l (append marshal l key typ v)
  step l (reads part from limit) = elim (read l part from limit) [ none ↦ none | some _ ↦ some l ]
  step l (commits group part next) = some (commit l group part next)
  step l (subscribes buf) = some (subscribe l buf).0
  step l (cancels id) = cancel l id
  step l (receives id) = some (receive l id).0

  unfoldable pub run : Log → List (Call V) → Option Log
  run l [] = some l
  run l (c ∷ cs) = elim (step l c) [ none ↦ none | some l' ↦ run l' cs ]

  commit-IsValid :
      (l : Log) (group : List ℕ) (part : ℤ) (next : ℕ)
      → IsValid l
      → IsValid (commit l group part next)
  unfolding commit
  commit-IsValid l group part next v = record {
    some_parts = v.some_parts;
    placed = v.placed;
    numbered = v.numbered;
    rising = v.rising;
    open_subs = v.open_subs;
  }

  -- What a call leaves of the log that it was made on.
  pub record Kept (l l' : Log) : Type 0 where
    pub valid : IsValid l'
    pub short : (k : ℕ) → IsShort k l → IsShort (suc k) l'

  same_parts : (l l' : Log) → IsValid l' → l'.parts ≡ l.parts → Kept l l'
  unfolding IsShort
  same_parts l l' v e = record {
    valid = v;
    short = λ k h p evs at. omega (arith, h p evs (rw e at at));
  }

  subscribe_parts : (l : Log) (buf : ℤ) → (subscribe l buf).0.parts ≡ l.parts
  unfolding subscribe
  subscribe_parts l buf = refl

  commit_parts :
      (l : Log) (group : List ℕ) (part : ℤ) (next : ℕ) → (commit l group part next).parts ≡ l.parts
  unfolding commit
  commit_parts l group part next = refl

  append-Kept :
      (l l' : Log) (key : List ℕ) (typ : String) (v : V)
      → IsValid l
      → step l (appends key typ v) ≡ some l'
      → Kept l l'
  unfolding step
  append-Kept l l' key typ v valid e = elim (Option-cases (marshal v)) [
    | inl no_json ↦
        let kept : l ≡ l' = ground (arith, append_unserialised marshal l key typ v no_json, e) in
        subst (Kept l) kept (same_parts l l valid refl)
    | inr (raw, json) ↦
        let a = append_lem marshal l key typ v raw valid json in
        let kept : a.out ≡ l' = ground (arith, a.done, e) in
        subst (Kept l) kept
          (record { valid = a.valid; short = append-IsShort marshal l key typ v raw a })
  ]

  pub step-Kept : (l l' : Log) (c : Call V) → IsValid l → step l c ≡ some l' → Kept l l'
  unfolding step
  step-Kept l l' (appends key typ v) valid e = append-Kept l l' key typ v valid e
  step-Kept l l' (reads part from limit) valid e =
      let kept : l ≡ l' = ground (arith, e) in subst (Kept l) kept (same_parts l l valid refl)
  step-Kept l l' (commits group part next) valid e =
      let kept : commit l group part next ≡ l' = cc e in
      subst (Kept l) kept
        (same_parts l _ (commit-IsValid l group part next valid) (commit_parts l group part next))
  step-Kept l l' (subscribes buf) valid e =
      let kept : (subscribe l buf).0 ≡ l' = cc e in
      subst (Kept l) kept (same_parts l _ (subscribe-IsValid l buf valid) (subscribe_parts l buf))
  step-Kept l l' (cancels id) valid e =
      let c = cancel_lem l id valid in
      let kept : c.out ≡ l' = cc (e, c.done) in
      subst (Kept l) kept (same_parts l c.out c.valid c.kept)
  step-Kept l l' (receives id) valid e =
      let kept : (receive l id).0 ≡ l' = cc e in
      subst (Kept l) kept (same_parts l _ (receive-IsValid l id valid) (receive_keeps l id))

  -- A call on a valid log does not panic.
  step_served :
      (k : ℕ) (l : Log) (c : Call V)
      → IsValid l
      → IsShort k l
      → k < 2 ^ 63
      → IsCall c
      → (l' : Log) × (step l c ≡ some l')
  unfolding step IsCall
  step_served k l (appends key typ v) valid short h is = elim (Option-cases (marshal v)) [
    | inl e ↦ (l, rw (append_unserialised marshal l key typ v e) refl)
    | inr (raw, e) ↦ let a = append_lem marshal l key typ v raw valid e in (a.out, rw (a.done))
  ]
  step_served k l (reads part from limit) valid short h is =
      let (evs, e) = read_served k l part limit from short h is in (l, rw (e, step))
  step_served k l (commits group part next) valid short h is = (_, refl)
  step_served k l (subscribes buf) valid short h is = (_, refl)
  step_served k l (cancels id) valid short h is = let c = cancel_lem l id valid in (c.out, c.done)
  step_served k l (receives id) valid short h is = (_, refl)

  run_served :
      (k : ℕ) (l : Log) (cs : List (Call V))
      → IsValid l
      → IsShort k l
      → k + length cs < 2 ^ 63
      → All IsCall cs
      → (l' : Log) × (run l cs ≡ some l') × IsValid l'
  unfolding run
  run_served k l [] v short h are = (l, refl, v)
  run_served k l (c ∷ cs) v short h (is, are) =
      let (l1, e) = step_served k l c v short (omega arith) is in
      let kept = step-Kept l l1 c v e in
      let (l2, e2, v2) =
        run_served (suc k) l1 cs kept.valid (kept.short k short) (omega arith) are in
      (l2, rw (e, run) e2, v2)

  -- Whatever sequence of fewer than 2 ^ 63 appends, reads, commits, subscriptions, cancellations and
  -- receptions a new log serves, with limits of reads below 2 ^ 63 and unless the number of
  -- partitions asked for is a positive multiple of 2 ^ 32, no call panics: nothing is sent on a
  -- closed channel, no channel is closed twice, nothing is divided by zero and no index or slice is
  -- out of range. Afterwards every event stands in the partition of its key at its own offset, and
  -- every subscriber's channel is open and holds at most its capacity.
  pub history-IsValid :
      (n : ℤ) (cs : List (Call V))
      → 0 < max (clip n) 1 % 2 ^ 32
      → length cs < 2 ^ 63
      → All IsCall cs
      → (l : Log) × (run (new n) cs ≡ some l) × IsValid l
  history-IsValid n cs h few are =
      run_served 0 (new n) cs (new-IsValid n h) (new-IsShort n) (omega arith) are
