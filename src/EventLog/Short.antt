-- ===== src/EventLog/Short.antt =====
-- The lengths of the partitions of services/gateway/internal/eventlog/eventlog.go, which keep the
-- slices of `Read` in range.
use chain_forge.Common.{ℕ, suc, ◌+◌, ◌%◌, ◌^◌, ◌≤◌, ◌<◌, ◌≡◌, refl, arith, List, [], ◌∷◌, ◌++◌}
use chain_forge.Common.{
  ◌∙◌, sym, drop, take, Option, some, String, Option-cases, Bool-cases, inl, inr, length,
}
use chain_forge.Common.{
  get_elem?, length-append, get_elem?-set_self, get_elem?-set_ne, get_elem?-replicate, max, leb,
  lt-length, min,
}
use chain_forge.Common.Int.{ℤ, pos, negsuc, clip}
use chain_forge.EventLog.{Event, Log, new, append, read, slice, partition_of, event_at}
use chain_forge.EventLog.Valid.{Appended}
use native.Mathlib.Decide.{ℕ_discrete}

-- No partition holds more than k events.
unfoldable pub IsShort : ℕ → Log → Type 0
IsShort k l = (p : ℕ) (evs : List Event) → get_elem? l.parts p ≡ some evs → length evs ≤ k

pub new-IsShort : (n : ℤ) → IsShort 0 (new n)
unfolding new IsShort
new-IsShort n p evs e =
    let empty : [] ≡ evs = get_elem?-replicate (max (clip n) 1) p [] evs e in
    rw (← empty) (omega arith)

pub append-IsShort :
    {V : Type 0} (marshal : V → Option (List ℕ)) (l : Log) (key : List ℕ) (typ : String) (v : V)
    (raw : List ℕ) (a : Appended l key typ raw (append marshal l key typ v)) (k : ℕ)
    → IsShort k l
    → IsShort (suc k) a.out
unfolding IsShort
append-IsShort marshal l key typ v raw a k h q evs e =
    let p = partition_of l key in
    let at = rw (a.parts) at e in
    let ev = event_at p a.evs key typ raw in
    elim (ℕ_discrete p q) [
      | no apart ↦ omega (arith, h q evs (sym (get_elem?-set_ne l.parts p q _ apart) ∙ at))
      | yes here ↦
          let written =
            get_elem?-set_self l.parts p (a.evs ++ (ev ∷ [])) (lt-length l.parts p a.old_part) in
          let same : evs ≡ a.evs ++ (ev ∷ []) = cc (here, written, at) in
          rw same (omega (arith, length-append a.evs (ev ∷ []), h p a.evs a.old_part))
    ]

pub read_served :
    (k : ℕ) (l : Log) (part limit : ℤ) (from : ℕ)
    → IsShort k l
    → k < 2 ^ 63
    → clip limit < 2 ^ 63
    → (evs : List Event) × (read l part from limit ≡ some evs)
unfolding read slice IsShort
read_served k l (negsuc p) limit from short h hl = ([], refl)
read_served k l (pos p) limit from short h hl = elim (Option-cases (get_elem? l.parts p)) [
  | inl e ↦ ([], rw (e, read))
  | inr (evs, e) ↦
      let few = short p evs e in
      let end : ℕ = min (length evs) ((from + clip limit) % 2 ^ 64) in
      elim (Bool-cases (leb (length evs) from)) [
        | inl past ↦ ([], rw (e, read) (rw past))
        | inr inside ↦ (drop from (take end evs), rw (e, read) (rw inside (ground arith)))
      ]
]
