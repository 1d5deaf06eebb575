-- ===== src/EventLog/Valid.antt =====
-- The invariant of the log of services/gateway/internal/eventlog/eventlog.go, and that each method
-- keeps it.
use chain_forge.Common.{ℕ, ◌%◌, ◌^◌, ◌<◌, ◌≡◌, ◌==◌, true, false, refl, arith, ◌∙◌, sym}
use chain_forge.Common.{List, [], ◌∷◌, ◌++◌, length, get_elem?, set}
use chain_forge.Common.{Option, none, some, All, length-set, get_elem?-set_self, lt-length}
use chain_forge.Common.{get_elem?-set_ne, get_elem?-some, String}
use chain_forge.Common.{inl, inr, max, length-replicate, get_elem?-append_one, get_elem?-replicate}
use chain_forge.Common.Int.{ℤ, clip}
use chain_forge.EventLog.{Event, Log, Result, ok, json_error, panics, new, sum32, append_at}
use chain_forge.EventLog.{part_count, partition_of, event_at, append}
use chain_forge.EventLog.Deliver.{Rising, IsOpen, keep_room, Delivered, deliver_lem}
use chain_forge.EventLog.Deliver.{keep_room-Rising}
use native.Mathlib.Decide.{ℕ_discrete}
use native.Mathlib.Nat.{mod-lt}

-- An event stands in the partition of its key, at its offset.
pub record IsPlaced (parts p i : ℕ) (ev : Event) : Type 0 where
  pub own : ev.partition ≡ p
  pub at : ev.offset ≡ i
  pub hashed : sum32 ev.key % (parts % 2 ^ 32) ≡ p

-- There is a number of partitions that Append can divide by. Every event is placed; the subscribers' numbers rise and stay below the next one; each
-- subscriber's channel is open and within its capacity.
pub record IsValid (l : Log) : Type 0 where
  pub some_parts : 0 < part_count l
  pub placed :
      (p i : ℕ) (evs : List Event) (ev : Event)
      → get_elem? l.parts p ≡ some evs
      → get_elem? evs i ≡ some ev
      → IsPlaced (length l.parts) p i ev
  pub numbered : l.next_sub ≡ length l.chans
  pub rising : Rising 0 l.subs
  pub open_subs : All (IsOpen l.chans) l.subs

-- Unless the number of partitions asked for is a positive multiple of 2 ^ 32.
pub new-IsValid : (n : ℤ) → 0 < max (clip n) 1 % 2 ^ 32 → IsValid (new n)
unfolding new
new-IsValid n h = record {
  some_parts = rw (length-replicate (max (clip n) 1) none_yet) h;
  placed = λ p i evs ev e h.
      let empty : none_yet ≡ evs = get_elem?-replicate (max (clip n) 1) p none_yet evs e in
      absurd (ground (arith, empty, h));
  numbered = refl;
  rising = tt;
  open_subs = tt;
}
  where
    none_yet : List Event
    none_yet = []

-- A new event keeps the events placed.
IsPlaced-after :
    (parts : List (List Event)) (p : ℕ) (evs : List Event) (new_ev : Event)
    → get_elem? parts p ≡ some evs
    → IsPlaced (length parts) p (length evs) new_ev
    → ((q i : ℕ) (es : List Event) (ev : Event)
        → get_elem? parts q ≡ some es
        → get_elem? es i ≡ some ev
        → IsPlaced (length parts) q i ev)
    → (q i : ℕ) (es : List Event) (ev : Event)
    → get_elem? (set parts p (evs ++ (new_ev ∷ []))) q ≡ some es
    → get_elem? es i ≡ some ev
    → IsPlaced (length parts) q i ev
IsPlaced-after parts p evs new_ev at fresh old q i es ev e h = elim (ℕ_discrete p q) [
  | no apart ↦ old q i es ev (sym (get_elem?-set_ne parts p q _ apart) ∙ e) h
  | yes here ↦
      let written = get_elem?-set_self parts p (evs ++ (new_ev ∷ [])) (lt-length parts p at) in
      let same : es ≡ evs ++ (new_ev ∷ []) = cc (here, written, e) in
      elim (get_elem?-append_one evs new_ev ev i (rw same at h)) [
        | inl before ↦ old q i evs ev (rw (← here) at) before
        | inr (last, is_new) ↦ rw (last, ← is_new, ← here) fresh
      ]
]

-- What an append to a valid log does.
pub record Appended (l : Log) (key : List ℕ) (typ : String) (raw : List ℕ)
    (r : Result (Event × Log)) : Type 0 where
  pub evs : List Event
  pub old_part : get_elem? l.parts (partition_of l key) ≡ some evs
  pub out : Log
  pub done : r ≡ ok (event_at (partition_of l key) evs key typ raw, out)
  pub parts :
      out.parts
      ≡ set l.parts
          (partition_of l key)
          (evs ++ (event_at (partition_of l key) evs key typ raw ∷ []))
  pub subs : out.subs ≡ keep_room l.chans l.subs
  pub chans : Delivered (event_at (partition_of l key) evs key typ raw) l.subs l.chans
  pub same_chans : out.chans ≡ chans.out
  pub valid : IsValid out

pub append_lem :
    {V : Type 0} (marshal : V → Option (List ℕ)) (l : Log) (key : List ℕ) (typ : String) (v : V)
    (raw : List ℕ)
    → IsValid l
    → marshal v ≡ some raw
    → Appended l key typ raw (append marshal l key typ v)
unfolding append
append_lem marshal l key typ v raw valid e =
    let p = partition_of l key in
    let below : p < part_count l = mod-lt (sum32 key) valid.some_parts in
    let (evs, at) = get_elem?-some l.parts p (omega arith) in
    let counted : (part_count l == 0) ≡ false = ground (arith, valid.some_parts) in
    let ev : Event = event_at p evs key typ raw in
    let d = deliver_lem ev 0 l.subs l.chans valid.rising valid.open_subs in
    let parts' : List (List Event) = set l.parts p (evs ++ (ev ∷ [])) in
    let same : length parts' ≡ length l.parts = length-set l.parts p _ in
    record {
      evs = evs;
      old_part = at;
      out = record l { parts = parts'; subs = keep_room l.chans l.subs; chans = d.out };
      done = rw (e, append) (rw (counted, at, append) (rw (d.sent, append_at) refl));
      parts = refl;
      subs = refl;
      chans = d;
      same_chans = refl;
      valid = record {
        some_parts = rw same (valid.some_parts);
        placed = rw same (
            IsPlaced-after l.parts p evs ev at (record { own = refl; at = refl; hashed = refl })
              valid.placed);
        numbered = valid.numbered ∙ sym d.size;
        rising = keep_room-Rising l.chans 0 l.subs valid.rising;
        open_subs = d.opened;
      };
    }

-- Where the number of partitions is none as a uint32, an append divides by zero.
pub append_uncounted :
    {V : Type 0} (marshal : V → Option (List ℕ)) (l : Log) (key : List ℕ) (typ : String) (v : V)
    (raw : List ℕ)
    → marshal v ≡ some raw
    → part_count l ≡ 0
    → append marshal l key typ v ≡ panics
unfolding append
append_uncounted marshal l key typ v raw e h =
    let uncounted : (part_count l == 0) ≡ true = ground (arith, h) in
    rw (e, append) (rw (uncounted, append) refl)

pub append_unserialised :
    {V : Type 0} (marshal : V → Option (List ℕ)) (l : Log) (key : List ℕ) (typ : String) (v : V)
    → marshal v ≡ none
    → append marshal l key typ v ≡ json_error
unfolding append
append_unserialised marshal l key typ v e = rw (e, append)
