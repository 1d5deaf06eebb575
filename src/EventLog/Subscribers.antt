-- ===== src/EventLog/Subscribers.antt =====
-- `Subscribe`, its cancel function and the consumers of
-- services/gateway/internal/eventlog/eventlog.go keep the log valid.
use chain_forge.Common.{ℕ, ◌+◌, ◌≤◌, ◌<◌, ◌≡◌, refl, arith, ◌≢◌, true, false, ◌∙◌, sym}
use chain_forge.Common.{◌==◌, ==_iff, List, [], ◌∷◌, ◌++◌, length, get_elem?, set}
use chain_forge.Common.{Option, some, All, length-append, length-set, get_elem?-set_self, lt-length}
use chain_forge.Common.{get_elem?-append, get_elem?-append_last, Option-cases}
use chain_forge.Common.{Bool-cases, inl, inr, max, All-append, ap}
use chain_forge.Common.Int.{ℤ, clip}
use chain_forge.EventLog.{Event, Chan, Log, contains, remove, subscribe, cancel, receive, take_from}
use chain_forge.EventLog.Deliver.{Rising, Rising-le, IsOpen, IsOpen-set}
use chain_forge.EventLog.Valid.{IsValid}
use native.Mathlib.Decide.{ℕ_discrete}

IsOpen-append :
    (chans : List Chan) (c : Chan) (ids : List ℕ)
    → All (IsOpen chans) ids
    → All (IsOpen (chans ++ (c ∷ []))) ids
IsOpen-append chans c [] o = o
IsOpen-append chans c (id ∷ ids) o = (
  record {
    chan = o.0.chan;
    found = get_elem?-append chans (c ∷ []) id o.0.found;
    still = o.0.still;
    fits = o.0.fits;
    room = o.0.room;
  },
  IsOpen-append chans c ids o.1,
)

-- Open numbers are numbers of channels.
Rising-snoc :
    (lo m : ℕ) (chans : List Chan) (ids : List ℕ)
    → lo ≤ length chans
    → m ≡ length chans
    → Rising lo ids
    → All (IsOpen chans) ids
    → Rising lo (ids ++ (m ∷ []))
Rising-snoc lo m chans [] h e r o = (omega arith, tt)
Rising-snoc lo m chans (id ∷ ids) h e r o =
    let below : id < length chans = lt-length chans id o.0.found in
    (r.0, Rising-snoc (id + 1) m chans ids (omega arith) e r.1 o.1)

pub subscribe-IsValid : (l : Log) (buf : ℤ) → IsValid l → IsValid (subscribe l buf).0
unfolding subscribe
subscribe-IsValid l buf v =
    let ch : Chan = record { buffer = []; cap = max (clip buf) 1; closed = false } in
    let last : get_elem? (l.chans ++ (ch ∷ [])) (length l.chans) ≡ some ch =
      get_elem?-append_last l.chans ch in
    let fresh : IsOpen (l.chans ++ (ch ∷ [])) l.next_sub = record {
      chan = ch;
      found = rw (v.numbered) last;
      still = refl;
      fits = omega arith;
      room = omega arith;
    } in
    record {
      some_parts = v.some_parts;
      placed = v.placed;
      numbered = omega (arith, v.numbered, length-append l.chans (ch ∷ []));
      rising =
          Rising-snoc 0 l.next_sub l.chans l.subs (omega arith) v.numbered v.rising v.open_subs;
      open_subs =
          All-append (IsOpen (l.chans ++ (ch ∷ []))) l.subs (l.next_sub ∷ [])
            (IsOpen-append l.chans ch l.subs v.open_subs) (fresh, tt);
    }

remove-Rising : (id lo : ℕ) (ids : List ℕ) → Rising lo ids → Rising lo (remove id ids)
unfolding remove
remove-Rising id lo [] r = r
remove-Rising id lo (x ∷ xs) r =
    let rest = remove-Rising id (x + 1) xs r.1 in
    elim (Bool-cases (x == id)) [
      | inl e ↦ rw (e, remove) (Rising-le lo (x + 1) _ (omega arith) rest)
      | inr e ↦ rw (e, remove) (r.0, rest)
    ]

remove-IsOpen :
    (chans : List Chan) (id : ℕ) (c : Chan) (ids : List ℕ)
    → All (IsOpen chans) ids
    → All (IsOpen (set chans id c)) (remove id ids)
unfolding remove
remove-IsOpen chans id c [] o = o
remove-IsOpen chans id c (x ∷ xs) o =
    let rest = remove-IsOpen chans id c xs o.1 in
    elim (Bool-cases (x == id)) [
      | inl e ↦ rw (e, remove) rest
      | inr e ↦
          let apart : id ≢ x = λ h. cc (e, (==_iff x id).1 (sym h)) in
          rw (e, remove) (IsOpen-set chans id x c apart o.0, rest)
    ]

contains-IsOpen :
    (chans : List Chan) (id : ℕ) (ids : List ℕ)
    → contains id ids ≡ true
    → All (IsOpen chans) ids
    → IsOpen chans id
unfolding contains
contains-IsOpen chans id [] e o = absurd (ground arith)
contains-IsOpen chans id (x ∷ xs) e o = elim (ℕ_discrete x id) [
  | yes p ↦ rw (← p) o.0
  | no p ↦ contains-IsOpen chans id xs (ground arith) o.1
]

-- What cancelling a subscription of a valid log does.
pub record Cancelled (l : Log) (id : ℕ) (r : Option Log) : Type 0 where
  pub out : Log
  pub done : r ≡ some out
  pub valid : IsValid out
  pub gone : contains id out.subs ≡ false
  pub kept : out.parts ≡ l.parts

not-contains-remove : (id : ℕ) (ids : List ℕ) → contains id (remove id ids) ≡ false
unfolding contains remove
not-contains-remove id [] = refl
not-contains-remove id (x ∷ xs) = ground (arith, not-contains-remove id xs)

pub cancel_lem : (l : Log) (id : ℕ) → IsValid l → Cancelled l id (cancel l id)
unfolding cancel
cancel_lem l id v = elim (Bool-cases (contains id l.subs)) [
  | inr e ↦ record { out = l; done = rw (e, cancel); valid = v; gone = e; kept = refl }
  | inl e ↦
      let o = contains-IsOpen l.chans id l.subs e v.open_subs in
      let shut : Chan = record o.chan { closed = true } in
      record {
        out = record l { chans = set l.chans id shut; subs = remove id l.subs };
        done = rw (e, cancel) (rw (o.found, cancel) (rw (o.still, cancel)));
        valid = record {
          some_parts = v.some_parts;
          placed = v.placed;
          numbered = v.numbered ∙ sym (length-set l.chans id shut);
          rising = remove-Rising id 0 l.subs v.rising;
          open_subs = remove-IsOpen l.chans id shut l.subs v.open_subs;
        };
        gone = not-contains-remove id l.subs;
        kept = refl;
      }
]

-- A channel that gets shorter leaves every other, and stays open if it was.
shorter-IsOpen :
    (chans : List Chan) (id : ℕ) (c c' : Chan) (ids : List ℕ)
    → get_elem? chans id ≡ some c
    → c'.closed ≡ c.closed
    → c'.cap ≡ c.cap
    → length c'.buffer ≤ length c.buffer
    → All (IsOpen chans) ids
    → All (IsOpen (set chans id c')) ids
shorter-IsOpen chans id c c' [] at a b h o = o
shorter-IsOpen chans id c c' (x ∷ xs) at a b h o = (
  elim (ℕ_discrete id x) [
    | no apart ↦ IsOpen-set chans id x c' apart o.0
    | yes here ↦
        let same : o.0.chan ≡ c = cc (here, at, o.0.found) in
        record {
          chan = c';
          found = rw (← here) (get_elem?-set_self chans id c' (lt-length chans id at));
          still = ground (arith, same, o.0.still);
          fits = ground (arith, same, o.0.fits);
          room = ground (arith, same, o.0.room);
        }
  ],
  shorter-IsOpen chans id c c' xs at a b h o.1,
)

take_from-IsValid :
    (l : Log) (id : ℕ) (c : Chan) (b : List Event)
    → c.buffer ≡ b
    → get_elem? l.chans id ≡ some c
    → IsValid l
    → IsValid (take_from l id c b).0
unfolding take_from
take_from-IsValid l id c [] e at v = v
take_from-IsValid l id c (ev ∷ rest) e at v = record {
  some_parts = v.some_parts;
  placed = v.placed;
  numbered = v.numbered ∙ sym (length-set l.chans id _);
  rising = v.rising;
  open_subs =
      shorter-IsOpen l.chans id c _ l.subs at refl refl (omega (arith, ap length e)) v.open_subs;
}

take_from_keeps :
    (l : Log) (id : ℕ) (c : Chan) (b : List Event) → (take_from l id c b).0.parts ≡ l.parts
unfolding take_from
take_from_keeps l id c [] = refl
take_from_keeps l id c (ev ∷ rest) = refl

-- A reception leaves the partitions as they are.
pub receive_keeps : (l : Log) (id : ℕ) → (receive l id).0.parts ≡ l.parts
unfolding receive
receive_keeps l id = elim (Option-cases (get_elem? l.chans id)) [
  | inl e ↦ rw (e, receive)
  | inr (c, e) ↦ rw (e, receive) (take_from_keeps l id c c.buffer)
]

pub receive-IsValid : (l : Log) (id : ℕ) → IsValid l → IsValid (receive l id).0
unfolding receive
receive-IsValid l id v = elim (Option-cases (get_elem? l.chans id)) [
  | inl e ↦ rw (e, receive) v
  | inr (c, e) ↦ rw (e, receive) (take_from-IsValid l id c c.buffer refl e v)
]
