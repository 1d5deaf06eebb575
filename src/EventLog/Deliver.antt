-- ===== src/EventLog/Deliver.antt =====
-- The delivery loop of `Append` in services/gateway/internal/eventlog/eventlog.go, channel by
-- channel.
use mathlib.Core.Option
use chain_forge.Common.{ℕ, ◌+◌, ◌≤◌, ◌<◌, ◌≡◌, refl, arith, ◌≢◌, Bool, true, false, ◌∙◌}
use chain_forge.Common.{
  ltb, ◌==◌, ==_iff, if◌then◌else◌, List, [], ◌∷◌, ◌++◌, length, get_elem?, set,
}
use chain_forge.Common.{none, some, All, length-append, length-set, get_elem?-set_self, lt-length}
use chain_forge.Common.{get_elem?-set_ne, Bool-cases, inl, inr}
use chain_forge.EventLog.{Event, Chan, deliver, contains}

-- The numbers rise, from `lo` at least.
abbrev pub Rising : ℕ → List ℕ → Type 0
Rising lo [] = Unit {0}
Rising lo (id ∷ ids) = (lo ≤ id) × Rising (id + 1) ids

pub record IsOpen (chans : List Chan) (id : ℕ) : Type 0 where
  pub chan : Chan
  pub found : get_elem? chans id ≡ some chan
  pub still : chan.closed ≡ false
  pub fits : length chan.buffer ≤ chan.cap
  pub room : 1 ≤ chan.cap

-- What a channel becomes when an event is sent: longer by the event, or closed if it was full.
unfoldable pub after_send : Event → Chan → Chan
after_send ev c =
    if ltb (length c.buffer) c.cap
    then record c { buffer = c.buffer ++ (ev ∷ []) }
    else record c { closed = true }

has_room : List Chan → ℕ → Bool
has_room chans id = elim (get_elem? chans id) [
  | none ↦ false
  | some c ↦ ltb (length c.buffer) c.cap
]

-- The subscribers whose channels were not full.
unfoldable pub keep_room : List Chan → List ℕ → List ℕ
unfolding has_room
keep_room chans [] = []
keep_room chans (id ∷ ids) =
    if has_room chans id then id ∷ keep_room chans ids else keep_room chans ids

not-contains : (j lo : ℕ) (ids : List ℕ) → j < lo → Rising lo ids → contains j ids ≡ false
unfolding contains
not-contains j lo [] h r = refl
not-contains j lo (id ∷ ids) h r = ground (arith, not-contains j (id + 1) ids (omega arith) r.1)

pub Rising-le : (lo hi : ℕ) (ids : List ℕ) → lo ≤ hi → Rising hi ids → Rising lo ids
Rising-le lo hi [] h r = r
Rising-le lo hi (id ∷ ids) h r = (omega arith, r.1)

pub IsOpen-set :
    (chans : List Chan) (i id : ℕ) (c : Chan) → i ≢ id → IsOpen chans id → IsOpen (set chans i c) id
IsOpen-set chans i id c h o = record {
  chan = o.chan;
  found = get_elem?-set_ne chans i id c h ∙ o.found;
  still = o.still;
  fits = o.fits;
  room = o.room;
}

pub IsOpen-set_above :
    (chans : List Chan) (i lo : ℕ) (ids : List ℕ) (c : Chan)
    → i < lo
    → Rising lo ids
    → All (IsOpen chans) ids
    → All (IsOpen (set chans i c)) ids
IsOpen-set_above chans i lo [] c h r o = o
IsOpen-set_above chans i lo (id ∷ ids) c h r o = (
  IsOpen-set chans i id c (omega arith) o.0,
  IsOpen-set_above chans i (id + 1) ids c (omega arith) r.1 o.1,
)

keep_room-set :
    (chans : List Chan) (i lo : ℕ) (ids : List ℕ) (c : Chan)
    → i < lo
    → Rising lo ids
    → keep_room (set chans i c) ids ≡ keep_room chans ids
unfolding keep_room
keep_room-set chans i lo [] c h r = refl
keep_room-set chans i lo (id ∷ ids) c h r =
    let apart : i ≢ id = omega arith in
    ground (
      arith,
      get_elem?-set_ne chans i id c apart,
      keep_room-set chans i (id + 1) ids c (omega arith) r.1,
    )

pub record Delivered (ev : Event) (ids : List ℕ) (chans : List Chan) : Type 0 where
  pub out : List Chan
  pub sent : deliver ev ids chans ≡ some (out, keep_room chans ids)
  pub each :
      (j : ℕ)
      → get_elem? out j ≡ (
          if contains j ids
          then Option.map (after_send ev) (get_elem? chans j)
          else get_elem? chans j)
  pub size : length out ≡ length chans
  pub opened : All (IsOpen out) (keep_room chans ids)

-- One round of the loop.
deliver_step :
    (ev : Event) (id : ℕ) (ids : List ℕ) (chans : List Chan) (o : IsOpen chans id)
    → Rising (id + 1) ids
    → Delivered ev ids (set chans id (after_send ev o.chan))
    → Delivered ev (id ∷ ids) chans
unfolding deliver after_send keep_room contains
deliver_step ev id ids chans o r d = record {
  out = d.out;
  sent = ground (arith, o.found, o.still, d.sent, same);
  each = each;
  size = d.size ∙ length-set chans id _;
  opened = opened;
}
  where
    next : Chan
    next = after_send ev o.chan

    same : keep_room (set chans id next) ids ≡ keep_room chans ids
    same = keep_room-set chans id (id + 1) ids next (omega arith) r

    each :
        (j : ℕ)
        → get_elem? d.out j ≡ (
            if contains j (id ∷ ids)
            then Option.map (after_send ev) (get_elem? chans j)
            else get_elem? chans j)
    each j = elim (Bool-cases (id == j)) [
      | inl e ↦
          let here : id ≡ j = (==_iff id j).0 e in
          let written = get_elem?-set_self chans id next (lt-length chans id o.found) in
          ground (arith, d.each j, not-contains j (id + 1) ids (omega arith) r, written, o.found)
      | inr e ↦
          let apart : id ≢ j = λ h. cc (e, (==_iff id j).1 h) in
          ground (arith, d.each j, get_elem?-set_ne chans id j next apart)
    ]

    here_out : get_elem? d.out id ≡ some next
    here_out =
        d.each id
        ∙ ground (
          arith,
          not-contains id (id + 1) ids (omega arith) r,
          get_elem?-set_self chans id next (lt-length chans id o.found),
        )

    rest : All (IsOpen d.out) (keep_room chans ids)
    rest = rw same at d.opened

    longer : List Event
    longer = o.chan.buffer ++ (ev ∷ [])

    opened : All (IsOpen d.out) (keep_room chans (id ∷ ids))
    opened = elim (Bool-cases (ltb (length o.chan.buffer) o.chan.cap)) [
      | inl e ↦
          let yes_room : has_room chans id ≡ true = ground (arith, o.found, e) in
          let head : IsOpen d.out id = record {
            chan = record o.chan { buffer = longer };
            found = here_out ∙ ground (arith, e);
            still = o.still;
            fits = ground (arith, e, length-append o.chan.buffer (ev ∷ []));
            room = o.room;
          } in
          rw (yes_room, keep_room) (head, rest)
      | inr e ↦
          let no_room : has_room chans id ≡ false = ground (arith, o.found, e) in
          rw (no_room, keep_room) rest
    ]

pub keep_room-Rising :
    (chans : List Chan) (lo : ℕ) (ids : List ℕ) → Rising lo ids → Rising lo (keep_room chans ids)
unfolding keep_room
keep_room-Rising chans lo [] r = r
keep_room-Rising chans lo (id ∷ ids) r =
    let rest = keep_room-Rising chans (id + 1) ids r.1 in
    elim (Bool-cases (has_room chans id)) [
      | inl e ↦ rw (e, keep_room) (r.0, rest)
      | inr e ↦ rw (e, keep_room) (Rising-le lo (id + 1) _ (omega arith) rest)
    ]

pub deliver_lem :
    (ev : Event) (lo : ℕ) (ids : List ℕ) (chans : List Chan)
    → Rising lo ids
    → All (IsOpen chans) ids
    → Delivered ev ids chans
unfolding deliver keep_room contains
deliver_lem ev lo [] chans r o = record {
  out = chans;
  sent = refl;
  each = λ j. refl;
  size = refl;
  opened = tt;
}
deliver_lem ev lo (id ∷ ids) chans r o = deliver_step ev id ids chans o.0 r.1 (
    deliver_lem ev (id + 1) ids (set chans id (after_send ev o.0.chan)) r.1
      (IsOpen-set_above chans id (id + 1) ids _ (omega arith) r.1 o.1))
