-- ===== src/EventLog.antt =====
-- services/gateway/internal/eventlog/eventlog.go: the partitioned log. A key and a group are lists
-- of bytes; encoding/json is the parameter `marshal`. A channel is an element of the list `chans`,
-- numbered by the subscription that made it, so that the log and its consumer share it; `subs`
-- lists the numbers that the map holds. The methods hold the lock throughout, so each is one step.
pub mod Valid
pub mod Short
pub mod Deliver
pub mod Subscribers
pub mod Reads
pub mod Streams
pub mod Keys
pub mod Histories
pub mod Fanout
mod Tests
use Prim.Native.Nat.{bit_xor}
use chain_forge.Common.{ℕ, zero, suc, ◌+◌, ◌-◌, ◌*◌, ◌%◌, ◌^◌, ◌≤◌, Bool, true, false, ◌&&◌, ◌||◌}
use chain_forge.Common.{ltb, leb, ◌==◌, if◌then◌else◌, List, [], ◌∷◌, ◌++◌, length, get_elem?, set}
use chain_forge.Common.{take, drop, replicate, Option, none, some, String, min, max}
use chain_forge.Common.Int.{ℤ, pos, negsuc, clip, to_index}

pub record Event : Type 0 where
  pub partition : ℕ
  pub offset : ℕ
  pub key : List ℕ
  pub typ : String
  pub payload : List ℕ

-- A buffered channel: what was sent and not yet received, its capacity, and whether it is closed.
pub record Chan : Type 0 where
  pub buffer : List Event
  pub cap : ℕ
  pub closed : Bool

pub record Log : Type 0 where
  pub parts : List (List Event)
  pub commits : List ℕ → ℕ
  pub subs : List ℕ
  pub next_sub : ℕ
  pub chans : List Chan

-- `panics` is a division by zero, an index out of range, a send on a closed channel, or a second
-- close of one.
pub data Result {ℓ} (A : Type ℓ) : Type ℓ where
  ok : A → Result A
  json_error : Result A
  panics : Result A

unfoldable pub new : ℤ → Log
new n = record {
  parts = replicate (max (clip n) 1) [];
  commits = λ _. 0;
  subs = [];
  next_sub = 0;
  chans = [];
}

-- hash/fnv's 32-bit FNV-1a.
fnv32a_from : ℕ → List ℕ → ℕ
fnv32a_from h [] = h
fnv32a_from h (b ∷ bs) = fnv32a_from (bit_xor h b * 16777619 % 2 ^ 32) bs

unfoldable pub sum32 : List ℕ → ℕ
unfolding fnv32a_from
sum32 key = fnv32a_from 2166136261 key

-- The loop over the subscribers: a full channel is closed and its subscriber dropped.
unfoldable pub deliver : Event → List ℕ → List Chan → Option (List Chan × List ℕ)
deliver ev [] chans = some (chans, [])
deliver ev (id ∷ ids) chans = elim (get_elem? chans id) [
  | none ↦ none
  | some c ↦
      let sent : List Chan = set chans id (record c { buffer = c.buffer ++ (ev ∷ []) }) in
      let shut : List Chan = set chans id (record c { closed = true }) in
      let kept : Option (List Chan × List ℕ) = elim (deliver ev ids sent) [
        | none ↦ none
        | some (cs, rest) ↦ some (cs, id ∷ rest)
      ] in
      let evicted = deliver ev ids shut in
      if c.closed then none else if ltb (length c.buffer) c.cap then kept else evicted
]

-- What `Append` does with the partition of the key and the delivery.
unfoldable pub append_at : Log → Event → List Event → Result (Event × Log)
append_at l ev evs = elim (deliver ev l.subs l.chans) [
  | none ↦ panics
  | some (chans, subs) ↦ ok (
    ev,
    record l { parts = set l.parts ev.partition (evs ++ (ev ∷ [])); subs = subs; chans = chans },
  )
]

-- `uint32(len(l.parts))`
abbrev pub part_count : Log → ℕ
part_count l = length l.parts % 2 ^ 32

abbrev pub partition_of : Log → List ℕ → ℕ
partition_of l key = sum32 key % part_count l

abbrev pub event_at : ℕ → List Event → List ℕ → String → List ℕ → Event
event_at p evs key typ raw = record {
  partition = p;
  offset = length evs;
  key = key;
  typ = typ;
  payload = raw;
}

unfoldable pub append :
    {V : Type 0} → (V → Option (List ℕ)) → Log → List ℕ → String → V → Result (Event × Log)
unfolding append_at
append marshal l key typ v = elim (marshal v) [
  | none ↦ json_error
  | some raw ↦
      let p = partition_of l key in
      let appended : Result (Event × Log) = elim (get_elem? l.parts p) [
        | none ↦ panics
        | some evs ↦ append_at l (event_at p evs key typ raw) evs
      ] in
      if part_count l == 0 then panics else appended
]

-- `s[from:end]`; out of order it panics.
unfoldable pub slice {ℓ} : {A : Type ℓ} → ℕ → ℕ → List A → Option (List A)
slice from end xs =
    if leb from end && leb end (length xs) then some (drop from (take end xs)) else none

unfoldable pub read : Log → ℤ → ℕ → ℤ → Option (List Event)
unfolding slice
read l part from limit = elim (to_index part) [
  | none ↦ some []
  | some i ↦ elim (get_elem? l.parts i) [
    | none ↦ some []
    | some evs ↦
        if leb (length evs) from
        then some []
        else slice from (min (length evs) ((from + clip limit) % 2 ^ 64)) evs
  ]
]

-- `'0' + part` as the bits of an int32, and the code point that `string` makes of it: what is no
-- code point becomes U+FFFD.
rune_bits : ℤ → ℕ
rune_bits (pos n) = (48 + n) % 2 ^ 32
rune_bits (negsuc n) = (48 + 2 ^ 32 - (n + 1) % 2 ^ 32) % 2 ^ 32

unfoldable pub digit : ℤ → ℕ
unfolding rune_bits
digit part =
    let r = rune_bits part in if ltb r 0xd800 || (leb 0xe000 r && leb r 0x10ffff) then r else 0xfffd

-- The key of a commit, as a list of code points.
unfoldable pub ck : List ℕ → ℤ → List ℕ
ck group part = group ++ (b'/' ∷ digit part ∷ [])

unfoldable pub same_text : List ℕ → List ℕ → Bool
same_text [] [] = true
same_text (a ∷ s) (b ∷ t) = a == b && same_text s t
same_text _ _ = false

unfoldable pub commit : Log → List ℕ → ℤ → ℕ → Log
commit l group part next = record l {
  commits = λ k. if same_text (ck group part) k then next else l.commits k;
}

unfoldable pub committed : Log → List ℕ → ℤ → ℕ
committed l group part = l.commits (ck group part)

-- The log, and the number of the new channel.
unfoldable pub subscribe : Log → ℤ → Log × ℕ
subscribe l buf =
    let ch : Chan = record { buffer = []; cap = max (clip buf) 1; closed = false } in
    (
      record l {
        chans = l.chans ++ (ch ∷ []);
        subs = l.subs ++ (l.next_sub ∷ []);
        next_sub = l.next_sub + 1;
      },
      l.next_sub,
    )

unfoldable pub contains : ℕ → List ℕ → Bool
contains id [] = false
contains id (x ∷ xs) = x == id || contains id xs

unfoldable pub remove : ℕ → List ℕ → List ℕ
remove id [] = []
remove id (x ∷ xs) = if x == id then remove id xs else x ∷ remove id xs

-- The function that `Subscribe` returns beside the channel; `none` is a second close.
unfoldable pub cancel : Log → ℕ → Option Log
cancel l id =
    if contains id l.subs
    then (elim (get_elem? l.chans id) [
      | none ↦ none
      | some c ↦
          if c.closed
          then none
          else some (record l {
            chans = set l.chans id (record c { closed = true });
            subs = remove id l.subs;
          })
    ])
    else some l

take_from : Log → ℕ → Chan → List Event → Log × Option Event
take_from l id c [] = (l, none)
take_from l id c (ev ∷ rest) =
    (record l { chans = set l.chans id (record c { buffer = rest }) }, some ev)

-- A consumer takes the oldest event out of its channel, if there is one.
unfoldable pub receive : Log → ℕ → Log × Option Event
unfolding take_from
receive l id = elim (get_elem? l.chans id) [ none ↦ (l, none) | some c ↦ take_from l id c c.buffer ]
