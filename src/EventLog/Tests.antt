-- ===== src/EventLog/Tests.antt =====
-- Runs of the log, and its theorems at concrete inputs.
use mathlib.Core.Option
use chain_forge.Common.{ℕ, ◌^◌, ◌<◌, ◌≡◌, refl, true, false, arith, List, [], ◌∷◌, zero, suc}
use chain_forge.Common.{Option, none, some, if◌then◌else◌, get_elem?, length, ◌==◌, All}
use chain_forge.Common.Int.{pos}
use chain_forge.EventLog.{Event, Chan, Log, ok, new, deliver, append, slice, read, ck, digit}
use chain_forge.EventLog.{
  commit, committed, subscribe, cancel, receive, sum32, contains, remove, same_text, append_at,
}
use chain_forge.EventLog.Deliver.{after_send, keep_room}
use chain_forge.EventLog.Valid.{IsValid, IsPlaced}
use chain_forge.EventLog.Histories.{
  Call, IsCall, appends, reads, subscribes, cancels, step, run, history-IsValid,
}
use chain_forge.EventLog.Keys.{contents, sent, run-new_key_order}
use chain_forge.EventLog.Streams.{part_events, with_key, stream}
use chain_forge.EventLog.Reads.{addressed}
use chain_forge.EventLog.Fanout.{append_fans_out}

program : Unit {0}
unfolding new deliver append append_at slice read ck digit commit committed subscribe cancel receive
    sum32 contains remove same_text
program = tt

views : Unit {0}
unfolding program step run part_events contents sent after_send keep_room with_key stream addressed
views = tt

-- Payloads are numbers, and 13 has no JSON form.
abbrev marshal : ℕ → Option (List ℕ)
marshal n = if n == 13 then none else some (n ∷ [])

-- FNV-1a of "a", from the published test vectors.
sum32_a : sum32 (b'a' ∷ []) ≡ 0xe40c292c
unfolding program
sum32_a = refl

abbrev history : List (Call ℕ)
history =
    subscribes (pos 1)
    ∷ appends (b'a' ∷ []) "one" 1
    ∷ appends (b'b' ∷ []) "two" 2
    ∷ appends (b'a' ∷ []) "none" 13
    ∷ cancels 0
    ∷ appends (b'a' ∷ []) "three" 3
    ∷ reads (pos 1) 0 (pos 7)
    ∷ []

history-IsCall : All IsCall history
unfolding IsCall
history-IsCall = (tt, (tt, (tt, (tt, (tt, (tt, (omega arith, tt)))))))

history-IsValid_example : (l : Log) × (run marshal (new (pos 4)) history ≡ some l) × IsValid l
history-IsValid_example =
    history-IsValid marshal (pos 4) history (omega arith) (omega arith) history-IsCall

abbrev log : Log
log = (history-IsValid marshal (pos 4) history (omega arith) (omega arith) history-IsCall).0

log-IsValid : IsValid log
log-IsValid = (history-IsValid marshal (pos 4) history (omega arith) (omega arith) history-IsCall).2

log_made : run marshal (new (pos 4)) history ≡ some log
log_made = (history-IsValid marshal (pos 4) history (omega arith) (omega arith) history-IsCall).1

run-new_key_order_example : contents marshal log (b'a' ∷ []) ≡ sent marshal (b'a' ∷ []) history
run-new_key_order_example = run-new_key_order marshal (pos 4) history log (b'a' ∷ []) log_made

sent_a : sent marshal (b'a' ∷ []) history ≡ ("one", 1 ∷ []) ∷ ("three", 3 ∷ []) ∷ []
unfolding views
sent_a = refl

abbrev event : ℕ → ℕ → Event
event i x = record { partition = 0; offset = i; key = b'd' ∷ []; typ = "t"; payload = x ∷ [] }

abbrev ready : Chan
ready = record { buffer = []; cap = 1; closed = false }

abbrev full : Chan
full = record { buffer = event 0 7 ∷ []; cap = 1; closed = false }

-- One partition with two events, and two subscribers, one of whom has fallen behind.
abbrev two : Log
two = record {
  parts = (event 0 7 ∷ event 1 8 ∷ []) ∷ [];
  commits = λ _. 0;
  subs = 0 ∷ 1 ∷ [];
  next_sub = 2;
  chans = full ∷ ready ∷ [];
}

two-IsPlaced :
    (p i : ℕ) (evs : List Event) (ev : Event)
    → get_elem? two.parts p ≡ some evs
    → get_elem? evs i ≡ some ev
    → IsPlaced 1 p i ev
two-IsPlaced zero zero evs ev e h =
    let same : ev ≡ event 0 7 = ground (arith, e, h) in
    rw same (record { own = refl; at = refl; hashed = omega arith })
two-IsPlaced zero (suc zero) evs ev e h =
    let same : ev ≡ event 1 8 = ground (arith, e, h) in
    rw same (record { own = refl; at = refl; hashed = omega arith })
two-IsPlaced zero (suc (suc i)) evs ev e h = absurd (ground (arith, e, h))
two-IsPlaced (suc p) i evs ev e h = absurd (ground (arith, e))

two-IsValid : IsValid two
two-IsValid = record {
  some_parts = omega arith;
  placed = two-IsPlaced;
  numbered = refl;
  rising = omega arith;
  open_subs = (
    record { chan = full; found = refl; still = refl; fits = omega arith; room = omega arith },
    (
      record { chan = ready; found = refl; still = refl; fits = omega arith; room = omega arith },
      tt,
    ),
  );
}

abbrev two_more : Log
two_more = record two {
  parts = (event 0 7 ∷ event 1 8 ∷ event 2 9 ∷ []) ∷ [];
  subs = 1 ∷ [];
  chans = record full { closed = true } ∷ record ready { buffer = event 2 9 ∷ [] } ∷ [];
}

append-two : append marshal two (b'd' ∷ []) "t" 9 ≡ ok (event 2 9, two_more)
unfolding program
append-two = refl

append_fans_out_example :
    ((id : ℕ)
      → get_elem? two_more.chans id ≡ (
          if contains id two.subs
          then Option.map (after_send (event 2 9)) (get_elem? two.chans id)
          else get_elem? two.chans id))
    × (two_more.subs ≡ keep_room two.chans two.subs)
append_fans_out_example =
    append_fans_out marshal two two_more (b'd' ∷ []) "t" 9 (event 2 9) two-IsValid append-two

short_parts : (p : ℕ) → length (part_events two p) < 2 ^ 63
unfolding views
short_parts zero = omega arith
short_parts (suc p) = omega arith

read-two : read two (pos 0) 1 (pos 5) ≡ some (event 1 8 ∷ [])
unfolding program
read-two = refl

abbrev group : List ℕ
group = b'g' ∷ []
