-- ===== src/EventLog/Fanout.antt =====
-- What the subscribers of services/gateway/internal/eventlog/eventlog.go see of an append.
use mathlib.Core.Option
use chain_forge.Common.{ℕ, ◌≡◌, arith, List, ◌∙◌, ap, if◌then◌else◌, get_elem?, String, Option}
use chain_forge.Common.{Option-cases, inl, inr}
use chain_forge.EventLog.{Event, Log, ok, append, contains, event_at, partition_of}
use chain_forge.EventLog.Deliver.{after_send, keep_room}
use chain_forge.EventLog.Valid.{IsValid, append_lem, append_unserialised}

-- An append to a valid log (its number of partitions no multiple of 2 ^ 32) sends its event to every
-- subscriber at once: a channel with room gets the event behind what it holds, a full one is closed
-- instead and its subscriber dropped, and the channels of others are left alone. The subscribers that had room stay subscribed, in their order.
pub append_fans_out :
    {V : Type 0} (marshal : V → Option (List ℕ)) (l l' : Log) (key : List ℕ) (typ : String) (v : V)
    (ev : Event)
    → IsValid l
    → append marshal l key typ v ≡ ok (ev, l')
    → ((id : ℕ)
        → get_elem? l'.chans id ≡ (
            if contains id l.subs
            then Option.map (after_send ev) (get_elem? l.chans id)
            else get_elem? l.chans id))
      × (l'.subs ≡ keep_room l.chans l.subs)
append_fans_out marshal l l' key typ v ev valid e = elim (Option-cases (marshal v)) [
  | inl no_json ↦ absurd (ground (arith, append_unserialised marshal l key typ v no_json, e))
  | inr (raw, json) ↦
      let a = append_lem marshal l key typ v raw valid json in
      let same_log : l' ≡ a.out = ground (arith, a.done, e) in
      let new_ev : Event = event_at (partition_of l key) a.evs key typ raw in
      let same_ev : ev ≡ new_ev = ground (arith, a.done, e) in
      rw (same_log, same_ev)
        ((λ id. ap (λ cs. get_elem? cs id) a.same_chans ∙ a.chans.each id), a.subs)
]
