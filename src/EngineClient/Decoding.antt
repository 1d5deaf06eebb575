-- ===== src/EngineClient/Decoding.antt =====
-- The decoding of responses in services/gateway/internal/engineclient/engineclient.go, with the loop that its
-- decoders share.
use chain_forge.Common.{
  ℕ, zero, suc, ◌+◌, ◌*◌, ◌==◌, ◌&&◌, Bool, if◌then◌else◌, List, [], ◌∷◌, ◌++◌, length, none, some,
}
use chain_forge.PbWire
use chain_forge.PbWire.{Field, Read, field, done, varint_wire, bytes_wire}
use chain_forge.EngineClient.Messages.{
  Log, BalanceChange, Outcome, unset, success, revert, halt, SimResult,
}

-- `SetBytes`, with what is read so far.
unfoldable pub from_bytes : ℕ → List ℕ → ℕ
from_bytes n [] = n
from_bytes n (b ∷ bs) = from_bytes (n * 256 + b) bs

-- The errors of the decoders; `stuck` marks a loop that ran out of fuel, or a panic of the reader.
pub data Fault : Type 0 where
  truncated bad_address no_outcome : Fault
  unknown_outcome : ℕ → Fault

pub data Result {ℓ} (A : Type ℓ) : Type ℓ where
  ok : A → Result A
  failed : Fault → Result A
  stuck : Result A

unfoldable pub addr : List ℕ → Result (List ℕ)
addr b = if length b == 20 then ok b else failed bad_address

-- A round of the decoders' loops: what one field does to what is decoded so far.
unfoldable pub after_read :
    {S : Type 0}
    → (S → Field → Result S)
    → (S → List ℕ → Result S)
    → S
    → PbWire.Result Read
    → Result S
after_read step more s (PbWire.ok done) = ok s
after_read step more s (PbWire.ok (field f rest)) = elim (step s f) [
  | ok s' ↦ more s' rest
  | failed e ↦ failed e
  | stuck ↦ stuck
]
after_read step more s PbWire.err = failed truncated
after_read step more s PbWire.panics = stuck
after_read step more s PbWire.stuck = stuck

-- The loop that the three decoders share, on fuel: each round reads a byte at least.
unfoldable pub each_field : {S : Type 0} → (S → Field → Result S) → ℕ → S → List ℕ → Result S
unfolding after_read
each_field step zero s b = stuck
each_field step (suc fuel) s b = after_read step (each_field step fuel) s (PbWire.next b)

unfoldable pub decode_with : {S : Type 0} → (S → Field → Result S) → S → List ℕ → Result S
decode_with step s b = each_field step (suc (length b)) s b

-- `f.Num == num && f.Wire == wire`
abbrev pub is_field : Field → ℕ → ℕ → Bool
is_field f num wire = f.num == num && f.wire == wire

unfoldable pub set_log_address : Log → Result (List ℕ) → Result Log
set_log_address l (ok a) = ok (record l { address = a })
set_log_address l (failed e) = failed e
set_log_address l stuck = stuck

unfoldable pub log_field : Log → Field → Result Log
unfolding set_log_address
log_field l f =
    if is_field f 1 bytes_wire
    then set_log_address l (addr f.raw)
    else if is_field f 2 bytes_wire
    then ok (record l { topics = l.topics ++ (f.raw ∷ []) })
    else if is_field f 3 bytes_wire
    then ok (record l { payload = f.raw })
    else ok l

-- An address of 20 zero bytes.
abbrev pub zero_address : List ℕ
zero_address = 0 ∷ 0 ∷ 0 ∷ 0 ∷ 0 ∷ 0 ∷ 0 ∷ 0 ∷ 0 ∷ 0 ∷ 0 ∷ 0 ∷ 0 ∷ 0 ∷ 0 ∷ 0 ∷ 0 ∷ 0 ∷ 0 ∷ 0 ∷ []

abbrev pub empty_log : Log
empty_log = record { address = zero_address; topics = []; payload = [] }

unfoldable pub decode_log : List ℕ → Result Log
decode_log b = decode_with log_field empty_log b

unfoldable pub set_change_address : BalanceChange → Result (List ℕ) → Result BalanceChange
set_change_address c (ok a) = ok (record c { address = a })
set_change_address c (failed e) = failed e
set_change_address c stuck = stuck

unfoldable pub change_field : BalanceChange → Field → Result BalanceChange
unfolding set_change_address
change_field c f =
    if is_field f 1 bytes_wire
    then set_change_address c (addr f.raw)
    else if is_field f 2 bytes_wire
    then ok (record c { before = from_bytes 0 f.raw })
    else if is_field f 3 bytes_wire
    then ok (record c { after = from_bytes 0 f.raw })
    else ok c

abbrev pub empty_change : BalanceChange
empty_change = record { address = zero_address; before = 0; after = 0 }

unfoldable pub decode_change : List ℕ → Result BalanceChange
decode_change b = decode_with change_field empty_change b

unfoldable pub set_outcome : SimResult → ℕ → Result SimResult
set_outcome r v =
    if v == 1
    then ok (record r { outcome = success })
    else if v == 2
    then ok (record r { outcome = revert })
    else if v == 3
    then ok (record r { outcome = halt })
    else failed (unknown_outcome v)

unfoldable pub add_log : SimResult → Result Log → Result SimResult
add_log r (ok l) = ok (record r { logs = r.logs ++ (l ∷ []) })
add_log r (failed e) = failed e
add_log r stuck = stuck

unfoldable pub add_change : SimResult → Result BalanceChange → Result SimResult
add_change r (ok c) = ok (record r { balance_changes = r.balance_changes ++ (c ∷ []) })
add_change r (failed e) = failed e
add_change r stuck = stuck

unfoldable pub set_created : SimResult → Result (List ℕ) → Result SimResult
set_created r (ok a) = ok (record r { created = some a })
set_created r (failed e) = failed e
set_created r stuck = stuck

unfoldable pub result_field : SimResult → Field → Result SimResult
unfolding set_outcome add_log add_change set_created
result_field r f =
    if is_field f 1 varint_wire
    then set_outcome r f.uint
    else if is_field f 2 varint_wire
    then ok (record r { gas_used = f.uint })
    else if is_field f 3 bytes_wire
    then ok (record r { output = f.raw })
    else if is_field f 4 bytes_wire
    then ok (record r { reason = f.raw })
    else if is_field f 5 bytes_wire
    then add_log r (decode_log f.raw)
    else if is_field f 6 bytes_wire
    then add_change r (decode_change f.raw)
    else if is_field f 7 varint_wire
    then ok (record r { elapsed_us = f.uint })
    else if is_field f 8 bytes_wire
    then set_created r (addr f.raw)
    else ok r

abbrev pub empty_result : SimResult
empty_result = record {
  outcome = unset;
  gas_used = 0;
  output = [];
  reason = [];
  logs = [];
  balance_changes = [];
  elapsed_us = 0;
  created = none;
}

-- The test of the outcome at the end.
unfoldable pub check_outcome : Outcome → SimResult → Result SimResult
check_outcome unset r = failed no_outcome
check_outcome _ r = ok r

unfoldable pub checked : Result SimResult → Result SimResult
checked (ok r) = check_outcome r.outcome r
checked (failed e) = failed e
checked stuck = stuck

unfoldable pub decode : List ℕ → Result SimResult
unfolding check_outcome checked
decode b = checked (decode_with result_field empty_result b)

-- The reading of a version: the first field 1 that holds bytes.
unfoldable pub version_step : (List ℕ → Result (List ℕ)) → PbWire.Result Read → Result (List ℕ)
version_step more (PbWire.ok done) = ok []
version_step more (PbWire.ok (field f rest)) =
    let next = more rest in if is_field f 1 bytes_wire then ok f.raw else next
version_step more PbWire.err = failed truncated
version_step more PbWire.panics = stuck
version_step more PbWire.stuck = stuck

unfoldable pub version_from : ℕ → List ℕ → Result (List ℕ)
unfolding version_step
version_from zero b = stuck
version_from (suc fuel) b = version_step (version_from fuel) (PbWire.next b)
