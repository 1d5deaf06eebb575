-- ===== src/EngineClient/Ends.antt =====
-- The decoders of services/gateway/internal/engineclient/engineclient.go end on every input.
use chain_forge.Common.{ℕ, ◌≡◌, ◌≢◌, refl, arith, Bool, true, false}
use chain_forge.Common.{List, if◌then◌else◌}
use chain_forge.PbWire.{Field, bytes_wire, varint_wire}
use chain_forge.EngineClient.{
  Log, BalanceChange, SimResult, Outcome, unset, success, revert, halt, Result, ok, failed, stuck,
}
use chain_forge.EngineClient.{
  addr, decode_log, log_field, decode_change, set_created, is_field, set_log_address,
}
use chain_forge.EngineClient.{
  change_field, decode_with, decode, result_field, add_log, add_change, set_outcome,
}
use chain_forge.EngineClient.{
  empty_log, empty_change, empty_result, checked, check_outcome, set_change_address,
}
use chain_forge.EngineClient.Reading.{decode_with-ends}

addr-ends : (b : List ℕ) → addr b ≢ stuck
unfolding addr
addr-ends b = ground arith

set_log_address-ends : (l : Log) (r : Result (List ℕ)) → r ≢ stuck → set_log_address l r ≢ stuck
unfolding set_log_address
set_log_address-ends l (ok a) h = λ e. cc
set_log_address-ends l (failed e) h = λ e'. cc
set_log_address-ends l stuck h = absurd (h refl)

log_field-ends : (l : Log) (f : Field) → log_field l f ≢ stuck
unfolding log_field
log_field-ends l f = ground (arith, set_log_address-ends l (addr f.raw) (addr-ends f.raw))

decode_log-ends : (b : List ℕ) → decode_log b ≢ stuck
unfolding decode_log
decode_log-ends b = decode_with-ends log_field log_field-ends empty_log b

set_change_address-ends :
    (c : BalanceChange) (r : Result (List ℕ)) → r ≢ stuck → set_change_address c r ≢ stuck
unfolding set_change_address
set_change_address-ends c (ok a) h = λ e. cc
set_change_address-ends c (failed e) h = λ e'. cc
set_change_address-ends c stuck h = absurd (h refl)

change_field-ends : (c : BalanceChange) (f : Field) → change_field c f ≢ stuck
unfolding change_field
change_field-ends c f = ground (arith, set_change_address-ends c (addr f.raw) (addr-ends f.raw))

decode_change-ends : (b : List ℕ) → decode_change b ≢ stuck
unfolding decode_change
decode_change-ends b = decode_with-ends change_field change_field-ends empty_change b

set_outcome-ends : (r : SimResult) (v : ℕ) → set_outcome r v ≢ stuck
unfolding set_outcome
set_outcome-ends r v = ground arith

add_log-ends : (r : SimResult) (l : Result Log) → l ≢ stuck → add_log r l ≢ stuck
unfolding add_log
add_log-ends r (ok l) h = λ e. cc
add_log-ends r (failed e) h = λ e'. cc
add_log-ends r stuck h = absurd (h refl)

add_change-ends : (r : SimResult) (c : Result BalanceChange) → c ≢ stuck → add_change r c ≢ stuck
unfolding add_change
add_change-ends r (ok c) h = λ e. cc
add_change-ends r (failed e) h = λ e'. cc
add_change-ends r stuck h = absurd (h refl)

set_created-ends : (r : SimResult) (a : Result (List ℕ)) → a ≢ stuck → set_created r a ≢ stuck
unfolding set_created
set_created-ends r (ok a) h = λ e. cc
set_created-ends r (failed e) h = λ e'. cc
set_created-ends r stuck h = absurd (h refl)

if-ends : (t : Bool) (x y : Result SimResult) → x ≢ stuck → y ≢ stuck → (if t then x else y) ≢ stuck
if-ends true x y hx hy = hx
if-ends false x y hx hy = hy

ok-ends : {A : Type 0} → (a : A) → ok a ≢ stuck
ok-ends a = λ e. cc

result_field-ends : (r : SimResult) (f : Field) → result_field r f ≢ stuck
unfolding result_field
result_field-ends r f = if-ends (is_field f 1 varint_wire) _ _ (set_outcome-ends r f.uint) (
    if-ends (is_field f 2 varint_wire) _ _ (ok-ends _) (
      if-ends (is_field f 3 bytes_wire) _ _ (ok-ends _) (
        if-ends (is_field f 4 bytes_wire) _ _ (ok-ends _) (
          if-ends (is_field f 5 bytes_wire) _ _
            (add_log-ends r (decode_log f.raw) (decode_log-ends f.raw))
            (if-ends (is_field f 6 bytes_wire) _ _
              (add_change-ends r (decode_change f.raw) (decode_change-ends f.raw))
              (if-ends (is_field f 7 varint_wire) _ _ (ok-ends _) (
                if-ends (is_field f 8 bytes_wire) _ _
                  (set_created-ends r (addr f.raw) (addr-ends f.raw)) (ok-ends r))))))))

-- Whatever bytes the engine answers with, `Decode` ends, and a result that it returns has an outcome.
pub decode-ends :
    (b : List ℕ) → (decode b ≢ stuck) × ((r : SimResult) → decode b ≡ ok r → r.outcome ≢ unset)
unfolding decode
decode-ends b =
    cases (decode_with result_field empty_result b)
      (decode_with-ends result_field result_field-ends empty_result b)
  where
    outcome_set :
        (o : Outcome) (r : SimResult)
        → r.outcome ≡ o
        → (check_outcome o r ≢ stuck)
          × ((r' : SimResult) → check_outcome o r ≡ ok r' → r'.outcome ≢ unset)
    outcome_set unset r e = ((λ x. cc), (λ r' x. cc))
    outcome_set success r e = ((λ x. cc), (λ r' x y. cc))
    outcome_set revert r e = ((λ x. cc), (λ r' x y. cc))
    outcome_set halt r e = ((λ x. cc), (λ r' x y. cc))

    cases :
        (d : Result SimResult)
        → d ≢ stuck
        → (checked d ≢ stuck) × ((r : SimResult) → checked d ≡ ok r → r.outcome ≢ unset)
    cases (ok r) h = outcome_set r.outcome r refl
    cases (failed e) h = ((λ x. cc), (λ r' x. cc))
    cases stuck h = absurd (h refl)
