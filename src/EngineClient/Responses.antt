-- ===== src/EngineClient/Responses.antt =====
-- `Decode` of services/gateway/internal/engineclient/engineclient.go on what a proto3 encoder writes for a
-- result, and on any bytes.
use chain_forge.Common.{ℕ, ◌^◌, ◌<◌, ◌≡◌, ◌≢◌, refl, arith, ◌∙◌, ap, sym, All, All-append}
use chain_forge.Common.{List, [], ◌∷◌, ◌++◌, map, length, Option, none, some}
use chain_forge.PbWire.Entries.{Entry, number, bytes, IsEntry, put_entries, field_of}
use chain_forge.PbWire.Optional.{opt_number, opt_bytes, All-opt_number, All-opt_bytes, All-bytes}
use chain_forge.EngineClient.{Log, BalanceChange, Outcome, unset, success, revert, halt, SimResult}
use chain_forge.EngineClient.{ok, set_created}
use chain_forge.EngineClient.{decode, result_field, add_log, add_change, set_outcome}
use chain_forge.EngineClient.{empty_result, checked, check_outcome}
use chain_forge.EngineClient.Reading.{
  fold_entries, fold_entries-append, fold-opt_number, fold-opt_bytes, fold-map,
}
use chain_forge.EngineClient.Reading.{decode_with-put_entries, fold_entries-one}
use chain_forge.EngineClient.Parts.{
  log_entries, IsLog, decode_log-entries, change_entries, IsChange, addr-ok,
}
use chain_forge.EngineClient.Parts.{decode_change-entries}

unfoldable pub outcome_code : Outcome → ℕ
outcome_code unset = 0
outcome_code success = 1
outcome_code revert = 2
outcome_code halt = 3

abbrev pub log_bytes : Log → List ℕ
log_bytes l = put_entries [] (log_entries l)

abbrev pub change_bytes : BalanceChange → List ℕ
change_bytes c = put_entries [] (change_entries c)

unfoldable pub created_entries : Option (List ℕ) → List Entry
created_entries none = []
created_entries (some a) = bytes 8 a ∷ []

-- The fields of a result in the order of their numbers, those with the zero value left out.
unfoldable pub result_entries : SimResult → List Entry
result_entries r =
    number 1 (outcome_code r.outcome)
    ∷ (opt_number 2 r.gas_used
        ++ (opt_bytes 3 r.output
            ++ (opt_bytes 4 r.reason
                ++ (map (λ l. bytes 5 (log_bytes l)) r.logs
                    ++ (map (λ c. bytes 6 (change_bytes c)) r.balance_changes
                        ++ (opt_number 7 r.elapsed_us ++ created_entries r.created))))))

unfoldable pub IsCreated : Option (List ℕ) → Type 0
IsCreated none = Unit
IsCreated (some a) = length a ≡ 20

-- A result with an outcome whose numbers and addresses have their widths, and whose parts are shorter
-- than 2 ^ 31.
pub record IsResult (r : SimResult) : Type 0 where
  pub outcome : r.outcome ≢ unset
  pub gas_used : r.gas_used < 2 ^ 64
  pub output : length r.output < 2 ^ 31
  pub reason : length r.reason < 2 ^ 31
  pub logs : All (λ l. IsLog l × length (log_bytes l) < 2 ^ 31) r.logs
  pub balance_changes : All (λ c. IsChange c × length (change_bytes c) < 2 ^ 31) r.balance_changes
  pub elapsed_us : r.elapsed_us < 2 ^ 64
  pub created : IsCreated r.created

All-second : {A : Type 0} (P Q : A → Type 0) (xs : List A) → All (λ x. P x × Q x) xs → All Q xs
All-second P Q [] h = tt
All-second P Q (x ∷ xs) (h, hs) = (h.1, All-second P Q xs hs)

outcome_code_fits : (o : Outcome) → o ≢ unset → (0 < outcome_code o) × (outcome_code o < 2 ^ 64)
unfolding outcome_code
outcome_code_fits unset h = absurd (h refl)
outcome_code_fits success h = omega arith
outcome_code_fits revert h = omega arith
outcome_code_fits halt h = omega arith

All-created_entries : (c : Option (List ℕ)) → IsCreated c → All IsEntry (created_entries c)
unfolding created_entries IsCreated IsEntry
All-created_entries none h = tt
All-created_entries (some a) h = ((omega arith, omega (arith, h)), tt)

All-result_entries : (r : SimResult) → IsResult r → All IsEntry (result_entries r)
unfolding result_entries
All-result_entries r h = (
  unfold IsEntry in
      (
        omega arith,
        (outcome_code_fits r.outcome h.outcome).0,
        (outcome_code_fits r.outcome h.outcome).1,
      ),
  All-append IsEntry (opt_number 2 r.gas_used) _
      (All-opt_number 2 r.gas_used (omega arith) h.gas_used)
      (All-append IsEntry (opt_bytes 3 r.output) _ (All-opt_bytes 3 r.output (omega arith) h.output)
        (All-append IsEntry (opt_bytes 4 r.reason) _
          (All-opt_bytes 4 r.reason (omega arith) h.reason)
          (All-append IsEntry (map (λ l. bytes 5 (log_bytes l)) r.logs) _
            (All-bytes 5 log_bytes r.logs (omega arith)
              (All-second IsLog (λ l. length (log_bytes l) < 2 ^ 31) r.logs h.logs))
            (All-append IsEntry (map (λ c. bytes 6 (change_bytes c)) r.balance_changes) _
              (All-bytes 6 change_bytes r.balance_changes (omega arith) (
                All-second IsChange (λ c. length (change_bytes c) < 2 ^ 31) r.balance_changes
                  h.balance_changes))
              (All-append IsEntry (opt_number 7 r.elapsed_us) (created_entries r.created)
                (All-opt_number 7 r.elapsed_us (omega arith) h.elapsed_us)
                (All-created_entries r.created h.created)))))),
)

-- What is decoded behind some of the entries.
abbrev so_far :
    Outcome → ℕ → List ℕ → List ℕ → List Log → List BalanceChange → ℕ → Option (List ℕ) → SimResult
so_far outcome gas output reason logs changes elapsed created = record {
  outcome = outcome;
  gas_used = gas;
  output = output;
  reason = reason;
  logs = logs;
  balance_changes = changes;
  elapsed_us = elapsed;
  created = created;
}

outcome_step :
    (o : Outcome)
    → o ≢ unset
    → result_field empty_result (field_of (number 1 (outcome_code o)))
      ≡ ok (so_far o 0 [] [] [] [] 0 none)
unfolding result_field field_of outcome_code set_outcome
outcome_step unset h = absurd (h refl)
outcome_step success h = refl
outcome_step revert h = refl
outcome_step halt h = refl

created_fold :
    (s : SimResult) (c : Option (List ℕ))
    → IsCreated c
    → s.created ≡ none
    → fold_entries result_field s (created_entries c)
      ≡ ok (so_far s.outcome s.gas_used s.output s.reason s.logs s.balance_changes s.elapsed_us c)
unfolding created_entries IsCreated fold_entries
created_fold s none h e =
    ap
      (λ c.
        ok (so_far s.outcome s.gas_used s.output s.reason s.logs s.balance_changes s.elapsed_us c))
      e
created_fold s (some a) h e =
    fold_entries-one result_field s _ (bytes 8 a)
      (unfold result_field field_of set_created in rw (addr-ok a h, set_created) refl)

module _ (r : SimResult) (h : IsResult r) where
  abbrev s1 : SimResult
  s1 = so_far r.outcome 0 [] [] [] [] 0 none

  abbrev s2 : SimResult
  s2 = so_far r.outcome r.gas_used [] [] [] [] 0 none

  abbrev s3 : SimResult
  s3 = so_far r.outcome r.gas_used r.output [] [] [] 0 none

  abbrev s4 : SimResult
  s4 = so_far r.outcome r.gas_used r.output r.reason [] [] 0 none

  abbrev s5 : SimResult
  s5 = so_far r.outcome r.gas_used r.output r.reason r.logs [] 0 none

  abbrev s6 : SimResult
  s6 = so_far r.outcome r.gas_used r.output r.reason r.logs r.balance_changes 0 none

  abbrev s7 : SimResult
  s7 = so_far r.outcome r.gas_used r.output r.reason r.logs r.balance_changes r.elapsed_us none

  logs_fold : fold_entries result_field s4 (map (λ l. bytes 5 (log_bytes l)) r.logs) ≡ ok s5
  logs_fold =
      fold-map result_field (λ l. IsLog l × length (log_bytes l) < 2 ^ 31)
        (λ l. bytes 5 (log_bytes l))
        (λ ls. so_far r.outcome r.gas_used r.output r.reason ls [] 0 none) [] r.logs
        (λ before l fine.
          unfold result_field field_of add_log in rw (decode_log-entries l fine.0, add_log) refl)
        h.logs

  changes_fold :
      fold_entries result_field s5 (map (λ c. bytes 6 (change_bytes c)) r.balance_changes) ≡ ok s6
  changes_fold =
      fold-map result_field (λ c. IsChange c × length (change_bytes c) < 2 ^ 31)
        (λ c. bytes 6 (change_bytes c))
        (λ cs. so_far r.outcome r.gas_used r.output r.reason r.logs cs 0 none) [] r.balance_changes
        (λ before c fine.
          unfold result_field field_of add_change in
          rw (decode_change-entries c fine.0, add_change) refl)
        h.balance_changes

  result_fold : fold_entries result_field empty_result (result_entries r) ≡ ok r
  unfolding result_entries
  result_fold =
      let step = result_field in
      fold_entries-append step empty_result s1 (number 1 (outcome_code r.outcome) ∷ []) _
        (fold_entries-one step empty_result s1 _ (outcome_step r.outcome h.outcome))
      ∙ fold_entries-append step s1 s2 (opt_number 2 r.gas_used) _ (
          fold-opt_number step s1 s2 2 r.gas_used
            (λ e. ap (λ n. so_far r.outcome n [] [] [] [] 0 none) (sym e))
            (unfold result_field field_of in refl))
      ∙ fold_entries-append step s2 s3 (opt_bytes 3 r.output) _ (
          fold-opt_bytes step s2 s3 3 r.output
            (λ e. ap (λ b. so_far r.outcome r.gas_used b [] [] [] 0 none) (sym e))
            (unfold result_field field_of in refl))
      ∙ fold_entries-append step s3 s4 (opt_bytes 4 r.reason) _ (
          fold-opt_bytes step s3 s4 4 r.reason
            (λ e. ap (λ b. so_far r.outcome r.gas_used r.output b [] [] 0 none) (sym e))
            (unfold result_field field_of in refl))
      ∙ fold_entries-append step s4 s5 (map (λ l. bytes 5 (log_bytes l)) r.logs) _ logs_fold
      ∙ fold_entries-append step s5 s6 (map (λ c. bytes 6 (change_bytes c)) r.balance_changes) _
          changes_fold
      ∙ fold_entries-append step s6 s7 (opt_number 7 r.elapsed_us) (created_entries r.created) (
          fold-opt_number step s6 s7 7 r.elapsed_us
            (λ e.
              ap
                (λ n. so_far r.outcome r.gas_used r.output r.reason r.logs r.balance_changes n none)
                (sym e))
            (unfold result_field field_of in refl))
      ∙ created_fold s7 r.created h.created refl

  -- What a proto3 encoder writes by the contract with the engine for a result, with the balances before
  -- and after a change as 32 bytes, is decoded to that result: for an outcome that is set, numbers below
  -- 2 ^ 64, balances below 2 ^ 256, addresses of 20 bytes, and an output, a reason, and topics, data and
  -- encodings of the logs and the changes of fewer than 2 ^ 31 bytes each.
  pub decode-result_entries : decode (put_entries [] (result_entries r)) ≡ ok r
  unfolding decode
  decode-result_entries =
      ap checked (
        decode_with-put_entries result_field empty_result (result_entries r)
          (All-result_entries r h)
        ∙ result_fold)
      ∙ has_outcome r.outcome h.outcome
    where
      has_outcome : (o : Outcome) → o ≢ unset → check_outcome o r ≡ ok r
      has_outcome unset no_good = absurd (no_good refl)
      has_outcome success good = refl
      has_outcome revert good = refl
      has_outcome halt good = refl
