-- ===== src/Indexer/Catchup.antt =====
-- That a pass of services/gateway/internal/indexer/indexer.go ends.
use chain_forge.Common.{ℕ, zero, suc, ◌+◌, ◌%◌, ◌^◌, ◌≤◌, ◌<◌, ◌≡◌, ◌≢◌, true}
use chain_forge.Common.{List, [], ◌∷◌, Option, some, inl, inr, ltb, arith}
use chain_forge.Common.{Bool-cases, Option-cases}
use chain_forge.EventLog.{Log}
use chain_forge.Indexer.{Block, Answer, found, not_found, fails, Source, Indexer, Outcome, At}
use chain_forge.Indexer.{synced, source_error, parent_mismatch, panicked, stuck}
use chain_forge.Indexer.{verdict, extends, emit, unwind, take_block}
use chain_forge.Indexer.{and_then, catch_up, sync_to, sync}
use chain_forge.Indexer.Emits.{Verdict-cases}

module _ {W : Type 0} (src : Source W) (marshal : Block → Option (List ℕ)) where
  unwind-ends : (c : List Block) (log : Log) (w : W) → (unwind src marshal c log w).0 ≢ stuck
  unfolding unwind
  unwind-ends [] log w = λ e. cc
  unwind-ends (tip ∷ rest) log w = elim (Verdict-cases (verdict tip (src.block tip.number w).0)) [
    | inl e ↦ rw (e, unwind) (λ e'. cc)
    | inr (inr e) ↦ rw (e, unwind) (λ e'. cc)
    | inr (inl e) ↦ elim (Option-cases (emit marshal log "block.reorged" tip)) [
      | inl e' ↦ rw (e, unwind) (rw (e', unwind) (λ e''. cc))
      | inr (log', e') ↦
          rw (e, unwind) (rw (e', unwind) (unwind-ends rest log' (src.block tip.number w).1))
    ]
  ]

  take_block-ends :
      (window : ℕ) (s : At W) (a : Answer) (w : W) → (take_block src marshal window s a w).0 ≢ stuck
  unfolding take_block
  take_block-ends window s not_found w = λ e. cc
  take_block-ends window s fails w = λ e. cc
  take_block-ends window s (found b) w = elim (Bool-cases (extends b s.chain)) [
    | inr e ↦ rw (e, take_block) (λ e'. cc)
    | inl e ↦ elim (Option-cases (emit marshal s.log "block.new" b)) [
      | inl e' ↦ rw (e, take_block) (rw (e', take_block) (λ e''. cc))
      | inr (log', e') ↦ rw (e, take_block) (rw (e', take_block) (λ e''. cc))
    ]
  ]

  and_then-ends :
      (r more : Outcome × At W) → r.0 ≢ stuck → more.0 ≢ stuck → (and_then r more).0 ≢ stuck
  unfolding and_then
  and_then-ends (synced, s) more h h' = h'
  and_then-ends (source_error, s) more h h' = h
  and_then-ends (parent_mismatch, s) more h h' = h
  and_then-ends (panicked, s) more h h' = h
  and_then-ends (stuck, s) more h h' = h

  catch_up-ends :
      (window head fuel n : ℕ) (s : At W)
      → head + 1 < 2 ^ 64
      → head + 1 ≤ n + fuel
      → (catch_up src marshal window head (suc fuel) n s).0 ≢ stuck
  unfolding catch_up
  catch_up-ends window head zero n s small enough =
      let past : ltb head n ≡ true = ground arith in rw (past, catch_up) (λ e. cc)
  catch_up-ends window head (suc fuel) n s small enough = elim (Bool-cases (ltb head n)) [
    | inl e ↦ rw (e, catch_up) (λ e'. cc)
    | inr e ↦
        rw (e, catch_up)
          (and_then-ends _ _ (take_block-ends window s _ _)
            (catch_up-ends window head fuel ((n + 1) % 2 ^ 64) _ small (ground arith)))
  ]

  -- A pass ends when the node reports a head below 2 ^ 64 - 1, whatever else the node answers.
  pub sync-ends :
      (ix : Indexer) (w : W)
      → ((head : ℕ) → (src.head w).0 ≡ some head → head + 1 < 2 ^ 64)
      → (sync src marshal ix w).0 ≢ stuck
  unfolding sync sync_to
  sync-ends ix w small = elim (Option-cases (src.head w).0) [
    | inl e ↦ rw (e, sync) (λ e'. cc)
    | inr (head, e) ↦
        rw (e, sync)
          (and_then-ends _ _ (unwind-ends ix.chain ix.log _)
            (catch_up-ends ix.window head _ _ _ (small head e) (ground arith)))
  ]
