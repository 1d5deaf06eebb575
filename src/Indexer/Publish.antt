-- ===== src/Indexer/Publish.antt =====
-- What `Sync` of services/gateway/internal/indexer/indexer.go publishes, whatever the node answers.
use chain_forge.Common.{ℕ, zero, suc, ◌+◌, ◌%◌, ◌^◌, ◌≡◌, ◌≢◌, Bool-cases}
use chain_forge.Common.{List, [], ◌∷◌, ◌++◌, map, Option, some, String, inl, inr, ap, sym, ltb}
use chain_forge.Common.{append-nil, append_assoc, map-append, Option-cases, ◌∙◌}
use chain_forge.EventLog.{Log}
use chain_forge.EventLog.Valid.{IsValid}
use chain_forge.EventLog.Keys.{contents}
use chain_forge.Indexer.{
  Block, Answer, found, not_found, fails, Source, Indexer, Outcome, At, chain_key,
}
use chain_forge.Indexer.{synced, source_error, parent_mismatch, panicked, stuck}
use chain_forge.Indexer.{verdict, extends, unwind, take_block}
use chain_forge.Indexer.{and_then, catch_up, sync_to, sync}
use chain_forge.Indexer.Emits.{emit_lem, Verdict-cases}
use chain_forge.Indexer.Follow.{
  News, added, removed, Follows, caught_up, takes_off, puts_on, Follows-append,
}
use chain_forge.Indexer.Follow.{IsChain, Follows-IsChain}

-- What a pass leaves.
unfoldable pub stored : {W : Type 0} → Outcome × Indexer × W → At W
stored (o, ix, w) = record { chain = ix.chain; log = ix.log; world = w }

module _ {W : Type 0} (src : Source W) (marshal : Block → Option (List ℕ)) (raw : Block → List ℕ)
    (marshals : (b : Block) → marshal b ≡ some (raw b)) where
  -- The type and the payload of an event.
  unfoldable pub wire : News → String × List ℕ
  wire (added b) = ("block.new", raw b)
  wire (removed b) = ("block.reorged", raw b)

  -- A step that went from the chain `c` and the log `log` to `s`: it did not panic, the log is
  -- valid, and it grew by events that lead a reader from `c` to the new chain.
  pub record Tracked (window : ℕ) (c : List Block) (log : Log) (o : Outcome) (s : At W)
      : Type 0 where
    pub es : List News
    pub follows : Follows window c es s.chain
    pub told : contents marshal s.log chain_key ≡ contents marshal log chain_key ++ map wire es
    pub valid : IsValid s.log
    pub calm : o ≢ panicked

  Tracked-still :
      (window : ℕ) (o : Outcome) (s : At W)
      → IsValid s.log
      → o ≢ panicked
      → Tracked window s.chain s.log o s
  Tracked-still window o s v calm = record {
    es = [];
    follows = caught_up;
    told = sym (append-nil _);
    valid = v;
    calm = calm;
  }

  Tracked-then :
      (window : ℕ) (c : List Block) (log : Log) {o o' : Outcome} {s s' : At W}
      → Tracked window c log o s
      → Tracked window s.chain s.log o' s'
      → Tracked window c log o' s'
  Tracked-then window c log t t' = record {
    es = t.es ++ t'.es;
    follows = Follows-append t.follows t'.follows;
    told =
        t'.told
        ∙ ap (λ x. x ++ map wire t'.es) t.told
        ∙ append_assoc (contents marshal log chain_key) (map wire t.es) (map wire t'.es)
        ∙ ap (λ x. contents marshal log chain_key ++ x) (sym (map-append wire t.es t'.es));
    valid = t'.valid;
    calm = t'.calm;
  }

  -- The first loop ends well or with an error of the node.
  pub unwind-Tracked :
      (window : ℕ) (c : List Block) (log : Log) (w : W)
      → IsValid log
      → Tracked window c log (unwind src marshal c log w).0 (unwind src marshal c log w).1
  unfolding unwind
  unwind-Tracked window [] log w v = Tracked-still window synced _ v (λ e. cc)
  unwind-Tracked window (tip ∷ rest) log w v =
      elim (Verdict-cases (verdict tip (src.block tip.number w).0)) [
        | inl e ↦ rw (e, unwind) (Tracked-still window synced _ v (λ e. cc))
        | inr (inr e) ↦ rw (e, unwind) (Tracked-still window source_error _ v (λ e. cc))
        | inr (inl e) ↦
            let p = emit_lem marshal raw marshals log "block.reorged" tip v in
            let off : Tracked window (tip ∷ rest) log synced
                (record { chain = rest; log = p.out; world = (src.block tip.number w).1 }) =
              record {
                es = removed tip ∷ [];
                follows = takes_off tip caught_up;
                told = unfold wire in p.grown;
                valid = p.valid;
                calm = λ e. cc;
              } in
            rw (e, unwind)
              (rw (p.done, unwind)
                (Tracked-then window (tip ∷ rest) log off
                  (unwind-Tracked window rest p.out (src.block tip.number w).1 p.valid)))
      ]

  take_block-Tracked :
      (window : ℕ) (s : At W) (a : Answer) (w : W)
      → IsValid s.log
      → Tracked window s.chain s.log
          (take_block src marshal window s a w).0
          (take_block src marshal window s a w).1
  unfolding take_block
  take_block-Tracked window s not_found w v = Tracked-still window source_error _ v (λ e. cc)
  take_block-Tracked window s fails w v = Tracked-still window source_error _ v (λ e. cc)
  take_block-Tracked window s (found b) w v = elim (Bool-cases (extends b s.chain)) [
    | inr e ↦ rw (e, take_block) (Tracked-still window parent_mismatch _ v (λ e. cc))
    | inl e ↦
        let p = emit_lem marshal raw marshals s.log "block.new" b v in
        rw (e, take_block)
          (rw (p.done, take_block)
            (record {
              es = added b ∷ [];
              follows = puts_on b e caught_up;
              told = unfold wire in p.grown;
              valid = p.valid;
              calm = λ e. cc;
            }))
  ]

  and_then-Tracked :
      (window : ℕ) (c : List Block) (log : Log) (r more : Outcome × At W)
      → Tracked window c log r.0 r.1
      → Tracked window r.1.chain r.1.log more.0 more.1
      → Tracked window c log (and_then r more).0 (and_then r more).1
  unfolding and_then
  and_then-Tracked window c log (synced, s) more one t = Tracked-then window c log one t
  and_then-Tracked window c log (source_error, s) more one t = one
  and_then-Tracked window c log (parent_mismatch, s) more one t = one
  and_then-Tracked window c log (panicked, s) more one t = one
  and_then-Tracked window c log (stuck, s) more one t = one

  pub catch_up-Tracked :
      (window head fuel n : ℕ) (s : At W)
      → IsValid s.log
      → Tracked window s.chain s.log
          (catch_up src marshal window head fuel n s).0
          (catch_up src marshal window head fuel n s).1
  unfolding catch_up
  catch_up-Tracked window head zero n s v = Tracked-still window stuck s v (λ e. cc)
  catch_up-Tracked window head (suc fuel) n s v = elim (Bool-cases (ltb head n)) [
    | inl e ↦ rw (e, catch_up) (Tracked-still window synced s v (λ e. cc))
    | inr e ↦
        let a = src.block n s.world in
        let r = take_block src marshal window s a.0 a.1 in
        let one = take_block-Tracked window s a.0 a.1 v in
        rw (e, catch_up)
          (and_then-Tracked window s.chain s.log r _ one
            (catch_up-Tracked window head fuel ((n + 1) % 2 ^ 64) r.1 one.valid))
  ]

  -- One pass over a valid log (its number of partitions no multiple of 2 ^ 32), with every block
  -- encodable, whatever the node answers and however the pass ends: it does not panic, the log stays valid, and it grows by events that lead a
  -- reader who keeps a chain of its own from the stored chain to the new one.
  pub sync-Tracked :
      (ix : Indexer) (w : W)
      → IsValid ix.log
      → Tracked ix.window ix.chain ix.log (sync src marshal ix w).0 (stored (sync src marshal ix w))
  unfolding sync sync_to stored
  sync-Tracked ix w v = elim (Option-cases (src.head w).0) [
    | inl e ↦ rw (e, sync) (Tracked-still ix.window source_error _ v (λ e. cc))
    | inr (head, e) ↦
        let r = unwind src marshal ix.chain ix.log (src.head w).1 in
        let one = unwind-Tracked ix.window ix.chain ix.log (src.head w).1 v in
        rw (e, sync)
          (and_then-Tracked ix.window ix.chain ix.log r _ one
            (catch_up-Tracked ix.window head _ _ r.1 one.valid))
  ]

  -- With every block encodable, a pass over a valid log keeps the stored chain linked, each block
  -- to the one before it, and no longer than the window, whatever the node answers.
  pub sync-IsChain :
      (ix : Indexer) (w : W)
      → IsValid ix.log
      → IsChain ix.window ix.chain
      → IsChain ix.window (sync src marshal ix w).1.chain
  unfolding stored
  sync-IsChain ix w v c = Follows-IsChain (sync-Tracked ix w v).follows c
