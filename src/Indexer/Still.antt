-- ===== src/Indexer/Still.antt =====
-- That a pass of services/gateway/internal/indexer/indexer.go reaches the head of a chain that
-- holds still.
use chain_forge.Common.{ℕ, zero, suc, ◌+◌, ◌-◌, ◌%◌, ◌^◌, ◌≤◌, ◌<◌, ◌≡◌, refl, true, false}
use chain_forge.Common.{
  List, [], ◌∷◌, length, Option, some, inl, inr, sym, ltb, leb, ◌⊎◌, ◌∙◌, arith, All,
}
use chain_forge.Common.{Bool-cases, str_eq, str_eq_iff, if◌then◌else◌}
use chain_forge.EventLog.{Log}
use chain_forge.EventLog.Valid.{IsValid}
use chain_forge.Indexer.{Block, found, not_found, Source, Indexer, Outcome, At}
use chain_forge.Indexer.{synced, stays, gone}
use chain_forge.Indexer.{
  verdict, extends, push, drop_oldest, next_number, unwind, take_block, newest,
}
use chain_forge.Indexer.{and_then, catch_up, sync_to, sync}
use chain_forge.Indexer.Emits.{emit_lem}

-- A chain that holds still: the node reports the head `top`, answers each number up to it with a
-- block of that number, finds none for those of 64 bits beyond, and the blocks are linked by their
-- hashes.
pub record IsStill {W : Type 0} (src : Source W) (top : ℕ) (canon : ℕ → Block) : Type 0 where
  pub reports : (w : W) → (src.head w).0 ≡ some top
  pub answers :
      (n : ℕ) (w : W)
      → n < 2 ^ 64
      → (src.block n w).0 ≡ (if leb n top then found (canon n) else not_found)
  pub numbered : (n : ℕ) → n ≤ top → (canon n).number ≡ n
  pub linked : (n : ℕ) → n < top → (canon (n + 1)).parent_hash ≡ (canon n).hash
  pub below : top + 1 < 2 ^ 64

module _ {W : Type 0} (src : Source W) (marshal : Block → Option (List ℕ)) (raw : Block → List ℕ)
    (marshals : (b : Block) → marshal b ≡ some (raw b)) (top : ℕ) (canon : ℕ → Block)
    (still : IsStill src top canon) where
  -- The stored tip is on the canonical chain, and not beyond its head.
  unfoldable OnCanon : List Block → Type 0
  OnCanon [] = Unit
  OnCanon (tip ∷ _) = (tip.number ≤ top) × (tip.hash ≡ (canon tip.number).hash)

  -- What unwinding leaves.
  record Unwound (r : Outcome × At W) : Type 0 where
    done : r.0 ≡ synced
    on_canon : OnCanon r.1.chain
    valid : IsValid r.1.log

  verdict-still :
      (tip : Block) (w : W)
      → tip.number < 2 ^ 64
      → ((verdict tip (src.block tip.number w).0 ≡ stays) × OnCanon (tip ∷ []))
        ⊎ (verdict tip (src.block tip.number w).0 ≡ gone)
  unfolding verdict OnCanon
  verdict-still tip w word = elim (Bool-cases (leb tip.number top)) [
    | inr e ↦ inr (rw (still.answers tip.number w word, e) refl)
    | inl e ↦ elim (Bool-cases (str_eq (canon tip.number).hash tip.hash)) [
      | inr e' ↦ inr (rw (still.answers tip.number w word, e, e') refl)
      | inl e' ↦ inl (
        rw (still.answers tip.number w word, e, e') refl,
        (ground arith, sym ((str_eq_iff _ _).0 e')),
      )
    ]
  ]

  unwind-still :
      (c : List Block) (log : Log) (w : W)
      → All (λ b. b.number < 2 ^ 64) c
      → IsValid log
      → Unwound (unwind src marshal c log w)
  unfolding unwind
  unwind-still [] log w words v = record { done = refl; on_canon = unfold OnCanon in tt; valid = v }
  unwind-still (tip ∷ rest) log w words v = elim (verdict-still tip w words.0) [
    | inl (e, ok) ↦
        rw (e, unwind) (record { done = refl; on_canon = (unfold OnCanon in ok); valid = v })
    | inr e ↦
        let p = emit_lem marshal raw marshals log "block.reorged" tip v in
        rw (e, unwind)
          (rw (p.done, unwind) (unwind-still rest p.out (src.block tip.number w).1 words.1 p.valid))
  ]

  -- The tip has the hash of the canonical block `n`.
  record IsTop (n : ℕ) (c : List Block) : Type 0 where
    tip : Block
    rest : List Block
    shape : c ≡ tip ∷ rest
    same : tip.hash ≡ (canon n).hash

  push-IsTop : (window n : ℕ) (c : List Block) → 0 < window → IsTop n (push window (canon n) c)
  unfolding push drop_oldest
  push-IsTop window n [] h = record {
    tip = canon n;
    rest = [];
    shape = (let room : ltb window 1 ≡ false = ground arith in rw (room, push) refl);
    same = refl;
  }
  push-IsTop window n (x ∷ c) h = elim (Bool-cases (ltb window (length (canon n ∷ x ∷ c)))) [
    | inl e ↦ record {
      tip = canon n;
      rest = drop_oldest (x ∷ c);
      shape = rw (e, push) refl;
      same = refl;
    }
    | inr e ↦ record { tip = canon n; rest = x ∷ c; shape = rw (e, push) refl; same = refl }
  ]

  -- A round at `n`.
  record Climbed (n : ℕ) (r : Outcome × At W) : Type 0 where
    done : r.0 ≡ synced
    tipped : IsTop n r.1.chain
    valid : IsValid r.1.log

  climb :
      (window n : ℕ) (s : At W)
      → 0 < window
      → n ≤ top
      → extends (canon n) s.chain ≡ true
      → IsValid s.log
      → Climbed n (take_block src marshal window s (src.block n s.world).0 (src.block n s.world).1)
  unfolding take_block
  climb window n s h le e v =
      let here : leb n top ≡ true = ground arith in
      let p = emit_lem marshal raw marshals s.log "block.new" (canon n) v in
      rw (still.answers n s.world (omega (arith, still.below)), here)
        (rw (e, take_block)
          (rw (p.done, take_block)
            (record { done = refl; tipped = push-IsTop window n s.chain h; valid = p.valid })))

  extends-IsTop : (n : ℕ) (c : List Block) → n < top → IsTop n c → extends (canon (n + 1)) c ≡ true
  unfolding extends
  extends-IsTop n c under t =
      rw (t.shape, extends) ((str_eq_iff _ _).1 (still.linked n under ∙ sym t.same))

  and_then_synced :
      (P : Outcome × At W → Type 0) (r more : Outcome × At W)
      → r.0 ≡ synced
      → P more
      → P (and_then r more)
  unfolding and_then
  and_then_synced P (o, s) more e p = rw e p

  climb_on :
      (window k n : ℕ) (s : At W)
      → 0 < window
      → n + k ≡ top
      → IsTop n s.chain
      → IsValid s.log
      → Climbed top (catch_up src marshal window top (suc k) (n + 1) s)
  unfolding catch_up
  climb_on window zero n s h e t v =
      let past : ltb top (n + 1) ≡ true = ground arith in
      let same : n ≡ top = omega arith in
      rw (past, catch_up) (record { done = refl; tipped = (rw same at t); valid = v })
  climb_on window (suc k) n s h e t v =
      let more : ltb top (n + 1) ≡ false = ground arith in
      let next : (n + 1 + 1) % 2 ^ 64 ≡ n + 1 + 1 = omega (arith, still.below) in
      let ext : extends (canon (n + 1)) s.chain ≡ true = extends-IsTop n s.chain (omega arith) t in
      let one = climb window (n + 1) s h (omega arith) ext v in
      rw (more, catch_up)
        (rw next (
          and_then_synced (Climbed top) _ _ one.done
            (climb_on window k (n + 1) _ h (omega arith) one.tipped one.valid)))

  fetch_first :
      (window : ℕ) (s : At W)
      → 0 < window
      → s.chain ≡ []
      → IsValid s.log
      → Climbed top (
          catch_up src marshal window top
            (suc (top + 1 - next_number window top []))
            (next_number window top [])
            s)
  unfolding catch_up next_number extends
  fetch_first window s h e v =
      let n = next_number window top [] in
      let low : n ≤ top = ground (arith, still.below) in
      let more : ltb top n ≡ false = ground arith in
      let ext : extends (canon n) s.chain ≡ true = rw e refl in
      let one = climb window n s h low ext v in
      let up : (n + 1) % 2 ^ 64 ≡ n + 1 = omega (arith, still.below) in
      let left : top + 1 - n ≡ suc (top - n) = omega arith in
      rw (more, catch_up)
        (rw (up, left)
          (and_then_synced (Climbed top) _ _ one.done
            (climb_on window (top - n) n _ h (omega arith) one.tipped one.valid)))

  fetch_more :
      (window : ℕ) (s : At W) (tip : Block) (rest : List Block)
      → 0 < window
      → s.chain ≡ tip ∷ rest
      → tip.number ≤ top
      → tip.hash ≡ (canon tip.number).hash
      → IsValid s.log
      → Climbed top (
          catch_up src marshal window top
            (suc (top + 1 - next_number window top (tip ∷ rest)))
            (next_number window top (tip ∷ rest))
            s)
  unfolding next_number
  fetch_more window s tip rest h e low same v =
      let up : (tip.number + 1) % 2 ^ 64 ≡ tip.number + 1 = omega (arith, still.below) in
      let left : top + 1 - (tip.number + 1) ≡ top - tip.number = omega arith in
      let t : IsTop tip.number s.chain = record {
        tip = tip;
        rest = rest;
        shape = e;
        same = same;
      } in
      rw (up, left) (climb_on window (top - tip.number) tip.number s h (omega arith) t v)

  fetch :
      (window : ℕ) (s : At W) (c : List Block)
      → 0 < window
      → s.chain ≡ c
      → OnCanon c
      → IsValid s.log
      → Climbed top (
          catch_up src marshal window top
            (suc (top + 1 - next_number window top c))
            (next_number window top c)
            s)
  unfolding OnCanon
  fetch window s [] h e on v = fetch_first window s h e v
  fetch window s (tip ∷ rest) h e on v = fetch_more window s tip rest h e on.0 on.1 v

  -- When every block is encodable and the chain holds still, with a head whose number is below
  -- 2 ^ 64 - 1, one pass with a valid log (its number of partitions no multiple of 2 ^ 32) and a
  -- window of at least 1, from any stored chain of blocks with numbers of 64 bits, stale blocks included, ends with no error and stores a chain whose tip has
  -- the hash of the head.
  pub sync-reaches_head :
      (ix : Indexer) (w : W)
      → 0 < ix.window
      → All (λ b. b.number < 2 ^ 64) ix.chain
      → IsValid ix.log
      → ((sync src marshal ix w).0 ≡ synced)
        × ((tip : Block) × (newest (sync src marshal ix w).1 ≡ some tip)
            × (tip.hash ≡ (canon top).hash))
  unfolding sync sync_to newest
  sync-reaches_head ix w h words v =
      let u = unwind-still ix.chain ix.log (src.head w).1 words v in
      let r = unwind src marshal ix.chain ix.log (src.head w).1 in
      let c =
        and_then_synced (Climbed top) r _ u.done
          (fetch ix.window r.1 r.1.chain h refl u.on_canon u.valid) in
      rw (still.reports w, sync)
        (c.done, (c.tipped.tip, rw (c.tipped.shape, newest) refl, c.tipped.same))
