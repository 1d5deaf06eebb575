-- ===== src/Indexer/Emits.antt =====
-- What `emit` of services/gateway/internal/indexer/indexer.go does to a valid log.
use chain_forge.Common.{◌⊎◌, inl, inr, ℕ, ◌≡◌, refl, List, [], ◌∷◌, ◌++◌, Option, some, String}
use chain_forge.EventLog.{Log}
use chain_forge.EventLog.Valid.{IsValid, append_lem}
use chain_forge.EventLog.Keys.{contents, contents-append}
use chain_forge.EventLog.Streams.{same_text_iff}
use chain_forge.Indexer.{Block, chain_key, emit, Verdict, stays, gone, unknown}

-- To split on a verdict and keep the equation.
pub Verdict-cases : (v : Verdict) → (v ≡ stays) ⊎ ((v ≡ gone) ⊎ (v ≡ unknown))
Verdict-cases stays = inl refl
Verdict-cases gone = inr (inl refl)
Verdict-cases unknown = inr (inr refl)

-- A publication went through: the log is valid and holds the event behind those it had.
pub record Published (marshal : Block → Option (List ℕ)) (log : Log) (typ : String)
    (payload : List ℕ) (r : Option Log) : Type 0 where
  pub out : Log
  pub done : r ≡ some out
  pub valid : IsValid out
  pub grown :
      contents marshal out chain_key ≡ contents marshal log chain_key ++ ((typ, payload) ∷ [])

module _ (marshal : Block → Option (List ℕ)) (raw : Block → List ℕ)
    (marshals : (b : Block) → marshal b ≡ some (raw b)) where
  pub emit_lem :
      (log : Log) (typ : String) (b : Block)
      → IsValid log
      → Published marshal log typ (raw b) (emit marshal log typ b)
  unfolding emit
  emit_lem log typ b valid =
      let a = append_lem marshal log chain_key typ b (raw b) valid (marshals b) in
      let own = (same_text_iff chain_key chain_key).1 refl in
      record {
        out = a.out;
        done = rw (a.done, emit);
        valid = a.valid;
        grown = rw own at (contents-append marshal log chain_key chain_key typ (raw b) a);
      }
