-- ===== src/Indexer/Rpc.antt =====
-- RPCSource of services/gateway/internal/indexer/indexer.go: an EVM node behind a pool as a source of
-- blocks. encoding/json is the fields `request`, `envelope`, `text` and `raw_block` of the record
-- `Eth`, and the pool is `send`.
pub mod Answered
use chain_forge.Common.{
  ℕ, ◌==◌, ◌&&◌, Bool, false, if◌then◌else◌, List, [], ◌∷◌, length, Option, none, some, String,
}
use chain_forge.Indexer.{Answer, found, not_found, fails, Source}
use chain_forge.Indexer.Quantity.{parse_qty, format_qty}

-- The result of the envelope, and whether it has an error.
pub record Envelope : Type 0 where
  pub result : List ℕ
  pub has_error : Bool

pub record RawBlock : Type 0 where
  pub number : List ℕ
  pub hash : String
  pub parent_hash : String
  pub timestamp : List ℕ
  pub transactions : List String

-- The two queries.
pub data Query : Type 0 where
  block_number : Query
  block_by_number : List ℕ → Query

pub record Eth (W : Type 0) : Type 0 where
  pub request : Query → List ℕ
  pub envelope : List ℕ → Option Envelope
  pub text : List ℕ → Option (List ℕ)
  pub raw_block : List ℕ → Option RawBlock
  pub send : List ℕ → W → Option (List ℕ) × W

-- What `call` makes of a response: a result, `ErrNotFound`, or another error.
pub data Reply (A : Type 0) : Type 0 where
  result : A → Reply A
  absent broken : Reply A

unfoldable pub is_null : List ℕ → Bool
is_null (a ∷ b ∷ c ∷ d ∷ []) = a == b'n' && b == b'u' && c == b'l' && d == b'l'
is_null _ = false

unfoldable decoded : {A : Type 0} → Option A → Reply A
decoded none = broken
decoded (some a) = result a

unfoldable reply_of : {A : Type 0} → (List ℕ → Option A) → Option Envelope → Reply A
reply_of decode none = broken
reply_of decode (some env) =
    if env.has_error
    then broken
    else if is_null env.result
    then absent
    else decoded (decode env.result)

unfoldable head_of : Reply (List ℕ) → Option ℕ
head_of (result h) = parse_qty h
head_of absent = none
head_of broken = none

unfoldable block_of : Reply RawBlock → Answer
block_of absent = not_found
block_of broken = fails
block_of (result raw) = elim (parse_qty raw.number) [
  | none ↦ fails
  | some number ↦ elim (parse_qty raw.timestamp) [
    | none ↦ fails
    | some timestamp ↦ found (record {
      number = number;
      hash = raw.hash;
      parent_hash = raw.parent_hash;
      timestamp = timestamp;
      tx_count = length raw.transactions;
    })
  ]
]

module _ {W : Type 0} (eth : Eth W) where
  unfoldable answer_of : {A : Type 0} → (List ℕ → Option A) → Option (List ℕ) → Reply A
  answer_of decode none = broken
  answer_of decode (some raw) = reply_of decode (eth.envelope raw)

  unfoldable pub call : {A : Type 0} → (List ℕ → Option A) → Query → W → Reply A × W
  unfolding answer_of reply_of is_null decoded
  call decode q w = let (r, w') = eth.send (eth.request q) w in (answer_of decode r, w')

  -- RPCSource as the indexer's source.
  unfoldable pub rpc_source : Source W
  unfolding head_of block_of
  rpc_source = record {
    head = λ w. (let (r, w') = call eth.text block_number w in (head_of r, w'));
    block = λ n w.
        (let (r, w') = call eth.raw_block (block_by_number (format_qty n)) w in (block_of r, w'));
  }
