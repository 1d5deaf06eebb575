-- ===== src/Chainsim/Followed.antt =====
-- The indexer of services/gateway/internal/indexer/indexer.go over the simulated node of
-- services/gateway/internal/chainsim/chainsim.go.
use chain_forge.Common.{
  ℕ, suc, ◌+◌, ◌-◌, ◌^◌, ◌≤◌, ◌<◌, ◌≡◌, refl, ap, ◌∙◌, arith, leb, true, false, Bool, if◌then◌else◌,
  inl, inr, All, All-get_elem?, map,
}
use chain_forge.Common.{List, length, get_elem?, get_elem?-some, Option, none, some, String, str_eq}
use chain_forge.EventLog.Valid.{IsValid}
use chain_forge.Chainsim.{Blk, Node, no_hash}
use chain_forge.Chainsim.Chain.{IsChain}
use chain_forge.Chainsim.Handle.{
  Codec, Value, text, block, nil, BlockJson, block_json, hx, head, handle, ok_value, first_param,
  by_number, looked_up, resolve,
}
use chain_forge.Chainsim.Answers.{head-length, resolve-format_qty, IsLinked-parent, IsLinked-num}
use chain_forge.Indexer.{Block, Indexer, found, not_found, synced, sync, newest}
use chain_forge.Indexer.Quantity.{format_qty, parse_qty-format_qty}
use chain_forge.Indexer.Rpc.{
  Envelope, RawBlock, Query, block_number, block_by_number, Eth, is_null, rpc_source,
}
use chain_forge.Indexer.Rpc.Answered.{head-answered, block-answered, block-absent}
use chain_forge.Indexer.Still.{IsStill, sync-reaches_head}
use chain_forge.JsonRpc
use chain_forge.JsonRpc.{Request, Response, ok_response, encoded}

-- A block as the indexer reads it, with the strings of some bytes.
unfoldable pub raw_of : (List ℕ → String) → BlockJson → RawBlock
raw_of name b = record {
  number = b.number;
  hash = name b.hash;
  parent_hash = name b.parent_hash;
  timestamp = b.timestamp;
  transactions = map name b.transactions;
}

unfoldable pub is_error : Option JsonRpc.Error → Bool
is_error none = false
is_error (some e) = true

-- What the transport and encoding/json make of a query and of the response to it: the node gets the
-- request `asks q`, and what it responds is read as the value that it encoded.
pub record IsWired {W : Type 0} (json : Codec) (n : Node) (eth : Eth W) (name : List ℕ → String)
    (asks : Query → Request) : Type 0 where
  pub head_method : (asks block_number).method ≡ "eth_blockNumber"
  pub block_method : (t : List ℕ) → (asks (block_by_number t)).method ≡ "eth_getBlockByNumber"
  pub block_param : (t : List ℕ) → first_param json (asks (block_by_number t)).params ≡ some t
  pub wire : Response → List ℕ
  pub sends :
      (q : Query) (w : W) (r : Response)
      → handle json n (asks q) ≡ some r
      → (eth.send (eth.request q) w).0 ≡ some (wire r)
  pub envelopes :
      (r : Response)
      → eth.envelope (wire r) ≡ some (record { result = r.result; has_error = is_error r.error })
  pub reads_text : (t : List ℕ) → eth.text (json.encode (text t)) ≡ some t
  pub reads_block :
      (k : ℕ) (b : Blk)
      → get_elem? n.blocks k ≡ some b
      → eth.raw_block (json.encode (block (block_json b))) ≡ some (raw_of name (block_json b))
  pub nil_null : is_null (json.encode nil) ≡ true
  pub text_full : (t : List ℕ) → is_null (json.encode (text t)) ≡ false
  pub block_full : (b : BlockJson) → is_null (json.encode (block b)) ≡ false

-- A block of the simulator as the indexer stores it.
unfoldable pub stored_block : (List ℕ → String) → Option Blk → Block
stored_block name none = record {
  number = 0;
  hash = "";
  parent_hash = "";
  timestamp = 0;
  tx_count = 0;
}
stored_block name (some b) = record {
  number = b.num;
  hash = name (hx b.hash);
  parent_hash = name (hx b.parent);
  timestamp = b.ts;
  tx_count = length (map name (block_json b).transactions);
}

module _ {W : Type 0} (json : Codec) (n : Node) (eth : Eth W) (name : List ℕ → String)
    (asks : Query → Request) (wired : IsWired json n eth name asks) (chain : IsChain n)
    (stamped : All (λ b. b.ts < 2 ^ 64) n.blocks) (bounded : length n.blocks < 2 ^ 64) where
  abbrev canon : ℕ → Block
  canon k = stored_block name (get_elem? n.blocks k)

  value_of : Value → Envelope
  value_of v = record { result = json.encode v; has_error = false }

  answered :
      (q : Query) (w : W) (v : Value)
      → handle json n (asks q) ≡ some (ok_value json (asks q) v)
      → ((raw : List ℕ) × ((eth.send (eth.request q) w).0 ≡ some raw)
          × (eth.envelope raw ≡ some (value_of v)))
  unfolding value_of ok_value ok_response is_error
  answered q w v e =
      let r = ok_value json (asks q) v in (wired.wire r, wired.sends q w r e, wired.envelopes r)

  reports : (w : W) → ((rpc_source eth).head w).0 ≡ some (length n.blocks - 1)
  unfolding handle str_eq value_of
  reports w =
      let t = format_qty (head n) in
      let (raw, sent, read) =
        answered block_number w (text t) (rw (wired.head_method, handle) refl) in
      head-answered eth w raw t (value_of (text t)) sent read refl (wired.text_full t)
        (wired.reads_text t)
      ∙ parse_qty-format_qty (head n) (omega (arith, head-length n chain bounded))
      ∙ ap some (head-length n chain bounded)

  asked :
      (k : ℕ)
      → handle json n (asks (block_by_number (format_qty k)))
        ≡ looked_up json (asks (block_by_number (format_qty k))) (resolve n (format_qty k))
  unfolding handle str_eq by_number
  asked k = rw (wired.block_method (format_qty k), wired.block_param (format_qty k), handle) refl

  answers :
      (k : ℕ) (w : W)
      → k < 2 ^ 64
      → ((rpc_source eth).block k w).0
        ≡ (if leb k (length n.blocks - 1) then found (canon k) else not_found)
  unfolding looked_up value_of raw_of block_json stored_block
  answers k w word = elim (resolve-format_qty n chain bounded k word) [
    | inl (inside, (b, is, num, at_k)) ↦
        let low : leb k (length n.blocks - 1) ≡ true = ground arith in
        let word' : b.num < 2 ^ 64 = omega (arith, num) in
        let v = block (block_json b) in
        let e = asked k ∙ rw (at_k, looked_up) refl in
        let (raw, sent, read) = answered (block_by_number (format_qty k)) w v e in
        let time = All-get_elem? (λ b. b.ts < 2 ^ 64) n.blocks k b stamped is in
        block-answered eth k w raw (value_of v) (raw_of name (block_json b)) b.num b.ts sent read
          refl (wired.block_full (block_json b)) (wired.reads_block k b is)
          (parse_qty-format_qty b.num word') (parse_qty-format_qty b.ts time)
        ∙ rw (low, is) refl
    | inr (beyond, unknown) ↦
        let high : leb k (length n.blocks - 1) ≡ false = ground (arith, chain.genesis) in
        let e = asked k ∙ rw (unknown, looked_up) refl in
        let (raw, sent, read) = answered (block_by_number (format_qty k)) w nil e in
        block-absent eth k w raw (value_of nil) sent read refl wired.nil_null ∙ rw high refl
  ]

  numbered : (k : ℕ) → k ≤ length n.blocks - 1 → (canon k).number ≡ k
  unfolding stored_block
  numbered k low =
      let (b, is) = get_elem?-some n.blocks k (omega (arith, chain.genesis)) in
      rw is (omega (arith, IsLinked-num 0 no_hash n.blocks k b chain.linked is))

  linked : (k : ℕ) → k < length n.blocks - 1 → (canon (k + 1)).parent_hash ≡ (canon k).hash
  unfolding stored_block
  linked k low =
      let (a, is) = get_elem?-some n.blocks k (omega arith) in
      let (b, next) = get_elem?-some n.blocks (suc k) (omega arith) in
      rw (plus_one, is, next)
        (ap (λ h. name (hx h)) (IsLinked-parent 0 no_hash n.blocks k a b chain.linked is next))
    where
      plus_one : k + 1 ≡ suc k
      plus_one = omega arith

  -- To the indexer the simulated node is a node whose chain holds still, with its newest block as head.
  pub rpc_source-IsStill : IsStill (rpc_source eth) (length n.blocks - 1) canon
  rpc_source-IsStill = record {
    reports = reports;
    answers = answers;
    numbered = numbered;
    linked = linked;
    below = omega (arith, chain.genesis);
  }

  -- When every block is encodable, one pass of the indexer over RPCSource and the simulated node, with a
  -- linked chain of fewer than 2^64 blocks and timestamps of 64 bits, from any stored chain of blocks
  -- with numbers of 64 bits, a valid log (its number of partitions no multiple of 2 ^ 32) and a window
  -- of at least 1, ends with no error and stores a tip with the hash of the node's newest block.
  pub sync-reaches_newest :
      (marshal : Block → Option (List ℕ)) (raw : Block → List ℕ) (ix : Indexer) (w : W) (b : Blk)
      → ((x : Block) → marshal x ≡ some (raw x))
      → get_elem? n.blocks (length n.blocks - 1) ≡ some b
      → 0 < ix.window
      → All (λ x. x.number < 2 ^ 64) ix.chain
      → IsValid ix.log
      → ((sync (rpc_source eth) marshal ix w).0 ≡ synced)
        × ((tip : Block) × (newest (sync (rpc_source eth) marshal ix w).1 ≡ some tip)
            × (tip.hash ≡ name (hx b.hash)))
  unfolding stored_block
  sync-reaches_newest marshal raw ix w b marshals last h words v =
      let (done, (tip, tipped, same)) =
        sync-reaches_head (rpc_source eth) marshal raw marshals (length n.blocks - 1) canon
          rpc_source-IsStill ix w h words v in
      (done, (tip, tipped, same ∙ rw last refl))
