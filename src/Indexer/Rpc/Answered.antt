-- ===== src/Indexer/Rpc/Answered.antt =====
-- What RPCSource of services/gateway/internal/indexer/indexer.go makes of answers without an error.
use chain_forge.Common.{ℕ, ◌≡◌, refl, true, false, List, some, length}
use chain_forge.Indexer.{found, not_found}
use chain_forge.Indexer.Quantity.{parse_qty, format_qty}
use chain_forge.Indexer.Rpc.{
  Envelope, RawBlock, block_number, block_by_number, Eth, is_null, decoded, reply_of, head_of,
  block_of, answer_of, call, rpc_source,
}

module _ {W : Type 0} (eth : Eth W) where
  pub head-answered :
      (w : W) (raw h : List ℕ) (env : Envelope)
      → (eth.send (eth.request block_number) w).0 ≡ some raw
      → eth.envelope raw ≡ some env
      → env.has_error ≡ false
      → is_null env.result ≡ false
      → eth.text env.result ≡ some h
      → ((rpc_source eth).head w).0 ≡ parse_qty h
  unfolding rpc_source call answer_of reply_of decoded head_of
  head-answered w raw h env sent read sound full text = rw (sent, read, sound, full, text) refl

  pub block-answered :
      (k : ℕ) (w : W) (raw : List ℕ) (env : Envelope) (b : RawBlock) (number timestamp : ℕ)
      → (eth.send (eth.request (block_by_number (format_qty k))) w).0 ≡ some raw
      → eth.envelope raw ≡ some env
      → env.has_error ≡ false
      → is_null env.result ≡ false
      → eth.raw_block env.result ≡ some b
      → parse_qty b.number ≡ some number
      → parse_qty b.timestamp ≡ some timestamp
      → ((rpc_source eth).block k w).0
        ≡ found (record {
          number = number;
          hash = b.hash;
          parent_hash = b.parent_hash;
          timestamp = timestamp;
          tx_count = length b.transactions;
        })
  unfolding rpc_source call answer_of reply_of decoded block_of
  block-answered k w raw env b number timestamp sent read sound full block num time =
      rw (sent, read, sound, full, block, num, time, block_of) refl

  pub block-absent :
      (k : ℕ) (w : W) (raw : List ℕ) (env : Envelope)
      → (eth.send (eth.request (block_by_number (format_qty k))) w).0 ≡ some raw
      → eth.envelope raw ≡ some env
      → env.has_error ≡ false
      → is_null env.result ≡ true
      → ((rpc_source eth).block k w).0 ≡ not_found
  unfolding rpc_source call answer_of reply_of block_of
  block-absent k w raw env sent read sound null = rw (sent, read, sound, null) refl
