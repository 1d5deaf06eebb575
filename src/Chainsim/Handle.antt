-- ===== src/Chainsim/Handle.antt =====
-- services/gateway/internal/chainsim/chainsim.go: how the simulated node answers JSON-RPC queries about its
-- chain. encoding/json is the record `Codec`; the strings that it reads are lists of bytes.
use Prim.Native.String.{◌++◌ as append}
use chain_forge.Common.{
  ℕ, zero, suc, ◌+◌, ◌-◌, ◌*◌, ◌%◌, ◌^◌, ◌||◌, not, ltb, ◌==◌, str_eq, if◌then◌else◌,
}
use chain_forge.Common.{List, [], ◌∷◌, ◌++◌, length, take, get_elem?, Option, none, some, String}
use chain_forge.Common.Bytes.{bytes_eq}
use chain_forge.Common.Int.{ℤ, negsuc}
use chain_forge.Chainsim.{Blk, Node, big_bytes}
use chain_forge.Indexer.Quantity.{parse_qty, format_qty}
use chain_forge.Intent.Text.{has_0x, trim_0x, decode_hex}
use chain_forge.JsonRpc.{Request, Response, fail, ok_response, encoded}
use chain_forge.Keccak.{sum256, parse_address}
use chain_forge.Webhook.{hex}

-- -32601, -32602
abbrev pub code_method_not_found : ℤ
code_method_not_found = negsuc 32600

abbrev pub code_invalid_params : ℤ
code_invalid_params = negsuc 32601

unfoldable pub hx : List ℕ → List ℕ
hx b = b'0' ∷ b'x' ∷ hex b

-- The value that `json` makes of a block.
pub record BlockJson : Type 0 where
  pub number : List ℕ
  pub hash : List ℕ
  pub parent_hash : List ℕ
  pub timestamp : List ℕ
  pub transactions : List (List ℕ)

-- What is answered: a string, a block or nil.
pub data Value : Type 0 where
  text : List ℕ → Value
  block : BlockJson → Value
  nil : Value

-- json.Unmarshal into a list of raw messages and into a string, and json.Marshal.
pub record Codec : Type 0 where
  pub messages : List ℕ → Option (List (List ℕ))
  pub string : List ℕ → Option (List ℕ)
  pub encode : Value → List ℕ

-- The transactions from a number on: those left, each a hash of the block's and its place.
unfoldable pub txs_from : ℕ → ℕ → List ℕ → List (List ℕ)
txs_from zero i hash = []
txs_from (suc left) i hash = hx (sum256 (hash ++ big_bytes 8 i [])) ∷ txs_from left (i + 1) hash

unfoldable pub block_json : Blk → BlockJson
block_json b = record {
  number = format_qty b.num;
  hash = hx b.hash;
  parent_hash = hx b.parent;
  timestamp = format_qty b.ts;
  transactions = txs_from b.txs 0 b.hash;
}

-- What `resolve` finds; `panics` is an index out of range.
pub data Lookup : Type 0 where
  at_block : Blk → Lookup
  no_block panics : Lookup

unfoldable pub indexed : Option Blk → Lookup
indexed none = panics
indexed (some b) = at_block b

abbrev pub latest : List ℕ
latest = b'l' ∷ b'a' ∷ b't' ∷ b'e' ∷ b's' ∷ b't' ∷ []

abbrev pub finalized : List ℕ
finalized = b'f' ∷ b'i' ∷ b'n' ∷ b'a' ∷ b'l' ∷ b'i' ∷ b'z' ∷ b'e' ∷ b'd' ∷ []

abbrev pub safe : List ℕ
safe = b's' ∷ b'a' ∷ b'f' ∷ b'e' ∷ []

abbrev pub pending : List ℕ
pending = b'p' ∷ b'e' ∷ b'n' ∷ b'd' ∷ b'i' ∷ b'n' ∷ b'g' ∷ []

abbrev pub earliest : List ℕ
earliest = b'e' ∷ b'a' ∷ b'r' ∷ b'l' ∷ b'i' ∷ b'e' ∷ b's' ∷ b't' ∷ []

-- The number of the newest block, `uint64(len(n.blocks) - 1)`.
unfoldable pub head : Node → ℕ
head n = (length n.blocks + (2 ^ 64 - 1)) % 2 ^ 64

-- The digits behind 0x are those of a quantity, which ParseUint reads.
unfoldable pub resolve : Node → List ℕ → Lookup
resolve n tag =
    if bytes_eq tag latest || bytes_eq tag finalized || bytes_eq tag safe || bytes_eq tag pending
    then indexed (get_elem? n.blocks (head n))
    else if bytes_eq tag earliest
    then indexed (get_elem? n.blocks 0)
    else elim (parse_qty tag) [
      | none ↦ no_block
      | some v ↦ if ltb (head n) v then no_block else indexed (get_elem? n.blocks v)
    ]

-- The 64 bits of eight bytes, behind those read.
unfoldable pub big_value : ℕ → List ℕ → ℕ
big_value v [] = v
big_value v (b ∷ bs) = big_value (v * 256 + b) bs

-- The block with a hash, if there is one.
unfoldable pub with_hash : List ℕ → List Blk → Option Blk
with_hash h [] = none
with_hash h (b ∷ bs) = if bytes_eq (hx b.hash) h then some b else with_hash h bs

module _ (json : Codec) where
  -- A message that is no string keeps its text.
  unfoldable pub strings : List (List ℕ) → List (List ℕ)
  strings [] = []
  strings (m ∷ ms) = elim (json.string m) [ none ↦ m | some s ↦ s ] ∷ strings ms

  -- The first of the parameters, of which one at least is wanted.
  unfoldable pub first_param : List ℕ → Option (List ℕ)
  first_param raw = elim (json.messages raw) [
    | none ↦ none
    | some ms ↦ elim (strings ms) [ [] ↦ none | p ∷ ps ↦ some p ]
  ]

  unfoldable pub ok_value : Request → Value → Response
  ok_value q v = ok_response q.id (encoded (json.encode v))

  unfoldable pub invalid : Request → String → Response
  invalid q message = fail q.id code_invalid_params message

  unfoldable pub balance : Request → Option (List ℕ) → Response
  balance q none = invalid q "expected [address, tag]"
  balance q (some p) = elim (parse_address p) [
    | none ↦ invalid q "keccak: invalid address"
    | some a ↦
        ok_value q (text (format_qty (big_value 0 (take 8 (sum256 a)) % 1000000 * 1000000000000)))
  ]

  -- eth_getTransactionCount and eth_getCode, which answer the same for every address.
  unfoldable pub of_address : Request → Option (List ℕ) → List ℕ → Response
  of_address q none answer = invalid q "expected [address, tag]"
  of_address q (some p) answer = elim (parse_address p) [
    | none ↦ invalid q "expected [address, tag]"
    | some a ↦ ok_value q (text answer)
  ]

  unfoldable pub send_raw : Request → Option (List ℕ) → Response
  send_raw q none = invalid q "expected [rawTx]"
  send_raw q (some p) = elim (decode_hex (trim_0x p)) [
    | none ↦ invalid q "rawTx must be non-empty 0x hex"
    | some raw ↦
        if not (has_0x p) || length raw == 0
        then invalid q "rawTx must be non-empty 0x hex"
        else ok_value q (text (hx (sum256 raw)))
  ]

  -- `none` is a panic.
  unfoldable pub looked_up : Request → Lookup → Option Response
  looked_up q (at_block b) = some (ok_value q (block (block_json b)))
  looked_up q no_block = some (ok_value q nil)
  looked_up q panics = none

  unfoldable pub by_number : Node → Request → Option (List ℕ) → Option Response
  by_number n q none = some (invalid q "expected [tag, fullTx]")
  by_number n q (some p) = looked_up q (resolve n p)

  unfoldable pub by_hash : Node → Request → Option (List ℕ) → Option Response
  by_hash n q none = some (invalid q "expected [hash, fullTx]")
  by_hash n q (some p) = elim (with_hash p n.blocks) [
    | none ↦ some (ok_value q nil)
    | some b ↦ some (ok_value q (block (block_json b)))
  ]

  unfoldable pub gas_price : Node → ℕ
  gas_price n = 20000000000 + head n % 10 * 1000000000

  -- `Handle`; `none` is a panic.
  unfoldable pub handle : Node → Request → Option Response
  handle n q =
      let p = first_param q.params in
      if str_eq q.method "eth_chainId"
      then some (ok_value q (text (format_qty n.chain_id)))
      else if str_eq q.method "eth_blockNumber"
      then some (ok_value q (text (format_qty (head n))))
      else if str_eq q.method "eth_gasPrice"
      then some (ok_value q (text (format_qty (gas_price n))))
      else if str_eq q.method "eth_getBalance"
      then some (balance q p)
      else if str_eq q.method "eth_getTransactionCount"
      then some (of_address q p (format_qty 0))
      else if str_eq q.method "eth_getCode"
      then some (of_address q p (b'0' ∷ b'x' ∷ []))
      else if str_eq q.method "eth_sendRawTransaction"
      then some (send_raw q p)
      else if str_eq q.method "eth_getBlockByNumber"
      then by_number n q p
      else if str_eq q.method "eth_getBlockByHash"
      then by_hash n q p
      else some (fail q.id code_method_not_found (append (append "method " q.method) " not found"))
