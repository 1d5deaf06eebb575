-- ===== src/Chainsim/FollowedTests.antt =====
-- A simulated node with two blocks behind a transport, and the theorems there.
use chain_forge.Common.{
  ℕ, zero, suc, ◌+◌, ◌-◌, ◌^◌, ◌<◌, ◌==◌, ==_ne, ◌≡◌, ◌≢◌, refl, ap, arith, false, if◌then◌else◌,
  inl, inr, All,
}
use chain_forge.Common.{List, [], ◌∷◌, length, get_elem?, Option, none, some, String, Bool-cases}
use chain_forge.Common.Bytes.{bytes_eq, bytes_eq_refl}
use chain_forge.Common.Int.{pos}
use chain_forge.EventLog
use chain_forge.EventLog.{Log}
use chain_forge.EventLog.Valid.{new-IsValid}
use chain_forge.Chainsim.{Blk, Node, new, mine, block_on, tip_hash, no_hash}
use chain_forge.Chainsim.Chain.{new-IsChain, mine-IsChain, IsChain}
use chain_forge.Chainsim.Handle.{
  Codec, text, block, nil, block_json, hx, handle, first_param, strings,
}
use chain_forge.Chainsim.Answers.{handle-total}
use chain_forge.Chainsim.Followed.{raw_of, is_error, IsWired, sync-reaches_newest}
use chain_forge.Indexer.{Block, Indexer, synced, sync, newest}
use chain_forge.Indexer.Quantity.{format_qty}
use chain_forge.Indexer.Rpc.{Query, block_number, block_by_number, Eth, is_null, rpc_source}
use chain_forge.JsonRpc.{Request, Response}

abbrev node : Node
node = mine (new 1)

node-IsChain : IsChain node
node-IsChain = mine-IsChain (new 1) (new-IsChain 1)

abbrev first_text : List ℕ
first_text = b'"' ∷ []

-- A parameter is the list of the parameters, and a block is encoded as its number.
abbrev json : Codec
json = record {
  messages = λ p. some (p ∷ []);
  string = λ m. some m;
  encode = λ v. elim v [
    | text t ↦ b'"' ∷ t
    | block b ↦ b'{' ∷ b.number
    | nil ↦ b'n' ∷ b'u' ∷ b'l' ∷ b'l' ∷ []
  ];
}

asks : Query → Request
asks block_number = record { jsonrpc = "2.0"; method = "eth_blockNumber"; params = []; id = 1 ∷ [] }
asks (block_by_number t) = record {
  jsonrpc = "2.0";
  method = "eth_getBlockByNumber";
  params = t;
  id = 1 ∷ [];
}

query : List ℕ → Query
query [] = block_number
query (c ∷ t) = block_by_number t

request : Query → List ℕ
request block_number = []
request (block_by_number t) = 1 ∷ t

wire : Response → List ℕ
wire r = (if is_error r.error then 1 else 0) ∷ r.result

abbrev name : List ℕ → String
name h = "0x"

abbrev genesis : Blk
genesis = block_on no_hash 0 0

abbrev second : Blk
second = block_on genesis.hash 1 0

two_blocks : node.blocks ≡ genesis ∷ second ∷ []
unfolding new mine tip_hash
two_blocks = refl

numbers : (genesis.num ≡ 0) × (second.num ≡ 1)
unfolding block_on
numbers = (refl, refl)

stamped : All (λ b. b.ts < 2 ^ 64) node.blocks
unfolding block_on
stamped = rw two_blocks (omega arith, (omega arith, tt))

-- The block with the number of a text, of the two.
read_block : List ℕ → Blk
read_block [] = genesis
read_block (c ∷ t) = if bytes_eq t (format_qty 0) then genesis else second

abbrev replied : Option Response → Option (List ℕ)
replied none = none
replied (some r) = some (wire r)

abbrev eth : Eth ℕ
eth = record {
  request = request;
  envelope = λ b. elim b [
    | [] ↦ none
    | c ∷ result ↦ some (record { result = result; has_error = c == 1 })
  ];
  text = λ b. elim b [ [] ↦ none | c ∷ t ↦ some t ];
  raw_block = λ b. some (raw_of name (block_json (read_block b)));
  send = λ body w. (replied (handle json node (asks (query body))), w + 1);
}

sent :
    (q : Query) (w : ℕ) (r : Response)
    → handle json node (asks q) ≡ some r
    → (eth.send (eth.request q) w).0 ≡ some (wire r)
unfolding query request
sent block_number w r e = ap replied e
sent (block_by_number t) w r e = ap replied e

enveloped :
    (r : Response)
    → eth.envelope (wire r) ≡ some (record { result = r.result; has_error = is_error r.error })
unfolding wire
enveloped r = elim (Bool-cases (is_error r.error)) [ inl e ↦ rw e refl | inr e ↦ rw e refl ]

read :
    (k : ℕ) (b : Blk)
    → get_elem? node.blocks k ≡ some b
    → eth.raw_block (json.encode (block (block_json b))) ≡ some (raw_of name (block_json b))
read k b e = go k (rw two_blocks at e)
  where
    zero_text : read_block (b'{' ∷ (block_json genesis).number) ≡ genesis
    zero_text = unfold read_block block_json block_on in rw (bytes_eq_refl (format_qty 0)) refl

    one_text : read_block (b'{' ∷ (block_json second).number) ≡ second
    one_text = unfold read_block block_json block_on format_qty bytes_eq in refl

    go :
        (k : ℕ)
        → get_elem? (genesis ∷ second ∷ []) k ≡ some b
        → eth.raw_block (json.encode (block (block_json b))) ≡ some (raw_of name (block_json b))
    go zero e =
        let same : genesis ≡ b = cc e in
        rw (← same) (ap (λ x. some (raw_of name (block_json x))) zero_text)
    go (suc zero) e =
        let same : second ≡ b = cc e in
        rw (← same) (ap (λ x. some (raw_of name (block_json x))) one_text)
    go (suc (suc k)) e = absurd (cc e)

full : (c : ℕ) (t : List ℕ) → c ≢ b'n' → is_null (c ∷ t) ≡ false
unfolding is_null
full c [] h = refl
full c (x ∷ []) h = refl
full c (x ∷ y ∷ []) h = refl
full c (x ∷ y ∷ z ∷ []) h = rw (==_ne c b'n' h) refl
full c (x ∷ y ∷ z ∷ v ∷ t) h = refl

wired : IsWired json node eth name asks
unfolding asks first_param strings is_null
wired = record {
  head_method = refl;
  block_method = λ t. refl;
  block_param = λ t. refl;
  wire = wire;
  sends = sent;
  envelopes = enveloped;
  reads_text = λ t. refl;
  reads_block = read;
  nil_null = refl;
  text_full = λ t. full b'"' t (λ e. omega (arith, e));
  block_full = λ b. full b'{' b.number (λ e. omega (arith, e));
}

abbrev ix : Indexer
ix = record { window = 4; chain = []; log = EventLog.new (pos 2) }

abbrev marshal : Block → Option (List ℕ)
marshal b = some (b.number ∷ [])

last : get_elem? node.blocks (length node.blocks - 1) ≡ some second
last = rw two_blocks refl

few : length node.blocks < 2 ^ 64
few = rw two_blocks (omega arith)

sync-reaches_newest_example :
    ((sync (rpc_source eth) marshal ix 0).0 ≡ synced)
    × ((tip : Block) × (newest (sync (rpc_source eth) marshal ix 0).1 ≡ some tip)
        × (tip.hash ≡ name (hx second.hash)))
sync-reaches_newest_example =
    sync-reaches_newest json node eth name asks wired node-IsChain stamped few marshal
      (λ b. b.number ∷ []) ix 0 second (λ b. refl) last (omega arith) tt
      (new-IsValid (pos 2) (omega arith))

handle-total_example : handle json node (asks (block_by_number (format_qty 7))) ≢ none
handle-total_example =
    handle-total node node-IsChain few json (asks (block_by_number (format_qty 7)))
