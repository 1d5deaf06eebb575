-- ===== src/Lib.antt =====
-- The gateway service of chain-forge, services/gateway/internal/ (Go). Wallets and the web
-- application send it JSON-RPC calls and subscribe to chain events; it spreads the calls over
-- remote nodes, follows the head of the chain, keeps an event log and delivers its events.
--
-- The parts, each a file here with children that prove what they are named for:
-- - Breaker: services/gateway/internal/breaker/breaker.go, the circuit breaker (`new`, `allow`,
--   `success`, `failure`).
-- - Upstream: services/gateway/internal/upstream/upstream.go, the round-robin pool with failover,
--   whose endpoints each hold a Breaker (`new_pool`, `try`, `call`, `health`). `visit` is one
--   round of the loop of `Call`.
-- - EventLog: services/gateway/internal/eventlog/eventlog.go, the partitioned log with its
--   subscribers (`append`, `read`, `commit`, `committed`, `subscribe`, `cancel`).
-- - PbWire: services/gateway/internal/pbwire/pbwire.go, the protobuf wire codec that the engine
--   client stands on (`put_uint`, `put_raw`, `put_raw_always`, `next`).
-- - Indexer: services/gateway/internal/indexer/indexer.go, which follows the chain's head and
--   appends its events to an EventLog (`sync`, made of `unwind` and `catch_up`; `emit`, `blocks`,
--   `newest` for `Head`); Indexer/Rpc is `RPCSource`, with its quantities in Indexer/Quantity.
-- - Cache: services/gateway/internal/cache/cache.go, the LRU cache with expiry, as its list, its
--   elements and its map (`get`, `put` for `Set`, whose insertion of a new key is `insert`, and
--   `len`); Cache/Lru is the plain list of entries that it is compared with.
-- - Webhook: services/gateway/internal/webhook/webhook.go, the delivery to the registered
--   endpoints (`deliver`, whose attempts for one of them are `attempt`, each a `post` that is
--   signed with `sign`); Webhook/Registry is the map of registrations (`register`, `remove`,
--   `list`) and `run`.
-- - RateLimit: services/gateway/internal/ratelimit/ratelimit.go (`new`, `allow`), with the buckets
--   of natural numbers that it is compared with in RateLimit/Buckets.
-- - JsonRpc: services/gateway/internal/jsonrpc/jsonrpc.go, the framing of requests and batches
--   (`decode`, `serve`, `fail`), with a handler over the states of the service behind it.
-- - Rpcx: services/gateway/internal/rpcx/rpcx.go, one JSON-RPC call and what became of it
--   (`call`).
-- - Metrics: services/gateway/internal/metrics/metrics.go, the registry of series (`add`, `set`,
--   `value`) and its text (`write`).
-- - Solana: services/gateway/internal/solana/solana.go, a Solana node as a source of blocks for
--   the indexer, over Rpcx (`head`, `block`).
-- - EngineClient: services/gateway/internal/engineclient/engineclient.go, the messages of the
--   simulation engine over PbWire (`encode`, `decode`, `simulate`, `health`); its messages, their
--   encoding and their decoding are children of it.
-- - Intent: services/gateway/internal/intent/intent.go (`prepare_evm`, `simulate_solana`), with
--   its checks in Intent/Checks, its views in Intent/Views, its texts in Intent/Text and the monad
--   of its steps in Intent/Steps.
-- - SignerClient: services/gateway/internal/signerclient/signerclient.go (`post`, `sign`,
--   `sign_tx`, `mac`).
-- - Server: services/gateway/internal/server/server.go, the proxy of JSON-RPC calls with the
--   limiter in front and a Cache behind (`proxy`, `rpc`); Server/Access is `auth`, `ready` and
--   `blocks`, Server/Routes the router with `cors` and `auth` in front (`dispatch`), Server/Hooks
--   the routes of the webhooks, and Server/Intents is services/gateway/internal/server/intents.go
--   (`do_intent`, `broadcast`), which Server/Intents/Composed puts over Intent.
-- - Keccak: services/gateway/internal/keccak/keccak.go (`f1600`, `sum256`, `checksum`,
--   `parse_address`).
-- - Chainsim: services/gateway/internal/chainsim/chainsim.go, the chain of the simulated node
--   (`new`, `mine`, `reorg`), and in Chainsim/Handle its queries (`handle`, `resolve`);
--   Chainsim/Followed puts the Indexer and its `RPCSource` over them.
-- - Relay: services/gateway/internal/relay/relay.go (`send`).
-- - Grpcx: services/gateway/internal/grpcx/grpcx.go, a unary call (`invoke`), and in Grpcx/Targets
--   what is dialled (`dial`).
-- - App: services/gateway/internal/app/app.go, the configuration (`load_config`) and, in App/Sim,
--   the loop of the simulated node (`sim_settings`, `sim_run`).
-- - Common: the helpers that these share, with Common/Bits on the bits of naturals and
--   Common/Sorting on Go's order of strings and the package sort.
--
-- How Go is read. A struct is a record, and a method that changes it returns the new one; a mutex
-- that is held throughout makes the method one step, and a history is a list of such steps. Clock
-- readings are arguments, and times and durations are not negative. A word of 64 or 32 bits is a
-- natural with its wrap-around written out, a signed `int` that may be negative is a `ℤ`. A byte
-- is a natural and a string of bytes is a list. A run-time panic is a value of its own (`panics`
-- or `none`), so that its absence is a theorem. What is not in the repository is a parameter: the
-- HTTP client and the nodes behind it (the record `Upstream.Env`, functions over an arbitrary
-- world), encoding/json (`marshal`), the node that the indexer queries (the record
-- `Indexer.Source`), the receivers of webhooks with crypto/hmac (the record `Webhook.Env`),
-- net/url and net (`Webhook.Registry.Net`), floats and their formats (`RateLimit.Floats`,
-- `Metrics.Values`), decoding of JSON (the record `JsonRpc.Json`), the pool and JSON beneath an
-- RPC call (the record `Rpcx.Node`), the signer behind its client (the record `SignerClient.Env`),
-- and base64. The rate limiter and the pool in front of the proxy are the record `Server.Env`, the
-- services behind the intent routes the record `Server.Intents.Services`.
--
-- Loops and fuel. The loop of `Upstream.call` is a recursion on the rounds left, as many as there
-- are endpoints. `PbWire.put_loop` recurses on the accessibility of the number, the reader on the
-- ten shifts below 64, and `PbWire.next_from` on fuel, of which the length of the input is enough,
-- since each round takes a byte. `Indexer.catch_up` runs on the count of the numbers up to the
-- head, and one round more for the test that ends the loop. `EngineClient.each_field` runs on a
-- round more than the bytes of the message, each round taking a byte at least, `Keccak.fill` on
-- the rate, which is more than the bytes that a block may lack, and `Intent.Text.decimal_before`
-- on the number that is written, which is more than its digits.
--
-- Not modelled: the polling loops, which only call a pass on a timer; the route that gathers a
-- status, and what writes to a connection (the stream of events, the access log, the recovery from
-- a panic); the start of the gateway, which reads files, listens and connects the parts; the
-- command line entry points, and what is not in Go.
pub mod Common
pub mod App
pub mod Breaker
pub mod Cache
pub mod Chainsim
pub mod EngineClient
pub mod EventLog
pub mod Grpcx
pub mod Indexer
pub mod Intent
pub mod JsonRpc
pub mod Keccak
pub mod Metrics
pub mod PbWire
pub mod RateLimit
pub mod Relay
pub mod Rpcx
pub mod Server
pub mod SignerClient
pub mod Solana
pub mod Upstream
pub mod Webhook
