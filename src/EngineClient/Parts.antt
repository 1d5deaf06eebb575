-- ===== src/EngineClient/Parts.antt =====
-- The parts of a response of services/gateway/internal/engineclient/engineclient.go, logs and changes of
-- balances, as a proto3 encoder writes them.
use chain_forge.Common.{ℕ, ◌^◌, ◌<◌, ◌≡◌, refl, arith, ◌∙◌, ap, sym, All, All-append}
use chain_forge.Common.{List, [], ◌∷◌, ◌++◌, map, length}
use chain_forge.PbWire.Entries.{Entry, bytes, IsEntry, put_entries, field_of}
use chain_forge.PbWire.Optional.{opt_bytes, All-opt_bytes, All-bytes}
use chain_forge.EngineClient.{Log, BalanceChange}
use chain_forge.EngineClient.{ok, addr, decode_log, log_field, empty_log, decode_change}
use chain_forge.EngineClient.{change_field, empty_change, from_bytes}
use chain_forge.EngineClient.{set_log_address, set_change_address}
use chain_forge.EngineClient.Numbers.{word_bytes32, from_bytes-word_bytes32, length-word_bytes32}
use chain_forge.EngineClient.Reading.{fold_entries, fold_entries-append, fold-opt_bytes, fold-map}
use chain_forge.EngineClient.Reading.{decode_with-put_entries, fold_entries-one}

-- The entries of a log.
unfoldable pub log_entries : Log → List Entry
log_entries l = bytes 1 l.address ∷ (map (λ t. bytes 2 t) l.topics ++ opt_bytes 3 l.payload)

pub record IsLog (l : Log) : Type 0 where
  pub address : length l.address ≡ 20
  pub topics : All (λ t. length t < 2 ^ 31) l.topics
  pub payload : length l.payload < 2 ^ 31

pub addr-ok : (a : List ℕ) → length a ≡ 20 → addr a ≡ ok a
unfolding addr
addr-ok a h = ground (arith, h)

All-log_entries : (l : Log) → IsLog l → All IsEntry (log_entries l)
unfolding log_entries
All-log_entries l h = (
  unfold IsEntry in (omega arith, omega (arith, h.address)),
  All-append IsEntry (map (λ t. bytes 2 t) l.topics) (opt_bytes 3 l.payload)
      (All-bytes 2 (λ t. t) l.topics (omega arith) h.topics)
      (All-opt_bytes 3 l.payload (omega arith) h.payload),
)

-- A log is read back from its entries.
pub decode_log-entries : (l : Log) → IsLog l → decode_log (put_entries [] (log_entries l)) ≡ ok l
unfolding decode_log log_entries
decode_log-entries l h =
    let step = log_field in
    let s1 : Log = record { address = l.address; topics = []; payload = [] } in
    let s2 : Log = record { address = l.address; topics = l.topics; payload = [] } in
    let head : fold_entries step empty_log (bytes 1 l.address ∷ []) ≡ ok s1 =
      fold_entries-one step empty_log s1 (bytes 1 l.address) (
        unfold log_field field_of set_log_address in
        rw (addr-ok l.address h.address, set_log_address) refl) in
    let middle : fold_entries step s1 (map (λ t. bytes 2 t) l.topics) ≡ ok s2 =
      fold-map step (λ t. length t < 2 ^ 31) (λ t. bytes 2 t)
        (λ ts. record { address = l.address; topics = ts; payload = [] }) [] l.topics
        (λ before x small. unfold log_field field_of in refl) h.topics in
    let last : fold_entries step s2 (opt_bytes 3 l.payload) ≡ ok l =
      fold-opt_bytes step s2 l 3 l.payload
        (λ e. ap (λ p. record { address = l.address; topics = l.topics; payload = p }) (sym e))
        (unfold log_field field_of in refl) in
    decode_with-put_entries step empty_log (log_entries l) (All-log_entries l h)
    ∙ fold_entries-append step empty_log s1 (bytes 1 l.address ∷ [])
        (map (λ t. bytes 2 t) l.topics ++ opt_bytes 3 l.payload) head
    ∙ fold_entries-append step s1 s2 (map (λ t. bytes 2 t) l.topics) (opt_bytes 3 l.payload) middle
    ∙ last

-- The entries of a change of a balance, whose numbers the contract has as 32 bytes.
unfoldable pub change_entries : BalanceChange → List Entry
change_entries c =
    bytes 1 c.address ∷ (opt_bytes 2 (word_bytes32 c.before) ++ opt_bytes 3 (word_bytes32 c.after))

pub record IsChange (c : BalanceChange) : Type 0 where
  pub address : length c.address ≡ 20
  pub before : c.before < 2 ^ 256
  pub after : c.after < 2 ^ 256

All-change_entries : (c : BalanceChange) → IsChange c → All IsEntry (change_entries c)
unfolding change_entries
All-change_entries c h = (
  unfold IsEntry in (omega arith, omega (arith, h.address)),
  All-append IsEntry (opt_bytes 2 (word_bytes32 c.before)) (opt_bytes 3 (word_bytes32 c.after))
      (All-opt_bytes 2 (word_bytes32 c.before) (omega arith)
        (omega (arith, length-word_bytes32 c.before)))
      (All-opt_bytes 3 (word_bytes32 c.after) (omega arith)
        (omega (arith, length-word_bytes32 c.after))),
)

from_no_bytes : (n : ℕ) → n < 2 ^ 256 → word_bytes32 n ≡ [] → 0 ≡ n
unfolding from_bytes
from_no_bytes n h e = ap (from_bytes 0) (sym e) ∙ from_bytes-word_bytes32 n h

pub decode_change-entries :
    (c : BalanceChange) → IsChange c → decode_change (put_entries [] (change_entries c)) ≡ ok c
unfolding decode_change change_entries
decode_change-entries c h =
    let step = change_field in
    let s1 : BalanceChange = record { address = c.address; before = 0; after = 0 } in
    let s2 : BalanceChange = record { address = c.address; before = c.before; after = 0 } in
    let b = opt_bytes 2 (word_bytes32 c.before) in
    let a = opt_bytes 3 (word_bytes32 c.after) in
    let head : fold_entries step empty_change (bytes 1 c.address ∷ []) ≡ ok s1 =
      fold_entries-one step empty_change s1 (bytes 1 c.address) (
        unfold change_field field_of set_change_address in
        rw (addr-ok c.address h.address, set_change_address) refl) in
    let middle : fold_entries step s1 b ≡ ok s2 =
      fold-opt_bytes step s1 s2 2 (word_bytes32 c.before)
        (λ e.
          ap (λ n. record { address = c.address; before = n; after = 0 })
            (from_no_bytes c.before h.before e))
        (unfold change_field field_of in
          ap (λ n. ok (record { address = c.address; before = n; after = 0 }))
            (from_bytes-word_bytes32 c.before h.before)) in
    let last : fold_entries step s2 a ≡ ok c =
      fold-opt_bytes step s2 c 3 (word_bytes32 c.after)
        (λ e.
          ap (λ n. record { address = c.address; before = c.before; after = n })
            (from_no_bytes c.after h.after e))
        (unfold change_field field_of in
          ap (λ n. ok (record { address = c.address; before = c.before; after = n }))
            (from_bytes-word_bytes32 c.after h.after)) in
    decode_with-put_entries step empty_change (change_entries c) (All-change_entries c h)
    ∙ fold_entries-append step empty_change s1 (bytes 1 c.address ∷ []) (b ++ a) head
    ∙ fold_entries-append step s1 s2 b a middle
    ∙ last
