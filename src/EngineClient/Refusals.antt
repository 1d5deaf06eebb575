-- ===== src/EngineClient/Refusals.antt =====
-- What `Encode` of services/gateway/internal/engineclient/engineclient.go refuses, and how the engine reads
-- what it accepts.
use chain_forge.Common.{ℕ, ◌^◌, ◌<◌, ◌≡◌, refl, arith, ◌∙◌, ap, sym, All, All-append}
use chain_forge.Common.{
  List, [], ◌∷◌, ◌++◌, map, length, Option, none, some, Option-cases, Bool-cases, inl, inr, leb,
  append_assoc, append-nil,
}
use chain_forge.Common.Int.{ℤ, pos, negsuc}
use chain_forge.PbWire.{Field, put_raw, put_raw_always}
use chain_forge.PbWire.Entries.{Entry, bytes, IsEntry, put_entries, field_of}
use chain_forge.PbWire.Optional.{opt_number, opt_bytes, All-opt_number, All-opt_bytes, All-bytes}
use chain_forge.EngineClient.{
  Slot, Account, SimRequest, word, add_slots, encode_account, add_state, put_head,
}
use chain_forge.EngineClient.{encode, Result, ok, decode_with}
use chain_forge.EngineClient.Numbers.{length-be_bytes}
use chain_forge.EngineClient.Requests.{IsWord, HasWords, word_bytes, account_entries, to_entries}
use chain_forge.EngineClient.Requests.{request_entries, encode-request_entries}
use chain_forge.EngineClient.Reading.{fold_entries, decode_with-put_entries}

word-some : (v : Option ℤ) (b : List ℕ) → word v ≡ some b → IsWord v
unfolding word IsWord
word-some none b e = tt
word-some (some (negsuc n)) b e = absurd (cc e)
word-some (some (pos n)) b e = elim (Bool-cases (leb (2 ^ 256) n)) [
  | inl large ↦ absurd (cc (rw (large, word) at e))
  | inr small ↦ ground arith
]

add_slots-some :
    (w : List ℕ) (ss : List Slot) (b : List ℕ)
    → add_slots w ss ≡ some b
    → All (λ s. IsWord s.value) ss
unfolding add_slots
add_slots-some w [] b e = tt
add_slots-some w (s ∷ ss) b e = elim (Option-cases (word s.value)) [
  | inl bad ↦ absurd (cc (rw (bad, add_slots) at e))
  | inr (v, good) ↦ (
    word-some s.value v good,
    add_slots-some (put_raw_always w 5 (put_raw (put_raw [] 1 s.key) 2 v)) ss b
        (rw (good, add_slots) at e),
  )
]

encode_account-some : (a : Account) (b : List ℕ) → encode_account a ≡ some b → HasWords a
unfolding encode_account HasWords
encode_account-some a b e = elim (Option-cases (word a.balance)) [
  | inl bad ↦ absurd (cc (rw (bad, encode_account) at e))
  | inr (v, good) ↦
      (word-some a.balance v good, add_slots-some _ a.storage b (rw (good, encode_account) at e))
]

add_state-some :
    (w : List ℕ) (accounts : List Account) (b : List ℕ)
    → add_state w accounts ≡ some b
    → All HasWords accounts
unfolding add_state
add_state-some w [] b e = tt
add_state-some w (a ∷ more) b e = elim (Option-cases (encode_account a)) [
  | inl bad ↦ absurd (cc (rw (bad, add_state) at e))
  | inr (v, good) ↦ (
    encode_account-some a v good,
    add_state-some (put_raw_always w 8 v) more b (rw (good, add_state) at e),
  )
]

-- The values of a request are nil or unsigned 256-bit integers.
pub record AreWords (r : SimRequest) : Type 0 where
  pub value : IsWord r.value
  pub gas_price : IsWord r.gas_price
  pub state : All HasWords r.state

encode-some : (r : SimRequest) (b : List ℕ) → encode r ≡ some b → AreWords r
unfolding encode
encode-some r b e = elim (Option-cases (word r.value)) [
  | inl bad ↦ absurd (cc (rw (bad, encode) at e))
  | inr (v, good) ↦ elim (Option-cases (word r.gas_price)) [
    | inl bad ↦ absurd (cc (rw (bad, encode) at (rw (good, encode) at e)))
    | inr (p, good') ↦ elim (Option-cases (add_state (put_head r v p) r.state)) [
      | inl bad ↦ absurd (cc (rw (bad, encode) at (rw (good', encode) at (rw (good, encode) at e))))
      | inr (s, good'') ↦ record {
        value = word-some r.value v good;
        gas_price = word-some r.gas_price p good';
        state = add_state-some (put_head r v p) r.state s good'';
      }
    ]
  ]
]

-- `Encode` accepts exactly the requests whose values are nil or unsigned 256-bit integers, and writes
-- for them the fields of a proto3 encoder: in the order of their numbers, nested messages whole, and
-- nothing for a zero value.
pub encode-request :
    (r : SimRequest)
    → (AreWords r → encode r ≡ some (put_entries [] (request_entries r)))
      × ((b : List ℕ) → encode r ≡ some b → AreWords r)
encode-request r =
    ((λ h. encode-request_entries r h.value h.gas_price h.state), (λ b e. encode-some r b e))

-- Any reader of the fields, one by one.
collect : List Field → Field → Result (List Field)
collect seen f = ok (seen ++ (f ∷ []))

collect-fold :
    (seen : List Field) (es : List Entry)
    → fold_entries collect seen es ≡ ok (seen ++ map field_of es)
unfolding fold_entries collect
collect-fold seen [] = ap ok (sym (append-nil seen))
collect-fold seen (e ∷ es) =
    collect-fold (seen ++ (field_of e ∷ [])) es
    ∙ ap ok (append_assoc seen (field_of e ∷ []) (map field_of es))

-- The loop of the decoders as a reader of a message into its fields.
unfoldable pub fields : List ℕ → Result (List Field)
unfolding collect
fields b = decode_with collect [] b

-- The parts of a request that are bytes or lists have lengths below 2 ^ 31 and its numbers 64 bits.
pub record IsSized (r : SimRequest) : Type 0 where
  pub chain_id : r.chain_id < 2 ^ 64
  pub gas_limit : r.gas_limit < 2 ^ 64
  pub block_number : r.block_number < 2 ^ 64
  pub timestamp : r.timestamp < 2 ^ 64
  pub from : length r.from < 2 ^ 31
  pub to : (a : List ℕ) → r.to ≡ some a → length a < 2 ^ 31
  pub payload : length r.payload < 2 ^ 31
  pub state : All (λ a. length (put_entries [] (account_entries a)) < 2 ^ 31) r.state

length-word_bytes : (v : Option ℤ) → length (word_bytes v) < 2 ^ 31
unfolding word_bytes
length-word_bytes none = omega arith
length-word_bytes (some (negsuc n)) = omega arith
length-word_bytes (some (pos n)) = omega (arith, length-be_bytes n)

All-to_entries :
    (to : Option (List ℕ))
    → ((a : List ℕ) → to ≡ some a → length a < 2 ^ 31)
    → All IsEntry (to_entries to)
unfolding to_entries
All-to_entries none h = tt
All-to_entries (some a) h = All-opt_bytes 3 a (omega arith) (h a refl)

All-request_entries : (r : SimRequest) → IsSized r → All IsEntry (request_entries r)
unfolding request_entries
All-request_entries r h =
    All-append IsEntry (opt_number 1 r.chain_id) _
      (All-opt_number 1 r.chain_id (omega arith) h.chain_id)
      (All-append IsEntry (opt_bytes 2 r.from) _ (All-opt_bytes 2 r.from (omega arith) h.from) (
        All-append IsEntry (to_entries r.to) _ (All-to_entries r.to h.to) (
          All-append IsEntry (opt_bytes 4 (word_bytes r.value)) _
            (All-opt_bytes 4 (word_bytes r.value) (omega arith) (length-word_bytes r.value))
            (All-append IsEntry (opt_bytes 5 r.payload) _
              (All-opt_bytes 5 r.payload (omega arith) h.payload)
              (All-append IsEntry (opt_number 6 r.gas_limit) _
                (All-opt_number 6 r.gas_limit (omega arith) h.gas_limit)
                (All-append IsEntry (opt_bytes 7 (word_bytes r.gas_price)) _
                  (All-opt_bytes 7 (word_bytes r.gas_price) (omega arith)
                    (length-word_bytes r.gas_price))
                  (All-append IsEntry
                    (map (λ a. bytes 8 (put_entries [] (account_entries a))) r.state) _
                    (All-bytes 8 (λ a. put_entries [] (account_entries a)) r.state (omega arith)
                      h.state)
                    (All-append IsEntry (opt_number 9 r.block_number) (opt_number 10 r.timestamp)
                      (All-opt_number 9 r.block_number (omega arith) h.block_number)
                      (All-opt_number 10 r.timestamp (omega arith) h.timestamp)))))))))

-- What `Encode` returns for a request with parts shorter than 2 ^ 31 is read, to its end and with no
-- error, as the fields of the request.
pub fields-encode :
    (r : SimRequest) (b : List ℕ)
    → IsSized r
    → encode r ≡ some b
    → fields b ≡ ok (map field_of (request_entries r))
unfolding fields
fields-encode r b sized e =
    let words = encode-some r b e in
    let wrote = encode-request_entries r words.value words.gas_price words.state in
    let same : b ≡ put_entries [] (request_entries r) = cc (e, wrote) in
    rw same (
      decode_with-put_entries collect [] (request_entries r) (All-request_entries r sized)
      ∙ collect-fold [] (request_entries r))
