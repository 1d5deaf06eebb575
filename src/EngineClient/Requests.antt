-- ===== src/EngineClient/Requests.antt =====
-- `Encode` of services/gateway/internal/engineclient/engineclient.go: which requests it refuses, and that
-- what it writes is read back field by field.
use chain_forge.Common.{ℕ, ◌^◌, ◌<◌, ◌≡◌, refl, arith, ◌∙◌, ap, All}
use chain_forge.Common.{List, [], ◌∷◌, ◌++◌, map, Option, none, some, leb, append_assoc, false}
use chain_forge.Common.Int.{ℤ, pos, negsuc}
use chain_forge.PbWire.{put_uint, put_raw, put_raw_always}
use chain_forge.PbWire.Entries.{Entry, bytes, put_entries, put_entry}
use chain_forge.PbWire.Optional.{
  opt_number, opt_bytes, put_uint-entries, put_raw-entries, put_entries-more,
}
use chain_forge.EngineClient.{
  Slot, Account, SimRequest, word, be_bytes, add_slots, encode_account, add_state,
}
use chain_forge.EngineClient.{put_to, put_head, encode}

-- A value that `word` can write, and its bytes.
unfoldable pub IsWord : Option ℤ → Type 0
IsWord none = Unit
IsWord (some (pos n)) = n < 2 ^ 256
IsWord (some (negsuc n)) = ⊥

unfoldable pub word_bytes : Option ℤ → List ℕ
word_bytes none = []
word_bytes (some (negsuc n)) = []
word_bytes (some (pos n)) = be_bytes n

word-IsWord : (v : Option ℤ) → IsWord v → word v ≡ some (word_bytes v)
unfolding word IsWord word_bytes
word-IsWord none h = refl
word-IsWord (some (negsuc n)) h = absurd h
word-IsWord (some (pos n)) h =
    let small : leb (2 ^ 256) n ≡ false = ground arith in rw (small, word) refl

unfoldable pub slot_entries : Slot → List Entry
slot_entries s = opt_bytes 1 s.key ++ opt_bytes 2 (word_bytes s.value)

unfoldable pub account_entries : Account → List Entry
account_entries a =
    opt_bytes 1 a.address
    ++ (opt_bytes 2 (word_bytes a.balance)
        ++ (opt_number 3 a.nonce
            ++ (opt_bytes 4 a.code
                ++ map (λ s. bytes 5 (put_entries [] (slot_entries s))) a.storage)))

unfoldable pub to_entries : Option (List ℕ) → List Entry
to_entries none = []
to_entries (some a) = opt_bytes 3 a

-- The fields of a request in the order of their numbers.
unfoldable pub request_entries : SimRequest → List Entry
request_entries r =
    opt_number 1 r.chain_id
    ++ (opt_bytes 2 r.from
        ++ (to_entries r.to
            ++ (opt_bytes 4 (word_bytes r.value)
                ++ (opt_bytes 5 r.payload
                    ++ (opt_number 6 r.gas_limit
                        ++ (opt_bytes 7 (word_bytes r.gas_price)
                            ++ (map (λ a. bytes 8 (put_entries [] (account_entries a))) r.state
                                ++ (opt_number 9 r.block_number ++ opt_number 10 r.timestamp))))))))

-- The values of a request are words.
unfoldable pub HasWords : Account → Type 0
HasWords a = IsWord a.balance × All (λ s. IsWord s.value) a.storage

slot_bytes :
    (s : Slot)
    → put_raw (put_raw [] 1 s.key) 2 (word_bytes s.value) ≡ put_entries [] (slot_entries s)
unfolding slot_entries
slot_bytes s =
    put_raw-entries (put_raw [] 1 s.key) 2 (word_bytes s.value)
    ∙ ap (λ w. put_entries w (opt_bytes 2 (word_bytes s.value))) (put_raw-entries [] 1 s.key)
    ∙ put_entries-more [] (opt_bytes 1 s.key) (opt_bytes 2 (word_bytes s.value))

add_slots-entries :
    (w : List ℕ) (ss : List Slot)
    → All (λ s. IsWord s.value) ss
    → add_slots w ss
      ≡ some (put_entries w (map (λ s. bytes 5 (put_entries [] (slot_entries s))) ss))
unfolding add_slots put_entries put_entry
add_slots-entries w [] h = refl
add_slots-entries w (s ∷ ss) (h, hs) =
    rw (word-IsWord s.value h, add_slots)
      (ap (λ b. add_slots (put_raw_always w 5 b) ss) (slot_bytes s)
        ∙ add_slots-entries (put_raw_always w 5 (put_entries [] (slot_entries s))) ss hs)

-- A chain of entries behind those written.
put_four :
    (w : List ℕ) (es fs gs hs : List Entry)
    → put_entries (put_entries (put_entries (put_entries w es) fs) gs) hs
      ≡ put_entries w (es ++ (fs ++ (gs ++ hs)))
put_four w es fs gs hs =
    put_entries-more (put_entries (put_entries w es) fs) gs hs
    ∙ put_entries-more (put_entries w es) fs (gs ++ hs)
    ∙ put_entries-more w es (fs ++ (gs ++ hs))

encode_account-entries :
    (a : Account) → HasWords a → encode_account a ≡ some (put_entries [] (account_entries a))
unfolding encode_account account_entries HasWords
encode_account-entries a (h, hs) =
    let bal = word_bytes a.balance in
    let w1 = put_raw [] 1 a.address in
    let w2 = put_raw w1 2 bal in
    let w3 = put_uint w2 3 a.nonce in
    let e1 : w1 ≡ put_entries [] (opt_bytes 1 a.address) = put_raw-entries [] 1 a.address in
    let e2 : w2 ≡ put_entries w1 (opt_bytes 2 bal) = put_raw-entries w1 2 bal in
    let e3 : w3 ≡ put_entries w2 (opt_number 3 a.nonce) = put_uint-entries w2 3 a.nonce in
    let slots : List Entry = map (λ s. bytes 5 (put_entries [] (slot_entries s))) a.storage in
    let four : put_raw w3 4 a.code
        ≡ put_entries [] (
            opt_bytes 1 a.address
            ++ (opt_bytes 2 bal ++ (opt_number 3 a.nonce ++ opt_bytes 4 a.code))) =
      put_raw-entries w3 4 a.code
      ∙ ap (λ w. put_entries w (opt_bytes 4 a.code))
          (e3
            ∙ ap (λ w. put_entries w (opt_number 3 a.nonce))
                (e2 ∙ ap (λ w. put_entries w (opt_bytes 2 bal)) e1))
      ∙ put_four [] (opt_bytes 1 a.address) (opt_bytes 2 bal) (opt_number 3 a.nonce)
          (opt_bytes 4 a.code) in
    rw (word-IsWord a.balance h, encode_account)
      (add_slots-entries (put_raw w3 4 a.code) a.storage hs
        ∙ ap (λ w. some (put_entries w slots)) four
        ∙ ap some (put_entries-more [] _ slots)
        ∙ ap (λ es. some (put_entries [] es)) (simp append_assoc))

put_to-entries : (w : List ℕ) (to : Option (List ℕ)) → put_to w to ≡ put_entries w (to_entries to)
unfolding put_to to_entries put_entries
put_to-entries w none = refl
put_to-entries w (some a) = put_raw-entries w 3 a

head_entries : SimRequest → List Entry
head_entries r =
    opt_number 1 r.chain_id
    ++ (opt_bytes 2 r.from
        ++ (to_entries r.to
            ++ (opt_bytes 4 (word_bytes r.value)
                ++ (opt_bytes 5 r.payload
                    ++ (opt_number 6 r.gas_limit ++ opt_bytes 7 (word_bytes r.gas_price))))))

put_head-entries :
    (r : SimRequest)
    → put_head r (word_bytes r.value) (word_bytes r.gas_price) ≡ put_entries [] (head_entries r)
unfolding put_head head_entries
put_head-entries r =
    simp (put_uint-entries, put_raw-entries, put_to-entries, put_entries-more, append_assoc)

add_state-entries :
    (w : List ℕ) (as_ : List Account)
    → All HasWords as_
    → add_state w as_
      ≡ some (put_entries w (map (λ a. bytes 8 (put_entries [] (account_entries a))) as_))
unfolding add_state put_entries put_entry
add_state-entries w [] h = refl
add_state-entries w (a ∷ more) (h, hs) =
    rw (encode_account-entries a h, add_state)
      (add_state-entries (put_raw_always w 8 (put_entries [] (account_entries a))) more hs)

-- A request whose values are unsigned 256-bit integers is encoded, field by field in the order of
-- their numbers and with nothing for a zero value.
pub encode-request_entries :
    (r : SimRequest)
    → IsWord r.value
    → IsWord r.gas_price
    → All HasWords r.state
    → encode r ≡ some (put_entries [] (request_entries r))
unfolding encode request_entries head_entries
encode-request_entries r hv hp hs =
    let accounts : List Entry = map (λ a. bytes 8 (put_entries [] (account_entries a))) r.state in
    let w = put_head r (word_bytes r.value) (word_bytes r.gas_price) in
    rw (word-IsWord r.value hv, encode)
      (rw (word-IsWord r.gas_price hp, encode)
        (rw (add_state-entries w r.state hs, encode)
          (ap some (simp (put_uint-entries, put_head-entries r, put_entries-more, append_assoc)))))
