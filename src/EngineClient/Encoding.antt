-- ===== src/EngineClient/Encoding.antt =====
-- The encoding of requests in services/gateway/internal/engineclient/engineclient.go.
use chain_forge.Common.{
  ℕ, zero, suc, ◌/◌, ◌%◌, ◌^◌, ◌==◌, leb, if◌then◌else◌, List, [], ◌∷◌, Option, none, some,
}
use chain_forge.Common.Options.{◌>>=◌}
use chain_forge.Common.Int.{ℤ, pos, negsuc}
use chain_forge.PbWire.{put_uint, put_raw, put_raw_always}
use chain_forge.EngineClient.Messages.{Slot, Account, SimRequest}

-- The bytes of a number, most significant first, in front of those at hand; 32 are enough for 256
-- bits.
unfoldable pub bytes_before : ℕ → ℕ → List ℕ → List ℕ
bytes_before zero n bs = bs
bytes_before (suc fuel) n bs =
    let more = bytes_before fuel (n / 256) (n % 256 ∷ bs) in if n == 0 then bs else more

-- `v.Bytes()`
unfoldable pub be_bytes : ℕ → List ℕ
unfolding bytes_before
be_bytes n = bytes_before 32 n []

-- `none` is the error.
unfoldable pub word : Option ℤ → Option (List ℕ)
word none = some []
word (some (negsuc n)) = none
word (some (pos n)) = if leb (2 ^ 256) n then none else some (be_bytes n)

unfoldable pub add_slots : List ℕ → List Slot → Option (List ℕ)
add_slots w [] = some w
add_slots w (s ∷ ss) =
    word s.value >>= λ v. add_slots (put_raw_always w 5 (put_raw (put_raw [] 1 s.key) 2 v)) ss

unfoldable pub encode_account : Account → Option (List ℕ)
encode_account a = word a.balance >>= λ bal.
    add_slots (put_raw (put_uint (put_raw (put_raw [] 1 a.address) 2 bal) 3 a.nonce) 4 a.code)
      a.storage

unfoldable pub add_state : List ℕ → List Account → Option (List ℕ)
add_state w [] = some w
add_state w (a ∷ more) = encode_account a >>= λ b. add_state (put_raw_always w 8 b) more

-- `w.Raw(3, r.To[:])` unless it is nil.
unfoldable pub put_to : List ℕ → Option (List ℕ) → List ℕ
put_to w none = w
put_to w (some a) = put_raw w 3 a

-- The fields in front of the accounts.
unfoldable pub put_head : SimRequest → List ℕ → List ℕ → List ℕ
put_head r val price =
    let w = put_to (put_raw (put_uint [] 1 r.chain_id) 2 r.from) r.to in
    put_raw (put_uint (put_raw (put_raw w 4 val) 5 r.payload) 6 r.gas_limit) 7 price

unfoldable pub encode : SimRequest → Option (List ℕ)
encode r = word r.value >>= λ val. word r.gas_price >>= λ price.
    add_state (put_head r val price) r.state >>= λ w.
    some (put_uint (put_uint w 9 r.block_number) 10 r.timestamp)
