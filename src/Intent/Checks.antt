-- ===== src/Intent/Checks.antt =====
-- What services/gateway/internal/intent/intent.go checks of an intent before anything is asked.
use chain_forge.Common.{
  ℕ, ◌^◌, ◌==◌, ◌&&◌, ◌||◌, not, ltb, min, if◌then◌else◌, List, [], ◌∷◌, length, Option, none, some,
}
use chain_forge.Common.Int.{ℤ, pos}
use chain_forge.Intent.Steps.{Result, ok, err, Invalid, invalid, ◌&>◌}
use chain_forge.Intent.Steps.{no_chain_id, bad_from, bad_to, bad_value, bad_payload, above_ceiling}
use chain_forge.Intent.Text.{has_0x, trim_0x, decode_hex, set_string}

pub record EvmRequest : Type 0 where
  pub chain_id : ℕ
  pub from : List ℕ
  pub to : List ℕ
  pub value : List ℕ
  pub payload : List ℕ
  pub gas_limit : ℕ
  pub gas_price : List ℕ

-- `hexAddr`, for the fault of its field.
unfoldable pub hex_addr : Invalid → List ℕ → Result (List ℕ)
hex_addr field s = elim (decode_hex (trim_0x s)) [
  | none ↦ err (invalid field)
  | some b ↦ if not (has_0x s) || not (length b == 20) then err (invalid field) else ok b
]

-- `v.Sign() < 0 || v.BitLen() > 256` is refused.
unfoldable pub unsigned_word : Invalid → Option ℤ → Result ℤ
unsigned_word field (some (pos n)) = if ltb n (2 ^ 256) then ok (pos n) else err (invalid field)
unsigned_word field _ = err (invalid field)

unfoldable pub decimal : Invalid → List ℕ → Result ℤ
decimal field [] = ok (pos 0)
decimal field (c ∷ s) = unsigned_word field (set_string 10 (c ∷ s))

-- The recipient, none for the creation of a contract.
unfoldable pub recipient : List ℕ → Result (Option (List ℕ))
recipient [] = ok none
recipient (c ∷ s) = elim (hex_addr bad_to (c ∷ s)) [ ok a ↦ ok (some a) | err e ↦ err e ]

unfoldable pub payload_of : List ℕ → Result (List ℕ)
payload_of s = elim (decode_hex (trim_0x s)) [
  | none ↦ err (invalid bad_payload)
  | some b ↦ if not (length s == 0) && not (has_0x s) then err (invalid bad_payload) else ok b
]

-- The limit that is asked for or the default, unless it is above the ceiling.
unfoldable pub gas_limit_of : ℕ → ℕ → Result ℕ
gas_limit_of max_gas asked =
    let limit = if asked == 0 then min 1000000 max_gas else asked in
    if ltb max_gas limit then err (invalid (above_ceiling max_gas)) else ok limit

-- What is checked before anything is asked: the sender, the recipient, the value, the payload and the
-- limit of gas.
pub record Checked : Type 0 where
  pub from : List ℕ
  pub to : Option (List ℕ)
  pub value : ℤ
  pub payload : List ℕ
  pub gas_limit : ℕ

unfoldable pub check : ℕ → EvmRequest → Result Checked
check max_gas r =
    let body = hex_addr bad_from r.from &> λ from. recipient r.to &> λ to.
    decimal bad_value r.value &> λ value. payload_of r.payload &> λ payload.
    gas_limit_of max_gas r.gas_limit &> λ limit.
    ok (record { from = from; to = to; value = value; payload = payload; gas_limit = limit }) in
    if r.chain_id == 0 then err (invalid no_chain_id) else body
