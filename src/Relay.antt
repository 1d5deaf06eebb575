-- ===== src/Relay.antt =====
-- services/gateway/internal/relay/relay.go: the submission of a signed transaction through a private relay. The
-- relay is a `Rpcx.Node`, and encoding/base64 is a parameter.
mod Tests
use chain_forge.Common.{
  ℕ, ◌*◌, ◌^◌, ◌==◌, ◌&&◌, ◌||◌, not, Bool, true, false, ltb, if◌then◌else◌, List, [], ◌∷◌, length,
}
use chain_forge.Common.{Option, none, some, String}
use chain_forge.Rpcx
use chain_forge.Rpcx.{Node}
use chain_forge.Intent
use chain_forge.Intent.{Param, text, flag, options, word, switch}
use chain_forge.Intent.Text.{has_0x, trim_0x, decode_hex}

abbrev pub max_raw : ℕ
max_raw = 128 * 2 ^ 10

-- `malformed` is ErrInvalid.
pub data Sent : Type 0 where
  malformed : Sent
  answered : Rpcx.Result (List ℕ) → Sent

-- Bytes that are submitted: some, and no more than `max_raw`.
unfoldable pub is_sized : Option (List ℕ) → Bool
is_sized none = false
is_sized (some b) = not (length b == 0 || ltb max_raw (length b))

-- The configuration of `sendTransaction`.
abbrev pub send_options : List (String × Intent.Setting)
send_options =
    ("encoding", word (b'b' ∷ b'a' ∷ b's' ∷ b'e' ∷ b'6' ∷ b'4' ∷ []))
    ∷ ("skipPreflight", switch false)
    ∷ []

module _ {W : Type 0} (node : Node Param W)
    (string_of decode_base64 : List ℕ → Option (List ℕ)) where
  unfoldable pub submit : String → List Param → W → Sent × W
  submit method params w =
      let (r, w') = Rpcx.call node string_of method params w in (answered r, w')

  unfoldable pub send_solana : List ℕ → W → Sent × W
  send_solana raw w =
      if is_sized (decode_base64 raw)
      then submit "sendTransaction" (text raw ∷ options send_options ∷ []) w
      else (malformed, w)

  unfoldable pub send_evm : List ℕ → W → Sent × W
  send_evm raw w =
      if has_0x raw && is_sized (decode_hex (trim_0x raw))
      then submit "eth_sendRawTransaction" (text raw ∷ []) w
      else (malformed, w)

  -- `Send`, for a sender of the one family or the other.
  unfoldable pub send : Bool → List ℕ → W → Sent × W
  send true raw w = send_solana raw w
  send false raw w = send_evm raw w
