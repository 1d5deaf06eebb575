-- ===== src/Relay/Tests.antt =====
-- What a relay is sent.
use chain_forge.Common.{ℕ, ◌+◌, ◌≡◌, refl, true, false, [], ◌∷◌, some, none}
use chain_forge.Rpcx
use chain_forge.Rpcx.{Node}
use chain_forge.Intent.{Param}
use chain_forge.Intent.Text.{has_0x, trim_0x, decode_hex}
use chain_forge.Indexer.Quantity.{digit_value}
use chain_forge.Relay.{is_sized, submit, send_solana, send_evm, send, malformed, answered}

program : Unit {0}
unfolding Rpcx.call has_0x trim_0x decode_hex digit_value is_sized submit send_solana send_evm send
program = tt

-- A relay that counts what it is sent.
abbrev node : Node Param ℕ
node = record {
  request = λ method params. some [];
  envelope = λ raw. some (record { result = 1 ∷ []; error = none });
  send = λ body w. (some body, w + 1);
}

sent_once :
    send node (λ s. some s) (λ s. none) false (b'0' ∷ b'x' ∷ b'f' ∷ b'f' ∷ []) 0
    ≡ (answered (Rpcx.ok (1 ∷ [])), 1)
unfolding program
sent_once = refl

odd_digits : send node (λ s. some s) (λ s. none) false (b'0' ∷ b'x' ∷ b'f' ∷ []) 0 ≡ (malformed, 0)
unfolding program
odd_digits = refl

no_base64 : send node (λ s. some s) (λ s. none) true (b'A' ∷ []) 0 ≡ (malformed, 0)
unfolding program
no_base64 = refl
