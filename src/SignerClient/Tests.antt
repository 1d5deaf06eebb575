-- ===== src/SignerClient/Tests.antt =====
-- A signature at a concrete time.
use chain_forge.Common.{◌≡◌, refl, [], ◌∷◌}
use chain_forge.Common.Int.{pos}
use chain_forge.Intent.Text.{decimal_text, decimal_before}
use chain_forge.SignerClient.{mac_message}

same_message :
    mac_message (decimal_text (pos 12)) (b'a' ∷ []) ≡ mac_message (b'1' ∷ b'2' ∷ []) (b'a' ∷ [])
unfolding mac_message decimal_text decimal_before
same_message = refl

same_text :
    mac_message (decimal_text (pos 12)) (b'a' ∷ [])
    ≡ mac_message (decimal_text (pos 12)) (b'a' ∷ [])
same_text = refl
