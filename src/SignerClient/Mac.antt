-- ===== src/SignerClient/Mac.antt =====
-- What the signature of services/gateway/internal/signerclient/signerclient.go binds.
use chain_forge.Common.{
  ℕ, zero, suc, ◌+◌, ◌/◌, ◌%◌, ◌==◌, ◌≡◌, ◌≢◌, refl, sym, ap, ap₂, ◌∙◌, arith, Bool-cases, inl, inr,
  All,
}
use chain_forge.Common.{List, [], ◌∷◌, some}
use chain_forge.Common.Int.{pos}
use chain_forge.Intent.Text.{decimal_before, decimal_text, set_string}
use chain_forge.Intent.RoundTrip.{set_string-decimal_text}
use chain_forge.SignerClient.{mac_message}

decimal_before-NoPoint :
    (fuel n : ℕ) (written : List ℕ)
    → All (λ c. c ≢ b'.') written
    → All (λ c. c ≢ b'.') (decimal_before fuel n written)
unfolding decimal_before
decimal_before-NoPoint zero n written h = h
decimal_before-NoPoint (suc fuel) n written h =
    let digit : (b'0' + n % 10) ≢ b'.' = λ e. omega (arith, e) in
    elim (Bool-cases (n / 10 == 0)) [
      | inl last ↦ rw (last, decimal_before) (digit, h)
      | inr more ↦ rw (more, decimal_before) (decimal_before-NoPoint fuel (n / 10) _ (digit, h))
    ]

-- What stands in front of the first point, and behind it, is determined.
split_at_point :
    (s s' b b' : List ℕ)
    → All (λ c. c ≢ b'.') s
    → All (λ c. c ≢ b'.') s'
    → mac_message s b ≡ mac_message s' b'
    → (s ≡ s') × (b ≡ b')
unfolding mac_message
split_at_point [] [] b b' h h' e = (refl, cc e)
split_at_point [] (c ∷ s') b b' h h' e = absurd (h'.0 (cc e))
split_at_point (c ∷ s) [] b b' h h' e = absurd (h.0 (cc e))
split_at_point (c ∷ s) (c' ∷ s') b b' h h' e =
    let (rest, body) = split_at_point s s' b b' h.1 h'.1 (cc e) in (ap₂ ◌∷◌ (cc e) rest, body)

-- The message that is authenticated determines the time and the body of the request: no other pair of
-- them has the same message.
pub mac_message-injective :
    (t t' : ℕ) (body body' : List ℕ)
    → mac_message (decimal_text (pos t)) body ≡ mac_message (decimal_text (pos t')) body'
    → (t ≡ t') × (body ≡ body')
unfolding decimal_text
mac_message-injective t t' body body' e =
    let (ts, b) =
      split_at_point (decimal_text (pos t)) (decimal_text (pos t')) body body'
        (decimal_before-NoPoint (suc t) t [] tt) (decimal_before-NoPoint (suc t') t' [] tt) e in
    let read : some (pos t) ≡ some (pos t') =
      sym (set_string-decimal_text (pos t))
      ∙ ap (set_string 10) ts
      ∙ set_string-decimal_text (pos t') in
    (cc read, b)
