-- ===== src/Webhook/Registry/Identifiers.antt =====
-- The identifiers of services/gateway/internal/webhook/webhook.go stand in the order of their numbers
-- while these have four digits.
use chain_forge.Common.{ℕ, suc, ◌+◌, ◌-◌, ◌/◌, ◌%◌, ◌<◌, ◌≤◌, ◌≡◌, refl, true, ltb}
use chain_forge.Common.{List, [], ◌∷◌, ◌++◌, ◌∙◌, arith, length, replicate, Bool-cases, inl, inr}
use chain_forge.Common.Sorting.{text_lt}
use chain_forge.Intent.Text.{decimal_before, decimal_text}
use chain_forge.Webhook.Registry.{padded, id_of}

decimal_before-last :
    (fuel n : ℕ) (w : List ℕ) → n < 10 → decimal_before (suc fuel) n w ≡ (b'0' + n % 10) ∷ w
unfolding decimal_before
decimal_before-last fuel n w h = ground arith

decimal_before-step :
    (fuel n : ℕ) (w : List ℕ)
    → 10 ≤ n
    → decimal_before (suc fuel) n w ≡ decimal_before fuel (n / 10) ((b'0' + n % 10) ∷ w)
unfolding decimal_before
decimal_before-step fuel n w h = ground arith

-- A number of two, three and four digits.
two_digits :
    (fuel n : ℕ)
    → 10 ≤ n
    → n < 100
    → decimal_before (suc (suc fuel)) n [] ≡ (b'0' + n / 10 % 10) ∷ (b'0' + n % 10) ∷ []
two_digits fuel n low high =
    decimal_before-step (suc fuel) n [] low ∙ decimal_before-last fuel (n / 10) _ (omega arith)

three_digits :
    (fuel n : ℕ)
    → 100 ≤ n
    → n < 1000
    → decimal_before (suc (suc (suc fuel))) n []
      ≡ (b'0' + n / 10 / 10 % 10) ∷ (b'0' + n / 10 % 10) ∷ (b'0' + n % 10) ∷ []
three_digits fuel n low high =
    decimal_before-step (suc (suc fuel)) n [] (omega arith)
    ∙ decimal_before-step (suc fuel) (n / 10) _ (omega arith)
    ∙ decimal_before-last fuel (n / 10 / 10) _ (omega arith)

four_digits :
    (fuel n : ℕ)
    → 1000 ≤ n
    → n < 10000
    → decimal_before (suc (suc (suc (suc fuel)))) n []
      ≡ (b'0' + n / 10 / 10 / 10 % 10)
        ∷ (b'0' + n / 10 / 10 % 10)
        ∷ (b'0' + n / 10 % 10)
        ∷ (b'0' + n % 10)
        ∷ []
four_digits fuel n low high =
    decimal_before-step (suc (suc (suc fuel))) n [] (omega arith)
    ∙ decimal_before-step (suc (suc fuel)) (n / 10) _ (omega arith)
    ∙ decimal_before-step (suc fuel) (n / 10 / 10) _ (omega arith)
    ∙ decimal_before-last fuel (n / 10 / 10 / 10) _ (omega arith)

-- The digit of a number at a power of ten, with the zeros in front of it.
abbrev digit_at : ℕ → ℕ → ℕ
digit_at p n = b'0' + n / p % 10

padded-of_digits :
    (n fuel : ℕ) (text : List ℕ)
    → fuel ≡ suc n
    → decimal_before fuel n [] ≡ text
    → padded n ≡ replicate (4 - length text) b'0' ++ text
unfolding padded decimal_text
padded-of_digits n fuel text f e =
    let t : decimal_before (suc n) n [] ≡ text = rw f at e in rw t refl

padded-digits :
    (n : ℕ)
    → n < 10000
    → padded n ≡ digit_at 1000 n ∷ digit_at 100 n ∷ digit_at 10 n ∷ digit_at 1 n ∷ []
padded-digits n h = elim (Bool-cases (ltb n 10)) [
  | inl e ↦
      padded-of_digits n (suc n) _ refl (decimal_before-last n n [] (ground arith)) ∙ ground arith
  | inr e ↦ elim (Bool-cases (ltb n 100)) [
    | inl e' ↦
        padded-of_digits n (suc (suc (n - 1))) _ (ground arith)
          (two_digits (n - 1) n (ground arith) (ground arith))
        ∙ ground arith
    | inr e' ↦ elim (Bool-cases (ltb n 1000)) [
      | inl t ↦
          padded-of_digits n (suc (suc (suc (n - 2)))) _ (ground arith)
            (three_digits (n - 2) n (ground arith) (ground arith))
          ∙ ground arith
      | inr t ↦
          padded-of_digits n (suc (suc (suc (suc (n - 3))))) _ (ground arith)
            (four_digits (n - 3) n (ground arith) h)
          ∙ ground arith
    ]
  ]
]

pub id_of-lt : (j k : ℕ) → j < k → k < 10000 → text_lt (id_of j) (id_of k) ≡ true
unfolding id_of text_lt
id_of-lt j k h bound = rw (padded-digits j (omega arith), padded-digits k bound) (ground arith)
