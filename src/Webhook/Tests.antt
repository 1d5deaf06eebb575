-- ===== src/Webhook/Tests.antt =====
-- Deliveries to endpoints that fail at first or for good, and the theorems there.
use chain_forge.Common.{
  ℕ, zero, suc, ◌+◌, ◌<◌, ◌==◌, ◌≡◌, refl, arith, Bool, true, false, str_eq, if◌then◌else◌,
}
use chain_forge.Common.{List, [], ◌∷◌, none, some}
use chain_forge.Common.Int.{pos}
use chain_forge.Webhook.{
  Registration, Env, new, hex_digit, hex, accepted, post, attempt, deliver_to, deliver, sign,
}
use chain_forge.Webhook.Retry.{before}
use chain_forge.Webhook.Delivery.{count}

program : Unit {0}
unfolding new hex_digit hex sign accepted post attempt deliver_to deliver before count str_eq
program = tt

-- The world counts the posts, and the third one is accepted.
abbrev late : Env ℕ
late = record {
  hmac = λ secret body. secret;
  new_request = λ url body. true;
  do_post = λ req w. (if w == 2 then some 200 else some 503, w + 1);
  sleep = λ d w. w;
}

abbrev hook : Registration
hook = record { id = b'w' ∷ []; url = "https://example.org"; secret = 0xab ∷ [] }

hex_ab : sign late (0xab ∷ []) [] ≡ b'a' ∷ b'b' ∷ []
unfolding program
hex_ab = refl

early_fails : (i : ℕ) → i < 2 → (post late hook "e" [] (before late hook "e" [] 100 0 i)).0 ≡ false
unfolding program
early_fails zero h = refl
early_fails (suc zero) h = refl
early_fails (suc (suc i)) h = absurd (omega arith)

third : (post late hook "e" [] (before late hook "e" [] 100 0 2)).0 ≡ true
unfolding program
third = refl

-- One url is always accepted, the others never.
abbrev picky : Env ℕ
picky = record {
  hmac = λ secret body. secret;
  new_request = λ url body. true;
  do_post = λ req w. (if str_eq req.url "good" then some 204 else none, w + 1);
  sleep = λ d w. w;
}

abbrev hooks : List Registration
hooks =
    record { id = 1 ∷ []; url = "bad"; secret = [] }
    ∷ record { id = 2 ∷ []; url = "good"; secret = [] }
    ∷ []

abbrev is_good : Registration → Bool
is_good r = str_eq r.url "good"

good_answers : (r : Registration) (w : ℕ) → is_good r ≡ true → (post picky r "e" [] w).0 ≡ true
unfolding post accepted
good_answers r w e = rw e refl

counted : deliver picky (new (pos 3) 100) "e" [] hooks 0 ≡ (1, 1, 4)
unfolding program
counted = refl
