-- ===== src/Intent/RoundTrip.antt =====
-- The texts that services/gateway/internal/intent/intent.go writes are read back by it.
use chain_forge.Common.{
  ℕ, zero, suc, ◌+◌, ◌*◌, ◌/◌, ◌%◌, ◌^◌, ◌<◌, ◌==◌, ◌≡◌, refl, ap, ◌∙◌, arith, true, false,
}
use chain_forge.Common.{ltb, List, [], ◌∷◌, length, some, Bool-cases, inl, inr, All}
use chain_forge.Common.Int.{ℤ, pos, negsuc}
use chain_forge.Webhook.{hex, hex_digit}
use chain_forge.Indexer.Quantity.{digit_value}
use chain_forge.Intent.Steps.{ok, Invalid}
use chain_forge.Intent.Text.{
  has_0x, trim_0x, decode_hex, digits, some_digits, negated, set_string, decimal_before,
  decimal_text,
}
use chain_forge.Intent.Checks.{hex_addr, unsigned_word, decimal}
use chain_forge.Intent.Views.{with_0x}

digit_value-hex_digit : (d : ℕ) → d < 16 → digit_value (hex_digit d) ≡ some d
unfolding digit_value hex_digit
digit_value-hex_digit d h = ground arith

pub decode_hex-hex : (b : List ℕ) → All (λ x. x < 256) b → decode_hex (hex b) ≡ some b
unfolding hex decode_hex
decode_hex-hex [] h = refl
decode_hex-hex (x ∷ b) (h, hs) =
    let hi : digit_value (hex_digit (x / 16)) ≡ some (x / 16) =
      digit_value-hex_digit (x / 16) (omega (arith, h)) in
    let lo : digit_value (hex_digit (x % 16)) ≡ some (x % 16) =
      digit_value-hex_digit (x % 16) (omega arith) in
    rw (hi, decode_hex)
      (rw (lo, decode_hex)
        (rw (decode_hex-hex b hs, decode_hex) (ap (λ n. some (n ∷ b)) (omega arith))))

-- The text of an address of 20 bytes is read as that address, in any field.
pub hex_addr-with_0x :
    (field : Invalid) (a : List ℕ)
    → length a ≡ 20
    → All (λ x. x < 256) a
    → hex_addr field (with_0x a) ≡ ok a
unfolding hex_addr with_0x trim_0x has_0x
hex_addr-with_0x field a len bytes =
    let fits : (length a == 20) ≡ true = ground (arith, len) in
    rw (decode_hex-hex a bytes, hex_addr) (rw (fits, hex_addr) refl)

digit_value-decimal : (d : ℕ) → d < 10 → digit_value (b'0' + d) ≡ some d
unfolding digit_value
digit_value-decimal d h = ground arith

digits-digit :
    (n d : ℕ) (cs : List ℕ) → d < 10 → digits 10 n ((b'0' + d) ∷ cs) ≡ digits 10 (n * 10 + d) cs
unfolding digits
digits-digit n d cs h =
    let small : ltb d 10 ≡ true = ground (arith, h) in
    rw (digit_value-decimal d h, digits) (rw (small, digits) refl)

-- The digits in front of those written read as the number in front of them.
digits-decimal_before :
    (fuel n : ℕ) (written : List ℕ)
    → n < fuel
    → digits 10 0 (decimal_before fuel n written) ≡ digits 10 n written
unfolding decimal_before
digits-decimal_before zero n written h = absurd (omega (arith, h))
digits-decimal_before (suc fuel) n written h = elim (Bool-cases (n / 10 == 0)) [
  | inl last ↦
      let small : 0 * 10 + n % 10 ≡ n = ground (arith, last) in
      rw (last, decimal_before)
        (digits-digit 0 (n % 10) written (omega arith) ∙ ap (λ m. digits 10 m written) small)
  | inr more ↦
      let less : n / 10 < fuel = ground (arith, h, more) in
      rw (more, decimal_before)
        (digits-decimal_before fuel (n / 10) ((b'0' + n % 10) ∷ written) less
          ∙ digits-digit (n / 10) (n % 10) written (omega arith)
          ∙ ap (λ m. digits 10 m written) (omega arith))
]

-- The digits begin with a digit.
record StartsWithDigit (s : List ℕ) : Type 0 where
  first : ℕ
  rest : List ℕ
  small : first < 10
  is : s ≡ (b'0' + first) ∷ rest

decimal_before-StartsWithDigit :
    (fuel n : ℕ) (written : List ℕ)
    → StartsWithDigit written
    → StartsWithDigit (decimal_before fuel n written)
unfolding decimal_before
decimal_before-StartsWithDigit zero n written h = h
decimal_before-StartsWithDigit (suc fuel) n written h =
    let one : StartsWithDigit ((b'0' + n % 10) ∷ written) = record {
      first = n % 10;
      rest = written;
      small = omega arith;
      is = refl;
    } in
    elim (Bool-cases (n / 10 == 0)) [
      | inl last ↦ rw (last, decimal_before) one
      | inr more ↦ rw (more, decimal_before) (decimal_before-StartsWithDigit fuel (n / 10) _ one)
    ]

decimal_text-StartsWithDigit : (fuel n : ℕ) → StartsWithDigit (decimal_before (suc fuel) n [])
unfolding decimal_before
decimal_text-StartsWithDigit fuel n =
    let one : StartsWithDigit ((b'0' + n % 10) ∷ []) = record {
      first = n % 10;
      rest = [];
      small = omega arith;
      is = refl;
    } in
    elim (Bool-cases (n / 10 == 0)) [
      | inl last ↦ rw (last, decimal_before) one
      | inr more ↦ rw (more, decimal_before) (decimal_before-StartsWithDigit fuel (n / 10) _ one)
    ]

some_digits-decimal : (n : ℕ) → some_digits 10 (decimal_before (suc n) n []) ≡ some n
unfolding some_digits
some_digits-decimal n =
    let d = decimal_text-StartsWithDigit n n in
    let back : digits 10 0 (decimal_before (suc n) n []) ≡ some n =
      digits-decimal_before (suc n) n [] (omega arith) ∙ unfold digits in refl in
    rw d.is (rw d.is at back)

-- The decimal text of an integer is read back, with its sign.
pub set_string-decimal_text : (v : ℤ) → set_string 10 (decimal_text v) ≡ some v
unfolding set_string decimal_text
set_string-decimal_text (negsuc n) =
    rw (some_digits-decimal (suc n), set_string) (unfold negated in refl)
set_string-decimal_text (pos n) =
    let d = decimal_text-StartsWithDigit n n in
    let no_minus : ((b'0' + d.first) == b'-') ≡ false = ground arith in
    let no_plus : ((b'0' + d.first) == b'+') ≡ false = ground arith in
    let back = some_digits-decimal n in
    rw d.is
      (rw (no_minus, set_string) (rw (no_plus, set_string) (rw (rw d.is at back, set_string) refl)))

-- A value of 256 bits is read back from its text, in any field.
pub decimal-decimal_text :
    (field : Invalid) (n : ℕ) → n < 2 ^ 256 → decimal field (decimal_text (pos n)) ≡ ok (pos n)
unfolding decimal decimal_text
decimal-decimal_text field n h =
    let d = decimal_text-StartsWithDigit n n in
    let back : set_string 10 (decimal_before (suc n) n []) ≡ some (pos n) =
      set_string-decimal_text (pos n) in
    let small : ltb n (2 ^ 256) ≡ true = ground (arith, h) in
    rw d.is (rw (rw d.is at back, decimal) (unfold unsigned_word in rw (small, unsigned_word) refl))
