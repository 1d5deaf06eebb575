-- ===== src/Indexer/Quantity.antt =====
-- The quantities of services/gateway/internal/indexer/indexer.go: hexadecimal texts, as lists of bytes,
-- for numbers of 64 bits. strconv's ParseUint and FormatUint to the base 16 are written out.
use chain_forge.Common.{
  ℕ, zero, suc, ◌+◌, ◌-◌, ◌*◌, ◌/◌, ◌%◌, ◌^◌, ◌<◌, ◌==◌, ◌≡◌, refl, arith, false,
}
use chain_forge.Common.{
  ◌&&◌, ltb, leb, if◌then◌else◌, List, [], ◌∷◌, Option, none, some, Bool-cases, inl, inr, ap, ◌∙◌,
}
use native.Mathlib.Nat.{pow-suc}

unfoldable pub digit_value : ℕ → Option ℕ
digit_value c =
    if leb b'0' c && leb c b'9'
    then some (c - b'0')
    else if leb b'a' c && leb c b'f'
    then some (c - b'a' + 10)
    else if leb b'A' c && leb c b'F'
    then some (c - b'A' + 10)
    else none

-- What is read so far, and the digits to come; from 2 ^ 60 on a digit more is out of range.
unfoldable pub parse_digits : ℕ → List ℕ → Option ℕ
parse_digits n [] = some n
parse_digits n (c ∷ cs) = elim (digit_value c) [
  | none ↦ none
  | some d ↦ (let rest = parse_digits (n * 16 + d) cs in if leb (2 ^ 60) n then none else rest)
]

parse_uint : List ℕ → Option ℕ
parse_uint [] = none
parse_uint (c ∷ cs) = parse_digits 0 (c ∷ cs)

-- `parseQty`
unfoldable pub parse_qty : List ℕ → Option ℕ
unfolding parse_uint
parse_qty [] = none
parse_qty (a ∷ []) = none
parse_qty (a ∷ b ∷ s) = if a == b'0' && b == b'x' then parse_uint s else none

digit_of : ℕ → ℕ
digit_of d = if ltb d 10 then b'0' + d else b'a' + (d - 10)

-- The digits of a number in front of those written, on fuel: 16 of them are 64 bits.
digits_before : ℕ → ℕ → List ℕ → List ℕ
digits_before zero n written = written
digits_before (suc fuel) n written =
    let more = digits_before fuel (n / 16) (digit_of (n % 16) ∷ written) in
    if n / 16 == 0 then digit_of (n % 16) ∷ written else more

-- `"0x" + strconv.FormatUint(n, 16)`
unfoldable pub format_qty : ℕ → List ℕ
unfolding digit_of digits_before
format_qty n = b'0' ∷ b'x' ∷ digits_before 16 n []

value_of_digit : (d : ℕ) → d < 16 → digit_value (digit_of d) ≡ some d
unfolding digit_value digit_of
value_of_digit d h = ground arith

parse-digit :
    (n d : ℕ) (cs : List ℕ)
    → d < 16
    → n < 2 ^ 60
    → parse_digits n (digit_of d ∷ cs) ≡ parse_digits (n * 16 + d) cs
unfolding parse_digits
parse-digit n d cs h small =
    let room : leb (2 ^ 60) n ≡ false = ground arith in
    rw (value_of_digit d h, parse_digits) (rw (room, parse_digits) refl)

parse-digits_before :
    (fuel n : ℕ) (written : List ℕ)
    → n < 16 ^ fuel
    → n < 2 ^ 64
    → parse_digits 0 (digits_before fuel n written) ≡ parse_digits n written
unfolding digits_before
parse-digits_before zero n written h small =
    let none_left : n ≡ 0 = omega arith in rw none_left refl
parse-digits_before (suc fuel) n written h small = elim (Bool-cases (n / 16 == 0)) [
  | inl last ↦
      let one : n % 16 ≡ n = ground arith in
      rw (last, digits_before)
        (parse-digit 0 (n % 16) written (omega arith) (omega arith)
          ∙ ap (λ m. parse_digits m written) (omega (arith, one)))
  | inr more ↦
      let size : n / 16 < 16 ^ fuel = omega (arith, pow-suc 16 fuel) in
      rw (more, digits_before)
        (parse-digits_before fuel (n / 16) (digit_of (n % 16) ∷ written) size (omega arith)
          ∙ parse-digit (n / 16) (n % 16) written (omega arith) (omega arith)
          ∙ ap (λ m. parse_digits m written) (omega arith))
]

-- The digits of a number are never empty, so they are a text that is read.
starts :
    (fuel n c : ℕ) (cs : List ℕ)
    → (d : ℕ) × (ds : List ℕ) × (digits_before fuel n (c ∷ cs) ≡ d ∷ ds)
unfolding digits_before
starts zero n c cs = (c, cs, refl)
starts (suc fuel) n c cs = elim (Bool-cases (n / 16 == 0)) [
  | inl last ↦ (digit_of (n % 16), c ∷ cs, rw (last, digits_before) refl)
  | inr more ↦
      let (d, ds, e) = starts fuel (n / 16) (digit_of (n % 16)) (c ∷ cs) in
      (d, ds, rw (more, digits_before) e)
]

has_digit :
    (fuel n : ℕ) (written : List ℕ)
    → (d : ℕ) × (ds : List ℕ) × (digits_before (suc fuel) n written ≡ d ∷ ds)
unfolding digits_before
has_digit fuel n written = elim (Bool-cases (n / 16 == 0)) [
  | inl last ↦ (digit_of (n % 16), written, rw (last, digits_before) refl)
  | inr more ↦
      let (d, ds, e) = starts fuel (n / 16) (digit_of (n % 16)) written in
      (d, ds, rw (more, digits_before) e)
]

-- A number of 64 bits is read back from the text that is written for it.
pub parse_qty-format_qty : (n : ℕ) → n < 2 ^ 64 → parse_qty (format_qty n) ≡ some n
unfolding parse_qty format_qty parse_uint
parse_qty-format_qty n h =
    let (d, ds, e) = has_digit 15 n [] in
    let back : parse_digits 0 (digits_before 16 n []) ≡ some n =
      parse-digits_before 16 n [] (omega arith) h ∙ unfold parse_digits in refl in
    rw e (rw e at back)
