-- ===== src/Keccak/Words.antt =====
-- The operations on lanes of services/gateway/internal/keccak/keccak.go as arithmetic on words of 64 bits,
-- and the constants of the rounds from the register that FIPS 202 defines them by.
use Prim.Native.Nat.{bit_xor}
use chain_forge.Common.{
  ℕ, zero, suc, ◌+◌, ◌-◌, ◌*◌, ◌/◌, ◌%◌, ◌^◌, ◌<◌, ◌==◌, ◌≡◌, refl, ap, sym, ◌∙◌, arith,
  if◌then◌else◌,
}
use chain_forge.Common.{List, [], ◌∷◌, map}
use chain_forge.Common.Bits.{bit_or_disjoint, bit_or_comm, bit_xor_ones}
use chain_forge.Keccak.{rc, rotate_left, complement}
use native.Mathlib.Nat.{
  mul_comm, pow-suc, mod-lt, mod-eq_of_lt, div-add-mod', mul-add-mod_self_right, div-lt_iff_lt-mul,
}

-- A rotation of a word to the left by k bits, 0 < k < 64: the 64 - k low bits move up, and the k high
-- bits come in below.
pub IsRotation : (ℕ → ℕ → ℕ) → Type 0
IsRotation turn =
    (x k : ℕ) → x < 2 ^ 64 → 0 < k → k < 64 → turn x k ≡ x % 2 ^ (64 - k) * 2 ^ k + x / 2 ^ (64 - k)

-- The bits of a word, negated.
pub IsComplement : (ℕ → ℕ) → Type 0
IsComplement neg = (x : ℕ) → x < 2 ^ 64 → neg x ≡ 2 ^ 64 - 1 - x

-- The register of 8 bits behind the constants: a step shifts it up, and adds 0x71 for the bit that falls
-- out.
unfoldable pub register_after : ℕ → ℕ → ℕ
register_after zero r = r
register_after (suc t) r =
    let up = r * 2 in register_after t (if up / 256 == 1 then bit_xor (up % 256) 0x71 else up)

-- The bit of the register after t steps.
unfoldable pub rc_bit : ℕ → ℕ
rc_bit t = register_after t 1 % 2

-- The constant of round i: bit 2 ^ j - 1 is the bit of the register after j + 7 i steps.
unfoldable pub round_constant : ℕ → ℕ
round_constant i =
    rc_bit (7 * i)
    + rc_bit (7 * i + 1) * 2 ^ 1
    + rc_bit (7 * i + 2) * 2 ^ 3
    + rc_bit (7 * i + 3) * 2 ^ 7
    + rc_bit (7 * i + 4) * 2 ^ 15
    + rc_bit (7 * i + 5) * 2 ^ 31
    + rc_bit (7 * i + 6) * 2 ^ 63

abbrev pub rounds : List ℕ
rounds =
    0 ∷ 1 ∷ 2 ∷ 3 ∷ 4 ∷ 5 ∷ 6 ∷ 7 ∷ 8 ∷ 9 ∷ 10 ∷ 11 ∷ 12 ∷ 13 ∷ 14 ∷ 15 ∷ 16 ∷ 17 ∷ 18 ∷ 19 ∷ 20
    ∷ 21 ∷ 22 ∷ 23 ∷ []

pub rc-round_constant : rc ≡ map round_constant rounds
unfolding round_constant rc_bit register_after
rc-round_constant = refl

pow_split : (k m : ℕ) → 2 ^ (k + m) ≡ 2 ^ m * 2 ^ k
pow_split zero m = let e : 0 + m ≡ m = omega arith in rw e (omega arith)
pow_split (suc k) m =
    let e : suc k + m ≡ suc (k + m) = omega arith in
    rw (e, pow-suc 2 (k + m), pow-suc 2 k, pow_split k m) (swapped (2 ^ m) (2 ^ k))
  where
    swapped : (a b : ℕ) → a * b * 2 ≡ a * (b * 2)
    swapped a b = grind arith

two_pow_pos : (k : ℕ) → 0 < 2 ^ k
two_pow_pos zero = omega arith
two_pow_pos (suc k) = omega (arith, pow-suc 2 k, two_pow_pos k)

spread : (q m r p : ℕ) → (q * m + r) * p ≡ q * (m * p) + r * p
spread q m r p = grind arith

-- What is shifted out of a product is what the high bits make.
shifted : (x m p : ℕ) → 0 < m → 0 < p → x * p % (m * p) ≡ x % m * p
shifted x m p hm hp =
    let parts : x * p ≡ x / m * (m * p) + x % m * p =
      ap (λ t. t * p) (sym (div-add-mod' x m)) ∙ spread (x / m) m (x % m) p in
    let low : x % m * p < m * p = grind (arith, mod-lt x hm) in
    rw parts (mul-add-mod_self_right (x / m) (m * p) (x % m * p) ∙ mod-eq_of_lt low)

pub rotate_left-IsRotation : IsRotation rotate_left
unfolding rotate_left IsRotation
rotate_left-IsRotation x k hx pos_k hk =
    let m = 2 ^ (64 - k) in
    let whole : 64 ≡ k + (64 - k) = omega arith in
    let word : 2 ^ 64 ≡ m * 2 ^ k = ap (λ n. 2 ^ n) whole ∙ pow_split k (64 - k) in
    let pos_m : 0 < m = two_pow_pos (64 - k) in
    let pos_p : 0 < 2 ^ k = two_pow_pos k in
    let below : x < m * 2 ^ k = rw word at hx in
    let high : x / m < 2 ^ k = (div-lt_iff_lt-mul pos_m).1 (rw (mul_comm (2 ^ k) m) below) in
    rw (word, shifted x m (2 ^ k) pos_m pos_p)
      (bit_or_comm (x % m * 2 ^ k) (x / m) ∙ bit_or_disjoint k (x / m) (x % m) high ∙ omega arith)

pub complement-IsComplement : IsComplement complement
unfolding complement IsComplement
complement-IsComplement x h = bit_xor_ones 64 x h
