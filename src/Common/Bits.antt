-- ===== src/Common/Bits.antt =====
-- Laws of the bit operations that the codecs use: masks and disjoint unions as arithmetic.
use Prim.Native.Nat.{
  ℕ, zero, suc, ◌+◌, ◌-◌, ◌*◌, ◌/◌, ◌%◌, ◌^◌, ◌<◌, ◌≤◌, min, max, bit_and, bit_or, bit_xor, digits,
  bit_or-bitwise, bit_and-bitwise, bit_xor-bitwise, differ,
}
use mathlib.Core.Path.{◌≡◌, refl, ap, ◌∙◌}
use mathlib.Core.Bool.{Bool, true, false}
use mathlib.Core.Logic.{ite}
use native.Mathlib.Decide.{ℕ_discrete}
use native.Mathlib.Nat.{pow-suc}
use native.Mathlib.Omega.{arith}

-- Two functions agree below a bound, checked value by value.
module _ (f g : ℕ → ℕ) where
  agree_below : ℕ → Bool
  unfolding ℕ_discrete
  agree_below zero = true
  agree_below (suc n) = ite (ℕ_discrete (f n) (g n)) (agree_below n) false

  agree_below→eq : (n : ℕ) → agree_below n ≡ true → (i : ℕ) → i < n → f i ≡ g i
  unfolding agree_below
  agree_below→eq zero e i h = absurd (omega arith)
  agree_below→eq (suc n) e i h = ground (arith, agree_below→eq n (ground arith) i)

pub low_seven : (b : ℕ) → b < 256 → bit_and b 0x7f ≡ b % 128
unfolding agree_below
low_seven = agree_below→eq _ _ 256 refl

pub set_top_bit : (b : ℕ) → b < 256 → bit_or b 0x80 ≡ b % 128 + 128
unfolding agree_below
set_top_bit = agree_below→eq _ _ 256 refl

no_digits : (z : ℕ → ℕ) (op : ℕ → ℕ → ℕ) (n b : ℕ) → digits z op n 0 b ≡ z b
no_digits z op zero b = refl
no_digits z op (suc n) b = refl

-- The digits of an operation do not depend on the count of digits left, if it is enough.
enough_digits :
    (z : ℕ → ℕ) (op : ℕ → ℕ → ℕ) (n m : ℕ) (a b : ℕ)
    → a ≤ n
    → a ≤ m
    → digits z op n a b ≡ digits z op m a b
enough_digits z op n m zero b p q = cc (no_digits z op n b, no_digits z op m b)
enough_digits z op zero m (suc a) b p q = absurd (omega arith)
enough_digits z op (suc n) zero (suc a) b p q = absurd (omega arith)
enough_digits z op (suc n) (suc m) (suc a) b p q =
    ap (λ rest. rest * 2 + op (suc a % 2) (b % 2))
      (enough_digits z op n m (suc a / 2) (b / 2) (omega arith) (omega arith))

-- The lowest digit of an operation on a number other than 0, and the others.
digits_halve :
    (z : ℕ → ℕ) (op : ℕ → ℕ → ℕ) (a b : ℕ)
    → digits z op (suc a) (suc a) b
      ≡ digits z op (suc a / 2) (suc a / 2) (b / 2) * 2 + op (suc a % 2) (b % 2)
digits_halve z op a b =
    ap (λ rest. rest * 2 + op (suc a % 2) (b % 2))
      (enough_digits z op a (suc a / 2) (suc a / 2) (b / 2) (omega arith) (omega arith))

zero-bit_or : (b : ℕ) → bit_or 0 b ≡ b
zero-bit_or b = bit_or-bitwise 0 b

or_halves : (a b : ℕ) → bit_or a b ≡ bit_or (a / 2) (b / 2) * 2 + max (a % 2) (b % 2)
or_halves zero b = omega (arith, zero-bit_or b, zero-bit_or (b / 2))
or_halves (suc a) b =
    rw (bit_or-bitwise (suc a) b, bit_or-bitwise (suc a / 2) (b / 2))
      (digits_halve (λ b. b) max a b)

and-zero : (b : ℕ) → bit_and zero b ≡ zero
and-zero = bit_and-bitwise zero

and_halves : (a b : ℕ) → bit_and a b ≡ bit_and (a / 2) (b / 2) * 2 + min (a % 2) (b % 2)
and_halves zero b = omega (arith, and-zero b, and-zero (b / 2))
and_halves (suc a) b =
    rw (bit_and-bitwise (suc a) b, bit_and-bitwise (suc a / 2) (b / 2))
      (digits_halve (λ b. 0) min a b)

zero-bit_xor : (b : ℕ) → bit_xor 0 b ≡ b
zero-bit_xor b = bit_xor-bitwise 0 b

xor_halves : (a b : ℕ) → bit_xor a b ≡ bit_xor (a / 2) (b / 2) * 2 + differ (a % 2) (b % 2)
xor_halves zero b = omega (arith, zero-bit_xor b, zero-bit_xor (b / 2))
xor_halves (suc a) b =
    rw (bit_xor-bitwise (suc a) b, bit_xor-bitwise (suc a / 2) (b / 2))
      (digits_halve (λ b. b) differ a b)

differ-one : (b : ℕ) → b < 2 → differ b 1 ≡ 1 - b
differ-one zero h = refl
differ-one (suc zero) h = refl
differ-one (suc (suc b)) h = absurd (omega arith)

-- A word of k bits against k ones is its complement.
pub bit_xor_ones : (k x : ℕ) → x < 2 ^ k → bit_xor x (2 ^ k - 1) ≡ 2 ^ k - 1 - x
bit_xor_ones zero x h = let e : x ≡ 0 = omega arith in rw e (zero-bit_xor (2 ^ 0 - 1))
bit_xor_ones (suc k) x h =
    let ones : (2 ^ suc k - 1) / 2 ≡ 2 ^ k - 1 = omega (arith, pow-suc 2 k, h) in
    let last : (2 ^ suc k - 1) % 2 ≡ 1 = omega (arith, pow-suc 2 k, h) in
    let rest = bit_xor_ones k (x / 2) (omega (arith, pow-suc 2 k)) in
    xor_halves x (2 ^ suc k - 1)
    ∙ rw (ones, last, rest, differ-one (x % 2) (omega arith)) (omega (arith, pow-suc 2 k, h))

bit_or_comm_below : (n a b : ℕ) → a ≤ n → b ≤ n → bit_or a b ≡ bit_or b a
bit_or_comm_below zero a b p q =
    let e : a ≡ 0 = omega arith in let e' : b ≡ 0 = omega arith in rw (e, e')
bit_or_comm_below (suc n) a b p q = omega (
  arith,
  or_halves a b,
  or_halves b a,
  bit_or_comm_below n (a / 2) (b / 2) (omega arith) (omega arith),
)

pub bit_or_comm : (a b : ℕ) → bit_or a b ≡ bit_or b a
bit_or_comm a b = bit_or_comm_below (a + b) a b (omega arith) (omega arith)

bit_and-zero_below : (n a : ℕ) → a ≤ n → bit_and a 0 ≡ 0
bit_and-zero_below zero a h = let e : a ≡ 0 = omega arith in rw e (and-zero 0)
bit_and-zero_below (suc n) a h =
    omega (arith, and_halves a 0, bit_and-zero_below n (a / 2) (omega arith))

-- The mask of the three low bits, on any number.
pub bit_and_seven : (n : ℕ) → bit_and n 7 ≡ n % 8
bit_and_seven n =
    let two : bit_and (n / 2 / 2) 1 ≡ n / 2 / 2 % 2 = omega (
      arith,
      and_halves (n / 2 / 2) 1,
      bit_and-zero_below (n / 2 / 2 / 2) (n / 2 / 2 / 2) (omega arith),
    ) in
    omega (arith, and_halves (n / 2) 3, two, and_halves n 7)

mul-pow-suc : (q k : ℕ) → q * 2 ^ suc k ≡ 2 * (q * 2 ^ k)
mul-pow-suc q k = omega (arith, ap (λ (t : ℕ). q * t) (pow-suc 2 k))

-- The union of a number below 2 ^ k and a multiple of 2 ^ k is their sum.
pub bit_or_disjoint : (k a q : ℕ) → a < 2 ^ k → bit_or a (q * 2 ^ k) ≡ a + q * 2 ^ k
bit_or_disjoint zero a q h = let e : a ≡ 0 = omega arith in rw (e, zero-bit_or) (omega arith)
bit_or_disjoint (suc k) a q h =
    ground (
      arith,
      or_halves a (q * 2 ^ suc k),
      mul-pow-suc q k,
      pow-suc 2 k,
      bit_or_disjoint k (a / 2) q,
    )

-- A union of two numbers below 2 ^ k is below 2 ^ k.
pub bit_or-lt : (k a b : ℕ) → a < 2 ^ k → b < 2 ^ k → bit_or a b < 2 ^ k
bit_or-lt zero a b ha hb =
    let e : a ≡ 0 = omega arith in let e' : b ≡ 0 = omega arith in rw (e, e') (omega arith)
bit_or-lt (suc k) a b ha hb = omega (
  arith,
  or_halves a b,
  pow-suc 2 k,
  bit_or-lt k (a / 2) (b / 2) (omega (arith, pow-suc 2 k)) (omega (arith, pow-suc 2 k)),
)
