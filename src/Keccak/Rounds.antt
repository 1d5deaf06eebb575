-- ===== src/Keccak/Rounds.antt =====
-- The permutation of services/gateway/internal/keccak/keccak.go against its specification.
use Prim.Native.Nat.{bit_and, bit_xor}
use chain_forge.Common.{ℕ, zero, suc, ◌+◌, ◌*◌, ◌/◌, ◌%◌, ◌==◌, ◌≡◌, refl, ap, ◌∙◌, if◌then◌else◌}
use chain_forge.Common.{List, [], ◌∷◌, map, set}
use chain_forge.Keccak.Words.{
  IsRotation, IsComplement, rounds, round_constant, rc-round_constant, rotate_left-IsRotation,
  complement-IsComplement,
}
use chain_forge.Keccak.{
  rc, for_each, lane, rotate_left, complement, parity, theta, rho_pi, chi, round, f1600,
}

abbrev pub indices : List ℕ
indices =
    0 ∷ 1 ∷ 2 ∷ 3 ∷ 4 ∷ 5 ∷ 6 ∷ 7 ∷ 8 ∷ 9 ∷ 10 ∷ 11 ∷ 12 ∷ 13 ∷ 14 ∷ 15 ∷ 16 ∷ 17 ∷ 18 ∷ 19 ∷ 20
    ∷ 21 ∷ 22 ∷ 23 ∷ 24 ∷ []

-- The lane at column x and row y of the specification stands at x + 5 y.
abbrev pub Lanes : Type 0
Lanes = ℕ → ℕ → ℕ

unfoldable pub listed : Lanes → List ℕ
listed a = map (λ i. a (i % 5) (i / 5)) indices

unfoldable pub column : Lanes → ℕ → ℕ
column a x = bit_xor (bit_xor (bit_xor (bit_xor (a x 0) (a x 1)) (a x 2)) (a x 3)) (a x 4)

-- The offsets of the rotations, by x + 5 y.
abbrev offsets : List ℕ
offsets =
    0 ∷ 1 ∷ 62 ∷ 28 ∷ 27 ∷ 36 ∷ 44 ∷ 6 ∷ 55 ∷ 20 ∷ 3 ∷ 10 ∷ 43 ∷ 25 ∷ 39 ∷ 41 ∷ 45 ∷ 15 ∷ 21 ∷ 8
    ∷ 18 ∷ 2 ∷ 61 ∷ 56 ∷ 14 ∷ []

-- The steps for a rotation `turn` and a complement `neg` of words.
module _ (turn : ℕ → ℕ → ℕ) (neg : ℕ → ℕ) where
  abbrev turned : ℕ → ℕ → ℕ
  turned x zero = x
  turned x (suc k) = turn x (suc k)

  unfoldable pub theta_of : Lanes → Lanes
  theta_of a x y =
      bit_xor (a x y) (bit_xor (column a ((x + 4) % 5)) (turn (column a ((x + 1) % 5)) 1))

  -- What stands at (y, 2 x + 3 y) is the rotated lane at (x, y).
  unfoldable pub rho_pi_of : Lanes → Lanes
  rho_pi_of a x y = turned (a ((x + 3 * y) % 5) x) (lane offsets ((x + 3 * y) % 5 + 5 * x))

  unfoldable pub chi_of : Lanes → Lanes
  chi_of a x y = bit_xor (a x y) (bit_and (neg (a ((x + 1) % 5) y)) (a ((x + 2) % 5) y))

  unfoldable pub iota_of : ℕ → Lanes → Lanes
  iota_of c a x y = if (x + 5 * y) == 0 then bit_xor (a x y) c else a x y

  abbrev pub round_of : ℕ → Lanes → Lanes
  round_of c a = iota_of c (chi_of (rho_pi_of (theta_of a)))

  -- The rounds with the constants of a list.
  unfoldable pub rounds_of : List ℕ → Lanes → Lanes
  rounds_of [] a = a
  rounds_of (c ∷ cs) a = rounds_of cs (round_of c a)

abbrev own_theta : Lanes → Lanes
own_theta = theta_of rotate_left complement

abbrev own_rho_pi : Lanes → Lanes
own_rho_pi = rho_pi_of rotate_left complement

abbrev own_chi : Lanes → Lanes
own_chi = chi_of rotate_left complement

abbrev own_iota : ℕ → Lanes → Lanes
own_iota = iota_of rotate_left complement

abbrev own_round : ℕ → Lanes → Lanes
own_round = round_of rotate_left complement

theta-listed : (a : Lanes) → theta (listed a) ≡ listed (own_theta a)
unfolding theta parity listed theta_of column
theta-listed a = refl

rho_pi-listed : (a : Lanes) → rho_pi (listed a) ≡ listed (own_rho_pi a)
unfolding rho_pi listed rho_pi_of
rho_pi-listed a = refl

chi-listed : (a : Lanes) → chi (listed a) ≡ listed (own_chi a)
unfolding chi listed chi_of
chi-listed a = refl

iota-listed :
    (c : ℕ) (a : Lanes) → set (listed a) 0 (bit_xor (lane (listed a) 0) c) ≡ listed (own_iota c a)
unfolding listed iota_of
iota-listed c a = refl

round-listed : (c : ℕ) (a : Lanes) → round c (listed a) ≡ listed (own_round c a)
unfolding round
round-listed c a =
    ap (λ s. set s 0 (bit_xor (lane s 0) c))
      (ap (λ s. chi (rho_pi s)) (theta-listed a)
        ∙ ap chi (rho_pi-listed (own_theta a))
        ∙ chi-listed (own_rho_pi (own_theta a)))
    ∙ iota-listed c (own_chi (own_rho_pi (own_theta a)))

rounds-listed :
    (cs : List ℕ) (a : Lanes)
    → for_each cs round (listed a) ≡ listed (rounds_of rotate_left complement cs a)
unfolding rounds_of
rounds-listed [] a = refl
rounds-listed (c ∷ cs) a =
    ap (for_each cs round) (round-listed c a) ∙ rounds-listed cs (own_round c a)

-- On any state, the loops over the 25 lanes are the 24 rounds of theta, rho, pi, chi and iota of the
-- specification, lane by lane, with its constants, and with functions that on words of 64 bits are the
-- rotation to the left and the complement.
pub f1600-listed :
    (a : Lanes)
    → (turn : ℕ → ℕ → ℕ) × (neg : ℕ → ℕ) × IsRotation turn
      × IsComplement neg
      × (f1600 (listed a) ≡ listed (rounds_of turn neg (map round_constant rounds) a))
unfolding f1600
f1600-listed a = (
  rotate_left,
  complement,
  rotate_left-IsRotation,
  complement-IsComplement,
  rounds-listed rc a ∙ ap (λ cs. listed (rounds_of rotate_left complement cs a)) rc-round_constant,
)
