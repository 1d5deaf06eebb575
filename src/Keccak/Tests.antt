-- ===== src/Keccak/Tests.antt =====
-- Digests and addresses, and the theorems there.
use chain_forge.Common.{◌+◌, ◌*◌, take, ◌≡◌, refl, arith, [], ◌∷◌, some}
use chain_forge.Keccak.{
  rotate_left, complement, parity, theta, rho_pi, chi, round, f1600, fill, mark_last, pad, little,
  little_bytes, drop, mix, absorb, digest, sum256,
}
use chain_forge.Keccak.{checksum, parse_address}
use chain_forge.Keccak.Rounds.{listed, Lanes, rounds_of, f1600-listed}
use chain_forge.Keccak.Words.{IsRotation, IsComplement, rounds, round_constant}
use chain_forge.Common.{map, ℕ}
use chain_forge.Keccak.Addresses.{parse_address-checksum}
use chain_forge.EngineClient.{zero_address}

program : Unit {0}
unfolding rotate_left complement parity theta rho_pi chi round f1600 fill mark_last pad little
    little_bytes drop mix absorb digest sum256
program = tt

-- The digest of nothing begins with c5d24601.
digest_of_nothing : take 4 (sum256 []) ≡ 0xc5 ∷ 0xd2 ∷ 0x46 ∷ 0x01 ∷ []
unfolding program
digest_of_nothing = refl

abbrev counted : Lanes
counted x y = x + 5 * y

f1600-listed_example :
    (turn : ℕ → ℕ → ℕ) × (neg : ℕ → ℕ) × IsRotation turn
    × IsComplement neg
    × (f1600 (listed counted) ≡ listed (rounds_of turn neg (map round_constant rounds) counted))
f1600-listed_example = f1600-listed counted

parse_address-checksum_example : parse_address (checksum zero_address) ≡ some zero_address
parse_address-checksum_example = parse_address-checksum zero_address refl (
  omega arith,
  (
    omega arith,
    (
      omega arith,
      (
        omega arith,
        (
          omega arith,
          (
            omega arith,
            (
              omega arith,
              (
                omega arith,
                (
                  omega arith,
                  (
                    omega arith,
                    (
                      omega arith,
                      (
                        omega arith,
                        (
                          omega arith,
                          (
                            omega arith,
                            (
                              omega arith,
                              (
                                omega arith,
                                (omega arith, (omega arith, (omega arith, (omega arith, tt)))),
                              ),
                            ),
                          ),
                        ),
                      ),
                    ),
                  ),
                ),
              ),
            ),
          ),
        ),
      ),
    ),
  ),
)
