-- ===== src/EngineClient/Numbers.antt =====
-- The numbers of services/gateway/internal/engineclient/engineclient.go: what `word` writes,
-- `SetBytes` reads.
use chain_forge.Common.{
  ℕ, zero, suc, ◌+◌, ◌*◌, ◌/◌, ◌%◌, ◌^◌, ◌<◌, ◌≤◌, ◌==◌, ◌≡◌, refl, arith, ◌∙◌, ap,
}
use chain_forge.Common.{List, [], ◌∷◌, length, Bool-cases, inl, inr}
use chain_forge.EngineClient.{bytes_before, be_bytes, from_bytes}
use native.Mathlib.Nat.{pow-suc}

from_bytes-bytes_before :
    (fuel n : ℕ) (bs : List ℕ)
    → n < 256 ^ fuel
    → from_bytes 0 (bytes_before fuel n bs) ≡ from_bytes n bs
unfolding bytes_before from_bytes
from_bytes-bytes_before zero n bs h = let nought : n ≡ 0 = omega arith in rw nought refl
from_bytes-bytes_before (suc fuel) n bs h = elim (Bool-cases (n == 0)) [
  | inl e ↦ let nought : n ≡ 0 = ground arith in rw (e, bytes_before) (rw nought refl)
  | inr e ↦
      let size : n / 256 < 256 ^ fuel = omega (arith, pow-suc 256 fuel) in
      rw (e, bytes_before)
        (from_bytes-bytes_before fuel (n / 256) (n % 256 ∷ bs) size
          ∙ ap (λ m. from_bytes m bs) (omega arith))
]

length-bytes_before :
    (fuel n : ℕ) (bs : List ℕ) → length (bytes_before fuel n bs) ≤ fuel + length bs
unfolding bytes_before
length-bytes_before zero n bs = omega arith
length-bytes_before (suc fuel) n bs =
    ground (arith, length-bytes_before fuel (n / 256) (n % 256 ∷ bs))

pub from_bytes-be_bytes : (n : ℕ) → n < 2 ^ 256 → from_bytes 0 (be_bytes n) ≡ n
unfolding be_bytes from_bytes
from_bytes-be_bytes n h = from_bytes-bytes_before 32 n [] (omega arith)

pub length-be_bytes : (n : ℕ) → length (be_bytes n) ≤ 32
unfolding be_bytes
length-be_bytes n = omega (arith, length-bytes_before 32 n [])

-- Only 0 is written as no bytes.
pub be_bytes-zero : be_bytes 0 ≡ []
unfolding be_bytes
be_bytes-zero = refl

-- The k lowest digits of a number to the base 256, most significant first, before the bytes given.
padded : ℕ → ℕ → List ℕ → List ℕ
padded zero n b = b
padded (suc k) n b = padded k (n / 256) (n % 256 ∷ b)

-- A word of 256 bits as 32 bytes, most significant first.
unfoldable pub word_bytes32 : ℕ → List ℕ
unfolding padded
word_bytes32 n = padded 32 n []

length-padded : (k n : ℕ) (b : List ℕ) → length (padded k n b) ≡ k + length b
unfolding padded
length-padded zero n b = omega arith
length-padded (suc k) n b = omega (arith, length-padded k (n / 256) (n % 256 ∷ b))

pub length-word_bytes32 : (n : ℕ) → length (word_bytes32 n) ≡ 32
unfolding word_bytes32
length-word_bytes32 n = omega (arith, length-padded 32 n [])

from_bytes-padded :
    (k n : ℕ) (b : List ℕ) → n < 256 ^ k → from_bytes 0 (padded k n b) ≡ from_bytes n b
unfolding padded from_bytes
from_bytes-padded zero n b h = let e : n ≡ 0 = omega arith in rw e
from_bytes-padded (suc k) n b h =
    let joined : n / 256 * 256 + n % 256 ≡ n = omega arith in
    from_bytes-padded k (n / 256) (n % 256 ∷ b) (omega (arith, pow-suc 256 k)) ∙ rw joined refl

pub from_bytes-word_bytes32 : (n : ℕ) → n < 2 ^ 256 → from_bytes 0 (word_bytes32 n) ≡ n
unfolding word_bytes32 from_bytes
from_bytes-word_bytes32 n h = from_bytes-padded 32 n [] (omega arith)
