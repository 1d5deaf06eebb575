-- ===== src/Intent/Text.antt =====
-- The texts of services/gateway/internal/intent/intent.go, as lists of bytes: hexadecimal bytes and
-- integers, as encoding/hex and math/big read and write them.
use chain_forge.Common.{
  ℕ, zero, suc, ◌+◌, ◌-◌, ◌*◌, ◌/◌, ◌%◌, ◌^◌, ◌==◌, ◌&&◌, Bool, false, ltb, leb,
}
use chain_forge.Common.{if◌then◌else◌, List, [], ◌∷◌, Option, none, some}
use chain_forge.Common.Options.{◌>>=◌}
use chain_forge.Common.Int.{ℤ, pos, negsuc}
use chain_forge.Indexer.Quantity.{digit_value}

-- `strings.HasPrefix(s, "0x")`
unfoldable pub has_0x : List ℕ → Bool
has_0x (a ∷ b ∷ s) = a == b'0' && b == b'x'
has_0x _ = false

-- `strings.TrimPrefix(s, "0x")`
unfoldable pub trim_0x : List ℕ → List ℕ
trim_0x [] = []
trim_0x (a ∷ []) = a ∷ []
trim_0x (a ∷ b ∷ s) = if a == b'0' && b == b'x' then s else a ∷ b ∷ s

-- `hex.DecodeString`: none for an odd length or a byte that is no digit.
unfoldable pub decode_hex : List ℕ → Option (List ℕ)
decode_hex [] = some []
decode_hex (a ∷ []) = none
decode_hex (a ∷ b ∷ s) = digit_value a >>= λ hi.
    digit_value b >>= λ lo. decode_hex s >>= λ bs. some ((hi * 16 + lo) ∷ bs)

-- The digits of a number to a base, behind those read.
unfoldable pub digits : ℕ → ℕ → List ℕ → Option ℕ
digits base n [] = some n
digits base n (c ∷ cs) = elim (digit_value c) [
  | none ↦ none
  | some d ↦ (let rest = digits base (n * base + d) cs in if ltb d base then rest else none)
]

unfoldable pub some_digits : ℕ → List ℕ → Option ℕ
some_digits base [] = none
some_digits base (c ∷ cs) = digits base 0 (c ∷ cs)

unfoldable pub negated : ℕ → ℤ
negated zero = pos 0
negated (suc n) = negsuc n

-- `SetString(s, base)` of a big integer: digits behind a sign that may be left out.
unfoldable pub set_string : ℕ → List ℕ → Option ℤ
set_string base [] = none
set_string base (c ∷ cs) =
    if c == b'-'
    then (some_digits base cs >>= λ n. some (negated n))
    else if c == b'+'
    then (some_digits base cs >>= λ n. some (pos n))
    else some_digits base (c ∷ cs) >>= λ n. some (pos n)

-- The decimal digits of a number in front of those written; 78 are enough for 256 bits, and the fuel
-- given is the number itself.
unfoldable pub decimal_before : ℕ → ℕ → List ℕ → List ℕ
decimal_before zero n written = written
decimal_before (suc fuel) n written =
    let more = decimal_before fuel (n / 10) ((b'0' + n % 10) ∷ written) in
    if n / 10 == 0 then (b'0' + n % 10) ∷ written else more

-- `v.String()`
unfoldable pub decimal_text : ℤ → List ℕ
decimal_text (pos n) = decimal_before (suc n) n []
decimal_text (negsuc n) = b'-' ∷ decimal_before (suc (suc n)) (suc n) []

-- `v.Uint64()`: the 64 low bits of the absolute value.
unfoldable pub uint64 : ℤ → ℕ
uint64 (pos n) = n % 2 ^ 64
uint64 (negsuc n) = suc n % 2 ^ 64

-- `new(big.Int).Sub(a, b)` of two naturals.
unfoldable pub difference : ℕ → ℕ → ℤ
difference a b = if leb b a then pos (a - b) else negsuc (b - a - 1)
