-- ===== src/Keccak/Addresses.antt =====
-- The addresses of services/gateway/internal/keccak/keccak.go.
use chain_forge.Common.{
  ℕ, suc, ◌+◌, ◌-◌, ◌*◌, ◌/◌, ◌%◌, ◌<◌, ◌==◌, ◌&&◌, ◌≡◌, refl, ap, ◌∙◌, arith, true, leb,
}
use chain_forge.Common.{if◌then◌else◌, List, [], ◌∷◌, map, length, some, All, Bool-cases, inl, inr}
use chain_forge.Common.Options.{◌>>=◌}
use chain_forge.Common.Bytes.{bytes_eq, bytes_eq_refl}
use chain_forge.Webhook.{hex, hex_digit}
use chain_forge.Indexer.Quantity.{digit_value}
use chain_forge.Intent.Text.{decode_hex}
use chain_forge.Intent.RoundTrip.{decode_hex-hex}
use chain_forge.Keccak.{
  to_lower, to_upper, nibble, mixed_case, checksum, accept, parse_address, sum256,
}

-- The case of a digit does not matter.
digit_value-upper :
    (d : ℕ)
    → d < 16
    → leb b'a' (hex_digit d) ≡ true
    → digit_value (hex_digit d - 32) ≡ digit_value (hex_digit d)
unfolding digit_value hex_digit
digit_value-upper d h e = ground (arith, h, e)

-- A digit as it stands in a checksum.
cased : List ℕ → ℕ → ℕ → ℕ
cased h i c = if leb b'a' c && leb 8 (nibble h i) then c - 32 else c

digit_value-cased :
    (h : List ℕ) (i d : ℕ)
    → d < 16
    → digit_value (cased h i (hex_digit d)) ≡ digit_value (hex_digit d)
unfolding cased
digit_value-cased h i d small = elim (Bool-cases (leb b'a' (hex_digit d))) [
  | inr digit ↦ rw (digit, cased) refl
  | inl letter ↦ elim (Bool-cases (leb 8 (nibble h i))) [
    | inl up ↦ rw (letter, cased) (rw (up, cased) (digit_value-upper d small letter))
    | inr down ↦ rw (letter, cased) (rw (down, cased) refl)
  ]
]

-- Digits with the same values are the same bytes.
decode_hex-same :
    (p p' q q' : ℕ) (s s' : List ℕ)
    → digit_value p ≡ digit_value p'
    → digit_value q ≡ digit_value q'
    → decode_hex s ≡ decode_hex s'
    → decode_hex (p ∷ q ∷ s) ≡ decode_hex (p' ∷ q' ∷ s')
unfolding decode_hex
decode_hex-same p p' q q' s s' hp hq hs =
    ap (λ o. o >>= λ hi. digit_value q >>= λ lo. decode_hex s >>= λ bs. some ((hi * 16 + lo) ∷ bs))
      hp
    ∙ ap
        (λ o.
          digit_value p' >>= λ hi. o >>= λ lo. decode_hex s >>= λ bs. some ((hi * 16 + lo) ∷ bs))
        hq
    ∙ ap
        (λ o.
          digit_value p' >>= λ hi. digit_value q' >>= λ lo. o >>= λ bs. some ((hi * 16 + lo) ∷ bs))
        hs

decode_hex-mixed_case :
    (h : List ℕ) (i : ℕ) (b : List ℕ)
    → All (λ x. x < 256) b
    → decode_hex (mixed_case h i (hex b)) ≡ decode_hex (hex b)
unfolding mixed_case hex cased
decode_hex-mixed_case h i [] small = refl
decode_hex-mixed_case h i (x ∷ b) (small, rest) =
    decode_hex-same (cased h i (hex_digit (x / 16))) (hex_digit (x / 16))
      (cased h (i + 1) (hex_digit (x % 16))) (hex_digit (x % 16)) (mixed_case h (i + 1 + 1) (hex b))
      (hex b) (digit_value-cased h i (x / 16) (omega (arith, small)))
      (digit_value-cased h (i + 1) (x % 16) (omega arith))
      (decode_hex-mixed_case h (i + 1 + 1) b rest)

length-mixed_case : (h : List ℕ) (i : ℕ) (s : List ℕ) → length (mixed_case h i s) ≡ length s
unfolding mixed_case
length-mixed_case h i [] = refl
length-mixed_case h i (c ∷ s) = ap suc (length-mixed_case h (i + 1) s)

length-hex : (b : List ℕ) → length (hex b) ≡ 2 * length b
unfolding hex
length-hex [] = refl
length-hex (x ∷ b) = omega (arith, length-hex b)

-- What passes the tests of the case: the checksum of the address itself.
accept-own :
    (body raw : List ℕ) → checksum raw ≡ b'0' ∷ b'x' ∷ body → accept body (some raw) ≡ some raw
unfolding accept
accept-own body raw own =
    let told : bytes_eq (checksum raw) (b'0' ∷ b'x' ∷ body) ≡ true =
      ap (λ s. bytes_eq s (b'0' ∷ b'x' ∷ body)) own ∙ bytes_eq_refl (b'0' ∷ b'x' ∷ body) in
    elim (Bool-cases (bytes_eq body (map to_lower body))) [
      | inl lower ↦ rw (lower, accept) refl
      | inr not_lower ↦ elim (Bool-cases (bytes_eq body (map to_upper body))) [
        | inl upper ↦ rw (not_lower, accept) (rw (upper, accept) refl)
        | inr not_upper ↦ rw (not_lower, accept) (rw (not_upper, accept) (rw (told, accept) refl))
      ]
    ]

-- The checksummed text of an address of 20 bytes is parsed back to the address.
pub parse_address-checksum :
    (a : List ℕ) → length a ≡ 20 → All (λ x. x < 256) a → parse_address (checksum a) ≡ some a
unfolding parse_address checksum
parse_address-checksum a len bytes =
    let body = mixed_case (sum256 (hex a)) 0 (hex a) in
    let size : (suc (suc (length body)) == 42) ≡ true =
      ground (arith, length-mixed_case (sum256 (hex a)) 0 (hex a), length-hex a, len) in
    let read : decode_hex body ≡ some a =
      decode_hex-mixed_case (sum256 (hex a)) 0 a bytes ∙ decode_hex-hex a bytes in
    rw (size, parse_address) (ap (accept body) read ∙ accept-own body a refl)
