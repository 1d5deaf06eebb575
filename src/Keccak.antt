-- ===== src/Keccak.antt =====
-- services/gateway/internal/keccak/keccak.go: Keccak-256 and addresses. A lane holds 64 bits, and the state is
-- the list of its 25 lanes.
pub mod Words
pub mod Rounds
pub mod Padding
pub mod Addresses
mod Tests
use Prim.Native.Nat.{bit_and, bit_or, bit_xor}
use chain_forge.Common.{
  ℕ, zero, suc, ◌+◌, ◌-◌, ◌*◌, ◌/◌, ◌%◌, ◌^◌, ◌==◌, ◌&&◌, ◌||◌, not, Bool, true, false, leb, ltb,
}
use chain_forge.Common.{
  if◌then◌else◌, List, [], ◌∷◌, ◌++◌, map, length, get_elem?, set, take, Option, none, some,
}
use chain_forge.Common.Bytes.{bytes_eq}
use chain_forge.Webhook.{hex}
use chain_forge.Intent.Text.{decode_hex}

abbrev pub rate : ℕ
rate = 136

abbrev pub rc : List ℕ
rc =
    0x0000000000000001 ∷ 0x0000000000008082 ∷ 0x800000000000808a ∷ 0x8000000080008000
    ∷ 0x000000000000808b ∷ 0x0000000080000001 ∷ 0x8000000080008081 ∷ 0x8000000000008009
    ∷ 0x000000000000008a ∷ 0x0000000000000088 ∷ 0x0000000080008009 ∷ 0x000000008000000a
    ∷ 0x000000008000808b ∷ 0x800000000000008b ∷ 0x8000000000008089 ∷ 0x8000000000008003
    ∷ 0x8000000000008002 ∷ 0x8000000000000080 ∷ 0x000000000000800a ∷ 0x800000008000000a
    ∷ 0x8000000080008081 ∷ 0x8000000000008080 ∷ 0x0000000080000001 ∷ 0x8000000080008008 ∷ []

-- The pairs of an element of `piln` and the one of `rotc` at its index.
abbrev pub steps : List (ℕ × ℕ)
steps =
    (10, 1)
    ∷ (7, 3)
    ∷ (11, 6)
    ∷ (17, 10)
    ∷ (18, 15)
    ∷ (3, 21)
    ∷ (5, 28)
    ∷ (16, 36)
    ∷ (8, 45)
    ∷ (21, 55)
    ∷ (24, 2)
    ∷ (4, 14)
    ∷ (15, 27)
    ∷ (23, 41)
    ∷ (19, 56)
    ∷ (13, 8)
    ∷ (12, 25)
    ∷ (2, 43)
    ∷ (20, 62)
    ∷ (14, 18)
    ∷ (22, 39)
    ∷ (9, 61)
    ∷ (6, 20)
    ∷ (1, 44)
    ∷ []

-- A loop over the elements of a list.
abbrev pub for_each : {A S : Type 0} → List A → (A → S → S) → S → S
for_each [] f s = s
for_each (x ∷ xs) f s = for_each xs f (f x s)

abbrev pub columns : List ℕ
columns = 0 ∷ 1 ∷ 2 ∷ 3 ∷ 4 ∷ []

abbrev pub rows : List ℕ
rows = 0 ∷ 5 ∷ 10 ∷ 15 ∷ 20 ∷ []

-- `st[i]`
abbrev pub lane : List ℕ → ℕ → ℕ
lane [] i = 0
lane (a ∷ st) zero = a
lane (a ∷ st) (suc i) = lane st i

-- `bits.RotateLeft64`, and `^` of a lane.
unfoldable pub rotate_left : ℕ → ℕ → ℕ
rotate_left x k = bit_or (x * 2 ^ k % 2 ^ 64) (x / 2 ^ (64 - k))

unfoldable pub complement : ℕ → ℕ
complement x = bit_xor x (2 ^ 64 - 1)

-- The first two loops of a round, on the parities `bc`.
unfoldable pub parity : List ℕ → ℕ → ℕ
parity st i =
    bit_xor
      (bit_xor (bit_xor (bit_xor (lane st i) (lane st (i + 5))) (lane st (i + 10)))
        (lane st (i + 15)))
      (lane st (i + 20))

unfoldable pub theta : List ℕ → List ℕ
theta st =
    let bc = parity st in
    for_each columns
      (λ i s.
        let t = bit_xor (bc ((i + 4) % 5)) (rotate_left (bc ((i + 1) % 5)) 1) in
        for_each rows (λ j s'. set s' (j + i) (bit_xor (lane s' (j + i)) t)) s)
      st

-- The third loop, with `t` beside the state.
unfoldable pub rho_pi : List ℕ → List ℕ
rho_pi st =
    (for_each steps (λ (j, r) (t, s). (lane s j, set s j (rotate_left t r))) (lane st 1, st)).1

-- The fourth loop, on the row that is copied.
unfoldable pub chi : List ℕ → List ℕ
chi st =
    for_each rows
      (λ j s.
        for_each columns
          (λ i s'. set s' (j + i) (
            bit_xor (lane s (j + i))
              (bit_and (complement (lane s (j + (i + 1) % 5))) (lane s (j + (i + 2) % 5)))))
          s)
      st

unfoldable pub round : ℕ → List ℕ → List ℕ
round c st = let s = chi (rho_pi (theta st)) in set s 0 (bit_xor (lane s 0) c)

unfoldable pub f1600 : List ℕ → List ℕ
f1600 st = for_each rc round st

-- Zeros behind a buffer until the rate divides its length, on fuel.
unfoldable pub fill : ℕ → List ℕ → List ℕ
fill zero buf = buf
fill (suc fuel) buf =
    let more = fill fuel (buf ++ (0 ∷ [])) in if length buf % rate == 0 then buf else more

-- `buf[len(buf)-1] |= 0x80`
unfoldable pub mark_last : List ℕ → List ℕ
mark_last [] = []
mark_last (b ∷ []) = bit_or b 0x80 ∷ []
mark_last (b ∷ c ∷ bs) = b ∷ mark_last (c ∷ bs)

unfoldable pub pad : List ℕ → List ℕ
pad bytes = mark_last (fill rate (bytes ++ (0x01 ∷ [])))

-- `binary.LittleEndian.Uint64` of the first eight bytes.
unfoldable pub little : ℕ → List ℕ → ℕ
little zero bs = 0
little (suc k) [] = 0
little (suc k) (b ∷ bs) = b + 256 * little k bs

unfoldable pub little_bytes : ℕ → ℕ → List ℕ
little_bytes zero v = []
little_bytes (suc k) v = v % 256 ∷ little_bytes k (v / 256)

unfoldable pub drop : ℕ → List ℕ → List ℕ
drop zero bs = bs
drop (suc n) [] = []
drop (suc n) (b ∷ bs) = drop n bs

-- A block of the buffer into the first 17 lanes.
unfoldable pub mix : ℕ → List ℕ → List ℕ → List ℕ
mix zero st buf = st
mix (suc k) [] buf = []
mix (suc k) (a ∷ st) buf = bit_xor a (little 8 buf) ∷ mix k st (drop 8 buf)

-- The blocks of the buffer, on their number.
unfoldable pub absorb : ℕ → List ℕ → List ℕ → List ℕ
absorb zero st buf = st
absorb (suc n) st buf = absorb n (f1600 (mix (rate / 8) st buf)) (drop rate buf)

abbrev pub empty_state : List ℕ
empty_state =
    0 ∷ 0 ∷ 0 ∷ 0 ∷ 0 ∷ 0 ∷ 0 ∷ 0 ∷ 0 ∷ 0 ∷ 0 ∷ 0 ∷ 0 ∷ 0 ∷ 0 ∷ 0 ∷ 0 ∷ 0 ∷ 0 ∷ 0 ∷ 0 ∷ 0 ∷ 0 ∷ 0
    ∷ 0 ∷ []

unfoldable pub digest : List ℕ → List ℕ
digest st =
    little_bytes 8 (lane st 0)
    ++ (little_bytes 8 (lane st 1) ++ (little_bytes 8 (lane st 2) ++ little_bytes 8 (lane st 3)))

unfoldable pub sum256 : List ℕ → List ℕ
sum256 bytes = let buf = pad bytes in digest (absorb (length buf / rate) empty_state buf)

-- The bytes of a text that differ from it by their case.
unfoldable pub to_lower : ℕ → ℕ
to_lower c = if leb b'A' c && leb c b'Z' then c + 32 else c

unfoldable pub to_upper : ℕ → ℕ
to_upper c = if leb b'a' c && leb c b'z' then c - 32 else c

-- The half byte of the digest at the index of a digit, the upper one first.
unfoldable pub nibble : List ℕ → ℕ → ℕ
nibble h i = if i % 2 == 0 then lane h (i / 2) / 16 % 16 else lane h (i / 2) % 16

-- The loop of `Checksum` over the digits from an index on.
unfoldable pub mixed_case : List ℕ → ℕ → List ℕ → List ℕ
mixed_case h i [] = []
mixed_case h i (c ∷ cs) =
    (if leb b'a' c && leb 8 (nibble h i) then c - 32 else c) ∷ mixed_case h (i + 1) cs

unfoldable pub checksum : List ℕ → List ℕ
checksum addr = let lower = hex addr in b'0' ∷ b'x' ∷ mixed_case (sum256 lower) 0 lower

-- The tests of `ParseAddress` on the address that the digits decode to.
unfoldable pub accept : List ℕ → Option (List ℕ) → Option (List ℕ)
accept body none = none
accept body (some raw) =
    if not (bytes_eq body (map to_lower body))
      && not (bytes_eq body (map to_upper body))
      && not (bytes_eq (checksum raw) (b'0' ∷ b'x' ∷ body))
    then none
    else some raw

-- `none` is `ErrBadAddress`.
unfoldable pub parse_address : List ℕ → Option (List ℕ)
parse_address (a ∷ b ∷ body) =
    if not (length (a ∷ b ∷ body) == 42) || not (a == b'0' && b == b'x')
    then none
    else accept body (decode_hex body)
parse_address _ = none
