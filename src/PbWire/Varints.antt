-- ===== src/PbWire/Varints.antt =====
-- The varints of services/gateway/internal/pbwire/pbwire.go.
use Prim.Native.Nat.{bit_and}
use chain_forge.Common.{ℕ, zero, suc, ◌+◌, ◌*◌, ◌/◌, ◌%◌, ◌^◌, ◌≤◌, ◌<◌, ◌≡◌, ◌≢◌, arith, ◌∙◌, ap}
use chain_forge.Common.{ltb, if◌then◌else◌, List, [], ◌∷◌, ◌++◌, length, append_assoc, All}
use chain_forge.Common.Bits.{low_seven, set_top_bit, bit_or_disjoint, bit_or-lt}
use chain_forge.PbWire.{ok, panics, stuck, put_loop, put_varint, get_loop, get_varint, add_group}
use chain_forge.Common.Order.{lt_wf}
use mathlib.Core.WellFounded.{Acc}
use native.Mathlib.Nat.{div-add-mod, mul-le-mul_right}
use native.Mathlib.Numerals.{towards_suc}

-- The groups of seven bits of `v`, lowest first, for `v` below 128 ^ (k + 1).
unfoldable pub groups : ℕ → ℕ → List ℕ
groups zero v = v ∷ []
groups (suc k) v =
    let rest = groups k (v / 128) in if ltb v 128 then v ∷ [] else (v % 128 + 128) ∷ rest

put_loop-groups :
    (k : ℕ) (w : List ℕ) (v : ℕ) (a : Acc ◌<◌ v)
    → v < 128 ^ suc k
    → put_loop w v a ≡ w ++ groups k v
unfolding put_loop groups
put_loop-groups zero w v (Acc.intro _ smaller) h = ground arith
put_loop-groups (suc k) w v (Acc.intro _ smaller) h =
    let head : List ℕ = (v % 128 + 128) ∷ [] in
    grind (
      arith,
      set_top_bit (v % 256),
      λ (a : Acc ◌<◌ (v / 128)). put_loop-groups k (w ++ head) (v / 128) a (omega arith),
      append_assoc w head (groups k (v / 128)),
    )

-- On every uint64 the writer appends the groups.
pub put_varint-groups : (w : List ℕ) (v : ℕ) → v < 2 ^ 64 → put_varint w v ≡ w ++ groups 9 v
unfolding put_varint
put_varint-groups w v h = put_loop-groups 9 w v (lt_wf.apply v) (omega arith)

pub length-groups : (k v : ℕ) → (1 ≤ length (groups k v)) × (length (groups k v) ≤ k + 1)
unfolding groups
length-groups zero v = omega arith
length-groups (suc k) v = ground (arith, length-groups k (v / 128))

pub groups-bytes : (k v : ℕ) → v < 128 ^ suc k → All (λ b. b < 256) (groups k v)
unfolding groups
groups-bytes zero v h = omega arith
groups-bytes (suc k) v h = ground (arith, groups-bytes k (v / 128) (omega arith))

shift_seven : (s : ℕ) → 2 ^ (s + 7) ≡ 128 * 2 ^ s
shift_seven s = simp towards_suc (omega arith)

-- What one round adds, where the group fits above the bits read so far.
add_group_lem :
    (acc c s : ℕ)
    → c < 256
    → acc < 2 ^ s
    → acc + c % 128 * 2 ^ s < 2 ^ 64
    → add_group acc c s ≡ acc + c % 128 * 2 ^ s
add_group_lem acc c s hc ha fits =
    let small : c % 128 * 2 ^ s % 2 ^ 64 ≡ c % 128 * 2 ^ s = omega arith in
    rw (low_seven c hc, small) (bit_or_disjoint s acc (c % 128) ha)

split_group : (v s : ℕ) → v * 2 ^ s ≡ v % 128 * 2 ^ s + v / 128 * 2 ^ (s + 7)
split_group v s = omega (
  arith,
  ap (λ (t : ℕ). t * 2 ^ s) (div-add-mod v 128),
  ap (λ (t : ℕ). v / 128 * t) (shift_seven s),
)

below_shift : (acc g s : ℕ) → acc < 2 ^ s → g < 128 → acc + g * 2 ^ s < 2 ^ (s + 7)
below_shift acc g s ha hg =
    let below : g ≤ 127 = omega arith in
    omega (arith, shift_seven s, mul-le-mul_right (2 ^ s) below)

get_loop-groups :
    (k rounds v acc s : ℕ) (rest : List ℕ)
    → v < 128 ^ suc k
    → k < rounds
    → acc < 2 ^ s
    → acc + v * 2 ^ s < 2 ^ 64
    → get_loop rounds acc s (groups k v ++ rest) ≡ ok (acc + v * 2 ^ s, rest)
unfolding get_loop groups
get_loop-groups zero (suc rounds) v acc s rest hv hr ha fits = ground (arith, add_group_lem acc v s)
get_loop-groups (suc k) (suc rounds) v acc s rest hv hr ha fits = ground (
  arith,
  add_group_lem acc v s,
  add_group_lem acc (v % 128 + 128) s,
  split_group v s,
  below_shift acc (v % 128) s,
  get_loop-groups k rounds (v / 128) (acc + v % 128 * 2 ^ s) (s + 7) rest (omega arith),
)
get_loop-groups k zero v acc s rest hv hr ha fits = absurd (omega arith)

-- A number below 2 ^ 64 that was written is read back, and what follows it is left.
pub get_varint-put_varint :
    (v : ℕ) (rest : List ℕ) → v < 2 ^ 64 → get_varint (put_varint [] v ++ rest) ≡ ok (v, rest)
unfolding get_varint
get_varint-put_varint v rest h = rw (put_varint-groups [] v h) (
    get_loop-groups 9 10 v 0 0 rest (omega arith) (omega arith) (omega arith) (omega arith)
    ∙ ap (λ u. ok (u, rest)) (omega arith))

get_loop_takes :
    (rounds acc s : ℕ) (b : List ℕ) (v : ℕ) (rest : List ℕ)
    → acc < 2 ^ 64
    → get_loop rounds acc s b ≡ ok (v, rest)
    → (v < 2 ^ 64) × (length rest < length b) × (length b ≤ length rest + rounds)
unfolding get_loop
get_loop_takes zero acc s b v rest ha e = absurd (ground arith)
get_loop_takes (suc rounds) acc s [] v rest ha e = absurd (ground arith)
get_loop_takes (suc rounds) acc s (c ∷ b) v rest ha e = ground (
  arith,
  bit_or-lt 64 acc (bit_and c 0x7f * 2 ^ s % 2 ^ 64) ha (omega arith),
  get_loop_takes rounds (add_group acc c s) (s + 7) b v rest,
)

get_loop-ne-stuck : (rounds acc s : ℕ) (b : List ℕ) → get_loop rounds acc s b ≢ stuck
unfolding get_loop
get_loop-ne-stuck zero acc s b e = cc
get_loop-ne-stuck (suc rounds) acc s [] e = cc
get_loop-ne-stuck (suc rounds) acc s (c ∷ b) e =
    ground (arith, get_loop-ne-stuck rounds (add_group acc c s) (s + 7) b)

get_loop-ne-panics : (rounds acc s : ℕ) (b : List ℕ) → get_loop rounds acc s b ≢ panics
unfolding get_loop
get_loop-ne-panics zero acc s b e = cc
get_loop-ne-panics (suc rounds) acc s [] e = cc
get_loop-ne-panics (suc rounds) acc s (c ∷ b) e =
    ground (arith, get_loop-ne-panics rounds (add_group acc c s) (s + 7) b)

-- A varint that is read is a uint64, and took between 1 and 10 bytes of the input.
pub get_varint_takes :
    (b : List ℕ) (v : ℕ) (rest : List ℕ)
    → get_varint b ≡ ok (v, rest)
    → (v < 2 ^ 64) × (length rest < length b) × (length b ≤ length rest + 10)
unfolding get_varint
get_varint_takes b v rest e = get_loop_takes 10 0 0 b v rest (omega arith) e

pub get_varint-ne-stuck : (b : List ℕ) → get_varint b ≢ stuck
unfolding get_varint
get_varint-ne-stuck b = get_loop-ne-stuck 10 0 0 b

pub get_varint-ne-panics : (b : List ℕ) → get_varint b ≢ panics
unfolding get_varint
get_varint-ne-panics b = get_loop-ne-panics 10 0 0 b
