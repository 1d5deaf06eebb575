-- ===== src/Keccak/Padding.antt =====
-- The padding of services/gateway/internal/keccak/keccak.go.
use chain_forge.Common.{ℕ, zero, suc, ◌+◌, ◌-◌, ◌*◌, ◌/◌, ◌%◌, ◌≤◌, ◌==◌, ◌≡◌, refl, ap, ◌∙◌, arith}
use chain_forge.Common.{List, [], ◌∷◌, ◌++◌, length, length-append, Bool-cases, inl, inr}
use chain_forge.Keccak.{fill, mark_last, pad}

-- `fill` reaches a multiple of the rate when its fuel leads there.
length-fill :
    (fuel : ℕ) (buf : List ℕ)
    → (136 - length buf % 136) % 136 ≤ fuel
    → length (fill fuel buf) ≡ length buf + (136 - length buf % 136) % 136
unfolding fill
length-fill zero buf h = omega (arith, h)
length-fill (suc fuel) buf h = elim (Bool-cases (length buf % 136 == 0)) [
  | inl full ↦ rw (full, fill) (ground (arith, full))
  | inr more ↦
      let longer : length (buf ++ (0 ∷ [])) ≡ length buf + 1 = length-append buf (0 ∷ []) in
      let rest = length-fill fuel (buf ++ (0 ∷ [])) (ground (arith, h, longer, more)) in
      rw (more, fill) (ground (arith, rest, longer, more))
]

length-mark_last : (bs : List ℕ) → length (mark_last bs) ≡ length bs
unfolding mark_last
length-mark_last [] = refl
length-mark_last (b ∷ []) = refl
length-mark_last (b ∷ c ∷ bs) = ap suc (length-mark_last (c ∷ bs))

-- Padding fills the last block: the least number of blocks that holds a byte more than the message.
pub length-pad : (bs : List ℕ) → length (pad bs) ≡ 136 * (length bs / 136 + 1)
unfolding pad
length-pad bs =
    let one_more : length (bs ++ (1 ∷ [])) ≡ length bs + 1 = length-append bs (1 ∷ []) in
    let filled = length-fill 136 (bs ++ (1 ∷ [])) (omega arith) in
    length-mark_last (fill 136 (bs ++ (1 ∷ []))) ∙ omega (arith, filled, one_more)
