-- ===== src/Common/Bytes.antt =====
-- The equality test on texts that are lists of bytes.
use Prim.Native.Nat.{ℕ}
use mathlib.Core.Path.{◌≡◌, refl, ap₂}
use mathlib.Core.Logic.{inl, inr}
use mathlib.Core.Bool.{Bool, true, false, ◌&&◌}
use mathlib.Core.List.{List, [], ◌∷◌}
use chain_forge.Common.Tests.{◌==◌, ==_iff, Bool-cases}

unfoldable pub bytes_eq : List ℕ → List ℕ → Bool
bytes_eq [] [] = true
bytes_eq (a ∷ as_) (b ∷ bs) = a == b && bytes_eq as_ bs
bytes_eq _ _ = false

pub bytes_eq_refl : (a : List ℕ) → bytes_eq a a ≡ true
unfolding bytes_eq
bytes_eq_refl [] = refl
bytes_eq_refl (a ∷ more) = rw ((==_iff a a).1 refl) (bytes_eq_refl more)

pub bytes_eq_same : (a b : List ℕ) → bytes_eq a b ≡ true → a ≡ b
unfolding bytes_eq
bytes_eq_same [] [] h = refl
bytes_eq_same (a ∷ as_) (b ∷ bs) h = elim (Bool-cases (a == b)) [
  | inl is ↦ ap₂ ◌∷◌ ((==_iff a b).0 is) (bytes_eq_same as_ bs (rw (is) at h))
  | inr isnt ↦ absurd (cc (rw (isnt) at h))
]
bytes_eq_same [] (b ∷ bs) h = absurd (cc h)
bytes_eq_same (a ∷ as_) [] h = absurd (cc h)
