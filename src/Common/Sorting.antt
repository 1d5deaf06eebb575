-- ===== src/Common/Sorting.antt =====
-- Go's `<` on strings, which compares them byte by byte, and what the package sort makes of a slice
-- whose elements are compared by a text of theirs.
pub mod Ascending
use Prim.Native.Nat.{ℕ}
use mathlib.Core.Bool.{Bool, true, false}
use mathlib.Core.List.{List, [], ◌∷◌}
use chain_forge.Common.Tests.{ltb, ◌==◌, if◌then◌else◌}

unfoldable pub text_lt : List ℕ → List ℕ → Bool
text_lt _ [] = false
text_lt [] (b ∷ bs) = true
text_lt (a ∷ as_) (b ∷ bs) = if ltb a b then true else if a == b then text_lt as_ bs else false

module _ {ℓ} {A : Type ℓ} (key : A → List ℕ) where
  unfoldable pub insert_by : A → List A → List A
  insert_by x [] = x ∷ []
  insert_by x (y ∷ ys) = if text_lt (key y) (key x) then y ∷ insert_by x ys else x ∷ y ∷ ys

  unfoldable pub sort_by : List A → List A
  sort_by [] = []
  sort_by (x ∷ xs) = insert_by x (sort_by xs)
