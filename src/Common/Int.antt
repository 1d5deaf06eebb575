-- ===== src/Common/Int.antt =====
-- Go's signed `int` as an integer, for the operations that test its sign.
use Prim.Native.Nat.{ℕ}
use mathlib.Core.Option.{Option, none, some}

-- `negsuc n` is -(n + 1).
pub data ℤ : Type 0 where
  pos : ℕ → ℤ
  negsuc : ℕ → ℤ

-- `max(n, 0)`
abbrev pub clip : ℤ → ℕ
clip (pos n) = n
clip (negsuc n) = 0

-- An index, unless it is negative.
abbrev pub to_index : ℤ → Option ℕ
to_index (pos n) = some n
to_index (negsuc n) = none
