-- ===== src/Metrics/Tests.antt =====
-- A registry with two families, and the theorems there.
use chain_forge.Common.{◌≢◌, arith, All, ap₂, sym}
use chain_forge.Common.{ℕ, ◌+◌, ◌≡◌, refl, if◌then◌else◌, List, [], ◌∷◌, ◌++◌}
use chain_forge.Common.Bytes.{bytes_eq}
use chain_forge.Common.Sorting.{text_lt, insert_by, sort_by}
use chain_forge.Common.Sorting.Ascending.{IsLess}
use chain_forge.Metrics.{
  Text, Values, Labels, new, entry, assigned, join, family, is_seen, part, braced, key, describe,
  at, add, inc, set, value, help_line, sample_line, help_due, seen_after, write_from, write,
  help_words,
}
use chain_forge.Metrics.Series.{
  Op, adds, incs, sets, describes, apply, apply_all, IsTotal, IsPlainOp, value-history,
}
use chain_forge.Metrics.Identity.{IsPlain, IsQuote, head_same, tail_same}
use chain_forge.Metrics.Exposition.{
  IsFamily, has_family, help_of, line_of, exposition, write-exposition,
}
use mathlib.Core.List.{Pairwise, Pairwise-pair}
use mathlib.Core.Bool.{Bool-set}
use mathlib.Core.List.Perm

program : Unit {0}
unfolding new entry assigned join family is_seen part braced key describe at add inc set value
    help_line sample_line help_due seen_after write_from write apply apply_all has_family help_of
    line_of exposition bytes_eq text_lt insert_by sort_by
program = tt

-- A number is shown as one byte, and quoting adds nothing.
abbrev counts : Values ℕ
counts = record {
  zero_value = 0;
  one_value = 1;
  add = ◌+◌;
  show = λ n. (b'0' + n) ∷ [];
  quote = λ t. t;
}

abbrev value_of : Text → Text
value_of t = if bytes_eq t (b'x' ∷ []) then b'1' ∷ [] else b'2' ∷ []

abbrev xy : Labels
xy = record { names = (b'x' ∷ []) ∷ (b'y' ∷ []) ∷ []; value_of = value_of }

abbrev no_labels : Labels
no_labels = record { names = []; value_of = value_of }

abbrev m : Text
m = b'm' ∷ []

abbrev ops : List (Op ℕ)
ops =
    adds m xy 3
    ∷ describes m (b'h' ∷ [])
    ∷ incs m no_labels
    ∷ incs m xy
    ∷ sets (b'a' ∷ []) no_labels 7
    ∷ []

abbrev m_xy : Text
m_xy = b'm' ∷ b'{' ∷ b'x' ∷ b'=' ∷ b'1' ∷ b',' ∷ b'y' ∷ b'=' ∷ b'2' ∷ b'}' ∷ []

named : key counts m xy ≡ m_xy
unfolding program
named = refl

read : value counts (apply_all counts new ops) m xy ≡ 4
unfolding program
read = refl

-- A quoted text has a mark in front of each byte, and another one at its end.
abbrev mark : ℕ
mark = 92

abbrev finish : ℕ
finish = 34

abbrev marked : Text → Text
marked [] = finish ∷ []
marked (c ∷ t) = mark ∷ (c ∷ marked t)

abbrev quoted_counts : Values ℕ
quoted_counts = record counts { quote = marked }

no_finish : (s t : Text) → finish ∷ s ≢ mark ∷ t
no_finish s t e = let same : finish ≡ mark = head_same finish mark s t e in absurd (omega arith)

marked-IsQuote : IsQuote marked
unfolding IsQuote
marked-IsQuote [] [] s t e = (refl, tail_same finish finish s t e)
marked-IsQuote [] (d ∷ b) s t e = absurd (no_finish _ _ e)
marked-IsQuote (c ∷ a) [] s t e = absurd (no_finish _ _ (sym e))
marked-IsQuote (c ∷ a) (d ∷ b) s t e =
    let rest = tail_same mark mark _ _ e in
    let (same, more) = marked-IsQuote a b s t (tail_same c d _ _ rest) in
    (ap₂ ◌∷◌ (head_same c d _ _ rest) same, more)

xy-IsPlain : IsPlain m xy
xy-IsPlain = record {
  no_brace = (omega arith, tt);
  no_sign = ((omega arith, tt), ((omega arith, tt), tt));
}

no_labels-IsPlain : (c : ℕ) → c ≢ b'{' → IsPlain (c ∷ []) no_labels
no_labels-IsPlain c h = record { no_brace = (h, tt); no_sign = tt }

ops-IsPlain : All (IsPlainOp quoted_counts) ops
unfolding IsPlainOp
ops-IsPlain = (
  xy-IsPlain,
  (
    tt,
    (
      no_labels-IsPlain b'm' (omega arith),
      (xy-IsPlain, (no_labels-IsPlain b'a' (omega arith), tt)),
    ),
  ),
)

value-history_example :
    IsTotal quoted_counts m xy 0 ops (value quoted_counts (apply_all quoted_counts new ops) m xy)
value-history_example = value-history quoted_counts marked-IsQuote m xy xy-IsPlain ops ops-IsPlain

-- a 7, then the help of m, m 1 and the line of m with labels.
written :
    write counts (apply_all counts new ops) (m_xy ∷ m ∷ (b'a' ∷ []) ∷ [])
    ≡ (b'a' ∷ b' ' ∷ b'7' ∷ b'\n' ∷ [])
      ++ help_words
      ++ (b'm' ∷ b' ' ∷ b'h' ∷ b'\n' ∷ b'm' ∷ b' ' ∷ b'1' ∷ b'\n' ∷ [])
      ++ m_xy
      ++ (b' ' ∷ b'4' ∷ b'\n' ∷ [])
unfolding program
written = refl

two_ascend : Pairwise (IsLess (λ t. t)) (m ∷ m_xy ∷ [])
unfolding text_lt
two_ascend = (Pairwise-pair (λ a b. Bool-set _ _)).1 refl

write-exposition_example :
    (family_of : Text → Text) × ((k : Text) → IsFamily k (family_of k))
    × (write counts (apply_all counts new ops) (m_xy ∷ m ∷ [])
        ≡ exposition counts family_of (apply_all counts new ops) [] (m ∷ m_xy ∷ []))
write-exposition_example =
    write-exposition counts (apply_all counts new ops) (m_xy ∷ m ∷ []) (m ∷ m_xy ∷ []) two_ascend
      (Perm.swap m m_xy [])
