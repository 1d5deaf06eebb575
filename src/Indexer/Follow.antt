-- ===== src/Indexer/Follow.antt =====
-- The events of services/gateway/internal/indexer/indexer.go against its stored chain, and the
-- shape of that chain.
use chain_forge.Common.{ℕ, suc, ◌≤◌, ◌≡◌, refl, arith, true, Bool-cases}
use chain_forge.Common.{List, [], ◌∷◌, ◌++◌, length, inl, inr, ap}
use chain_forge.Common.{ltb}
use chain_forge.Indexer.{Block}
use chain_forge.Indexer.{extends, push, drop_oldest}

pub data News : Type 0 where
  added removed : Block → News

-- A reader that keeps a chain of its own, newest first: it takes off the tip that an event removes
-- and puts on a block that an event adds, which must extend its tip.
pub data Follows (window : ℕ) : List Block → List News → List Block → Type 0 where
  caught_up : {c : List Block} → Follows window c [] c
  takes_off :
      {c c' : List Block} {es : List News} (tip : Block)
      → Follows window c es c'
      → Follows window (tip ∷ c) (removed tip ∷ es) c'
  puts_on :
      {c c' : List Block} {es : List News} (b : Block)
      → extends b c ≡ true
      → Follows window (push window b c) es c'
      → Follows window c (added b ∷ es) c'

pub Follows-append :
    {window : ℕ} {c c' c'' : List Block} {es es' : List News}
    → Follows window c es c'
    → Follows window c' es' c''
    → Follows window c (es ++ es') c''
Follows-append caught_up g = g
Follows-append (takes_off tip f) g = takes_off tip (Follows-append f g)
Follows-append (puts_on b e f) g = puts_on b e (Follows-append f g)

-- Each block's parent is the next one of the chain.
unfoldable pub IsLinked : List Block → Type 0
IsLinked [] = Unit
IsLinked (b ∷ c) = (extends b c ≡ true) × IsLinked c

drop_oldest-IsLinked :
    (b : Block) (c : List Block) → IsLinked (b ∷ c) → IsLinked (drop_oldest (b ∷ c))
unfolding IsLinked drop_oldest extends
drop_oldest-IsLinked b [] l = tt
drop_oldest-IsLinked b (x ∷ []) l = (refl, tt)
drop_oldest-IsLinked b (x ∷ y ∷ c) l = (l.0, drop_oldest-IsLinked x (y ∷ c) l.1)

length-drop_oldest : (b : Block) (c : List Block) → length (drop_oldest (b ∷ c)) ≡ length c
unfolding drop_oldest
length-drop_oldest b [] = refl
length-drop_oldest b (x ∷ c) = ap suc (length-drop_oldest x c)

-- What the indexer keeps of its chain.
pub record IsChain (window : ℕ) (c : List Block) : Type 0 where
  pub linked : IsLinked c
  pub bounded : length c ≤ window

push-IsChain :
    (window : ℕ) (b : Block) (c : List Block)
    → extends b c ≡ true
    → IsChain window c
    → IsChain window (push window b c)
unfolding push
push-IsChain window b c e v = elim (Bool-cases (ltb window (length (b ∷ c)))) [
  | inl full ↦
      rw (full, push)
        (record {
          linked = drop_oldest-IsLinked b c (unfold IsLinked in (e, v.linked));
          bounded = omega (arith, length-drop_oldest b c, v.bounded);
        })
  | inr room ↦
      rw (room, push) (record { linked = unfold IsLinked in (e, v.linked); bounded = ground arith })
]

pub Follows-IsChain :
    {window : ℕ} {c c' : List Block} {es : List News}
    → Follows window c es c'
    → IsChain window c
    → IsChain window c'
Follows-IsChain caught_up v = v
Follows-IsChain (takes_off tip f) v =
    Follows-IsChain f
      (record { linked = (unfold IsLinked in v.linked.1); bounded = omega (arith, v.bounded) })
Follows-IsChain (puts_on b e f) v = Follows-IsChain f (push-IsChain _ b _ e v)
