-- ===== src/Intent/Steps.antt =====
-- Steps that may fail and act on the world, for services/gateway/internal/intent/intent.go.
use chain_forge.Common.{ℕ, ◌≡◌, refl, subst, ◌⊎◌, inl, inr}
use chain_forge.Rpcx

-- Why an intent is refused, which is the caller's mistake.
pub data Invalid : Type 0 where
  not_configured no_chain_id bad_from bad_to bad_value bad_payload bad_gas_price bad_tx : Invalid
  above_ceiling : ℕ → Invalid

pub data Fault : Type 0 where
  invalid : Invalid → Fault
  rpc : Rpcx.Fault → Fault
  bad_quantity bad_code bad_head no_simulation : Fault

pub data Result {ℓ} (A : Type ℓ) : Type ℓ where
  ok : A → Result A
  err : Fault → Result A

-- `W` is the world outside.
abbrev pub Run : Type 0 → Type 0 → Type 0
Run W A = W → Result A × W

unfoldable pub after : {W A B : Type 0} → Result A → (A → Run W B) → Run W B
after (ok a) f w = f a w
after (err e) f w = (err e, w)

infixl 5 ◌>>=◌
unfoldable pub ◌>>=◌ : {W A B : Type 0} → Run W A → (A → Run W B) → Run W B
unfolding after
◌>>=◌ m f w = after (m w).0 f (m w).1

abbrev pub lift : {W A : Type 0} → Result A → Run W A
lift r w = (r, w)

infixl 5 ◌&>◌
abbrev pub ◌&>◌ : {A B : Type 0} → Result A → (A → Result B) → Result B
ok a &> f = f a
err e &> f = err e

pub Result-cases :
    {A : Type 0} (r : Result A) → ((a : A) × (r ≡ ok a)) ⊎ ((e : Fault) × (r ≡ err e))
Result-cases (ok a) = inl (a, refl)
Result-cases (err e) = inr (e, refl)

-- A chain that succeeds has a first step that does.
pub after-ok :
    {W A B : Type 0} (r : Result A) (f : A → Run W B) (w : W) (b : B)
    → (after r f w).0 ≡ ok b
    → (a : A) × (r ≡ ok a) × ((f a w).0 ≡ ok b)
unfolding after
after-ok (ok a) f w b e = (a, refl, e)
after-ok (err x) f w b e = absurd (cc e)

-- Whatever the steps return satisfies `P`.
unfoldable pub Returns : {W B : Type 0} → (B → Type 0) → Run W B → Type 0
Returns {W = W} {B = B} P m = (w : W) (b : B) → (m w).0 ≡ ok b → P b

pub bind-Returns :
    {W A B : Type 0} (P : B → Type 0) (m : Run W A) (f : A → Run W B)
    → ((a : A) (w : W) → (m w).0 ≡ ok a → Returns P (f a))
    → Returns P (m >>= f)
unfolding Returns ◌>>=◌
bind-Returns P m f h w b e =
    let (a, first, rest) = after-ok (m w).0 f (m w).1 b e in h a w first (m w).1 b rest

pub lift-Returns :
    (W : Type 0) {A : Type 0} (P : A → Type 0) (a : A) → P a → Returns {W = W} P (lift (ok a))
unfolding Returns
lift-Returns W P a h w b e = let same : a ≡ b = cc e in subst P same h

pub then-ok :
    {A B : Type 0} (r : Result A) (f : A → Result B) (b : B)
    → (r &> f) ≡ ok b
    → (a : A) × (r ≡ ok a) × (f a ≡ ok b)
then-ok (ok a) f b e = (a, refl, e)
then-ok (err x) f b e = absurd (cc e)
