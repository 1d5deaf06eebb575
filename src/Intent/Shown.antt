-- ===== src/Intent/Shown.antt =====
-- What services/gateway/internal/intent/intent.go shows of a result of the engine, field by field.
use chain_forge.Common.{ℕ, suc, ◌-◌, ◌≤◌, ◌<◌, ◌≡◌, refl, ap, ◌∙◌, arith}
use chain_forge.Common.{List, [], ◌∷◌, map, Option, none, some, false, leb}
use chain_forge.Common.Int.{pos, negsuc}
use chain_forge.Webhook.{hex}
use chain_forge.EngineClient.{SimResult, Log, BalanceChange}
use chain_forge.Intent.Text.{decimal_text, difference}
use chain_forge.Intent.Views.{
  LogView, ChangeView, Simulation, with_0x, log_view, change_view, created_text, view,
}

-- The text of bytes: hexadecimal digits behind 0x.
abbrev pub hex_text : List ℕ → List ℕ
hex_text b = b'0' ∷ b'x' ∷ hex b

unfoldable pub IsShownLog : Log → LogView → Type 0
IsShownLog l v =
    (v.address ≡ hex_text l.address)
    × (v.topics ≡ map hex_text l.topics)
    × (v.payload ≡ hex_text l.payload)

-- A balance before and after, and the signed difference of the two.
unfoldable pub IsShownChange : BalanceChange → ChangeView → Type 0
IsShownChange c v =
    (v.address ≡ hex_text c.address)
    × (v.before ≡ decimal_text (pos c.before))
    × (v.after ≡ decimal_text (pos c.after))
    × (c.before ≤ c.after → v.delta ≡ decimal_text (pos (c.after - c.before)))
    × (c.after < c.before → v.delta ≡ b'-' ∷ decimal_text (pos (c.before - c.after)))

-- Two lists are related element by element.
unfoldable pub Each : {A B : Type 0} → (A → B → Type 0) → List A → List B → Type 0
Each R [] [] = Unit
Each R (x ∷ xs) (y ∷ ys) = R x y × Each R xs ys
Each R _ _ = ⊥

-- No address is shown as the empty text.
unfoldable pub IsShownAddress : Option (List ℕ) → List ℕ → Type 0
IsShownAddress none t = t ≡ []
IsShownAddress (some a) t = t ≡ hex_text a

pub record IsShown (r : SimResult) (v : Simulation) : Type 0 where
  pub outcome : v.outcome ≡ r.outcome
  pub gas_used : v.gas_used ≡ r.gas_used
  pub output : v.output ≡ hex_text r.output
  pub reason : v.reason ≡ r.reason
  pub logs : Each IsShownLog r.logs v.logs
  pub changes : Each IsShownChange r.balance_changes v.balance_changes
  pub elapsed_us : v.elapsed_us ≡ r.elapsed_us
  pub created : IsShownAddress r.created v.created

with_0x_lem : (b : List ℕ) → with_0x b ≡ hex_text b
unfolding with_0x
with_0x_lem b = refl

map-hex_text : (bs : List (List ℕ)) → map with_0x bs ≡ map hex_text bs
unfolding with_0x
map-hex_text bs = refl

log_view-IsShownLog : (l : Log) → IsShownLog l (log_view l)
unfolding log_view IsShownLog
log_view-IsShownLog l = (with_0x_lem l.address, map-hex_text l.topics, with_0x_lem l.payload)

decimal_text-negsuc : (n : ℕ) → decimal_text (negsuc n) ≡ b'-' ∷ decimal_text (pos (suc n))
unfolding decimal_text
decimal_text-negsuc n = refl

change_view-IsShownChange : (c : BalanceChange) → IsShownChange c (change_view c)
unfolding change_view IsShownChange difference
change_view-IsShownChange c = (
  with_0x_lem c.address,
  refl,
  refl,
  λ up. ground arith,
  λ down.
      let falls : leb c.before c.after ≡ false = ground arith in
      let gap : suc (c.before - c.after - 1) ≡ c.before - c.after = omega arith in
      rw falls
        (decimal_text-negsuc (c.before - c.after - 1) ∙ ap (λ n. b'-' ∷ decimal_text (pos n)) gap),
)

Each-map :
    {A B : Type 0} (R : A → B → Type 0) (f : A → B)
    → ((x : A) → R x (f x))
    → (xs : List A) → Each R xs (map f xs)
unfolding Each
Each-map R f h [] = tt
Each-map R f h (x ∷ xs) = (h x, Each-map R f h xs)

pub created_text-IsShownAddress : (a : Option (List ℕ)) → IsShownAddress a (created_text a)
unfolding created_text IsShownAddress
created_text-IsShownAddress none = refl
created_text-IsShownAddress (some a) = with_0x_lem a

-- The view of a result shows every field of it.
pub view-IsShown : (r : SimResult) → IsShown r (view r)
unfolding view
view-IsShown r = record {
  outcome = refl;
  gas_used = refl;
  output = with_0x_lem r.output;
  reason = refl;
  logs = Each-map IsShownLog log_view log_view-IsShownLog r.logs;
  changes = Each-map IsShownChange change_view change_view-IsShownChange r.balance_changes;
  elapsed_us = refl;
  created = created_text-IsShownAddress r.created;
}
