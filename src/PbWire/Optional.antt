-- ===== src/PbWire/Optional.antt =====
-- Entries that proto3 leaves out when they hold the zero value, for
-- services/gateway/internal/pbwire/pbwire.go.
use chain_forge.Common.{ℕ, ◌^◌, ◌<◌, ◌==◌, ◌≡◌, refl, arith, All, Bool-cases, inl, inr}
use chain_forge.Common.{List, [], ◌∷◌, ◌++◌, map, length, if◌then◌else◌, false, true}
use chain_forge.PbWire.{put_uint, put_raw}
use chain_forge.PbWire.Entries.{Entry, number, bytes, IsEntry, put_entry, put_entries}

unfoldable pub opt_number : ℕ → ℕ → List Entry
opt_number f v = if v == 0 then [] else number f v ∷ []

unfoldable pub opt_bytes : ℕ → List ℕ → List Entry
opt_bytes f [] = []
opt_bytes f (b ∷ bs) = bytes f (b ∷ bs) ∷ []

put_uint-zero : (w : List ℕ) (f v : ℕ) → (v == 0) ≡ true → put_uint w f v ≡ w
unfolding put_uint
put_uint-zero w f v e = rw (e, put_uint) refl

-- `Uint` and `Raw` write these.
pub put_uint-entries : (w : List ℕ) (f v : ℕ) → put_uint w f v ≡ put_entries w (opt_number f v)
unfolding put_entries put_entry opt_number
put_uint-entries w f v = elim (Bool-cases (v == 0)) [
  | inl e ↦ rw (e, opt_number) (put_uint-zero w f v e)
  | inr e ↦ rw (e, opt_number) refl
]

pub put_raw-entries :
    (w : List ℕ) (f : ℕ) (v : List ℕ) → put_raw w f v ≡ put_entries w (opt_bytes f v)
unfolding put_raw put_entries put_entry opt_bytes
put_raw-entries w f [] = refl
put_raw-entries w f (b ∷ bs) =
    let more : (length (b ∷ bs) == 0) ≡ false = ground arith in rw (more, put_raw) refl

pub put_entries-more :
    (w : List ℕ) (xs ys : List Entry) → put_entries (put_entries w xs) ys ≡ put_entries w (xs ++ ys)
unfolding put_entries
put_entries-more w [] ys = refl
put_entries-more w (x ∷ xs) ys = put_entries-more (put_entry w x) xs ys

pub All-opt_number : (f v : ℕ) → f < 2 ^ 29 → v < 2 ^ 64 → All IsEntry (opt_number f v)
unfolding opt_number IsEntry
All-opt_number f v hf h = elim (Bool-cases (v == 0)) [
  | inl e ↦ rw (e, opt_number) tt
  | inr e ↦ rw (e, opt_number) ((hf, (ground arith), h), tt)
]

pub All-opt_bytes :
    (f : ℕ) (v : List ℕ) → f < 2 ^ 29 → length v < 2 ^ 31 → All IsEntry (opt_bytes f v)
unfolding opt_bytes IsEntry
All-opt_bytes f [] hf h = tt
All-opt_bytes f (b ∷ bs) hf h = ((hf, h), tt)

pub All-bytes :
    {A : Type 0} (f : ℕ) (body : A → List ℕ) (xs : List A)
    → f < 2 ^ 29
    → All (λ x. length (body x) < 2 ^ 31) xs
    → All IsEntry (map (λ x. bytes f (body x)) xs)
unfolding IsEntry
All-bytes f body [] hf h = tt
All-bytes f body (x ∷ xs) hf (h, hs) = ((hf, h), All-bytes f body xs hf hs)
