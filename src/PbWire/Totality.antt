-- ===== src/PbWire/Totality.antt =====
-- `Next` of services/gateway/internal/pbwire/pbwire.go on any input, well formed or not.
use Prim.Native.Nat.{bit_and}
use chain_forge.Common.{
  ℕ, zero, suc, ◌+◌, ◌-◌, ◌/◌, ◌^◌, ◌≤◌, ◌<◌, ◌≡◌, ◌≢◌, refl, arith, ◌∙◌, sym, subst,
}
use chain_forge.Common.{ltb, ◌==◌, if◌then◌else◌, List, [], ◌∷◌, ◌++◌, length, length-append}
use chain_forge.Common.{
  take, some, drop, length-drop, length-take, ◌⊎◌, inl, inr, drop-length_append, Bool, true, false,
  Bool-cases, ◌||◌,
}
use chain_forge.PbWire.{Result, ok, err, panics, stuck, put_varint, get_varint, tag_of}
use chain_forge.PbWire.{after_tag, varint_body, bytes_body, fixed_body, split_at, bytes_at, skip_at}
use chain_forge.PbWire.{
  Field, Read, field, done, Body, whole, skipped, body_of, next_from, next, varint_wire, bytes_wire,
}
use chain_forge.PbWire.{fixed64_wire, fixed32_wire}
use chain_forge.PbWire.Varints.{
  get_varint-put_varint, get_varint_takes, get_varint-ne-stuck, get_varint-ne-panics,
}
use chain_forge.PbWire.Fields.{next_skipped, tag_fits, tag-num, tag-wire, put_varint_longer}

-- What `Next` promises of a field that it returns, with the bytes `rest` left of `b`.
pub record IsField (b : List ℕ) (f : Field) (rest : List ℕ) : Type 0 where
  pub wire : (f.wire ≡ varint_wire) ⊎ (f.wire ≡ bytes_wire)
  pub fits : f.uint < 2 ^ 64
  pub small : length f.raw < 2 ^ 31
  pub shorter : length rest + length f.raw < length b

-- Any outcome of `Next` on `b`.
pub data IsRead (b : List ℕ) : Result Read → Type 0 where
  ended : IsRead b (ok done)
  refused : IsRead b err
  found : (f : Field) (rest : List ℕ) → IsField b f rest → IsRead b (ok (field f rest))

data IsBody (b : List ℕ) : Result Body → Type 0 where
  bad : IsBody b err
  skips : (rest : List ℕ) → length rest ≤ length b → IsBody b (ok (skipped rest))
  gives :
      (f : Field) (rest : List ℕ)
      → (f.wire ≡ varint_wire) ⊎ (f.wire ≡ bytes_wire)
      → f.uint < 2 ^ 64
      → length f.raw < 2 ^ 31
      → length rest + length f.raw ≤ length b
      → IsBody b (ok (whole f rest))

varint_result : (b : List ℕ) → ((p : ℕ × List ℕ) × (get_varint b ≡ ok p)) ⊎ (get_varint b ≡ err)
varint_result b = cases (get_varint b) (get_varint-ne-stuck b) (get_varint-ne-panics b)
  where
    cases :
        (r : Result (ℕ × List ℕ))
        → r ≢ stuck
        → r ≢ panics
        → ((p : ℕ × List ℕ) × (r ≡ ok p)) ⊎ (r ≡ err)
    cases (ok p) h h' = inl (p, refl)
    cases err h h' = inr refl
    cases panics h h' = absurd (h' refl)
    cases stuck h h' = absurd (h refl)

split_fits : (n : ℕ) (b : List ℕ) → n ≤ length b → split_at n b ≡ some (take n b, drop n b)
unfolding split_at
split_fits n b h = ground arith

fixed_body-IsBody : (n : ℕ) (b : List ℕ) → IsBody b (fixed_body n b)
unfolding fixed_body skip_at
fixed_body-IsBody n b = elim (Bool-cases (ltb (length b) n)) [
  | inl e ↦ rw (e, fixed_body) bad
  | inr e ↦
      rw (e, fixed_body, split_fits n b (ground arith), skip_at)
        (skips (drop n b) (omega (arith, length-drop n b)))
]

varint_body-IsBody : (num : ℕ) (b : List ℕ) → IsBody b (varint_body num (get_varint b))
unfolding varint_body
varint_body-IsBody num b = elim (varint_result b) [
  | inl ((u, rest), e) ↦
      let (fits, less, _) = get_varint_takes b u rest e in
      rw (e, varint_body) (gives _ rest (inl refl) fits (omega arith) (omega arith))
  | inr e ↦ rw (e, varint_body) bad
]

bytes_body-IsBody : (num : ℕ) (b : List ℕ) → IsBody b (bytes_body num (get_varint b))
unfolding bytes_body bytes_at
bytes_body-IsBody num b = elim (varint_result b) [
  | inl ((n, rest), e) ↦
      let (fits, less, _) = get_varint_takes b n rest e in
      rw (e, bytes_body)
        (elim (Bool-cases (ltb (length rest) n || ltb (2 ^ 31 - 1) n)) [
          | inl no_room ↦ rw no_room bad
          | inr room ↦
              rw (room, split_fits n rest (ground (arith, room)), bytes_at)
                (gives _ (drop n rest) (inr refl) (omega arith)
                  (ground (arith, room, length-take n rest))
                  (ground (arith, room, length-take n rest, length-drop n rest)))
        ])
  | inr e ↦ rw (e, bytes_body) bad
]

body_of-IsBody : (num wire : ℕ) (b : List ℕ) → IsBody b (body_of num wire b)
unfolding body_of
body_of-IsBody num wire b = choose (wire == varint_wire) (varint_body-IsBody num b) (
    choose (wire == bytes_wire) (bytes_body-IsBody num b) (
      choose (wire == fixed64_wire) (fixed_body-IsBody 8 b)
        (choose (wire == fixed32_wire) (fixed_body-IsBody 4 b) bad)))
  where
    choose :
        (t : Bool) {r s : Result Body} → IsBody b r → IsBody b s → IsBody b (if t then r else s)
    choose true p q = p
    choose false p q = q

IsField-shorter :
    (b c : List ℕ) (f : Field) (rest : List ℕ)
    → length b ≤ length c
    → IsField b f rest
    → IsField c f rest
IsField-shorter b c f rest h v = record {
  wire = v.wire;
  fits = v.fits;
  small = v.small;
  shorter = omega (arith, v.shorter);
}

IsRead-shorter : (b c : List ℕ) {r : Result Read} → length b ≤ length c → IsRead b r → IsRead c r
IsRead-shorter b c h ended = ended
IsRead-shorter b c h refused = refused
IsRead-shorter b c h (found f rest v) = found f rest (IsField-shorter b c f rest h v)

-- One round: the tag has taken a byte at least, and the rounds left suffice for what follows.
after_tag-IsRead :
    (b b' : List ℕ) (more : List ℕ → Result Read) {r : Result Body}
    → length b' < length b
    → ((rest : List ℕ) → length rest < length b → IsRead rest (more rest))
    → IsBody b' r
    → IsRead b (after_tag more r)
unfolding after_tag
after_tag-IsRead b b' more h go bad = refused
after_tag-IsRead b b' more h go (skips rest le) =
    IsRead-shorter rest b (omega arith) (go rest (omega arith))
after_tag-IsRead b b' more h go (gives f rest w fits small le) =
    found f rest (record { wire = w; fits = fits; small = small; shorter = omega arith })

-- On every input and with a round for each byte, the loop of `Next` ends.
next_from-IsRead : (fuel : ℕ) (b : List ℕ) → length b ≤ fuel → IsRead b (next_from fuel b)
unfolding next_from
next_from-IsRead fuel [] h = ended
next_from-IsRead zero (c ∷ b) h = absurd (omega arith)
next_from-IsRead (suc fuel) (c ∷ b) h =
    let more = λ (rest : List ℕ) (le : length rest < suc (length b)).
      next_from-IsRead fuel rest (omega arith) in
    elim (varint_result (c ∷ b)) [
      | inl ((tag, rest), e) ↦
          rw (e, next_from)
            (after_tag-IsRead (c ∷ b) rest (next_from fuel) (get_varint_takes _ tag rest e).1 more
              (body_of-IsBody (tag / 8) (bit_and tag 7) rest))
      | inr e ↦ rw (e, next_from) refused
    ]

-- On every list of bytes `Next` ends without a slice out of range, at the clean end, with
-- `ErrTruncated`, or with a field: a varint below 2 ^ 64 or at most `MaxInt32` bytes, and fewer
-- bytes left than the input had by more than the length of those.
pub next-IsRead : (b : List ℕ) → IsRead b (next b)
unfolding next
next-IsRead b = next_from-IsRead (length b) b (omega arith)

-- More fuel than bytes changes nothing.
next_from_fuel :
    (m n : ℕ) (b : List ℕ) → length b ≤ m → length b ≤ n → next_from m b ≡ next_from n b
unfolding next_from
next_from_fuel m n [] p q = refl
next_from_fuel zero n (c ∷ b) p q = absurd (omega arith)
next_from_fuel (suc m) zero (c ∷ b) p q = absurd (omega arith)
next_from_fuel (suc m) (suc n) (c ∷ b) p q = elim (varint_result (c ∷ b)) [
  | inr e ↦ rw (e, next_from)
  | inl ((tag, rest), e) ↦
      rw (e, next_from)
        (same (get_varint_takes _ tag rest e).1 (body_of-IsBody (tag / 8) (bit_and tag 7) rest)
          (λ r le. next_from_fuel m n r (omega arith) (omega arith)))
]
  where
    same :
        {rest : List ℕ} {r : Result Body}
        → length rest < suc (length b)
        → IsBody rest r
        → ((rest' : List ℕ) → length rest' < suc (length b) → next_from m rest' ≡ next_from n rest')
        → after_tag (next_from m) r ≡ after_tag (next_from n) r
    same h bad eq = refl
    same h (skips rest' le) eq = eq rest' (omega arith)
    same h (gives f rest' w fits small le) eq = refl

fixed_bytes :
    (f n : ℕ) (bytes rest : List ℕ)
    → length bytes ≡ n
    → fixed_body n (bytes ++ rest) ≡ ok (skipped rest)
unfolding fixed_body skip_at
fixed_bytes f n bytes rest e =
    subst (λ k. fixed_body k (bytes ++ rest) ≡ ok (skipped rest)) e
      (ground (
        arith,
        length-append bytes rest,
        drop-length_append bytes rest,
        split_fits (length bytes) (bytes ++ rest),
      ))

skips_on :
    (f wire : ℕ) (bytes rest : List ℕ)
    → f < 2 ^ 29
    → wire < 8
    → body_of f wire (bytes ++ rest) ≡ ok (skipped rest)
    → next (put_varint [] (tag_of f wire) ++ (bytes ++ rest)) ≡ next rest
unfolding next
skips_on f wire bytes rest hf hw e =
    let tag = put_varint [] (tag_of f wire) in
    let b : List ℕ = tag ++ (bytes ++ rest) in
    let sizes = length-append tag (bytes ++ rest) in
    let some_bytes : length b ≡ suc (length b - 1) =
      omega (arith, sizes, put_varint_longer (tag_of f wire) (tag_fits f wire hf hw)) in
    subst (λ k. next_from k b ≡ next rest) (sym some_bytes)
      (next_skipped (length b - 1) (tag_of f wire) b (bytes ++ rest) rest
          (get_varint-put_varint (tag_of f wire) (bytes ++ rest) (tag_fits f wire hf hw))
          (rw (tag-num f wire hf hw, tag-wire f wire hf hw) e)
        ∙ next_from_fuel (length b - 1) (length rest) rest
            (omega (
              arith,
              sizes,
              length-append bytes rest,
              put_varint_longer (tag_of f wire) (tag_fits f wire hf hw),
            ))
            (omega arith))

-- A field of a fixed width, eight or four bytes behind a tag with a field number below 2 ^ 29, is
-- skipped: `Next` returns what it would return on the bytes behind it.
pub next_skips_fixed :
    (f : ℕ) (bytes rest : List ℕ)
    → f < 2 ^ 29
    → (length bytes ≡ 8
        → next (put_varint [] (tag_of f fixed64_wire) ++ (bytes ++ rest)) ≡ next rest)
      × (length bytes ≡ 4
          → next (put_varint [] (tag_of f fixed32_wire) ++ (bytes ++ rest)) ≡ next rest)
next_skips_fixed f bytes rest hf = (
  λ e.
      skips_on f fixed64_wire bytes rest hf (omega arith)
        (unfold body_of in fixed_bytes f 8 bytes rest e),
  λ e.
      skips_on f fixed32_wire bytes rest hf (omega arith)
        (unfold body_of in fixed_bytes f 4 bytes rest e),
)
