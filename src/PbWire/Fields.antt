-- ===== src/PbWire/Fields.antt =====
-- The fields of services/gateway/internal/pbwire/pbwire.go: `Next` reads what the writers wrote.
use Prim.Native.Nat.{bit_and}
use chain_forge.Common.{
  ℕ, suc, ◌+◌, ◌-◌, ◌*◌, ◌/◌, ◌%◌, ◌^◌, ◌≤◌, ◌<◌, ◌≡◌, refl, arith, ◌∙◌, ap, sym, subst,
}
use chain_forge.Common.{==_ne, List, [], ◌∷◌, ◌++◌, length, append_assoc, length-append}
use chain_forge.Common.{take, drop, take-length_append, drop-length_append}
use chain_forge.Common.Bits.{bit_or_disjoint, bit_or_comm, bit_and_seven}
use chain_forge.PbWire.{ok, err, split_at, put_varint, get_varint, tag_of, put_uint, put_raw_always}
use chain_forge.PbWire.{
  Field, field, whole, skipped, body_of, next_from, next, varint_wire, bytes_wire,
}
use chain_forge.PbWire.Varints.{put_varint-groups, length-groups, get_varint-put_varint}

put_varint-append : (w : List ℕ) (v : ℕ) → v < 2 ^ 64 → put_varint w v ≡ w ++ put_varint [] v
put_varint-append w v h = rw (put_varint-groups w v h, put_varint-groups [] v h)

pub put_varint_longer : (v : ℕ) → v < 2 ^ 64 → 1 ≤ length (put_varint [] v)
put_varint_longer v h = rw (put_varint-groups [] v h) (omega (arith, length-groups 9 v))

tag_sum : (f wire : ℕ) → f < 2 ^ 29 → wire < 8 → tag_of f wire ≡ f * 8 + wire
tag_sum f wire hf hw =
    let small : f * 8 % 2 ^ 64 ≡ f * 2 ^ 3 = omega arith in
    rw (small, bit_or_comm) (bit_or_disjoint 3 wire f hw ∙ omega arith)

pub tag_fits : (f wire : ℕ) → f < 2 ^ 29 → wire < 8 → tag_of f wire < 2 ^ 64
tag_fits f wire hf hw = rw (tag_sum f wire hf hw) (omega arith)

pub tag-wire : (f wire : ℕ) → f < 2 ^ 29 → wire < 8 → bit_and (tag_of f wire) 7 ≡ wire
tag-wire f wire hf hw = rw (tag_sum f wire hf hw, bit_and_seven) (omega arith)

pub tag-num : (f wire : ℕ) → f < 2 ^ 29 → wire < 8 → tag_of f wire / 8 ≡ f
tag-num f wire hf hw = rw (tag_sum f wire hf hw) (omega arith)

get_varint-nil : get_varint [] ≡ err
unfolding get_varint
get_varint-nil = refl

-- A round of the loop of `Next`, by what follows the tag.
next_whole :
    (fuel tag : ℕ) (b rest rest' : List ℕ) (f : Field)
    → get_varint b ≡ ok (tag, rest)
    → body_of (tag / 8) (bit_and tag 7) rest ≡ ok (whole f rest')
    → next_from (suc fuel) b ≡ ok (field f rest')
unfolding next_from
next_whole fuel tag [] rest rest' f e e' = absurd (ground (arith, get_varint-nil, e))
next_whole fuel tag (c ∷ b) rest rest' f e e' = rw (e, next_from) (rw (e', next_from))

pub next_skipped :
    (fuel tag : ℕ) (b rest rest' : List ℕ)
    → get_varint b ≡ ok (tag, rest)
    → body_of (tag / 8) (bit_and tag 7) rest ≡ ok (skipped rest')
    → next_from (suc fuel) b ≡ next_from fuel rest'
unfolding next_from
next_skipped fuel tag [] rest rest' e e' = absurd (ground (arith, get_varint-nil, e))
next_skipped fuel tag (c ∷ b) rest rest' e e' = rw (e, next_from) (rw (e', next_from))

-- The same for the bytes of a tag.
next-tag :
    (f wire : ℕ) (body rest' : List ℕ) (fl : Field)
    → f < 2 ^ 29
    → wire < 8
    → body_of f wire body ≡ ok (whole fl rest')
    → next (put_varint [] (tag_of f wire) ++ body) ≡ ok (field fl rest')
unfolding next
next-tag f wire body rest' fl hf hw e =
    let tag = put_varint [] (tag_of f wire) in
    let n = length (tag ++ body) in
    let some_bytes : n ≡ suc (n - 1) =
      omega (
        arith,
        length-append tag body,
        put_varint_longer (tag_of f wire) (tag_fits f wire hf hw),
      ) in
    subst (λ k. next_from k (tag ++ body) ≡ ok (field fl rest')) (sym some_bytes)
      (next_whole (n - 1) (tag_of f wire) (tag ++ body) body rest' fl
        (get_varint-put_varint (tag_of f wire) body (tag_fits f wire hf hw))
        (rw (tag-num f wire hf hw, tag-wire f wire hf hw) e))

body_varint :
    (f v : ℕ) (b rest : List ℕ)
    → get_varint b ≡ ok (v, rest)
    → body_of f varint_wire b
      ≡ ok (whole (record { num = f; wire = varint_wire; uint = v; raw = [] }) rest)
unfolding body_of
body_varint f v b rest e = ground (arith, e)

body_bytes :
    (f n : ℕ) (b rest : List ℕ)
    → get_varint b ≡ ok (n, rest)
    → n ≤ length rest
    → n < 2 ^ 31
    → body_of f bytes_wire b
      ≡ ok
          (whole (record { num = f; wire = bytes_wire; uint = 0; raw = take n rest }) (drop n rest))
unfolding body_of split_at
body_bytes f n b rest e fits small = ground (arith, e)

pub put_uint_bytes :
    (w : List ℕ) (f v : ℕ)
    → 0 < v
    → v < 2 ^ 64
    → f < 2 ^ 29
    → put_uint w f v ≡ w ++ (put_varint [] (tag_of f varint_wire) ++ put_varint [] v)
unfolding put_uint
put_uint_bytes w f v pos h hf = rw (==_ne v 0 (omega arith)) (
    put_varint-append _ v h
    ∙ ap (λ t. t ++ put_varint [] v)
        (put_varint-append w _ (tag_fits f varint_wire hf (omega arith)))
    ∙ append_assoc w _ _)

pub put_raw_bytes :
    (w : List ℕ) (f : ℕ) (v : List ℕ)
    → length v < 2 ^ 31
    → f < 2 ^ 29
    → put_raw_always w f v
      ≡ w ++ (put_varint [] (tag_of f bytes_wire) ++ (put_varint [] (length v) ++ v))
unfolding put_raw_always
put_raw_bytes w f v h hf =
    ap (λ t. t ++ v) (put_varint-append _ (length v) (omega arith))
    ∙ ap (λ t. (t ++ put_varint [] (length v)) ++ v)
        (put_varint-append w _ (tag_fits f bytes_wire hf (omega arith)))
    ∙ ap (λ t. t ++ v) (append_assoc w _ _)
    ∙ append_assoc w _ _
    ∙ ap (λ t. w ++ t) (append_assoc _ _ v)

-- For field numbers below 2 ^ 29: what `Uint` appends for a number other than 0 and below 2 ^ 64 is
-- read back by `Next` as that field, and `Next` stops exactly where the field ends.
pub next-put_uint :
    (f v : ℕ) (rest : List ℕ)
    → 0 < v
    → v < 2 ^ 64
    → f < 2 ^ 29
    → next (put_uint [] f v ++ rest)
      ≡ ok (field (record { num = f; wire = varint_wire; uint = v; raw = [] }) rest)
next-put_uint f v rest pos h hf =
    let fl : Field = record { num = f; wire = varint_wire; uint = v; raw = [] } in
    let body : List ℕ = put_varint [] v ++ rest in
    rw (put_uint_bytes [] f v pos h hf) (
      ap next (append_assoc (put_varint [] (tag_of f varint_wire)) (put_varint [] v) rest)
      ∙ next-tag f varint_wire body rest fl hf (omega arith)
          (body_varint f v body rest (get_varint-put_varint v rest h)))

-- For field numbers below 2 ^ 29 and fewer than 2 ^ 31 bytes: what `RawAlways` appends is read back
-- by `Next` as that field with those bytes, none included, and `Next` stops exactly where the
-- field ends.
pub next-put_raw_always :
    (f : ℕ) (v rest : List ℕ)
    → length v < 2 ^ 31
    → f < 2 ^ 29
    → next (put_raw_always [] f v ++ rest)
      ≡ ok (field (record { num = f; wire = bytes_wire; uint = 0; raw = v }) rest)
next-put_raw_always f v rest h hf =
    let fl : Field = record { num = f; wire = bytes_wire; uint = 0; raw = v } in
    let size : List ℕ = put_varint [] (length v) in
    let body : List ℕ = size ++ (v ++ rest) in
    rw (put_raw_bytes [] f v h hf) (
      ap next (append_assoc (put_varint [] (tag_of f bytes_wire)) (size ++ v) rest)
      ∙ ap (λ t. next (put_varint [] (tag_of f bytes_wire) ++ t)) (append_assoc size v rest)
      ∙ next-tag f bytes_wire body rest fl hf (omega arith) (
          rw (take-length_append v rest, drop-length_append v rest) at
            (body_bytes f (length v) body (v ++ rest)
              (get_varint-put_varint (length v) (v ++ rest) (omega arith))
              (omega (arith, length-append v rest)) h)))
