-- ===== src/PbWire.antt =====
-- services/gateway/internal/pbwire/pbwire.go: the protobuf wire codec. A buffer is the list of its
-- bytes, and a reader is the list of the bytes that it has not yet read.
pub mod Varints
pub mod Fields
pub mod Totality
pub mod Entries
pub mod Optional
mod Tests
use Prim.Native.Nat.{bit_and, bit_or}
use chain_forge.Common.{
  ℕ, zero, suc, ◌+◌, ◌-◌, ◌*◌, ◌/◌, ◌%◌, ◌^◌, ◌≤◌, ◌<◌, Bool, true, false, ◌||◌,
}
use chain_forge.Common.{
  ltb, leb, ◌==◌, if◌then◌else◌, List, [], ◌∷◌, ◌++◌, length, take, drop, arith, Option, none, some,
}
use chain_forge.Common.Order.{lt_wf}
use mathlib.Core.WellFounded.{Acc}
use mathlib.Core.Logic.{dite}
use native.Mathlib.Decide.{dec_lt}

-- `Varint`, `Fixed64`, `Bytes` and `Fixed32`.
abbrev pub varint_wire : ℕ
varint_wire = 0

abbrev pub fixed64_wire : ℕ
fixed64_wire = 1

abbrev pub bytes_wire : ℕ
bytes_wire = 2

abbrev pub fixed32_wire : ℕ
fixed32_wire = 5

-- `err` is `ErrTruncated` and `panics` a slice out of range; `stuck` is no Go value, it marks a loop
-- that ran out of fuel.
pub data Result {ℓ} (A : Type ℓ) : Type ℓ where
  ok : A → Result A
  err : Result A
  panics : Result A
  stuck : Result A

pub shift_shrinks : (v : ℕ) → 127 < v → v / 128 < v
shift_shrinks v h = omega arith

-- `for v >= 0x80 { append(byte(v)|0x80); v >>= 7 }`, then the last byte.
unfoldable pub put_loop : List ℕ → (v : ℕ) → Acc ◌<◌ v → List ℕ
put_loop w v (Acc.intro _ smaller) =
    dite (dec_lt 127 v)
      (λ more.
        put_loop (w ++ (bit_or (v % 256) 0x80 ∷ [])) (v / 128) (smaller _ (shift_shrinks v more)))
      (λ _. w ++ (v % 256 ∷ []))

unfoldable pub put_varint : List ℕ → ℕ → List ℕ
unfolding put_loop lt_wf dec_lt
put_varint w v = put_loop w v (lt_wf.apply v)

-- `uint64(field)<<3 | wire`
abbrev pub tag_of : ℕ → ℕ → ℕ
tag_of field wire = bit_or (field * 8 % 2 ^ 64) wire

unfoldable pub put_uint : List ℕ → ℕ → ℕ → List ℕ
put_uint w field v = if v == 0 then w else put_varint (put_varint w (tag_of field varint_wire)) v

unfoldable pub put_raw_always : List ℕ → ℕ → List ℕ → List ℕ
put_raw_always w field v = put_varint (put_varint w (tag_of field bytes_wire)) (length v) ++ v

unfoldable pub put_raw : List ℕ → ℕ → List ℕ → List ℕ
put_raw w field v = if length v == 0 then w else put_raw_always w field v

-- One round's `v |= uint64(c&0x7f) << shift`.
abbrev pub add_group : ℕ → ℕ → ℕ → ℕ
add_group v c shift = bit_or v (bit_and c 0x7f * 2 ^ shift % 2 ^ 64)

-- The loop of `varint`, over the rounds left: the shifts are 0, 7, ..., 63.
unfoldable pub get_loop : ℕ → ℕ → ℕ → List ℕ → Result (ℕ × List ℕ)
get_loop zero v shift b = err
get_loop (suc rounds) v shift [] = err
get_loop (suc rounds) v shift (c ∷ rest) =
    let v' = add_group v c shift in
    let more = get_loop rounds v' (shift + 7) rest in if ltb c 0x80 then ok (v', rest) else more

unfoldable pub get_varint : List ℕ → Result (ℕ × List ℕ)
unfolding get_loop
get_varint b = get_loop 10 0 0 b

-- A decoded field; `done` is the clean end.
pub record Field : Type 0 where
  pub num : ℕ
  pub wire : ℕ
  pub uint : ℕ
  pub raw : List ℕ

pub data Read : Type 0 where
  field : Field → List ℕ → Read
  done : Read

-- What follows a tag: the field, or the rest of the bytes behind a skipped one.
pub data Body : Type 0 where
  whole : Field → List ℕ → Body
  skipped : List ℕ → Body

varint_body : ℕ → Result (ℕ × List ℕ) → Result Body
varint_body num (ok (u, rest)) =
    ok (whole (record { num = num; wire = varint_wire; uint = u; raw = [] }) rest)
varint_body num err = err
varint_body num panics = panics
varint_body num stuck = stuck

-- `b[:n]` and `b[n:]`: a number above the length is out of range.
unfoldable pub split_at : ℕ → List ℕ → Option (List ℕ × List ℕ)
split_at n b = if leb n (length b) then some (take n b, drop n b) else none

bytes_at : ℕ → Option (List ℕ × List ℕ) → Result Body
bytes_at num (some (raw, rest)) =
    ok (whole (record { num = num; wire = bytes_wire; uint = 0; raw = raw }) rest)
bytes_at num none = panics

skip_at : Option (List ℕ × List ℕ) → Result Body
skip_at (some (raw, rest)) = ok (skipped rest)
skip_at none = panics

bytes_body : ℕ → Result (ℕ × List ℕ) → Result Body
unfolding split_at bytes_at
bytes_body num (ok (n, rest)) =
    if ltb (length rest) n || ltb (2 ^ 31 - 1) n then err else bytes_at num (split_at n rest)
bytes_body num err = err
bytes_body num panics = panics
bytes_body num stuck = stuck

fixed_body : ℕ → List ℕ → Result Body
unfolding split_at skip_at
fixed_body n b = if ltb (length b) n then err else skip_at (split_at n b)

unfoldable pub body_of : ℕ → ℕ → List ℕ → Result Body
unfolding varint_body bytes_body fixed_body
body_of num wire b =
    if wire == varint_wire
    then varint_body num (get_varint b)
    else if wire == bytes_wire
    then bytes_body num (get_varint b)
    else if wire == fixed64_wire
    then fixed_body 8 b
    else if wire == fixed32_wire
    then fixed_body 4 b
    else err

-- A field is returned, and behind a skipped one the loop goes on.
after_tag : (List ℕ → Result Read) → Result Body → Result Read
after_tag more (ok (whole f rest)) = ok (field f rest)
after_tag more (ok (skipped rest)) = more rest
after_tag more err = err
after_tag more panics = panics
after_tag more stuck = stuck

-- The loop of `Next`, on fuel: each round takes a byte at least.
pub next_from : ℕ → List ℕ → Result Read
unfolding after_tag
next_from fuel [] = ok done
next_from zero (c ∷ b) = stuck
next_from (suc fuel) (c ∷ b) = elim (get_varint (c ∷ b)) [
  | ok (tag, rest) ↦ after_tag (next_from fuel) (body_of (tag / 8) (bit_and tag 7) rest)
  | err ↦ err
  | panics ↦ panics
  | stuck ↦ stuck
]

unfoldable pub next : List ℕ → Result Read
unfolding next_from
next b = next_from (length b) b
