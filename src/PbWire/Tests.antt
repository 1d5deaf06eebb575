-- ===== src/PbWire/Tests.antt =====
-- Runs of the codec, and its theorems at concrete inputs.
use chain_forge.Common.{◌≡◌, refl, arith, [], ◌∷◌, ◌++◌}
use chain_forge.PbWire.{
  ok, err, put_varint, get_varint, put_uint, put_raw, put_raw_always, next, body_of,
}
use chain_forge.PbWire.Varints.{get_varint-put_varint}
use chain_forge.PbWire.Totality.{IsRead, next-IsRead}

program : Unit {0}
unfolding put_varint get_varint put_uint put_raw put_raw_always next body_of
program = tt

put_300 : put_varint [] 300 ≡ 0xac ∷ 0x02 ∷ []
unfolding program
put_300 = refl

written : put_uint (put_raw [] 2 (b'h' ∷ b'i' ∷ [])) 1 5 ≡ 0x12 ∷ 2 ∷ b'h' ∷ b'i' ∷ 8 ∷ 5 ∷ []
unfolding program
written = refl

cut_off : next (0x12 ∷ 2 ∷ b'h' ∷ []) ≡ err
unfolding program
cut_off = refl

get_varint-put_varint_example : get_varint (put_varint [] 300 ++ (9 ∷ [])) ≡ ok (300, 9 ∷ [])
get_varint-put_varint_example = get_varint-put_varint 300 (9 ∷ []) (omega arith)

padded : get_varint (0x80 ∷ 0x00 ∷ 7 ∷ []) ≡ ok (0, 7 ∷ [])
unfolding program
padded = refl

next-IsRead_example : IsRead (0x12 ∷ 2 ∷ b'h' ∷ []) (next (0x12 ∷ 2 ∷ b'h' ∷ []))
next-IsRead_example = next-IsRead (0x12 ∷ 2 ∷ b'h' ∷ [])
