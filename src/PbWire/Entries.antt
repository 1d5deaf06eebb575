-- ===== src/PbWire/Entries.antt =====
-- Whole messages of services/gateway/internal/pbwire/pbwire.go: a list of entries, written one behind
-- the other.
use chain_forge.Common.{ℕ, ◌^◌, ◌≤◌, ◌<◌, ◌≡◌, arith, ◌∙◌, ap, sym, All}
use chain_forge.Common.{List, [], ◌∷◌, ◌++◌, length, append_assoc, append-nil, length-append}
use chain_forge.PbWire.{put_varint, tag_of, put_uint, put_raw_always, ok, Field, field, next}
use chain_forge.PbWire.{varint_wire, bytes_wire}
use chain_forge.PbWire.Fields.{put_uint_bytes, put_raw_bytes, next-put_uint, next-put_raw_always}
use chain_forge.PbWire.Fields.{put_varint_longer, tag_fits}

pub data Entry : Type 0 where
  number : ℕ → ℕ → Entry
  bytes : ℕ → List ℕ → Entry

unfoldable pub put_entry : List ℕ → Entry → List ℕ
put_entry w (number f v) = put_uint w f v
put_entry w (bytes f v) = put_raw_always w f v

unfoldable pub put_entries : List ℕ → List Entry → List ℕ
put_entries w [] = w
put_entries w (e ∷ es) = put_entries (put_entry w e) es

-- What can be written and read back: a number is not 0.
unfoldable pub IsEntry : Entry → Type 0
IsEntry (number f v) = (f < 2 ^ 29) × (0 < v) × (v < 2 ^ 64)
IsEntry (bytes f v) = (f < 2 ^ 29) × (length v < 2 ^ 31)

unfoldable pub field_of : Entry → Field
field_of (number f v) = record { num = f; wire = varint_wire; uint = v; raw = [] }
field_of (bytes f v) = record { num = f; wire = bytes_wire; uint = 0; raw = v }

pub put_entry-append : (w : List ℕ) (e : Entry) → IsEntry e → put_entry w e ≡ w ++ put_entry [] e
unfolding put_entry IsEntry
put_entry-append w (number f v) (hf, pos, h) =
    put_uint_bytes w f v pos h hf ∙ ap (λ t. w ++ t) (sym (put_uint_bytes [] f v pos h hf))
put_entry-append w (bytes f v) (hf, h) =
    put_raw_bytes w f v h hf ∙ ap (λ t. w ++ t) (sym (put_raw_bytes [] f v h hf))

pub put_entries-append :
    (w : List ℕ) (es : List Entry) → All IsEntry es → put_entries w es ≡ w ++ put_entries [] es
unfolding put_entries
put_entries-append w [] h = sym (append-nil w)
put_entries-append w (e ∷ es) (h, hs) =
    put_entries-append (put_entry w e) es hs
    ∙ ap (λ t. t ++ put_entries [] es) (put_entry-append w e h)
    ∙ append_assoc w (put_entry [] e) (put_entries [] es)
    ∙ ap (λ t. w ++ t) (sym (put_entries-append (put_entry [] e) es hs))

-- `Next` reads the first entry and stops behind it.
pub next-put_entries :
    (e : Entry) (es : List Entry)
    → IsEntry e
    → All IsEntry es
    → next (put_entries [] (e ∷ es)) ≡ ok (field (field_of e) (put_entries [] es))
unfolding put_entries put_entry IsEntry field_of
next-put_entries (number f v) es (hf, pos, h) hs =
    ap next (put_entries-append (put_uint [] f v) es hs)
    ∙ next-put_uint f v (put_entries [] es) pos h hf
next-put_entries (bytes f v) es (hf, h) hs =
    ap next (put_entries-append (put_raw_always [] f v) es hs)
    ∙ next-put_raw_always f v (put_entries [] es) h hf

put_entry_longer : (e : Entry) → IsEntry e → 1 ≤ length (put_entry [] e)
unfolding put_entry IsEntry
put_entry_longer (number f v) (hf, pos, h) =
    let tag = put_varint [] (tag_of f varint_wire) in
    rw (put_uint_bytes [] f v pos h hf) (
      omega (
        arith,
        length-append tag (put_varint [] v),
        put_varint_longer (tag_of f varint_wire) (tag_fits f varint_wire hf (omega arith)),
      ))
put_entry_longer (bytes f v) (hf, h) =
    let tag = put_varint [] (tag_of f bytes_wire) in
    rw (put_raw_bytes [] f v h hf) (
      omega (
        arith,
        length-append tag (put_varint [] (length v) ++ v),
        put_varint_longer (tag_of f bytes_wire) (tag_fits f bytes_wire hf (omega arith)),
      ))

pub length-put_entries : (es : List Entry) → All IsEntry es → length es ≤ length (put_entries [] es)
unfolding put_entries
length-put_entries [] h = omega arith
length-put_entries (e ∷ es) (h, hs) = rw (put_entries-append (put_entry [] e) es hs) (
    omega (
      arith,
      length-append (put_entry [] e) (put_entries [] es),
      put_entry_longer e h,
      length-put_entries es hs,
    ))
