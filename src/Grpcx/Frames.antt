-- ===== src/Grpcx/Frames.antt =====
-- The frames of services/gateway/internal/grpcx/grpcx.go, written and read.
use chain_forge.Common.{
  ℕ, ◌+◌, ◌*◌, ◌/◌, ◌%◌, ◌^◌, ◌≤◌, ◌==◌, ◌||◌, not, ◌≡◌, refl, ap, ◌∙◌, arith, true, false, ltb,
}
use chain_forge.Common.{
  if◌then◌else◌, List, ◌∷◌, length, take, take_of_length-le, some, Bool-cases, inl, inr,
}
use chain_forge.Common.Int.{pos}
use chain_forge.Grpcx.{
  Texts, HttpResponse, ok, max_message, length_bytes, frame, message_of, is_ok, with_status,
  status_of, read_response,
}

-- A message of at most 4 MiB is read back from its frame.
message_of-frame : (req : List ℕ) → length req ≤ 4 * 2 ^ 20 → message_of (frame req) ≡ ok req
unfolding message_of frame length_bytes
message_of-frame req h =
    let n = length req in
    let sum : n / 2 ^ 24 % 256 * 2 ^ 24
          + n / 2 ^ 16 % 256 * 2 ^ 16
          + n / 2 ^ 8 % 256 * 2 ^ 8
          + n % 256
        ≡ n =
      omega (arith, h) in
    let fits : (ltb max_message n || not (n == n)) ≡ false = ground (arith, h) in
    rw sum (rw (fits, message_of) refl)

length-frame : (req : List ℕ) → length (frame req) ≡ length req + 5
unfolding frame length_bytes
length-frame req = omega arith

-- An answer with HTTP status 200 and a status of 0 in its trailer or, if that has none, in its headers, whose
-- body frames a message of at most 4 MiB, is that message.
pub read_response-frame :
    (texts : Texts) (r : HttpResponse) (m raw : List ℕ) (c : ℕ)
    → r.status ≡ 200
    → r.body ≡ frame m
    → length m ≤ 4 * 2 ^ 20
    → (if length r.trailer_status == 0 then r.header_status else r.trailer_status) ≡ c ∷ raw
    → texts.atoi (c ∷ raw) ≡ some (pos 0)
    → read_response texts r ≡ ok m
unfolding read_response status_of
read_response-frame texts r m raw c is200 framed h status zero_code =
    let fine : (r.status == 200) ≡ true = ground (arith, is200) in
    let whole : take (max_message + 6) r.body ≡ frame m =
      take_of_length-le (max_message + 6) r.body
        (omega (arith, h, ap length framed, length-frame m))
      ∙ framed in
    let read : (msg : List ℕ)
        → with_status texts (c ∷ raw) msg (take (max_message + 6) r.body) ≡ ok m =
      λ msg.
        ap (with_status texts (c ∷ raw) msg) whole
        ∙ (unfold with_status is_ok in rw (zero_code, with_status) (message_of-frame m h)) in
    elim (Bool-cases (length r.trailer_status == 0)) [
      | inl from_header ↦
          let here : r.header_status ≡ c ∷ raw = rw (from_header) at status in
          rw (fine, read_response)
            (rw (from_header, status_of)
              (ap (λ s. with_status texts s r.header_message (take (max_message + 6) r.body)) here
                ∙ read r.header_message))
      | inr from_trailer ↦
          let here : r.trailer_status ≡ c ∷ raw = rw (from_trailer) at status in
          rw (fine, read_response)
            (rw (from_trailer, status_of)
              (ap (λ s. with_status texts s r.trailer_message (take (max_message + 6) r.body)) here
                ∙ read r.trailer_message))
    ]
