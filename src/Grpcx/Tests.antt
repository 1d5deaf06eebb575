-- ===== src/Grpcx/Tests.antt =====
-- An answer with its status in the trailer, and the theorem there.
use chain_forge.Common.{◌≡◌, refl, arith, false, [], ◌∷◌, some, none, ◌==◌, if◌then◌else◌}
use chain_forge.Common.Int.{pos}
use chain_forge.Grpcx.{
  Texts, HttpResponse, ok, failed, frame, length_bytes, message_of, read_response, internal_code,
  length_mismatch,
}
use chain_forge.Grpcx.Targets.{
  dial, dial_unix, dial_tcp, behind, dialled, unix_socket, no_tls, engine_local,
}
use chain_forge.Grpcx.Frames.{read_response-frame}

-- A reader that knows the digit 0.
abbrev texts : Texts
texts = record {
  atoi = λ s. elim s [ [] ↦ none | (c ∷ _) ↦ if c == b'0' then some (pos 0) else none ];
  unescape = λ s. some s;
}

abbrev response : HttpResponse
response = record {
  status = 200;
  body = 0 ∷ 0 ∷ 0 ∷ 0 ∷ 2 ∷ 7 ∷ 9 ∷ [];
  trailer_status = b'0' ∷ [];
  trailer_message = [];
  header_status = [];
  header_message = [];
}

framed : response.body ≡ frame (7 ∷ 9 ∷ [])
unfolding frame length_bytes
framed = refl

read_response-frame_example : read_response texts response ≡ ok (7 ∷ 9 ∷ [])
read_response-frame_example =
    read_response-frame texts response (7 ∷ 9 ∷ []) [] b'0' refl framed (omega arith) refl refl

cut_short :
    message_of (0 ∷ 0 ∷ 0 ∷ 0 ∷ 2 ∷ 7 ∷ [])
    ≡ failed (record { code = internal_code; message = length_mismatch })
unfolding message_of
cut_short = refl

dialled_socket :
    dial (b'u' ∷ b'n' ∷ b'i' ∷ b'x' ∷ b':' ∷ b'/' ∷ b'/' ∷ b'/' ∷ b'e' ∷ []) false
    ≡ dialled (record { transport = unix_socket (b'/' ∷ b'e' ∷ []); base = engine_local })
unfolding dial dial_unix behind
dialled_socket = refl

tcp_wants_tls : dial (b'e' ∷ b':' ∷ b'1' ∷ []) false ≡ no_tls
unfolding dial dial_tcp behind
tcp_wants_tls = refl
