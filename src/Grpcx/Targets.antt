-- ===== src/Grpcx/Targets.antt =====
-- services/gateway/internal/grpcx/grpcx.go: what `Dial` makes of a target.
use chain_forge.Common.{ℕ, ◌==◌, Bool, if◌then◌else◌, List, [], ◌∷◌, ◌++◌, Option, none, some}

-- How a client connects: to a unix socket, in clear text, or with the TLS configuration.
pub data Transport : Type 0 where
  unix_socket : List ℕ → Transport
  clear_text with_tls : Transport

pub record Client : Type 0 where
  pub transport : Transport
  pub base : List ℕ

pub data Dialled : Type 0 where
  dialled : Client → Dialled
  no_path no_target no_tls : Dialled

-- What follows a prefix, if a text has it.
unfoldable pub behind : List ℕ → List ℕ → Option (List ℕ)
behind [] s = some s
behind (c ∷ prefix) [] = none
behind (c ∷ prefix) (d ∷ s) = if c == d then behind prefix s else none

-- "unix://", "h2c://", "http://", "https://" and "http://engine.local".
abbrev unix_prefix : List ℕ
unix_prefix = b'u' ∷ b'n' ∷ b'i' ∷ b'x' ∷ b':' ∷ b'/' ∷ b'/' ∷ []

abbrev h2c_prefix : List ℕ
h2c_prefix = b'h' ∷ b'2' ∷ b'c' ∷ b':' ∷ b'/' ∷ b'/' ∷ []

abbrev http_prefix : List ℕ
http_prefix = b'h' ∷ b't' ∷ b't' ∷ b'p' ∷ b':' ∷ b'/' ∷ b'/' ∷ []

abbrev https_prefix : List ℕ
https_prefix = b'h' ∷ b't' ∷ b't' ∷ b'p' ∷ b's' ∷ b':' ∷ b'/' ∷ b'/' ∷ []

abbrev pub engine_local : List ℕ
engine_local =
    http_prefix
    ++ (b'e' ∷ b'n' ∷ b'g' ∷ b'i' ∷ b'n' ∷ b'e' ∷ b'.' ∷ b'l' ∷ b'o' ∷ b'c' ∷ b'a' ∷ b'l' ∷ [])

unfoldable pub dial_unix : List ℕ → Dialled
dial_unix [] = no_path
dial_unix (c ∷ path) = dialled (record { transport = unix_socket (c ∷ path); base = engine_local })

unfoldable pub dial_tcp : Bool → List ℕ → Dialled
dial_tcp has_tls [] = no_target
dial_tcp has_tls (c ∷ target) =
    if has_tls
    then dialled (record { transport = with_tls; base = https_prefix ++ (c ∷ target) })
    else no_tls

unfoldable pub dial : List ℕ → Bool → Dialled
dial target has_tls = elim (behind unix_prefix target) [
  | some path ↦ dial_unix path
  | none ↦ elim (behind h2c_prefix target) [
    | some address ↦ dialled (record { transport = clear_text; base = http_prefix ++ address })
    | none ↦ dial_tcp has_tls target
  ]
]
