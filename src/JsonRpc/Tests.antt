-- ===== src/JsonRpc/Tests.antt =====
-- A batch with an invalid request, and the theorems there.
use chain_forge.Common.{ℕ, ◌+◌, ◌≤◌, ◌≡◌, refl, arith, true, str_eq, reverse, reverse_onto}
use chain_forge.Common.{List, [], ◌∷◌, none, some}
use chain_forge.JsonRpc.{
  Request, Response, Json, requests, refused, norm_id, fail, trim_space, decode, serve_each, serve,
}
use chain_forge.JsonRpc.{code_invalid_request, code_internal, ok_response, unencodable}
use chain_forge.JsonRpc.Served.{IsAnswer, serve-cost}

program : Unit {0}
unfolding norm_id fail trim_space decode serve_each serve IsAnswer str_eq reverse reverse_onto
program = tt

abbrev good : Request
good = record { jsonrpc = "2.0"; method = "eth_chainId"; params = []; id = b'7' ∷ [] }

abbrev bad : Request
bad = record { jsonrpc = "1.0"; method = "eth_chainId"; params = []; id = [] }

-- A decoder that knows two texts.
abbrev json : Json
json = record { one = λ t. some good; many = λ t. some (good ∷ bad ∷ []) }

-- The handler counts its calls.
abbrev handler : Request → ℕ → Response × ℕ
handler q s =
    (record { jsonrpc = "2.0"; result = b'1' ∷ []; error = none; id = norm_id q.id }, s + 1)

-- A blank, a bracket and a line feed, with a line separator behind.
abbrev body : List ℕ
body = 32 ∷ b'[' ∷ 10 ∷ 0xe2 ∷ 0x80 ∷ 0xa8 ∷ []

trimmed : trim_space body ≡ b'[' ∷ []
unfolding program
trimmed = refl

blank : decode json (32 ∷ 0xc2 ∷ 0xa0 ∷ []) ≡ refused code_invalid_request "empty body"
unfolding program
blank = refl

decoded : decode json body ≡ requests (good ∷ bad ∷ []) true
unfolding program
decoded = refl

called_once : (serve json handler (some body) 0).1 ≡ 1
unfolding program
called_once = refl

serve-cost_example : (serve json handler (some body) 5).1 ≤ 5 + 100
serve-cost_example = serve-cost json handler (λ s. s) (λ q s. omega arith) (some body) 5

not_encoded :
    (ok_response [] (unencodable "bad value")).error
    ≡ some (record { code = code_internal; message = "bad value" })
unfolding program ok_response
not_encoded = refl
