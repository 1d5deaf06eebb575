-- ===== src/JsonRpc.antt =====
-- services/gateway/internal/jsonrpc/jsonrpc.go: the framing of JSON-RPC 2.0, one request or a batch.
-- encoding/json is the record `Json`; a raw message and a body are the list of their bytes. A handler
-- acts on the states `S` of the service behind it.
pub mod Served
mod Tests
use chain_forge.Common.{
  ℕ, zero, suc, ◌==◌, ◌*◌, ◌^◌, Bool, true, false, ◌&&◌, ◌||◌, not, ltb, leb, str_eq,
}
use chain_forge.Common.{if◌then◌else◌, List, [], ◌∷◌, length, reverse, Option, none, some, String}
use chain_forge.Common.Int.{ℤ, negsuc}

pub record Request : Type 0 where
  pub jsonrpc : String
  pub method : String
  pub params : List ℕ
  pub id : List ℕ

pub record Error : Type 0 where
  pub code : ℤ
  pub message : String

pub record Response : Type 0 where
  pub jsonrpc : String
  pub result : List ℕ
  pub error : Option Error
  pub id : List ℕ

-- json.Unmarshal into one request and into a list of them.
pub record Json : Type 0 where
  pub one : List ℕ → Option Request
  pub many : List ℕ → Option (List Request)

-- -32700, -32600
abbrev pub code_parse : ℤ
code_parse = negsuc 32699

abbrev pub code_invalid_request : ℤ
code_invalid_request = negsuc 32599

-- -32603
abbrev pub code_internal : ℤ
code_internal = negsuc 32602

-- -32005, -32002
abbrev pub code_rate_limited : ℤ
code_rate_limited = negsuc 32004

abbrev pub code_upstream : ℤ
code_upstream = negsuc 32001

abbrev pub max_batch : ℕ
max_batch = 100

unfoldable pub norm_id : List ℕ → List ℕ
norm_id [] = b'n' ∷ b'u' ∷ b'l' ∷ b'l' ∷ []
norm_id (c ∷ id) = c ∷ id

unfoldable pub fail : List ℕ → ℤ → String → Response
fail id code msg = record {
  jsonrpc = "2.0";
  result = [];
  error = some (record { code = code; message = msg });
  id = norm_id id;
}

-- What json.Marshal makes of a value: its text, or the text of the error.
pub data Marshalled : Type 0 where
  encoded : List ℕ → Marshalled
  unencodable : String → Marshalled

-- The function `OK`, for the identifier and the marshalled value.
unfoldable pub ok_response : List ℕ → Marshalled → Response
ok_response id (encoded b) = record { jsonrpc = "2.0"; result = b; error = none; id = norm_id id }
ok_response id (unencodable text) = fail id code_internal text

-- The white space of bytes.TrimSpace, by the length of its UTF-8 encoding.
white1 : ℕ → Bool
white1 a = (leb 9 a && leb a 13) || a == 32

white2 : ℕ → ℕ → Bool
white2 a b = a == 0xc2 && (b == 0x85 || b == 0xa0)

white3 : ℕ → ℕ → ℕ → Bool
white3 a b c =
    (a == 0xe1 && b == 0x9a && c == 0x80)
    || (a == 0xe2
        && b == 0x80
        && ((leb 0x80 c && leb c 0x8a) || c == 0xa8 || c == 0xa9 || c == 0xaf))
    || (a == 0xe2 && b == 0x81 && c == 0x9f)
    || (a == 0xe3 && b == 0x80 && c == 0x80)

trim_left : List ℕ → List ℕ
trim_left [] = []
trim_left (a ∷ []) = if white1 a then [] else a ∷ []
trim_left (a ∷ b ∷ []) =
    let rest = trim_left (b ∷ []) in
    if white1 a then rest else if white2 a b then [] else a ∷ b ∷ []
trim_left (a ∷ b ∷ c ∷ bs) =
    let rest = trim_left (b ∷ c ∷ bs) in
    let rest2 = trim_left (c ∷ bs) in
    let rest3 = trim_left bs in
    if white1 a
    then rest
    else if white2 a b
    then rest2
    else if white3 a b c
    then rest3
    else a ∷ b ∷ c ∷ bs

-- The same on the reversed bytes.
trim_back : List ℕ → List ℕ
trim_back [] = []
trim_back (c ∷ []) = if white1 c then [] else c ∷ []
trim_back (c ∷ b ∷ []) =
    let rest = trim_back (b ∷ []) in
    if white1 c then rest else if white2 b c then [] else c ∷ b ∷ []
trim_back (c ∷ b ∷ a ∷ bs) =
    let rest = trim_back (b ∷ a ∷ bs) in
    let rest2 = trim_back (a ∷ bs) in
    let rest3 = trim_back bs in
    if white1 c
    then rest
    else if white2 b c
    then rest2
    else if white3 a b c
    then rest3
    else c ∷ b ∷ a ∷ bs

unfoldable pub trim_space : List ℕ → List ℕ
unfolding white1 white2 white3 trim_left trim_back
trim_space body = reverse (trim_back (reverse (trim_left body)))

-- The requests of a body and whether they came as a batch, or the error.
pub data Decoded : Type 0 where
  refused : ℤ → String → Decoded
  requests : List Request → Bool → Decoded

batch_of : Option (List Request) → Decoded
batch_of none = refused code_parse "parse error"
batch_of (some reqs) =
    if length reqs == 0
    then refused code_invalid_request "empty batch"
    else if ltb max_batch (length reqs)
    then refused code_invalid_request "batch too large"
    else requests reqs true

single_of : Option Request → Decoded
single_of none = refused code_parse "parse error"
single_of (some r) = requests (r ∷ []) false

decode_trimmed : Json → List ℕ → Decoded
decode_trimmed json [] = refused code_invalid_request "empty body"
decode_trimmed json (c ∷ t) =
    if c == b'[' then batch_of (json.many (c ∷ t)) else single_of (json.one (c ∷ t))

unfoldable pub decode : Json → List ℕ → Decoded
unfolding batch_of single_of decode_trimmed
decode json body = decode_trimmed json (trim_space body)

-- What is encoded as the reply.
pub data Reply : Type 0 where
  array : List Response → Reply
  object : Response → Reply
  panics : Reply

module _ {S : Type 0} (json : Json) (h : Request → S → Response × S) where
  -- The loop of `Serve`: a handler is called for the valid requests, in their order.
  unfoldable pub serve_each : List Request → S → List Response × S
  serve_each [] s = ([], s)
  serve_each (q ∷ qs) s =
      let bad = not (str_eq q.jsonrpc "2.0") || str_eq q.method "" in
      let (first, s') : Response × S =
        if bad then (fail q.id code_invalid_request "invalid request", s) else h q s in
      let (out, s'') = serve_each qs s' in (first ∷ out, s'')

  unfoldable pub reply_of : Bool → List Response → Reply
  reply_of true out = array out
  reply_of false (r ∷ _) = object r
  reply_of false [] = panics

  -- `Serve` on the body, or on an error of reading it, such as a body of more than 2 ^ 20 bytes.
  unfoldable pub serve : Option (List ℕ) → S → Reply × S
  unfolding reply_of
  serve none s = (object (fail [] code_invalid_request "body too large"), s)
  serve (some body) s = elim (decode json body) [
    | refused code msg ↦ (object (fail [] code msg), s)
    | requests reqs batch ↦ let (out, s') = serve_each reqs s in (reply_of batch out, s')
  ]
