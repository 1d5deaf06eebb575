-- ===== src/SignerClient.antt =====
-- services/gateway/internal/signerclient/signerclient.go: the client of the signer. net/http, the clock,
-- encoding/json and crypto/hmac are the record `Env` over the states `W` of the world outside; texts are
-- lists of bytes.
pub mod Mac
mod Tests
use chain_forge.Common.{ℕ, ◌^◌, ◌==◌, Bool, if◌then◌else◌, List, [], ◌∷◌, ◌++◌, Option, none, some}
use chain_forge.Common.Int.{pos}
use chain_forge.Webhook.{hex}
use chain_forge.Upstream
use chain_forge.Upstream.{read_limited}
use chain_forge.Intent.Text.{decimal_text}

pub record SignRequest : Type 0 where
  pub key_id : List ℕ
  pub message : List ℕ

pub record SignResponse : Type 0 where
  pub address : List ℕ
  pub digest : List ℕ
  pub signature : List ℕ

pub record TxRequest : Type 0 where
  pub key_id : List ℕ
  pub chain_id : ℕ
  pub nonce : ℕ
  pub gas_price : List ℕ
  pub gas_limit : ℕ
  pub to : List ℕ
  pub value : List ℕ
  pub payload : List ℕ

pub record TxResponse : Type 0 where
  pub address : List ℕ
  pub signing_hash : List ℕ
  pub raw_tx : List ℕ
  pub tx_hash : List ℕ

-- `api` is an APIError, with its status and message; `broken` is any other error.
pub data Fault : Type 0 where
  api : ℕ → List ℕ → Fault
  broken : Fault

pub data Result (A : Type 0) : Type 0 where
  ok : A → Result A
  failed : Fault → Result A

pub record HttpRequest : Type 0 where
  pub url : List ℕ
  pub timestamp : List ℕ
  pub signature : List ℕ
  pub body : List ℕ

-- `error_of` is the `error` of a JSON object, empty if there is none.
pub record Env (W : Type 0) : Type 0 where
  pub unix_now : W → ℕ
  pub hmac : List ℕ → List ℕ → List ℕ
  pub new_request : List ℕ → Bool
  pub do_post : HttpRequest → W → Option Upstream.Response × W
  pub error_of : List ℕ → List ℕ
  pub of_sign : SignRequest → List ℕ
  pub of_tx : TxRequest → List ℕ
  pub to_sign : List ℕ → Option SignResponse
  pub to_tx : List ℕ → Option TxResponse

pub record Client : Type 0 where
  pub base_url : List ℕ
  pub secret : List ℕ

-- `ts + "."` and the body.
unfoldable pub mac_message : List ℕ → List ℕ → List ℕ
mac_message ts body = ts ++ (b'.' ∷ body)

module _ {W : Type 0} (env : Env W) (c : Client) where
  -- `MAC`
  unfoldable pub mac : List ℕ → List ℕ → List ℕ → List ℕ
  mac secret ts body = hex (env.hmac secret (mac_message ts body))

  unfoldable pub decoded : {A : Type 0} → Option A → Result A
  decoded none = failed broken
  decoded (some a) = ok a

  unfoldable pub answer_of :
      {A : Type 0} → (List ℕ → Option A) → Option Upstream.Response → Result A
  answer_of decode none = failed broken
  answer_of decode (some r) = elim (read_limited (2 ^ 20) r) [
    | none ↦ failed broken
    | some raw ↦
        if r.status == 200 then decoded (decode raw) else failed (api r.status (env.error_of raw))
  ]

  unfoldable pub request_of : List ℕ → List ℕ → W → HttpRequest
  request_of path body w =
      let ts = decimal_text (pos (env.unix_now w)) in
      record {
        url = c.base_url ++ path;
        timestamp = ts;
        signature = mac c.secret ts body;
        body = body;
      }

  unfoldable pub post : {A : Type 0} → (List ℕ → Option A) → List ℕ → List ℕ → W → Result A × W
  post decode path body w =
      let (r, w') = env.do_post (request_of path body w) w in
      if env.new_request (c.base_url ++ path) then (answer_of decode r, w') else (failed broken, w)

  -- "/v1/sign"
  unfoldable pub sign : SignRequest → W → Result SignResponse × W
  sign r w =
      post env.to_sign (47 ∷ b'v' ∷ b'1' ∷ 47 ∷ b's' ∷ b'i' ∷ b'g' ∷ b'n' ∷ []) (env.of_sign r) w

  -- "/v1/sign-tx"
  unfoldable pub sign_tx : TxRequest → W → Result TxResponse × W
  sign_tx r w =
      post env.to_tx (47 ∷ b'v' ∷ b'1' ∷ 47 ∷ b's' ∷ b'i' ∷ b'g' ∷ b'n' ∷ b'-' ∷ b't' ∷ b'x' ∷ [])
        (env.of_tx r) w
