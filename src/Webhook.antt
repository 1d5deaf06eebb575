-- ===== src/Webhook.antt =====
-- services/gateway/internal/webhook/webhook.go: the delivery of events to registered endpoints, with
-- retries. net/http, the endpoints and the clock are the record `Env` over the states `W` of the world
-- outside; crypto/hmac over sha256 is its field `hmac`. A text that is sent is the list of its bytes,
-- and a duration holds the 64 bits of the Go value.
pub mod Retry
pub mod Delivery
pub mod Registry
mod Tests
use chain_forge.Common.{
  ℕ, zero, suc, ◌+◌, ◌-◌, ◌*◌, ◌/◌, ◌%◌, ◌^◌, ◌==◌, Bool, true, false, not, ltb, if◌then◌else◌,
}
use chain_forge.Common.{List, [], ◌∷◌, ◌++◌, Option, none, some, String, max}
use chain_forge.Common.Int.{ℤ, clip}

pub record Registration : Type 0 where
  pub id : List ℕ
  pub url : String
  pub secret : List ℕ

-- What is sent: the url, the values of the headers for the event's type and the signature, the body.
pub record Request : Type 0 where
  pub url : String
  pub event : String
  pub signature : List ℕ
  pub body : List ℕ

pub record Env (W : Type 0) : Type 0 where
  pub hmac : List ℕ → List ℕ → List ℕ
  pub new_request : String → List ℕ → Bool
  pub do_post : Request → W → Option ℕ × W
  pub sleep : ℕ → W → W

-- The delivery's settings, of which `New` makes `attempts` at least 1.
pub record Dispatcher : Type 0 where
  pub attempts : ℕ
  pub backoff : ℕ

unfoldable pub new : ℤ → ℕ → Dispatcher
new attempts backoff = record { attempts = max (clip attempts) 1; backoff = backoff }

-- hex.EncodeToString
unfoldable pub hex_digit : ℕ → ℕ
hex_digit d = if ltb d 10 then b'0' + d else b'a' + d - 10

unfoldable pub hex : List ℕ → List ℕ
hex [] = []
hex (b ∷ bs) = hex_digit (b / 16) ∷ hex_digit (b % 16) ∷ hex bs

module _ {W : Type 0} (env : Env W) where
  unfoldable pub sign : List ℕ → List ℕ → List ℕ
  sign secret body = hex (env.hmac secret body)

  abbrev pub request_of : Registration → String → List ℕ → Request
  request_of r typ body = record {
    url = r.url;
    event = typ;
    signature = b's' ∷ b'h' ∷ b'a' ∷ b'2' ∷ b'5' ∷ b'6' ∷ b'=' ∷ sign r.secret body;
    body = body;
  }

  -- Whether the error is nil.
  unfoldable pub accepted : Option ℕ → Bool
  accepted none = false
  accepted (some status) = status / 100 == 2

  unfoldable pub post : Registration → String → List ℕ → W → Bool × W
  post r typ body w =
      let (answer, w') = env.do_post (request_of r typ body) w in
      if env.new_request r.url body then (accepted answer, w') else (false, w)

  -- The attempts for one registration: those left, and the wait behind the next one if it fails. With
  -- none left at the start the error is nil.
  unfoldable pub attempt : ℕ → ℕ → Registration → String → List ℕ → W → Bool × W
  attempt zero wait r typ body w = (true, w)
  attempt (suc left) wait r typ body w =
      let (done, w') = post r typ body w in
      let again = attempt left (wait * 2 % 2 ^ 64) r typ body (env.sleep wait w') in
      if done then (true, w') else if left == 0 then (false, w') else again

  -- The loop of `Deliver` over the registrations, with the counts so far.
  unfoldable pub deliver_to :
      Dispatcher → String → List ℕ → List Registration → ℕ → ℕ → W → ℕ × ℕ × W
  deliver_to d typ body [] ok failed w = (ok, failed, w)
  deliver_to d typ body (r ∷ rs) ok failed w =
      let (done, w') = attempt d.attempts d.backoff r typ body w in
      if done
      then deliver_to d typ body rs (ok + 1) failed w'
      else deliver_to d typ body rs ok (failed + 1) w'

  -- `Deliver` on the body that encoding/json makes of the event and the registrations of `List`.
  unfoldable pub deliver : Dispatcher → String → List ℕ → List Registration → W → ℕ × ℕ × W
  deliver d typ body rs w = deliver_to d typ body rs 0 0 w
