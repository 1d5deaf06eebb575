-- ===== src/Grpcx.antt =====
-- services/gateway/internal/grpcx/grpcx.go: the framing of a unary call and the reading of its status.
-- net/http is the function that carries a frame, over the states `W` of the world outside; the headers that
-- are read are fields of its answer, and a missing one is empty.
pub mod Frames
pub mod Targets
mod Tests
use chain_forge.Common.{
  ℕ, zero, suc, ◌+◌, ◌*◌, ◌/◌, ◌%◌, ◌^◌, ◌==◌, ◌&&◌, ◌||◌, not, Bool, true, false, ltb,
}
use chain_forge.Common.{if◌then◌else◌, List, [], ◌∷◌, ◌++◌, length, take, Option, none, some}
use chain_forge.Common.Int.{ℤ, pos, negsuc}

abbrev pub max_message : ℕ
max_message = 4 * 2 ^ 20

-- The codes that are made here.
abbrev pub canceled_code : ℤ
canceled_code = pos 1

abbrev pub deadline_code : ℤ
deadline_code = pos 4

abbrev pub unknown_code : ℤ
unknown_code = pos 2

abbrev pub internal_code : ℤ
internal_code = pos 13

abbrev pub unavailable_code : ℤ
unavailable_code = pos 14

pub data Text : Type 0 where
  missing_status malformed_status malformed_frame length_mismatch deadline_passed call_canceled :
      Text
  http_status : ℕ → Text
  told : List ℕ → Text

pub record Status : Type 0 where
  pub code : ℤ
  pub message : Text

-- The answer of the server, with the status and the message of the trailer and of the header.
pub record HttpResponse : Type 0 where
  pub status : ℕ
  pub body : List ℕ
  pub trailer_status : List ℕ
  pub trailer_message : List ℕ
  pub header_status : List ℕ
  pub header_message : List ℕ

-- Why a transport fails: the context's deadline, its cancellation, or else an error with its text.
pub data Cause : Type 0 where
  deadline canceled : Cause
  other : List ℕ → Cause

unfoldable pub ctx_status : Cause → Status
ctx_status deadline = record { code = deadline_code; message = deadline_passed }
ctx_status canceled = record { code = canceled_code; message = call_canceled }
ctx_status (other text) = record { code = unavailable_code; message = told text }

-- `refused` is a request that cannot be made, and `lost` a transport that fails.
pub data Carried : Type 0 where
  refused : List ℕ → Carried
  lost : Cause → Carried
  arrived : HttpResponse → Carried

pub data Result : Type 0 where
  ok : List ℕ → Result
  failed : Status → Result

-- strconv.Atoi, and url.PathUnescape, none for an error.
pub record Texts : Type 0 where
  pub atoi : List ℕ → Option ℤ
  pub unescape : List ℕ → Option (List ℕ)

-- `binary.BigEndian.PutUint32` of the length, and its reading.
unfoldable pub length_bytes : ℕ → List ℕ
length_bytes n = n / 2 ^ 24 % 256 ∷ n / 2 ^ 16 % 256 ∷ n / 2 ^ 8 % 256 ∷ n % 256 ∷ []

unfoldable pub frame : List ℕ → List ℕ
frame req = 0 ∷ (length_bytes (length req) ++ req)

-- The message of a frame.
unfoldable pub message_of : List ℕ → Result
message_of (flag ∷ a ∷ b ∷ c ∷ d ∷ body) =
    let n = a * 2 ^ 24 + b * 2 ^ 16 + c * 2 ^ 8 + d in
    if not (flag == 0)
    then failed (record { code = internal_code; message = malformed_frame })
    else if ltb max_message n || not (n == length body)
    then failed (record { code = internal_code; message = length_mismatch })
    else ok body
message_of _ = failed (record { code = internal_code; message = malformed_frame })

unfoldable pub is_ok : ℤ → Bool
is_ok (pos n) = n == 0
is_ok (negsuc n) = false

module _ (texts : Texts) where
  unfoldable pub unescaped : List ℕ → List ℕ
  unescaped msg = elim (texts.unescape msg) [ none ↦ msg | some t ↦ t ]

  -- What a status and its message make of a body.
  unfoldable pub with_status : List ℕ → List ℕ → List ℕ → Result
  with_status [] msg body = failed (record { code = unknown_code; message = missing_status })
  with_status (c ∷ raw) msg body = elim (texts.atoi (c ∷ raw)) [
    | none ↦ failed (record { code = unknown_code; message = malformed_status })
    | some code ↦
        if is_ok code
        then message_of body
        else failed (record { code = code; message = told (unescaped msg) })
  ]

  -- The trailer goes first; an answer with no body has the status in the headers.
  unfoldable pub status_of : HttpResponse → List ℕ → Result
  status_of r body =
      if length r.trailer_status == 0
      then with_status r.header_status r.header_message body
      else with_status r.trailer_status r.trailer_message body

  -- The answer, of whose body `MaxMessage+5+1` bytes are read.
  unfoldable pub read_response : HttpResponse → Result
  read_response r =
      if not (r.status == 200)
      then failed (record { code = unavailable_code; message = http_status r.status })
      else status_of r (take (max_message + 6) r.body)

  unfoldable pub result_of : Carried → Result
  result_of (refused text) = failed (record { code = internal_code; message = told text })
  result_of (lost cause) = failed (ctx_status cause)
  result_of (arrived r) = read_response r

  -- `Invoke`, over what carries a frame to a method.
  unfoldable pub invoke :
      {W : Type 0} → (List ℕ → List ℕ → W → Carried × W) → List ℕ → List ℕ → W → Result × W
  invoke carry method req w = let (a, w') = carry method (frame req) w in (result_of a, w')
