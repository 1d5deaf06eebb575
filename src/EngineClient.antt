-- ===== src/EngineClient.antt =====
-- services/gateway/internal/engineclient/engineclient.go: the messages of the simulation engine. A
-- `*big.Int` is `none` for nil or a `ℤ`, an address and a key are lists of bytes, and the `Invoker` is a
-- function over the states `W` of the world outside.
mod Messages
mod Encoding
mod Decoding
pub mod Numbers
pub mod Reading
pub mod Requests
pub mod Refusals
pub mod Parts
pub mod Responses
pub mod Ends
mod Tests
unfoldable pub use Messages.*
unfoldable pub use Encoding.*
unfoldable pub use Decoding.*
use chain_forge.Common.{ℕ, suc, List, [], length, Option, none, some, String}

-- What `Simulate` returns: an error of `Encode`, an error of the call, or what `Decode` makes of the
-- answer.
pub data Simulated : Type 0 where
  unencodable unreachable : Simulated
  answered : Result SimResult → Simulated

module _ {W : Type 0} (invoke : String → List ℕ → W → Option (List ℕ) × W) where
  answer_of : Option (List ℕ) → Simulated
  answer_of none = unreachable
  answer_of (some raw) = answered (decode raw)

  unfoldable pub simulate : SimRequest → W → Simulated × W
  unfolding answer_of
  simulate r w = elim (encode r) [
    | none ↦ (unencodable, w)
    | some req ↦
        let (raw, w') = invoke "/chainforge.engine.v1.Engine/Simulate" req w in (answer_of raw, w')
  ]

  -- `none` is an error of the call.
  unfoldable pub health : W → Option (Result (List ℕ)) × W
  health w =
      let (raw, w') = invoke "/chainforge.engine.v1.Engine/Health" [] w in
      elim raw [ none ↦ (none, w') | some b ↦ (some (version_from (suc (length b)) b), w') ]
