-- ===== src/Intent/Predicted.antt =====
-- That the transaction which services/gateway/internal/intent/intent.go prepares is the one that it
-- simulated.
use chain_forge.Common.{ℕ, ◌*◌, ◌/◌, ◌%◌, ◌^◌, ◌≤◌, ◌==◌, ◌≡◌, ◌≢◌, refl, ap, max, arith}
use chain_forge.Common.{if◌then◌else◌, List, [], ◌∷◌, Option, none, some}
use chain_forge.Common.Int.{ℤ, pos, negsuc}
use chain_forge.Rpcx.{Node}
use chain_forge.EngineClient
use chain_forge.EngineClient.{
  Account, SimRequest, SimResult, Simulated, answered, Outcome, success, revert, halt, unset,
}
use chain_forge.EngineClient.Requests.{IsWord}
use chain_forge.Intent.{Param, Prepared, Decoders, account, price_of, simulated}
use chain_forge.Intent.{sim_request, final_tx, final_gas, result_of, prepare_checked, prepare_evm}
use chain_forge.Intent.Steps.{
  Invalid, bad_gas_price, ok, lift, Returns, bind-Returns, lift-Returns, ◌>>=◌,
}
use chain_forge.Intent.Text.{decimal_text, set_string}
use chain_forge.Intent.Checks.{EvmRequest, Checked, check, decimal, unsigned_word}
use chain_forge.Intent.Views.{with_0x}
use chain_forge.Intent.Shown.{
  IsShown, IsShownAddress, hex_text, view-IsShown, created_text-IsShownAddress,
}
use chain_forge.Intent.Sound.{IsChecked, check-IsChecked, decimal-IsWord}

-- What the engine was asked and answered, and that the transaction is the one that it was asked for.
pub record IsPredicted {W : Type 0} (simulate : SimRequest → W → Simulated × W) (max_gas : ℕ)
    (r : EvmRequest) (p : Prepared) : Type 0 where
  pub request : SimRequest
  pub world : W
  pub result : SimResult
  pub value : ℤ
  pub answer : (simulate request world).0 ≡ answered (EngineClient.ok result)
  pub simulation : IsShown result p.simulation
  pub chain_id : (p.tx.chain_id ≡ request.chain_id) × (request.chain_id ≡ r.chain_id)
  pub recipient : IsShownAddress request.to p.tx.to
  pub value_is : request.value ≡ some value
  pub value_text : p.tx.value ≡ decimal_text value
  pub payload : p.tx.payload ≡ hex_text request.payload
  pub gas_ran :
      result.outcome ≡ success → p.tx.gas_limit ≡ max 21000 (result.gas_used * 12 % 2 ^ 64 / 10)
  pub gas_failed : result.outcome ≢ success → p.tx.gas_limit ≡ request.gas_limit
  pub price : ℤ
  pub price_text : p.tx.gas_price ≡ decimal_text price
  pub price_given :
      r.gas_price ≢ [] → (set_string 10 r.gas_price ≡ some price) × IsWord (some price)
  pub gas_asked : request.gas_limit ≤ max_gas
  pub gas_free : request.gas_price ≡ some (pos 0)
  pub word : IsWord request.value
  pub sender : Account
  pub others : List Account
  pub state : request.state ≡ sender ∷ others
  pub nonce : p.tx.nonce ≡ sender.nonce
  pub sender_is : sender.address ≡ request.from

simulated-answered :
    {W : Type 0} (simulate : SimRequest → W → Simulated × W) (r : SimRequest) (w : W)
    (res : SimResult)
    → (simulated simulate r w).0 ≡ ok res
    → (simulate r w).0 ≡ answered (EngineClient.ok res)
unfolding simulated result_of
simulated-answered simulate r w res e = cases (simulate r w).0 e
  where
    cases : (s : Simulated) → result_of s ≡ ok res → s ≡ answered (EngineClient.ok res)
    cases (answered (EngineClient.ok x)) e =
        let same : x ≡ res = cc e in ap (λ x. answered (EngineClient.ok x)) same
    cases (answered (EngineClient.failed x)) e = absurd (cc e)
    cases (answered EngineClient.stuck) e = absurd (cc e)
    cases EngineClient.unencodable e = absurd (cc e)
    cases EngineClient.unreachable e = absurd (cc e)

final_gas-ran :
    (o : Outcome) (limit used : ℕ)
    → o ≡ success
    → final_gas o limit used ≡ max 21000 (used * 12 % 2 ^ 64 / 10)
unfolding final_gas
final_gas-ran o limit used is = rw is refl

final_gas-failed : (o : Outcome) (limit used : ℕ) → o ≢ success → final_gas o limit used ≡ limit
unfolding final_gas
final_gas-failed success limit used apart = absurd (apart refl)
final_gas-failed revert limit used apart = refl
final_gas-failed halt limit used apart = refl
final_gas-failed unset limit used apart = refl

decimal-read :
    (field : Invalid) (c : ℕ) (s : List ℕ) (v : ℤ)
    → decimal field (c ∷ s) ≡ ok v
    → set_string 10 (c ∷ s) ≡ some v
unfolding decimal unsigned_word
decimal-read field c s v e = read (set_string 10 (c ∷ s)) e
  where
    read : (o : Option ℤ) → unsigned_word field o ≡ ok v → o ≡ some v
    read none e = absurd (cc e)
    read (some (negsuc n)) e = absurd (cc e)
    read (some (pos n)) e = ground (arith, e)

module _ {W : Type 0} (node : Node Param W) (dec : Decoders) where
  account-Returns : (a : List ℕ) → Returns (λ acct. acct.address ≡ a) (account node dec a)
  unfolding account
  account-Returns a = bind-Returns _ _ _ (λ bal w0 _. bind-Returns _ _ _ (λ nonce w1 _.
      bind-Returns _ _ _ (λ code w2 _. bind-Returns _ _ _ (λ cb w3 _. lift-Returns _ _ _ refl))))

  -- The caller's price, if it gives one.
  price_of-Returns :
      (s : List ℕ)
      → Returns
          (λ price. s ≢ [] → (set_string 10 s ≡ some price) × IsWord (some price))
          (price_of node dec s)
  unfolding price_of Returns
  price_of-Returns [] w price e given = absurd (given refl)
  price_of-Returns (c ∷ s) w price e given =
      let read : decimal bad_gas_price (c ∷ s) ≡ ok price = cc e in
      (decimal-read bad_gas_price c s price read, decimal-IsWord bad_gas_price (c ∷ s) price read)

  prepare_checked-Returns :
      (simulate : SimRequest → W → Simulated × W) (max_gas : ℕ) (r : EvmRequest) (c : Checked)
      → IsChecked max_gas c
      → Returns (IsPredicted simulate max_gas r) (prepare_checked node dec simulate r c)
  unfolding prepare_checked sim_request final_tx
  prepare_checked-Returns simulate max_gas r c checked = bind-Returns _ _ _ (λ price w0 given.
      bind-Returns _ _ _ (λ head w1 _. bind-Returns _ _ _ (λ (number, stamp) w2 _.
        bind-Returns _ _ _ (λ sender w3 is_sender. bind-Returns _ _ _ (λ more w4 _.
          bind-Returns _ _ _ (λ res w5 ran. lift-Returns _ _ _ (record {
            request = sim_request r.chain_id c (number, stamp) (sender ∷ more);
            world = w5;
            result = res;
            value = c.value;
            answer = simulated-answered simulate _ w5 res ran;
            simulation = view-IsShown res;
            chain_id = (refl, refl);
            recipient = created_text-IsShownAddress c.to;
            value_is = refl;
            value_text = refl;
            payload = unfold with_0x in refl;
            gas_ran = final_gas-ran res.outcome c.gas_limit res.gas_used;
            gas_failed = final_gas-failed res.outcome c.gas_limit res.gas_used;
            price = price;
            price_text = refl;
            price_given = unfold Returns in price_of-Returns r.gas_price w0 price given;
            gas_asked = checked.gas_limit;
            gas_free = refl;
            word = checked.value;
            sender = sender;
            others = more;
            state = refl;
            nonce = refl;
            sender_is = unfold Returns in account-Returns c.from w3 sender is_sender;
          })))))))

  -- Whatever the node and the engine answer: a transaction that is returned is the one that the engine
  -- was asked for (chain, recipient, unsigned value of 256 bits, payload), on the sender's account with
  -- its nonce; the engine was asked at no price for gas and with no more gas than the ceiling. Its gas
  -- is 12 tenths of what a successful run used (as uint64), at least 21000, and else what was asked
  -- for; its gas price is the one that the request gives, if it gives one. Its prediction shows every
  -- field of the engine's answer, each balance change with its signed difference.
  pub prepare_evm-IsPredicted :
      (simulate : SimRequest → W → Simulated × W) (max_gas : ℕ) (r : EvmRequest) (w : W)
      (p : Prepared)
      → (prepare_evm node dec (some simulate) max_gas r w).0 ≡ ok p
      → IsPredicted simulate (if max_gas == 0 then 30000000 else max_gas) r p
  unfolding prepare_evm
  prepare_evm-IsPredicted simulate max_gas r w p e =
      let ceiling = if max_gas == 0 then 30000000 else max_gas in
      let all : Returns (IsPredicted simulate ceiling r)
          (lift (check ceiling r) >>= (λ c. prepare_checked node dec simulate r c)) =
        bind-Returns _ _ _ (λ c w0 passed.
          prepare_checked-Returns simulate ceiling r c (check-IsChecked ceiling r c passed).0) in
      (unfold Returns in all w p e)
