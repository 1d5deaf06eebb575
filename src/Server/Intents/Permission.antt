-- ===== src/Server/Intents/Permission.antt =====
-- When the routes of services/gateway/internal/server/intents.go have a transaction signed.
use chain_forge.Common.{
  ℕ, ◌==◌, ◌||◌, ◌≡◌, ◌≢◌, refl, sym, ap, ◌∙◌, arith, Bool, true, false, str_eq, if◌then◌else◌,
  List, [], length,
}
use chain_forge.Common.{Option, none, some, Bool-cases, Option-cases, inl, inr, ◌⊎◌}
use chain_forge.EngineClient.{Outcome, unset, success, revert, halt}
use chain_forge.Intent.{Prepared}
use chain_forge.SignerClient
use chain_forge.SignerClient.{TxRequest, TxResponse}
use chain_forge.Server.Intents.{Services, State, Failure, Answer, ok, failed, IntentBody, Skipped}
use chain_forge.Server.Intents.{
  tx_request, refusal, signed_reply, sign_prepared, finish_evm, do_evm, do_solana, by_chain,
  do_intent,
}

refusal-none : (p : Prepared) → refusal p ≡ none → (p.simulation.outcome ≡ success) × (p.tx.to ≢ [])
unfolding refusal
refusal-none p e = cases p.simulation.outcome refl e
  where
    reason : Outcome → Option Skipped
    reason o = elim o [
      | success ↦ if length p.tx.to == 0 then some Skipped.creates_contract else none
      | revert ↦ some (Skipped.unsuccessful revert)
      | halt ↦ some (Skipped.unsuccessful halt)
      | unset ↦ some (Skipped.unsuccessful unset)
    ]

    cases :
        (o : Outcome)
        → p.simulation.outcome ≡ o
        → reason o ≡ none
        → (p.simulation.outcome ≡ success) × (p.tx.to ≢ [])
    cases success is e = (is, (λ empty. ground (arith, e, empty)))
    cases revert is e = absurd (cc e)
    cases halt is e = absurd (cc e)
    cases unset is e = absurd (cc e)

Answer-cases :
    {A : Type 0} (r : Answer A) → ((a : A) × (r ≡ ok a)) ⊎ ((e : Failure) × (r ≡ failed e))
Answer-cases (ok a) = inl (a, refl)
Answer-cases (failed e) = inr (e, refl)

module _ {W : Type 0} where
  unfoldable pub with_signer :
      Services W → (TxRequest → W → SignerClient.Result TxResponse × W) → Services W
  with_signer srv f = record srv { sign_tx = f }

  -- The signer is asked for the transaction that was prepared, whose simulation succeeded and which calls
  -- an address, on a route that signs and for a body that asks for it.
  pub record IsPermitted (srv : Services W) (allow_sign : Bool) (b : Option IntentBody)
      (s : State W) : Type 0 where
    pub body : IntentBody
    pub key : List ℕ
    pub prepared : Prepared
    pub route : allow_sign ≡ true
    pub decoded : b ≡ some body
    pub not_solana : str_eq body.chain "solana" ≡ false
    pub asked : body.key_id ≡ some key
    pub ready : (srv.prepare_evm body.evm s.world).0 ≡ ok prepared
    pub predicted : prepared.simulation.outcome ≡ success
    pub recipient : prepared.tx.to ≢ []
    pub reply :
        (do_intent srv allow_sign b s).0
        ≡ signed_reply srv prepared
            (srv.sign_tx (tx_request key prepared.tx) (srv.prepare_evm body.evm s.world).1).0

  -- The signer does not matter, or it may be asked.
  finish_evm-cases :
      (srv : Services W) (f : TxRequest → W → SignerClient.Result TxResponse × W)
      (allow_sign : Bool) (key : Option (List ℕ)) (p : Prepared) (s : State W)
      → (finish_evm srv allow_sign key p s ≡ finish_evm (with_signer srv f) allow_sign key p s)
        ⊎ ((k : List ℕ) × (allow_sign ≡ true)
            × (key ≡ some k)
            × (refusal p ≡ none)
            × ((finish_evm srv allow_sign key p s).0
                ≡ signed_reply srv p (srv.sign_tx (tx_request k p.tx) s.world).0))
  unfolding finish_evm sign_prepared with_signer
  finish_evm-cases srv f allow_sign none p s = inl refl
  finish_evm-cases srv f false (some k) p s = inl refl
  finish_evm-cases srv f true (some k) p s = elim (Option-cases (refusal p)) [
    | inr (why, refused) ↦ inl (rw (refused, sign_prepared) refl)
    | inl none_left ↦ inr (k, refl, refl, none_left, (rw (none_left, sign_prepared) refl))
  ]

  evm_route :
      (srv : Services W) (allow_sign : Bool) (body : IntentBody) (s : State W)
      → srv.configured ≡ true
      → str_eq body.chain "solana" ≡ false
      → (str_eq body.chain "" || str_eq body.chain "evm") ≡ true
      → do_intent srv allow_sign (some body) s ≡ do_evm srv allow_sign body s
  unfolding do_intent by_chain
  evm_route srv allow_sign body s on not_solana evm =
      rw (on, do_intent) (rw (not_solana, by_chain) (rw (evm, by_chain) refl))

  -- Either the signer is not asked, in that any other signer would lead to the same reply and the same
  -- state, or it may be asked and its answer is the reply.
  pub do_intent-IsPermitted :
      (srv : Services W) (f : TxRequest → W → SignerClient.Result TxResponse × W)
      (allow_sign : Bool) (b : Option IntentBody) (s : State W)
      → IsPermitted srv allow_sign b s
        ⊎ (do_intent srv allow_sign b s ≡ do_intent (with_signer srv f) allow_sign b s)
  unfolding do_intent with_signer
  do_intent-IsPermitted srv f allow_sign none s = inr refl
  do_intent-IsPermitted srv f allow_sign (some body) s = elim (Bool-cases srv.configured) [
    | inr off ↦ inr (rw (off, do_intent) refl)
    | inl on ↦ elim (Bool-cases (str_eq body.chain "solana")) [
      | inl solana ↦
          inr (rw (on, do_intent) (unfold by_chain do_solana in rw (solana, by_chain) refl))
      | inr not_solana ↦ elim (Bool-cases (str_eq body.chain "" || str_eq body.chain "evm")) [
        | inr unknown ↦ inr (
            rw (on, do_intent)
              (unfold by_chain in rw (not_solana, by_chain) (rw (unknown, by_chain) refl)))
        | inl evm ↦
            let here = evm_route srv allow_sign body s on not_solana evm in
            let there = evm_route (with_signer srv f) allow_sign body s on not_solana evm in
            elim (Answer-cases (srv.prepare_evm body.evm s.world).0) [
              | inr (e, refused) ↦
                  let lost : do_evm srv allow_sign body s
                      ≡ do_evm (with_signer srv f) allow_sign body s =
                    unfold do_evm in rw (refused, do_evm) refl in
                  inr (here ∙ lost ∙ sym there)
              | inl (p, ready) ↦
                  let s' : State W = record s { world = (srv.prepare_evm body.evm s.world).1 } in
                  let run : do_evm srv allow_sign body s
                      ≡ finish_evm srv allow_sign body.key_id p s' =
                    unfold do_evm in rw (ready, do_evm) refl in
                  let run' : do_evm (with_signer srv f) allow_sign body s
                      ≡ finish_evm (with_signer srv f) allow_sign body.key_id p s' =
                    unfold do_evm in rw (ready, do_evm) refl in
                  elim (finish_evm-cases srv f allow_sign body.key_id p s') [
                    | inl same ↦ inr (here ∙ run ∙ same ∙ sym run' ∙ sym there)
                    | inr (k, route, asked, none_left, reply) ↦
                        let (predicted, recipient) = refusal-none p none_left in
                        inl (record {
                          body = body;
                          key = k;
                          prepared = p;
                          route = route;
                          decoded = refl;
                          not_solana = not_solana;
                          asked = asked;
                          ready = ready;
                          predicted = predicted;
                          recipient = recipient;
                          reply = ap (λ r. r.0) (here ∙ run) ∙ reply;
                        })
                  ]
            ]
      ]
    ]
  ]
