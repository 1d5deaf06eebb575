-- ===== src/Intent/Sound.antt =====
-- What the checks of services/gateway/internal/intent/intent.go let through.
use chain_forge.Common.{ℕ, ◌^◌, ◌≤◌, ◌==◌, ◌||◌, not, ◌≡◌, ◌≢◌, ap, ◌∙◌, arith}
use chain_forge.Common.{
  ltb, min, if◌then◌else◌, List, [], ◌∷◌, length, Option, none, some, Bool-cases, Option-cases, inl,
  inr,
}
use chain_forge.Common.Int.{ℤ, pos, negsuc}
use chain_forge.EngineClient.Requests.{IsWord}
use chain_forge.Intent.Steps.{ok, Invalid, then-ok, Result-cases}
use chain_forge.Intent.Steps.{bad_from, bad_to, bad_value}
use chain_forge.Intent.Text.{has_0x, trim_0x, decode_hex, set_string}
use chain_forge.Intent.Checks.{
  EvmRequest, Checked, hex_addr, unsigned_word, decimal, recipient, payload_of, gas_limit_of, check,
}

-- Addresses of 20 bytes, an unsigned 256-bit value, and gas below the ceiling.
pub record IsChecked (max_gas : ℕ) (c : Checked) : Type 0 where
  pub from : length c.from ≡ 20
  pub to : (a : List ℕ) → c.to ≡ some a → length a ≡ 20
  pub value : IsWord (some c.value)
  pub gas_limit : c.gas_limit ≤ max_gas

length-hex_addr : (field : Invalid) (s a : List ℕ) → hex_addr field s ≡ ok a → length a ≡ 20
unfolding hex_addr
length-hex_addr field s a e = elim (Option-cases (decode_hex (trim_0x s))) [
  | inl bad ↦ absurd (cc (rw (bad, hex_addr) at e))
  | inr (b, good) ↦ elim (Bool-cases (not (has_0x s) || not (length b == 20))) [
    | inl refused ↦ absurd (cc (rw (refused, hex_addr) at (rw (good, hex_addr) at e)))
    | inr passed ↦
        let same : b ≡ a = cc (rw (passed, hex_addr) at (rw (good, hex_addr) at e)) in
        rw (← same) (ground (arith, passed))
  ]
]

length-recipient :
    (s : List ℕ) (to : Option (List ℕ)) (a : List ℕ)
    → recipient s ≡ ok to
    → to ≡ some a
    → length a ≡ 20
unfolding recipient
length-recipient [] to a e h = absurd (cc (e, h))
length-recipient (c ∷ s) to a e h = elim (Result-cases (hex_addr bad_to (c ∷ s))) [
  | inl (b, good) ↦
      let told : ok (some b) ≡ ok to = rw (good, recipient) at e in
      let same : b ≡ a = cc (told, h) in length-hex_addr bad_to (c ∷ s) a (good ∙ ap ok same)
  | inr (x, bad) ↦ absurd (cc (rw (bad, recipient) at e))
]

pub decimal-IsWord :
    (field : Invalid) (s : List ℕ) (v : ℤ) → decimal field s ≡ ok v → IsWord (some v)
unfolding decimal unsigned_word IsWord
decimal-IsWord field [] v e = let same : pos 0 ≡ v = cc e in rw (← same) (omega arith)
decimal-IsWord field (c ∷ s) v e = word (set_string 10 (c ∷ s)) e
  where
    word : (o : Option ℤ) → unsigned_word field o ≡ ok v → IsWord (some v)
    word none e = absurd (cc e)
    word (some (negsuc n)) e = absurd (cc e)
    word (some (pos n)) e = elim (Bool-cases (ltb n (2 ^ 256))) [
      | inl small ↦
          let same : pos n ≡ v = cc (rw (small, unsigned_word) at e) in
          rw (← same) (ground (arith, small))
      | inr large ↦ absurd (cc (rw (large, unsigned_word) at e))
    ]

gas_limit_of-bounded : (max_gas asked n : ℕ) → gas_limit_of max_gas asked ≡ ok n → n ≤ max_gas
unfolding gas_limit_of
gas_limit_of-bounded max_gas asked n e =
    let limit = if asked == 0 then min 1000000 max_gas else asked in
    elim (Bool-cases (ltb max_gas limit)) [
      | inl above ↦ absurd (cc (rw (above, gas_limit_of) at e))
      | inr below ↦
          let same : limit ≡ n = cc (rw (below, gas_limit_of) at e) in
          rw (← same) (ground (arith, below))
    ]

-- What passes the checks has addresses of 20 bytes, an unsigned 256-bit value and no more gas than the
-- ceiling, for a chain identifier other than 0.
pub check-IsChecked :
    (max_gas : ℕ) (r : EvmRequest) (c : Checked)
    → check max_gas r ≡ ok c
    → IsChecked max_gas c × (r.chain_id ≢ 0)
unfolding check
check-IsChecked max_gas r c e = elim (Bool-cases (r.chain_id == 0)) [
  | inl no_chain ↦ absurd (cc (rw (no_chain, check) at e))
  | inr some_chain ↦
      let (from, f, e1) = then-ok (hex_addr bad_from r.from) _ c (rw (some_chain, check) at e) in
      let (to, t, e2) = then-ok (recipient r.to) _ c e1 in
      let (value, v, e3) = then-ok (decimal bad_value r.value) _ c e2 in
      let (payload, p, e4) = then-ok (payload_of r.payload) _ c e3 in
      let (limit, l, e5) = then-ok (gas_limit_of max_gas r.gas_limit) _ c e4 in
      let same : record {
        from = from;
        to = to;
        value = value;
        payload = payload;
        gas_limit = limit;
      }
          ≡ c =
        cc e5 in
      (
        rw (← same) (record {
          from = length-hex_addr bad_from r.from from f;
          to = λ a h. length-recipient r.to to a t h;
          value = decimal-IsWord bad_value r.value value v;
          gas_limit = gas_limit_of-bounded max_gas r.gas_limit limit l;
        }),
        λ zero_there. ground (arith, some_chain, zero_there),
      )
]
