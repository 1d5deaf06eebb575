-- ===== src/JsonRpc/Served.antt =====
-- What a caller of services/gateway/internal/jsonrpc/jsonrpc.go gets back, and how much work one body
-- can cause.
use chain_forge.Common.{
  ℕ, ◌+◌, ◌≤◌, ◌<◌, ◌==◌, ◌≡◌, refl, arith, suc, Bool, true, false, ◌||◌, not, ltb, str_eq,
}
use chain_forge.Common.{
  if◌then◌else◌, List, [], ◌∷◌, length, map, Option, none, some, String, ap₂, ap,
}
use chain_forge.Common.{Bool-cases, inl, inr, ◌⊎◌}
use chain_forge.Common.Int.{ℤ}
use chain_forge.JsonRpc.{Request, Response, Json, Decoded, refused, requests, Reply, array, object}
use chain_forge.JsonRpc.{
  norm_id, fail, decode, decode_trimmed, batch_of, single_of, serve_each, reply_of, serve,
}
use chain_forge.JsonRpc.{trim_space, code_invalid_request}

-- Every decoded list has a request, at most `max_batch` of them, and exactly one if it is no batch.
pub record IsBounded (reqs : List Request) (batch : Bool) : Type 0 where
  pub some_request : 0 < length reqs
  pub at_most : length reqs ≤ 100
  pub alone : batch ≡ false → length reqs ≡ 1

batch-IsBounded :
    (o : Option (List Request)) (reqs : List Request) (batch : Bool)
    → batch_of o ≡ requests reqs batch
    → IsBounded reqs batch
unfolding batch_of
batch-IsBounded none reqs batch e = absurd (cc e)
batch-IsBounded (some qs) reqs batch e = elim (Bool-cases (length qs == 0)) [
  | inl none_there ↦ absurd (cc (rw (none_there, batch_of) at e))
  | inr some_there ↦ elim (Bool-cases (ltb 100 (length qs))) [
    | inl large ↦ absurd (cc (rw (large, batch_of) at (rw (some_there, batch_of) at e)))
    | inr small ↦
        let same : requests qs true ≡ requests reqs batch =
          rw (small, batch_of) at (rw (some_there, batch_of) at e) in
        let eq : qs ≡ reqs = cc same in
        let is_batch : true ≡ batch = cc same in
        rw (← eq) (record {
          some_request = ground arith;
          at_most = ground arith;
          alone = λ single. absurd (cc (is_batch, single));
        })
  ]
]

single-IsBounded :
    (o : Option Request) (reqs : List Request) (batch : Bool)
    → single_of o ≡ requests reqs batch
    → IsBounded reqs batch
unfolding single_of
single-IsBounded none reqs batch e = absurd (cc e)
single-IsBounded (some r) reqs batch e =
    let eq : r ∷ [] ≡ reqs = cc e in
    rw (← eq) (record { some_request = omega arith; at_most = omega arith; alone = λ _. refl })

trimmed-IsBounded :
    (json : Json) (t : List ℕ) (reqs : List Request) (batch : Bool)
    → decode_trimmed json t ≡ requests reqs batch
    → IsBounded reqs batch
unfolding decode_trimmed
trimmed-IsBounded json [] reqs batch e = absurd (cc e)
trimmed-IsBounded json (c ∷ t) reqs batch e = elim (Bool-cases (c == b'[')) [
  | inl is ↦ batch-IsBounded (json.many (c ∷ t)) reqs batch (rw (is, decode_trimmed) at e)
  | inr isnt ↦ single-IsBounded (json.one (c ∷ t)) reqs batch (rw (isnt, decode_trimmed) at e)
]

pub decode-IsBounded :
    (json : Json) (body : List ℕ) (reqs : List Request) (batch : Bool)
    → decode json body ≡ requests reqs batch
    → IsBounded reqs batch
unfolding decode
decode-IsBounded json body reqs batch e = trimmed-IsBounded json (trim_space body) reqs batch e

pub Decoded-cases :
    (d : Decoded)
    → ((code : ℤ) × (msg : String) × (d ≡ refused code msg))
      ⊎ ((reqs : List Request) × (batch : Bool) × (d ≡ requests reqs batch))
Decoded-cases (refused code msg) = inl (code, msg, refl)
Decoded-cases (requests reqs batch) = inr (reqs, batch, refl)

-- A reply that answers the requests: one response for each, in their order and under its identifier,
-- and no array around the answer to a request that came alone.
unfoldable pub IsAnswer : List Request → Bool → Reply → Type 0
IsAnswer reqs true (array out) = map (λ r. r.id) out ≡ map (λ q. norm_id q.id) reqs
IsAnswer (q ∷ []) false (object r) = r.id ≡ norm_id q.id
IsAnswer _ _ _ = ⊥

module _ {S : Type 0} (json : Json) (h : Request → S → Response × S) where
  -- One round of the loop.
  round : Request → S → Response × S
  round q s =
      if not (str_eq q.jsonrpc "2.0") || str_eq q.method ""
      then (fail q.id code_invalid_request "invalid request", s)
      else h q s

  pub length-serve_each :
      (qs : List Request) (s : S) → length (serve_each json h qs s).0 ≡ length qs
  unfolding serve_each round
  length-serve_each [] s = refl
  length-serve_each (q ∷ qs) s = ap suc (length-serve_each qs (round q s).1)

  module _ (echoes : (q : Request) (s : S) → (h q s).0.id ≡ norm_id q.id) where
    round-id : (q : Request) (s : S) → (round q s).0.id ≡ norm_id q.id
    unfolding round fail
    round-id q s = elim (Bool-cases (not (str_eq q.jsonrpc "2.0") || str_eq q.method "")) [
      | inl bad ↦ rw (bad, round) refl
      | inr good ↦ rw (good, round) (echoes q s)
    ]

    serve_each-ids :
        (qs : List Request) (s : S)
        → map (λ r. r.id) (serve_each json h qs s).0 ≡ map (λ q. norm_id q.id) qs
    unfolding serve_each round
    serve_each-ids [] s = refl
    serve_each-ids (q ∷ qs) s = ap₂ ◌∷◌ (round-id q s) (serve_each-ids qs (round q s).1)

    reply-IsAnswer :
        (qs : List Request) (batch : Bool) (out : List Response)
        → IsBounded qs batch
        → map (λ r. r.id) out ≡ map (λ q. norm_id q.id) qs
        → IsAnswer qs batch (reply_of json h batch out)
    unfolding reply_of IsAnswer
    reply-IsAnswer qs true out b e = e
    reply-IsAnswer (q ∷ []) false (r ∷ out) b e = ap (λ ids. first_of (norm_id q.id) ids) e
      where
        first_of : List ℕ → List (List ℕ) → List ℕ
        first_of other [] = other
        first_of other (x ∷ xs) = x
    reply-IsAnswer (q ∷ []) false [] b e = absurd (cc e)
    reply-IsAnswer [] false out b e = absurd (omega (arith, b.alone refl))
    reply-IsAnswer (q ∷ q' ∷ qs) false out b e = absurd (omega (arith, b.alone refl))

    -- With a handler that answers under the identifier of the request that it is given: a body that
    -- decodes is answered request by request, in order, each response under its request's
    -- identifier, the invalid requests included, and a batch by an array.
    pub serve-IsAnswer :
        (body : List ℕ) (s : S) (reqs : List Request) (batch : Bool)
        → decode json body ≡ requests reqs batch
        → IsAnswer reqs batch (serve json h (some body) s).0
    unfolding serve
    serve-IsAnswer body s reqs batch e =
        rw (e, serve)
          (reply-IsAnswer reqs batch (serve_each json h reqs s).0
            (decode-IsBounded json body reqs batch e) (serve_each-ids reqs s))

  module _ (cost : S → ℕ) (step : (q : Request) (s : S) → cost (h q s).1 ≤ cost s + 1) where
    round-cost : (q : Request) (s : S) → cost (round q s).1 ≤ cost s + 1
    unfolding round
    round-cost q s = elim (Bool-cases (not (str_eq q.jsonrpc "2.0") || str_eq q.method "")) [
      | inl bad ↦ rw (bad, round) (omega arith)
      | inr good ↦ rw (good, round) (step q s)
    ]

    serve_each-cost :
        (qs : List Request) (s : S) → cost (serve_each json h qs s).1 ≤ cost s + length qs
    unfolding serve_each round
    serve_each-cost [] s = omega arith
    serve_each-cost (q ∷ qs) s = omega (arith, round-cost q s, serve_each-cost qs (round q s).1)

    -- When a call of the handler costs at most 1, a request body, whatever it holds, costs at most
    -- 100.
    pub serve-cost : (body : Option (List ℕ)) (s : S) → cost (serve json h body s).1 ≤ cost s + 100
    unfolding serve
    serve-cost none s = omega arith
    serve-cost (some body) s = elim (Decoded-cases (decode json body)) [
      | inl (code, msg, e) ↦ rw (e, serve) (omega arith)
      | inr (reqs, batch, e) ↦
          let b = decode-IsBounded json body reqs batch e in
          rw (e, serve) (omega (arith, serve_each-cost reqs s, b.at_most))
    ]
