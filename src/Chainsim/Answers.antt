-- ===== src/Chainsim/Answers.antt =====
-- What services/gateway/internal/chainsim/chainsim.go answers about a chain that is linked from its genesis
-- block.
use chain_forge.Common.{
  ℕ, zero, suc, ◌+◌, ◌-◌, ◌^◌, ◌≤◌, ◌<◌, ◌≡◌, ◌≢◌, ◌⊎◌, refl, ◌∙◌, arith, ltb, true, false,
  if◌then◌else◌, ◌||◌,
}
use chain_forge.Common.{
  List, [], ◌∷◌, length, get_elem?, get_elem?-some, Option, none, some, Bool-cases, Option-cases,
  inl, inr,
}
use chain_forge.Common.Bytes.{bytes_eq}
use chain_forge.Chainsim.{Blk, Node, no_hash}
use chain_forge.Chainsim.Chain.{IsLinked, IsChain}
use chain_forge.Chainsim.Handle.{
  Codec, Lookup, latest, finalized, safe, pending, earliest, at_block, no_block, panics, indexed,
  head, resolve, looked_up, by_number, by_hash, handle, with_hash, first_param,
}
use chain_forge.Indexer.Quantity.{parse_qty, format_qty, parse_qty-format_qty}
use chain_forge.JsonRpc.{Request}

-- A block of a linked chain has the number of its place.
pub IsLinked-num :
    (num : ℕ) (before : List ℕ) (bs : List Blk) (i : ℕ) (b : Blk)
    → IsLinked num before bs
    → get_elem? bs i ≡ some b
    → b.num ≡ num + i
unfolding IsLinked
IsLinked-num num before [] i b h e = absurd (cc e)
IsLinked-num num before (x ∷ bs) zero b h e =
    let same : x ≡ b = cc e in rw (← same) (omega (arith, h.0))
IsLinked-num num before (x ∷ bs) (suc i) b h e =
    omega (arith, IsLinked-num (num + 1) x.hash bs i b h.2 e)

-- A block of a linked chain has the hash of the one in front as its parent's.
pub IsLinked-parent :
    (num : ℕ) (before : List ℕ) (bs : List Blk) (i : ℕ) (a b : Blk)
    → IsLinked num before bs
    → get_elem? bs i ≡ some a
    → get_elem? bs (suc i) ≡ some b
    → b.parent ≡ a.hash
unfolding IsLinked
IsLinked-parent num before [] i a b h e e' = absurd (cc e)
IsLinked-parent num before (x ∷ []) i a b h e e' = absurd (cc e')
IsLinked-parent num before (x ∷ y ∷ bs) zero a b h e e' =
    let first : x ≡ a = cc e in let second : y ≡ b = cc e' in rw (← first, ← second) h.2.1
IsLinked-parent num before (x ∷ y ∷ bs) (suc i) a b h e e' =
    IsLinked-parent (num + 1) x.hash (y ∷ bs) i a b h.2 e e'

module _ (n : Node) (chain : IsChain n) (bounded : length n.blocks < 2 ^ 64) where
  pub head-length : head n ≡ length n.blocks - 1
  unfolding head
  head-length = omega (arith, chain.genesis)

  -- The text of a number is no tag.
  tag-digits :
      (k : ℕ)
      → ((bytes_eq (format_qty k) latest
            || bytes_eq (format_qty k) finalized
            || bytes_eq (format_qty k) safe
            || bytes_eq (format_qty k) pending)
          ≡ false)
        × (bytes_eq (format_qty k) earliest ≡ false)
  unfolding format_qty bytes_eq
  tag-digits k = (refl, refl)

  resolve-digits :
      (k : ℕ)
      → k < 2 ^ 64
      → resolve n (format_qty k)
        ≡ (if ltb (head n) k then no_block else indexed (get_elem? n.blocks k))
  unfolding resolve
  resolve-digits k word = rw ((tag-digits k).0, (tag-digits k).1, parse_qty-format_qty k word) refl

  -- The text of a number resolves to the block of that number, and to none beyond the head.
  pub resolve-format_qty :
      (k : ℕ)
      → k < 2 ^ 64
      → ((k < length n.blocks)
          × ((b : Blk) × (get_elem? n.blocks k ≡ some b)
              × (b.num ≡ k)
              × (resolve n (format_qty k) ≡ at_block b)))
        ⊎ ((length n.blocks ≤ k) × (resolve n (format_qty k) ≡ no_block))
  unfolding indexed
  resolve-format_qty k word = elim (Bool-cases (ltb k (length n.blocks))) [
    | inl e ↦
        let inside : k < length n.blocks = ground arith in
        let (b, is) = get_elem?-some n.blocks k inside in
        let low : ltb (head n) k ≡ false = ground (arith, head-length) in
        inl (
          inside,
          (
            b,
            is,
            omega (arith, IsLinked-num 0 no_hash n.blocks k b chain.linked is),
            resolve-digits k word ∙ rw (low, is) refl,
          ),
        )
    | inr e ↦
        let high : ltb (head n) k ≡ true = ground (arith, head-length, chain.genesis) in
        inr (ground arith, resolve-digits k word ∙ rw high refl)
  ]

  indexed-some : (i : ℕ) → i < length n.blocks → indexed (get_elem? n.blocks i) ≢ panics
  unfolding indexed
  indexed-some i h = let (b, is) = get_elem?-some n.blocks i h in rw is (λ e. cc)

  -- No tag makes the node read outside its chain.
  pub resolve-total : (tag : List ℕ) → resolve n tag ≢ panics
  unfolding resolve
  resolve-total tag =
      elim (Bool-cases (
        bytes_eq tag latest
        || bytes_eq tag finalized
        || bytes_eq tag safe
        || bytes_eq tag pending)) [
          | inl e ↦
              rw (e, resolve) (indexed-some (head n) (omega (arith, head-length, chain.genesis)))
          | inr e ↦ elim (Bool-cases (bytes_eq tag earliest)) [
            | inl e' ↦ rw (e, e', resolve) (indexed-some 0 chain.genesis)
            | inr e' ↦ elim (Option-cases (parse_qty tag)) [
              | inl bad ↦ rw (e, e', bad, resolve) (λ q. cc)
              | inr (v, good) ↦ elim (Bool-cases (ltb (head n) v)) [
                | inl high ↦ rw (e, e', good, high, resolve) (λ q. cc)
                | inr low ↦
                    rw (e, e', good, low, resolve)
                      (indexed-some v (ground (arith, head-length, chain.genesis)))
              ]
            ]
          ]
        ]

  module _ (json : Codec) where
    looked_up-total : (q : Request) (l : Lookup) → l ≢ panics → looked_up json q l ≢ none
    unfolding looked_up
    looked_up-total q (at_block b) h = λ e. cc
    looked_up-total q no_block h = λ e. cc
    looked_up-total q panics h = absurd (h refl)

    by_number-total : (q : Request) (p : Option (List ℕ)) → by_number json n q p ≢ none
    unfolding by_number
    by_number-total q none = λ e. cc
    by_number-total q (some p) = looked_up-total q (resolve n p) (resolve-total p)

    by_hash-total : (q : Request) (p : Option (List ℕ)) → by_hash json n q p ≢ none
    unfolding by_hash
    by_hash-total q none = λ e. cc
    by_hash-total q (some p) = elim (Option-cases (with_hash p n.blocks)) [
      | inl e ↦ rw (e, by_hash) (λ q. cc)
      | inr (b, e) ↦ rw (e, by_hash) (λ q. cc)
    ]

    -- On a chain that is linked from its genesis block, the node answers every request, without a panic.
    pub handle-total : (q : Request) → handle json n q ≢ none
    unfolding handle
    handle-total q = ground (
      arith,
      by_number-total q (first_param json q.params),
      by_hash-total q (first_param json q.params),
    )
