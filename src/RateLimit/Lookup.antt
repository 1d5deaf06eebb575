-- ===== src/RateLimit/Lookup.antt =====
-- The map of buckets in services/gateway/internal/ratelimit/ratelimit.go.
use chain_forge.Common.{
  ◌≡◌, refl, false, Bool-cases, inl, inr, str_eq, str_eq_refl, str_eq_iff, List, [], ◌∷◌, some,
  String,
}
use chain_forge.RateLimit.{Bucket, find, place}

module _ {F T : Type 0} where
  pub find-place_self :
      (bs : List (String × Bucket F T)) (key : String) (b : Bucket F T)
      → find (place bs key b) key ≡ some b
  unfolding find place
  find-place_self [] key b = rw (str_eq_refl key) refl
  find-place_self (e ∷ bs) key b = elim (Bool-cases (str_eq e.0 key)) [
    | inl is ↦ rw (is, place) (rw (str_eq_refl key) refl)
    | inr isnt ↦ rw (isnt, place) (rw (isnt) (find-place_self bs key b))
  ]

  pub find-place_other :
      (bs : List (String × Bucket F T)) (key other : String) (b : Bucket F T)
      → str_eq key other ≡ false
      → find (place bs key b) other ≡ find bs other
  unfolding find place
  find-place_other [] key other b differ = rw differ refl
  find-place_other (e ∷ bs) key other b differ = elim (Bool-cases (str_eq e.0 key)) [
    | inl is ↦
        let as_key : str_eq e.0 other ≡ false = rw ((str_eq_iff e.0 key).0 is) differ in
        rw (is, place) (rw (differ, as_key) refl)
    | inr isnt ↦ elim (Bool-cases (str_eq e.0 other)) [
      | inl at_other ↦ rw (isnt, place) (rw at_other refl)
      | inr past ↦ rw (isnt, place) (rw past (find-place_other bs key other b differ))
    ]
  ]
