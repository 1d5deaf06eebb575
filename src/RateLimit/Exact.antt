-- ===== src/RateLimit/Exact.antt =====
-- The limiter of services/gateway/internal/ratelimit/ratelimit.go with a whole number of tokens per
-- second and a clock that is read at whole seconds decides as buckets of natural numbers do, one for
-- each key.
use chain_forge.Common.{
  ℕ, zero, suc, ◌+◌, ◌-◌, ◌*◌, ◌^◌, ◌≤◌, ◌<◌, min, ◌≡◌, refl, subst, ◌∙◌, arith, leb, true, false,
}
use chain_forge.Common.{
  Bool-cases, inl, inr, str_eq, str_eq_iff, List, [], ◌∷◌, Option, none, some, String, ap₂,
}
use native.Mathlib.Nat.{mul-le-mul_right}
use chain_forge.RateLimit.Buckets.{
  admits, answers, after, times, IsOrdered, available, available-le, bucket_answers,
}
use chain_forge.RateLimit.Lookup.{find-place_self, find-place_other}
use chain_forge.RateLimit.{Floats, Bucket, Limiter, find, new, bucket_of, refilled, allow}

-- What IEEE 754 says of the integers up to 2^53, and the packages math and time of whole seconds.
pub record IsExact {F T : Type 0} (fl : Floats F T) (at_second : ℕ → T) : Type 0 where
  pub adds : (m n : ℕ) → m + n ≤ 2 ^ 53 → fl.add (fl.of_int m) (fl.of_int n) ≡ fl.of_int (m + n)
  pub muls : (m n : ℕ) → m * n ≤ 2 ^ 53 → fl.mul (fl.of_int m) (fl.of_int n) ≡ fl.of_int (m * n)
  pub minimum :
      (m n : ℕ) → m ≤ 2 ^ 53 → n ≤ 2 ^ 53 → fl.min (fl.of_int m) (fl.of_int n) ≡ fl.of_int (min m n)
  pub takes_one : (m : ℕ) → m < 2 ^ 53 → fl.sub (fl.of_int (suc m)) (fl.of_int 1) ≡ fl.of_int m
  pub tests : (m : ℕ) → m ≤ 2 ^ 53 → fl.is_token (fl.of_int m) ≡ leb 1 m
  pub elapsed :
      (i j : ℕ) → i ≤ j → j - i < 2 ^ 33 → fl.since (at_second j) (at_second i) ≡ fl.of_int (j - i)

pub IsOrdered-le :
    (from until : ℕ) (calls : List (ℕ × String)) → IsOrdered from until calls → from ≤ until
unfolding IsOrdered
IsOrdered-le from until [] h = h
IsOrdered-le from until ((t, k) ∷ calls) (past, more) =
    omega (arith, IsOrdered-le t until calls more)

module _ {F T : Type 0} (fl : Floats F T) (at_second : ℕ → T) (exact : IsExact fl at_second) where
  unfoldable pub kept : Option (ℕ × ℕ) → Option (Bucket F T)
  kept none = none
  kept (some (n, s)) = some (record { tokens = fl.of_int n; last = at_second s })

  -- A bucket has at most the burst, and its last call is not in the future.
  unfoldable pub IsFit : ℕ → ℕ → Option (ℕ × ℕ) → Type 0
  IsFit burst from none = Unit {0}
  IsFit burst from (some (n, s)) = n ≤ burst × s ≤ from

  module _ (rate burst until : ℕ) (small : burst + until * rate ≤ 2 ^ 53)
      (soon : until < 2 ^ 33) where
    refill-exact :
        (n s t : ℕ)
        → n ≤ burst
        → s ≤ t
        → t ≤ until
        → fl.min
            (fl.of_int burst)
            (fl.add (fl.of_int n) (fl.mul (fl.since (at_second t) (at_second s)) (fl.of_int rate)))
          ≡ fl.of_int (min burst (n + (t - s) * rate))
    refill-exact n s t low past due =
        let grown : (t - s) * rate ≤ until * rate = mul-le-mul_right rate (omega arith) in
        rw
          (
            exact.elapsed s t past (omega arith),
            exact.muls (t - s) rate (omega (arith, grown)),
            exact.adds n ((t - s) * rate) (omega (arith, grown)),
            exact.minimum burst (n + (t - s) * rate) (omega arith) (omega (arith, grown)),
          )
          refl

    -- The limiter's state holds a key's bucket.
    unfoldable pub Holds : Limiter F T → String → Option (ℕ × ℕ) → Type 0
    Holds l key held =
        (l.rate ≡ fl.of_int rate) × (l.burst ≡ fl.of_int burst) × (find l.buckets key ≡ kept held)

    refilled-available :
        (l : Limiter F T) (key : String) (held : Option (ℕ × ℕ)) (t : ℕ)
        → Holds l key held
        → IsFit burst t held
        → t ≤ until
        → refilled fl l (at_second t) (bucket_of fl l (at_second t) key)
          ≡ fl.of_int (available rate burst held t)
    unfolding Holds IsFit kept refilled bucket_of available
    refilled-available l key none t (r, b, f) fit due =
        let full : min burst (burst + (t - t) * rate) ≡ burst = omega arith in
        rw (f, bucket_of, r, b, refilled)
          (rw full at (refill-exact burst t t (omega arith) (omega arith) due))
    refilled-available l key (some (n, s)) t (r, b, f) fit due =
        rw (f, bucket_of, r, b, refilled) (refill-exact n s t fit.0 fit.1 due)

    admits-allow :
        (l : Limiter F T) (key : String) (held : Option (ℕ × ℕ)) (t n : ℕ)
        → n ≤ burst
        → refilled fl l (at_second t) (bucket_of fl l (at_second t) key) ≡ fl.of_int n
        → admits (allow fl l (at_second t) key).0 ≡ leb 1 n
    unfolding allow admits
    admits-allow l key held t n low e = elim (Bool-cases (leb 1 n)) [
      | inl some_left ↦ rw (e, exact.tests n (omega arith), some_left, allow) refl
      | inr none_left ↦ rw (e, exact.tests n (omega arith), none_left, allow) refl
    ]

    Holds-allow :
        (l : Limiter F T) (key : String) (held : Option (ℕ × ℕ)) (t n : ℕ)
        → n ≤ burst
        → refilled fl l (at_second t) (bucket_of fl l (at_second t) key) ≡ fl.of_int n
        → Holds l key held
        → Holds (allow fl l (at_second t) key).1 key (some (n - 1, t))
    unfolding allow Holds kept
    Holds-allow l key held t zero low e (r, b, f) =
        let none_left = exact.tests 0 (omega arith) in
        (r, b, rw (e, none_left, allow) (find-place_self l.buckets key _))
    Holds-allow l key held t (suc n) low e (r, b, f) =
        let some_left : fl.is_token (fl.of_int (suc n)) ≡ true =
          exact.tests (suc n) (omega arith) ∙ ground arith in
        let one_less : suc n - 1 ≡ n = omega arith in
        (
          r,
          b,
          rw (e, some_left, exact.takes_one n (omega arith), one_less, allow)
              (find-place_self l.buckets key _),
        )

    Holds-other :
        (l : Limiter F T) (key other : String) (held : Option (ℕ × ℕ)) (t : T)
        → str_eq other key ≡ false
        → Holds l key held
        → Holds (allow fl l t other).1 key held
    unfolding allow Holds
    Holds-other l key other held t differ (r, b, f) =
        (r, b, find-place_other l.buckets other key _ differ ∙ f)

    IsFit-later :
        (held : Option (ℕ × ℕ)) (from t : ℕ) → from ≤ t → IsFit burst from held → IsFit burst t held
    unfolding IsFit
    IsFit-later none from t past fit = tt
    IsFit-later (some (n, s)) from t past (low, before) = (low, omega arith)

    -- The bucket of a key after a call for it.
    Holds-same :
        (l : Limiter F T) (key k : String) (held : Option (ℕ × ℕ)) (t : ℕ)
        → str_eq k key ≡ true
        → Holds l key held
        → IsFit burst t held
        → t ≤ until
        → Holds (allow fl l (at_second t) k).1 key (some (available rate burst held t - 1, t))
    Holds-same l key k held t same holds fit due =
        let is_key : k ≡ key = (str_eq_iff k key).0 same in
        let mine : Holds l k held = rw is_key holds in
        subst
          (λ x. Holds (allow fl l (at_second t) k).1 x (some (available rate burst held t - 1, t)))
          is_key
          (Holds-allow l k held t (available rate burst held t) (available-le rate burst held t)
            (refilled-available l k held t mine fit due) mine)

    pub answers-held :
        (calls : List (ℕ × String)) (l : Limiter F T) (key : String) (held : Option (ℕ × ℕ))
        (from : ℕ)
        → Holds l key held
        → IsFit burst from held
        → IsOrdered from until calls
        → answers fl at_second l key calls ≡ bucket_answers rate burst held (times key calls)
    unfolding answers bucket_answers times IsOrdered IsFit
    answers-held [] l key held from holds fit order = refl
    answers-held ((t, k) ∷ calls) l key held from holds fit (past, more) =
        let l' = (allow fl l (at_second t) k).1 in
        let fit' = IsFit-later held from t past fit in
        elim (Bool-cases (str_eq k key)) [
          | inr differ ↦
              rw (differ, answers)
                (answers-held calls l' key held t
                  (Holds-other l key k held (at_second t) differ holds) fit' more)
          | inl same ↦
              let is_key : k ≡ key = (str_eq_iff k key).0 same in
              let low = available-le rate burst held t in
              let mine : Holds l k held = rw is_key holds in
              let full =
                refilled-available l k held t mine fit' (IsOrdered-le t until calls more) in
              rw (same, answers)
                (ap₂ ◌∷◌ (admits-allow l k held t (available rate burst held t) low full) (
                  answers-held calls l' key (some (available rate burst held t - 1, t)) t
                    (Holds-same l key k held t same holds fit' (IsOrdered-le t until calls more))
                    (omega (arith, low), omega arith) more))
        ]

    -- After any calls the limiter holds some bucket of a key that fits.
    pub Holds-after :
        (calls : List (ℕ × String)) (l : Limiter F T) (key : String) (held : Option (ℕ × ℕ))
        (from last : ℕ)
        → Holds l key held
        → IsFit burst from held
        → IsOrdered from last calls
        → last ≤ until
        → (held' : Option (ℕ × ℕ)) × Holds (after fl at_second l calls) key held'
          × IsFit burst last held'
    unfolding after IsOrdered IsFit
    Holds-after [] l key held from last holds fit order due =
        (held, holds, IsFit-later held from last order fit)
    Holds-after ((t, k) ∷ calls) l key held from last holds fit (past, more) due =
        let l' = (allow fl l (at_second t) k).1 in
        let fit' = IsFit-later held from t past fit in
        let soon_enough : t ≤ until = omega (arith, IsOrdered-le t last calls more) in
        elim (Bool-cases (str_eq k key)) [
          | inr differ ↦
              Holds-after calls l' key held t last
                (Holds-other l key k held (at_second t) differ holds) fit' more due
          | inl same ↦
              Holds-after calls l' key (some (available rate burst held t - 1, t)) t last
                (Holds-same l key k held t same holds fit' soon_enough)
                (omega (arith, available-le rate burst held t), omega arith) more due
        ]

    -- At an integral rate and whole seconds, with a burst and a span for which the integers of a float
    -- are exact, a new limiter answers a key's calls as a bucket of its own would, whatever calls for
    -- other keys stand between them.
    pub answers-buckets :
        (calls : List (ℕ × String)) (key : String)
        → IsOrdered 0 until calls
        → answers fl at_second (new fl (fl.of_int rate) burst) key calls
          ≡ bucket_answers rate burst none (times key calls)
    unfolding Holds IsFit new find kept
    answers-buckets calls key order =
        answers-held calls (new fl (fl.of_int rate) burst) key none 0 (refl, refl, refl) tt order
