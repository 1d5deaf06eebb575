-- ===== src/RateLimit/Tests.antt =====
-- A limiter over natural numbers in place of floats, and the theorems there.
use chain_forge.Common.{ℕ, ◌+◌, ◌-◌, ◌*◌, ◌/◌, ◌≤◌, min, ◌≡◌, refl, arith, leb, true, false}
use chain_forge.Common.{str_eq, List, [], ◌∷◌, none, some, String}
use chain_forge.RateLimit.{Floats, find, place, new, bucket_of, refilled, wait, allow}
use chain_forge.RateLimit.Buckets.{
  admits, answers, after, granted, times, IsOrdered, available, bucket_answers,
}
use chain_forge.RateLimit.Exact.{IsExact, answers-buckets}
use chain_forge.RateLimit.Admitted.{granted-span}

program : Unit {0}
unfolding find place new bucket_of refilled wait allow admits answers after granted times IsOrdered
    available bucket_answers str_eq
program = tt

abbrev whole : Floats ℕ ℕ
whole = record {
  of_int = λ n. n;
  add = ◌+◌;
  sub = ◌-◌;
  mul = ◌*◌;
  quot = ◌/◌;
  min = min;
  is_token = leb 1;
  since = ◌-◌;
  to_duration = λ d. d;
}

whole-IsExact : IsExact whole (λ t. t)
whole-IsExact = record {
  adds = λ m n h. refl;
  muls = λ m n h. refl;
  minimum = λ m n h h'. refl;
  takes_one = λ m h. omega arith;
  tests = λ m h. refl;
  elapsed = λ i j h h'. refl;
}

-- One token per second and two at once.
abbrev calls : List (ℕ × String)
calls = (0, "k") ∷ (0, "k") ∷ (0, "k") ∷ (0, "other") ∷ (1, "k") ∷ (9, "k") ∷ []

abbrev later : List (ℕ × String)
later = (9, "k") ∷ (9, "k") ∷ (10, "k") ∷ []

given : answers whole (λ t. t) (new whole 1 2) "k" calls ≡ true ∷ true ∷ false ∷ true ∷ true ∷ []
unfolding program
given = refl

second_to_wait :
    (allow whole (after whole (λ t. t) (new whole 1 2) ((0, "k") ∷ (0, "k") ∷ [])) 0 "k").0
    ≡ some 1000000000
unfolding program
second_to_wait = refl

in_order : IsOrdered 0 10 calls
unfolding IsOrdered
in_order = omega arith

answers-buckets_example :
    answers whole (λ t. t) (new whole 1 2) "k" calls ≡ bucket_answers 1 2 none (times "k" calls)
answers-buckets_example =
    answers-buckets whole (λ t. t) whole-IsExact 1 2 10 (omega arith) (omega arith) calls "k"
      in_order

granted-span_example :
    granted (answers whole (λ t. t) (after whole (λ t. t) (new whole 1 2) calls) "k" later)
    ≤ 2 + (10 - 9) * 1
granted-span_example =
    granted-span whole (λ t. t) whole-IsExact 1 2 10 (omega arith) (omega arith) calls later "k" 9
      before within
  where
    before : IsOrdered 0 9 calls
    before = unfold IsOrdered in omega arith

    within : IsOrdered 9 10 later
    within = unfold IsOrdered in omega arith
