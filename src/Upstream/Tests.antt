-- ===== src/Upstream/Tests.antt =====
-- Runs of the pool against a scripted world, and its theorems at concrete inputs.
use chain_forge.Common.{ℕ, ◌+◌, ◌^◌, ◌≡◌, refl, true, false, arith, List, [], ◌∷◌}
use chain_forge.Common.{some, str_eq, if◌then◌else◌, get_elem?}
use chain_forge.Breaker
use chain_forge.Breaker.{Breaker, closed, open_state, allow, success, failure}
use chain_forge.Breaker.Probe.{IsValid, new-IsValid}
use chain_forge.Upstream.{Env, Endpoint, Pool, answers, no_upstream, panics, new_pool}
use chain_forge.Upstream.{try, visit, call_from, call, slot}
use chain_forge.Upstream.Failover.{call-answers}
use chain_forge.Upstream.Visits.{Passed, no_upstream_visits_all}

program : Unit {0}
unfolding Breaker.new allow success failure new_pool try visit call_from call slot str_eq
program = tt

-- The world is the time, and each request takes 5. The node "b" answers, "a" has status 503.
abbrev env : Env ℕ
env = record {
  now = λ w. w;
  new_request = λ url body. true;
  do_post = λ url body w. (
    if str_eq url "b"
        then some (record { status = 200; body = 7 ∷ []; broken = false })
        else some (record { status = 503; body = []; broken = false }),
    w + 5,
  );
}

abbrev br0 : Breaker
br0 = record {
  threshold = 1;
  cooldown = 10;
  failures = 0;
  state = closed;
  opened_at = 0;
  probing = false;
}

abbrev pool : Pool
pool = record {
  eps = record { url = "a"; br = br0 } ∷ record { url = "b"; br = br0 } ∷ [];
  next = 0;
}

made : new_pool ("a" ∷ "b" ∷ []) 1 10 ≡ pool
unfolding program
made = refl

fails_over : (call env (1 ∷ []) pool 100).0 ≡ answers (7 ∷ [])
unfolding program
fails_over = refl

b_answers : (w : ℕ) → (out : List ℕ) × ((try env "b" (1 ∷ []) w).0 ≡ some out)
unfolding program
b_answers w = (7 ∷ [], refl)

call-answers_example : (out : List ℕ) × ((call env (1 ∷ []) pool 100).0 ≡ answers out)
call-answers_example =
    call-answers env (1 ∷ []) pool 100 1 (record { url = "b"; br = br0 }) (omega arith) refl refl
      b_answers

br0-IsValid : IsValid br0
unfolding program
br0-IsValid = new-IsValid 1 10

abbrev one_bad : Pool
one_bad = record { eps = record { url = "a"; br = br0 } ∷ []; next = 3 }

gives_up : (call env (1 ∷ []) one_bad 100).0 ≡ no_upstream
unfolding program
gives_up = refl

no_upstream_visits_all_example :
    (ep' : Endpoint) × (get_elem? (call env (1 ∷ []) one_bad 100).1.eps 0 ≡ some ep')
    × Passed env (1 ∷ []) (record { url = "a"; br = br0 }) ep'
no_upstream_visits_all_example =
    no_upstream_visits_all env (1 ∷ []) one_bad 100 0 (record { url = "a"; br = br0 }) (omega arith)
      gives_up refl

abbrev second : Pool
second = record pool { next = 5 }

abbrev overrun : Pool
overrun = record pool { next = 2 ^ 63 + 1 }

-- From a counter of 2 ^ 63 on, the index of the first round may be negative.
overrun_panics : (call env (1 ∷ []) overrun 100).0 ≡ panics
unfolding program
overrun_panics = refl
