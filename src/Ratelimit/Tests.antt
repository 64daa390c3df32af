-- ===== src/Ratelimit/Tests.antt =====
-- Runs of the limiter (internal/ratelimit) on inputs that can be followed by hand, and the theorems
-- at such inputs.
use ti_assignment_promise_th.Base.{
  div?, string_eq, ℕ, ◌+◌, ◌≤◌, ◌≡◌, refl, true, false, String, none, some, List, [], ◌∷◌, arith,
  leb, replicate,
}
use ti_assignment_promise_th.Ratelimit.Gcra.{
  Time, Params, Decision, decide, admitted, rate_exceeded,
}
use ti_assignment_promise_th.Ratelimit.Gcra.Pacing.{serve_one, admitted_within}
use ti_assignment_promise_th.Ratelimit.Gcra.Demux.{entries, Refines}
use ti_assignment_promise_th.Ratelimit.Gcra.Answers.{
  admits, retry_after_exact, admitted_count, remaining_exact,
}
use ti_assignment_promise_th.Ratelimit.Store
use ti_assignment_promise_th.Ratelimit.Store.{tat_of, new_store-IsValid}
use ti_assignment_promise_th.Ratelimit.Limiter.{
  Limiter, new_limiter, serve, serve-Refines, serve-window_bound, Served, Request,
}

-- Two requests in ten nanoseconds, one of them early.
abbrev pair : Params
pair = record { quota = 2; period = 10; burst = 1 }

abbrev turned_away : Decision
turned_away = record {
  allowed = false;
  remaining = 0;
  retry_after = 3;
  limit = 2;
  reason = rate_exceeded;
}

abbrev let_in : Decision
let_in = record { allowed = true; remaining = 1; retry_after = 0; limit = 2; reason = admitted }

decide_early : decide 18 10 pair ≡ some (turned_away, 18)
unfolding decide div?
decide_early = refl

decide_first : decide 0 10 pair ≡ some (let_in, 15)
unfolding decide div?
decide_first = refl

decide_zero_quota : decide 0 10 (record { quota = 0; period = 10; burst = 1 }) ≡ none
unfolding decide div?
decide_zero_quota = refl

retry_after_exact_example : admits pair 18 13 ≡ leb (10 + 3) 13
retry_after_exact_example =
    (retry_after_exact pair 18 10 {d = turned_away} {tat' = 18} (omega arith) decide_early refl).2
      13

abbrev last_in : Decision
last_in = record { allowed = true; remaining = 0; retry_after = 0; limit = 2; reason = admitted }

abbrev shut : Decision
shut = record { allowed = false; remaining = 0; retry_after = 5; limit = 2; reason = rate_exceeded }

burst_of_three :
    serve_one pair 15 (replicate 3 10) ≡ some ((10, last_in) ∷ (10, shut) ∷ (10, shut) ∷ [], 20)
unfolding serve_one decide div?
burst_of_three = refl

remaining_exact_example : admitted_count ((10, last_in) ∷ (10, shut) ∷ (10, shut) ∷ []) ≡ 1
remaining_exact_example =
    remaining_exact pair 0 10 3 {d = let_in} {tat' = 15} {tat'' = 20}
      {log = (10, last_in) ∷ (10, shut) ∷ (10, shut) ∷ []} (omega arith) decide_first refl
      burst_of_three

abbrev two_customers : List Request
two_customers = ("a", 10) ∷ ("b", 10) ∷ ("a", 10) ∷ ("a", 11) ∷ []

-- A hash that puts every customer into one shard.
abbrev one_shard : String → ℕ
one_shard key = 7

serve-Refines_example :
    (log : List Served) × (l' : Limiter) × (serve one_shard (new_limiter pair) two_customers
      ≡ some (log, l'))
    × Store.IsValid l'.store
    × (l'.params ≡ pair)
    × Refines
        (λ c. pair)
        (tat_of one_shard (new_limiter pair).store)
        two_customers
        log
        (tat_of one_shard l'.store)
unfolding new_limiter
serve-Refines_example =
    serve-Refines one_shard (new_limiter pair) two_customers (omega arith) new_store-IsValid

serve-window_bound_example :
    (log : List Served) × (l' : Limiter) × (serve one_shard (new_limiter pair) two_customers
      ≡ some (log, l'))
    × ((c : String) (lo : Time) → admitted_within lo (lo + 10) (entries c log) ≤ 3)
unfolding new_limiter
serve-window_bound_example =
    serve-window_bound one_shard (new_limiter pair) two_customers (omega arith) new_store-IsValid
