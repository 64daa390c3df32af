-- ===== src/Harness/Tests.antt =====
-- The harness theorems (cmd/harness) at a few responses and the config of configs/customers.yaml's
-- shape.
use ti_assignment_promise_th.Base.{
  ℕ, if◌then◌else◌, ltb, ◌+◌, ◌*◌, ◌≤◌, ◌≡◌, ◌↔◌, refl, Bool, true, false, String, Option, none,
  some, List, [], ◌∷◌, count_if, length, All, arith, string_eq,
}
use ti_assignment_promise_th.Base.Int.{pos}
use ti_assignment_promise_th.Base.Dict.{lookup, lookup_or, insert}
use ti_assignment_promise_th.Base.Go.{IsAscending}
use ti_assignment_promise_th.Base.Go.Samples.{fractions, sorting}
use ti_assignment_promise_th.Ratelimit.Gcra.{Time, second}
use ti_assignment_promise_th.Coordinator.Static.Share.{safety_bound}
use ti_assignment_promise_th.Policy.Config.{day, contracted_limit, tier_or_zero}
use ti_assignment_promise_th.Policy.Resolver.{find_customer}
use ti_assignment_promise_th.Policy.Samples.{small_time, written, served, validated}
use ti_assignment_promise_th.Policy.Validate.{validate-IsValid}
use ti_assignment_promise_th.Harness.Analysis.{
  Record, is_admitted, max_rolling60s, sorted_times, admitted_times, roll, search_first, summarize,
  per_calendar_minute,
}
use ti_assignment_promise_th.Harness.Analysis.Exact.{
  admitted_in_minute, sum_values, max_rolling60s-exact, summarize-accounts,
}
use ti_assignment_promise_th.Harness.Minutes.{format_minute_buckets, sift, sort_keys}
use ti_assignment_promise_th.Harness.Minutes.Tally.{times_in}
use ti_assignment_promise_th.Harness.Minutes.Ordered.{
  minutes_listed, IsCounted, admitted_in, format_minute_buckets-ordered,
}
use ti_assignment_promise_th.Harness.CrossCheck.{ServerLogLine}
use ti_assignment_promise_th.Harness.Report.{
  Verdict, CustomerResult, ScenarioResult, any_fail, scenario_verdict, any_row_fails,
}
use ti_assignment_promise_th.Harness.Scenarios.{Env, make_customer_result, northwind_batch}
use ti_assignment_promise_th.Harness.Verdicts.{Passes, make_customer_result-verdict}
use ti_assignment_promise_th.Harness.Batch.{IsServed, northwind_batch-verdict}
use ti_assignment_promise_th.Harness.Contracts.{contracted_limits, contracted_limits-lookup}

abbrev answered : Time → Bool → Record
answered t allowed = record {
  sent_at = t;
  received_at = t + second;
  node_id = "node1";
  status_code = 200;
  allowed = allowed;
  failed = false;
}

abbrev timed_out : Record
timed_out = record {
  sent_at = 4 * second;
  received_at = 9 * second;
  node_id = "";
  status_code = 0;
  allowed = false;
  failed = true;
}

-- Three admissions in a minute and one more after it; the responses come out of order.
abbrev responses : List Record
responses =
    answered (70 * second) true
    ∷ answered (10 * second) true
    ∷ answered (150 * second) true
    ∷ answered (40 * second) true
    ∷ answered (41 * second) false
    ∷ timed_out
    ∷ []

three_in_a_minute :
    max_rolling60s sorting responses
    ≡ record { max = 3; window_start = 11 * second; window_end = 71 * second }
unfolding max_rolling60s sorted_times admitted_times roll search_first
three_in_a_minute = refl

max_rolling60s-exact_example :
    ((lo : Time) → admitted_in_minute lo responses ≤ (max_rolling60s sorting responses).max)
    × ((lo : Time) × (admitted_in_minute lo responses ≡ (max_rolling60s sorting responses).max))
max_rolling60s-exact_example = max_rolling60s-exact sorting responses

summarize-accounts_example :
    ((summarize sorting responses).admitted ≡ count_if is_admitted responses)
    × ((summarize sorting responses).sent
        ≡ (summarize sorting responses).admitted + (summarize sorting responses).rejected)
    × ((summarize sorting responses).sent + (summarize sorting responses).errored
        ≡ length responses)
    × (sum_values (summarize sorting responses).node_distribution
        ≤ (summarize sorting responses).sent)
summarize-accounts_example = summarize-accounts sorting responses

listed_minutes :
    format_minute_buckets (per_calendar_minute responses []) ≡ (0, 2) ∷ (1, 1) ∷ (2, 1) ∷ []
unfolding format_minute_buckets per_calendar_minute sort_keys sift lookup_or insert lookup
listed_minutes = refl

format_minute_buckets-ordered_example :
    IsAscending (minutes_listed responses)
    × All (IsCounted responses) (format_minute_buckets (per_calendar_minute responses []))
    × ((k : ℕ)
        → times_in k (minutes_listed responses)
          ≡ (if ltb 0 (admitted_in k responses) then 1 else 0))
format_minute_buckets-ordered_example = format_minute_buckets-ordered responses

abbrev env : Env
env = record {
  base_url = "http://localhost:8080";
  contracted_limit = ("cust_northwind_logistics", pos 300) ∷ [];
  kill_cmd = "";
  revive_cmd = "";
  kill_at = 15 * second;
  compose_file = "";
  services = [];
}

abbrev no_text : Time → String
no_text t = ""

abbrev no_docker : String → List String → Option (List (Option ServerLogLine))
no_docker file services = none

make_customer_result-verdict_example :
    Passes (
      make_customer_result fractions sorting no_text no_docker env "cust_harness_window" 100 100
        responses)
    ↔ ((lo : Time) → admitted_in_minute lo responses ≤ safety_bound 100)
make_customer_result-verdict_example =
    make_customer_result-verdict fractions sorting no_text no_docker env "cust_harness_window" 100
      100 responses

northwind_batch-verdict_example :
    (s : ScenarioResult) × (northwind_batch fractions sorting no_text no_docker env
        (some 1250)
        responses
      ≡ some s)
    × ((scenario_verdict s ≡ Verdict.pass) ↔ (
        ((lo : Time) → admitted_in_minute lo responses ≤ safety_bound 1250)
        × IsServed 1250
            (lookup_or (pos 0) "cust_northwind_logistics" env.contracted_limit)
            (summarize sorting responses).rejected))
northwind_batch-verdict_example =
    northwind_batch-verdict fractions sorting no_text no_docker env 1250 responses (omega arith)

abbrev row : Verdict → CustomerResult
row v = record {
  customer_id = "cust_harness_window";
  contracted_limit = pos 100;
  effective_limit = 100;
  offered_rpm = 100;
  sent = 5;
  admitted = 4;
  rejected = 1;
  errored = 0;
  max_rolling60s = 3;
  node_distribution = [];
  verdict = v;
  notes = [];
}

abbrev scenarios : List ScenarioResult
scenarios =
    record { name = "window-boundary"; customers = row Verdict.pass ∷ []; notes = [] }
    ∷ record {
      name = "two-tenants-fair";
      customers = row Verdict.pass ∷ row Verdict.fail ∷ [];
      notes = [];
    }
    ∷ []

-- One row that fails is enough.
any_fail-scenarios : any_fail scenarios ≡ true
unfolding any_fail scenario_verdict any_row_fails
any_fail-scenarios = refl

contracted_limits-lookup_example : lookup "acme" (contracted_limits served) ≡ some (pos 300)
unfolding find_customer contracted_limit tier_or_zero lookup_or
contracted_limits-lookup_example =
    contracted_limits-lookup small_time day served "acme"
      (validate-IsValid small_time written day validated).0
