-- ===== src/Httpapi/Tests.antt =====
-- The answers of internal/httpapi/server.go with one customer and a coordinator that counts its
-- calls.
use ti_assignment_promise_th.Base.{
  ℕ, ◌+◌, ◌-◌, ◌%◌, ◌/◌, ◌*◌, ◌≤◌, ◌<◌, ◌≡◌, ◌⊎◌, inr, refl, false, true, count_if, ◌==◌, string_eq,
  String, Option, none, some, List, [], All, ◌∷◌, arith,
}
use ti_assignment_promise_th.Base.Int.{pos}
use ti_assignment_promise_th.Ratelimit.Gcra.{Duration, Decision, rejection, second}
use ti_assignment_promise_th.Policy.Config.{TimeLib, day, contracted_limit, tier_or_zero}
use ti_assignment_promise_th.Policy.Resolver.{
  resolve, find_customer, lookup_customer, find_override,
}
use ti_assignment_promise_th.Base.Dict.{lookup}
use ti_assignment_promise_th.Ratelimit.Gcra.{Time}
use ti_assignment_promise_th.Coordinator.Static.{ShareKey, key_eq, Static}
use ti_assignment_promise_th.Coordinator.Static.Share.{safety_bound}
use ti_assignment_promise_th.Coordinator.Static.Window as Window
use ti_assignment_promise_th.Policy.Samples.{small_time, written, served, validated}
use ti_assignment_promise_th.Policy.Validate.{validate-IsValid}
use ti_assignment_promise_th.Httpapi.Serve.{Event, Answer}
use ti_assignment_promise_th.Httpapi.Cluster.{
  Load, IsStarted, served_by_all, serve_all, serve_all-harness_bound,
}
use ti_assignment_promise_th.Httpapi.{
  Coordinator, Server, Response, handle_ping, respond, is_unknown, routes, register_routes,
}
use ti_assignment_promise_th.Httpapi.Answers.{handle_ping-closed, handle_ping-retry}

abbrev unread : String → Option (ℕ × ℕ)
unread s = none

no_time_of_day : (s : String) (h m : ℕ) → unread s ≡ some (h, m) → (h < 24) × (m < 60)
no_time_of_day s h m e = cc

abbrev bare_time : TimeLib
bare_time = record {
  parse_date = λ s. none;
  parse_hhmm = unread;
  hhmm_range = no_time_of_day;
  start_of_day = λ t. t - t % day;
  start_of_day-le = λ t. omega arith;
  lt-start_of_day = λ t. omega arith;
}

-- It refuses every request, for a second and a half.
abbrev refusing : Coordinator ℕ
refusing = record { allow = λ calls id limit now. some (rejection 1 1500000000, calls + 1) }

abbrev half : Duration → Duration
half base = base / 2

abbrev server : Server ℕ
server = record {
  node_id = "node-1";
  resolver = record {
    cfg = record {
      tiers = [];
      customers = record { id = "acme"; tier = "growth"; limit_rpm = pos 60 } ∷ [];
      overrides = [];
    };
  };
  coord = 0;
}

handle_ping-closed_example :
    (answer : Response) × (handle_ping bare_time refusing half server "stranger" 7
      ≡ some (answer, server, []))
    × ((answer.status ≡ 400) ⊎ (answer.status ≡ 403))
    × (answer.x_ratelimit_remaining ≡ none)
unfolding find_customer
handle_ping-closed_example =
    handle_ping-closed bare_time refusing half server "stranger" 7 (inr refl)

abbrev limited : Response
limited = respond half "node-1" "acme" (pos 60) (rejection 1 1500000000)

handle_ping-retry_example :
    (d : Decision) × (wait : ℕ) × (reset : ℕ) × (refusing.allow 0 "acme"
        (resolve bare_time server.resolver "acme" 7).0.limit
        7
      ≡ some (d, 1))
    × (d.allowed ≡ false)
    × (limited.retry_after ≡ some wait)
    × (limited.x_ratelimit_reset ≡ some reset)
    × (1 ≤ wait)
    × (d.retry_after ≤ wait * second)
    × (reset ≤ wait)
unfolding handle_ping resolve find_override lookup_customer find_customer contracted_limit
    tier_or_zero is_unknown
handle_ping-retry_example =
    handle_ping-retry bare_time refusing half server (record server { coord = 1 }) "acme" 7 limited
      [] refl (unfold respond rejection in refl)

-- A node that starts on the config of Policy.Samples, and one event of each kind that it can get.
abbrev started : Server Static
started = record {
  node_id = "node-1";
  resolver = record { cfg = served };
  coord = record { node_id = "node-1"; node_count = 3; limiters = [] };
}

started-IsValid : Window.IsValid started.coord
started-IsValid = record { counted = omega arith; fits = λ key l e. unfold lookup in cc }

abbrev one_shard : String → ℕ
one_shard key = 0

abbrev happenings : List Event
happenings =
    Event.ping "acme" (2 * day)
    ∷ Event.ping "stranger" (2 * day + 1)
    ∷ Event.hangup (record { at = 2 * day + 2; load_config = λ path. none })
    ∷ Event.ping "acme" (2 * day + 3)
    ∷ []

abbrev loads : List Load
loads = (started, happenings) ∷ (started, []) ∷ (started, happenings) ∷ []

loads-IsStarted : All (IsStarted small_time one_shard half "customers.yaml" 3) loads
loads-IsStarted =
    let valid = (validate-IsValid small_time written day validated).0 in
    let node : IsStarted small_time one_shard half "customers.yaml" 3 (started, happenings) =
      ((day, valid), started-IsValid, refl) in
    let idle : IsStarted small_time one_shard half "customers.yaml" 3 (started, []) =
      ((day, valid), started-IsValid, refl) in
    (node, (idle, (node, tt)))

serve_all-harness_bound_example :
    (answers : List (List Answer)) × (serve_all small_time one_shard half "customers.yaml" loads
      ≡ some answers)
    × ((key : ShareKey) (lo : Time)
        → 1 ≤ key.global_limit
        → (served_by_all key lo answers ≤ safety_bound key.global_limit)
          × (safety_bound key.global_limit ≤ key.global_limit + 5))
serve_all-harness_bound_example =
    serve_all-harness_bound small_time one_shard half "customers.yaml" loads refl loads-IsStarted

-- No pattern is registered twice, which would make http.ServeMux panic.
routes-IsDistinct : All (λ r. count_if (λ q. q.0 == r.0) (routes true) ≡ 1) (routes true)
unfolding routes register_routes
routes-IsDistinct = omega arith
