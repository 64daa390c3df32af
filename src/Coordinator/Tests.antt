-- ===== src/Coordinator/Tests.antt =====
-- The coordination theorems (internal/coordinator) at small clusters and shares.
use ti_assignment_promise_th.Base.{
  ℕ, ◌+◌, ◌*◌, ◌≤◌, ◌<◌, ◌≡◌, ◌≢◌, ◌%◌, ◌-◌, ◌++◌, replicate, refl, String, some, ◌>>=◌, List, [],
  ◌∷◌, arith, div?, string_eq, count_if, true, ◌↔◌,
}
use ti_assignment_promise_th.Base.Dict.{lookup}
use ti_assignment_promise_th.Ratelimit.Gcra.{Time, decide}
use ti_assignment_promise_th.Ratelimit.Gcra.Pacing.{Entry, admitted_within}
use ti_assignment_promise_th.Ratelimit.Gcra.Demux.{Refines}
use ti_assignment_promise_th.Coordinator.{node_share}
use ti_assignment_promise_th.Base.Go.{IsAscending}
use ti_assignment_promise_th.Coordinator.FixedWindow.{
  FixedWindowLimiter, new_fixed_window_limiter, state_in, serve_window,
}
use ti_assignment_promise_th.Coordinator.FixedWindow.Minute.{serve_window-minute_bound}
use ti_assignment_promise_th.Coordinator.FixedWindow.Boundary.{
  used, is_admitted_in, end_of, boundary_burst,
}
use ti_assignment_promise_th.Coordinator.Static.{ShareKey, key_eq, Static}
use ti_assignment_promise_th.Coordinator.Static.Share.{node_share_total, safety_bound}
use ti_assignment_promise_th.Coordinator.Static.Window
use ti_assignment_promise_th.Coordinator.Static.Window.{run, run-Refines, Call, node_params, tat_at}
use ti_assignment_promise_th.Coordinator.Static.Cluster.{
  Node, Log, run_all, admitted_by_all, harness_bound,
}
use ti_assignment_promise_th.Coordinator.ShareGcra.{
  ShareState, allow, serve_share, set_quota, effective_quota,
}
use ti_assignment_promise_th.Coordinator.ShareGcra.Agreement.{allow-decide}
use ti_assignment_promise_th.Coordinator.ShareGcra.Shrinks.{
  Move, request, requota, Trace, serve_moves, is_hit, is_shrink, serve_moves-window_bound,
  set_quota-admits,
}
use ti_assignment_promise_th.Coordinator.ShareGcra.Shrinks.Spent.{spacing}
use ti_assignment_promise_th.Coordinator.ShareGcra.Overrun.{serve_share_overrun, spaced}

node_share_total_example : (100 ≤ 3 * 34) × (3 * 34 < 100 + 3) × (100 % 3 ≢ 0 → 100 < 3 * 34)
node_share_total_example = node_share_total 100 3 34 (omega arith) (unfold node_share div? in refl)

abbrev fresh : Static
fresh = record { node_id = "node-1"; node_count = 3; limiters = [] }

fresh-IsValid : Window.IsValid fresh
fresh-IsValid = record { counted = omega arith; fits = λ key l e. unfold lookup in cc }

abbrev harness_key : ShareKey
harness_key = record { customer_id = "cust_harness_window"; global_limit = 100 }

abbrev other_key : ShareKey
other_key = record { customer_id = "cust_acme_retail"; global_limit = 300 }

abbrev calls : List Call
calls = (harness_key, 1000) ∷ (other_key, 1000) ∷ (harness_key, 1001) ∷ []

-- Every customer into one shard.
abbrev one_shard : String → ℕ
one_shard key = 0

run-Refines_example :
    (log : List (ShareKey × Entry)) × (s' : Static) × (run one_shard fresh calls ≡ some (log, s'))
    × Window.IsValid s'
    × (s'.node_count ≡ 3)
    × Refines (node_params 3) (tat_at one_shard fresh) calls log (tat_at one_shard s')
run-Refines_example = run-Refines one_shard fresh calls fresh-IsValid (omega arith)

abbrev cluster : List Node
cluster = (fresh, calls) ∷ (fresh, []) ∷ (fresh, calls) ∷ []

harness_bound_example :
    (logs : List Log) × (run_all one_shard cluster ≡ some logs)
    × (admitted_by_all harness_key 1000 logs ≤ safety_bound 100)
    × (safety_bound 100 ≤ 105)
harness_bound_example =
    harness_bound one_shard cluster harness_key 1000 refl
      (
        (fresh-IsValid, refl, omega arith),
        ((fresh-IsValid, refl, tt), ((fresh-IsValid, refl, omega arith), tt)),
      )
      (omega arith)

-- A share of seven requests in sixty nanoseconds: eight and four sevenths nanoseconds each.
abbrev seven : ShareState
seven = record { tat = 0; quota = 7; burst = 1 }

serve_share_overrun_example :
    (log : List Entry) × (s' : ShareState) × (serve_share seven 60 (100 ∷ spaced 8 100 8)
      ≡ some (log, s'))
    × (admitted_within 100 160 log ≡ 9)
serve_share_overrun_example =
    serve_share_overrun seven 100 60 refl (omega arith) (omega arith) (λ e. omega arith)
      (omega arith)

abbrev six : ShareState
six = record { tat = 105; quota = 6; burst = 1 }

allow-decide_example : allow six 100 60 ≡ (
    decide 105 100 (record { quota = 6; period = 60; burst = 1 }) >>= λ r.
    some (r.0, record six { tat = r.1 }))
allow-decide_example = allow-decide six 100 60 (omega arith) (omega arith) refl

-- A request is turned away with a quota of six; one of three is told, and it is admitted.
abbrev shrinking : List Move
shrinking = request 100 ∷ request 100 ∷ request 100 ∷ requota 3 ∷ request 100 ∷ []

serve_moves-window_bound_example :
    (log : List Trace) × (s' : ShareState) × (serve_moves six 60 shrinking ≡ some (log, s'))
    × ((lo : Time) → count_if (is_hit lo (lo + 60)) log ≤ 6 + 1 + count_if is_shrink log)
unfolding effective_quota
serve_moves-window_bound_example =
    serve_moves-window_bound six 6 60 shrinking refl (omega arith) (omega arith) (omega arith)

abbrev ahead : ShareState
ahead = record { tat = 120; quota = 6; burst = 1 }

set_quota-admits_example :
    ((true ≡ true) ↔ (120 ≤ 100 + spacing (set_quota ahead 3) 60))
    × (true ≡ true → effective_quota (set_quota ahead 3) < effective_quota ahead)
unfolding effective_quota set_quota allow div?
set_quota-admits_example =
    set_quota-admits ahead 100 60 3 refl (omega arith) (omega arith) refl refl refl

abbrev thirty : FixedWindowLimiter
thirty = record { windows = []; quota = 30 }

boundary_burst_example :
    admitted_within
      (end_of 7 - 1)
      (end_of 7 + 1)
      (serve_window thirty "cust" (replicate 30 (end_of 7 - 1) ++ replicate 30 (end_of 7))).0
    ≡ 60
unfolding used state_in lookup
boundary_burst_example = boundary_burst thirty "cust" 7 refl refl

-- Three requests in the first minute, one in the second.
abbrev in_order : List Time
in_order = 5 ∷ 6 ∷ 7 ∷ 60000000001 ∷ []

in_order-IsAscending : IsAscending in_order
in_order-IsAscending = (
  (omega arith, (omega arith, (omega arith, tt))),
  ((omega arith, (omega arith, tt)), ((omega arith, tt), (tt, tt))),
)

serve_window-minute_bound_example :
    count_if (is_admitted_in 0) (serve_window (new_fixed_window_limiter 2) "cust" in_order).0 ≤ 2
serve_window-minute_bound_example =
    serve_window-minute_bound 2 0 "cust" in_order in_order-IsAscending
