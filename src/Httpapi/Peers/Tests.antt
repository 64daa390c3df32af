-- ===== src/Httpapi/Peers/Tests.antt =====
-- Two nodes of internal/httpapi/server.go over the peer strategy, with one customer.
use ti_assignment_promise_th.Base.{
  ℕ, ◌+◌, ◌-◌, ◌%◌, ◌≤◌, ◌<◌, ◌≡◌, String, Option, none, some, List, [], ◌∷◌, arith, All, string_eq,
}
use ti_assignment_promise_th.Base.Int.{pos}
use ti_assignment_promise_th.Base.Dict.{lookup}
use ti_assignment_promise_th.Ratelimit.Gcra.{Time, Duration, minute}
use ti_assignment_promise_th.Coordinator.Static.Share.{share_of}
use ti_assignment_promise_th.Coordinator.ShareGcra.{effective_quota}
use ti_assignment_promise_th.Coordinator.Peer.{Peer}
use ti_assignment_promise_th.Coordinator.Peer.History.{share_held}
use ti_assignment_promise_th.Coordinator.Peer.History.Remains.{IsHeld}
use ti_assignment_promise_th.Coordinator.Peer.History.Cluster.{
  Log, IsReady, serve_peers, all_shrinks,
}
use ti_assignment_promise_th.Policy.Config.{TimeLib, day, contracted_limit, tier_or_zero}
use ti_assignment_promise_th.Policy.Resolver.{
  resolve, find_customer, lookup_customer, find_override,
}
use ti_assignment_promise_th.Httpapi.{Server, is_unknown}
use ti_assignment_promise_th.Httpapi.Serve.{Answer}
use ti_assignment_promise_th.Httpapi.Peers.{NodeEvent, request, instruction, status, calls_of}
use ti_assignment_promise_th.Httpapi.Peers.Cluster.{
  NodeLoad, serve_nodes, coordinators, answered_by_all, serve_nodes-window_bound,
}

abbrev unread : String → Option (ℕ × ℕ)
unread s = none

no_time_of_day : (s : String) (h m : ℕ) → unread s ≡ some (h, m) → (h < 24) × (m < 60)
no_time_of_day s h m e = cc

abbrev bare_time : TimeLib
bare_time = record {
  parse_date = λ s. none;
  parse_hhmm = unread;
  hhmm_range = no_time_of_day;
  start_of_day = λ t. t - t % day;
  start_of_day-le = λ t. omega arith;
  lt-start_of_day = λ t. omega arith;
}

abbrev still : Duration → Duration
still base = 0

abbrev server : String → Server Peer
server id = record {
  node_id = id;
  resolver = record {
    cfg = record {
      tiers = [];
      customers = record { id = "acme"; tier = "growth"; limit_rpm = pos 60 } ∷ [];
      overrides = [];
    };
  };
  coord = record {
    cfg = record {
      node_id = id;
      node_count = 2;
      peers = ("node-1", "http://node-1") ∷ ("node-2", "http://node-2") ∷ [];
      proposer = "node-1";
      period = minute;
      poll_interval = 1000000000;
      ack_timeout = 400000000;
    };
    customers = [];
    peer_health = [];
  };
}

abbrev thirty : String → ℕ
thirty id = 30

abbrev events : List NodeEvent
events =
    request "acme" 7
    ∷ request "stranger" 8
    ∷ instruction 9 (some (record { customer_id = "acme"; round = 1; quota = 20 }))
    ∷ status
    ∷ request "acme" 10
    ∷ []

abbrev loads : List NodeLoad
loads = (server "node-1", events, thirty) ∷ (server "node-2", request "acme" 7 ∷ [], thirty) ∷ []

server-IsHeld : (id : String) → IsHeld thirty (server id).coord
unfolding share_held lookup effective_quota
server-IsHeld id j s e = ground arith

loads-IsReady : All (IsReady "acme" minute) (coordinators bare_time still "customers.yaml" loads)
unfolding calls_of share_of resolve find_customer lookup_customer find_override contracted_limit
    tier_or_zero is_unknown lookup
loads-IsReady = (
  (
    omega arith,
    (λ j. omega arith),
    server-IsHeld "node-1",
    (
      (omega arith, omega arith),
      ((omega arith, omega arith), (tt, ((omega arith, omega arith), tt))),
    ),
    omega arith,
  ),
  (
    (
      omega arith,
      (λ j. omega arith),
      server-IsHeld "node-2",
      ((omega arith, omega arith), tt),
      omega arith,
    ),
    tt,
  ),
)

serve_nodes-window_bound_example :
    (answers : List (List Answer)) × (logs : List Log) × (serve_nodes bare_time still
        "customers.yaml" loads
      ≡ some answers)
    × (serve_peers (coordinators bare_time still "customers.yaml" loads) ≡ some logs)
    × ((lo : Time)
        → answered_by_all bare_time still "customers.yaml" "acme" lo (lo + minute) answers
          ≤ 60 + 2 + all_shrinks "acme" logs)
serve_nodes-window_bound_example =
    serve_nodes-window_bound bare_time still "customers.yaml" loads "acme" minute loads-IsReady
