-- ===== src/Coordinator/Peer/History/Tests.antt =====
-- A peer cluster over time (internal/coordinator/peer.go), on two nodes whose shares of a limit of
-- 100 move while requests come in.
use ti_assignment_promise_th.Base.{
  ℕ, ◌+◌, ◌≤◌, ◌≡◌, String, some, none, List, [], ◌∷◌, arith, string_eq,
}
use ti_assignment_promise_th.Base.Dict.{lookup}
use ti_assignment_promise_th.Ratelimit.Gcra.{Time, minute}
use ti_assignment_promise_th.Coordinator.Static.Share.{share_of}
use ti_assignment_promise_th.Coordinator.ShareGcra.{effective_quota}
use ti_assignment_promise_th.Coordinator.Peer.{Peer}
use ti_assignment_promise_th.Coordinator.Peer.History.{Event, ping, instruction, status, share_held}
use ti_assignment_promise_th.Coordinator.Peer.History.Remains.{IsHeld}
use ti_assignment_promise_th.Coordinator.Peer.History.Cluster.{
  Load, Log, serve_peers, all_hits, all_shrinks, serve_peers-window_bound,
}

abbrev peer : String → Peer
peer id = record {
  cfg = record {
    node_id = id;
    node_count = 2;
    peers = ("node-1", "http://node-1") ∷ ("node-2", "http://node-2") ∷ [];
    proposer = "node-1";
    period = minute;
    poll_interval = 1000000000;
    ack_timeout = 400000000;
  };
  customers =
      (
        "cust",
        record {
          share = record { tat = 5; quota = 50; burst = 1 };
          demand = 0;
          global_limit = 100;
          last_applied = 3;
          last_updated = 0;
        },
      )
      ∷ [];
  peer_health = [];
}

abbrev fifty : String → ℕ
fifty id = 50

-- Requests of two customers, and a shrink between them.
abbrev shrinking : List Event
shrinking =
    ping "cust" 100 10
    ∷ ping "other" 60 11
    ∷ instruction 12 none
    ∷ instruction 13 (some (record { customer_id = "cust"; round = 4; quota = 20 }))
    ∷ status
    ∷ ping "cust" 100 14
    ∷ []

abbrev loads : List Load
loads = (peer "node-1", shrinking, fifty) ∷ (peer "node-2", ping "cust" 100 10 ∷ [], fifty) ∷ []

peer-IsHeld : (id : String) → IsHeld fifty (peer id)
unfolding share_held lookup effective_quota
peer-IsHeld id j s e = ground arith

serve_peers-window_bound_example :
    (logs : List Log) × (serve_peers loads ≡ some logs)
    × ((lo : Time) → all_hits "cust" lo (lo + minute) logs ≤ 100 + 2 + all_shrinks "cust" logs)
unfolding share_of
serve_peers-window_bound_example = serve_peers-window_bound loads "cust" minute (
  (
    omega arith,
    (λ j. omega arith),
    peer-IsHeld "node-1",
    (
      (omega arith, omega arith),
      (
        (omega arith, omega arith),
        (tt, ((omega arith, omega arith), (tt, ((omega arith, omega arith), tt)))),
      ),
    ),
    omega arith,
  ),
  (
    (
      omega arith,
      (λ j. omega arith),
      peer-IsHeld "node-2",
      ((omega arith, omega arith), tt),
      omega arith,
    ),
    tt,
  ),
)
