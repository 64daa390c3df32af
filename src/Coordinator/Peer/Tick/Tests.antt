-- ===== src/Coordinator/Peer/Tick/Tests.antt =====
-- A tick of internal/coordinator/peer.go on two nodes: the polls, and the rebalance of their
-- customer by demands of 1 and 9.
use ti_assignment_promise_th.Base.{
  ℕ, Bool, true, ◌≤◌, ◌≡◌, refl, ◌⊎◌, inl, inr, String, some, List, [], ◌∷◌, arith, string_eq, ◌==◌,
  Bool-cases, subst, count_if,
}
use ti_assignment_promise_th.Base.Dict.{Dict, lookup, insert, lookup_or}
use ti_assignment_promise_th.Base.Go.Samples.{fractions, sorting}
use ti_assignment_promise_th.Ratelimit.Gcra.{minute}
use ti_assignment_promise_th.Coordinator.ShareGcra.{current_quota}
use ti_assignment_promise_th.Coordinator.Peer.{
  Peer, StatusResponse, local_status, report_all, report, reset_demand, record_health,
}
use ti_assignment_promise_th.Coordinator.Peer.Round.{
  Cluster, Exchange, Fate, NodeSplit, note, gather, node_split, known_global_limit,
}
use ti_assignment_promise_th.Coordinator.Peer.Tick.{
  Demands, weights_of, smooth_demand, in_order, fetch_status, poll, poll_all_nodes, all_seen,
  add_seen, run_rebalance_tick,
}
use ti_assignment_promise_th.Coordinator.Peer.Tick.Safety.{IsExact}
use ti_assignment_promise_th.Coordinator.Peer.Tick.Polls.{IsUniform}
use ti_assignment_promise_th.Coordinator.Peer.Tick.Whole.{
  IsUntouched, IsSettled, run_rebalance_tick-safe,
}
use ti_assignment_promise_th.Coordinator.Peer.Tick.Rebalance.{
  IsMap, HasExactSplit, limit_in, nodes_in,
}

abbrev urls : Dict String String
urls = ("node-1", "http://node-1") ∷ ("node-2", "http://node-2") ∷ []

abbrev peer : String → ℕ → Peer
peer id demand = record {
  cfg = record {
    node_id = id;
    node_count = 2;
    peers = urls;
    proposer = "node-1";
    period = minute;
    poll_interval = 1000000000;
    ack_timeout = 400000000;
  };
  customers =
      (
        "cust",
        record {
          share = record { tat = 5; quota = 50; burst = 1 };
          demand = demand;
          global_limit = 100;
          last_applied = 3;
          last_updated = 0;
        },
      )
      ∷ [];
  peer_health = [];
}

abbrev pair : Cluster
pair = record { proposer = peer "node-1" 1; others = ("node-2", peer "node-2" 9) ∷ [] }

abbrev reached : String → Exchange
reached id = record { fate = Fate.delivered; here = 1; there = 2 }

-- Node 2 applies what it is told, but its answer does not come in time.
abbrev unheard : String → Exchange
unheard id = record { fate = Fate.unanswered; here = 3; there = 4 }

abbrev no_demands : Demands fractions sorting
no_demands = []

pair-IsUniform : IsUniform 2 pair
unfolding lookup
pair-IsUniform = record { positive = omega arith; own = refl; others = λ id p e. ground arith }

urls-IsMap : IsMap urls
urls-IsMap id = elim (Bool-cases ("node-2" == id)) [
  | inl same ↦
      subst (λ k. count_if (λ (e : String × String). e.0 == k) urls ≤ 1)
        ((string_eq.beq_iff "node-2" id).0 same) (omega arith)
  | inr other ↦ ground arith
]

abbrev after_polls : Dict String StatusResponse × Cluster
after_polls = poll_all_nodes reached urls pair

abbrev splits : List NodeSplit
splits =
    record { node_id = "node-1"; current = 50; demand = 1 }
    ∷ record { node_id = "node-2"; current = 50; demand = 9 }
    ∷ []

limit_in-pair : limit_in "cust" after_polls.0 after_polls.1 ≡ 100
unfolding poll_all_nodes poll fetch_status note record_health local_status report_all report
    reset_demand lookup insert current_quota known_global_limit
limit_in-pair = refl

nodes_in-pair : nodes_in "cust" after_polls.0 after_polls.1 ≡ some splits
unfolding poll_all_nodes poll fetch_status note record_health local_status report_all report
    reset_demand lookup insert current_quota known_global_limit gather node_split
nodes_in-pair = refl

splits-IsExact :
    IsExact 100
      (weights_of fractions sorting no_demands "cust" (in_order fractions sorting splits)).0
unfolding weights_of smooth_demand in_order lookup lookup_or insert
splits-IsExact = (omega arith, omega arith)

pair-HasExactSplit : HasExactSplit fractions sorting "cust" after_polls.0 no_demands after_polls.1
pair-HasExactSplit nodes e =
    let is : splits ≡ nodes = cc (nodes_in-pair) in
    rw limit_in-pair (
      subst
        (λ ns.
          IsExact 100
            (weights_of fractions sorting no_demands "cust" (in_order fractions sorting ns)).0)
        is splits-IsExact)

seen-pair : all_seen after_polls.0 ≡ ("cust", true) ∷ []
unfolding all_seen add_seen poll_all_nodes poll fetch_status note record_health local_status
    report_all report reset_demand lookup insert
seen-pair = refl

all-HasExactSplit :
    (c : String) (b : Bool)
    → lookup c (all_seen after_polls.0) ≡ some b
    → HasExactSplit fractions sorting c after_polls.0 no_demands after_polls.1
unfolding lookup
all-HasExactSplit c b e = elim (Bool-cases ("cust" == c)) [
  | inl same ↦
      subst (λ k. HasExactSplit fractions sorting k after_polls.0 no_demands after_polls.1)
        ((string_eq.beq_iff "cust" c).0 same) pair-HasExactSplit
  | inr other ↦
      let named : lookup c (("cust", true) ∷ []) ≡ some b =
        subst (λ m. lookup c m ≡ some b) seen-pair e in
      absurd (ground (arith, named, other))
]

run_rebalance_tick-safe_example :
    (t : Demands fractions sorting × Cluster) × (run_rebalance_tick fractions sorting reached
        (λ c. unheard)
        no_demands
        pair
      ≡ some t)
    × (IsUntouched "cust" pair t.1 ⊎ IsSettled "cust" after_polls.0 pair.proposer.cfg pair t.1)
run_rebalance_tick-safe_example =
    run_rebalance_tick-safe fractions sorting 2 reached (λ c. unheard) no_demands pair "cust"
      pair-IsUniform urls-IsMap all-HasExactSplit
