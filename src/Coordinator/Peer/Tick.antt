-- ===== src/Coordinator/Peer/Tick.antt =====
-- A tick of the proposer in internal/coordinator/peer.go: pollAllNodes, smoothDemand,
-- rebalanceCustomer and runRebalanceTick. The polls run at the same time, but each touches another
-- node and the health of that node only, so their order does not matter.
pub mod Safety
pub mod Stall
pub mod Progress
pub mod Polls
pub mod Rebalance
pub mod Frame
pub mod Phases
pub mod Apart
pub mod Seen
pub mod Whole
mod Tests
use Prim.Native.String.{compare}
use Prim.Native.Nat.{Ordering}
use ti_assignment_promise_th.Base.{
  ℕ, ◌+◌, Bool, true, false, String, Option, none, some, ◌>>=◌, List, [], ◌∷◌, ◌==◌, if◌then◌else◌,
  string_eq, ltb, nat_beq,
}
use ti_assignment_promise_th.Base.Dict.{Dict, lookup, lookup_or, insert}
use ti_assignment_promise_th.Base.Go.{Floats, Sorting}
use ti_assignment_promise_th.Ratelimit.Gcra.{Time}
use ti_assignment_promise_th.Coordinator.Peer.{
  Peer, PeerConfig, StatusResponse, CustomerStatus, local_status, customer_for, is_proposer,
}
use ti_assignment_promise_th.Coordinator.Peer.Split.{proportional_split}
use ti_assignment_promise_th.Coordinator.Peer.Round.{
  Cluster, Exchange, Fate, NodeSplit, Plan, note, gather, deltas_of, max_abs_delta, hysteresis_rpm,
  run_round, next_round, known_global_limit,
}

-- fetchStatus: the answer, if it comes; a node that gets the poll has its demand counters reset
-- even if its answer is lost.
unfoldable pub fetch_status : Cluster → String → Exchange → Option StatusResponse × Cluster
fetch_status w id x = elim (lookup id w.others) [
  | none ↦ (none, w)
  | some p ↦
      let r = local_status p in
      let polled = record w { others = insert id r.1 w.others } in
      elim x.fate [
        | Fate.malformed ↦ (none, w)
        | Fate.lost ↦ (none, w)
        | Fate.unanswered ↦ (none, polled)
        | Fate.garbled ↦ (none, polled)
        | Fate.delivered ↦ (some r.0, polled)
      ]
]

-- One node of pollAllNodes.
unfoldable pub poll : Cluster → String → Exchange → Option StatusResponse × Cluster
unfolding fetch_status note
poll w id x =
    if id == w.proposer.cfg.node_id
    then (let r = local_status w.proposer in
        (some r.0, note (record w { proposer = r.1 }) id true x.here))
    else (let r = fetch_status w id x in
        elim r.0 [
          | none ↦ (none, note r.1 id false x.here)
          | some st ↦ (some st, note r.1 id true x.here)
        ])

-- pollAllNodes.
unfoldable pub poll_all_nodes :
    (String → Exchange) → Dict String String → Cluster → Dict String StatusResponse × Cluster
unfolding poll
poll_all_nodes net [] w = ([], w)
poll_all_nodes net ((id, url) ∷ peers) w =
    let r = poll w id (net id) in
    let rest = poll_all_nodes net peers r.1 in
    elim r.0 [ none ↦ rest | some st ↦ (insert id st rest.0, rest.1) ]

abbrev pub is_before : String → String → Bool
is_before a b = elim (compare a b) [ Ordering.lt ↦ true | _ ↦ false ]

-- A set of names, as the keys of the map `seen`.
unfoldable pub add_seen : Dict String CustomerStatus → Dict String Bool → Dict String Bool
add_seen [] seen = seen
add_seen ((id, cs) ∷ m) seen = add_seen m (insert id true seen)

unfoldable pub all_seen : Dict String StatusResponse → Dict String Bool
unfolding add_seen
all_seen [] = []
all_seen ((id, st) ∷ m) = add_seen st.customers (all_seen m)

-- What rebalanceCustomer does from the number of its round on.
unfoldable pub start_round :
    String → ℕ → List NodeSplit → List ℕ → (String → Exchange) → Cluster → Option Cluster
start_round customer_id limit nodes targets net w =
    customer_for w.proposer customer_id limit >>= λ found.
    run_round
      (record {
        customer_id = customer_id;
        round = next_round found.0.last_applied;
        nodes = nodes;
        targets = targets;
        deltas = deltas_of nodes targets;
      })
      net (record w { proposer = found.1 })

module _ (fl : Floats) (sorting : Sorting) where
  -- emaDemand: for each customer the smoothed demand of each node.
  abbrev pub Demands : Type 0
  Demands = Dict String (Dict String fl.Float)

  -- demandEMAAlpha, 0.2, and 1 - demandEMAAlpha, a constant expression.
  abbrev pub alpha : fl.Float
  alpha = fl.quotient (fl.of_int 1) (fl.of_int 5)

  abbrev pub one_minus_alpha : fl.Float
  one_minus_alpha = fl.quotient (fl.of_int 4) (fl.of_int 5)

  -- smoothDemand.
  unfoldable pub smooth_demand : Demands → String → String → fl.Float → fl.Float × Demands
  smooth_demand ema customer_id node_id raw =
      let by_node = lookup_or [] customer_id ema in
      let next : fl.Float = elim (lookup node_id by_node) [
        | none ↦ raw
        | some prev ↦ fl.add (fl.mul alpha raw) (fl.mul one_minus_alpha prev)
      ] in
      (next, insert customer_id (insert node_id next by_node) ema)

  -- The loop that fills `weights`.
  unfoldable pub weights_of : Demands → String → List NodeSplit → List ℕ × Demands
  unfolding smooth_demand
  weights_of ema customer_id [] = ([], ema)
  weights_of ema customer_id (n ∷ nodes) =
      let r = smooth_demand ema customer_id n.node_id (fl.of_int n.demand) in
      let rest = weights_of r.1 customer_id nodes in
      ((fl.trunc (fl.mul r.0 (fl.of_int 1000)) + 1) ∷ rest.0, rest.1)

  -- The nodes in the order of their ids.
  unfoldable pub in_order : List NodeSplit → List NodeSplit
  in_order nodes = sorting.sort (λ a b. is_before a.node_id b.node_id) nodes

  -- rebalanceCustomer from the nodes that answered on.
  unfoldable pub split_customer :
      String
      → ℕ
      → List NodeSplit
      → (String → Exchange)
      → Demands
      → Cluster
      → Option (Demands × Cluster)
  unfolding weights_of start_round in_order
  split_customer customer_id limit [] net ema w = some (ema, w)
  split_customer customer_id limit (n ∷ ns) net ema w =
      let nodes = in_order (n ∷ ns) in
      let weighed = weights_of ema customer_id nodes in
      let targets = proportional_split fl sorting limit weighed.0 in
      if ltb (max_abs_delta nodes targets) hysteresis_rpm
      then some (weighed.1, w)
      else (start_round customer_id limit nodes targets net w >>= λ w'. some (weighed.1, w'))

  -- rebalanceCustomer.
  unfoldable pub rebalance_customer :
      String
      → Dict String StatusResponse
      → (String → Exchange)
      → Demands
      → Cluster
      → Option (Demands × Cluster)
  unfolding split_customer
  rebalance_customer customer_id statuses net ema w =
      let cfg = w.proposer.cfg in
      let limit = known_global_limit cfg.node_id customer_id statuses in
      if nat_beq limit 0
      then some (ema, w)
      else (gather limit cfg.node_count customer_id statuses cfg.peers >>= λ nodes.
          split_customer customer_id limit nodes net ema w)

  -- The loop of runRebalanceTick over the customers.
  unfoldable pub rebalance_all :
      Dict String Bool
      → Dict String StatusResponse
      → (String → String → Exchange)
      → Demands
      → Cluster
      → Option (Demands × Cluster)
  unfolding rebalance_customer
  rebalance_all [] statuses net ema w = some (ema, w)
  rebalance_all ((customer_id, _) ∷ seen) statuses net ema w =
      rebalance_customer customer_id statuses (net customer_id) ema w >>= λ r.
      rebalance_all seen statuses net r.0 r.1

  -- runRebalanceTick: `polls` and `net` say what the network does with each poll and, for each
  -- customer, with each instruction.
  unfoldable pub run_rebalance_tick :
      (String → Exchange)
      → (String → String → Exchange)
      → Demands
      → Cluster
      → Option (Demands × Cluster)
  unfolding rebalance_all poll_all_nodes all_seen
  run_rebalance_tick polls net ema w =
      let r = poll_all_nodes polls w.proposer.cfg.peers w in
      rebalance_all (all_seen r.0) r.0 net ema r.1

  -- Run, up to the ticker: a node that is not the proposer does nothing.
  pub run :
      List ((String → Exchange) × (String → String → Exchange))
      → Demands
      → Cluster
      → Option (Demands × Cluster)
  unfolding run_rebalance_tick
  run [] ema w = some (ema, w)
  run ((polls, net) ∷ ticks) ema w =
      if is_proposer w.proposer
      then (run_rebalance_tick polls net ema w >>= λ r. run ticks r.0 r.1)
      else some (ema, w)
