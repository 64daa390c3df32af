-- ===== src/Coordinator/Peer/Tests.antt =====
-- The peer protocol (internal/coordinator/peer.go) on two nodes, with fractions of whole numbers
-- for float64 and an insertion sort for sort.Slice.
use ti_assignment_promise_th.Base.{
  ℕ, ◌≤◌, ◌≡◌, refl, ◌⊎◌, inl, inr, String, some, List, [], ◌∷◌, sum, arith, All, Any, string_eq,
  ◌==◌, Bool-cases, subst, count_if,
}
use ti_assignment_promise_th.Base.Dict.{lookup, insert, lookup_or}
use ti_assignment_promise_th.Base.Go.Samples.{fractions, sorting}
use ti_assignment_promise_th.Ratelimit.Gcra.{Time, minute}
use ti_assignment_promise_th.Coordinator.Peer.{Peer, CustomerState, ApplyShareRequest}
use ti_assignment_promise_th.Coordinator.Peer.Fence.{
  standing, deliver_all, deliver_all-IsFenced, IsFenced, IsSource,
}
use ti_assignment_promise_th.Coordinator.Peer.Split.{
  proportional_split, split_by, floors, exact_part, remainders, hand_out, bump,
}
use ti_assignment_promise_th.Coordinator.Peer.Split.Total.{proportional_split-sum}
use ti_assignment_promise_th.Coordinator.Peer.Round.{Cluster, Exchange, Fate, NodeSplit, deltas_of}
use ti_assignment_promise_th.Coordinator.Peer.Round.Own.{share_on}
use ti_assignment_promise_th.Coordinator.Peer.Round.Step.{IsCounted, share_at}
use ti_assignment_promise_th.Coordinator.Peer.Tick.{
  split_customer, start_round, Demands, weights_of, smooth_demand, in_order,
}
use ti_assignment_promise_th.Coordinator.Peer.Tick.Safety.{split_customer-safe}
use ti_assignment_promise_th.Coordinator.Peer.Tick.Progress.{IsBehind, start_round-reaches}
use ti_assignment_promise_th.Coordinator.Peer.Tick.Stall.{start_round-stalls}
use ti_assignment_promise_th.Coordinator.Peer.Round.View.{view_at, stood}
use ti_assignment_promise_th.Coordinator.Peer.Round.Through.{needs_shrink, is_named}
use ti_assignment_promise_th.Coordinator.Peer.Round.Safety.{IsDistinct, total_share, goal_of}

-- 100 by demands of 1, 1 and 4.
split_100 : proportional_split fractions sorting 100 (1 ∷ 1 ∷ 4 ∷ []) ≡ 16 ∷ 17 ∷ 67 ∷ []
unfolding proportional_split split_by floors exact_part remainders hand_out bump
split_100 = refl

proportional_split-sum_example :
    sum (proportional_split fractions sorting 100 (1 ∷ 1 ∷ 4 ∷ [])) ≡ 100
proportional_split-sum_example =
    proportional_split-sum fractions sorting 100 1 (1 ∷ 4 ∷ []) (omega arith) (omega arith)

abbrev customer : ℕ → CustomerState
customer quota = record {
  share = record { tat = 5; quota = quota; burst = 1 };
  demand = 0;
  global_limit = 100;
  last_applied = 3;
  last_updated = 0;
}

abbrev peer : String → ℕ → Peer
peer id quota = record {
  cfg = record {
    node_id = id;
    node_count = 2;
    peers = ("node-1", "http://node-1") ∷ ("node-2", "http://node-2") ∷ [];
    proposer = "node-1";
    period = minute;
    poll_interval = 1000000000;
    ack_timeout = 400000000;
  };
  customers = ("cust", customer quota) ∷ [];
  peer_health = [];
}

abbrev request : ℕ → ℕ → Time × ApplyShareRequest
request round quota = (9, record { customer_id = "cust"; round = round; quota = quota })

-- Round 5 overtakes round 4.
abbrev overtaken : List (Time × ApplyShareRequest)
overtaken = request 5 20 ∷ request 4 60 ∷ []

deliver_all-IsFenced_example :
    (p' : Peer) × (deliver_all (peer "node-2" 50) overtaken ≡ some p')
    × ((standing (peer "node-2" 50) "cust").last_applied ≤ (standing p' "cust").last_applied)
    × ((standing p' "cust").share.tat ≡ (standing (peer "node-2" 50) "cust").share.tat)
    × All (IsFenced "cust" (standing p' "cust")) overtaken
    × (((standing p' "cust").last_applied ≡ (standing (peer "node-2" 50) "cust").last_applied)
          × ((standing p' "cust").share.quota ≡ (standing (peer "node-2" 50) "cust").share.quota)
        ⊎ Any (IsSource "cust" (standing p' "cust")) overtaken)
deliver_all-IsFenced_example = deliver_all-IsFenced (peer "node-2" 50) overtaken "cust"

abbrev pair : Cluster
pair = record { proposer = peer "node-1" 50; others = ("node-2", peer "node-2" 50) ∷ [] }

abbrev splits : List NodeSplit
splits =
    record { node_id = "node-1"; current = 50; demand = 1 }
    ∷ record { node_id = "node-2"; current = 50; demand = 9 }
    ∷ []

-- Node 2 applies its grow, but its answer does not come in time.
abbrev net : String → Exchange
net id = record { fate = Fate.unanswered; here = 1; there = 2 }

pair-IsCounted : IsCounted pair
unfolding lookup
pair-IsCounted = record { own = omega arith; others = λ id p e. ground arith }

splits-IsDistinct : IsDistinct splits
splits-IsDistinct id = elim (Bool-cases ("node-2" == id)) [
  | inl same ↦
      subst (λ k. count_if (λ n. n.node_id == k) splits ≤ 1)
        ((string_eq.beq_iff "node-2" id).0 same) (omega arith)
  | inr other ↦ ground arith
]

splits_true : All (λ n. n.current ≡ share_at 100 "cust" pair n.node_id) splits
unfolding lookup
splits_true = (unfold share_at share_on in refl, (unfold share_at share_on in refl, tt))

abbrev no_demands : Demands fractions sorting
no_demands = []

split_customer-safe_example :
    (ema' : Demands fractions sorting) × (w' : Cluster) × (split_customer fractions sorting "cust"
        100 splits net no_demands pair
      ≡ some (ema', w'))
    × ((total_share 100 "cust" w' splits ≤ total_share 100 "cust" pair splits)
        ⊎ (total_share 100 "cust" w' splits ≤ 100))
unfolding weights_of smooth_demand in_order lookup lookup_or insert
split_customer-safe_example =
    split_customer-safe fractions sorting 100 "cust" splits net no_demands pair (omega arith)
      pair-IsCounted splits-IsDistinct splits_true (omega arith, omega arith)

abbrev calm : String → Exchange
calm id = record { fate = Fate.delivered; here = 1; there = 2 }

pair-IsBehind : All (IsBehind "cust" (standing pair.proposer "cust").last_applied pair) splits
unfolding view_at stood standing lookup
pair-IsBehind = (
  (record { node_count = 2; state = some (customer 50) }, refl, omega arith),
  ((record { node_count = 2; state = some (customer 50) }, refl, omega arith), tt),
)

start_round-reaches_example :
    (w' : Cluster) × (start_round "cust" 100 splits (12 ∷ 88 ∷ []) calm pair ≡ some w')
    × All (λ n. share_at 100 "cust" w' n.node_id ≡ goal_of splits (12 ∷ 88 ∷ []) n.node_id) splits
    × (total_share 100 "cust" w' splits ≡ 100)
unfolding standing lookup
start_round-reaches_example =
    start_round-reaches 100 "cust" splits (12 ∷ 88 ∷ []) calm pair (omega arith) pair-IsCounted
      (λ id. refl) splits-IsDistinct refl splits_true pair-IsBehind (omega arith)

-- Node 2 has applied round 4, the proposer round 3.
abbrev passed : Peer
passed = record (peer "node-2" 50) {
  customers = ("cust", record (customer 50) { last_applied = 4 }) ∷ [];
}

abbrev apart : Cluster
apart = record { proposer = peer "node-1" 50; others = ("node-2", passed) ∷ [] }

apart-IsCounted : IsCounted apart
unfolding lookup
apart-IsCounted = record { own = omega arith; others = λ id p e. ground arith }

apart_true : All (λ n. n.current ≡ share_at 100 "cust" apart n.node_id) splits
unfolding lookup
apart_true = (unfold share_at share_on in refl, (unfold share_at share_on in refl, tt))

start_round-stalls_example :
    (w' : Cluster) × (start_round "cust" 100 splits (88 ∷ 12 ∷ []) calm apart ≡ some w')
    × ((j : String) → share_at 100 "cust" w' j ≤ share_at 100 "cust" apart j)
unfolding standing lookup view_at stood needs_shrink is_named lookup_or deltas_of insert
start_round-stalls_example =
    start_round-stalls 100 "cust" splits (88 ∷ 12 ∷ []) calm apart "node-2" (omega arith)
      apart-IsCounted splits-IsDistinct refl apart_true refl refl (omega arith)
