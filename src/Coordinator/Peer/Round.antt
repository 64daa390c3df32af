-- ===== src/Coordinator/Peer/Round.antt =====
-- The proposer of internal/coordinator/peer.go: rebalanceCustomer with its two phases,
-- pollAllNodes, runRebalanceTick, smoothDemand and applyShare. Only the proposer's goroutine sends
-- messages, so a tick is a sequence of them; what the network does with each is an argument.
pub mod Own
pub mod Step
pub mod Apply
pub mod Phases
pub mod Safety
pub mod View
pub mod Told
pub mod Through
pub mod Delivery
pub mod Progress
pub mod Stall
use Prim.Native.String.{compare}
use Prim.Native.Nat.{Ordering}
use ti_assignment_promise_th.Base.{
  ℕ, zero, suc, ◌+◌, ◌%◌, ◌^◌, Bool, true, false, ◌&&◌, String, Option, none, some, ◌>>=◌, List, [],
  ◌∷◌, ◌==◌, if◌then◌else◌, string_eq, ltb, nat_beq,
}
use ti_assignment_promise_th.Base.Dict.{Dict, lookup, lookup_or, insert}
use ti_assignment_promise_th.Base.Int.{ℤ, pos, ltb_ℤ, leb_ℤ, minus, abs}
use ti_assignment_promise_th.Base.Go.{Floats, Sorting}
use ti_assignment_promise_th.Ratelimit.Gcra.{Time}
use ti_assignment_promise_th.Coordinator.{node_share}
use ti_assignment_promise_th.Coordinator.Peer.{
  Peer, PeerConfig, StatusResponse, CustomerStatus, ApplyShareRequest, ApplyShareResponse,
  local_status, record_health, apply_local, handle_apply_share, customer_for,
}
use ti_assignment_promise_th.Coordinator.Peer.Split.{proportional_split}

abbrev pub hysteresis_rpm : ℕ
hysteresis_rpm = 15

-- What becomes of a message: its URL is malformed, it is lost, it arrives but no answer comes in
-- time, it is answered with a body that does not decode, or it is answered.
pub data Fate : Type 0 where
  malformed lost unanswered garbled delivered : Fate

-- One round trip, with the clocks of the proposer and of the peer when it takes place.
pub record Exchange : Type 0 where
  pub fate : Fate
  pub here : Time
  pub there : Time

-- The proposer's node and the other nodes by their ids.
pub record Cluster : Type 0 where
  pub proposer : Peer
  pub others : Dict String Peer

pub record NodeSplit : Type 0 where
  pub node_id : String
  pub current : ℕ
  pub demand : ℕ

-- The peer gets the request, if there is one at the address.
unfoldable pub arrive :
    Cluster → String → Time → ApplyShareRequest → Option (Option ApplyShareResponse × Cluster)
arrive w id there req = elim (lookup id w.others) [
  | none ↦ some (none, w)
  | some p ↦ handle_apply_share p there (some req) >>= λ r.
      some (some r.0, record w { others = insert id r.1 w.others })
]

unfoldable pub note : Cluster → String → Bool → Time → Cluster
note w id is_up now = record w { proposer = record_health w.proposer id is_up now }

unfoldable pub is_applied : Option ApplyShareResponse → Bool
is_applied (some ApplyShareResponse.applied) = true
is_applied _ = false

unfoldable pub is_answered : Option ApplyShareResponse → Bool
is_answered none = false
is_answered (some r) = true

-- applyShare over HTTP, for each fate of the message.
unfoldable pub post_share :
    Cluster → String → ApplyShareRequest → Fate → Time → Time → Option (Bool × Cluster)
unfolding arrive note is_applied is_answered
post_share w id req malformed here there = some (false, w)
post_share w id req lost here there = some (false, note w id false here)
post_share w id req unanswered here there =
    arrive w id there req >>= λ r. some (false, note r.1 id false here)
post_share w id req garbled here there =
    arrive w id there req >>= λ r. some (false, note r.1 id (is_answered r.0) here)
post_share w id req delivered here there =
    arrive w id there req >>= λ r. some (is_applied r.0, note r.1 id (is_answered r.0) here)

-- applyShare.
unfoldable pub apply_share :
    Cluster → String → ApplyShareRequest → Exchange → Option (Bool × Cluster)
unfolding post_share is_applied
apply_share w id req x =
    if id == w.proposer.cfg.node_id
    then apply_local w.proposer x.here req
      >>= (λ r. some (is_applied (some r.0), record w { proposer = r.1 }))
    else post_share w id req x.fate x.here x.there

-- indexOf, `none` for -1.
unfoldable pub index_of : List NodeSplit → String → Option ℕ
index_of [] id = none
index_of (n ∷ nodes) id =
    let rest = index_of nodes id in if n.node_id == id then some 0 else (rest >>= λ i. some (suc i))

-- targets[i], `none` for the panic out of range.
unfoldable pub at : List ℕ → ℕ → Option ℕ
at [] i = none
at (t ∷ ts) zero = some t
at (t ∷ ts) (suc i) = at ts i

unfoldable pub target_of : List NodeSplit → List ℕ → String → Option ℕ
unfolding index_of at
target_of nodes targets id = index_of nodes id >>= λ i. at targets i

-- The map of deltas; a node's delta is its target less its current share.
unfoldable pub deltas_of : List NodeSplit → List ℕ → Dict String ℤ
deltas_of [] targets = []
deltas_of (n ∷ nodes) [] = []
deltas_of (n ∷ nodes) (t ∷ targets) = insert n.node_id (minus t n.current) (deltas_of nodes targets)

unfoldable pub max_abs_delta : List NodeSplit → List ℕ → ℕ
max_abs_delta [] targets = 0
max_abs_delta (n ∷ nodes) [] = 0
max_abs_delta (n ∷ nodes) (t ∷ targets) =
    let rest = max_abs_delta nodes targets in
    let d = abs (minus t n.current) in if ltb rest d then d else rest

-- What a round keeps fixed.
pub record Plan : Type 0 where
  pub customer_id : String
  pub round : ℕ
  pub nodes : List NodeSplit
  pub targets : List ℕ
  pub deltas : Dict String ℤ

-- One instruction of the plan.
unfoldable pub instruct : Plan → Cluster → String → Exchange → Option (Bool × Cluster)
unfolding apply_share target_of
instruct plan w id x = target_of plan.nodes plan.targets id >>= λ quota.
    apply_share w id (record { customer_id = plan.customer_id; round = plan.round; quota = quota })
      x

-- Phase 1: true if every shrink is acknowledged.
unfoldable pub shrink :
    Plan → (String → Exchange) → List NodeSplit → Cluster → Option (Bool × Cluster)
unfolding instruct
shrink plan net [] w = some (true, w)
shrink plan net (n ∷ ns) w =
    if leb_ℤ (pos 0) (lookup_or (pos 0) n.node_id plan.deltas)
    then shrink plan net ns w
    else (instruct plan w n.node_id (net n.node_id) >>= λ r.
        shrink plan net ns r.1 >>= λ rest. some (r.0 && rest.0, rest.1))

-- Phase 2: an instruction that is not acknowledged is only logged.
unfoldable pub grow : Plan → (String → Exchange) → List NodeSplit → Cluster → Option Cluster
unfolding instruct
grow plan net [] w = some w
grow plan net (n ∷ ns) w =
    if leb_ℤ (lookup_or (pos 0) n.node_id plan.deltas) (pos 0)
    then grow plan net ns w
    else (instruct plan w n.node_id (net n.node_id) >>= λ r. grow plan net ns r.1)

-- Both phases; a shrink that is not acknowledged abandons the round.
unfoldable pub run_round : Plan → (String → Exchange) → Cluster → Option Cluster
unfolding shrink grow
run_round plan net w =
    shrink plan net plan.nodes w >>= λ r. if r.0 then grow plan net plan.nodes r.1 else some r.1

-- knownGlobalLimit: what this node itself reports, or 0.
unfoldable pub known_global_limit : String → String → Dict String StatusResponse → ℕ
known_global_limit node_id customer_id statuses = elim (lookup node_id statuses) [
  | none ↦ 0
  | some st ↦ elim (lookup customer_id st.customers) [ none ↦ 0 | some cs ↦ cs.global_limit ]
]

-- One node's entry of the split; a node that has not seen the customer has the bootstrap share.
unfoldable pub node_split : ℕ → ℕ → String → String → StatusResponse → Option NodeSplit
node_split limit node_count customer_id id st = elim (lookup customer_id st.customers) [
  | none ↦ node_share limit node_count >>= λ current.
      some (record { node_id = id; current = current; demand = 0 })
  | some cs ↦ some (record { node_id = id; current = cs.share; demand = cs.demand })
]

-- The nodes that answered the poll.
unfoldable pub gather :
    ℕ → ℕ → String → Dict String StatusResponse → Dict String String → Option (List NodeSplit)
unfolding node_split
gather limit node_count customer_id statuses [] = some []
gather limit node_count customer_id statuses ((id, url) ∷ peers) =
    gather limit node_count customer_id statuses peers >>= λ rest. elim (lookup id statuses) [
      | none ↦ some rest
      | some st ↦ node_split limit node_count customer_id id st >>= λ n. some (n ∷ rest)
    ]

-- cs.lastApplied + 1 on uint64.
abbrev pub next_round : ℕ → ℕ
next_round last_applied = (last_applied + 1) % 2 ^ 64
