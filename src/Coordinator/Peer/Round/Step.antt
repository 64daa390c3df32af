-- ===== src/Coordinator/Peer/Round/Step.antt =====
-- A customer's shares on all nodes of internal/coordinator/peer.go, and what a step of the proposer
-- that concerns one node may do to them.
use ti_assignment_promise_th.Base.{
  ℕ, ◌≤◌, ◌≡◌, refl, Bool, true, false, String, none, some, ◌==◌, if◌then◌else◌, string_eq,
}
use ti_assignment_promise_th.Base.Dict.{lookup}
use ti_assignment_promise_th.Ratelimit.Gcra.{Time}
use ti_assignment_promise_th.Coordinator.Peer.{Peer, ApplyShareRequest, record_health}
use ti_assignment_promise_th.Coordinator.Peer.Round.{Cluster, note}
use ti_assignment_promise_th.Coordinator.Peer.Round.Own.{share_on}

-- The customer's share on the node with an id.
unfoldable pub share_at : ℕ → String → Cluster → String → ℕ
unfolding share_on
share_at limit customer_id w id =
    if id == w.proposer.cfg.node_id
    then share_on limit customer_id w.proposer
    else elim (lookup id w.others) [ none ↦ 0 | some p ↦ share_on limit customer_id p ]

-- Every node knows how many there are.
pub record IsCounted (w : Cluster) : Type 0 where
  pub own : 1 ≤ w.proposer.cfg.node_count
  pub others : (id : String) (p : Peer) → lookup id w.others ≡ some p → 1 ≤ p.cfg.node_count

-- One message to the node `id` that asks for `quota` takes `w` to `w'`.
pub record IsInstructed (limit : ℕ) (req : ApplyShareRequest) (id : String) (ack : Bool)
    (w w' : Cluster) : Type 0 where
  pub counted : IsCounted w'
  pub same_node : w'.proposer.cfg ≡ w.proposer.cfg
  pub bound :
      (j : String) (b : ℕ)
      → share_at limit req.customer_id w j ≤ b
      → (j ≡ id → req.quota ≤ b)
      → share_at limit req.customer_id w' j ≤ b
  pub reached : ack ≡ true → share_at limit req.customer_id w' id ≡ req.quota

-- Nothing but the health of a node is noted.
pub note-IsInstructed :
    (limit : ℕ) (req : ApplyShareRequest) (id j : String) (ack up : Bool) (now : Time)
    (w w' : Cluster)
    → IsInstructed limit req id ack w w'
    → IsInstructed limit req id ack w (note w' j up now)
unfolding note record_health share_at
note-IsInstructed limit req id j ack up now w w' h = record {
  counted = record { own = h.counted.own; others = h.counted.others };
  same_node = h.same_node;
  bound = h.bound;
  reached = h.reached;
}

pub untouched :
    (limit : ℕ) (req : ApplyShareRequest) (id : String) (w : Cluster)
    → IsCounted w
    → IsInstructed limit req id false w w
untouched limit req id w h = record {
  counted = h;
  same_node = refl;
  bound = λ j b old new. old;
  reached = λ e. cc;
}
