-- ===== src/Coordinator/Peer/Tick/Stall.antt =====
-- The number of a round in rebalanceCustomer of internal/coordinator/peer.go is one more than the
-- last round that the proposer itself applied, which the other nodes may have passed.
use ti_assignment_promise_th.Base.{
  ℕ, ◌≤◌, ◌<◌, ◌≡◌, refl, sym, ap, subst, inl, inr, true, false, String, some, List, ◌==◌, arith,
  string_eq, Bool-cases, All, length,
}
use ti_assignment_promise_th.Coordinator.Peer.{Peer, CustomerState}
use ti_assignment_promise_th.Coordinator.Peer.Fence.{standing}
use ti_assignment_promise_th.Coordinator.Peer.Round.{Cluster, Exchange, NodeSplit, next_round}
use ti_assignment_promise_th.Coordinator.Peer.Round.Step.{share_at, IsCounted}
use ti_assignment_promise_th.Coordinator.Peer.Round.Safety.{IsDistinct, plan_of}
use ti_assignment_promise_th.Coordinator.Peer.Round.View.{view_at, stood-standing}
use ti_assignment_promise_th.Coordinator.Peer.Round.Told.{view_at-own}
use ti_assignment_promise_th.Coordinator.Peer.Round.Through.{needs_shrink, is_named}
use ti_assignment_promise_th.Coordinator.Peer.Round.Stall.{round_in, run_round-stalls}
use ti_assignment_promise_th.Coordinator.Peer.Tick.{start_round}
use ti_assignment_promise_th.Coordinator.Peer.Tick.Safety.{
  customer_for-share, share_at-told, told_lem,
}

-- What the proposer learns of the limit changes nothing at another node.
pub view_at-elsewhere :
    (c : String) (w : Cluster) (p' : Peer) (id : String)
    → p'.cfg ≡ w.proposer.cfg
    → (id == w.proposer.cfg.node_id) ≡ false
    → view_at c (record w { proposer = p' }) id ≡ view_at c w id
unfolding view_at
view_at-elsewhere c w p' id cfg remote = rw (cfg, remote) refl

-- The proposer cannot be ahead of itself.
is_remote :
    (c : String) (w : Cluster) (id : String)
    → (standing w.proposer c).last_applied < round_in (view_at c w id)
    → (id == w.proposer.cfg.node_id) ≡ false
is_remote c w id ahead = elim (Bool-cases (id == w.proposer.cfg.node_id)) [
  | inl own ↦
      let seen = view_at-own c w id own in
      let stands = stood-standing w.proposer c in
      absurd
        (omega (arith, ahead, ap round_in seen, ap (λ (s : CustomerState). s.last_applied) stands))
  | inr remote ↦ remote
]

-- Where a node has applied a later round than the proposer itself, a rebalance that tells it to
-- shrink is abandoned, whatever becomes of the messages: no panic, and no node gets a higher share.
-- The nodes are distinct, report their true shares and have targets.
pub start_round-stalls :
    (limit : ℕ) (customer_id : String) (nodes : List NodeSplit) (targets : List ℕ)
    (net : String → Exchange) (w : Cluster) (id : String)
    → 1 ≤ limit
    → IsCounted w
    → IsDistinct nodes
    → length targets ≡ length nodes
    → All (λ n. n.current ≡ share_at limit customer_id w n.node_id) nodes
    → is_named nodes id ≡ true
    → needs_shrink (plan_of customer_id 0 nodes targets) id ≡ true
    → (standing w.proposer customer_id).last_applied < round_in (view_at customer_id w id)
    → (w' : Cluster) × (start_round customer_id limit nodes targets net w ≡ some w')
      × ((j : String) → share_at limit customer_id w' j ≤ share_at limit customer_id w j)
unfolding start_round needs_shrink
start_round-stalls limit c nodes targets net w id hl h distinct e known named less ahead =
    let (cs, p', found, cfg, same, own_round, held) =
      customer_for-share limit w.proposer c hl h.own in
    let told : Cluster = record w { proposer = p' } in
    let kept : (j : String) → share_at limit c told j ≡ share_at limit c w j =
      λ j. share_at-told limit c w p' j cfg same in
    let (known', total) = told_lem limit c w told nodes kept known in
    let counted : IsCounted told = record {
      own = subst (λ c. 1 ≤ c.node_count) (sym cfg) h.own;
      others = h.others;
    } in
    let seen = view_at-elsewhere c w p' id cfg (is_remote c w id ahead) in
    let old : next_round cs.last_applied ≤ round_in (view_at c told id) =
      omega (arith, own_round, ahead, ap round_in seen) in
    let (w', run, below) =
      run_round-stalls limit c (next_round cs.last_applied) nodes targets net told id hl counted
        distinct e known' named less old in
    (w', rw found run, λ j. omega (arith, below j, kept j))
