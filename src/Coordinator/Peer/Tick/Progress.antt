-- ===== src/Coordinator/Peer/Tick/Progress.antt =====
-- A rebalance of internal/coordinator/peer.go that nothing disturbs, with the number that the
-- proposer gives it.
use ti_assignment_promise_th.Base.{
  ℕ, ◌+◌, ◌^◌, ◌≤◌, ◌<◌, ◌≡◌, ◌∙◌, refl, subst, inl, inr, String, some, List, [], ◌∷◌, ◌==◌, arith,
  string_eq, Bool-cases, All, length, sum,
}
use ti_assignment_promise_th.Base.Dict.{lookup}
use ti_assignment_promise_th.Coordinator.Peer.{Peer, CustomerState}
use ti_assignment_promise_th.Coordinator.Peer.Fence.{standing}
use ti_assignment_promise_th.Coordinator.Peer.Round.{Cluster, Exchange, Fate, NodeSplit, next_round}
use ti_assignment_promise_th.Coordinator.Peer.Round.Step.{share_at, IsCounted}
use ti_assignment_promise_th.Coordinator.Peer.Round.Safety.{IsDistinct, goal_of, total_share}
use ti_assignment_promise_th.Coordinator.Peer.Round.View.{View, view_at, stood}
use ti_assignment_promise_th.Coordinator.Peer.Round.Told.{view_at-own}
use ti_assignment_promise_th.Coordinator.Peer.Round.Through.{IsFresh}
use ti_assignment_promise_th.Coordinator.Peer.Round.Progress.{run_round-reaches}
use ti_assignment_promise_th.Coordinator.Peer.Tick.{start_round}
use ti_assignment_promise_th.Coordinator.Peer.Tick.Safety.{
  customer_for-share, share_at-told, told_lem,
}
use ti_assignment_promise_th.Coordinator.Peer.Tick.Stall.{view_at-elsewhere}

-- The node is there and has applied no round beyond the last.
abbrev pub IsBehind : String → ℕ → Cluster → NodeSplit → Type 0
IsBehind c last w n =
    (v : View) × (view_at c w n.node_id ≡ some v) × ((stood v.state).last_applied ≤ last)

told-IsFresh :
    (c : String) (last : ℕ) (w : Cluster) (p' : Peer) (cs : CustomerState) (n : NodeSplit)
    → p'.cfg ≡ w.proposer.cfg
    → lookup c p'.customers ≡ some cs
    → cs.last_applied ≡ last
    → IsBehind c last w n
    → IsFresh c (last + 1) (record w { proposer = p' }) n.node_id
unfolding stood
told-IsFresh c last w p' cs n cfg held own (v, seen, older) =
    elim (Bool-cases (n.node_id == w.proposer.cfg.node_id)) [
      | inl here ↦ (
        record { node_count = p'.cfg.node_count; state = some cs },
        view_at-own c (record w { proposer = p' }) n.node_id (rw cfg here) ∙ (rw held refl),
        omega (arith, own),
      )
      | inr there ↦ (v, view_at-elsewhere c w p' n.node_id cfg there ∙ seen, omega (arith, older))
    ]

All-told :
    (c : String) (last : ℕ) (w : Cluster) (p' : Peer) (cs : CustomerState) (ns : List NodeSplit)
    → p'.cfg ≡ w.proposer.cfg
    → lookup c p'.customers ≡ some cs
    → cs.last_applied ≡ last
    → All (IsBehind c last w) ns
    → All (λ n. IsFresh c (last + 1) (record w { proposer = p' }) n.node_id) ns
All-told c last w p' cs [] cfg held own h = tt
All-told c last w p' cs (n ∷ ns) cfg held own (b, h) =
    (told-IsFresh c last w p' cs n cfg held own b, All-told c last w p' cs ns cfg held own h)

-- Where no node has applied a later round than the proposer itself, a rebalance whose messages are
-- all answered takes every node to its target, so that the shares add up to the targets. The nodes
-- are distinct, report their true shares and have targets, and the round's number is below 2 ^ 64.
pub start_round-reaches :
    (limit : ℕ) (customer_id : String) (nodes : List NodeSplit) (targets : List ℕ)
    (net : String → Exchange) (w : Cluster)
    → 1 ≤ limit
    → IsCounted w
    → ((id : String) → (net id).fate ≡ Fate.delivered)
    → IsDistinct nodes
    → length targets ≡ length nodes
    → All (λ n. n.current ≡ share_at limit customer_id w n.node_id) nodes
    → All (IsBehind customer_id (standing w.proposer customer_id).last_applied w) nodes
    → (standing w.proposer customer_id).last_applied + 1 < 2 ^ 64
    → (w' : Cluster) × (start_round customer_id limit nodes targets net w ≡ some w')
      × All (λ n. share_at limit customer_id w' n.node_id ≡ goal_of nodes targets n.node_id) nodes
      × (total_share limit customer_id w' nodes ≡ sum targets)
unfolding start_round
start_round-reaches limit c nodes targets net w hl h through distinct e known behind small =
    let (cs, p', found, cfg, same, own_round, held) =
      customer_for-share limit w.proposer c hl h.own in
    let told : Cluster = record w { proposer = p' } in
    let (known', total) =
      told_lem limit c w told nodes (λ j. share_at-told limit c w p' j cfg same) known in
    let number : (standing w.proposer c).last_applied + 1 ≡ next_round cs.last_applied =
      omega (arith, own_round, small) in
    let fresh =
      All-told c (standing w.proposer c).last_applied w p' cs nodes cfg held own_round behind in
    let (w', run, there, sums) =
      run_round-reaches limit c (next_round cs.last_applied) nodes targets net told through distinct
        e known' (subst (λ r. All (λ n. IsFresh c r told n.node_id) nodes) number fresh) in
    (w', rw found run, there, sums)
