-- ===== src/Coordinator/Peer/Round/Progress.antt =====
-- A round of internal/coordinator/peer.go that nothing disturbs takes every node to its target.
use ti_assignment_promise_th.Base.{
  ℕ, ◌≡◌, ◌∙◌, refl, sym, inl, inr, Bool, true, false, String, some, List, [], ◌∷◌, arith,
  string_eq, Bool-cases, All, map, sum, length,
}
use ti_assignment_promise_th.Coordinator.Peer.Round.{
  Cluster, Exchange, Fate, NodeSplit, Plan, run_round,
}
use ti_assignment_promise_th.Coordinator.Peer.Round.Step.{share_at}
use ti_assignment_promise_th.Coordinator.Peer.Round.Phases.{IsAimed}
use ti_assignment_promise_th.Coordinator.Peer.Round.Safety.{
  IsDistinct, goal_of, goals_lem, plan_of, total_share, aimed,
}
use ti_assignment_promise_th.Coordinator.Peer.Round.Delivery.{shrink-IsThrough, grow-IsThrough}
use ti_assignment_promise_th.Coordinator.Peer.Round.Through.{
  needs_shrink, needs_grow, is_named, IsFresh, IsThrough, same_view,
}

All-later :
    (n : NodeSplit) (ns ms : List NodeSplit)
    → All (λ m. is_named ns m.node_id ≡ true) ms
    → All (λ m. is_named (n ∷ ns) m.node_id ≡ true) ms
unfolding is_named
All-later n ns [] h = tt
All-later n ns (m ∷ ms) (e, h) = (ground (arith, e), All-later n ns ms h)

All-is_named : (ns : List NodeSplit) → All (λ m. is_named ns m.node_id ≡ true) ns
All-is_named [] = tt
All-is_named (n ∷ ns) = (
  unfold is_named in ground (arith, string_eq.beq_iff n.node_id n.node_id),
  All-later n ns ns (All-is_named ns),
)

module _ (limit : ℕ) (plan : Plan) (net : String → Exchange) (goal : String → ℕ) where
  -- Where a node is told to shrink, it is not told to grow.
  grow-IsFresh :
      (ns : List NodeSplit) (w w1 : Cluster)
      → IsThrough limit plan net goal (needs_shrink plan) plan.nodes w w1
      → All (λ m. IsFresh plan.customer_id plan.round w m.node_id) ns
      → All
          (λ m. needs_grow plan m.node_id ≡ true → IsFresh plan.customer_id plan.round w1 m.node_id)
          ns
  unfolding IsThrough needs_shrink needs_grow
  grow-IsFresh [] w w1 h fresh = tt
  grow-IsFresh (m ∷ ms) w w1 h (f, fresh) = (
    λ more. let (v, seen, older) = f in ((v, (h m.node_id).1 (ground (arith, more)) ∙ seen, older)),
    grow-IsFresh ms w w1 h fresh,
  )

  no_move :
      (n : NodeSplit)
      → IsAimed plan goal n
      → needs_grow plan n.node_id ≡ false
      → needs_shrink plan n.node_id ≡ false
      → n.current ≡ goal n.node_id
  unfolding needs_grow needs_shrink
  no_move n aim no_more no_less = ground (arith, aim.1)

  reached :
      (n : NodeSplit) (w w1 w2 : Cluster)
      → IsThrough limit plan net goal (needs_shrink plan) plan.nodes w w1
      → IsThrough limit plan net goal (needs_grow plan) plan.nodes w1 w2
      → is_named plan.nodes n.node_id ≡ true
      → IsAimed plan goal n
      → n.current ≡ share_at limit plan.customer_id w n.node_id
      → share_at limit plan.customer_id w2 n.node_id ≡ goal n.node_id
  unfolding IsThrough
  reached n w w1 w2 shrunk grown named aim known =
      let id = n.node_id in
      elim (Bool-cases (needs_grow plan id)) [
        | inl more ↦ (grown id).0 (rw (more, named) refl)
        | inr no_more ↦
            let kept = same_view limit plan net goal w1 w2 id ((grown id).1 (rw no_more refl)) in
            elim (Bool-cases (needs_shrink plan id)) [
              | inl less ↦ kept ∙ (shrunk id).0 (rw (less, named) refl)
              | inr no_less ↦
                  kept
                  ∙ same_view limit plan net goal w w1 id ((shrunk id).1 (rw no_less refl))
                  ∙ sym known
                  ∙ no_move n aim no_more no_less
            ]
      ]

  All-reached :
      (ns : List NodeSplit) (w w1 w2 : Cluster)
      → IsThrough limit plan net goal (needs_shrink plan) plan.nodes w w1
      → IsThrough limit plan net goal (needs_grow plan) plan.nodes w1 w2
      → All (λ m. is_named plan.nodes m.node_id ≡ true) ns
      → All (IsAimed plan goal) ns
      → All (λ n. n.current ≡ share_at limit plan.customer_id w n.node_id) ns
      → All (λ n. share_at limit plan.customer_id w2 n.node_id ≡ goal n.node_id) ns
        × (total_share limit plan.customer_id w2 ns ≡ sum (map (λ n. goal n.node_id) ns))
  All-reached [] w w1 w2 shrunk grown named aims known = (tt, refl)
  All-reached (n ∷ ns) w w1 w2 shrunk grown (l, named) (aim, aims) (k, known) =
      let (rest, total) = All-reached ns w w1 w2 shrunk grown named aims known in
      let here = reached n w w1 w2 shrunk grown l aim k in
      ((here, rest), omega (arith, here, total))

IsFresh-any :
    (c : String) (round : ℕ) (w : Cluster) (test : String → Bool) (ns : List NodeSplit)
    → All (λ m. IsFresh c round w m.node_id) ns
    → All (λ m. test m.node_id ≡ true → IsFresh c round w m.node_id) ns
IsFresh-any c round w test [] h = tt
IsFresh-any c round w test (m ∷ ms) (f, h) = (λ e. f, IsFresh-any c round w test ms h)

-- A round whose messages are all answered takes every node to its target, so that the customer's
-- shares add up to the targets afterwards. The nodes are distinct and report their true shares,
-- each has a target, and none has applied this round or a later one.
pub run_round-reaches :
    (limit : ℕ) (customer_id : String) (round : ℕ) (nodes : List NodeSplit) (targets : List ℕ)
    (net : String → Exchange) (w : Cluster)
    → ((id : String) → (net id).fate ≡ Fate.delivered)
    → IsDistinct nodes
    → length targets ≡ length nodes
    → All (λ n. n.current ≡ share_at limit customer_id w n.node_id) nodes
    → All (λ n. IsFresh customer_id round w n.node_id) nodes
    → (w' : Cluster) × (run_round (plan_of customer_id round nodes targets) net w ≡ some w')
      × All (λ n. share_at limit customer_id w' n.node_id ≡ goal_of nodes targets n.node_id) nodes
      × (total_share limit customer_id w' nodes ≡ sum targets)
unfolding run_round
run_round-reaches limit customer_id round nodes targets net w through distinct e known fresh =
    let plan = plan_of customer_id round nodes targets in
    let goal = goal_of nodes targets in
    let (hits, total) = goals_lem nodes targets distinct e in
    let aims = aimed customer_id round nodes targets nodes hits in
    let (w1, e1, shrunk) =
      shrink-IsThrough limit plan net goal nodes w through distinct aims
        (IsFresh-any customer_id round w (needs_shrink plan) nodes fresh) in
    let (w2, e2, grown) =
      grow-IsThrough limit plan net goal nodes w1 through distinct aims
        (grow-IsFresh limit plan net goal nodes w w1 shrunk fresh) in
    let (there, sums) =
      All-reached limit plan net goal nodes w w1 w2 shrunk grown (All-is_named nodes) aims known in
    (w2, rw e1 e2, there, sums ∙ total)
