-- ===== src/Coordinator/Peer/Round/Delivery.antt =====
-- The two phases of a round of internal/coordinator/peer.go when every message is answered.
use ti_assignment_promise_th.Base.{
  ℕ, ◌≡◌, refl, inl, inr, true, String, some, List, [], ◌∷◌, arith, string_eq, Bool-cases, All,
}
use ti_assignment_promise_th.Coordinator.Peer.Round.{
  Cluster, Exchange, Fate, NodeSplit, Plan, shrink, grow,
}
use ti_assignment_promise_th.Coordinator.Peer.Round.Phases.{IsAimed}
use ti_assignment_promise_th.Coordinator.Peer.Round.Safety.{IsDistinct}
use ti_assignment_promise_th.Coordinator.Peer.Round.Through.{
  needs_shrink, needs_grow, is_named, IsFresh, IsThrough, IsThrough-skip, IsThrough-cons,
  IsFresh-others, instruct-fresh, tail-IsDistinct, head_differs, stays_shrink, goes_shrink,
  stays_grow, goes_grow,
}

module _ (limit : ℕ) (plan : Plan) (net : String → Exchange) (goal : String → ℕ) where
  pub shrink-IsThrough :
      (ns : List NodeSplit) (w : Cluster)
      → ((j : String) → (net j).fate ≡ Fate.delivered)
      → IsDistinct ns
      → All (IsAimed plan goal) ns
      → All
          (λ m.
            needs_shrink plan m.node_id ≡ true → IsFresh plan.customer_id plan.round w m.node_id)
          ns
      → (w' : Cluster) × (shrink plan net ns w ≡ some (true, w'))
        × IsThrough limit plan net goal (needs_shrink plan) ns w w'
  unfolding shrink IsThrough is_named
  shrink-IsThrough [] w through distinct aims fresh =
      (w, refl, λ j. (λ e. ground (arith, e), λ e. refl))
  shrink-IsThrough (n ∷ ns) w through distinct (aim, aims) (f, fresh) =
      elim (Bool-cases (needs_shrink plan n.node_id)) [
        | inr skip ↦
            let (w', e, h) =
              shrink-IsThrough ns w through (tail-IsDistinct n ns distinct) aims fresh in
            (
              w',
              rw (stays_shrink plan n.node_id skip) e,
              IsThrough-skip limit plan net goal (needs_shrink plan) n ns w w' skip h,
            )
        | inl go ↦
            let (w1, e1, moved) =
              instruct-fresh limit plan net goal n w (through n.node_id) aim (f go) in
            let (w', e, h) = shrink-IsThrough ns w1 through (tail-IsDistinct n ns distinct) aims (
              IsFresh-others limit plan net goal (needs_shrink plan) n.node_id ns w w1 moved
                (head_differs n ns distinct) fresh) in
            (
              w',
              rw (goes_shrink plan n.node_id go, e1, e) refl,
              IsThrough-cons limit plan net goal (needs_shrink plan) n ns w w1 w' go moved h,
            )
      ]

  pub grow-IsThrough :
      (ns : List NodeSplit) (w : Cluster)
      → ((j : String) → (net j).fate ≡ Fate.delivered)
      → IsDistinct ns
      → All (IsAimed plan goal) ns
      → All
          (λ m. needs_grow plan m.node_id ≡ true → IsFresh plan.customer_id plan.round w m.node_id)
          ns
      → (w' : Cluster) × (grow plan net ns w ≡ some w')
        × IsThrough limit plan net goal (needs_grow plan) ns w w'
  unfolding grow IsThrough is_named
  grow-IsThrough [] w through distinct aims fresh =
      (w, refl, λ j. (λ e. ground (arith, e), λ e. refl))
  grow-IsThrough (n ∷ ns) w through distinct (aim, aims) (f, fresh) =
      elim (Bool-cases (needs_grow plan n.node_id)) [
        | inr skip ↦
            let (w', e, h) =
              grow-IsThrough ns w through (tail-IsDistinct n ns distinct) aims fresh in
            (
              w',
              rw (stays_grow plan n.node_id skip) e,
              IsThrough-skip limit plan net goal (needs_grow plan) n ns w w' skip h,
            )
        | inl go ↦
            let (w1, e1, moved) =
              instruct-fresh limit plan net goal n w (through n.node_id) aim (f go) in
            let (w', e, h) = grow-IsThrough ns w1 through (tail-IsDistinct n ns distinct) aims (
              IsFresh-others limit plan net goal (needs_grow plan) n.node_id ns w w1 moved
                (head_differs n ns distinct) fresh) in
            (
              w',
              rw (goes_grow plan n.node_id go, e1) e,
              IsThrough-cons limit plan net goal (needs_grow plan) n ns w w1 w' go moved h,
            )
      ]
