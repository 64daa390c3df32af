-- ===== src/Coordinator/Peer/Round/Stall.antt =====
-- A round of internal/coordinator/peer.go with a number that some node has seen already.
use ti_assignment_promise_th.Base.{
  ℕ, ◌≤◌, ◌<◌, ◌≡◌, ◌∙◌, refl, sym, ap, subst, inl, inr, Bool, true, false, ◌&&◌, String, Option,
  none, some, List, [], ◌∷◌, ◌==◌, arith, string_eq, Bool-cases, All, length,
}
use mathlib.Core.Option.{some-injective}
use ti_assignment_promise_th.Ratelimit.Gcra.{Time}
use ti_assignment_promise_th.Coordinator.Peer.{ApplyShareRequest}
use ti_assignment_promise_th.Coordinator.Peer.Fence.{after, answer}
use ti_assignment_promise_th.Coordinator.Peer.Round.{
  Cluster, Exchange, NodeSplit, Plan, instruct, shrink, run_round, is_applied,
}
use ti_assignment_promise_th.Coordinator.Peer.Round.Step.{share_at, IsCounted}
use ti_assignment_promise_th.Coordinator.Peer.Round.Phases.{IsAimed, shrink_lem}
use ti_assignment_promise_th.Coordinator.Peer.Round.Safety.{
  IsDistinct, goal_of, goals_lem, plan_of, aimed,
}
use ti_assignment_promise_th.Coordinator.Peer.Round.View.{View, view_at, stood, told, reply}
use ti_assignment_promise_th.Coordinator.Peer.Round.Told.{IsTold, apply_share-IsTold}
use ti_assignment_promise_th.Coordinator.Peer.Round.Through.{
  needs_shrink, is_named, stays_shrink, goes_shrink,
}

-- The last round that a node has applied.
abbrev pub round_in : Option View → ℕ
round_in none = 0
round_in (some v) = (stood v.state).last_applied

round_in-told :
    (now : Time) (req : ApplyShareRequest) (u : Option View)
    → round_in u ≤ round_in (told now req u)
unfolding told stood after
round_in-told now req none = omega arith
round_in-told now req (some v) = ground arith

reply-newer :
    (req : ApplyShareRequest) (u : Option View)
    → is_applied (reply req u) ≡ true
    → round_in u < req.round
unfolding reply answer is_applied
reply-newer req none e = cc
reply-newer req (some v) e = ground arith

IsTold-round :
    (req : ApplyShareRequest) (id j : String) (x : Exchange) (ack : Bool) (w w' : Cluster)
    → IsTold req id x ack w w'
    → round_in (view_at req.customer_id w j) ≤ round_in (view_at req.customer_id w' j)
IsTold-round req id j x ack w w' h =
    let seen = view_at req.customer_id w j in
    let told_seen = round_in-told h.now req seen in
    elim (Bool-cases (h.arrived && (id == j))) [
      | inl here ↦ rw (h.views j, here) told_seen
      | inr there ↦ rw (h.views j, there) (omega arith)
    ]

refused_old :
    (req : ApplyShareRequest) (u : Option View) (ack : Bool)
    → (ack ≡ true → is_applied (reply req u) ≡ true)
    → req.round ≤ round_in u
    → ack ≡ false
refused_old req u true acked old = absurd (omega (arith, reply-newer req u (acked refl)))
refused_old req u false acked old = refl

and-false : (a : Bool) {b : Bool} → b ≡ false → (a && b) ≡ false
and-false true e = e
and-false false e = refl

module _ (plan : Plan) (net : String → Exchange) (goal : String → ℕ) where
  -- Such a shrink of any node is not acknowledged, so that phase 1 does not succeed.
  shrink-stale :
      (ns : List NodeSplit) (w : Cluster)
      → All (IsAimed plan goal) ns
      → (ok : Bool) × (w' : Cluster) × (shrink plan net ns w ≡ some (ok, w'))
        × ((j : String)
            → needs_shrink plan j ≡ true
            → is_named ns j ≡ true
            → plan.round ≤ round_in (view_at plan.customer_id w j)
            → ok ≡ false)
  unfolding shrink is_named instruct
  shrink-stale [] w aims = (true, w, refl, λ j less named old. cc)
  shrink-stale (n ∷ ns) w (aim, aims) = elim (Bool-cases (needs_shrink plan n.node_id)) [
    | inr skip ↦
        let (ok, w', e, stale) = shrink-stale ns w aims in
        (
          ok,
          w',
          rw (stays_shrink plan n.node_id skip) e,
          λ j less named old. elim (Bool-cases (n.node_id == j)) [
            | inl same ↦
                let on : needs_shrink plan n.node_id ≡ true =
                  ap (needs_shrink plan) ((string_eq.beq_iff n.node_id j).0 same) ∙ less in
                ground (arith, on, skip)
            | inr differ ↦ stale j less (ground (arith, named, differ)) old
          ],
        )
    | inl go ↦
        let req : ApplyShareRequest = record {
          customer_id = plan.customer_id;
          round = plan.round;
          quota = goal n.node_id;
        } in
        let (ack, w1, e1, step) = apply_share-IsTold req n.node_id (net n.node_id) w in
        let (ok, w', e, stale) = shrink-stale ns w1 aims in
        (
          ack && ok,
          w',
          rw (goes_shrink plan n.node_id go, aim.0, instruct, e1, e) refl,
          λ j less named old. elim (Bool-cases (n.node_id == j)) [
            | inl same ↦
                let i : n.node_id ≡ j = (string_eq.beq_iff n.node_id j).0 same in
                let refused : ack ≡ false =
                  refused_old req (view_at plan.customer_id w n.node_id) ack step.acknowledged (
                    subst (λ k. plan.round ≤ round_in (view_at plan.customer_id w k)) (sym i)
                      old) in
                rw refused refl
            | inr differ ↦
                let later = IsTold-round req n.node_id j (net n.node_id) ack w w1 step in
                and-false ack
                  (stale j less (ground (arith, named, differ)) (omega (arith, old, later)))
          ],
        )
  ]

-- A round in which a node has to shrink that has applied its number already, or a later one, is
-- abandoned, whatever becomes of its messages: it does not panic and no node gets a higher share.
pub run_round-stalls :
    (limit : ℕ) (customer_id : String) (round : ℕ) (nodes : List NodeSplit) (targets : List ℕ)
    (net : String → Exchange) (w : Cluster) (id : String)
    → 1 ≤ limit
    → IsCounted w
    → IsDistinct nodes
    → length targets ≡ length nodes
    → All (λ n. n.current ≡ share_at limit customer_id w n.node_id) nodes
    → is_named nodes id ≡ true
    → needs_shrink (plan_of customer_id round nodes targets) id ≡ true
    → round ≤ round_in (view_at customer_id w id)
    → (w' : Cluster) × (run_round (plan_of customer_id round nodes targets) net w ≡ some w')
      × ((j : String) → share_at limit customer_id w' j ≤ share_at limit customer_id w j)
unfolding run_round
run_round-stalls limit c round nodes targets net w id hl h distinct e known named less old =
    let plan = plan_of c round nodes targets in
    let goal = goal_of nodes targets in
    let (hits, total) = goals_lem nodes targets distinct e in
    let aims = aimed c round nodes targets nodes hits in
    let (ok, w1, e1, h1, below, kept, done) =
      shrink_lem limit plan net goal (share_at limit c w) nodes w hl h aims known
        (λ j. omega arith) in
    let (ok2, w2, e2, stale) = shrink-stale plan net goal nodes w aims in
    let same : (ok, w1) ≡ (ok2, w2) = some-injective _ _ (sym e1 ∙ e2) in
    let refused : ok ≡ false = ap (λ (r : Bool × Cluster). r.0) same ∙ stale id less named old in
    (w1, rw (e1, refused) refl, below)
