-- ===== src/Coordinator/Peer/Tick/Phases.antt =====
-- A round of one customer in internal/coordinator/peer.go, phase by phase, and the shares of the others.
use ti_assignment_promise_th.Base.{
  ◌≡◌, refl, Bool, String, some, List, [], ◌∷◌, arith, Bool-cases, Option-cases, inl, inr,
  string_eq,
}
use ti_assignment_promise_th.Base.Dict.{lookup_or}
use ti_assignment_promise_th.Base.Int.{pos, leb_ℤ}
use ti_assignment_promise_th.Coordinator.Peer.{ApplyShareRequest}
use ti_assignment_promise_th.Coordinator.Peer.Round.{
  Cluster, Exchange, NodeSplit, Plan, instruct, shrink, grow, run_round, target_of,
}
use ti_assignment_promise_th.Coordinator.Peer.Tick.Frame.{
  Spares, Spares-refl, Spares-trans, apply_share-Spares,
}

instruct-Spares :
    (plan : Plan) (w : Cluster) (id : String) (x : Exchange) (r : Bool × Cluster)
    → instruct plan w id x ≡ some r
    → Spares plan.customer_id w r.1
unfolding instruct
instruct-Spares plan w id x r e = elim (Option-cases (target_of plan.nodes plan.targets id)) [
  | inl panic ↦ absurd (ground (arith, e, panic))
  | inr (quota, aim) ↦
      let req : ApplyShareRequest = record {
        customer_id = plan.customer_id;
        round = plan.round;
        quota = quota;
      } in
      apply_share-Spares w id req x r (rw (← e, aim) refl)
]

shrink-Spares :
    (plan : Plan) (net : String → Exchange) (ns : List NodeSplit) (w : Cluster) (r : Bool × Cluster)
    → shrink plan net ns w ≡ some r
    → Spares plan.customer_id w r.1
unfolding shrink
shrink-Spares plan net [] w r e =
    let is : w ≡ r.1 = ground (arith, e) in rw (← is) (Spares-refl plan.customer_id w)
shrink-Spares plan net (n ∷ ns) w r e =
    elim (Bool-cases (leb_ℤ (pos 0) (lookup_or (pos 0) n.node_id plan.deltas))) [
      | inl skip ↦ shrink-Spares plan net ns w r (rw (← e, skip) refl)
      | inr go ↦ elim (Option-cases (instruct plan w n.node_id (net n.node_id))) [
        | inl panic ↦ absurd (ground (arith, e, go, panic))
        | inr (a, told) ↦ elim (Option-cases (shrink plan net ns a.1)) [
          | inl panic ↦ absurd (ground (arith, e, go, told, panic))
          | inr (b, rest) ↦
              let is : b.1 ≡ r.1 = ground (arith, e, go, told, rest) in
              rw (← is) (
                Spares-trans (instruct-Spares plan w n.node_id (net n.node_id) a told)
                  (shrink-Spares plan net ns a.1 b rest))
        ]
      ]
    ]

grow-Spares :
    (plan : Plan) (net : String → Exchange) (ns : List NodeSplit) (w w' : Cluster)
    → grow plan net ns w ≡ some w'
    → Spares plan.customer_id w w'
unfolding grow
grow-Spares plan net [] w w' e =
    let is : w ≡ w' = ground (arith, e) in rw (← is) (Spares-refl plan.customer_id w)
grow-Spares plan net (n ∷ ns) w w' e =
    elim (Bool-cases (leb_ℤ (lookup_or (pos 0) n.node_id plan.deltas) (pos 0))) [
      | inl skip ↦ grow-Spares plan net ns w w' (rw (← e, skip) refl)
      | inr go ↦ elim (Option-cases (instruct plan w n.node_id (net n.node_id))) [
        | inl panic ↦ absurd (ground (arith, e, go, panic))
        | inr (a, told) ↦
            Spares-trans (instruct-Spares plan w n.node_id (net n.node_id) a told)
              (grow-Spares plan net ns a.1 w' (rw (← e, go, told) refl))
      ]
    ]

pub run_round-Spares :
    (plan : Plan) (net : String → Exchange) (w w' : Cluster)
    → run_round plan net w ≡ some w'
    → Spares plan.customer_id w w'
unfolding run_round
run_round-Spares plan net w w' e = elim (Option-cases (shrink plan net plan.nodes w)) [
  | inl panic ↦ absurd (ground (arith, e, panic))
  | inr (a, shrunk) ↦
      let first : Spares plan.customer_id w a.1 = shrink-Spares plan net plan.nodes w a shrunk in
      elim (Bool-cases a.0) [
        | inl acknowledged ↦
            Spares-trans first
              (grow-Spares plan net plan.nodes a.1 w' (rw (← e, shrunk, acknowledged) refl))
        | inr abandoned ↦
            let is : a.1 ≡ w' = ground (arith, e, shrunk, abandoned) in rw (← is) first
      ]
]
