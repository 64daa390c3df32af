-- ===== src/Coordinator/Peer/Tick/Apart.antt =====
-- rebalanceCustomer in internal/coordinator/peer.go for one customer, and what it leaves alone of the
-- others: their shares and their smoothed demand.
use ti_assignment_promise_th.Base.{
  ℕ, ◌+◌, ◌≡◌, ◌∙◌, refl, false, String, some, List, [], ◌∷◌, ◌==◌, arith, Bool-cases, Option-cases,
  inl, inr, string_eq, ltb, nat_beq,
}
use ti_assignment_promise_th.Base.Dict.{Dict, lookup, lookup-insert, lookup_or, lookup_or-insert}
use ti_assignment_promise_th.Base.Go.{Floats, Sorting}
use ti_assignment_promise_th.Coordinator.Peer.{
  Peer, CustomerState, StatusResponse, bootstrap, customer_for, put_customer,
}
use ti_assignment_promise_th.Coordinator.Peer.Split.{proportional_split}
use ti_assignment_promise_th.Coordinator.Peer.Round.{
  Cluster, Exchange, NodeSplit, next_round, deltas_of, gather, known_global_limit, max_abs_delta,
  hysteresis_rpm,
}
use ti_assignment_promise_th.Coordinator.Peer.Round.Own.{share_on}
use ti_assignment_promise_th.Coordinator.Peer.Tick.{
  Demands, smooth_demand, weights_of, in_order, start_round, split_customer, rebalance_customer,
}
use ti_assignment_promise_th.Coordinator.Peer.Tick.Frame.{
  Spares, IsSpared, Spares-refl, Spares-trans, own-Spares,
}
use ti_assignment_promise_th.Coordinator.Peer.Tick.Phases.{run_round-Spares}

put_customer-IsSpared :
    (c : String) (p : Peer) (cs : CustomerState) → IsSpared c p (put_customer p c cs)
unfolding share_on
put_customer-IsSpared c p cs =
    (refl, λ limit id other. ground (arith, lookup-insert c id cs p.customers, other))

customer_for-IsSpared :
    (c : String) (limit : ℕ) (p : Peer) (r : CustomerState × Peer)
    → customer_for p c limit ≡ some r
    → IsSpared c p r.1
unfolding customer_for
customer_for-IsSpared c limit p r e = elim (Option-cases (lookup c p.customers)) [
  | inl new ↦ elim (Option-cases (bootstrap limit p.cfg.node_count)) [
    | inl panic ↦ absurd (ground (arith, e, new, panic))
    | inr (share, made) ↦
        let is : put_customer p c r.0 ≡ r.1 = ground (arith, e, new, made) in
        rw (← is) (put_customer-IsSpared c p r.0)
  ]
  | inr (cs, old) ↦
      let is : put_customer p c r.0 ≡ r.1 = ground (arith, e, old) in
      rw (← is) (put_customer-IsSpared c p r.0)
]

start_round-Spares :
    (c : String) (limit : ℕ) (nodes : List NodeSplit) (targets : List ℕ) (net : String → Exchange)
    (w w' : Cluster)
    → start_round c limit nodes targets net w ≡ some w'
    → Spares c w w'
unfolding start_round
start_round-Spares c limit nodes targets net w w' e =
    elim (Option-cases (customer_for w.proposer c limit)) [
      | inl panic ↦ absurd (ground (arith, e, panic))
      | inr (found, is) ↦
          Spares-trans (own-Spares c w found.1 (customer_for-IsSpared c limit w.proposer found is))
            (run_round-Spares
              (record {
                customer_id = c;
                round = next_round found.0.last_applied;
                nodes = nodes;
                targets = targets;
                deltas = deltas_of nodes targets;
              })
              net (record w { proposer = found.1 }) w' (rw (← e, is) refl))
    ]

module _ (fl : Floats) (sorting : Sorting) where
  -- The smoothed demand of a customer is the same in both.
  abbrev pub IsAlike : String → Demands fl sorting → Demands fl sorting → Type 0
  IsAlike id ema ema' = lookup_or [] id ema' ≡ lookup_or [] id ema

  smooth_demand-same :
      (ema ema' : Demands fl sorting) (id j : String) (raw : fl.Float)
      → IsAlike id ema ema'
      → ((smooth_demand fl sorting ema' id j raw).0 ≡ (smooth_demand fl sorting ema id j raw).0)
        × IsAlike id
            (smooth_demand fl sorting ema id j raw).1
            (smooth_demand fl sorting ema' id j raw).1
  unfolding smooth_demand
  smooth_demand-same ema ema' id j raw h =
      (rw (smooth_demand, h) refl, rw (lookup_or-insert, lookup_or-insert, smooth_demand, h) refl)

  -- The weights depend on nothing but the customer's own smoothed demand.
  pub weights_of-same :
      (ema ema' : Demands fl sorting) (id : String) (nodes : List NodeSplit)
      → IsAlike id ema ema'
      → (weights_of fl sorting ema' id nodes).0 ≡ (weights_of fl sorting ema id nodes).0
  unfolding weights_of
  weights_of-same ema ema' id [] h = refl
  weights_of-same ema ema' id (n ∷ nodes) h =
      let (next, alike) = smooth_demand-same ema ema' id n.node_id (fl.of_int n.demand) h in
      let rest =
        weights_of-same (smooth_demand fl sorting ema id n.node_id (fl.of_int n.demand)).1
          (smooth_demand fl sorting ema' id n.node_id (fl.of_int n.demand)).1 id nodes alike in
      λ i. (fl.trunc (fl.mul (next i) (fl.of_int 1000)) + 1) ∷ rest i

  weights_of-IsAlike :
      (ema : Demands fl sorting) (c id : String) (nodes : List NodeSplit)
      → (c == id) ≡ false
      → IsAlike id ema (weights_of fl sorting ema c nodes).1
  unfolding weights_of smooth_demand
  weights_of-IsAlike ema c id [] other = refl
  weights_of-IsAlike ema c id (n ∷ nodes) other =
      weights_of-IsAlike (smooth_demand fl sorting ema c n.node_id (fl.of_int n.demand)).1 c id
        nodes other
      ∙ (lookup_or-insert [] c id _ ema ∙ rw other refl)

  -- All that a rebalance of `c` leaves alone.
  abbrev pub IsApart : String → Demands fl sorting → Cluster → Demands fl sorting × Cluster → Type 0
  IsApart c ema w r = Spares c w r.1 × ((id : String) → (c == id) ≡ false → IsAlike id ema r.0)

  split_customer-IsApart :
      (c : String) (limit : ℕ) (nodes : List NodeSplit) (net : String → Exchange)
      (ema : Demands fl sorting) (w : Cluster) (r : Demands fl sorting × Cluster)
      → split_customer fl sorting c limit nodes net ema w ≡ some r
      → IsApart c ema w r
  unfolding split_customer
  split_customer-IsApart c limit [] net ema w r e =
      let is : (ema, w) ≡ r = ground (arith, e) in rw (← is) (Spares-refl c w, λ id other. refl)
  split_customer-IsApart c limit (n ∷ ns) net ema w r e =
      let nodes = in_order fl sorting (n ∷ ns) in
      let weighed = weights_of fl sorting ema c nodes in
      let targets = proportional_split fl sorting limit weighed.0 in
      let alike : (id : String) → (c == id) ≡ false → IsAlike id ema weighed.1 =
        λ id other. weights_of-IsAlike ema c id nodes other in
      elim (Bool-cases (ltb (max_abs_delta nodes targets) hysteresis_rpm)) [
        | inl still ↦
            let is : (weighed.1, w) ≡ r = ground (arith, e, still) in
            rw (← is) (Spares-refl c w, alike)
        | inr moves ↦ elim (Option-cases (start_round c limit nodes targets net w)) [
          | inl panic ↦ absurd (ground (arith, e, moves, panic))
          | inr (w', run) ↦
              let is : (weighed.1, w') ≡ r = ground (arith, e, moves, run) in
              rw (← is) (start_round-Spares c limit nodes targets net w w' run, alike)
        ]
      ]

  pub rebalance_customer-IsApart :
      (c : String) (statuses : Dict String StatusResponse) (net : String → Exchange)
      (ema : Demands fl sorting) (w : Cluster) (r : Demands fl sorting × Cluster)
      → rebalance_customer fl sorting c statuses net ema w ≡ some r
      → IsApart c ema w r
  unfolding rebalance_customer
  rebalance_customer-IsApart c statuses net ema w r e =
      let cfg = w.proposer.cfg in
      let limit = known_global_limit cfg.node_id c statuses in
      elim (Bool-cases (nat_beq limit 0)) [
        | inl unknown ↦
            let is : (ema, w) ≡ r = ground (arith, e, unknown) in
            rw (← is) (Spares-refl c w, λ id other. refl)
        | inr limited ↦ elim (Option-cases (gather limit cfg.node_count c statuses cfg.peers)) [
          | inl panic ↦ absurd (ground (arith, e, limited, panic))
          | inr (nodes, is) ↦
              split_customer-IsApart c limit nodes net ema w r (rw (← e, limited, is) refl)
        ]
      ]
