-- ===== src/Coordinator/Peer/Round/Phases.antt =====
-- The two phases of rebalanceCustomer in internal/coordinator/peer.go: which shares they can leave.
use ti_assignment_promise_th.Base.{
  ℕ, ◌≤◌, ◌<◌, ◌≡◌, refl, ◌⊎◌, inl, inr, Bool, true, ◌&&◌, String, some, List, [], ◌∷◌, arith, All,
  Bool-cases, and-true, dec_lt, string_eq,
}
use ti_assignment_promise_th.Base.Dict.{lookup_or}
use ti_assignment_promise_th.Base.Int.{pos, minus, leb_ℤ}
use ti_assignment_promise_th.Coordinator.Peer.Round.{
  Cluster, Exchange, NodeSplit, Plan, target_of, instruct, shrink, grow, run_round,
}
use ti_assignment_promise_th.Coordinator.Peer.Round.Step.{share_at, IsCounted, IsInstructed}
use ti_assignment_promise_th.Coordinator.Peer.Round.Apply.{apply_share-IsInstructed}

-- The plan's entry for the node: its target is `goal`, its delta the way there from its current
-- share.
abbrev pub IsAimed : Plan → (String → ℕ) → NodeSplit → Type 0
IsAimed plan goal n =
    (target_of plan.nodes plan.targets n.node_id ≡ some (goal n.node_id))
    × (lookup_or (pos 0) n.node_id plan.deltas ≡ minus (goal n.node_id) n.current)

module _ (limit : ℕ) (plan : Plan) (net : String → Exchange) (goal cur : String → ℕ) where
  abbrev pub share : Cluster → String → ℕ
  share = share_at limit plan.customer_id

  -- No step takes a node that is below its goal beyond it.
  abbrev IsKept : Cluster → Cluster → Type 0
  IsKept w w' = (j : String) → share w j ≤ goal j → share w' j ≤ goal j

  instruct_lem :
      (n : NodeSplit) (w : Cluster)
      → 1 ≤ limit
      → IsCounted w
      → IsAimed plan goal n
      → (ack : Bool) × (w' : Cluster) × (instruct plan w n.node_id (net n.node_id) ≡ some (ack, w'))
        × IsInstructed limit
            (record { customer_id = plan.customer_id; round = plan.round; quota = goal n.node_id })
            n.node_id
            ack
            w
            w'
  unfolding instruct
  instruct_lem n w hl h aim =
      let (ack, w', e, step) =
        apply_share-IsInstructed limit
          (record { customer_id = plan.customer_id; round = plan.round; quota = goal n.node_id })
          n.node_id (net n.node_id) w hl h in
      (ack, w', rw (aim.0) e, step)

  -- A shrink raises no share, and if all of them are acknowledged, no node that had to shrink is
  -- above its goal.
  pub shrink_lem :
      (ns : List NodeSplit) (w : Cluster)
      → 1 ≤ limit
      → IsCounted w
      → All (IsAimed plan goal) ns
      → All (λ n. n.current ≡ cur n.node_id) ns
      → ((j : String) → share w j ≤ cur j)
      → (ok : Bool) × (w' : Cluster) × (shrink plan net ns w ≡ some (ok, w'))
        × IsCounted w'
        × ((j : String) → share w' j ≤ cur j)
        × IsKept w w'
        × (ok ≡ true
            → All (λ n. goal n.node_id < cur n.node_id → share w' n.node_id ≤ goal n.node_id) ns)
  unfolding shrink
  shrink_lem [] w hl h aimed known below = (true, w, refl, h, below, λ j kept. kept, λ e. tt)
  shrink_lem (n ∷ ns) w hl h (aim, aimed) (now, known) below =
      elim (Bool-cases (leb_ℤ (pos 0) (lookup_or (pos 0) n.node_id plan.deltas))) [
        | inl skip ↦
            let (ok, w', e, h', below', kept, done) = shrink_lem ns w hl h aimed known below in
            (ok, w', rw skip e, h', below', kept, λ t. (λ less. ground (arith, aim.1, now), done t))
        | inr go ↦
            let (ack, w1, e1, step) = instruct_lem n w hl h aim in
            let less : goal n.node_id < cur n.node_id = ground (arith, aim.1, now) in
            let (ok, w', e, h', below', kept, done) =
              shrink_lem ns w1 hl step.counted aimed known
                (λ j. step.bound j (cur j) (below j) (λ same. rw same (omega arith))) in
            (
              ack && ok,
              w',
              rw (go, e1, e) refl,
              h',
              below',
              λ j small. kept j (step.bound j (goal j) small (λ same. rw same (omega arith))),
              λ t. (
                λ _. kept n.node_id (omega (arith, step.reached (and-true ack ok t).0)),
                done (and-true ack ok t).1,
              ),
            )
      ]

  -- A grow raises no share beyond its goal, acknowledged or not.
  pub grow_lem :
      (ns : List NodeSplit) (w : Cluster)
      → 1 ≤ limit
      → IsCounted w
      → All (IsAimed plan goal) ns
      → (w' : Cluster) × (grow plan net ns w ≡ some w') × IsCounted w' × IsKept w w'
  unfolding grow
  grow_lem [] w hl h aimed = (w, refl, h, λ j small. small)
  grow_lem (n ∷ ns) w hl h (aim, aimed) =
      elim (Bool-cases (leb_ℤ (lookup_or (pos 0) n.node_id plan.deltas) (pos 0))) [
        | inl skip ↦ let (w', e, h', kept) = grow_lem ns w hl h aimed in (w', rw skip e, h', kept)
        | inr go ↦
            let (ack, w1, e1, step) = instruct_lem n w hl h aim in
            let (w', e, h', kept) = grow_lem ns w1 hl step.counted aimed in
            (
              w',
              rw (go, e1) e,
              h',
              λ j small. kept j (step.bound j (goal j) small (λ same. rw same (omega arith))),
            )
      ]

  below_goals :
      (w w' : Cluster) (ns : List NodeSplit)
      → IsKept w w'
      → ((j : String) → share w j ≤ cur j)
      → All (λ n. goal n.node_id < cur n.node_id → share w n.node_id ≤ goal n.node_id) ns
      → All (λ n. share w' n.node_id ≤ goal n.node_id) ns
  below_goals w w' [] kept below done = tt
  below_goals w w' (n ∷ ns) kept below (d, done) = (
    kept n.node_id (elim (dec_lt (goal n.node_id) (cur n.node_id)) [
      | yes less ↦ d less
      | no more ↦ omega (arith, below n.node_id)
    ]),
    below_goals w w' ns kept below done,
  )

  -- After a round, whatever becomes of its messages, either no share is higher than before or none
  -- is higher than its goal.
  pub run_round_lem :
      (w : Cluster)
      → 1 ≤ limit
      → IsCounted w
      → All (IsAimed plan goal) plan.nodes
      → All (λ n. n.current ≡ cur n.node_id) plan.nodes
      → ((j : String) → share w j ≤ cur j)
      → (w' : Cluster) × (run_round plan net w ≡ some w')
        × (((j : String) → share w' j ≤ cur j)
            ⊎ All (λ n. share w' n.node_id ≤ goal n.node_id) plan.nodes)
  unfolding run_round
  run_round_lem w hl h aimed known below =
      let (ok, w1, e1, h1, below1, kept1, done) = shrink_lem plan.nodes w hl h aimed known below in
      elim (Bool-cases ok) [
        | inr abandoned ↦ (w1, rw (e1, abandoned) refl, inl below1)
        | inl acknowledged ↦
            let (w2, e2, h2, kept2) = grow_lem plan.nodes w1 hl h1 aimed in
            (
              w2,
              rw (e1, acknowledged) e2,
              inr (below_goals w1 w2 plan.nodes kept2 below1 (done acknowledged)),
            )
      ]
