-- ===== src/Coordinator/Peer/Tick/Rebalance.antt =====
-- rebalanceCustomer in internal/coordinator/peer.go for one customer, on answers that are true.
use ti_assignment_promise_th.Base.{
  ℕ, ◌≤◌, ◌≡◌, ◌∙◌, sym, refl, ap, ◌⊎◌, inl, inr, String, Option, some, List, [], ◌∷◌, ◌==◌,
  count_if, arith, All, Bool-cases, Option-cases, string_eq, nat_beq,
}
use ti_assignment_promise_th.Base.Dict.{Dict, lookup}
use ti_assignment_promise_th.Base.Go.{Floats, Sorting}
use ti_assignment_promise_th.Coordinator.Peer.{PeerConfig, StatusResponse}
use ti_assignment_promise_th.Coordinator.Peer.Round.{
  Cluster, Exchange, NodeSplit, gather, node_split, known_global_limit,
}
use ti_assignment_promise_th.Coordinator.Peer.Round.Step.{share_at, IsCounted}
use ti_assignment_promise_th.Coordinator.Peer.Round.Safety.{total_share}
use ti_assignment_promise_th.Coordinator.Peer.Tick.{
  Demands, weights_of, in_order, rebalance_customer,
}
use ti_assignment_promise_th.Coordinator.Peer.Tick.Safety.{IsReported, IsExact, split_customer-safe}
use ti_assignment_promise_th.Coordinator.Peer.Tick.Polls.{IsUniform, IsTrue}

-- The peers are a map: no id stands in it twice.
abbrev pub IsMap : Dict String String → Type 0
IsMap peers = (j : String) → count_if (λ (e : String × String). e.0 == j) peers ≤ 1

-- Every answer is true of the customer's share.
abbrev pub AreTrue : ℕ → String → Cluster → Dict String StatusResponse → Type 0
AreTrue n id w statuses =
    (j : String) (st : StatusResponse)
    → lookup j statuses ≡ some st
    → (limit : ℕ)
    → (k : NodeSplit) × (node_split limit n id j st ≡ some k)
      × (k.node_id ≡ j)
      × (k.current ≡ share_at limit id w j)

gather_lem :
    (n limit : ℕ) (id : String) (w : Cluster) (statuses : Dict String StatusResponse)
    (peers : Dict String String)
    → AreTrue n id w statuses
    → (nodes : List NodeSplit) × (gather limit n id statuses peers ≡ some nodes)
      × All (IsReported limit id w) nodes
      × ((j : String)
          → count_if (λ k. k.node_id == j) nodes
            ≤ count_if (λ (e : String × String). e.0 == j) peers)
unfolding gather
gather_lem n limit id w statuses [] true_all = ([], refl, tt, λ j. omega arith)
gather_lem n limit id w statuses ((i, url) ∷ peers) true_all =
    let (nodes, e, known, few) = gather_lem n limit id w statuses peers true_all in
    elim (Option-cases (lookup i statuses)) [
      | inl silent ↦ (nodes, rw (e, silent) refl, known, λ j. ground (arith, few j))
      | inr (st, found) ↦
          let (k, is, named, share) = true_all i st found limit in
          (
            k ∷ nodes,
            rw (e, found, is) refl,
            (share ∙ ap (share_at limit id w) (sym named), known),
            λ j. rw named (ground (arith, few j)),
          )
    ]

IsUniform-IsCounted : (n : ℕ) (w : Cluster) → IsUniform n w → IsCounted w
IsUniform-IsCounted n w u = record {
  own = omega (arith, u.own, u.positive);
  others = λ id p e. omega (arith, u.others id p e, u.positive);
}

pub total-same :
    (limit : ℕ) (id : String) (w w' : Cluster) (nodes : List NodeSplit)
    → ((j : String) → share_at limit id w' j ≡ share_at limit id w j)
    → total_share limit id w' nodes ≡ total_share limit id w nodes
total-same limit id w w' [] same = refl
total-same limit id w w' (k ∷ nodes) same =
    omega (arith, same k.node_id, total-same limit id w w' nodes same)

-- What is true before the polls is true after them.
pub true_after :
    (n : ℕ) (id : String) (w w' : Cluster) (statuses : Dict String StatusResponse)
    → ((limit : ℕ) (c j : String) → share_at limit c w' j ≡ share_at limit c w j)
    → ((j : String) (st : StatusResponse) → lookup j statuses ≡ some st → IsTrue n w j st)
    → AreTrue n id w' statuses
true_after n id w w' statuses same true_all j st e limit =
    let (k, is, named, share) = true_all j st e limit id in
    (k, is, named, share ∙ sym (same limit id j))

-- The limit that the proposer knows after the polls, and the nodes that answered.
abbrev pub limit_of : String → Dict String StatusResponse → PeerConfig → ℕ
limit_of id statuses cfg = known_global_limit cfg.node_id id statuses

abbrev pub nodes_of : String → Dict String StatusResponse → PeerConfig → Option (List NodeSplit)
nodes_of id statuses cfg = gather (limit_of id statuses cfg) cfg.node_count id statuses cfg.peers

abbrev pub limit_in : String → Dict String StatusResponse → Cluster → ℕ
limit_in id statuses w = limit_of id statuses w.proposer.cfg

abbrev pub nodes_in : String → Dict String StatusResponse → Cluster → Option (List NodeSplit)
nodes_in id statuses w = nodes_of id statuses w.proposer.cfg

module _ (fl : Floats) (sorting : Sorting) where
  -- The weights of the split are exact in a float64.
  abbrev pub IsExactSplit :
      String → Dict String StatusResponse → Demands fl sorting → PeerConfig → Type 0
  IsExactSplit id statuses ema cfg =
      (nodes : List NodeSplit)
      → nodes_of id statuses cfg ≡ some nodes
      → IsExact (limit_of id statuses cfg)
          (weights_of fl sorting ema id (in_order fl sorting nodes)).0

  abbrev pub HasExactSplit :
      String → Dict String StatusResponse → Demands fl sorting → Cluster → Type 0
  HasExactSplit id statuses ema w = IsExactSplit id statuses ema w.proposer.cfg

  pub rebalance_customer-safe :
      (n : ℕ) (id : String) (statuses : Dict String StatusResponse) (net : String → Exchange)
      (ema : Demands fl sorting) (w : Cluster)
      → IsUniform n w
      → IsMap w.proposer.cfg.peers
      → AreTrue n id w statuses
      → HasExactSplit id statuses ema w
      → (nodes : List NodeSplit) × (ema' : Demands fl sorting) × (w' : Cluster) × (nodes_in id
            statuses w
          ≡ some nodes)
        × (rebalance_customer fl sorting id statuses net ema w ≡ some (ema', w'))
        × ((total_share (limit_in id statuses w) id w' nodes
              ≤ total_share (limit_in id statuses w) id w nodes)
            ⊎ (total_share (limit_in id statuses w) id w' nodes ≤ limit_in id statuses w))
  unfolding rebalance_customer
  rebalance_customer-safe n id statuses net ema w u distinct true_all small =
      let limit = limit_in id statuses w in
      let (nodes, e, known, few) = gather_lem n limit id w statuses w.proposer.cfg.peers true_all in
      let gathered : nodes_in id statuses w ≡ some nodes = rw u.own e in
      elim (Bool-cases (nat_beq limit 0)) [
        | inl unknown ↦ (nodes, ema, w, gathered, rw unknown refl, inl (omega arith))
        | inr limited ↦
            let (ema', w', split, safe) =
              split_customer-safe fl sorting limit id nodes net ema w (ground (arith, limited))
                (IsUniform-IsCounted n w u) (λ j. omega (arith, few j, distinct j)) known
                (small nodes gathered) in
            (nodes, ema', w', gathered, rw (limited, gathered) split, safe)
      ]
