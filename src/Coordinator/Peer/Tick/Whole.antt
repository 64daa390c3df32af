-- ===== src/Coordinator/Peer/Tick/Whole.antt =====
-- A whole tick of internal/coordinator/peer.go: the polls and the rebalance of every customer that
-- an answer names (runRebalanceTick).
use ti_assignment_promise_th.Base.{
  ℕ, ◌≤◌, ◌≡◌, ◌∙◌, refl, sym, subst, Bool, false, String, none, some, ◌⊎◌, inl, inr, List, [], ◌∷◌,
  ◌==◌, arith, Bool-cases, Option-cases, string_eq,
}
use ti_assignment_promise_th.Base.Dict.{Dict, lookup}
use ti_assignment_promise_th.Base.Go.{Floats, Sorting}
use ti_assignment_promise_th.Coordinator.Peer.{PeerConfig, StatusResponse}
use ti_assignment_promise_th.Coordinator.Peer.Round.{Cluster, Exchange, NodeSplit}
use ti_assignment_promise_th.Coordinator.Peer.Round.Step.{share_at}
use ti_assignment_promise_th.Coordinator.Peer.Round.Safety.{total_share}
use ti_assignment_promise_th.Coordinator.Peer.Tick.{
  Demands, all_seen, in_order, poll_all_nodes, rebalance_all, run_rebalance_tick,
}
use ti_assignment_promise_th.Coordinator.Peer.Tick.Polls.{IsUniform, poll_all_nodes-AllPolled}
use ti_assignment_promise_th.Coordinator.Peer.Tick.Frame.{Spares}
use ti_assignment_promise_th.Coordinator.Peer.Tick.Apart.{
  IsApart, weights_of-same, rebalance_customer-IsApart,
}
use ti_assignment_promise_th.Coordinator.Peer.Tick.Rebalance.{
  IsMap, AreTrue, IsExactSplit, HasExactSplit, limit_of, nodes_of, total-same, true_after,
  rebalance_customer-safe,
}
use ti_assignment_promise_th.Coordinator.Peer.Tick.Seen.{IsOnce, all_seen-IsOnce, apart_keys}

-- The customer's share on every node is what it was.
abbrev pub IsUntouched : String → Cluster → Cluster → Type 0
IsUntouched id w w' = (limit : ℕ) (j : String) → share_at limit id w' j ≡ share_at limit id w j

-- On the nodes that answered, the customer's shares in `w'` add up to at most what they do in `w`
-- or to at most the limit that the proposer knows.
abbrev pub IsSettled : String → Dict String StatusResponse → PeerConfig → Cluster → Cluster → Type 0
IsSettled id statuses cfg w w' =
    (nodes : List NodeSplit) × (nodes_of id statuses cfg ≡ some nodes)
    × ((total_share (limit_of id statuses cfg) id w' nodes
          ≤ total_share (limit_of id statuses cfg) id w nodes)
        ⊎ (total_share (limit_of id statuses cfg) id w' nodes ≤ limit_of id statuses cfg))

IsSettled-before :
    (id : String) (statuses : Dict String StatusResponse) (cfg : PeerConfig) (w1 w2 w3 : Cluster)
    → IsUntouched id w1 w2
    → IsSettled id statuses cfg w2 w3
    → IsSettled id statuses cfg w1 w3
IsSettled-before id statuses cfg w1 w2 w3 same (nodes, is, safe) =
    let limit = limit_of id statuses cfg in
    let eq = total-same limit id w1 w2 nodes (same limit) in
    (nodes, is, elim safe [ inl old ↦ inl (omega (arith, old, eq)) | inr new ↦ inr new ])

IsSettled-after :
    (id : String) (statuses : Dict String StatusResponse) (cfg : PeerConfig) (w1 w2 w3 : Cluster)
    → IsUntouched id w2 w3
    → IsSettled id statuses cfg w1 w2
    → IsSettled id statuses cfg w1 w3
IsSettled-after id statuses cfg w1 w2 w3 same (nodes, is, safe) =
    let limit = limit_of id statuses cfg in
    let eq = total-same limit id w2 w3 nodes (same limit) in
    (
      nodes,
      is,
      elim safe [ inl old ↦ inl (omega (arith, old, eq)) | inr new ↦ inr (omega (arith, new, eq)) ],
    )

module _ (fl : Floats) (sorting : Sorting) where
  HasExactSplit-kept :
      (c id : String) (statuses : Dict String StatusResponse) (ema : Demands fl sorting)
      (w : Cluster) (r : Demands fl sorting × Cluster)
      → (c == id) ≡ false
      → IsApart fl sorting c ema w r
      → HasExactSplit fl sorting id statuses ema w
      → HasExactSplit fl sorting id statuses r.0 r.1
  HasExactSplit-kept c id statuses ema w r other (spared, alike) small nodes e =
      rw (weights_of-same fl sorting ema r.0 id (in_order fl sorting nodes) (alike id other)) (
        subst (λ cfg. IsExactSplit fl sorting id statuses ema cfg) (sym spared.same_node) small
          nodes e)

  AreTrue-kept :
      (n : ℕ) (c id : String) (statuses : Dict String StatusResponse) (w w' : Cluster)
      → (c == id) ≡ false
      → Spares c w w'
      → AreTrue n id w statuses
      → AreTrue n id w' statuses
  AreTrue-kept n c id statuses w w' other spared true_all j st e limit =
      let (k, is, named, share) = true_all j st e limit in
      (k, is, named, share ∙ sym (spared.same limit id j other))

  -- What the rebalances of the customers in `seen` leave: each of them is settled, and no other
  -- customer is touched.
  AllSettled : Dict String Bool → Dict String StatusResponse → Cluster → Cluster → Type 0
  AllSettled seen statuses w w' =
      ((id : String) (b : Bool)
        → lookup id seen ≡ some b
        → IsSettled id statuses w.proposer.cfg w w')
      × ((id : String) → lookup id seen ≡ none → IsUntouched id w w')

  AllSettled-cons :
      (c : String) (b : Bool) (seen : Dict String Bool) (statuses : Dict String StatusResponse)
      (w w1 w2 : Cluster)
      → lookup c seen ≡ none
      → Spares c w w1
      → IsSettled c statuses w.proposer.cfg w w1
      → AllSettled seen statuses w1 w2
      → AllSettled ((c, b) ∷ seen) statuses w w2
  unfolding AllSettled lookup
  AllSettled-cons c b seen statuses w w1 w2 once spared settled (all, none_else) = (
    λ id x e. elim (Bool-cases (c == id)) [
      | inl same ↦
          subst (λ k. IsSettled k statuses w.proposer.cfg w w2) ((string_eq.beq_iff c id).0 same)
            (IsSettled-after c statuses w.proposer.cfg w w1 w2 (none_else c once) settled)
      | inr other ↦
          IsSettled-before id statuses w.proposer.cfg w w1 w2
            (λ limit j. spared.same limit id j other)
            (subst (λ cfg. IsSettled id statuses cfg w1 w2) spared.same_node
              (all id x (ground (arith, e, other))))
    ],
    λ id e limit j. elim (Bool-cases (c == id)) [
      | inl same ↦ absurd (ground (arith, e, same))
      | inr other ↦ none_else id (ground (arith, e, other)) limit j ∙ spared.same limit id j other
    ],
  )

  rebalance_all-AllSettled :
      (n : ℕ) (seen : Dict String Bool) (statuses : Dict String StatusResponse)
      (net : String → String → Exchange) (ema : Demands fl sorting) (w : Cluster)
      → IsUniform n w
      → IsMap w.proposer.cfg.peers
      → IsOnce seen
      → ((id : String) (b : Bool) → lookup id seen ≡ some b → AreTrue n id w statuses)
      → ((id : String) (b : Bool)
          → lookup id seen ≡ some b
          → HasExactSplit fl sorting id statuses ema w)
      → (r : Demands fl sorting × Cluster) × (rebalance_all fl sorting seen statuses net ema w
          ≡ some r)
        × AllSettled seen statuses w r.1
  unfolding rebalance_all AllSettled IsOnce lookup
  rebalance_all-AllSettled n [] statuses net ema w u distinct once true_all small =
      ((ema, w), refl, ((λ id b e. absurd cc), λ id e limit j. refl))
  rebalance_all-AllSettled n ((c, b) ∷ seen) statuses net ema w u distinct once true_all small =
      let here : lookup c ((c, b) ∷ seen) ≡ some b = ground (arith, string_eq.beq_iff c c) in
      let later : (id : String) (x : Bool)
          → lookup id seen ≡ some x
          → ((c == id) ≡ false) × (lookup id ((c, b) ∷ seen) ≡ some x) =
        λ id x e.
          let other = apart_keys c id x seen once.0 e in (other, ground (arith, e, other)) in
      let (nodes, ema1, w1, gathered, ran, safe) =
        rebalance_customer-safe fl sorting n c statuses (net c) ema w u distinct (true_all c b here)
          (small c b here) in
      let apart = rebalance_customer-IsApart fl sorting c statuses (net c) ema w (ema1, w1) ran in
      let (r, rest, settled) =
        rebalance_all-AllSettled n seen statuses net ema1 w1 (apart.0.uniform n u)
          (rw (apart.0.same_node) distinct) once.1
          (λ id x e.
            let (other, all) = later id x e in
            AreTrue-kept n c id statuses w w1 other apart.0 (true_all id x all))
          (λ id x e.
            let (other, all) = later id x e in
            HasExactSplit-kept c id statuses ema w (ema1, w1) other apart (small id x all)) in
      (
        r,
        rw ran rest,
        AllSettled-cons c b seen statuses w w1 r.1 once.0 apart.0 (nodes, gathered, safe) settled,
      )

  -- A tick of the proposer never panics, and whatever becomes of each poll and of each instruction to
  -- each node, of every customer either no share has changed on any node, or the shares on the nodes
  -- that answered add up after the tick to at most what they did before it or to at most the limit
  -- that the proposer knows. The nodes agree on how many they are, the peers are a map, and for each
  -- customer that an answer names the weights are exact in a float.
  pub run_rebalance_tick-safe :
      (n : ℕ) (polls : String → Exchange) (net : String → String → Exchange)
      (ema : Demands fl sorting) (w : Cluster) (id : String)
      → IsUniform n w
      → IsMap w.proposer.cfg.peers
      → let r = poll_all_nodes polls w.proposer.cfg.peers w in
        ((c : String) (b : Bool)
          → lookup c (all_seen r.0) ≡ some b
          → HasExactSplit fl sorting c r.0 ema r.1)
        → (t : Demands fl sorting × Cluster) × (run_rebalance_tick fl sorting polls net ema w
            ≡ some t)
          × (IsUntouched id w t.1 ⊎ IsSettled id r.0 w.proposer.cfg w t.1)
  unfolding run_rebalance_tick AllSettled
  run_rebalance_tick-safe n polls net ema w id u distinct small =
      let r = poll_all_nodes polls w.proposer.cfg.peers w in
      let (same, u1, true_all) = poll_all_nodes-AllPolled n polls w.proposer.cfg.peers w u in
      let (t, ran, all) =
        rebalance_all-AllSettled n (all_seen r.0) r.0 net ema r.1 u1 (rw same.1 distinct)
          (all_seen-IsOnce r.0) (λ c b e. true_after n c w r.1 r.0 same.0 true_all) small in
      (
        t,
        ran,
        elim (Option-cases (lookup id (all_seen r.0))) [
          | inl unseen ↦ inl (λ limit j. all.1 id unseen limit j ∙ same.0 limit id j)
          | inr (b, seen) ↦ inr (
              IsSettled-before id r.0 w.proposer.cfg w r.1 t.1 (λ limit j. same.0 limit id j)
                (subst (λ cfg. IsSettled id r.0 cfg r.1 t.1) same.1 (all.0 id b seen)))
        ],
      )
