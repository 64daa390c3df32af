-- ===== src/Coordinator/Peer/Tick/Safety.antt =====
-- rebalanceCustomer of internal/coordinator/peer.go as a whole: the split, the number of the round
-- and its two phases.
use ti_assignment_promise_th.Base.{
  ℕ, ◌+◌, ◌*◌, ◌^◌, ◌≤◌, ◌<◌, ◌≡◌, ◌∙◌, sym, subst, refl, ◌⊎◌, inl, inr, not, String, some, List,
  [], ◌∷◌, ◌==◌, sum, length, count_if, arith, All, Bool-cases, Option-cases, string_eq, nat_beq,
  ltb, if◌then◌else◌,
}
use ti_assignment_promise_th.Base.Dict.{lookup, lookup-insert}
use ti_assignment_promise_th.Base.Go.{Floats, Sorting, count_if-sort}
use ti_assignment_promise_th.Coordinator.ShareGcra.{new_share_state}
use ti_assignment_promise_th.Coordinator.Static.Share.{share_of, node_share-eq}
use ti_assignment_promise_th.Coordinator.Peer.{
  Peer, CustomerState, customer_for, bootstrap, put_customer,
}
use ti_assignment_promise_th.Ratelimit.Gcra.{zero_time}
use ti_assignment_promise_th.Coordinator.Peer.Split.{proportional_split}
use ti_assignment_promise_th.Coordinator.Peer.Split.Total.{
  proportional_split-sum, length-proportional_split,
}
use ti_assignment_promise_th.Coordinator.Peer.Round.{
  Cluster, Exchange, NodeSplit, next_round, max_abs_delta, hysteresis_rpm,
}
use ti_assignment_promise_th.Coordinator.Peer.Fence.{standing}
use ti_assignment_promise_th.Coordinator.Peer.Round.Own.{share_on}
use ti_assignment_promise_th.Coordinator.Peer.Round.Step.{share_at, IsCounted}
use ti_assignment_promise_th.Coordinator.Peer.Round.Safety.{IsDistinct, total_share, run_round-safe}
use ti_assignment_promise_th.Coordinator.Peer.Tick.{
  Demands, weights_of, start_round, split_customer, in_order, smooth_demand,
}

pub bootstrap-eq : (limit n : ℕ) → 1 ≤ limit → 1 ≤ n → bootstrap limit n ≡ some (share_of limit n)
unfolding bootstrap
bootstrap-eq limit n hl hn = ground (arith, node_share-eq limit n hn)

share_on-put :
    (limit : ℕ) (p : Peer) (id : String) (cs : CustomerState)
    → share_on limit id (put_customer p id cs) ≡ cs.share.quota
unfolding share_on
share_on-put limit p id cs =
    ground (arith, lookup-insert id id cs p.customers, string_eq.beq_iff id id)

-- To know a customer changes no share: a new one gets the share that it counts with.
pub customer_for-share :
    (limit : ℕ) (p : Peer) (id : String)
    → 1 ≤ limit
    → 1 ≤ p.cfg.node_count
    → (cs : CustomerState) × (p' : Peer) × (customer_for p id limit ≡ some (cs, p'))
      × (p'.cfg ≡ p.cfg)
      × (share_on limit id p' ≡ share_on limit id p)
      × (cs.last_applied ≡ (standing p id).last_applied)
      × (lookup id p'.customers ≡ some cs)
unfolding customer_for share_on new_share_state standing
customer_for-share limit p id hl hn = elim (Option-cases (lookup id p.customers)) [
  | inl new ↦
      let cs : CustomerState = record {
        share = new_share_state (share_of limit p.cfg.node_count);
        demand = 0;
        global_limit = limit;
        last_applied = 0;
        last_updated = zero_time;
      } in
      (
        cs,
        put_customer p id cs,
        rw (new, customer_for, bootstrap-eq limit p.cfg.node_count hl hn) refl,
        refl,
        share_on-put limit p id cs ∙ sym (rw (new, share_on) refl),
        rw (new, standing) refl,
        ground (arith, lookup-insert id id cs p.customers, string_eq.beq_iff id id),
      )
  | inr (cs, old) ↦
      let told : CustomerState = record cs {
        global_limit = if ltb 0 limit then limit else cs.global_limit;
      } in
      (
        told,
        put_customer p id told,
        rw (old, customer_for) refl,
        refl,
        share_on-put limit p id told ∙ sym (rw (old, share_on) refl),
        rw (old, standing) refl,
        ground (arith, lookup-insert id id told p.customers, string_eq.beq_iff id id),
      )
]

-- The node's shares are those that it reported.
abbrev pub IsReported : ℕ → String → Cluster → NodeSplit → Type 0
IsReported limit id w n = n.current ≡ share_at limit id w n.node_id

pub share_at-told :
    (limit : ℕ) (id : String) (w : Cluster) (p' : Peer) (j : String)
    → p'.cfg ≡ w.proposer.cfg
    → share_on limit id p' ≡ share_on limit id w.proposer
    → share_at limit id (record w { proposer = p' }) j ≡ share_at limit id w j
unfolding share_at
share_at-told limit id w p' j cfg same = elim (Bool-cases (j == w.proposer.cfg.node_id)) [
  | inl own ↦ ground (arith, cfg, same, own)
  | inr other ↦ ground (arith, cfg, other)
]

pub told_lem :
    (limit : ℕ) (id : String) (w w' : Cluster) (nodes : List NodeSplit)
    → ((j : String) → share_at limit id w' j ≡ share_at limit id w j)
    → All (IsReported limit id w) nodes
    → All (IsReported limit id w') nodes
      × (total_share limit id w' nodes ≡ total_share limit id w nodes)
told_lem limit id w w' [] same known = (tt, refl)
told_lem limit id w w' (n ∷ ns) same (k, known) =
    let (r, t) = told_lem limit id w w' ns same known in
    ((k ∙ sym (same n.node_id), r), omega (arith, same n.node_id))

-- A round with its number, taken from the proposer's own last one, is as safe as any.
start_round-safe :
    (limit : ℕ) (id : String) (nodes : List NodeSplit) (targets : List ℕ) (net : String → Exchange)
    (w : Cluster)
    → 1 ≤ limit
    → IsCounted w
    → IsDistinct nodes
    → length targets ≡ length nodes
    → All (IsReported limit id w) nodes
    → (w' : Cluster) × (start_round id limit nodes targets net w ≡ some w')
      × ((total_share limit id w' nodes ≤ total_share limit id w nodes)
          ⊎ (total_share limit id w' nodes ≤ sum targets))
unfolding start_round
start_round-safe limit id nodes targets net w hl h d e known =
    let (cs, p', found, cfg, same, own_round, held) =
      customer_for-share limit w.proposer id hl h.own in
    let told : Cluster = record w { proposer = p' } in
    let (known', total) =
      told_lem limit id w told nodes (λ j. share_at-told limit id w p' j cfg same) known in
    let counted : IsCounted told = record {
      own = subst (λ c. 1 ≤ c.node_count) (sym cfg) h.own;
      others = h.others;
    } in
    let (w', run, cases) =
      run_round-safe limit id (next_round cs.last_applied) nodes targets net told hl counted d e
        known' in
    (w', rw found run, elim cases [ inl old ↦ inl (omega (arith, total)) | inr new ↦ inr new ])

from_count :
    (limit : ℕ) (id : String) (w : Cluster) (nodes : List NodeSplit)
    → count_if (λ n. not (nat_beq n.current (share_at limit id w n.node_id))) nodes ≡ 0
    → All (IsReported limit id w) nodes
from_count limit id w [] h = tt
from_count limit id w (n ∷ ns) h = (ground arith, from_count limit id w ns (ground arith))

to_count :
    (limit : ℕ) (id : String) (w : Cluster) (nodes : List NodeSplit)
    → All (IsReported limit id w) nodes
    → count_if (λ n. not (nat_beq n.current (share_at limit id w n.node_id))) nodes ≡ 0
to_count limit id w [] known = refl
to_count limit id w (n ∷ ns) (k, known) = ground (arith, to_count limit id w ns known)

-- The split's products are exact in a float64.
abbrev pub IsExact : ℕ → List ℕ → Type 0
IsExact limit ws = (limit * (sum ws + length ws) < 2 ^ 53) × (sum ws + length ws < 2 ^ 53)

module _ (fl : Floats) (sorting : Sorting) where
  split-le :
      (limit : ℕ) (ws : List ℕ)
      → IsExact limit ws
      → sum (proportional_split fl sorting limit ws) ≤ limit
  unfolding proportional_split
  split-le limit [] small = omega arith
  split-le limit (w ∷ ws) small =
      omega (arith, proportional_split-sum fl sorting limit w ws small.0 small.1)

  length-weights_of :
      (ema : Demands fl sorting) (id : String) (nodes : List NodeSplit)
      → length (weights_of fl sorting ema id nodes).0 ≡ length nodes
  unfolding weights_of
  length-weights_of ema id [] = refl
  length-weights_of ema id (n ∷ ns) = omega (
    arith,
    length-weights_of (smooth_demand fl sorting ema id n.node_id (fl.of_int n.demand)).1 id ns,
  )

  -- The order of the nodes changes nothing that the round needs.
  in_order_lem :
      (limit : ℕ) (id : String) (w : Cluster) (nodes : List NodeSplit)
      → IsDistinct nodes
      → All (IsReported limit id w) nodes
      → IsDistinct (in_order fl sorting nodes)
        × All (IsReported limit id w) (in_order fl sorting nodes)
        × ((v : Cluster)
            → total_share limit id v (in_order fl sorting nodes) ≡ total_share limit id v nodes)
  unfolding in_order
  in_order_lem limit id w nodes d known = (
    λ j. omega (arith, d j, count_if-sort sorting _ (λ n. n.node_id == j) nodes),
    from_count limit id w _ (
        count_if-sort sorting _ (λ n. not (nat_beq n.current (share_at limit id w n.node_id))) nodes
        ∙ to_count limit id w nodes known),
    λ v. sorting.sum-sort _ (λ n. share_at limit id v n.node_id) nodes,
  )

  -- A rebalance never panics, and whatever becomes of each message, a customer's shares on the
  -- nodes that answered the poll add up afterwards to at most the limit or at most what they did
  -- before. The limit is positive, every node knows a positive node count, the nodes are distinct
  -- and report their true shares, and the weights are small enough for exact floats.
  pub split_customer-safe :
      (limit : ℕ) (id : String) (nodes : List NodeSplit) (net : String → Exchange)
      (ema : Demands fl sorting) (w : Cluster)
      → 1 ≤ limit
      → IsCounted w
      → IsDistinct nodes
      → All (IsReported limit id w) nodes
      → IsExact limit (weights_of fl sorting ema id (in_order fl sorting nodes)).0
      → (ema' : Demands fl sorting) × (w' : Cluster) × (split_customer fl sorting id limit nodes net
            ema w
          ≡ some (ema', w'))
        × ((total_share limit id w' nodes ≤ total_share limit id w nodes)
            ⊎ (total_share limit id w' nodes ≤ limit))
  unfolding split_customer
  split_customer-safe limit id [] net ema w hl h d known small = (ema, w, refl, inl (omega arith))
  split_customer-safe limit id (n ∷ ns) net ema w hl h d known small =
      let nodes = in_order fl sorting (n ∷ ns) in
      let (d', known', same) = in_order_lem limit id w (n ∷ ns) d known in
      let weighed = weights_of fl sorting ema id nodes in
      let targets = proportional_split fl sorting limit weighed.0 in
      elim (Bool-cases (ltb (max_abs_delta nodes targets) hysteresis_rpm)) [
        | inl quiet ↦ (weighed.1, w, rw quiet refl, inl (omega arith))
        | inr loud ↦
            let (w', run, cases) =
              start_round-safe limit id nodes targets net w hl h d'
                (length-proportional_split fl sorting limit weighed.0
                  ∙ length-weights_of ema id nodes)
                known' in
            (
              weighed.1,
              w',
              rw (loud, run) refl,
              elim cases [
                | inl old ↦ inl (omega (arith, same w, same w'))
                | inr new ↦ inr (omega (arith, same w', split-le limit weighed.0 small))
              ],
            )
      ]
