-- ===== src/Coordinator/Peer/Round/Safety.antt =====
-- A whole round of internal/coordinator/peer.go: how its targets reach the nodes, and what the
-- shares of a customer add up to afterwards.
use ti_assignment_promise_th.Base.{
  ℕ, ◌≤◌, ◌≡◌, refl, ◌⊎◌, inl, inr, false, String, Option, none, some, List, [], ◌∷◌, ◌==◌, map,
  sum, length, count_if, arith, All, Option-cases, string_eq, ap, sym, subst, ◌∙◌,
}
use ti_assignment_promise_th.Base.Dict.{lookup_or, lookup_or-insert}
use ti_assignment_promise_th.Base.Int.{pos, minus}
use ti_assignment_promise_th.Coordinator.Peer.Round.{
  Cluster, Exchange, NodeSplit, Plan, target_of, index_of, at, deltas_of, run_round,
}
use ti_assignment_promise_th.Coordinator.Peer.Round.Step.{share_at, IsCounted}
use ti_assignment_promise_th.Coordinator.Peer.Round.Phases.{IsAimed, run_round_lem}

target_or_zero : Option ℕ → ℕ
target_or_zero none = 0
target_or_zero (some t) = t

unfoldable pub goal_of : List NodeSplit → List ℕ → String → ℕ
unfolding target_or_zero
goal_of nodes targets id = target_or_zero (target_of nodes targets id)

-- No node is in the list twice.
abbrev pub IsDistinct : List NodeSplit → Type 0
IsDistinct nodes = (id : String) → count_if (λ n. n.node_id == id) nodes ≤ 1

abbrev pub plan_of : String → ℕ → List NodeSplit → List ℕ → Plan
plan_of customer_id round nodes targets = record {
  customer_id = customer_id;
  round = round;
  nodes = nodes;
  targets = targets;
  deltas = deltas_of nodes targets;
}

pub IsHit : List NodeSplit → List ℕ → NodeSplit → Type 0
IsHit nodes targets n =
    (target_of nodes targets n.node_id ≡ some (goal_of nodes targets n.node_id))
    × (lookup_or (pos 0) n.node_id (deltas_of nodes targets)
        ≡ minus (goal_of nodes targets n.node_id) n.current)

pub others_differ :
    (id : String) (ns : List NodeSplit)
    → count_if (λ n. n.node_id == id) ns ≡ 0
    → All (λ m. (id == m.node_id) ≡ false) ns
others_differ id [] h = tt
others_differ id (m ∷ ns) h = (
  ground (arith, string_eq.beq_iff id m.node_id, string_eq.beq_iff m.node_id id),
  others_differ id ns (ground arith),
)

target_of-tail :
    (n : NodeSplit) (ns : List NodeSplit) (t : ℕ) (ts : List ℕ) (id : String)
    → (n.node_id == id) ≡ false
    → target_of (n ∷ ns) (t ∷ ts) id ≡ target_of ns ts id
unfolding target_of index_of at
target_of-tail n ns t ts id other = elim (Option-cases (index_of ns id)) [
  | inl gone ↦ ground (arith, other, gone)
  | inr (i, e) ↦ ground (arith, other, e)
]

goal_of-tail :
    (n : NodeSplit) (ns : List NodeSplit) (t : ℕ) (ts : List ℕ) (id : String)
    → (n.node_id == id) ≡ false
    → goal_of (n ∷ ns) (t ∷ ts) id ≡ goal_of ns ts id
unfolding goal_of
goal_of-tail n ns t ts id other = ap target_or_zero (target_of-tail n ns t ts id other)

IsHit-tail :
    (n : NodeSplit) (ns : List NodeSplit) (t : ℕ) (ts : List ℕ) (ms : List NodeSplit)
    → All (λ m. (n.node_id == m.node_id) ≡ false) ms
    → All (IsHit ns ts) ms
    → All (IsHit (n ∷ ns) (t ∷ ts)) ms
unfolding IsHit deltas_of
IsHit-tail n ns t ts [] other hit = tt
IsHit-tail n ns t ts (m ∷ ms) (o, other) (h, hit) =
    let g = goal_of-tail n ns t ts m.node_id o in
    (
      (
        target_of-tail n ns t ts m.node_id o ∙ h.0 ∙ ap some (sym g),
        ground (
          arith,
          lookup_or-insert (pos 0) n.node_id m.node_id (minus t n.current) (deltas_of ns ts),
        )
            ∙ h.1
            ∙ ap (λ x. minus x m.current) (sym g),
      ),
      IsHit-tail n ns t ts ms other hit,
    )

sum-goals-tail :
    (n : NodeSplit) (ns : List NodeSplit) (t : ℕ) (ts : List ℕ) (ms : List NodeSplit)
    → All (λ m. (n.node_id == m.node_id) ≡ false) ms
    → sum (map (λ m. goal_of (n ∷ ns) (t ∷ ts) m.node_id) ms)
      ≡ sum (map (λ m. goal_of ns ts m.node_id) ms)
sum-goals-tail n ns t ts [] other = refl
sum-goals-tail n ns t ts (m ∷ ms) (o, other) =
    omega (arith, sum-goals-tail n ns t ts ms other, goal_of-tail n ns t ts m.node_id o)

target_of-head :
    (n : NodeSplit) (ns : List NodeSplit) (t : ℕ) (ts : List ℕ)
    → target_of (n ∷ ns) (t ∷ ts) n.node_id ≡ some t
unfolding target_of index_of at
target_of-head n ns t ts = ground (arith, string_eq.beq_iff n.node_id n.node_id)

goal_of-head :
    (n : NodeSplit) (ns : List NodeSplit) (t : ℕ) (ts : List ℕ)
    → goal_of (n ∷ ns) (t ∷ ts) n.node_id ≡ t
unfolding goal_of
goal_of-head n ns t ts = ap target_or_zero (target_of-head n ns t ts)

deltas_of-head :
    (n : NodeSplit) (ns : List NodeSplit) (t : ℕ) (ts : List ℕ)
    → lookup_or (pos 0) n.node_id (deltas_of (n ∷ ns) (t ∷ ts)) ≡ minus t n.current
unfolding deltas_of
deltas_of-head n ns t ts = ground (
  arith,
  lookup_or-insert (pos 0) n.node_id n.node_id (minus t n.current) (deltas_of ns ts),
  string_eq.beq_iff n.node_id n.node_id,
)

pub goals_lem :
    (ns : List NodeSplit) (ts : List ℕ)
    → IsDistinct ns
    → length ts ≡ length ns
    → All (IsHit ns ts) ns × (sum (map (λ m. goal_of ns ts m.node_id) ns) ≡ sum ts)
unfolding IsHit
goals_lem [] [] d e = (tt, refl)
goals_lem [] (t ∷ ts) d e = absurd (omega arith)
goals_lem (n ∷ ns) [] d e = absurd (omega arith)
goals_lem (n ∷ ns) (t ∷ ts) d e =
    let fresh : All (λ m. (n.node_id == m.node_id) ≡ false) ns =
      others_differ n.node_id ns
        (ground (arith, d n.node_id, string_eq.beq_iff n.node_id n.node_id)) in
    let (hits, total) = goals_lem ns ts (λ id. ground (arith, d id)) (omega arith) in
    let own = target_of-head n ns t ts in
    let g : goal_of (n ∷ ns) (t ∷ ts) n.node_id ≡ t = goal_of-head n ns t ts in
    (
      (
        (own ∙ ap some (sym g), deltas_of-head n ns t ts ∙ ap (λ x. minus x n.current) (sym g)),
        IsHit-tail n ns t ts ns fresh hits,
      ),
      omega (arith, sum-goals-tail n ns t ts ns fresh),
    )

sum-le :
    (f g : NodeSplit → ℕ) (ns : List NodeSplit)
    → All (λ n. f n ≤ g n) ns
    → sum (map f ns) ≤ sum (map g ns)
sum-le f g [] h = omega arith
sum-le f g (n ∷ ns) (h, hs) = omega (arith, sum-le f g ns hs)

-- A customer's shares on the nodes of a round.
abbrev pub total_share : ℕ → String → Cluster → List NodeSplit → ℕ
total_share limit customer_id w nodes =
    sum (map (λ n. share_at limit customer_id w n.node_id) nodes)

everywhere : (P : NodeSplit → Type 0) (ns : List NodeSplit) → ((n : NodeSplit) → P n) → All P ns
everywhere P [] h = tt
everywhere P (n ∷ ns) h = (h n, everywhere P ns h)

pub aimed :
    (customer_id : String) (round : ℕ) (nodes : List NodeSplit) (targets : List ℕ)
    (ns : List NodeSplit)
    → All (IsHit nodes targets) ns
    → All (IsAimed (plan_of customer_id round nodes targets) (goal_of nodes targets)) ns
unfolding IsHit
aimed c r nodes targets [] h = tt
aimed c r nodes targets (n ∷ ns) (h, hs) = (h, aimed c r nodes targets ns hs)

-- A round never panics, and whatever becomes of each of its messages, the customer's shares on the
-- nodes of the round add up to at most what they did before or at most what the targets do. The
-- nodes are distinct, their reported shares are their shares, and each has a target.
pub run_round-safe :
    (limit : ℕ) (customer_id : String) (round : ℕ) (nodes : List NodeSplit) (targets : List ℕ)
    (net : String → Exchange) (w : Cluster)
    → 1 ≤ limit
    → IsCounted w
    → IsDistinct nodes
    → length targets ≡ length nodes
    → All (λ n. n.current ≡ share_at limit customer_id w n.node_id) nodes
    → (w' : Cluster) × (run_round (plan_of customer_id round nodes targets) net w ≡ some w')
      × ((total_share limit customer_id w' nodes ≤ total_share limit customer_id w nodes)
          ⊎ (total_share limit customer_id w' nodes ≤ sum targets))
run_round-safe limit customer_id round nodes targets net w hl h d e known =
    let (hits, total) = goals_lem nodes targets d e in
    let (w', run, cases) =
      run_round_lem limit (plan_of customer_id round nodes targets) net (goal_of nodes targets)
        (share_at limit customer_id w) w hl h (aimed customer_id round nodes targets nodes hits)
        known (λ j. omega arith) in
    (
      w',
      run,
      elim cases [
        | inl below ↦ inl (sum-le _ _ nodes (everywhere _ nodes (λ n. below n.node_id)))
        | inr reached ↦ inr (
            subst (λ k. total_share limit customer_id w' nodes ≤ k) total
              (sum-le _ _ nodes reached))
      ],
    )
