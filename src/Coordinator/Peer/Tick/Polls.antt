-- ===== src/Coordinator/Peer/Tick/Polls.antt =====
-- The polls of a tick in internal/coordinator/peer.go (pollAllNodes) and what rebalanceCustomer makes
-- of the answers: the nodes that answer report the shares that they have.
use ti_assignment_promise_th.Base.{
  ℕ, ◌≤◌, ◌≡◌, ◌∙◌, sym, subst, refl, ap, inl, inr, Bool, true, false, String, Option, none, some,
  [], ◌∷◌, ◌==◌, arith, Bool-cases, Option-cases, string_eq,
}
use ti_assignment_promise_th.Base.Dict.{Dict, lookup, insert, lookup-insert, lookup-insert_cases}
use ti_assignment_promise_th.Ratelimit.Gcra.{Time}
use ti_assignment_promise_th.Coordinator.ShareGcra.{current_quota}
use ti_assignment_promise_th.Coordinator.Static.Share.{share_of, node_share-eq}
use ti_assignment_promise_th.Coordinator.Peer.{
  Peer, CustomerState, StatusResponse, local_status, report_all, report, record_health,
}
use ti_assignment_promise_th.Coordinator.Peer.History.{lookup-reset_demand}
use ti_assignment_promise_th.Coordinator.Peer.Round.{
  Cluster, Exchange, Fate, NodeSplit, note, node_split,
}
use ti_assignment_promise_th.Coordinator.Peer.Round.Own.{share_on}
use ti_assignment_promise_th.Coordinator.Peer.Round.Step.{share_at}
use ti_assignment_promise_th.Coordinator.Peer.Tick.{fetch_status, poll, poll_all_nodes}

lookup-report_all :
    (id : String) (m : Dict String CustomerState)
    → lookup id (report_all m) ≡ (elim (lookup id m) [ none ↦ none | some cs ↦ some (report cs) ])
unfolding lookup report_all
lookup-report_all id [] = refl
lookup-report_all id ((j, cs) ∷ m) = ground (arith, lookup-report_all id m)

-- The status that a node answers with gives the share that it has, of every customer; one that it
-- does not know has the share that a first request would get.
split_own :
    (limit n : ℕ) (id j : String) (p : Peer)
    → 1 ≤ n
    → p.cfg.node_count ≡ n
    → (k : NodeSplit) × (node_split limit n id j (local_status p).0 ≡ some k)
      × (k.node_id ≡ j)
      × (k.current ≡ share_on limit id p)
unfolding node_split local_status share_on report current_quota
split_own limit n id j p hn same = elim (Option-cases (lookup id p.customers)) [
  | inl new ↦ (
    record { node_id = j; current = share_of limit n; demand = 0 },
    ground (arith, lookup-report_all id p.customers, new, node_share-eq limit n hn),
    refl,
    ground (arith, new, same),
  )
  | inr (cs, e) ↦ (
    record { node_id = j; current = cs.share.quota; demand = cs.demand },
    ground (arith, lookup-report_all id p.customers, e),
    refl,
    ground (arith, e),
  )
]

-- A poll changes no share.
share_on-polled :
    (limit : ℕ) (id : String) (p : Peer)
    → share_on limit id (local_status p).1 ≡ share_on limit id p
unfolding share_on local_status
share_on-polled limit id p = ground (arith, lookup-reset_demand id p.customers)

cfg-polled : (p : Peer) → (local_status p).1.cfg ≡ p.cfg
unfolding local_status
cfg-polled p = refl

-- The share of every customer on every node is what it was.
abbrev pub SameShares : Cluster → Cluster → Type 0
SameShares w w' =
    ((limit : ℕ) (id j : String) → share_at limit id w' j ≡ share_at limit id w j)
    × (w'.proposer.cfg ≡ w.proposer.cfg)

-- Every node knows the same number of nodes, a positive one.
pub record IsUniform (n : ℕ) (w : Cluster) : Type 0 where
  pub positive : 1 ≤ n
  pub own : w.proposer.cfg.node_count ≡ n
  pub others : (id : String) (p : Peer) → lookup id w.others ≡ some p → p.cfg.node_count ≡ n

-- A status tells the truth about the node `j`.
abbrev pub IsTrue : ℕ → Cluster → String → StatusResponse → Type 0
IsTrue n w j st =
    (limit : ℕ) (id : String)
    → (k : NodeSplit) × (node_split limit n id j st ≡ some k)
      × (k.node_id ≡ j)
      × (k.current ≡ share_at limit id w j)

-- What one poll does.
abbrev IsPolled : ℕ → Cluster → String → Option StatusResponse × Cluster → Type 0
IsPolled n w j r =
    SameShares w r.1 × IsUniform n r.1 × ((st : StatusResponse) → r.0 ≡ some st → IsTrue n w j st)

unpolled : (n : ℕ) (w : Cluster) (j : String) → IsUniform n w → IsPolled n w j (none, w)
unpolled n w j u = ((λ limit id i. refl, refl), u, λ st e. cc)

noted :
    (n : ℕ) (w : Cluster) (j : String) (r : Option StatusResponse × Cluster) (up : Bool)
    (now : Time)
    → IsPolled n w j r
    → IsPolled n w j (r.0, note r.1 j up now)
unfolding note record_health share_at
noted n w j r up now h =
    (h.0, record { positive = h.1.positive; own = h.1.own; others = h.1.others }, h.2)

other-IsPolled :
    (n : ℕ) (w : Cluster) (j : String) (p : Peer)
    → (j == w.proposer.cfg.node_id) ≡ false
    → lookup j w.others ≡ some p
    → IsUniform n w
    → IsPolled n w j
        (some (local_status p).0, record w { others = insert j (local_status p).1 w.others })
unfolding share_at
other-IsPolled n w j p far found u = (
  (
    λ limit id i. ground (
      arith,
      lookup-insert j i (local_status p).1 w.others,
      string_eq.beq_iff j i,
      share_on-polled limit id p,
      found,
    ),
    refl,
  ),
  record {
    positive = u.positive;
    own = u.own;
    others = λ i q e. elim (lookup-insert_cases j i (local_status p).1 q w.others e) [
      | inl (here, is) ↦
          ap (λ (x : Peer). x.cfg.node_count) (sym is)
          ∙ ap (λ c. c.node_count) (cfg-polled p)
          ∙ u.others j p found
      | inr before ↦ u.others i q before
    ];
  },
  λ st e limit id.
      let (k, is, named, share) = split_own limit n id j p u.positive (u.others j p found) in
      let said : (local_status p).0 ≡ st = ground (arith, e) in
      (
        k,
        subst (λ (t : StatusResponse). node_split limit n id j t ≡ some k) said is,
        named,
        share ∙ ground (arith, far, found),
      ),
)

own-IsPolled :
    (n : ℕ) (w : Cluster) (j : String)
    → (j == w.proposer.cfg.node_id) ≡ true
    → IsUniform n w
    → IsPolled n w j
        (some (local_status w.proposer).0, record w { proposer = (local_status w.proposer).1 })
unfolding share_at
own-IsPolled n w j own u = (
  (
    λ limit id i. ground (arith, share_on-polled limit id w.proposer, cfg-polled w.proposer),
    unfold local_status in refl,
  ),
  record { positive = u.positive; own = unfold local_status in u.own; others = u.others },
  λ st e limit id.
      let (k, is, named, share) = split_own limit n id j w.proposer u.positive u.own in
      let said : (local_status w.proposer).0 ≡ st = ground (arith, e) in
      (
        k,
        subst (λ (t : StatusResponse). node_split limit n id j t ≡ some k) said is,
        named,
        share ∙ ground (arith, own),
      ),
)

silent :
    (n : ℕ) (w : Cluster) (j : String) (r : Option StatusResponse × Cluster)
    → IsPolled n w j r
    → IsPolled n w j (none, r.1)
silent n w j r h = (h.0, h.1, λ st e. cc)

by_fate :
    (n : ℕ) (w w' : Cluster) (j : String) (st : StatusResponse) (fate : Fate)
    → IsUniform n w
    → IsPolled n w j (some st, w')
    → IsPolled n w j (elim fate as (λ _. Option StatusResponse × Cluster) [
      | Fate.malformed ↦ (none, w)
      | Fate.lost ↦ (none, w)
      | Fate.unanswered ↦ (none, w')
      | Fate.garbled ↦ (none, w')
      | Fate.delivered ↦ (some st, w')
    ])
by_fate n w w' j st Fate.malformed u h = unpolled n w j u
by_fate n w w' j st Fate.lost u h = unpolled n w j u
by_fate n w w' j st Fate.unanswered u h = silent n w j (some st, w') h
by_fate n w w' j st Fate.garbled u h = silent n w j (some st, w') h
by_fate n w w' j st Fate.delivered u h = h

-- A poll of another node, for each fate of it.
fetch_status-IsPolled :
    (n : ℕ) (w : Cluster) (j : String) (x : Exchange)
    → (j == w.proposer.cfg.node_id) ≡ false
    → IsUniform n w
    → IsPolled n w j (fetch_status w j x)
unfolding fetch_status
fetch_status-IsPolled n w j x far u = elim (Option-cases (lookup j w.others)) [
  | inl gone ↦ rw (gone, fetch_status) (unpolled n w j u)
  | inr (p, found) ↦
      rw (found, fetch_status)
        (by_fate n w (record w { others = insert j (local_status p).1 w.others }) j
          (local_status p).0 x.fate u (other-IsPolled n w j p far found u))
]

heard :
    (n : ℕ) (w : Cluster) (j : String) (here : Time) (r : Option StatusResponse × Cluster)
    → IsPolled n w j r
    → IsPolled n w j (elim r.0 as (λ _. Option StatusResponse × Cluster) [
      | none ↦ (none, note r.1 j false here)
      | some st ↦ (some st, note r.1 j true here)
    ])
heard n w j here (none, c) h = noted n w j (none, c) false here h
heard n w j here (some st, c) h = noted n w j (some st, c) true here h

poll-IsPolled :
    (n : ℕ) (w : Cluster) (j : String) (x : Exchange) → IsUniform n w → IsPolled n w j (poll w j x)
unfolding poll
poll-IsPolled n w j x u = elim (Bool-cases (j == w.proposer.cfg.node_id)) [
  | inl own ↦ rw own (noted n w j _ true x.here (own-IsPolled n w j own u))
  | inr far ↦ rw far (heard n w j x.here (fetch_status w j x) (fetch_status-IsPolled n w j x far u))
]

pub truth_kept :
    (n : ℕ) (w w' : Cluster) (j : String) (st : StatusResponse)
    → SameShares w w'
    → IsTrue n w' j st
    → IsTrue n w j st
truth_kept n w w' j st same h limit id =
    let (k, is, named, share) = h limit id in (k, is, named, share ∙ same.0 limit id j)

-- What the polls of all nodes do: they change no share, and every answer is true.
abbrev pub AllPolled : ℕ → Cluster → Dict String StatusResponse × Cluster → Type 0
AllPolled n w r =
    SameShares w r.1
    × IsUniform n r.1
    × ((j : String) (st : StatusResponse) → lookup j r.0 ≡ some st → IsTrue n w j st)

AllPolled-cons :
    (n : ℕ) (w : Cluster) (id : String) (p1 : Option StatusResponse × Cluster)
    (rest : Dict String StatusResponse × Cluster)
    → IsPolled n w id p1
    → AllPolled n p1.1 rest
    → AllPolled n w (elim p1.0 as (λ _. Dict String StatusResponse × Cluster) [
      | none ↦ rest
      | some st ↦ (insert id st rest.0, rest.1)
    ])
AllPolled-cons n w id (none, w1) rest h more = (
  (λ limit c j. more.0.0 limit c j ∙ h.0.0 limit c j, more.0.1 ∙ h.0.1),
  more.1,
  λ j st e. truth_kept n w w1 j st h.0 (more.2 j st e),
)
AllPolled-cons n w id (some st1, w1) rest h more = (
  (λ limit c j. more.0.0 limit c j ∙ h.0.0 limit c j, more.0.1 ∙ h.0.1),
  more.1,
  λ j st e. elim (lookup-insert_cases id j st1 st rest.0 e) [
    | inl (here, is) ↦
        subst (λ k. IsTrue n w k st) here (h.2 st (ap {B = Option StatusResponse} some is))
    | inr before ↦ truth_kept n w w1 j st h.0 (more.2 j st before)
  ],
)

pub poll_all_nodes-AllPolled :
    (n : ℕ) (net : String → Exchange) (peers : Dict String String) (w : Cluster)
    → IsUniform n w
    → AllPolled n w (poll_all_nodes net peers w)
unfolding poll_all_nodes lookup
poll_all_nodes-AllPolled n net [] w u = ((λ limit id j. refl, refl), u, λ j st e. cc)
poll_all_nodes-AllPolled n net ((id, url) ∷ peers) w u =
    let h = poll-IsPolled n w id (net id) u in
    AllPolled-cons n w id (poll w id (net id)) _ h
      (poll_all_nodes-AllPolled n net peers (poll w id (net id)).1 h.1)
