-- ===== src/Coordinator/Peer/Tick/Frame.antt =====
-- What a rebalance of one customer in internal/coordinator/peer.go leaves alone: the shares of every
-- other customer, on every node.
use ti_assignment_promise_th.Base.{
  ℕ, ◌≡◌, ◌∙◌, refl, sym, ap, Bool, false, String, Option, some, ◌==◌, arith, Bool-cases,
  Option-cases, inl, inr, string_eq,
}
use ti_assignment_promise_th.Base.Dict.{lookup, insert, lookup-insert, lookup-insert_cases}
use ti_assignment_promise_th.Ratelimit.Gcra.{Time}
use ti_assignment_promise_th.Coordinator.Peer.{
  Peer, ApplyShareRequest, ApplyShareResponse, apply_local, handle_apply_share, record_health,
}
use ti_assignment_promise_th.Coordinator.Peer.Fence.{apply_local_lem}
use ti_assignment_promise_th.Coordinator.Peer.Round.{
  Cluster, Exchange, Fate, note, arrive, post_share, apply_share, is_answered,
}
use ti_assignment_promise_th.Coordinator.Peer.Round.Own.{share_on}
use ti_assignment_promise_th.Coordinator.Peer.Round.Step.{share_at}
use ti_assignment_promise_th.Coordinator.Peer.Tick.Polls.{IsUniform}

-- The shares of all customers but `c` are what they were, and so are the nodes' configs.
pub record Spares (c : String) (w w' : Cluster) : Type 0 where
  pub same :
      (limit : ℕ) (id j : String)
      → (c == id) ≡ false
      → share_at limit id w' j ≡ share_at limit id w j
  pub same_node : w'.proposer.cfg ≡ w.proposer.cfg
  pub uniform : (n : ℕ) → IsUniform n w → IsUniform n w'

pub Spares-refl : (c : String) (w : Cluster) → Spares c w w
Spares-refl c w = record { same = λ limit id j other. refl; same_node = refl; uniform = λ n u. u }

pub Spares-trans :
    {c : String} {w1 w2 w3 : Cluster} → Spares c w1 w2 → Spares c w2 w3 → Spares c w1 w3
Spares-trans f g = record {
  same = λ limit id j other. g.same limit id j other ∙ f.same limit id j other;
  same_node = g.same_node ∙ f.same_node;
  uniform = λ n u. g.uniform n (f.uniform n u);
}

-- A node whose customers but `c` have the shares that they had.
abbrev pub IsSpared : String → Peer → Peer → Type 0
IsSpared c p p' =
    (p'.cfg ≡ p.cfg)
    × ((limit : ℕ) (id : String) → (c == id) ≡ false → share_on limit id p' ≡ share_on limit id p)

apply_local-IsSpared :
    (p : Peer) (now : Time) (req : ApplyShareRequest) (r : ApplyShareResponse × Peer)
    → apply_local p now req ≡ some r
    → IsSpared req.customer_id p r.1
unfolding share_on
apply_local-IsSpared p now req r e =
    let (p', ran, cfg, look) = apply_local_lem p now req in
    let is : p' ≡ r.1 = ground (arith, ran, e) in
    rw (← is) (cfg, λ limit id other. ground (arith, look id, other, cfg))

pub own-Spares :
    (c : String) (w : Cluster) (p' : Peer)
    → IsSpared c w.proposer p'
    → Spares c w (record w { proposer = p' })
unfolding share_at
own-Spares c w p' h = record {
  same = λ limit id j other. ground (arith, h.0, h.1 limit id other);
  same_node = h.0;
  uniform = λ n u. record {
    positive = u.positive;
    own = ap (λ c. c.node_count) h.0 ∙ u.own;
    others = u.others;
  };
}

other-Spares :
    (c i : String) (w : Cluster) (p p' : Peer)
    → lookup i w.others ≡ some p
    → IsSpared c p p'
    → Spares c w (record w { others = insert i p' w.others })
unfolding share_at
other-Spares c i w p p' found h = record {
  same = λ limit id j other.
      ground
        (arith, lookup-insert i j p' w.others, string_eq.beq_iff i j, h.1 limit id other, found);
  same_node = refl;
  uniform = λ n u. record {
    positive = u.positive;
    own = u.own;
    others = λ j q e. elim (lookup-insert_cases i j p' q w.others e) [
      | inl (here, is) ↦
          ap (λ (x : Peer). x.cfg.node_count) (sym is)
          ∙ ap (λ c. c.node_count) h.0
          ∙ u.others i p found
      | inr before ↦ u.others j q before
    ];
  };
}

note-Spares :
    (c : String) (w w' : Cluster) (id : String) (up : Bool) (now : Time)
    → Spares c w w'
    → Spares c w (note w' id up now)
unfolding note record_health share_at
note-Spares c w w' id up now h = record {
  same = h.same;
  same_node = h.same_node;
  uniform = λ n u.
      let v = h.uniform n u in record { positive = v.positive; own = v.own; others = v.others };
}

arrive-Spares :
    (w : Cluster) (id : String) (there : Time) (req : ApplyShareRequest)
    (r : Option ApplyShareResponse × Cluster)
    → arrive w id there req ≡ some r
    → Spares req.customer_id w r.1
unfolding arrive handle_apply_share
arrive-Spares w id there req r e = elim (Option-cases (lookup id w.others)) [
  | inl gone ↦
      let is : w ≡ r.1 = ground (arith, e, gone) in rw (← is) (Spares-refl req.customer_id w)
  | inr (p, found) ↦ elim (Option-cases (apply_local p there req)) [
    | inl panic ↦ absurd (ground (arith, e, found, panic))
    | inr (a, told) ↦
        let is : record w { others = insert id a.1 w.others } ≡ r.1 =
          ground (arith, e, found, told) in
        rw (← is)
          (other-Spares req.customer_id id w p a.1 found (apply_local-IsSpared p there req a told))
  ]
]

post_share-Spares :
    (w : Cluster) (id : String) (req : ApplyShareRequest) (fate : Fate) (here there : Time)
    (r : Bool × Cluster)
    → post_share w id req fate here there ≡ some r
    → Spares req.customer_id w r.1
unfolding post_share
post_share-Spares w id req Fate.malformed here there r e =
    let is : w ≡ r.1 = ground (arith, e) in rw (← is) (Spares-refl req.customer_id w)
post_share-Spares w id req Fate.lost here there r e =
    let is : note w id false here ≡ r.1 = ground (arith, e) in
    rw (← is) (note-Spares req.customer_id w w id false here (Spares-refl req.customer_id w))
post_share-Spares w id req Fate.unanswered here there r e =
    elim (Option-cases (arrive w id there req)) [
      | inl panic ↦ absurd (ground (arith, e, panic))
      | inr (a, told) ↦
          let is : note a.1 id false here ≡ r.1 = ground (arith, e, told) in
          rw (← is)
            (note-Spares req.customer_id w a.1 id false here (arrive-Spares w id there req a told))
    ]
post_share-Spares w id req Fate.garbled here there r e =
    elim (Option-cases (arrive w id there req)) [
      | inl panic ↦ absurd (ground (arith, e, panic))
      | inr (a, told) ↦
          let is : note a.1 id (is_answered a.0) here ≡ r.1 = ground (arith, e, told) in
          rw (← is) (
            note-Spares req.customer_id w a.1 id (is_answered a.0) here
              (arrive-Spares w id there req a told))
    ]
post_share-Spares w id req Fate.delivered here there r e =
    elim (Option-cases (arrive w id there req)) [
      | inl panic ↦ absurd (ground (arith, e, panic))
      | inr (a, told) ↦
          let is : note a.1 id (is_answered a.0) here ≡ r.1 = ground (arith, e, told) in
          rw (← is) (
            note-Spares req.customer_id w a.1 id (is_answered a.0) here
              (arrive-Spares w id there req a told))
    ]

pub apply_share-Spares :
    (w : Cluster) (id : String) (req : ApplyShareRequest) (x : Exchange) (r : Bool × Cluster)
    → apply_share w id req x ≡ some r
    → Spares req.customer_id w r.1
unfolding apply_share
apply_share-Spares w id req x r e = elim (Bool-cases (id == w.proposer.cfg.node_id)) [
  | inl own ↦ elim (Option-cases (apply_local w.proposer x.here req)) [
    | inl panic ↦ absurd (ground (arith, e, own, panic))
    | inr (a, told) ↦
        let is : record w { proposer = a.1 } ≡ r.1 = ground (arith, e, own, told) in
        rw (← is)
          (own-Spares req.customer_id w a.1 (apply_local-IsSpared w.proposer x.here req a told))
  ]
  | inr other ↦ post_share-Spares w id req x.fate x.here x.there r (rw (← e, other) refl)
]
