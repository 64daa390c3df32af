-- ===== src/Coordinator/Peer/Round/View.antt =====
-- What the nodes of internal/coordinator/peer.go hold of a customer.
use ti_assignment_promise_th.Base.{
  ℕ, ◌≡◌, refl, inl, inr, String, Option, none, some, ◌==◌, if◌then◌else◌, arith, string_eq,
  Bool-cases, Option-cases,
}
use ti_assignment_promise_th.Base.Dict.{lookup}
use ti_assignment_promise_th.Ratelimit.Gcra.{Time, zero_time}
use ti_assignment_promise_th.Coordinator.ShareGcra.{new_share_state}
use ti_assignment_promise_th.Coordinator.Static.Share.{share_of}
use ti_assignment_promise_th.Coordinator.Peer.{
  Peer, CustomerState, ApplyShareRequest, ApplyShareResponse,
}
use ti_assignment_promise_th.Coordinator.Peer.Fence.{standing, after, answer}
use ti_assignment_promise_th.Coordinator.Peer.Round.{Cluster}
use ti_assignment_promise_th.Coordinator.Peer.Round.Own.{share_on}
use ti_assignment_promise_th.Coordinator.Peer.Round.Step.{share_at}

-- What a node holds of a customer, if it has seen it, with the number of nodes that it knows.
pub record View : Type 0 where
  pub node_count : ℕ
  pub state : Option CustomerState

-- The state that an instruction finds.
unfoldable pub stood : Option CustomerState → CustomerState
stood none = record {
  share = new_share_state 1;
  demand = 0;
  global_limit = 0;
  last_applied = 0;
  last_updated = zero_time;
}
stood (some cs) = cs

abbrev pub view_on : String → Peer → View
view_on c p = record { node_count = p.cfg.node_count; state = lookup c p.customers }

abbrev pub viewed : String → Option Peer → Option View
viewed c none = none
viewed c (some p) = some (view_on c p)

unfoldable pub view_at : String → Cluster → String → Option View
view_at c w id =
    if id == w.proposer.cfg.node_id
    then some (view_on c w.proposer)
    else viewed c (lookup id w.others)

abbrev pub share_seen : ℕ → View → ℕ
share_seen limit v = elim v.state [ none ↦ share_of limit v.node_count | some cs ↦ cs.share.quota ]

abbrev pub share_in : ℕ → Option View → ℕ
share_in limit none = 0
share_in limit (some v) = share_seen limit v

pub share_at-view :
    (limit : ℕ) (c : String) (w : Cluster) (id : String)
    → share_at limit c w id ≡ share_in limit (view_at c w id)
unfolding share_at view_at share_on
share_at-view limit c w id = elim (Bool-cases (id == w.proposer.cfg.node_id)) [
  | inl own ↦ rw own refl
  | inr other ↦ elim (Option-cases (lookup id w.others)) [
    | inl gone ↦ rw (other, gone) refl
    | inr (p, found) ↦ rw (other, found) refl
  ]
]

-- The instruction arrives at a time.
unfoldable pub told : Time → ApplyShareRequest → Option View → Option View
told now req none = none
told now req (some v) = some (record v { state = some (after (stood v.state) now req) })

-- What the node answers.
unfoldable pub reply : ApplyShareRequest → Option View → Option ApplyShareResponse
reply req none = none
reply req (some v) = some (answer (stood v.state) req)

pub stood-standing : (p : Peer) (id : String) → standing p id ≡ stood (lookup id p.customers)
unfolding standing stood
stood-standing p id = elim (Option-cases (lookup id p.customers)) [
  | inl new ↦ rw (new, standing, stood) refl
  | inr (cs, old) ↦ rw (old, standing, stood) refl
]

pub apply_local-view :
    (p p' : Peer) (now : Time) (req : ApplyShareRequest)
    → p'.cfg ≡ p.cfg
    → ((j : String)
        → lookup j p'.customers ≡ (
            if req.customer_id == j
            then some (after (standing p req.customer_id) now req)
            else lookup j p.customers))
    → some (view_on req.customer_id p') ≡ told now req (some (view_on req.customer_id p))
unfolding told
apply_local-view p p' now req cfg look =
    let c = req.customer_id in
    let found : lookup c p'.customers ≡ some (after (stood (lookup c p.customers)) now req) =
      ground (arith, look c, string_eq.beq_iff c c, stood-standing p c) in
    rw (found, cfg) refl
