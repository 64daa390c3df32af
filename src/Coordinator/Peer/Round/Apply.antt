-- ===== src/Coordinator/Peer/Round/Apply.antt =====
-- applyShare of internal/coordinator/peer.go: what one instruction of the proposer does to the
-- shares of a customer, whatever becomes of the message.
use mathlib.Core.Option.{some-injective}
use ti_assignment_promise_th.Base.{
  ℕ, ◌≤◌, ◌≡◌, ◌∙◌, sym, ap, subst, refl, inl, inr, Bool, true, false, String, Option, none, some,
  ◌==◌, arith, string_eq, Bool-cases, Option-cases,
}
use ti_assignment_promise_th.Base.Dict.{lookup, insert, lookup-insert}
use ti_assignment_promise_th.Ratelimit.Gcra.{Time}
use ti_assignment_promise_th.Coordinator.Peer.{
  Peer, ApplyShareRequest, ApplyShareResponse, handle_apply_share,
}
use ti_assignment_promise_th.Coordinator.Peer.Round.{
  Cluster, Exchange, Fate, arrive, note, is_applied, is_answered, post_share, apply_share,
}
use ti_assignment_promise_th.Coordinator.Peer.Round.Own.{share_on, apply_local-share}
use ti_assignment_promise_th.Coordinator.Peer.Round.Step.{
  share_at, IsCounted, IsInstructed, note-IsInstructed, untouched,
}

put_other : Cluster → String → Peer → Cluster
put_other w id p = record w { others = insert id p w.others }

share_at-remote :
    (limit : ℕ) (customer_id id : String) (w : Cluster) (p : Peer)
    → (id == w.proposer.cfg.node_id) ≡ false
    → lookup id w.others ≡ some p
    → share_at limit customer_id w id ≡ share_on limit customer_id p
unfolding share_at
share_at-remote limit customer_id id w p remote old = rw (remote, old) refl

lookup-put_other :
    (w : Cluster) (id : String) (p : Peer) → lookup id (put_other w id p).others ≡ some p
unfolding put_other
lookup-put_other w id p = ground (arith, lookup-insert id id p w.others, string_eq.beq_iff id id)

put_other-IsInstructed :
    (limit : ℕ) (req : ApplyShareRequest) (id : String) (ack : Bool) (w : Cluster) (p p' : Peer)
    → IsCounted w
    → (id == w.proposer.cfg.node_id) ≡ false
    → lookup id w.others ≡ some p
    → p'.cfg ≡ p.cfg
    → ((b : ℕ)
        → share_on limit req.customer_id p ≤ b
        → req.quota ≤ b
        → share_on limit req.customer_id p' ≤ b)
    → (ack ≡ true → share_on limit req.customer_id p' ≡ req.quota)
    → IsInstructed limit req id ack w (put_other w id p')
unfolding put_other share_at
put_other-IsInstructed limit req id ack w p p' h remote old cfg bound reached = record {
  counted = record {
    own = h.own;
    others = λ j q e. elim (Bool-cases (id == j)) [
      | inl same ↦
          let i : id ≡ j = (string_eq.beq_iff id j).0 same in
          let pq : p' ≡ q = some-injective _ _ (
            sym (lookup-put_other w id p')
            ∙ subst (λ k. lookup k (put_other w id p').others ≡ some q) (sym i) e) in
          subst (λ c. 1 ≤ c.node_count) (sym cfg ∙ ap (λ x. x.cfg) pq) (h.others id p old)
      | inr other ↦ h.others j q (ground (arith, lookup-insert id j p' w.others))
    ];
  };
  same_node = refl;
  bound = λ j b before new. elim (Bool-cases (id == j)) [
    | inl same ↦
        let i : id ≡ j = (string_eq.beq_iff id j).0 same in
        let here : share_at limit req.customer_id w id ≤ b =
          subst (λ k. share_at limit req.customer_id w k ≤ b) (sym i) before in
        subst (λ k. share_at limit req.customer_id (put_other w id p') k ≤ b) i
          (rw
            (share_at-remote limit req.customer_id id (put_other w id p') p' remote
              (lookup-put_other w id p'))
            (bound b (rw (share_at-remote limit req.customer_id id w p remote old) at here)
              (new (sym i))))
    | inr other ↦ ground (arith, lookup-insert id j p' w.others)
  ];
  reached = λ e.
      share_at-remote limit req.customer_id id (put_other w id p') p' remote
        (lookup-put_other w id p')
      ∙ reached e;
}

arrive_lem :
    (limit : ℕ) (req : ApplyShareRequest) (id : String) (now : Time) (w : Cluster)
    → 1 ≤ limit
    → IsCounted w
    → (id == w.proposer.cfg.node_id) ≡ false
    → (r : Option ApplyShareResponse) × (w' : Cluster) × (arrive w id now req ≡ some (r, w'))
      × IsInstructed limit req id (is_applied r) w w'
unfolding arrive handle_apply_share is_applied put_other
arrive_lem limit req id now w hl h remote = elim (Option-cases (lookup id w.others)) [
  | inl gone ↦ (none, w, rw (gone, arrive) refl, untouched limit req id w h)
  | inr (p, old) ↦
      let (a, p', e, cfg, bound, reached) =
        apply_local-share limit p now req hl (h.others id p old) in
      (
        some a,
        put_other w id p',
        rw (old, arrive, e) refl,
        put_other-IsInstructed limit req id (is_applied (some a)) w p p' h remote old cfg bound
            reached,
      )
]

local-IsInstructed :
    (limit : ℕ) (req : ApplyShareRequest) (id : String) (ack : Bool) (w : Cluster) (p' : Peer)
    → IsCounted w
    → (id == w.proposer.cfg.node_id) ≡ true
    → p'.cfg ≡ w.proposer.cfg
    → ((b : ℕ)
        → share_on limit req.customer_id w.proposer ≤ b
        → req.quota ≤ b
        → share_on limit req.customer_id p' ≤ b)
    → (ack ≡ true → share_on limit req.customer_id p' ≡ req.quota)
    → IsInstructed limit req id ack w (record w { proposer = p' })
unfolding share_at
local-IsInstructed limit req id ack w p' h own cfg bound reached =
    let i : id ≡ w.proposer.cfg.node_id = (string_eq.beq_iff id w.proposer.cfg.node_id).0 own in
    record {
      counted = record { own = subst (λ c. 1 ≤ c.node_count) (sym cfg) h.own; others = h.others };
      same_node = cfg;
      bound = λ j b before new. elim (Bool-cases (j == w.proposer.cfg.node_id)) [
        | inl same ↦
            let k : j ≡ w.proposer.cfg.node_id =
              (string_eq.beq_iff j w.proposer.cfg.node_id).0 same in
            ground (arith, bound b, new (k ∙ sym i), cfg, same)
        | inr other ↦ ground (arith, cfg, other)
      ];
      reached = λ e. ground (arith, reached e, cfg, own);
    }

-- An acknowledgement that is not reported is not relied on.
unreported :
    (limit : ℕ) (req : ApplyShareRequest) (id : String) (ack : Bool) (w w' : Cluster)
    → IsInstructed limit req id ack w w'
    → IsInstructed limit req id false w w'
unreported limit req id ack w w' h = record {
  counted = h.counted;
  same_node = h.same_node;
  bound = h.bound;
  reached = λ e. cc;
}

post_share-IsInstructed :
    (limit : ℕ) (req : ApplyShareRequest) (id : String) (f : Fate) (here there : Time) (w : Cluster)
    → 1 ≤ limit
    → IsCounted w
    → (id == w.proposer.cfg.node_id) ≡ false
    → (ack : Bool) × (w' : Cluster) × (post_share w id req f here there ≡ some (ack, w'))
      × IsInstructed limit req id ack w w'
unfolding post_share
post_share-IsInstructed limit req id Fate.malformed here there w hl h remote =
    (false, w, refl, untouched limit req id w h)
post_share-IsInstructed limit req id Fate.lost here there w hl h remote = (
  false,
  note w id false here,
  refl,
  note-IsInstructed limit req id id false false here w w (untouched limit req id w h),
)
post_share-IsInstructed limit req id Fate.unanswered here there w hl h remote =
    let (r, w', e, step) = arrive_lem limit req id there w hl h remote in
    (
      false,
      note w' id false here,
      rw e refl,
      note-IsInstructed limit req id id false false here w w'
          (unreported limit req id (is_applied r) w w' step),
    )
post_share-IsInstructed limit req id Fate.garbled here there w hl h remote =
    let (r, w', e, step) = arrive_lem limit req id there w hl h remote in
    (
      false,
      note w' id (is_answered r) here,
      rw e refl,
      note-IsInstructed limit req id id false (is_answered r) here w w'
          (unreported limit req id (is_applied r) w w' step),
    )
post_share-IsInstructed limit req id Fate.delivered here there w hl h remote =
    let (r, w', e, step) = arrive_lem limit req id there w hl h remote in
    (
      is_applied r,
      note w' id (is_answered r) here,
      rw e refl,
      note-IsInstructed limit req id id (is_applied r) (is_answered r) here w w' step,
    )

-- Whatever becomes of the message, applyShare does not panic, no node but `id` changes its share,
-- that node moves no further than to the quota, and where applyShare reports true it has arrived
-- there.
pub apply_share-IsInstructed :
    (limit : ℕ) (req : ApplyShareRequest) (id : String) (x : Exchange) (w : Cluster)
    → 1 ≤ limit
    → IsCounted w
    → (ack : Bool) × (w' : Cluster) × (apply_share w id req x ≡ some (ack, w'))
      × IsInstructed limit req id ack w w'
unfolding apply_share
apply_share-IsInstructed limit req id x w hl h = elim (Bool-cases (id == w.proposer.cfg.node_id)) [
  | inl own ↦
      let (a, p', e, cfg, bound, reached) =
        apply_local-share limit w.proposer x.here req hl h.own in
      (
        is_applied (some a),
        record w { proposer = p' },
        rw (own, e) refl,
        local-IsInstructed limit req id (is_applied (some a)) w p' h own cfg bound reached,
      )
  | inr remote ↦
      let (ack, w', e, step) =
        post_share-IsInstructed limit req id x.fate x.here x.there w hl h remote in
      (ack, w', rw (remote, e) refl, step)
]
