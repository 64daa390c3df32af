-- ===== src/Coordinator/Peer/Round/Told.antt =====
-- applyShare of internal/coordinator/peer.go: exactly what one instruction does to what the nodes
-- hold of a customer, for each fate of the message.
use ti_assignment_promise_th.Base.{
  ◌≡◌, ◌∙◌, refl, sym, ap, subst, inl, inr, Bool, true, false, ◌&&◌, String, Option, none, some,
  ◌==◌, if◌then◌else◌, arith, string_eq, Bool-cases, Option-cases,
}
use ti_assignment_promise_th.Base.Dict.{lookup, insert, lookup-insert}
use ti_assignment_promise_th.Ratelimit.Gcra.{Time, zero_time}
use ti_assignment_promise_th.Coordinator.Peer.{
  Peer, ApplyShareRequest, handle_apply_share, record_health,
}
use ti_assignment_promise_th.Coordinator.Peer.Fence.{standing, answer, apply_local_lem}
use ti_assignment_promise_th.Coordinator.Peer.Round.{
  Cluster, Exchange, Fate, arrive, note, is_applied, is_answered, post_share, apply_share,
}
use ti_assignment_promise_th.Coordinator.Peer.Round.View.{
  View, view_on, viewed, view_at, told, reply, stood-standing, apply_local-view,
}

-- What an instruction to the node `id` does: `arrived` says whether the node got it, at the time
-- `now`.
pub record IsTold (req : ApplyShareRequest) (id : String) (x : Exchange) (ack : Bool)
    (w w' : Cluster) : Type 0 where
  pub now : Time
  pub arrived : Bool
  pub same_node : w'.proposer.cfg ≡ w.proposer.cfg
  pub views :
      (j : String)
      → view_at req.customer_id w' j ≡ (
          if arrived && (id == j)
          then told now req (view_at req.customer_id w j)
          else view_at req.customer_id w j)
  pub acknowledged : ack ≡ true → is_applied (reply req (view_at req.customer_id w id)) ≡ true
  pub delivered :
      x.fate ≡ Fate.delivered
      → (arrived ≡ true) × (ack ≡ is_applied (reply req (view_at req.customer_id w id)))

noted-view :
    (c id j : String) (up : Bool) (now : Time) (w : Cluster)
    → view_at c (note w id up now) j ≡ view_at c w j
unfolding note record_health view_at
noted-view c id j up now w = refl

view_at-other :
    (c : String) (w : Cluster) (id : String) (o : Option Peer)
    → (id == w.proposer.cfg.node_id) ≡ false
    → lookup id w.others ≡ o
    → view_at c w id ≡ viewed c o
unfolding view_at
view_at-other c w id o remote found = rw (remote, found) refl

-- A change at `id` alone.
at_one :
    (f : Option View → Option View) (id j : String) (u v : Option View) (b : Bool)
    → b ≡ (id == j)
    → (id ≡ j → v ≡ f u)
    → ((id == j) ≡ false → v ≡ u)
    → v ≡ (if b then f u else u)
at_one f id j u v b test here there = elim (Bool-cases (id == j)) [
  | inl same ↦ ground (arith, test, same, here ((string_eq.beq_iff id j).0 same))
  | inr differ ↦ ground (arith, test, differ, there differ)
]

put_view :
    (req : ApplyShareRequest) (id : String) (there : Time) (w : Cluster) (p p' : Peer)
    → (id == w.proposer.cfg.node_id) ≡ false
    → lookup id w.others ≡ some p
    → some (view_on req.customer_id p') ≡ told there req (some (view_on req.customer_id p))
    → (j : String)
    → view_at req.customer_id (record w { others = insert id p' w.others }) j ≡ (
        if id == j
        then told there req (view_at req.customer_id w j)
        else view_at req.customer_id w j)
put_view req id there w p p' remote found moved j =
    let c = req.customer_id in
    let w' : Cluster = record w { others = insert id p' w.others } in
    at_one (told there req) id j (view_at c w j) (view_at c w' j) (id == j) refl
      (λ i.
        subst (λ k. view_at c w' k ≡ told there req (view_at c w k)) i
          (view_at-other c w' id (some p') remote
              (ground (arith, lookup-insert id id p' w.others, string_eq.beq_iff id id))
            ∙ moved
            ∙ ap (told there req) (sym (view_at-other c w id (some p) remote found))))
      (λ differ. unfold view_at in ground (arith, lookup-insert id j p' w.others, differ))

arrive-view :
    (req : ApplyShareRequest) (id : String) (there : Time) (w : Cluster)
    → (id == w.proposer.cfg.node_id) ≡ false
    → (w' : Cluster) × (arrive w id there req ≡ some (reply req (view_at req.customer_id w id), w'))
      × (w'.proposer ≡ w.proposer)
      × ((j : String)
          → view_at req.customer_id w' j ≡ (
              if id == j
              then told there req (view_at req.customer_id w j)
              else view_at req.customer_id w j))
unfolding arrive reply handle_apply_share told
arrive-view req id there w remote = elim (Option-cases (lookup id w.others)) [
  | inl gone ↦
      let c = req.customer_id in
      let nothing = view_at-other c w id none remote gone in
      (
        w,
        rw (gone, arrive, nothing, reply) refl,
        refl,
        λ j.
            at_one (told there req) id j (view_at c w j) (view_at c w j) (id == j) refl
              (λ i.
                subst (λ k. view_at c w k ≡ told there req (view_at c w k)) i
                  (nothing ∙ ap (told there req) (sym nothing)))
              (λ differ. refl),
      )
  | inr (p, found) ↦
      let (p', e, cfg, look) = apply_local_lem p there req in
      let seen = view_at-other req.customer_id w id (some p) remote found in
      (
        record w { others = insert id p' w.others },
        rw (found, arrive, e, seen, reply, stood-standing p req.customer_id) refl,
        refl,
        put_view req id there w p p' remote found (apply_local-view p p' there req cfg look),
      )
]

-- The message does not get to the node, and nothing but the node's health is noted.
unmoved :
    (req : ApplyShareRequest) (id : String) (x : Exchange) (w w' : Cluster)
    → w'.proposer.cfg ≡ w.proposer.cfg
    → ((j : String) → view_at req.customer_id w' j ≡ view_at req.customer_id w j)
    → ¬ (x.fate ≡ Fate.delivered)
    → IsTold req id x false w w'
unmoved req id x w w' cfg same undelivered = record {
  now = zero_time;
  arrived = false;
  same_node = cfg;
  views = same;
  acknowledged = λ e. cc;
  delivered = λ e. absurd (undelivered e);
}

-- It gets there, and the answer is lost or told.
moved :
    (req : ApplyShareRequest) (id : String) (x : Exchange) (ack : Bool) (now : Time)
    (w w' : Cluster)
    → w'.proposer.cfg ≡ w.proposer.cfg
    → ((j : String)
        → view_at req.customer_id w' j ≡ (
            if id == j
            then told now req (view_at req.customer_id w j)
            else view_at req.customer_id w j))
    → (ack ≡ true → is_applied (reply req (view_at req.customer_id w id)) ≡ true)
    → (x.fate ≡ Fate.delivered → ack ≡ is_applied (reply req (view_at req.customer_id w id)))
    → IsTold req id x ack w w'
moved req id x ack now w w' cfg views acknowledged delivered = record {
  now = now;
  arrived = true;
  same_node = cfg;
  views = views;
  acknowledged = acknowledged;
  delivered = λ e. (refl, delivered e);
}

post_share-IsTold :
    (req : ApplyShareRequest) (id : String) (f : Fate) (here there : Time) (w : Cluster)
    → (id == w.proposer.cfg.node_id) ≡ false
    → (ack : Bool) × (w' : Cluster) × (post_share w id req f here there ≡ some (ack, w'))
      × IsTold req id (record { fate = f; here = here; there = there }) ack w w'
unfolding post_share note record_health view_at
post_share-IsTold req id Fate.malformed here there w remote =
    (false, w, refl, unmoved req id _ w w refl (λ j. refl) (λ e. cc))
post_share-IsTold req id Fate.lost here there w remote = (
  false,
  note w id false here,
  refl,
  unmoved req id _ w (note w id false here) refl (λ j. refl) (λ e. cc),
)
post_share-IsTold req id Fate.unanswered here there w remote =
    let (w', e, same, views) = arrive-view req id there w remote in
    (
      false,
      note w' id false here,
      rw e refl,
      moved req id _ false there w (note w' id false here) (ap (λ p. p.cfg) same) views (λ e. cc)
          (λ e. cc),
    )
post_share-IsTold req id Fate.garbled here there w remote =
    let (w', e, same, views) = arrive-view req id there w remote in
    let up = is_answered (reply req (view_at req.customer_id w id)) in
    (
      false,
      note w' id up here,
      rw e refl,
      moved req id _ false there w (note w' id up here) (ap (λ p. p.cfg) same) views (λ e. cc)
          (λ e. cc),
    )
post_share-IsTold req id Fate.delivered here there w remote =
    let (w', e, same, views) = arrive-view req id there w remote in
    let r = reply req (view_at req.customer_id w id) in
    (
      is_applied r,
      note w' id (is_answered r) here,
      rw e refl,
      moved req id _ (is_applied r) there w (note w' id (is_answered r) here) (ap (λ p. p.cfg) same)
          views (λ e. e) (λ e. refl),
    )

pub view_at-own :
    (c : String) (w : Cluster) (id : String)
    → (id == w.proposer.cfg.node_id) ≡ true
    → view_at c w id ≡ some (view_on c w.proposer)
unfolding view_at
view_at-own c w id own = rw own refl

put_own :
    (c : String) (id j : String) (w : Cluster) (p' : Peer)
    → (id == w.proposer.cfg.node_id) ≡ true
    → p'.cfg ≡ w.proposer.cfg
    → (id == j) ≡ false
    → view_at c (record w { proposer = p' }) j ≡ view_at c w j
unfolding view_at
put_own c id j w p' own cfg differ =
    let i : id ≡ w.proposer.cfg.node_id = (string_eq.beq_iff id w.proposer.cfg.node_id).0 own in
    let other : (j == w.proposer.cfg.node_id) ≡ false =
      ground
        (arith, string_eq.beq_iff j w.proposer.cfg.node_id, string_eq.beq_iff id j, i, differ) in
    rw (cfg, other) refl

local-IsTold :
    (req : ApplyShareRequest) (id : String) (x : Exchange) (w : Cluster) (p' : Peer)
    → (id == w.proposer.cfg.node_id) ≡ true
    → p'.cfg ≡ w.proposer.cfg
    → some (view_on req.customer_id p')
      ≡ told x.here req (some (view_on req.customer_id w.proposer))
    → IsTold req id x
        (is_applied (some (answer (standing w.proposer req.customer_id) req)))
        w
        (record w { proposer = p' })
unfolding reply
local-IsTold req id x w p' own cfg changed =
    let c = req.customer_id in
    let w' : Cluster = record w { proposer = p' } in
    let seen = view_at-own c w id own in
    let own' : (id == w'.proposer.cfg.node_id) ≡ true = rw cfg own in
    let acked : is_applied (some (answer (standing w.proposer c) req))
        ≡ is_applied (reply req (view_at c w id)) =
      rw (seen, reply, stood-standing w.proposer c) refl in
    moved req id x _ x.here w w' cfg
      (λ j.
        at_one (told x.here req) id j (view_at c w j) (view_at c w' j) (id == j) refl
          (λ i.
            subst (λ k. view_at c w' k ≡ told x.here req (view_at c w k)) i
              (view_at-own c w' id own' ∙ changed ∙ ap (told x.here req) (sym seen)))
          (λ differ. put_own c id j w p' own cfg differ))
      (λ e. sym acked ∙ e) (λ e. acked)

-- Whatever becomes of the message, applyShare changes what no other node holds; a node that it gets
-- to handles it, and only an instruction that is applied is acknowledged.
pub apply_share-IsTold :
    (req : ApplyShareRequest) (id : String) (x : Exchange) (w : Cluster)
    → (ack : Bool) × (w' : Cluster) × (apply_share w id req x ≡ some (ack, w'))
      × IsTold req id x ack w w'
unfolding apply_share
apply_share-IsTold req id x w = elim (Bool-cases (id == w.proposer.cfg.node_id)) [
  | inl own ↦
      let (p', e, cfg, look) = apply_local_lem w.proposer x.here req in
      (
        is_applied (some (answer (standing w.proposer req.customer_id) req)),
        record w { proposer = p' },
        rw (own, e) refl,
        local-IsTold req id x w p' own cfg (apply_local-view w.proposer p' x.here req cfg look),
      )
  | inr remote ↦
      let (ack, w', e, step) = post_share-IsTold req id x.fate x.here x.there w remote in
      (ack, w', rw (remote, e) refl, step)
]
