-- ===== src/Coordinator/Peer/Round/Through.antt =====
-- One instruction of a round of internal/coordinator/peer.go whose message is answered, and what is
-- left of several of them.
use ti_assignment_promise_th.Base.{
  ℕ, ◌<◌, ◌≡◌, ◌∙◌, refl, sym, ap, subst, inl, inr, Bool, true, false, not, ◌&&◌, ◌||◌, String,
  Option, some, List, [], ◌∷◌, ◌==◌, if◌then◌else◌, arith, string_eq, Bool-cases, leb, All,
}
use ti_assignment_promise_th.Base.Dict.{lookup_or}
use ti_assignment_promise_th.Base.Int.{pos, leb_ℤ}
use ti_assignment_promise_th.Ratelimit.Gcra.{Time}
use ti_assignment_promise_th.Coordinator.ShareGcra.{set_quota}
use ti_assignment_promise_th.Coordinator.Peer.{ApplyShareRequest}
use ti_assignment_promise_th.Coordinator.Peer.Fence.{after, answer}
use ti_assignment_promise_th.Coordinator.Peer.Round.{
  Cluster, Exchange, Fate, NodeSplit, Plan, apply_share, instruct, is_applied,
}
use ti_assignment_promise_th.Coordinator.Peer.Round.Step.{share_at}
use ti_assignment_promise_th.Coordinator.Peer.Round.Phases.{IsAimed}
use ti_assignment_promise_th.Coordinator.Peer.Round.Safety.{IsDistinct, others_differ}
use ti_assignment_promise_th.Coordinator.Peer.Round.View.{
  View, view_at, stood, told, reply, share_in, share_at-view,
}
use ti_assignment_promise_th.Coordinator.Peer.Round.Told.{apply_share-IsTold}

unfoldable pub needs_shrink : Plan → String → Bool
needs_shrink plan j = not (leb_ℤ (pos 0) (lookup_or (pos 0) j plan.deltas))

unfoldable pub needs_grow : Plan → String → Bool
needs_grow plan j = not (leb_ℤ (lookup_or (pos 0) j plan.deltas) (pos 0))

unfoldable pub is_named : List NodeSplit → String → Bool
is_named [] j = false
is_named (n ∷ ns) j = n.node_id == j || is_named ns j

-- The node is there and has not seen the round yet.
abbrev pub IsFresh : String → ℕ → Cluster → String → Type 0
IsFresh c round w j = (v : View) × (view_at c w j ≡ some v) × ((stood v.state).last_applied < round)

pub tail-IsDistinct : (n : NodeSplit) (ns : List NodeSplit) → IsDistinct (n ∷ ns) → IsDistinct ns
tail-IsDistinct n ns d id = ground (arith, d id)

pub head_differs :
    (n : NodeSplit) (ns : List NodeSplit)
    → IsDistinct (n ∷ ns)
    → All (λ m. (n.node_id == m.node_id) ≡ false) ns
head_differs n ns d =
    others_differ n.node_id ns (ground (arith, d n.node_id, string_eq.beq_iff n.node_id n.node_id))

pub stays_shrink :
    (plan : Plan) (j : String)
    → needs_shrink plan j ≡ false
    → leb_ℤ (pos 0) (lookup_or (pos 0) j plan.deltas) ≡ true
unfolding needs_shrink
stays_shrink plan j e = ground arith

pub goes_shrink :
    (plan : Plan) (j : String)
    → needs_shrink plan j ≡ true
    → leb_ℤ (pos 0) (lookup_or (pos 0) j plan.deltas) ≡ false
unfolding needs_shrink
goes_shrink plan j e = ground arith

pub stays_grow :
    (plan : Plan) (j : String)
    → needs_grow plan j ≡ false
    → leb_ℤ (lookup_or (pos 0) j plan.deltas) (pos 0) ≡ true
unfolding needs_grow
stays_grow plan j e = ground arith

pub goes_grow :
    (plan : Plan) (j : String)
    → needs_grow plan j ≡ true
    → leb_ℤ (lookup_or (pos 0) j plan.deltas) (pos 0) ≡ false
unfolding needs_grow
goes_grow plan j e = ground arith

told_here :
    (t : Option View → Option View) (u v : Option View) (id : String) (arrived : Bool)
    → v ≡ (if arrived && (id == id) then t u else u)
    → arrived ≡ true
    → v ≡ t u
told_here t u v id arrived e a = ground (arith, e, a, string_eq.beq_iff id id)

not_there :
    (t : Option View → Option View) (u : Option View) (id j : String) (arrived : Bool)
    → (id == j) ≡ false
    → (if arrived && (id == j) then t u else u) ≡ u
not_there t u id j true differ = rw differ refl
not_there t u id j false differ = refl

module _ (limit : ℕ) (plan : Plan) (net : String → Exchange) (goal : String → ℕ) where
  -- The node `id` is at its goal, and nothing else has changed.
  abbrev pub IsMoved : Cluster → Cluster → String → Type 0
  IsMoved w w' id =
      (share_at limit plan.customer_id w' id ≡ goal id)
      × ((j : String)
          → (id == j) ≡ false
          → view_at plan.customer_id w' j ≡ view_at plan.customer_id w j)

  request : NodeSplit → ApplyShareRequest
  request n = record { customer_id = plan.customer_id; round = plan.round; quota = goal n.node_id }

  told-quota :
      (now : Time) (n : NodeSplit) (v : View)
      → (stood v.state).last_applied < plan.round
      → (share_in limit (told now (request n) (some v)) ≡ goal n.node_id)
        × (is_applied (reply (request n) (some v)) ≡ true)
  unfolding told reply after answer set_quota is_applied request
  told-quota now n v older =
      let newer : leb plan.round (stood v.state).last_applied ≡ false = ground (arith, older) in
      rw newer (refl, refl)

  pub instruct-fresh :
      (n : NodeSplit) (w : Cluster)
      → (net n.node_id).fate ≡ Fate.delivered
      → IsAimed plan goal n
      → IsFresh plan.customer_id plan.round w n.node_id
      → (w' : Cluster) × (instruct plan w n.node_id (net n.node_id) ≡ some (true, w'))
        × IsMoved w w' n.node_id
  unfolding instruct request
  instruct-fresh n w through aim (v, seen, older) =
      let id = n.node_id in
      let (ack, w', e, step) = apply_share-IsTold (request n) id (net id) w in
      let (arrives, acked) = step.delivered through in
      let (there, applied) = told-quota step.now n v older in
      let ok : ack ≡ true = acked ∙ ap (λ u. is_applied (reply (request n) u)) seen ∙ applied in
      let here : view_at plan.customer_id w' id ≡ told step.now (request n) (some v) =
        told_here (told step.now (request n)) (view_at plan.customer_id w id)
          (view_at plan.customer_id w' id) id step.arrived (step.views id) arrives
        ∙ ap (told step.now (request n)) seen in
      (
        w',
        rw (aim.0) (subst (λ a. apply_share w id (request n) (net id) ≡ some (a, w')) ok e),
        (
          share_at-view limit plan.customer_id w' id ∙ ap (share_in limit) here ∙ there,
          λ j differ.
              step.views j
              ∙ not_there (told step.now (request n)) (view_at plan.customer_id w j) id j
                  step.arrived differ,
        ),
      )

  pub same_view :
      (w w' : Cluster) (j : String)
      → view_at plan.customer_id w' j ≡ view_at plan.customer_id w j
      → share_at limit plan.customer_id w' j ≡ share_at limit plan.customer_id w j
  same_view w w' j e =
      share_at-view limit plan.customer_id w' j
      ∙ ap (share_in limit) e
      ∙ sym (share_at-view limit plan.customer_id w j)

  -- Each node of the list that the test names is at its goal, and nothing else has changed.
  unfoldable pub IsThrough : (String → Bool) → List NodeSplit → Cluster → Cluster → Type 0
  IsThrough test ns w w' =
      (j : String)
      → ((test j && is_named ns j) ≡ true → share_at limit plan.customer_id w' j ≡ goal j)
        × ((test j && is_named ns j) ≡ false
            → view_at plan.customer_id w' j ≡ view_at plan.customer_id w j)

  pub IsThrough-skip :
      (test : String → Bool) (n : NodeSplit) (ns : List NodeSplit) (w w' : Cluster)
      → test n.node_id ≡ false
      → IsThrough test ns w w'
      → IsThrough test (n ∷ ns) w w'
  unfolding IsThrough is_named
  IsThrough-skip test n ns w w' skip h j = elim (Bool-cases (n.node_id == j)) [
    | inl same ↦
        let off : test j ≡ false = ap test (sym ((string_eq.beq_iff n.node_id j).0 same)) ∙ skip in
        (λ e. ground (arith, off, e), λ e. (h j).1 (rw off refl))
    | inr differ ↦ rw differ (h j)
  ]

  pub IsThrough-cons :
      (test : String → Bool) (n : NodeSplit) (ns : List NodeSplit) (w w1 w' : Cluster)
      → test n.node_id ≡ true
      → IsMoved w w1 n.node_id
      → IsThrough test ns w1 w'
      → IsThrough test (n ∷ ns) w w'
  unfolding IsThrough is_named
  IsThrough-cons test n ns w w1 w' go (reached, others) h j = elim (Bool-cases (n.node_id == j)) [
    | inl same ↦
        let i : n.node_id ≡ j = (string_eq.beq_iff n.node_id j).0 same in
        let on : test j ≡ true = ap test (sym i) ∙ go in
        let there : share_at limit plan.customer_id w1 j ≡ goal j =
          subst (λ k. share_at limit plan.customer_id w1 k ≡ goal k) i reached in
        (
          λ e. elim (Bool-cases (is_named ns j)) [
            | inl again ↦ (h j).0 (rw (on, again) refl)
            | inr once ↦ same_view w1 w' j ((h j).1 (rw (on, once) refl)) ∙ there
          ],
          λ e. absurd (ground (arith, on, same, e)),
        )
    | inr differ ↦ rw differ ((h j).0, λ e. (h j).1 e ∙ others j differ)
  ]

  -- The nodes after one that moved are as fresh as before.
  pub IsFresh-others :
      (test : String → Bool) (id : String) (ns : List NodeSplit) (w w1 : Cluster)
      → IsMoved w w1 id
      → All (λ m. (id == m.node_id) ≡ false) ns
      → All (λ m. test m.node_id ≡ true → IsFresh plan.customer_id plan.round w m.node_id) ns
      → All (λ m. test m.node_id ≡ true → IsFresh plan.customer_id plan.round w1 m.node_id) ns
  IsFresh-others test id [] w w1 moved differ fresh = tt
  IsFresh-others test id (m ∷ ms) w w1 moved (d, differ) (f, fresh) = (
    λ t. let (v, seen, older) = f t in (v, moved.1 m.node_id d ∙ seen, older),
    IsFresh-others test id ms w w1 moved differ fresh,
  )
