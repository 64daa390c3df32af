-- ===== src/Coordinator/Peer/Fence.antt =====
-- handleApplyShare of internal/coordinator/peer.go: what one instruction does, and what is left of
-- a sequence of them that arrives in any order.
use ti_assignment_promise_th.Base.{
  ◌≤◌, ◌≡◌, refl, ◌⊎◌, inl, inr, String, Option, none, some, ◌>>=◌, List, [], ◌∷◌, ◌==◌,
  if◌then◌else◌, arith, leb, string_eq, Bool-cases, Option-cases, All, Any, ◌∙◌, sym,
}
use ti_assignment_promise_th.Base.Dict.{lookup, insert, lookup-insert}
use ti_assignment_promise_th.Ratelimit.Gcra.{Time, zero_time}
use ti_assignment_promise_th.Coordinator.ShareGcra.{new_share_state, set_quota}
use ti_assignment_promise_th.Coordinator.Peer.{
  Peer, CustomerState, ApplyShareRequest, ApplyShareResponse, customer_for, apply_local,
  put_customer, handle_apply_share,
}

-- The customer's state as an instruction finds it: made on the first one.
unfoldable pub standing : Peer → String → CustomerState
standing p id = elim (lookup id p.customers) [
  | none ↦ record {
    share = new_share_state 1;
    demand = 0;
    global_limit = 0;
    last_applied = 0;
    last_updated = zero_time;
  }
  | some cs ↦ cs
]

pub customer_for-zero :
    (p : Peer) (id : String)
    → customer_for p id 0 ≡ some (standing p id, put_customer p id (standing p id))
unfolding customer_for standing
customer_for-zero p id = elim (Option-cases (lookup id p.customers)) [
  | inl new ↦ rw (new, customer_for, standing) refl
  | inr old ↦ rw (old.1, customer_for, standing) refl
]

-- What an instruction leaves of its customer's state.
unfoldable pub after : CustomerState → Time → ApplyShareRequest → CustomerState
after cs now req = if leb req.round cs.last_applied then cs else record cs {
  share = set_quota cs.share req.quota;
  last_applied = req.round;
  last_updated = now;
}

unfoldable pub answer : CustomerState → ApplyShareRequest → ApplyShareResponse
answer cs req =
    if leb req.round cs.last_applied
    then ApplyShareResponse.stale_round
    else ApplyShareResponse.applied

put_customer-standing :
    (p : Peer) (id j : String) (cs : CustomerState)
    → standing (put_customer p id cs) j ≡ (if id == j then cs else standing p j)
unfolding standing
put_customer-standing p id j cs = ground (arith, lookup-insert id j cs p.customers)

-- An instruction never panics, and it changes no customer but its own.
pub apply_local_lem :
    (p : Peer) (now : Time) (req : ApplyShareRequest)
    → (p' : Peer) × (apply_local p now req ≡ some (answer (standing p req.customer_id) req, p'))
      × (p'.cfg ≡ p.cfg)
      × ((j : String)
          → lookup j p'.customers ≡ (
              if req.customer_id == j
              then some (after (standing p req.customer_id) now req)
              else lookup j p.customers))
unfolding apply_local after answer
apply_local_lem p now req =
    let id = req.customer_id in
    let cs = standing p id in
    elim (Bool-cases (leb req.round cs.last_applied)) [
      | inl stale ↦ (
        put_customer p id cs,
        rw (customer_for-zero p id, stale) refl,
        refl,
        λ j. ground (arith, stale, lookup-insert id j cs p.customers),
      )
      | inr newer ↦ (
        put_customer (put_customer p id cs) id (after cs now req),
        rw (customer_for-zero p id, newer) refl,
        refl,
        λ j. ground (
          arith,
          lookup-insert id j (after cs now req) (insert id cs p.customers),
          lookup-insert id j cs p.customers,
        ),
      )
    ]

-- Instructions in the order in which the handler gets them.
unfoldable pub deliver_all : Peer → List (Time × ApplyShareRequest) → Option Peer
deliver_all p [] = some p
deliver_all p ((now, req) ∷ msgs) =
    handle_apply_share p now (some req) >>= λ r. deliver_all r.1 msgs

-- The message set the customer's quota in the round that was applied last.
abbrev pub IsSource : String → CustomerState → Time × ApplyShareRequest → Type 0
IsSource id cs msg =
    (msg.1.customer_id ≡ id) × (msg.1.round ≡ cs.last_applied) × (msg.1.quota ≡ cs.share.quota)

-- The message is not of a later round than the customer's last.
abbrev pub IsFenced : String → CustomerState → Time × ApplyShareRequest → Type 0
IsFenced id cs msg = msg.1.customer_id ≡ id → msg.1.round ≤ cs.last_applied

apply_local-standing :
    (p p' : Peer) (now : Time) (req : ApplyShareRequest) (id : String)
    → ((j : String)
        → lookup j p'.customers ≡ (
            if req.customer_id == j
            then some (after (standing p req.customer_id) now req)
            else lookup j p.customers))
    → standing p' id
      ≡ (if req.customer_id == id then after (standing p id) now req else standing p id)
unfolding standing
apply_local-standing p p' now req id look = elim (Bool-cases (req.customer_id == id)) [
  | inl same ↦
      let e : req.customer_id ≡ id = (string_eq.beq_iff req.customer_id id).0 same in
      ground (arith, look id, e)
  | inr other ↦ ground (arith, look id)
]

-- One message takes the customer's state from `cs` to `cs'`.
abbrev IsStep : String → CustomerState → CustomerState → Time × ApplyShareRequest → Type 0
IsStep id cs cs' msg =
    (cs.last_applied ≤ cs'.last_applied)
    × (cs'.share.tat ≡ cs.share.tat)
    × IsFenced id cs' msg
    × ((cs'.last_applied ≡ cs.last_applied) × (cs'.share.quota ≡ cs.share.quota)
        ⊎ IsSource id cs' msg)

after-IsStep :
    (cs : CustomerState) (now : Time) (req : ApplyShareRequest) (id : String)
    → req.customer_id ≡ id
    → IsStep id cs (after cs now req) (now, req)
unfolding after set_quota
after-IsStep cs now req id same = elim (Bool-cases (leb req.round cs.last_applied)) [
  | inl stale ↦ rw stale (omega arith, refl, λ e. ground arith, inl (refl, refl))
  | inr newer ↦ rw newer (ground arith, refl, λ e. omega arith, inr (same, refl, refl))
]

IsStep-received :
    (p p' : Peer) (now : Time) (req : ApplyShareRequest) (id : String)
    → standing p' id
      ≡ (if req.customer_id == id then after (standing p id) now req else standing p id)
    → IsStep id (standing p id) (standing p' id) (now, req)
IsStep-received p p' now req id st = elim (Bool-cases (req.customer_id == id)) [
  | inl same ↦
      let e : standing p' id ≡ after (standing p id) now req = ground (arith, st) in
      rw e (after-IsStep (standing p id) now req id ((string_eq.beq_iff req.customer_id id).0 same))
  | inr other ↦
      let e : standing p' id ≡ standing p id = ground (arith, st) in
      rw e (
        omega arith,
        refl,
        λ i. ground (arith, string_eq.beq_iff req.customer_id id),
        inl (refl, refl),
      )
]

pub deliver_all-IsFenced :
    (p : Peer) (msgs : List (Time × ApplyShareRequest)) (id : String)
    → (p' : Peer) × (deliver_all p msgs ≡ some p')
      × ((standing p id).last_applied ≤ (standing p' id).last_applied)
      × ((standing p' id).share.tat ≡ (standing p id).share.tat)
      × All (IsFenced id (standing p' id)) msgs
      × (((standing p' id).last_applied ≡ (standing p id).last_applied)
            × ((standing p' id).share.quota ≡ (standing p id).share.quota)
          ⊎ Any (IsSource id (standing p' id)) msgs)
unfolding deliver_all handle_apply_share
deliver_all-IsFenced p [] id = (p, refl, omega arith, refl, tt, inl (refl, refl))
deliver_all-IsFenced p ((now, req) ∷ msgs) id =
    let (p1, e, cfg, look) = apply_local_lem p now req in
    let (p2, run, grows, tat, fenced, source) = deliver_all-IsFenced p1 msgs id in
    let st = apply_local-standing p p1 now req id look in
    let (g, t, f, src) = IsStep-received p p1 now req id st in
    (
      p2,
      rw e run,
      omega arith,
      tat ∙ t,
      (λ i. omega (arith, f i), fenced),
      elim source [
        | inr later ↦ inr (inr later)
        | inl (r, q) ↦ elim src [
          | inl (r', q') ↦ inl (r ∙ r', q ∙ q')
          | inr (c, r', q') ↦ inr (inl (c, r' ∙ sym r, q' ∙ sym q))
        ]
      ],
    )
