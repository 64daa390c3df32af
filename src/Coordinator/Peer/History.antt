-- ===== src/Coordinator/Peer/History.antt =====
-- A peer node of internal/coordinator/peer.go over time: the calls of Allow, the instructions to
-- apply a share and the polls, in the order in which they take its mutex.
pub mod Remains
pub mod Bound
pub mod Cluster
mod Tests
use ti_assignment_promise_th.Base.{
  ℕ, ◌+◌, ◌*◌, ◌/◌, ◌≤◌, ◌≡◌, refl, sym, ap, subst, ◌∙◌, ◌⊎◌, inl, inr, Bool, true, String, Option,
  none, some, ◌>>=◌, List, [], ◌∷◌, ◌++◌, ◌==◌, if◌then◌else◌, string_eq, leb, ltb, count_if, arith,
  All, Bool-cases, Option-cases,
}
use ti_assignment_promise_th.Base.Dict.{Dict, lookup, insert, lookup-insert}
use ti_assignment_promise_th.Ratelimit.Gcra.{Time, Duration, zero_time}
use ti_assignment_promise_th.Ratelimit.Gcra.Laws.{verdict}
use ti_assignment_promise_th.Coordinator.{node_burst}
use ti_assignment_promise_th.Coordinator.ShareGcra.{
  ShareState, new_share_state, set_quota, effective_quota,
}
use ti_assignment_promise_th.Coordinator.ShareGcra as ShareGcra
use ti_assignment_promise_th.Coordinator.ShareGcra.Agreement.{share_params, allow_lem, HasInterval}
use ti_assignment_promise_th.Coordinator.ShareGcra.Shrinks.{Trace, decided, requotaed}
use ti_assignment_promise_th.Coordinator.Static.Share.{share_of}
use ti_assignment_promise_th.Coordinator.Peer.{
  Peer, PeerConfig, CustomerState, ApplyShareRequest, customer_for, put_customer, allow,
  handle_apply_share, local_status, reset_demand, ApplyShareResponse,
}
use ti_assignment_promise_th.Coordinator.Peer.Fence.{standing, after, apply_local_lem}
use ti_assignment_promise_th.Coordinator.Peer.Tick.Safety.{bootstrap-eq}

pub data Event : Type 0 where
  -- Allow, with the limit that the policy resolved.
  ping : String → ℕ → Time → Event
  -- The body of apply-share, `none` if it does not decode.
  instruction : Time → Option ApplyShareRequest → Event
  status : Event

-- What an instruction did to its customer's quota.
abbrev pub retold : Peer → Peer → Option ApplyShareRequest → List (String × Trace)
retold p p' none = []
retold p p' (some req) =
    (
      req.customer_id,
      requotaed (standing p req.customer_id).share.quota (standing p' req.customer_id).share.quota,
    )
    ∷ []

unfoldable pub serve_peer : Peer → List Event → Option (List (String × Trace) × Peer)
serve_peer p [] = some ([], p)
serve_peer p (ping id limit now ∷ events) = do
  r ← allow p id limit now
  rest ← serve_peer r.1 events
  some ((id, decided (now, r.0)) ∷ rest.0, rest.1)
serve_peer p (instruction now body ∷ events) = do
  r ← handle_apply_share p now body
  rest ← serve_peer r.1 events
  some (retold p r.1 body ++ rest.0, rest.1)
serve_peer p (status ∷ events) = serve_peer (local_status p).1 events

-- One customer's part of what happened.
abbrev pub traces : String → List (String × Trace) → List Trace
traces id [] = []
traces id ((j, t) ∷ log) = let rest = traces id log in if j == id then t ∷ rest else rest

-- Allow finds the customer's share, or makes it with the node's part of the limit.
customer_for_lem :
    (p : Peer) (id : String) (limit : ℕ)
    → 1 ≤ limit
    → 1 ≤ p.cfg.node_count
    → (cs : CustomerState) × (customer_for p id limit ≡ some (cs, put_customer p id cs))
      × (((lookup id p.customers ≡ none)
            × (cs.share ≡ new_share_state (share_of limit p.cfg.node_count)))
          ⊎ ((old : CustomerState) × (lookup id p.customers ≡ some old) × (cs.share ≡ old.share)))
unfolding customer_for
customer_for_lem p id limit hl hn = elim (Option-cases (lookup id p.customers)) [
  | inl new ↦ (
    record {
      share = new_share_state (share_of limit p.cfg.node_count);
      demand = 0;
      global_limit = limit;
      last_applied = 0;
      last_updated = zero_time;
    },
    rw (new, customer_for, bootstrap-eq limit p.cfg.node_count hl hn) refl,
    inl (new, refl),
  )
  | inr (old, e) ↦ (
    record old { global_limit = if ltb 0 limit then limit else old.global_limit },
    rw (e, customer_for) refl,
    inr (old, e, refl),
  )
]

-- The share that a customer has on a node, once there is one.
unfoldable pub share_held : String → Peer → Option ShareState
share_held id p = elim (lookup id p.customers) [ none ↦ none | some cs ↦ some cs.share ]

allow_share :
    (p : Peer) (id : String) (limit : ℕ) (now : Time) (cs : CustomerState)
    → customer_for p id limit ≡ some (cs, put_customer p id cs)
    → HasInterval cs.share p.cfg.period
    → let v = verdict (share_params cs.share p.cfg.period) cs.share.tat now in
      (p' : Peer) × (allow p id limit now ≡ some (v.0, p'))
      × (p'.cfg ≡ p.cfg)
      × ((j : String)
          → share_held j p'
            ≡ (if id == j then some (record cs.share { tat = v.1 }) else share_held j p))
unfolding allow share_held
allow_share p id limit now cs found h =
    let v = verdict (share_params cs.share p.cfg.period) cs.share.tat now in
    let cs' : CustomerState = record cs {
      share = record cs.share { tat = v.1 };
      demand = cs.demand + 1;
    } in
    (
      put_customer (put_customer p id cs) id cs',
      rw (found, allow_lem cs.share now p.cfg.period h) refl,
      refl,
      λ j. ground (
        arith,
        lookup-insert id j cs' (insert id cs p.customers),
        lookup-insert id j cs p.customers,
      ),
    )

-- What Allow does to the shares of a node with the config `cfg`.
abbrev pub IsPinged : Peer → PeerConfig → String → ℕ → Time → Type 0
IsPinged p cfg id limit now =
    (s : ShareState) × (((share_held id p ≡ none)
        × (s ≡ new_share_state (share_of limit cfg.node_count)))
      ⊎ (share_held id p ≡ some s))
    × (HasInterval s cfg.period
        → let v = verdict (share_params s cfg.period) s.tat now in
          (p' : Peer) × (allow p id limit now ≡ some (v.0, p'))
          × (p'.cfg ≡ cfg)
          × ((j : String)
              → share_held j p'
                ≡ (if id == j then some (record s { tat = v.1 }) else share_held j p)))

pub allow-IsPinged :
    (p : Peer) (cfg : PeerConfig) (id : String) (limit : ℕ) (now : Time)
    → p.cfg ≡ cfg
    → 1 ≤ limit
    → 1 ≤ cfg.node_count
    → IsPinged p cfg id limit now
unfolding share_held
allow-IsPinged p cfg id limit now same hl hn =
    let (cs, found, cases) = customer_for_lem p id limit hl (rw same hn) in
    subst (λ c. IsPinged p c id limit now) same
      (
        cs.share,
        elim cases [
          | inl (new, is) ↦ inl (rw (share_held, new) refl, is)
          | inr (old, e, is) ↦ inr (rw (e, share_held) (ap {B = Option ShareState} some (sym is)))
        ],
        λ h. allow_share p id limit now cs found h,
      )

pub lookup-reset_demand :
    (id : String) (m : Dict String CustomerState)
    → lookup id (reset_demand m)
      ≡ (elim (lookup id m) [ none ↦ none | some cs ↦ some (record cs { demand = 0 }) ])
unfolding lookup reset_demand
lookup-reset_demand id [] = refl
lookup-reset_demand id ((j, cs) ∷ m) = ground (arith, lookup-reset_demand id m)

-- A poll leaves the shares alone.
pub poll_share : (p : Peer) (id : String) → share_held id (local_status p).1 ≡ share_held id p
unfolding local_status share_held
poll_share p id = ground (arith, lookup-reset_demand id p.customers)

standing_share :
    (p : Peer) (id : String)
    → (share_held id p ≡ none) × ((standing p id).share ≡ new_share_state 1)
      ⊎ (share_held id p ≡ some (standing p id).share)
unfolding standing share_held
standing_share p id = elim (Option-cases (lookup id p.customers)) [
  | inl new ↦ inl (rw (new, share_held) refl, rw (new, standing) refl)
  | inr (cs, old) ↦ inr (rw (old, share_held, standing) refl)
]

-- The quota that the node reports for a customer.
pub standing_quota :
    (p : Peer) (id : String) (s : ShareState) → share_held id p ≡ some s → (standing p id).share ≡ s
unfolding standing share_held
standing_quota p id s e = elim (Option-cases (lookup id p.customers)) [
  | inl new ↦ ground (arith, e, new)
  | inr (cs, old) ↦ ground (arith, e, old)
]

pub instruct_share :
    (p : Peer) (now : Time) (req : ApplyShareRequest)
    → let id = req.customer_id in
      let s = (standing p id).share in
      (p' : Peer) × (answer : ApplyShareResponse) × (handle_apply_share p now (some req)
        ≡ some (answer, p'))
      × (p'.cfg ≡ p.cfg)
      × ((share_held id p ≡ none) × (s ≡ new_share_state 1) ⊎ (share_held id p ≡ some s))
      × (s' : ShareState) × ((s' ≡ s) ⊎ (s' ≡ set_quota s req.quota))
      × ((j : String) → share_held j p' ≡ (if id == j then some s' else share_held j p))
unfolding handle_apply_share after share_held
instruct_share p now req =
    let id = req.customer_id in
    let (p', e, cfg, look) = apply_local_lem p now req in
    (
      p',
      _,
      e,
      cfg,
      standing_share p id,
      (after (standing p id) now req).share,
      elim (Bool-cases (leb req.round (standing p id).last_applied)) [
        | inl stale ↦ inl (rw stale refl)
        | inr newer ↦ inr (rw newer refl)
      ],
      λ j. ground (arith, look j),
    )
