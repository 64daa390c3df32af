-- ===== src/Coordinator/Peer/History/Remains.antt =====
-- What an event on a peer node of internal/coordinator/peer.go changes of what is still admitted of
-- each customer.
use ti_assignment_promise_th.Base.{
  ℕ, ◌+◌, ◌*◌, ◌/◌, ◌≤◌, ◌≡◌, refl, sym, ap, subst, ◌⊎◌, inl, inr, String, Option, none, some, List,
  [], ◌∷◌, ◌==◌, if◌then◌else◌, string_eq, count_if, arith, Bool-cases,
}
use ti_assignment_promise_th.Ratelimit.Gcra.{Time, Duration}
use ti_assignment_promise_th.Coordinator.{node_burst}
use ti_assignment_promise_th.Coordinator.ShareGcra.{
  ShareState, new_share_state, set_quota, effective_quota,
}
use ti_assignment_promise_th.Coordinator.ShareGcra.Shrinks.{
  Trace, requotaed, is_hit, is_shrink, IsBounded, requota-IsBounded, effective-le,
}
use ti_assignment_promise_th.Coordinator.Static.Share.{share_of, share_of_pos}
use ti_assignment_promise_th.Coordinator.Peer.{Peer, PeerConfig, ApplyShareRequest}
use ti_assignment_promise_th.Coordinator.Peer.Fence.{standing}
use ti_assignment_promise_th.Coordinator.Peer.History.{
  Event, ping, instruction, status, traces, share_held, standing_quota,
}

-- The node's share of every customer keeps within the customer's cap.
abbrev pub IsHeld : (String → ℕ) → Peer → Type 0
IsHeld caps p =
    (id : String) (s : ShareState)
    → share_held id p ≡ some s
    → (s.burst ≡ node_burst) × (effective_quota s ≤ caps id)

-- The shares that an event makes or sets are within the caps.
abbrev pub IsWithin : (String → ℕ) → ℕ → Event → Type 0
IsWithin caps n (ping id limit now) = (1 ≤ limit) × (share_of limit n ≤ caps id)
IsWithin caps n (instruction now none) = Unit
IsWithin caps n (instruction now (some req)) =
    (1 ≤ caps req.customer_id) × (req.quota ≤ caps req.customer_id)
IsWithin caps n status = Unit

-- What is still to be seen of a customer, from the share that it has, if any.
abbrev pub Remains : ℕ → Duration → Option ShareState → List Trace → Type 0
Remains cap period none log =
    (lo : Time) (d : ℕ)
    → count_if (is_hit lo (lo + cap * (period / cap))) log
      ≤ cap + node_burst + (d + count_if is_shrink log)
Remains cap period (some s) log = IsBounded cap period s log

-- A customer's admissions in the window that starts at `lo`, and how often its quota shrank.
abbrev pub hits : String → Time → Time → List (String × Trace) → ℕ
hits id lo hi log = count_if (is_hit lo hi) (traces id log)

abbrev pub shrinks : String → List (String × Trace) → ℕ
shrinks id log = count_if is_shrink (traces id log)

pub Remains-fresh :
    (cap : ℕ) (period : Duration) (s : ShareState) (log : List Trace)
    → s.burst ≡ node_burst
    → effective_quota s ≤ cap
    → IsBounded cap period s log
    → Remains cap period none log
Remains-fresh cap period s log one small rest lo d = omega (
  arith,
  rest lo 0 d (record {
    single = one;
    capped = small;
    fits = omega arith;
    pushed = λ m. absurd (omega arith);
    full = λ m. absurd (omega arith);
  }),
)

pub new_share-capped :
    (limit n cap : ℕ)
    → 1 ≤ limit
    → 1 ≤ n
    → share_of limit n ≤ cap
    → ((new_share_state (share_of limit n)).burst ≡ node_burst)
      × (effective_quota (new_share_state (share_of limit n)) ≤ cap)
unfolding new_share_state effective_quota
new_share-capped limit n cap hl hn h = (refl, ground (arith, share_of_pos limit n hl hn))

pub fresh-capped :
    (cap : ℕ)
    → 1 ≤ cap
    → ((new_share_state 1).burst ≡ node_burst) × (effective_quota (new_share_state 1) ≤ cap)
unfolding new_share_state effective_quota
fresh-capped cap h = (refl, omega arith)

requota-kept :
    (cap : ℕ) (period : Duration) (s : ShareState) (log : List Trace)
    → IsBounded cap period s log
    → IsBounded cap period s (requotaed s.quota s.quota ∷ log)
requota-kept cap period s log rest lo n d h = ground (arith, rest lo n d h)

module _ (caps : String → ℕ) (cfg : PeerConfig) (counted : 1 ≤ cfg.node_count)
    (fits : (id : String) → caps id ≤ cfg.period) where
  -- After an event the customer has the share `s`, and no other customer's share has changed.
  pub IsHeld-moved :
      (p p' : Peer) (id : String) (s : ShareState)
      → ((j : String) → share_held j p' ≡ (if id == j then some s else share_held j p))
      → (s.burst ≡ node_burst) × (effective_quota s ≤ caps id)
      → IsHeld caps p
      → IsHeld caps p'
  IsHeld-moved p p' id s look ok held j t e = elim (Bool-cases (id == j)) [
    | inl same ↦
        let here : id ≡ j = (string_eq.beq_iff id j).0 same in
        let is : s ≡ t = ground (arith, look j) in
        subst (λ k. (t.burst ≡ node_burst) × (effective_quota t ≤ caps k)) here
          (subst (λ u. (u.burst ≡ node_burst) × (effective_quota u ≤ caps id)) is ok)
    | inr other ↦ held j t (ground (arith, look j))
  ]

  -- One event that is seen of the customer `id`, with what follows it.
  pub Remains-moved :
      (p p' : Peer) (id : String) (s : ShareState) (t : Trace) (log : List (String × Trace))
      → ((j : String) → share_held j p' ≡ (if id == j then some s else share_held j p))
      → (IsBounded (caps id) cfg.period s (traces id log)
          → Remains (caps id) cfg.period (share_held id p) (t ∷ traces id log))
      → ((j : String) → Remains (caps j) cfg.period (share_held j p') (traces j log))
      → (j : String) → Remains (caps j) cfg.period (share_held j p) (traces j ((id, t) ∷ log))
  Remains-moved p p' id s t log look step rest j = elim (Bool-cases (id == j)) [
    | inl same ↦
        let got : share_held id p' ≡ some s = ground (arith, look id, string_eq.beq_iff id id) in
        let here : id ≡ j = (string_eq.beq_iff id j).0 same in
        rw same (
          subst (λ k. Remains (caps k) cfg.period (share_held k p) (t ∷ traces k log)) here
            (step (subst (λ o. Remains (caps id) cfg.period o (traces id log)) got (rest id))))
    | inr other ↦
        let kept : share_held j p' ≡ share_held j p = ground (arith, look j, other) in
        rw other (subst (λ o. Remains (caps j) cfg.period o (traces j log)) kept (rest j))
  ]

  -- What is bounded from a customer's share is bounded from the node that holds it or makes it.
  pub Remains-start :
      {A : Type 0} (p : Peer) (id : String) (s : ShareState) (log : List Trace)
      → ((share_held id p ≡ none) × A) ⊎ (share_held id p ≡ some s)
      → (s.burst ≡ node_burst) × (effective_quota s ≤ caps id)
      → IsBounded (caps id) cfg.period s log
      → Remains (caps id) cfg.period (share_held id p) log
  Remains-start p id s log (inl (new, _)) ok bounded =
      rw new (Remains-fresh (caps id) cfg.period s log ok.0 ok.1 bounded)
  Remains-start p id s log (inr old) ok bounded = rw old bounded

  -- The change of quota that an instruction makes, or does not make.
  pub retold-step :
      (p p' : Peer) (req : ApplyShareRequest) (s s' : ShareState)
      → 1 ≤ caps req.customer_id
      → req.quota ≤ caps req.customer_id
      → (s.burst ≡ node_burst) × (effective_quota s ≤ caps req.customer_id)
      → (s' ≡ s) ⊎ (s' ≡ set_quota s req.quota)
      → ((j : String)
          → share_held j p' ≡ (if req.customer_id == j then some s' else share_held j p))
      → ((s'.burst ≡ node_burst) × (effective_quota s' ≤ caps req.customer_id))
        × ((log : List Trace)
            → IsBounded (caps req.customer_id) cfg.period s' log
            → IsBounded
                (caps req.customer_id)
                cfg.period
                s
                (requotaed s.quota (standing p' req.customer_id).share.quota ∷ log))
  retold-step p p' req s s' pos small ok cases look =
      let id = req.customer_id in
      let now_held : share_held id p' ≡ some s' =
        ground (arith, look id, string_eq.beq_iff id id) in
      let q : (standing p' id).share.quota ≡ s'.quota =
        ap (λ (x : ShareState). x.quota) (standing_quota p' id s' now_held) in
      let cap = caps id in
      let family = λ (u : ShareState).
        ((u.burst ≡ node_burst) × (effective_quota u ≤ cap))
        × ((log : List Trace)
            → IsBounded cap cfg.period u log
            → IsBounded cap cfg.period s (requotaed s.quota u.quota ∷ log)) in
      let r : family s' = elim cases [
        | inl kept ↦ subst family (sym kept) (ok, λ log ih. requota-kept cap cfg.period s log ih)
        | inr new ↦ subst family (sym new) (
          (unfold set_quota in ok.0, effective-le s req.quota cap pos small),
          λ log ih.
              unfold set_quota in
              requota-IsBounded cap cfg.period s req.quota log (fits id)
                (effective-le s req.quota cap pos small) ih,
        )
      ] in
      (r.0, λ log ih. rw q (r.1 log ih))

  pub Remains-nil : (cap : ℕ) (o : Option ShareState) → Remains cap cfg.period o []
  Remains-nil cap none = λ lo d. omega arith
  Remains-nil cap (some s) = λ lo n d h. omega (arith, h.fits)
