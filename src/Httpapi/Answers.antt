-- ===== src/Httpapi/Answers.antt =====
-- What the answers of internal/httpapi/server.go promise a client.
use native.Mathlib.Nat.{div-add-mod, mod-lt}
use mathlib.Core.Option.{some-injective}
use ti_assignment_promise_th.Base.{
  ℕ, ◌+◌, ◌*◌, ◌≤◌, ◌≡◌, refl, ◌⊎◌, inl, inr, true, false, String, none, some, List, [], ◌==◌,
  arith, Bool-cases, Option-cases, string_eq, ap, sym, ◌∙◌, nat_beq,
}
use ti_assignment_promise_th.Ratelimit.Gcra.{Time, Duration, Decision, second}
use ti_assignment_promise_th.Base.Int.{ℤ}
use ti_assignment_promise_th.Policy.Config.{TimeLib}
use ti_assignment_promise_th.Policy.Resolver.{OverrideApplied, find_customer, resolve}
use ti_assignment_promise_th.Policy.Limits.{resolve_unknown}
use ti_assignment_promise_th.Httpapi.{
  Coordinator, Server, Response, Body, ceil_seconds, jittered_retry_after_seconds, reset_seconds,
  refusal, respond, is_unknown, handle_ping,
}

second_pos : 1 ≤ second
second_pos = omega arith

ceil_seconds-covers : (d : Duration) → d ≤ ceil_seconds d * second
unfolding ceil_seconds
ceil_seconds-covers d = ground (arith, div-add-mod d second, mod-lt d second_pos)

ceil_seconds-le : (d n : ℕ) → d ≤ n * second → ceil_seconds d ≤ n
unfolding ceil_seconds
ceil_seconds-le d n h = ground (arith, div-add-mod d second, mod-lt d second_pos)

-- A wait that a client is told to make is a second at least, long enough for the decision's own,
-- and not shorter than the reset that is sent with it.
retry_lem :
    (jitter : Duration → Duration) (d : Decision)
    → d.allowed ≡ false
    → (1 ≤ jittered_retry_after_seconds jitter d.retry_after)
      × (d.retry_after ≤ jittered_retry_after_seconds jitter d.retry_after * second)
      × (reset_seconds d ≤ jittered_retry_after_seconds jitter d.retry_after)
unfolding jittered_retry_after_seconds reset_seconds
retry_lem jitter d rejected = elim (Bool-cases (nat_beq d.retry_after 0)) [
  | inl now ↦
      let wait = second + jitter second in
      let covers = ceil_seconds-covers wait in
      let zero_reset : ceil_seconds d.retry_after ≤ 0 =
        ceil_seconds-le d.retry_after 0 (ground arith) in
      rw (now, rejected) (ground (arith, covers), ground arith, omega (arith, zero_reset))
  | inr later ↦
      let wait = d.retry_after + jitter d.retry_after in
      let covers = ceil_seconds-covers wait in
      let reset_fits : ceil_seconds d.retry_after ≤ ceil_seconds wait =
        ceil_seconds-le d.retry_after (ceil_seconds wait) (omega (arith, covers)) in
      rw (later, rejected) (ground (arith, covers), omega (arith, covers), reset_fits)
]

admitted_status :
    (jitter : Duration → Duration) (node_id id : String) (limit : ℤ) (d : Decision)
    → d.allowed ≡ true
    → (respond jitter node_id id limit d).status ≡ 200
unfolding respond
admitted_status jitter node_id id limit d admitted = rw admitted refl

rejected_header :
    (jitter : Duration → Duration) (node_id id : String) (limit : ℤ) (d : Decision)
    → d.allowed ≡ false
    → (respond jitter node_id id limit d).retry_after
      ≡ some (jittered_retry_after_seconds jitter d.retry_after)
unfolding respond
rejected_header jitter node_id id limit d rejected = rw rejected refl

module _ {S : Type 0} (time : TimeLib) (coordinator : Coordinator S)
    (jitter : Duration → Duration) where
  -- A request without a customer's name, or with the name of one that is not configured, is refused
  -- with 400 or 403, whatever the coordinator is: it is not asked, the server's state stays and
  -- nothing is audited.
  pub handle_ping-closed :
      (s : Server S) (id : String) (now : Time)
      → (id ≡ "") ⊎ (find_customer id s.resolver.cfg.customers ≡ none)
      → (answer : Response) × (handle_ping time coordinator jitter s id now ≡ some (answer, s, []))
        × ((answer.status ≡ 400) ⊎ (answer.status ≡ 403))
        × (answer.x_ratelimit_remaining ≡ none)
  unfolding handle_ping refusal is_unknown
  handle_ping-closed s id now unnamed = elim (Bool-cases (id == "")) [
    | inl empty ↦ (refusal s.node_id 400 Body.missing_customer_id, rw empty refl, inl refl, refl)
    | inr named ↦ (
      refusal s.node_id 403 Body.unknown_customer,
      elim unnamed [
        | inl empty ↦ absurd (ground (arith, string_eq.beq_iff id ""))
        | inr gone ↦ rw (named, resolve_unknown time s.resolver id now gone) refl
      ],
      inr refl,
      refl,
    )
  ]

  -- A request that is answered with 429 is told to wait for at least a second, for no less than
  -- what the coordinator decided, and for no less than the reset that is sent with it, whatever
  -- jitter is drawn.
  pub handle_ping-retry :
      (s s' : Server S) (id : String) (now : Time) (answer : Response)
      (events : List OverrideApplied)
      → handle_ping time coordinator jitter s id now ≡ some (answer, s', events)
      → answer.status ≡ 429
      → (d : Decision) × (wait : ℕ) × (reset : ℕ) × (coordinator.allow s.coord id
            (resolve time s.resolver id now).0.limit
            now
          ≡ some (d, s'.coord))
        × (d.allowed ≡ false)
        × (answer.retry_after ≡ some wait)
        × (answer.x_ratelimit_reset ≡ some reset)
        × (1 ≤ wait)
        × (d.retry_after ≤ wait * second)
        × (reset ≤ wait)
  unfolding handle_ping
  handle_ping-retry s s' id now answer events e limited =
      let resolved = resolve time s.resolver id now in
      elim (Bool-cases (id == "")) [
        | inl empty ↦ absurd (
            omega (
              arith,
              limited,
              ap (λ r. r.0.status) (some-injective _ _ (rw (empty, handle_ping) at e)),
            ))
        | inr named ↦ elim (Bool-cases (is_unknown resolved.0.reason)) [
          | inl stranger ↦ absurd (
              omega (
                arith,
                limited,
                ap (λ r. r.0.status) (some-injective _ _ (rw (named, stranger, handle_ping) at e)),
              ))
          | inr known ↦ elim (Option-cases (coordinator.allow s.coord id resolved.0.limit now)) [
            | inl panic ↦
                let h : none ≡ some (answer, s', events) =
                  rw (named, known, panic, handle_ping) at e in
                cc
            | inr (r, allowed) ↦
                let h = some-injective _ _ (rw (named, known, allowed, handle_ping) at e) in
                let same : respond jitter s.node_id id resolved.0.limit r.0 ≡ answer =
                  ap (λ t. t.0) h in
                elim (Bool-cases r.0.allowed) [
                  | inl admitted ↦ absurd (
                      omega (
                        arith,
                        limited,
                        ap (λ a. a.status) same,
                        admitted_status jitter s.node_id id resolved.0.limit r.0 admitted,
                      ))
                  | inr rejected ↦
                      let (long, covers, reset) = retry_lem jitter r.0 rejected in
                      (
                        r.0,
                        jittered_retry_after_seconds jitter r.0.retry_after,
                        reset_seconds r.0,
                        allowed ∙ ap (λ x. some (r.0, x)) (ap (λ t. t.1.coord) h),
                        rejected,
                        sym (ap (λ a. a.retry_after) same)
                            ∙ rejected_header jitter s.node_id id resolved.0.limit r.0 rejected,
                        sym (ap (λ a. a.x_ratelimit_reset) same) ∙ (unfold respond in refl),
                        long,
                        covers,
                        reset,
                      )
                ]
          ]
        ]
      ]
