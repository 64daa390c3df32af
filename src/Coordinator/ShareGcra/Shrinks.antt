-- ===== src/Coordinator/ShareGcra/Shrinks.antt =====
-- shareState of internal/coordinator/share_gcra.go while rebalances change its quota: what a
-- history of allow and setQuota admits, and what a shrink does to the request that follows it.
pub mod Spent
use native.Mathlib.Nat.{div-mul-le_self, le-div_iff_mul-le, mul-le-mul_left, mul-le-mul_right}
use ti_assignment_promise_th.Base.{
  ℕ, zero, suc, ◌+◌, ◌-◌, ◌*◌, ◌/◌, ◌≤◌, ◌<◌, ◌≡◌, ◌↔◌, refl, Bool, true, false, Option, some,
  ◌>>=◌, List, [], ◌∷◌, ltb, nat_beq, nat_beq_iff, if◌then◌else◌, count_if, arith, All, Bool-cases,
  inl, inr,
}
use ti_assignment_promise_th.Ratelimit.Gcra.{Time, Duration, Decision}
use ti_assignment_promise_th.Ratelimit.Gcra.Laws.{verdict}
use ti_assignment_promise_th.Ratelimit.Gcra.Pacing.{Entry, admitted_within, is_admitted_within}
use ti_assignment_promise_th.Coordinator.{node_burst}
use ti_assignment_promise_th.Coordinator.ShareGcra.{ShareState, effective_quota, allow, set_quota}
use ti_assignment_promise_th.Coordinator.ShareGcra.Agreement.{
  share_params, HasInterval, allow_lem, share_params-interval,
}
use ti_assignment_promise_th.Coordinator.ShareGcra.Shrinks.Spent.{
  spacing, IsSpent, effective_quota_pos, div-le_quotas, allow_step, IsSpent-missed, IsSpent-hit,
  IsSpent-requota,
}

-- A call of allow or of setQuota, in the order in which the calls take the lock.
pub data Move : Type 0 where
  request : Time → Move
  requota : ℕ → Move

-- What a history leaves to be seen: each decision, and each quota with the one before it.
pub data Trace : Type 0 where
  decided : Entry → Trace
  requotaed : ℕ → ℕ → Trace

unfoldable pub serve_moves : ShareState → Duration → List Move → Option (List Trace × ShareState)
unfolding set_quota
serve_moves s period [] = some ([], s)
serve_moves s period (request now ∷ moves) = do
  r ← allow s now period
  rest ← serve_moves r.1 period moves
  some (decided (now, r.0) ∷ rest.0, rest.1)
serve_moves s period (requota quota ∷ moves) = do
  rest ← serve_moves (set_quota s quota) period moves
  some (requotaed s.quota quota ∷ rest.0, rest.1)

abbrev pub is_hit : Time → Time → Trace → Bool
is_hit lo hi (decided e) = is_admitted_within lo hi e
is_hit lo hi (requotaed old new) = false

abbrev pub is_shrink : Trace → Bool
is_shrink (decided e) = false
is_shrink (requotaed old new) = ltb new old

-- The new quotas stay within the cap.
abbrev pub IsCapped : ℕ → Move → Type 0
IsCapped cap (request now) = Unit
IsCapped cap (requota quota) = quota ≤ cap

-- What a history adds to the admissions and the shrinks before it.
abbrev pub IsBounded : ℕ → Duration → ShareState → List Trace → Type 0
IsBounded cap period s log =
    (lo : Time) (n d : ℕ)
    → IsSpent cap period lo n d s
    → n + count_if (is_hit lo (lo + cap * (period / cap))) log
      ≤ cap + node_burst + (d + count_if is_shrink log)

pub request-IsBounded :
    (cap : ℕ) (period : Duration) (s : ShareState) (now : Time) (log : List Trace)
    → cap ≤ period
    → let v = verdict (share_params s period) s.tat now in
      IsBounded cap period (record s { tat = v.1 }) log
      → IsBounded cap period s (decided (now, v.0) ∷ log)
request-IsBounded cap period s now log fits rest lo n d h =
    let v = verdict (share_params s period) s.tat now in
    let hi = lo + cap * (period / cap) in
    elim (Bool-cases (is_admitted_within lo hi (now, v.0))) [
      | inl hit ↦
          let spent =
            IsSpent-hit cap period lo fits now h (ground arith) (ground arith) (ground arith) in
          rw hit (omega (arith, rest lo (n + 1) d spent))
      | inr miss ↦ rw miss (rest lo n d (IsSpent-missed cap period lo fits now h))
    ]

pub requota-IsBounded :
    (cap : ℕ) (period : Duration) (s : ShareState) (quota : ℕ) (log : List Trace)
    → cap ≤ period
    → effective_quota (set_quota s quota) ≤ cap
    → IsBounded cap period (set_quota s quota) log
    → IsBounded cap period s (requotaed s.quota quota ∷ log)
requota-IsBounded cap period s quota log fits small rest lo n d h =
    let spent = IsSpent-requota cap period lo fits quota small h in
    let ih = rest lo n _ spent in
    elim (Bool-cases (ltb quota s.quota)) [
      | inl shrunk ↦ ground (arith, ih, shrunk)
      | inr grown ↦ ground (arith, ih, grown)
    ]

pub effective-le :
    (s : ShareState) (quota cap : ℕ)
    → 1 ≤ cap
    → quota ≤ cap
    → effective_quota (set_quota s quota) ≤ cap
unfolding effective_quota set_quota
effective-le s quota cap pos h = ground arith

serve_moves-IsBounded :
    (s : ShareState) (cap : ℕ) (period : Duration) (moves : List Move)
    → s.burst ≡ node_burst
    → effective_quota s ≤ cap
    → cap ≤ period
    → All (IsCapped cap) moves
    → (log : List Trace) × (s' : ShareState) × (serve_moves s period moves ≡ some (log, s'))
      × IsBounded cap period s log
unfolding serve_moves
serve_moves-IsBounded s cap period [] one small fits h =
    ([], s, refl, λ lo n d spent. omega (arith, spent.fits))
serve_moves-IsBounded s cap period (request now ∷ moves) one small fits h =
    let v = verdict (share_params s period) s.tat now in
    let t : ShareState = record s { tat = v.1 } in
    let (log, s', e, rest) =
      serve_moves-IsBounded t cap period moves one (unfold effective_quota in small) fits h.1 in
    (
      decided (now, v.0) ∷ log,
      s',
      rw (allow_lem s now period (omega (arith, small)), e) refl,
      request-IsBounded cap period s now log fits rest,
    )
serve_moves-IsBounded s cap period (requota quota ∷ moves) one small fits h =
    let capped = effective-le s quota cap (omega (arith, small, effective_quota_pos s)) h.0 in
    let (log, s', e, rest) =
      serve_moves-IsBounded (set_quota s quota) cap period moves (unfold set_quota in one) capped
        fits h.1 in
    (
      requotaed s.quota quota ∷ log,
      s',
      rw e refl,
      requota-IsBounded cap period s quota log fits capped rest,
    )

-- A share whose quota rebalances change, and never above `cap`: from any state and with no panic, a
-- window as long as `cap` of the intervals of a quota of `cap` admits at most `cap`, the burst and
-- one more for each time that the quota shrinks.
pub serve_moves-window_bound :
    (s : ShareState) (cap : ℕ) (period : Duration) (moves : List Move)
    → s.burst ≡ node_burst
    → effective_quota s ≤ cap
    → cap ≤ period
    → All (IsCapped cap) moves
    → (log : List Trace) × (s' : ShareState) × (serve_moves s period moves ≡ some (log, s'))
      × ((lo : Time)
          → count_if (is_hit lo (lo + cap * (period / cap))) log
            ≤ cap + node_burst + count_if is_shrink log)
serve_moves-window_bound s cap period moves one small fits h =
    let (log, s', e, bounded) = serve_moves-IsBounded s cap period moves one small fits h in
    (
      log,
      s',
      e,
      λ lo. omega (
        arith,
        bounded lo 0 0 (record {
          single = one;
          capped = small;
          fits = omega arith;
          pushed = λ m. absurd (omega arith);
          full = λ m. absurd (omega arith);
        }),
      ),
    )

-- A request that is turned away is admitted at once after a change of quota exactly if the quota
-- becomes so small that its interval reaches the TAT; such a change is a shrink.
pub set_quota-admits :
    (s : ShareState) (now : Time) (period : Duration) (quota : ℕ) {d d' : Decision}
    {s' t' : ShareState}
    → s.burst ≡ node_burst
    → HasInterval s period
    → HasInterval (set_quota s quota) period
    → allow s now period ≡ some (d, s')
    → d.allowed ≡ false
    → allow (set_quota s quota) now period ≡ some (d', t')
    → ((d'.allowed ≡ true) ↔ (s.tat ≤ now + spacing (set_quota s quota) period))
      × (d'.allowed ≡ true → effective_quota (set_quota s quota) < effective_quota s)
unfolding set_quota
set_quota-admits s now period quota {d} {d'} one h h' e refused e' =
    let t = set_quota s quota in
    let (_, admits, early) = allow_step t now period one h' in
    let (_, _, early_before) = allow_step s now period one h in
    let is : d' ≡ (verdict (share_params t period) t.tat now).0 =
      ground (arith, e', allow_lem t now period h') in
    let was : d ≡ (verdict (share_params s period) s.tat now).0 =
      ground (arith, e, allow_lem s now period h) in
    let shut : now + spacing s period < s.tat =
      elim (Bool-cases (ltb (now + spacing s period) s.tat)) [
        | inl late ↦ ground (arith, late)
        | inr soon ↦ absurd (ground (arith, was, refused, early_before (ground (arith, soon))))
      ] in
    (
      (λ ok. (admits (ground (arith, is, ok))).0, λ soon. ground (arith, is, early soon)),
      λ ok.
          let reached = (admits (ground (arith, is, ok))).0 in
          elim (Bool-cases (ltb (effective_quota t) (effective_quota s))) [
            | inl less ↦ ground (arith, less)
            | inr more ↦
                let shorter =
                  div-le_quotas period (effective_quota t) (effective_quota s)
                    (effective_quota_pos s) (ground (arith, more)) in
                absurd (omega (arith, shorter))
          ],
    )
