-- ===== src/Coordinator/ShareGcra/Agreement.antt =====
-- internal/coordinator/share_gcra.go against internal/ratelimit/gcra.go: when the two formulas
-- agree, and what the peers' one bounds.
use native.Mathlib.Nat.{div-add-mod, div-eq_of_lt-le, le-div_iff_mul-le}
use ti_assignment_promise_th.Base.{
  ℕ, ◌+◌, ◌-◌, ◌*◌, ◌/◌, ◌%◌, ◌≤◌, ◌≡◌, refl, ap, ◌∙◌, Option, some, ◌>>=◌, List, [], ◌∷◌, div?-eq,
  arith,
}
use ti_assignment_promise_th.Ratelimit.Gcra.{Time, Duration, Params, decide_at, decide}
use ti_assignment_promise_th.Ratelimit.Gcra.Laws.{
  IsPaced, interval, verdict, decide_lem, emission_interval-eq,
}
use ti_assignment_promise_th.Ratelimit.Gcra.Pacing.{Entry, serve_one, admitted_within, window_bound}
use ti_assignment_promise_th.Coordinator.ShareGcra.{
  ShareState, effective_quota, allow, serve_share, set_quota,
}

-- The limiter that the share is: a quota of the intervals that `allow` uses is its period.
abbrev pub share_params : ShareState → Duration → Params
share_params s period = record {
  quota = effective_quota s;
  period = effective_quota s * (period / effective_quota s);
  burst = s.burst;
}

effective_quota_pos : (s : ShareState) → 1 ≤ effective_quota s
unfolding effective_quota
effective_quota_pos s = ground arith

-- The interval is a positive number of nanoseconds.
abbrev pub HasInterval : ShareState → Duration → Type 0
HasInterval s period = effective_quota s ≤ period

interval-floor : (q e : ℕ) → 1 ≤ q → (q * e + q - 1) / q ≡ e
interval-floor q e h = div-eq_of_lt-le {k = e} q {m = q * e + q - 1} (omega arith) (omega arith)

pub share_params-IsPaced :
    (s : ShareState) (period : Duration) → HasInterval s period → IsPaced (share_params s period)
share_params-IsPaced s period h =
    let pos : 1 ≤ period / effective_quota s =
      (le-div_iff_mul-le {k = effective_quota s} {x = 1} {y = period} (effective_quota_pos s)).1
        (omega arith) in
    (effective_quota_pos s, grind (arith, effective_quota_pos s))

pub share_params-interval :
    (s : ShareState) (period : Duration)
    → interval (share_params s period) ≡ period / effective_quota s
unfolding interval
share_params-interval s period =
    interval-floor (effective_quota s) (period / effective_quota s) (effective_quota_pos s)

decide_at-verdict :
    (s : ShareState) (now : Time) (period : Duration)
    → HasInterval s period
    → let e = period / effective_quota s in
      decide_at (effective_quota s) e (s.burst * e) s.tat now
      ≡ some (verdict (share_params s period) s.tat now)
unfolding decide
decide_at-verdict s now period h =
    let p = share_params s period in
    let paced = share_params-IsPaced s period h in
    let same =
      emission_interval-eq p paced
      ∙ ap {B = Option Duration} some (share_params-interval s period) in
    rw same at (decide_lem p s.tat now paced)

pub allow_lem :
    (s : ShareState) (now : Time) (period : Duration)
    → HasInterval s period
    → let v = verdict (share_params s period) s.tat now in
      allow s now period ≡ some (v.0, record s { tat = v.1 })
unfolding allow
allow_lem s now period h =
    rw
      (div?-eq period (effective_quota s) (effective_quota_pos s), decide_at-verdict s now period h)
      refl

-- Where the quota divides the period the two formulas are one: the same decision and the same TAT.
pub allow-decide :
    (s : ShareState) (now : Time) (period : Duration)
    → 1 ≤ s.quota
    → s.quota ≤ period
    → period % s.quota ≡ 0
    → allow s now period ≡ (
        decide s.tat now (record { quota = s.quota; period = period; burst = s.burst }) >>= λ r.
        some (r.0, record s { tat = r.1 }))
unfolding effective_quota
allow-decide s now period some_quota fits even =
    let p : Params = record { quota = s.quota; period = period; burst = s.burst } in
    let e : effective_quota s ≡ s.quota = ground arith in
    let same : share_params s period ≡ p = ground (arith, div-add-mod period s.quota) in
    let h : HasInterval s period = ground arith in
    allow_lem s now period h
    ∙ rw (decide_lem p s.tat now (some_quota, omega arith))
        (ap (λ q. some ((verdict q s.tat now).0, record s { tat = (verdict q s.tat now).1 })) same)

pub serve_share-refines :
    (s : ShareState) (period : Duration) (nows : List Time)
    → HasInterval s period
    → (log : List Entry) × (s' : ShareState) × (serve_share s period nows ≡ some (log, s'))
      × (serve_one (share_params s period) s.tat nows ≡ some (log, s'.tat))
unfolding serve_share serve_one effective_quota
serve_share-refines s period [] h = ([], s, refl, refl)
serve_share-refines s period (now ∷ nows) h =
    let v = verdict (share_params s period) s.tat now in
    let (log, s', e, f) = serve_share-refines (record s { tat = v.1 }) period nows h in
    (
      (now, v.0) ∷ log,
      s',
      rw (allow_lem s now period h, e) refl,
      rw (decide_lem (share_params s period) s.tat now (share_params-IsPaced s period h), f) refl,
    )

-- From any state, so also right after a change of quota, and with no panic: a window of as many
-- nanoseconds as the quota's intervals span admits at most the quota and the burst.
pub serve_share-window_bound :
    (s : ShareState) (quota : ℕ) (period : Duration) (nows : List Time)
    → let t = set_quota s quota in
      HasInterval t period
      → (log : List Entry) × (s' : ShareState) × (serve_share t period nows ≡ some (log, s'))
        × ((lo : Time)
            → admitted_within lo (lo + effective_quota t * (period / effective_quota t)) log
              ≤ effective_quota t + s.burst)
unfolding set_quota
serve_share-window_bound s quota period nows h =
    let t = set_quota s quota in
    let (log, s', e, f) = serve_share-refines t period nows h in
    (
      log,
      s',
      e,
      λ lo. window_bound (share_params t period) lo t.tat nows (share_params-IsPaced t period h) f,
    )
