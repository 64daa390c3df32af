-- ===== src/Coordinator/ShareGcra/Overrun.antt =====
-- What rounding the interval down costs in internal/coordinator/share_gcra.go: a history that a
-- quota with a remainder admits beyond the quota and the burst.
use native.Mathlib.Nat.{div-add-mod}
use mathlib.Core.Path.{subst₂}
use ti_assignment_promise_th.Base.{
  ℕ, zero, suc, ◌+◌, ◌*◌, ◌/◌, ◌%◌, ◌≤◌, ◌<◌, ◌≡◌, ◌≢◌, sym, ap, ◌∙◌, some, List, [], ◌∷◌, true,
  arith,
}
use ti_assignment_promise_th.Ratelimit.Gcra.{Time, Duration, Params}
use ti_assignment_promise_th.Ratelimit.Gcra.Laws.{IsPaced, interval, verdict}
use ti_assignment_promise_th.Ratelimit.Gcra.Pacing.{
  Entry, serve_one, serve_one-cons, admitted_within,
}
use ti_assignment_promise_th.Coordinator.ShareGcra.{ShareState, effective_quota, serve_share}
use ti_assignment_promise_th.Coordinator.ShareGcra.Agreement.{
  share_params, share_params-IsPaced, serve_share-refines, share_params-interval,
}

-- `n` arrivals from `t` on, `step` apart.
abbrev pub spaced : ℕ → Time → Duration → List Time
spaced zero t step = []
spaced (suc n) t step = t ∷ spaced n (t + step) step

-- With a burst of one, a request is admitted one interval before its TAT.
verdict-early :
    (p : Params) (now : Time)
    → p.burst ≡ 1
    → ((verdict p (now + interval p) now).0.allowed ≡ true)
      × ((verdict p (now + interval p) now).1 ≡ now + interval p + interval p)
unfolding verdict
verdict-early p now one = ground arith

spaced-admitted :
    (p : Params) (lo hi t : Time) (n : ℕ) {log : List Entry} {tat' : Time}
    → IsPaced p
    → p.burst ≡ 1
    → lo ≤ t
    → t + n * interval p < hi + interval p
    → serve_one p (t + interval p) (spaced n t (interval p)) ≡ some (log, tat')
    → admitted_within lo hi log ≡ n
unfolding serve_one
spaced-admitted p lo hi t zero paced one after before e = ground arith
spaced-admitted p lo hi t (suc n) paced one after before e =
    let (rest, f, g) =
      serve_one-cons p (t + interval p) t (spaced n (t + interval p) (interval p)) paced e in
    let (ok, next) = verdict-early p t one in
    let ih : admitted_within lo hi rest ≡ n =
      spaced-admitted p lo hi (t + interval p) n paced one (omega arith) (omega arith)
        (rw next at f) in
    rw (g, ok) (ground (arith, ih))

verdict-idle :
    (p : Params) (tat now : Time)
    → tat ≤ now
    → ((verdict p tat now).0.allowed ≡ true) × ((verdict p tat now).1 ≡ now + interval p)
unfolding verdict
verdict-idle p tat now idle = ground arith

short : (quota period step : ℕ) → period / quota ≡ step → period % quota ≢ 0 → quota * step < period
short quota period step e uneven = rw (← e) (omega (arith, div-add-mod period quota, uneven))

-- A quota that does not divide the period: two requests at once and then one each interval, all
-- within one period, are admitted, one more than the quota and the burst.
pub serve_share_overrun :
    (s : ShareState) (t : Time) (period : Duration)
    → s.burst ≡ 1
    → 1 ≤ s.quota
    → s.quota ≤ period
    → period % s.quota ≢ 0
    → s.tat ≤ t
    → (log : List Entry) × (s' : ShareState) × (serve_share s period
          (t ∷ spaced (s.quota + 1) t (period / s.quota))
        ≡ some (log, s'))
      × (admitted_within t (t + period) log ≡ s.quota + s.burst + 1)
serve_share_overrun s t period one some_quota fits uneven idle =
    let p = share_params s period in
    let full : effective_quota s ≡ s.quota = unfold effective_quota in ground arith in
    let step : period / s.quota ≡ interval p =
      ap (λ q. period / q) (sym full) ∙ sym (share_params-interval s period) in
    let h : effective_quota s ≤ period = omega arith in
    let paced = share_params-IsPaced s period h in
    let (log, s', e, f) =
      serve_share-refines s period (t ∷ spaced (s.quota + 1) t (period / s.quota)) h in
    let (rest, f', g) =
      serve_one-cons p s.tat t (spaced (s.quota + 1) t (period / s.quota)) paced f in
    let (ok, next) = verdict-idle p s.tat t idle in
    let run =
      subst₂ (λ tat i. serve_one p tat (spaced (s.quota + 1) t i) ≡ some (rest, s'.tat)) next step
        f' in
    let most : admitted_within t (t + period) rest ≡ s.quota + 1 =
      spaced-admitted p t (t + period) t (s.quota + 1) paced one (omega arith)
        (omega (arith, short s.quota period (interval p) step uneven)) run in
    (log, s', e, rw (g, ok) (ground (arith, most)))
