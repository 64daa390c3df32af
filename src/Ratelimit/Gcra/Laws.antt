-- ===== src/Ratelimit/Gcra/Laws.antt =====
-- What one call of `decide` (internal/ratelimit/gcra.go) returns, for parameters that do not panic.
use ti_assignment_promise_th.Base.{
  ceil_div, pos_of_mul, ℕ, ◌+◌, ◌-◌, ◌*◌, ◌/◌, ◌≤◌, ◌<◌, ◌≡◌, true, some, ltb, leb, if◌then◌else◌,
  div?-eq, arith,
}
use ti_assignment_promise_th.Ratelimit.Gcra.{
  Time, Duration, Params, Decision, rejection, advance, decide_at, emission_interval, decide,
  admitted,
}

-- No division by zero: the quota and the period are positive.
abbrev pub IsPaced : Params → Type 0
IsPaced p = (1 ≤ p.quota) × (1 ≤ p.period)

-- The emission interval as a number: the period over the quota, rounded up.
unfoldable pub interval : Params → Duration
interval p = (p.period + p.quota - 1) / p.quota

pub emission_interval-eq : (p : Params) → IsPaced p → emission_interval p ≡ some (interval p)
unfolding emission_interval interval
emission_interval-eq p h = div?-eq _ _ h.0

-- A quota of intervals covers the period.
pub period-le : (p : Params) → IsPaced p → p.period ≤ p.quota * interval p
unfolding interval
period-le p h = (ceil_div p.period p.quota h.0).0

pub interval_tight : (p : Params) → IsPaced p → p.quota * interval p < p.period + p.quota
unfolding interval
interval_tight p h = (ceil_div p.period p.quota h.0).1

pub interval_pos : (p : Params) → IsPaced p → 1 ≤ interval p
interval_pos p h = pos_of_mul (interval p) p.quota (omega (arith, period-le p h))

-- The number that `remaining_after` computes.
unfoldable pub room : Duration → Duration → Duration → ℕ
room emission burst_offset margin =
    if leb margin burst_offset then (burst_offset - margin) / emission + 1 else 0

-- The decision of an admitted request.
unfoldable pub grant : ℕ → ℕ → Decision
grant limit remaining = record {
  allowed = true;
  remaining = remaining;
  retry_after = 0;
  limit = limit;
  reason = admitted;
}

module _ (limit : ℕ) (emission burst_offset : Duration) (tat now : Time) where
  pub decide_at-reject :
      now + burst_offset < tat
      → decide_at limit emission burst_offset tat now
        ≡ some (rejection limit (tat - burst_offset - now), tat)
  unfolding decide_at
  decide_at-reject h = ground arith

  pub decide_at-admit :
      1 ≤ emission
      → tat ≤ now + burst_offset
      → decide_at limit emission burst_offset tat now
        ≡ some (
          grant limit (room emission burst_offset (advance tat now emission - now)),
          advance tat now emission,
        )
  unfolding decide_at room grant
  decide_at-admit e h =
      ground (arith, div?-eq (burst_offset - (advance tat now emission - now)) emission e)

-- What a call decides, in closed form: a request is turned away exactly if the TAT lies more than
-- the burst offset ahead of it, and otherwise the TAT moves one interval on, from `now` if it lags
-- behind.
unfoldable pub verdict : Params → Time → Time → Decision × Time
unfolding advance rejection grant
verdict p tat now =
    let offset = p.burst * interval p in
    if ltb (now + offset) tat then (rejection p.quota (tat - offset - now), tat) else (
      grant p.quota (room (interval p) offset (advance tat now (interval p) - now)),
      advance tat now (interval p),
    )

pub decide_lem :
    (p : Params) (tat now : Time) → IsPaced p → decide tat now p ≡ some (verdict p tat now)
unfolding decide verdict
decide_lem p tat now h = rw (emission_interval-eq p h) (
    ground (
      arith,
      decide_at-reject p.quota (interval p) (p.burst * interval p) tat now,
      decide_at-admit p.quota (interval p) (p.burst * interval p) tat now (interval_pos p h),
    ))
