-- ===== src/Ratelimit/Gcra.antt =====
-- internal/ratelimit/gcra.go (Params, emissionInterval, decide) and decision.go.
-- A time.Time is the number of nanoseconds since the zero time.Time{}, a time.Duration a number of
-- nanoseconds, and `none` the run-time panic of an integer division by zero.
pub mod Laws
pub mod Pacing
pub mod Answers
pub mod Demux
use ti_assignment_promise_th.Base.{
  ℕ, suc, ◌+◌, ◌-◌, ◌*◌, Bool, true, false, Option, none, some, ◌>>=◌, ltb, leb, if◌then◌else◌,
  div?,
}

abbrev pub Time : Type 0
Time = ℕ

abbrev pub Duration : Type 0
Duration = ℕ

abbrev pub zero_time : Time
zero_time = 0

abbrev pub second : Duration
second = 1000000000

abbrev pub minute : Duration
minute = 60000000000

pub record Params : Type 0 where
  pub quota : ℕ
  pub period : Duration
  pub burst : ℕ

-- The two strings that `Reason` takes.
pub data Reason : Type 0 where
  admitted rate_exceeded : Reason

pub record Decision : Type 0 where
  pub allowed : Bool
  pub remaining : ℕ
  pub retry_after : Duration
  pub limit : ℕ
  pub reason : Reason

-- One quota-th of the period, rounded up.
unfoldable pub emission_interval : Params → Option Duration
emission_interval p = div? (p.period + p.quota - 1) p.quota

-- `if now.Before(allowAt)`: the decision of the early return.
unfoldable pub rejection : ℕ → Duration → Decision
rejection limit wait = record {
  allowed = false;
  remaining = 0;
  retry_after = wait;
  limit = limit;
  reason = rate_exceeded;
}

-- How many more requests fit within the burst offset at this instant.
unfoldable pub remaining_after : Duration → Duration → Duration → Option ℕ
remaining_after emission burst_offset margin =
    if leb margin burst_offset
    then div? (burst_offset - margin) emission >>= (λ n. some (n + 1))
    else some 0

unfoldable pub advance : Time → Time → Duration → Time
advance tat now emission = (if ltb tat now then now else tat) + emission

-- What follows the early return.
unfoldable pub admission : ℕ → Duration → Duration → Time → Time → Option (Decision × Time)
unfolding remaining_after advance
admission limit emission burst_offset tat now =
    let new_tat = advance tat now emission in
    remaining_after emission burst_offset (new_tat - now) >>= λ remaining. some (
      record {
        allowed = true;
        remaining = remaining;
        retry_after = 0;
        limit = limit;
        reason = admitted;
      },
      new_tat,
    )

-- The steps of `decide` after the emission interval is known. `tat.Add(-burstOffset)` may lie
-- before the zero time, where `-` stops; no `now` is before either of the two.
unfoldable pub decide_at : ℕ → Duration → Duration → Time → Time → Option (Decision × Time)
unfolding rejection admission
decide_at limit emission burst_offset tat now =
    let allow_at = tat - burst_offset in
    if ltb now allow_at
    then some (rejection limit (allow_at - now), tat)
    else admission limit emission burst_offset tat now

unfoldable pub decide : Time → Time → Params → Option (Decision × Time)
unfolding emission_interval decide_at
decide tat now p = do
  emission ← emission_interval p
  let burst_offset = p.burst * emission
  decide_at p.quota emission burst_offset tat now
