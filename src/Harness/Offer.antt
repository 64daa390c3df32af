-- ===== src/Harness/Offer.antt =====
-- Offer of cmd/harness/client.go: the paced requests, the workers and the collector as a system
-- whose schedule is a list of moves. What a worker's doRequest returns is part of the schedule.
pub mod Finish
mod Tests
use ti_assignment_promise_th.Base.{
  ℕ, suc, ◌+◌, ◌-◌, ◌*◌, ◌/◌, Bool, true, false, not, ◌&&◌, ◌||◌, Option, none, some, ◌>>=◌, List,
  [], ◌∷◌, ◌++◌, if◌then◌else◌, ltb, leb, nat_beq, length, div?,
}
use ti_assignment_promise_th.Ratelimit.Gcra.{Time, Duration, minute}
use ti_assignment_promise_th.Harness.Analysis.{Record}

-- OfferConfig, what Offer reads of it beside the request that doRequest makes.
pub record OfferConfig : Type 0 where
  pub rpm : ℕ
  pub duration : Duration
  pub concurrency : ℕ

-- The time between two ticks; `none` is the panic of a division by zero or of time.NewTicker.
unfoldable pub tick_interval : OfferConfig → Option Duration
tick_interval cfg =
    div? minute cfg.rpm >>= λ interval. if nat_beq interval 0 then none else some interval

-- What paces the loop.
pub record Pace : Type 0 where
  pub interval : Duration
  pub ticker_start : Time
  pub deadline : Time

-- The start of Offer, with the two readings of the clock by the ticker and for the deadline.
unfoldable pub new_pace : OfferConfig → Time → Time → Option Pace
unfolding tick_interval
new_pace cfg ticker_start now = tick_interval cfg >>= λ interval.
    some
      (record { interval = interval; ticker_start = ticker_start; deadline = now + cfg.duration })

-- A running Offer: the loop, what waits in the channel `requests`, the workers that are busy, what
-- waits in the channel `records`, and what is collected.
pub record OfferState : Type 0 where
  pub offering : Bool
  pub ticks : ℕ
  pub dropped : ℕ
  pub queued : ℕ
  pub busy : ℕ
  pub buffered : List Record
  pub collected : List Record

pub data Move : Type 0 where
  -- A turn of the loop whose test reads `now`: before the deadline it takes the next tick.
  turn : (now : Time) → Move
  -- A turn that finds the context done.
  cancelled : (now : Time) → Move
  -- A worker takes a request, and puts its record into the channel.
  take : Move
  finish : Record → Move
  -- The collector appends a record.
  collect : Move

abbrev pub start_offer : OfferState
start_offer = record {
  offering = true;
  ticks = 0;
  dropped = 0;
  queued = 0;
  busy = 0;
  buffered = [];
  collected = [];
}

-- The inner select: a tick that finds the channel full is dropped.
unfoldable pub on_tick : OfferConfig → OfferState → OfferState
on_tick cfg s =
    if ltb s.queued (cfg.concurrency * 2)
    then record s { ticks = s.ticks + 1; queued = s.queued + 1 }
    else record s { ticks = s.ticks + 1; dropped = s.dropped + 1 }

-- One turn of the loop. The k-th tick is not sent before k intervals have
-- passed, so a turn that follows it cannot read an earlier time.
unfoldable pub on_turn : OfferConfig → Pace → Bool → Time → OfferState → Option OfferState
unfolding on_tick
on_turn cfg pace done now s =
    if not s.offering || ltb now (pace.ticker_start + s.ticks * pace.interval)
    then none
    else if not (ltb now pace.deadline) || done
    then some (record s { offering = false })
    else some (on_tick cfg s)

-- A move, `none` if it is not possible.
unfoldable pub step : OfferConfig → Pace → Move → OfferState → Option OfferState
unfolding on_turn
step cfg pace (turn now) s = on_turn cfg pace false now s
step cfg pace (cancelled now) s = on_turn cfg pace true now s
step cfg pace take s =
    if ltb 0 s.queued && ltb s.busy cfg.concurrency
    then some (record s { queued = s.queued - 1; busy = s.busy + 1 })
    else none
step cfg pace (finish r) s =
    if ltb 0 s.busy && ltb (length s.buffered) (cfg.concurrency * 4)
    then some (record s { busy = s.busy - 1; buffered = s.buffered ++ r ∷ [] })
    else none
step cfg pace collect s = elim s.buffered [
  | [] ↦ none
  | r ∷ rs ↦ some (record s { buffered = rs; collected = s.collected ++ r ∷ [] })
]

unfoldable pub run : OfferConfig → Pace → List Move → OfferState → Option OfferState
run cfg pace [] s = some s
run cfg pace (m ∷ moves) s = step cfg pace m s >>= λ s'. run cfg pace moves s'

-- What Offer returns: the loop has ended, the workers and then the collector are done.
unfoldable pub returned : OfferState → Option (List Record)
returned s =
    if not s.offering && nat_beq s.queued 0 && nat_beq s.busy 0 && nat_beq (length s.buffered) 0
    then some s.collected
    else none
