-- ===== src/Harness/Analysis.antt =====
-- cmd/harness/analysis.go and the Record of cmd/harness/client.go: what the harness counts in the
-- responses that it observed.
pub mod Rolling
pub mod Exact
use ti_assignment_promise_th.Base.{
  ℕ, suc, ◌+◌, ◌-◌, ◌/◌, Bool, true, false, not, ◌&&◌, String, List, [], ◌∷◌, ◌==◌, if◌then◌else◌,
  ltb, get_or, string_eq, nat_eq,
}
use ti_assignment_promise_th.Base.Dict.{Dict, lookup_or, insert}
use ti_assignment_promise_th.Base.Go.{Sorting}
use ti_assignment_promise_th.Ratelimit.Gcra.{Time, minute, second, zero_time}

-- `failed` is `Err != nil`.
pub record Record : Type 0 where
  pub sent_at : Time
  pub received_at : Time
  pub node_id : String
  pub status_code : ℕ
  pub allowed : Bool
  pub failed : Bool

-- The largest count so far, and the window that it was counted in.
pub record RollingMax : Type 0 where
  pub max : ℕ
  pub window_start : Time
  pub window_end : Time

pub record Aggregate : Type 0 where
  pub sent : ℕ
  pub admitted : ℕ
  pub rejected : ℕ
  pub errored : ℕ
  pub node_distribution : Dict String ℕ
  pub rolling : RollingMax

abbrev pub is_admitted : Record → Bool
is_admitted r = not r.failed && r.allowed

-- The times of the admitted responses.
unfoldable pub admitted_times : List Record → List Time
admitted_times [] = []
admitted_times (r ∷ rs) =
    let rest = admitted_times rs in if is_admitted r then r.received_at ∷ rest else rest

-- sort.Search over the list: the first index where the test holds, or the length.
unfoldable pub search_first : (Time → Bool) → List Time → ℕ
search_first test [] = 0
search_first test (t ∷ ts) = let rest = search_first test ts in if test t then 0 else suc rest

-- !times[k].Before(t.Add(-60 * time.Second)); before the zero time there is nothing.
abbrev pub is_recent : Time → Time → Bool
is_recent t x = not (ltb x (t - minute))

-- The loop over the sorted times, from index `i` on.
unfoldable pub roll : List Time → ℕ → List Time → RollingMax → RollingMax
unfolding search_first
roll times i [] best = best
roll times i (t ∷ rest) best =
    let lo = search_first (is_recent t) times in
    let count = i + 1 - lo in
    roll times (i + 1) rest (
      if ltb best.max count
      then record { max = count; window_start = get_or times lo zero_time; window_end = t }
      else best)

abbrev pub no_window : RollingMax
no_window = record { max = 0; window_start = zero_time; window_end = zero_time }

-- r.ReceivedAt.Unix() / 60; minutes are counted from the zero time, a whole number of them before
-- the Unix epoch.
abbrev pub minute_of : Time → ℕ
minute_of t = t / second / 60

unfoldable pub per_calendar_minute : List Record → Dict ℕ ℕ → Dict ℕ ℕ
per_calendar_minute [] buckets = buckets
per_calendar_minute (r ∷ rs) buckets = per_calendar_minute rs (
    let k = minute_of r.received_at in
    if is_admitted r then insert k (lookup_or 0 k buckets + 1) buckets else buckets)

abbrev pub no_records : RollingMax → Aggregate
no_records rolling = record {
  sent = 0;
  admitted = 0;
  rejected = 0;
  errored = 0;
  node_distribution = [];
  rolling = rolling;
}

-- One turn of the loop of summarize.
unfoldable pub tally : Aggregate → Record → Aggregate
tally a r = if r.failed then record a { errored = a.errored + 1 } else record a {
  sent = a.sent + 1;
  node_distribution =
      if r.node_id == ""
      then a.node_distribution
      else insert r.node_id (lookup_or 0 r.node_id a.node_distribution + 1) a.node_distribution;
  admitted = if r.allowed then a.admitted + 1 else a.admitted;
  rejected = if r.allowed then a.rejected else a.rejected + 1;
}

unfoldable pub tally_all : Aggregate → List Record → Aggregate
unfolding tally
tally_all a [] = a
tally_all a (r ∷ rs) = tally_all (tally a r) rs

module _ (sorting : Sorting) where
  unfoldable pub sorted_times : List Record → List Time
  unfolding admitted_times
  sorted_times rs = sorting.sort (λ a b. ltb a b) (admitted_times rs)

  unfoldable pub max_rolling60s : List Record → RollingMax
  unfolding roll sorted_times
  max_rolling60s rs = let times = sorted_times rs in roll times 0 times no_window

  unfoldable pub summarize : List Record → Aggregate
  unfolding tally_all max_rolling60s
  summarize rs = record (tally_all (no_records no_window) rs) { rolling = max_rolling60s rs }
