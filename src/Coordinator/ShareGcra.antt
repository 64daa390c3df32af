-- ===== src/Coordinator/ShareGcra.antt =====
-- internal/coordinator/share_gcra.go: the GCRA state of one customer on a peer node, with a quota
-- that rebalances change. Each method holds the state's mutex, so one call is one step.
pub mod Agreement
pub mod Overrun
pub mod Shrinks
use ti_assignment_promise_th.Base.{
  ℕ, ◌*◌, Option, none, some, ◌>>=◌, List, [], ◌∷◌, ltb, if◌then◌else◌, div?,
}
use ti_assignment_promise_th.Ratelimit.Gcra.{Time, Duration, Decision, decide_at, zero_time}
use ti_assignment_promise_th.Ratelimit.Gcra.Pacing.{Entry}
use ti_assignment_promise_th.Coordinator.{node_burst}

pub record ShareState : Type 0 where
  pub tat : Time
  pub quota : ℕ
  pub burst : ℕ

unfoldable pub new_share_state : ℕ → ShareState
new_share_state initial_quota = record {
  tat = zero_time;
  quota = initial_quota;
  burst = node_burst;
}

unfoldable pub set_quota : ShareState → ℕ → ShareState
set_quota s quota = record s { quota = quota }

unfoldable pub current_quota : ShareState → ℕ
current_quota s = s.quota

-- The quota that `allow` works with: a share of zero still gets the floor.
unfoldable pub effective_quota : ShareState → ℕ
effective_quota s = if ltb s.quota 1 then 1 else s.quota

-- `decide_at` is the text of gcra.go's `decide` below its emission interval, which `allow` repeats.
-- The interval is rounded down here.
unfoldable pub allow : ShareState → Time → Duration → Option (Decision × ShareState)
unfolding effective_quota decide_at
allow s now period = do
  let quota = effective_quota s
  emission ← div? period quota
  let burst_offset = s.burst * emission
  r ← decide_at quota emission burst_offset s.tat now
  some (r.0, record s { tat = r.1 })

-- Requests in the order in which they take the lock, with no change of quota between them.
unfoldable pub serve_share : ShareState → Duration → List Time → Option (List Entry × ShareState)
serve_share s period [] = some ([], s)
serve_share s period (now ∷ nows) = do
  r ← allow s now period
  rest ← serve_share r.1 period nows
  some ((now, r.0) ∷ rest.0, rest.1)
