-- ===== src/Coordinator/FixedWindow.antt =====
-- internal/coordinator/fixedwindow.go: the counter that resets on each calendar minute, which the
-- harness runs to show that it catches a limiter of this kind. Go's zero time is a whole number of
-- minutes before the Unix epoch, so windows counted from it are the same windows under other
-- numbers.
pub mod Boundary
pub mod Minute
use ti_assignment_promise_th.Base.{
  ℕ, ◌+◌, ◌-◌, ◌*◌, ◌/◌, ◌%◌, Bool, true, false, String, Option, none, some, ◌>>=◌, List, [], ◌∷◌,
  ltb, nat_beq, if◌then◌else◌, string_eq,
}
use ti_assignment_promise_th.Base.Dict.{Dict, lookup, insert}
use ti_assignment_promise_th.Ratelimit.Gcra.{Time, Decision, Reason, second, rejection}
use ti_assignment_promise_th.Ratelimit.Gcra.Pacing.{Entry}
use ti_assignment_promise_th.Coordinator.{node_share, QuotaState, Mode}
use ti_assignment_promise_th.Coordinator.Static.{ShareKey, key_eq}

pub record FwState : Type 0 where
  pub count : ℕ
  pub window_id : ℕ

pub record FixedWindowLimiter : Type 0 where
  pub windows : Dict String FwState
  pub quota : ℕ

unfoldable pub new_fixed_window_limiter : ℕ → FixedWindowLimiter
new_fixed_window_limiter quota = record { windows = []; quota = quota }

-- now.Unix()
abbrev pub unix : Time → ℕ
unix now = now / second

abbrev pub window_of : Time → ℕ
window_of now = unix now / 60

-- The customer's counter in the window, which starts at 0.
unfoldable pub state_in : FixedWindowLimiter → String → ℕ → FwState
state_in f customer_id wid = elim (lookup customer_id f.windows) [
  | none ↦ record { count = 0; window_id = wid }
  | some st ↦ if nat_beq st.window_id wid then st else record { count = 0; window_id = wid }
]

abbrev pub put_state : FixedWindowLimiter → String → FwState → FixedWindowLimiter
put_state f customer_id st = record f { windows = insert customer_id st f.windows }

-- fixedWindowLimiter.allow
unfoldable pub allow_window : FixedWindowLimiter → String → Time → Decision × FixedWindowLimiter
unfolding state_in rejection
allow_window f customer_id now =
    let st = state_in f customer_id (window_of now) in
    if ltb st.count f.quota
    then (
      record {
        allowed = true;
        remaining = f.quota - (st.count + 1);
        retry_after = 0;
        limit = f.quota;
        reason = Reason.admitted;
      },
      put_state f customer_id (record st { count = st.count + 1 }),
    )
    else (rejection f.quota ((60 - unix now % 60) * second), put_state f customer_id st)

-- A customer's requests in the order in which they take the lock.
unfoldable pub serve_window :
    FixedWindowLimiter → String → List Time → List Entry × FixedWindowLimiter
serve_window f customer_id [] = ([], f)
serve_window f customer_id (now ∷ nows) =
    let r = allow_window f customer_id now in
    let rest = serve_window r.1 customer_id nows in ((now, r.0) ∷ rest.0, rest.1)

pub record FixedWindowStatic : Type 0 where
  pub node_id : String
  pub node_count : ℕ
  pub limiters : Dict ShareKey FixedWindowLimiter

unfoldable pub new_fixed_window_static : String → ℕ → FixedWindowStatic
new_fixed_window_static node_id node_count = record {
  node_id = node_id;
  node_count = node_count;
  limiters = [];
}

-- The limiter of FixedWindowStatic.Allow, made if it is not there.
unfoldable pub limiter_of : FixedWindowStatic → ShareKey → Option FixedWindowLimiter
unfolding new_fixed_window_limiter
limiter_of s key = elim (lookup key s.limiters) [
  | some l ↦ some l
  | none ↦
      node_share key.global_limit s.node_count >>= λ share. some (new_fixed_window_limiter share)
]

-- FixedWindowStatic.Allow
unfoldable pub allow : FixedWindowStatic → String → ℕ → Time → Option (Decision × FixedWindowStatic)
unfolding limiter_of allow_window
allow s customer_id global_limit now =
    let key : ShareKey = record { customer_id = customer_id; global_limit = global_limit } in
    limiter_of s key >>= λ l.
    let r = allow_window l customer_id now in
    some (r.0, record s { limiters = insert key r.1 s.limiters })

-- FixedWindowStatic.QuotaState
pub quota_state : FixedWindowStatic → QuotaState
quota_state s = record {
  node_id = s.node_id;
  mode = Mode.fixedwindow;
  node_count = s.node_count;
  proposer = "";
  is_proposer = false;
  round_number = 0;
  shares = [];
  peers = [];
}
