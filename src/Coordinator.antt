-- ===== src/Coordinator.antt =====
-- The package internal/coordinator: the types of coordinator.go and the strategies behind them.
pub mod Static
pub mod ShareGcra
pub mod Peer
pub mod FixedWindow
mod Tests
use ti_assignment_promise_th.Base.{ℕ, ◌+◌, ◌-◌, ◌≤◌, ◌*◌, ◌≡◌, Bool, String, Option, List, div?}
use ti_assignment_promise_th.Ratelimit.Gcra.{Time}

-- NodeBurst of coordinator.go.
abbrev pub node_burst : ℕ
node_burst = 1

-- One customer's standing on a node.
pub record CustomerShare : Type 0 where
  pub customer_id : String
  pub global_limit : ℕ
  pub node_share : ℕ
  pub last_updated : Time

pub record PeerHealth : Type 0 where
  pub node_id : String
  pub reachable : Bool
  pub last_seen : Time

pub data Mode : Type 0 where
  static peer fixedwindow : Mode

-- The body of /internal/quota-state.
pub record QuotaState : Type 0 where
  pub node_id : String
  pub mode : Mode
  pub node_count : ℕ
  pub proposer : String
  pub is_proposer : Bool
  pub round_number : ℕ
  pub shares : List CustomerShare
  pub peers : List PeerHealth

-- nodeShare of static.go, which NewPeer and the fixed-window limiter use too.
unfoldable pub node_share : ℕ → ℕ → Option ℕ
node_share global_limit node_count = div? (global_limit + node_count - 1) node_count
