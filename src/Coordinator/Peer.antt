-- ===== src/Coordinator/Peer.antt =====
-- internal/coordinator/peer.go, one node: its state, NewPeer, customerFor, Allow, the status it
-- reports and the handler of apply-share. A method holds the mutex, so it is one step. A base URL
-- is a name that only the transport reads, a round number is a uint64, and the demand is reset at
-- every poll and stays small. The proposer's smoothed demand, which other nodes never touch, is in
-- Round.
pub mod Split
mod Tests
pub mod Fence
pub mod History
pub mod Round
pub mod Tick
use ti_assignment_promise_th.Base.{
  ℕ, ◌+◌, ◌≡◌, Bool, true, false, not, ◌⊎◌, inl, inr, String, Option, none, some, ◌>>=◌, List, [],
  ◌∷◌, ◌==◌, if◌then◌else◌, string_eq, ltb, leb, nat_beq,
}
use ti_assignment_promise_th.Base.Dict.{Dict, lookup, insert}
use ti_assignment_promise_th.Ratelimit.Gcra.{Time, Duration, Decision, minute, second, zero_time}
use ti_assignment_promise_th.Coordinator.{node_share, CustomerShare, PeerHealth, QuotaState, Mode}
use ti_assignment_promise_th.Coordinator.ShareGcra.{
  ShareState, new_share_state, set_quota, current_quota,
}
use ti_assignment_promise_th.Coordinator.ShareGcra as ShareGcra

pub record PeerConfig : Type 0 where
  pub node_id : String
  pub node_count : ℕ
  pub peers : Dict String String
  pub proposer : String
  pub period : Duration
  pub poll_interval : Duration
  pub ack_timeout : Duration

pub record CustomerState : Type 0 where
  pub share : ShareState
  pub demand : ℕ
  pub global_limit : ℕ
  pub last_applied : ℕ
  pub last_updated : Time

pub record Peer : Type 0 where
  pub cfg : PeerConfig
  pub customers : Dict String CustomerState
  pub peer_health : Dict String PeerHealth

pub data PeerError : Type 0 where
  no_node_id no_nodes self_not_in_peers no_proposer proposer_not_in_peers : PeerError

abbrev pub or_default : Duration → Duration → Duration
or_default default d = if nat_beq d 0 then default else d

abbrev pub is_listed : PeerConfig → String → Bool
is_listed cfg id = elim (lookup id cfg.peers) [ none ↦ false | some url ↦ true ]

-- NewPeer. The default HTTP client and logger are not part of the state.
unfoldable pub new_peer : PeerConfig → PeerError ⊎ Peer
new_peer cfg =
    if cfg.node_id == ""
    then inl no_node_id
    else if ltb cfg.node_count 1
    then inl no_nodes
    else if not (is_listed cfg cfg.node_id)
    then inl self_not_in_peers
    else if cfg.proposer == ""
    then inl no_proposer
    else if not (is_listed cfg cfg.proposer)
    then inl proposer_not_in_peers
    else inr (record {
      cfg = record cfg {
        period = or_default minute cfg.period;
        poll_interval = or_default second cfg.poll_interval;
        ack_timeout = or_default 400000000 cfg.ack_timeout;
      };
      customers = [];
      peer_health = [];
    })

abbrev pub is_proposer : Peer → Bool
is_proposer p = p.cfg.node_id == p.cfg.proposer

abbrev pub put_customer : Peer → String → CustomerState → Peer
put_customer p id cs = record p { customers = insert id cs p.customers }

-- The share that a node starts a customer with; 0 is a limit that is not known.
unfoldable pub bootstrap : ℕ → ℕ → Option ℕ
bootstrap global_limit node_count =
    if ltb 0 global_limit then node_share global_limit node_count else some 1

-- customerFor: the customer's state, made or told the limit, and the node that holds it.
unfoldable pub customer_for : Peer → String → ℕ → Option (CustomerState × Peer)
unfolding bootstrap
customer_for p id global_limit = elim (lookup id p.customers) [
  | none ↦ bootstrap global_limit p.cfg.node_count >>= λ initial.
      let cs : CustomerState = record {
        share = new_share_state initial;
        demand = 0;
        global_limit = global_limit;
        last_applied = 0;
        last_updated = zero_time;
      } in
      some (cs, put_customer p id cs)
  | some cs ↦
      let told = record cs {
        global_limit = if ltb 0 global_limit then global_limit else cs.global_limit;
      } in
      some (told, put_customer p id told)
]

-- Allow.
unfoldable pub allow : Peer → String → ℕ → Time → Option (Decision × Peer)
unfolding customer_for
allow p id global_limit now = customer_for p id global_limit >>= λ found.
    ShareGcra.allow found.0.share now p.cfg.period >>= λ r.
    some
      (r.0, put_customer found.1 id (record found.0 { share = r.1; demand = found.0.demand + 1 }))

pub record CustomerStatus : Type 0 where
  pub share : ℕ
  pub global_limit : ℕ
  pub demand : ℕ

pub record StatusResponse : Type 0 where
  pub node_id : String
  pub customers : Dict String CustomerStatus

-- One entry of the status.
unfoldable pub report : CustomerState → CustomerStatus
report cs = record {
  share = current_quota cs.share;
  global_limit = cs.global_limit;
  demand = cs.demand;
}

unfoldable pub report_all : Dict String CustomerState → Dict String CustomerStatus
unfolding report
report_all [] = []
report_all ((id, cs) ∷ m) = (id, report cs) ∷ report_all m

unfoldable pub reset_demand : Dict String CustomerState → Dict String CustomerState
reset_demand [] = []
reset_demand ((id, cs) ∷ m) = (id, record cs { demand = 0 }) ∷ reset_demand m

-- localStatus, and the body that handleStatus answers with: the read resets the demand.
unfoldable pub local_status : Peer → StatusResponse × Peer
unfolding report_all reset_demand
local_status p = (
  record { node_id = p.cfg.node_id; customers = report_all p.customers },
  record p { customers = reset_demand p.customers },
)

pub record ApplyShareRequest : Type 0 where
  pub customer_id : String
  pub round : ℕ
  pub quota : ℕ

pub data ApplyShareResponse : Type 0 where
  applied stale_round bad_request : ApplyShareResponse

-- What handleApplyShare does with a decoded body, and applyShare on its own node: rounds up to the
-- last one applied are refused.
unfoldable pub apply_local : Peer → Time → ApplyShareRequest → Option (ApplyShareResponse × Peer)
unfolding customer_for
apply_local p now req = customer_for p req.customer_id 0 >>= λ found.
    if leb req.round found.0.last_applied
    then some (stale_round, found.1)
    else some (
      applied,
      put_customer found.1 req.customer_id (record found.0 {
        share = set_quota found.0.share req.quota;
        last_applied = req.round;
        last_updated = now;
      }),
    )

-- handleApplyShare; `none` is a body that does not decode, which is answered with status 400.
unfoldable pub handle_apply_share :
    Peer → Time → Option ApplyShareRequest → Option (ApplyShareResponse × Peer)
unfolding apply_local
handle_apply_share p now none = some (bad_request, p)
handle_apply_share p now (some req) = apply_local p now req

-- recordHealth.
unfoldable pub record_health : Peer → String → Bool → Time → Peer
record_health p id is_up now =
    let last : Time = elim (lookup id p.peer_health) [ none ↦ zero_time | some h ↦ h.last_seen ] in
    let h : PeerHealth = record {
      node_id = id;
      reachable = is_up;
      last_seen = if is_up then now else last;
    } in
    record p { peer_health = insert id h p.peer_health }

shares_of : Dict String CustomerState → List CustomerShare
shares_of [] = []
shares_of ((id, cs) ∷ m) =
    record {
      customer_id = id;
      global_limit = cs.global_limit;
      node_share = current_quota cs.share;
      last_updated = cs.last_updated;
    }
    ∷ shares_of m

max_round : Dict String CustomerState → ℕ
max_round [] = 0
max_round ((id, cs) ∷ m) =
    let rest = max_round m in if ltb rest cs.last_applied then cs.last_applied else rest

health_of : Dict String PeerHealth → List PeerHealth
health_of [] = []
health_of ((id, h) ∷ m) = h ∷ health_of m

-- QuotaState, with the entries in the maps' order, before sort.Slice puts them in the ids' order.
pub quota_state : Peer → QuotaState
unfolding shares_of max_round health_of
quota_state p = record {
  node_id = p.cfg.node_id;
  mode = Mode.peer;
  node_count = p.cfg.node_count;
  proposer = p.cfg.proposer;
  is_proposer = is_proposer p;
  round_number = max_round p.customers;
  shares = shares_of p.customers;
  peers = health_of p.peer_health;
}
