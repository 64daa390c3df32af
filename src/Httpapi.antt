-- ===== src/Httpapi.antt =====
-- internal/httpapi/server.go: handlePing over the resolver and any coordinator, its headers, and
-- the seconds of Retry-After. Log lines and the JSON encoding are left out.
pub mod Answers
pub mod Serve
pub mod Cluster
pub mod Peers
mod Tests
use ti_assignment_promise_th.Base.{
  ℕ, ◌+◌, ◌/◌, ◌%◌, Bool, true, false, String, Option, none, some, ◌>>=◌, List, [], ◌∷◌, ◌==◌,
  if◌then◌else◌, nat_beq, ltb, string_eq,
}
use ti_assignment_promise_th.Base.Int.{ℤ}
use ti_assignment_promise_th.Ratelimit.Gcra.{Time, Duration, Decision, second, minute}
use ti_assignment_promise_th.Coordinator.{QuotaState}
use ti_assignment_promise_th.Policy.Config.{TimeLib}
use ti_assignment_promise_th.Policy.Resolver.{
  Resolver, Resolution, Reason, OverrideApplied, resolve,
}

-- coordinator.Coordinator, what handlePing uses of it; `none` is a panic.
pub record Coordinator (S : Type 0) : Type 0 where
  pub allow : S → String → ℤ → Time → Option (Decision × S)

pub record Server (S : Type 0) : Type 0 where
  pub node_id : String
  pub resolver : Resolver
  pub coord : S

pub data Body : Type 0 where
  missing_customer_id unknown_customer rate_exceeded healthy : Body
  pong : String → Body

-- NewServer. The clock and the logger are not part of the state.
unfoldable pub new_server : {S : Type 0} → String → Resolver → S → Server S
new_server node_id resolver coord = record { node_id = node_id; resolver = resolver; coord = coord }

-- A response: the status, the headers that are set, and the body.
pub record Response : Type 0 where
  pub status : ℕ
  pub x_node_id : String
  pub x_ratelimit_limit : Option ℤ
  pub x_ratelimit_remaining : Option ℕ
  pub x_ratelimit_reset : Option ℕ
  pub retry_after : Option ℕ
  pub body : Body

unfoldable pub ceil_seconds : Duration → ℕ
ceil_seconds d = if nat_beq (d % second) 0 then d / second else d / second + 1

-- jitteredRetryAfterSeconds, for the random `jitter` that is drawn for a base.
unfoldable pub jittered_retry_after_seconds : (Duration → Duration) → Duration → ℕ
unfolding ceil_seconds
jittered_retry_after_seconds jitter d =
    let base = if nat_beq d 0 then second else d in ceil_seconds (base + jitter base)

-- X-RateLimit-Reset in writeRateLimitHeaders.
unfoldable pub reset_seconds : Decision → ℕ
unfolding ceil_seconds
reset_seconds d =
    if d.allowed
    then (if ltb 0 d.limit then ceil_seconds (minute / d.limit) else 0)
    else ceil_seconds d.retry_after

-- writeJSONError before any rate limit header is set.
unfoldable pub refusal : String → ℕ → Body → Response
refusal node_id status body = record {
  status = status;
  x_node_id = node_id;
  x_ratelimit_limit = none;
  x_ratelimit_remaining = none;
  x_ratelimit_reset = none;
  retry_after = none;
  body = body;
}

-- handleHealthz.
unfoldable pub handle_healthz : String → Response
unfolding refusal
handle_healthz node_id = refusal node_id 200 healthy

-- handleQuotaState: the status and the state that is sent; `none` is a panic of the coordinator's.
unfoldable pub handle_quota_state {ℓ} :
    {S : Type ℓ} → (S → Option QuotaState) → S → Option (ℕ × QuotaState)
handle_quota_state quota_state coord = quota_state coord >>= λ q. some (200, q)

-- The handlers, two of them the peer strategy's.
pub data Handler : Type 0 where
  ping quota_state healthz coordinator_status coordinator_apply_share : Handler

-- RegisterRoutes of internal/coordinator/peer.go.
pub register_routes : List (String × Handler)
register_routes =
    ("GET /internal/coordinator/status", coordinator_status)
    ∷ ("POST /internal/coordinator/apply-share", coordinator_apply_share)
    ∷ []

-- Routes, for a coordinator that has routes of its own or has none.
pub routes : Bool → List (String × Handler)
unfolding register_routes
routes has_own =
    ("GET /api/v1/ping", ping)
    ∷ ("GET /internal/quota-state", quota_state)
    ∷ ("GET /internal/healthz", healthz)
    ∷ (if has_own then register_routes else [])

-- What handlePing answers once the coordinator has decided.
unfoldable pub respond : (Duration → Duration) → String → String → ℤ → Decision → Response
unfolding reset_seconds jittered_retry_after_seconds
respond jitter node_id customer_id limit d = record {
  status = if d.allowed then 200 else 429;
  x_node_id = node_id;
  x_ratelimit_limit = some limit;
  x_ratelimit_remaining = some d.remaining;
  x_ratelimit_reset = some (reset_seconds d);
  retry_after =
      if d.allowed then none else some (jittered_retry_after_seconds jitter d.retry_after);
  body = if d.allowed then pong customer_id else rate_exceeded;
}

unfoldable pub is_unknown : Reason → Bool
is_unknown Reason.unknown_customer = true
is_unknown _ = false

module _ {S : Type 0} (time : TimeLib) (coordinator : Coordinator S)
    (jitter : Duration → Duration) where
  -- handlePing: the response, the server afterwards and the audit events; a header that is missing
  -- is the empty name.
  unfoldable pub handle_ping :
      Server S → String → Time → Option (Response × Server S × List OverrideApplied)
  unfolding refusal respond is_unknown
  handle_ping s customer_id now =
      let resolved = resolve time s.resolver customer_id now in
      if customer_id == ""
      then some (refusal s.node_id 400 missing_customer_id, s, [])
      else if is_unknown resolved.0.reason
      then some (refusal s.node_id 403 unknown_customer, s, resolved.1)
      else (coordinator.allow s.coord customer_id resolved.0.limit now >>= λ r. some (
        respond jitter s.node_id customer_id resolved.0.limit r.0,
        record s { coord = r.1 },
        resolved.1,
      ))
