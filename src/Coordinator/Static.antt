-- ===== src/Coordinator/Static.antt =====
-- internal/coordinator/static.go: a fixed share of each limit, one limiter for each pair of a
-- customer and a limit. The mutexes make limiterFor and AllowAt atomic, and a limiter is never
-- replaced, so a call of Allow is one step. Limits are the positive numbers that package policy
-- hands over.
pub mod Share
pub mod Window
pub mod Cluster
use ti_assignment_promise_th.Base.{
  ℕ, ◌≡◌, ◌↔◌, Bool, true, false, ◌&&◌, String, Option, none, some, ◌>>=◌, List, [], ◌∷◌, ◌==◌,
  if◌then◌else◌, arith, Eq, string_eq, nat_beq_iff, nat_beq, leb, ltb,
}
use ti_assignment_promise_th.Base.Dict.{Dict, lookup, insert}
use ti_assignment_promise_th.Ratelimit.Gcra.{Time, Decision, Params, minute, zero_time}
use ti_assignment_promise_th.Ratelimit.Limiter.{Limiter, new_limiter, allow_at}
use ti_assignment_promise_th.Coordinator.{node_burst, node_share, CustomerShare, QuotaState, Mode}

pub record ShareKey : Type 0 where
  pub customer_id : String
  pub global_limit : ℕ

abbrev key_beq : ShareKey → ShareKey → Bool
key_beq a b = a.customer_id == b.customer_id && nat_beq a.global_limit b.global_limit

pub key_beq_iff : (a b : ShareKey) → (key_beq a b ≡ true) ↔ (a ≡ b)
key_beq_iff a b = ground (
  arith,
  string_eq.beq_iff a.customer_id b.customer_id,
  nat_beq_iff a.global_limit b.global_limit,
)

instance abbrev pub key_eq : Eq ShareKey
key_eq = record { beq = key_beq; beq_iff = key_beq_iff }

pub record Static : Type 0 where
  pub node_id : String
  pub node_count : ℕ
  pub limiters : Dict ShareKey Limiter

-- NewStatic; `none` is its panic on a count below 1.
unfoldable pub new_static : String → ℕ → Option Static
new_static node_id node_count =
    if ltb node_count 1
    then none
    else some (record { node_id = node_id; node_count = node_count; limiters = [] })

abbrev pub share_params : ℕ → Params
share_params share = record { quota = share; period = minute; burst = node_burst }

-- limiterFor: the key's limiter, made if it is not there.
unfoldable pub limiter_for : Static → ShareKey → Option (Limiter × Static)
limiter_for s key = elim (lookup key s.limiters) [
  | some l ↦ some (l, s)
  | none ↦ node_share key.global_limit s.node_count >>= λ share.
      let l = new_limiter (share_params share) in
      some (l, record s { limiters = insert key l s.limiters })
]

module _ (fnv32a : String → ℕ) where
  -- Allow. The limiter is shared by reference: what AllowAt does to it shows in the map.
  unfoldable pub allow : Static → String → ℕ → Time → Option (Decision × Static)
  unfolding limiter_for
  allow s customer_id global_limit now =
      let key : ShareKey = record { customer_id = customer_id; global_limit = global_limit } in
      limiter_for s key >>= λ found. allow_at fnv32a found.0 customer_id now >>= λ r.
      some (r.0, record found.1 { limiters = insert key r.1 found.1.limiters })

shares_of : ℕ → Dict ShareKey Limiter → Option (List CustomerShare)
shares_of node_count [] = some []
shares_of node_count ((key, l) ∷ m) = do
  share ← node_share key.global_limit node_count
  rest ← shares_of node_count m
  some (
      record {
        customer_id = key.customer_id;
        global_limit = key.global_limit;
        node_share = share;
        last_updated = zero_time;
      }
      ∷ rest)

-- QuotaState, in the order of the map's entries; Go's order is not specified.
pub quota_state : Static → Option QuotaState
unfolding shares_of
quota_state s = do
  shares ← shares_of s.node_count s.limiters
  some (record {
    node_id = s.node_id;
    mode = Mode.static;
    node_count = s.node_count;
    proposer = "";
    is_proposer = false;
    round_number = 0;
    shares = shares;
    peers = [];
  })
