-- ===== src/Policy/Resolver.antt =====
-- internal/policy/resolver.go and the event of internal/audit/audit.go. The atomic pointer makes
-- each call see one whole config, so Reload and Resolve are single steps on the state.
use ti_assignment_promise_th.Base.{
  ◌+◌, Bool, false, not, ◌&&◌, ◌||◌, String, Option, none, some, List, [], ◌∷◌, ◌==◌, if◌then◌else◌,
  ltb, string_eq,
}
use ti_assignment_promise_th.Base.Int.{ℤ, pos, ◌+ℤ◌, ltb_ℤ}
use ti_assignment_promise_th.Ratelimit.Gcra.{Time}
use ti_assignment_promise_th.Policy.Result.{Result, ok, err, ◌>>=◌, or_fail, load_failed}
use ti_assignment_promise_th.Policy.Config.{
  Config, CustomerConfig, TierConfig, OverrideConfig, TimeLib, contracted_limit, tier_or_zero,
  offset_of, grace_of, validate,
}

pub data Reason : Type 0 where
  tier_default override_applied unknown_customer : Reason

-- policy.Decision.
pub record Resolution : Type 0 where
  pub limit : ℤ
  pub reason : Reason

-- audit.OverrideApplied.
pub record OverrideApplied : Type 0 where
  pub customer_id : String
  pub contracted_limit_rpm : ℤ
  pub effective_limit_rpm : ℤ
  pub override_ticket : String
  pub window_start : Time
  pub window_end : ℤ  -- before time zero where the grace wraps around

pub record Resolver : Type 0 where
  pub cfg : Config

-- The loop of Config.lookup.
unfoldable pub find_customer : String → List CustomerConfig → Option CustomerConfig
find_customer id [] = none
find_customer id (cust ∷ rest) = if cust.id == id then some cust else find_customer id rest

-- Config.lookup.
unfoldable pub lookup_customer : Config → String → Option (CustomerConfig × TierConfig)
unfolding find_customer
lookup_customer c id = elim (find_customer id c.customers) [
  | none ↦ none
  | some cust ↦ some (cust, tier_or_zero c.tiers cust.tier)
]

module _ (time : TimeLib) where
  -- The window's instants on the UTC day of `now`, the grace included.
  unfoldable pub instants_for : OverrideConfig → Time → Time × ℤ
  instants_for o now =
      let start_of_day = time.start_of_day now in
      (
        start_of_day + offset_of time o.window.start_utc,
        pos (start_of_day + offset_of time o.window.end_utc) +ℤ grace_of time o,
      )

  unfoldable pub active_at : OverrideConfig → Time → Bool
  unfolding instants_for
  active_at o now =
      let (start, end) = instants_for o now in
      if not (ltb now o.expires_at) then false else not (ltb now start) && ltb_ℤ (pos now) end

  -- The loop over the overrides, up to the first that is the customer's and in force.
  unfoldable pub find_override : String → Time → List OverrideConfig → Option OverrideConfig
  find_override customer_id now [] = none
  find_override customer_id now (o ∷ rest) =
      if not (o.customer == customer_id) || not (active_at o now)
      then find_override customer_id now rest
      else some o

  -- Resolve, with the audit events that it logs.
  unfoldable pub resolve : Resolver → String → Time → Resolution × List OverrideApplied
  unfolding find_override
  resolve r customer_id now = elim (lookup_customer r.cfg customer_id) [
    | none ↦ (record { limit = pos 0; reason = unknown_customer }, [])
    | some found ↦
        let contracted = contracted_limit found.0 found.1 in
        elim (find_override customer_id now r.cfg.overrides) [
          | none ↦ (record { limit = contracted; reason = tier_default }, [])
          | some o ↦
              let instants = instants_for o now in
              (
                record { limit = o.limit_rpm; reason = override_applied },
                record {
                  customer_id = customer_id;
                  contracted_limit_rpm = contracted;
                  effective_limit_rpm = o.limit_rpm;
                  override_ticket = o.ticket;
                  window_start = instants.0;
                  window_end = instants.1;
                }
                    ∷ [],
              )
        ]
  ]

  -- Reading and parsing a file, LoadConfig, is the parameter `load_config`; `now` is the clock's
  -- time.
  module _ (load_config : String → Option Config) where
    -- Validate what is at the path.
    unfoldable pub load_valid : String → Time → Result Config
    load_valid path now = do cfg ← or_fail (load_config path) load_failed; validate time cfg now

    unfoldable pub new_resolver : String → Time → Result Resolver
    new_resolver path now = do cfg ← load_valid path now; ok (record { cfg = cfg })

    -- Reload: the resolver afterwards, and the error where there is one.
    unfoldable pub reload : Resolver → String → Time → Resolver × Result (Unit {0})
    reload r path now = elim (load_valid path now) [
      | err e ↦ (r, err e)
      | ok cfg ↦ (record { cfg = cfg }, ok tt)
    ]
