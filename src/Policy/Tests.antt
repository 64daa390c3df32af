-- ===== src/Policy/Tests.antt =====
-- The policy theorems (internal/policy) at a config in the shape of configs/customers.yaml, with a
-- package time that reads the texts of this config only.
use ti_assignment_promise_th.Base.{
  ◌+◌, ◌*◌, ◌≡◌, ◌⊎◌, refl, String, Option, none, some, [], ◌∷◌, ◌==◌, string_eq, if◌then◌else◌,
  count_if,
}
use ti_assignment_promise_th.Base.Int.{pos, ◌≤ℤ◌}
use ti_assignment_promise_th.Ratelimit.Gcra.{Time}
use ti_assignment_promise_th.Policy.Result.{ok, err, ConfigError}
use ti_assignment_promise_th.Policy.Config.{
  Config, OverrideConfig, day, hour, offset_of, validate, check_customers, check_overrides,
  windows_by_customer, check_windows, contracted_limit, check_customer, check_override, window_of,
  has_overlap, clashes_any, tier_or_zero,
}
use ti_assignment_promise_th.Base.Dict.{lookup, lookup_or, insert}
use ti_assignment_promise_th.Policy.Windows.{in_force}
use ti_assignment_promise_th.Policy.Resolver.{
  Resolver, resolve, reload, find_customer, override_applied, active_at,
}
use ti_assignment_promise_th.Policy.Samples.{
  small_time, northwind, batch, served_batch, written, served, validated,
}
use ti_assignment_promise_th.Policy.Validate.{IsValid, validate-IsValid}
use ti_assignment_promise_th.Policy.Limits.{
  resolve_known, contract, Resolves, resolve-in_force, reload_safe,
}

validate-IsValid_example :
    IsValid small_time day served
    × (served.tiers ≡ written.tiers)
    × (served.customers ≡ written.customers)
validate-IsValid_example = validate-IsValid small_time written day validated

-- Half past two in the night of the third day.
abbrev night : Time
night = 2 * day + 2 * hour + 1800000000000

abbrev resolver : Resolver
resolver = record { cfg = served }

served-IsValid : IsValid small_time day served
served-IsValid = (validate-IsValid small_time written day validated).0

resolve_known_example :
    (pos 1 ≤ℤ contract small_time served northwind)
    × (contract small_time served northwind
        ≤ℤ (resolve small_time resolver "northwind" night).0.limit)
    × Resolves small_time served "northwind" northwind night
        (resolve small_time resolver "northwind" night)
resolve_known_example =
    resolve_known small_time resolver day "northwind" night northwind served-IsValid
      (unfold find_customer in refl)

resolve-in_force_example :
    (resolve small_time resolver "northwind" night).0
    ≡ record { limit = pos 1250; reason = override_applied }
resolve-in_force_example =
    resolve-in_force small_time resolver day "northwind" night northwind [] [] served_batch
      served-IsValid (unfold offset_of in refl, tt) (unfold find_customer in refl) refl
      (unfold active_at offset_of in refl)

-- A file system that holds one good config.
abbrev disk : String → Option Config
disk path = if path == "customers.yaml" then some written else none

reload_safe_example :
    (((reload small_time disk resolver "missing.yaml" day).1 ≡ ok tt)
      × IsValid small_time day (reload small_time disk resolver "missing.yaml" day).0.cfg)
    ⊎ ((x : ConfigError) × ((reload small_time disk resolver "missing.yaml" day).1 ≡ err x)
        × ((reload small_time disk resolver "missing.yaml" day).0 ≡ resolver))
reload_safe_example = reload_safe small_time disk resolver "missing.yaml" day

-- With a grace this long the end of the window wraps around, in Validate only.
abbrev endless : OverrideConfig
endless = record batch {
  window = record { start_utc = "02:00"; end_utc = "04:00"; grace_minutes = pos 153722867 };
}

abbrev served_endless : OverrideConfig
served_endless = record endless { expires_at = 10 * day }

-- Validate accepts the same override twice, and both are in force at once.
endless-validated :
    validate small_time (record written { overrides = endless ∷ endless ∷ [] }) day
    ≡ ok (record written { overrides = served_endless ∷ served_endless ∷ [] })
unfolding validate check_customers check_overrides windows_by_customer check_windows
    contracted_limit check_customer check_override window_of has_overlap clashes_any tier_or_zero
    offset_of lookup lookup_or insert
endless-validated = refl

endless-twice :
    count_if (in_force small_time "northwind" night) (served_endless ∷ served_endless ∷ []) ≡ 2
unfolding active_at offset_of
endless-twice = refl
