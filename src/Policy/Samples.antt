-- ===== src/Policy/Samples.antt =====
-- A config in the shape of configs/customers.yaml that Validate (internal/policy/config.go)
-- accepts, and a package time that reads the texts of this config only.
use ti_assignment_promise_th.Base.{
  ℕ, ◌+◌, ◌-◌, ◌*◌, ◌%◌, ◌≤◌, ◌<◌, ◌≡◌, refl, String, Option, none, some, [], ◌∷◌, ◌==◌, string_eq,
  if◌then◌else◌, arith,
}
use ti_assignment_promise_th.Base.Dict.{lookup, lookup_or, insert}
use ti_assignment_promise_th.Base.Int.{pos}
use ti_assignment_promise_th.Ratelimit.Gcra.{Time}
use ti_assignment_promise_th.Policy.Result.{ok}
use ti_assignment_promise_th.Policy.Config.{
  CustomerConfig, OverrideConfig, Config, TimeLib, day, validate, check_customers, check_overrides,
  windows_by_customer, check_windows, contracted_limit, check_customer, check_override, window_of,
  has_overlap, clashes_any, tier_or_zero, offset_of,
}

abbrev pub hhmm : String → Option (ℕ × ℕ)
hhmm s = if s == "02:00" then some (2, 0) else if s == "04:00" then some (4, 0) else none

pub hhmm_range : (s : String) (h m : ℕ) → hhmm s ≡ some (h, m) → (h < 24) × (m < 60)
hhmm_range s h m e = ground arith

pub day-le : (t : Time) → t - t % day ≤ t
day-le t = omega arith

pub lt-day : (t : Time) → t < t - t % day + day
lt-day t = omega arith

abbrev pub small_time : TimeLib
small_time = record {
  parse_date = λ s. if s == "0001-01-11" then some (10 * day) else none;
  parse_hhmm = hhmm;
  hhmm_range = hhmm_range;
  start_of_day = λ t. t - t % day;
  start_of_day-le = day-le;
  lt-start_of_day = lt-day;
}

abbrev pub northwind : CustomerConfig
northwind = record { id = "northwind"; tier = "enterprise"; limit_rpm = pos 300 }

abbrev pub acme : CustomerConfig
acme = record { id = "acme"; tier = "growth"; limit_rpm = pos 0 }

abbrev pub batch : OverrideConfig
batch = record {
  customer = "northwind";
  limit_rpm = pos 1250;
  window = record { start_utc = "02:00"; end_utc = "04:00"; grace_minutes = pos 60 };
  expires = "0001-01-11";
  ticket = "OPS-4821";
  reason = "nightly batch";
  expires_at = 0;
}

abbrev pub written : Config
written = record {
  tiers = ("growth", record { rpm = pos 300 }) ∷ ("enterprise", record { rpm = pos 0 }) ∷ [];
  customers = acme ∷ northwind ∷ [];
  overrides = batch ∷ [];
}

abbrev pub served_batch : OverrideConfig
served_batch = record batch { expires_at = 10 * day }

abbrev pub served : Config
served = record written { overrides = served_batch ∷ [] }

pub validated : validate small_time written day ≡ ok served
unfolding validate check_customers check_overrides windows_by_customer check_windows
    contracted_limit check_customer check_override window_of has_overlap clashes_any tier_or_zero
    offset_of lookup lookup_or insert
validated = refl
