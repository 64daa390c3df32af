-- ===== src/Policy/Config.antt =====
-- internal/policy/config.go: the configuration and Validate. Parsing a time is package time's work
-- and enters by the interface TimeLib.
use ti_assignment_promise_th.Base.{
  ℕ, ◌+◌, ◌*◌, ◌≤◌, ◌<◌, ◌≡◌, Bool, true, false, not, ◌&&◌, ◌||◌, String, Option, none, some, List,
  [], ◌∷◌, ◌++◌, ◌==◌, if◌then◌else◌, ltb, leb, string_eq,
}
use ti_assignment_promise_th.Base.Dict.{Dict, lookup, lookup_or, insert}
use ti_assignment_promise_th.Base.Int.{ℤ, pos, ltb_ℤ, leb_ℤ, is_zero, ◌+ℤ◌, scale, int64}
use ti_assignment_promise_th.Ratelimit.Gcra.{Time, Duration, minute}
use ti_assignment_promise_th.Policy.Result.{
  Result, ok, ◌>>=◌, ◌>>◌, fail_if, or_fail, no_tiers, customer_without_id, duplicate_customer,
  undefined_tier, negative_tier_rpm, negative_customer_limit, no_limit, two_limits,
  override_without_customer, unknown_override_customer, no_ticket, no_reason, no_expiry, bad_expiry,
  expired, non_positive_limit, does_not_raise, bad_window_start, bad_window_end, window_not_after,
  negative_grace, overlapping_windows,
}

pub record TierConfig : Type 0 where
  pub rpm : ℤ

pub record CustomerConfig : Type 0 where
  pub id : String
  pub tier : String
  pub limit_rpm : ℤ

pub record DailyWindow : Type 0 where
  pub start_utc : String
  pub end_utc : String
  pub grace_minutes : ℤ

pub record OverrideConfig : Type 0 where
  pub customer : String
  pub limit_rpm : ℤ
  pub window : DailyWindow
  pub expires : String
  pub ticket : String
  pub reason : String
  pub expires_at : Time  -- set by `validate`

pub record Config : Type 0 where
  pub tiers : Dict String TierConfig
  pub customers : List CustomerConfig
  pub overrides : List OverrideConfig

abbrev pub day : Duration
day = 86400000000000

abbrev pub hour : Duration
hour = 3600000000000

-- What the package uses of Go's package time.
pub record TimeLib : Type 0 where
  -- time.Parse("2006-01-02", s), an instant in UTC.
  pub parse_date : String → Option Time
  -- time.Parse("15:04", s): the hour and the minute.
  pub parse_hhmm : String → Option (ℕ × ℕ)
  pub hhmm_range : (s : String) (h m : ℕ) → parse_hhmm s ≡ some (h, m) → (h < 24) × (m < 60)
  -- time.Date(y, m, d, 0, 0, 0, 0, time.UTC) at the UTC date of an instant.
  pub start_of_day : Time → Time
  pub start_of_day-le : (t : Time) → start_of_day t ≤ t
  pub lt-start_of_day : (t : Time) → t < start_of_day t + day

abbrev pub is_some {ℓ} : {A : Type ℓ} → Option A → Bool
is_some none = false
is_some (some a) = true

abbrev pub is_empty {ℓ} : {A : Type ℓ} → List A → Bool
is_empty [] = true
is_empty (x ∷ xs) = false

-- c.Tiers[name], the zero tier where the name is missing.
unfoldable pub tier_or_zero : Dict String TierConfig → String → TierConfig
tier_or_zero tiers name = lookup_or (record { rpm = pos 0 }) name tiers

unfoldable pub contracted_limit : CustomerConfig → TierConfig → ℤ
contracted_limit cust tier = if not (is_zero cust.limit_rpm) then cust.limit_rpm else tier.rpm

-- The body of Validate's loop over the customers.
unfoldable pub check_customer :
    Dict String TierConfig → Dict String CustomerConfig → ℕ → CustomerConfig → Result (Unit {0})
check_customer tiers by_id i cust = do
  fail_if (cust.id == "") (customer_without_id i)
  fail_if (is_some (lookup cust.id by_id)) (duplicate_customer cust.id)
  tier ← or_fail (lookup cust.tier tiers) (undefined_tier cust.id cust.tier)
  fail_if (ltb_ℤ tier.rpm (pos 0)) (negative_tier_rpm cust.tier)
  fail_if (ltb_ℤ cust.limit_rpm (pos 0)) (negative_customer_limit cust.id)
  fail_if (is_zero tier.rpm && is_zero cust.limit_rpm) (no_limit cust.id cust.tier)
  fail_if (not (is_zero tier.rpm) && not (is_zero cust.limit_rpm)) (two_limits cust.id cust.tier)

-- The loop, which builds customersByID.
unfoldable pub check_customers :
    Dict String TierConfig
    → Dict String CustomerConfig
    → ℕ
    → List CustomerConfig
    → Result (Dict String CustomerConfig)
check_customers tiers by_id i [] = ok by_id
check_customers tiers by_id i (cust ∷ rest) =
    check_customer tiers by_id i cust
    >> check_customers tiers (insert cust.id cust by_id) (i + 1) rest

-- The local type `window` of Validate.
pub record Window : Type 0 where
  pub start : ℤ
  pub end : ℤ

unfoldable pub clash : Window → Window → Bool
clash a b = ltb_ℤ a.start b.end && ltb_ℤ b.start a.end

unfoldable pub clashes_any : Window → List Window → Bool
unfolding clash
clashes_any w [] = false
clashes_any w (v ∷ vs) = clash w v || clashes_any w vs

-- The two loops over i < j.
unfoldable pub has_overlap : List Window → Bool
has_overlap [] = false
has_overlap (w ∷ ws) = clashes_any w ws || has_overlap ws

-- The loop over byCustomer. Go takes its keys in no order, so which customer the error names is not
-- determined if several clash.
unfoldable pub check_windows : Dict String (List Window) → Result (Unit {0})
check_windows [] = ok tt
check_windows ((customer, ws) ∷ rest) =
    fail_if (has_overlap ws) (overlapping_windows customer) >> check_windows rest

module _ (time : TimeLib) where
  unfoldable pub parse_time_of_day : String → Option Duration
  parse_time_of_day s = elim (time.parse_hhmm s) [
    | none ↦ none
    | some t ↦ some (t.0 * hour + t.1 * minute)
  ]

  -- The body of Validate's loop over the overrides; the result has expiresAt set.
  unfoldable pub check_override :
      Dict String TierConfig
      → Dict String CustomerConfig
      → Time
      → ℕ
      → OverrideConfig
      → Result OverrideConfig
  check_override tiers by_id now i o = do
    fail_if (o.customer == "") (override_without_customer i)
    cust ← or_fail (lookup o.customer by_id) (unknown_override_customer o.customer)
    fail_if (o.ticket == "") (no_ticket o.customer)
    fail_if (o.reason == "") (no_reason o.customer)
    fail_if (o.expires == "") (no_expiry o.customer)
    expires_at ← or_fail (time.parse_date o.expires) (bad_expiry o.customer)
    fail_if (not (ltb now expires_at)) (expired o.customer)
    fail_if (leb_ℤ o.limit_rpm (pos 0)) (non_positive_limit o.customer)
    fail_if (leb_ℤ o.limit_rpm (contracted_limit cust (tier_or_zero tiers cust.tier)))
        (does_not_raise o.customer)
    start ← or_fail (parse_time_of_day o.window.start_utc) (bad_window_start o.customer)
    end ← or_fail (parse_time_of_day o.window.end_utc) (bad_window_end o.customer)
    fail_if (leb end start) (window_not_after o.customer)
    fail_if (ltb_ℤ o.window.grace_minutes (pos 0)) (negative_grace o.customer)
    ok (record o { expires_at = expires_at })

  unfoldable pub check_overrides :
      Dict String TierConfig
      → Dict String CustomerConfig
      → Time
      → ℕ
      → List OverrideConfig
      → Result (List OverrideConfig)
  check_overrides tiers by_id now i [] = ok []
  check_overrides tiers by_id now i (o ∷ rest) = do
    o' ← check_override tiers by_id now i o
    rest' ← check_overrides tiers by_id now (i + 1) rest
    ok (o' ∷ rest')

  -- The offset of a text that was validated before; Go drops the error.
  unfoldable pub offset_of : String → Duration
  unfolding parse_time_of_day
  offset_of s = elim (parse_time_of_day s) [ none ↦ 0 | some d ↦ d ]

  -- time.Duration(GraceMinutes) * time.Minute, on an int64.
  abbrev pub grace_of : OverrideConfig → ℤ
  grace_of o = int64 (scale o.window.grace_minutes minute)

  -- The end of the window, before the sum of the two wraps around.
  abbrev pub unwrapped_end : OverrideConfig → ℤ
  unwrapped_end o = pos (offset_of o.window.end_utc) +ℤ grace_of o

  unfoldable pub window_of : OverrideConfig → Window
  window_of o = record { start = pos (offset_of o.window.start_utc); end = int64 (unwrapped_end o) }

  -- The loop that fills byCustomer.
  unfoldable pub windows_by_customer :
      Dict String (List Window) → List OverrideConfig → Dict String (List Window)
  windows_by_customer by_customer [] = by_customer
  windows_by_customer by_customer (o ∷ rest) =
      let ws = lookup_or [] o.customer by_customer ++ window_of o ∷ [] in
      windows_by_customer (insert o.customer ws by_customer) rest

  unfoldable pub validate : Config → Time → Result Config
  validate c now = do
    fail_if (is_empty c.tiers) no_tiers
    by_id ← check_customers c.tiers [] 0 c.customers
    overrides ← check_overrides c.tiers by_id now 0 c.overrides
    check_windows (windows_by_customer [] overrides)
    ok (record c { overrides = overrides })
