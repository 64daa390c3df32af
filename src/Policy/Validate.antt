-- ===== src/Policy/Validate.antt =====
-- Validate (internal/policy/config.go) as a whole: what a config that it accepts is.
use mathlib.Core.Path.{fun_ext}
use ti_assignment_promise_th.Base.{
  ◌≤◌, ◌≡◌, refl, subst, false, String, [], ◌==◌, string_eq, All, count_if,
}
use ti_assignment_promise_th.Base.Dict.{lookup}
use ti_assignment_promise_th.Ratelimit.Gcra.{Time}
use ti_assignment_promise_th.Policy.Result.{ok, fail_if-eq-ok, >>=-eq-ok, ok-injective}
use ti_assignment_promise_th.Policy.Config.{
  Config, TimeLib, is_empty, check_customers, check_overrides, check_windows, windows_by_customer,
  validate,
}
use ti_assignment_promise_th.Policy.Resolver.{find_customer}
use ti_assignment_promise_th.Policy.Customers.{
  IsCustomer, check_customers-IsCustomer, lookup-check_customers, check_customers-distinct,
}
use ti_assignment_promise_th.Policy.Overrides.{IsOverride, check_overrides-IsOverride}
use ti_assignment_promise_th.Policy.Windows.{in_force_fitting, check_windows-one_in_force}

module _ (time : TimeLib) where
  -- A config that may be served: there are tiers; every customer has an id of its own, a tier and a
  -- positive limit; every override is documented, expires after `now`, raises its customer's limit;
  -- and of the overrides whose windows end within an int64 no customer has two in force at one
  -- instant.
  pub record IsValid (now : Time) (c : Config) : Type 0 where
    pub tiered : is_empty c.tiers ≡ false
    pub customers : All (IsCustomer c.tiers) c.customers
    pub distinct : (k : String) → count_if (λ cust. cust.id == k) c.customers ≤ 1
    pub overrides : All (IsOverride time (λ k. find_customer k c.customers) c.tiers now) c.overrides
    pub single : (k : String) (t : Time) → count_if (in_force_fitting time k t) c.overrides ≤ 1

  -- A config that Validate accepts is valid: each customer has an id of its own and a positive
  -- limit, each override is documented, unexpired and raises its customer's limit, and of
  -- those whose window ends, the grace included, within an int64 of nanoseconds no customer ever
  -- has two in force at once. Only the overrides change, which get their expiry
  -- instants.
  pub validate-IsValid :
      (c : Config) (now : Time) {c' : Config}
      → validate time c now ≡ ok c'
      → IsValid now c' × (c'.tiers ≡ c.tiers) × (c'.customers ≡ c.customers)
  unfolding validate
  validate-IsValid c now h =
      let (tiered, h1) = fail_if-eq-ok (is_empty c.tiers) _ _ h in
      let (by_id, e, h2) = >>=-eq-ok (check_customers c.tiers [] 0 c.customers) _ h1 in
      let (os, f, h3) = >>=-eq-ok (check_overrides time c.tiers by_id now 0 c.overrides) _ h2 in
      let (u, g, h4) = >>=-eq-ok (check_windows (windows_by_customer time [] os)) _ h3 in
      let same : (λ k. lookup k by_id) ≡ (λ k. find_customer k c.customers) =
        fun_ext
          (λ k. lookup-check_customers c.tiers [] 0 c.customers k e (unfold lookup in refl)) in
      subst (λ (c' : Config). IsValid now c' × (c'.tiers ≡ c.tiers) × (c'.customers ≡ c.customers))
        (ok-injective _ _ h4)
        (
          record {
            tiered = tiered;
            customers = check_customers-IsCustomer c.tiers [] 0 c.customers e;
            distinct = λ k. check_customers-distinct c.tiers [] 0 c.customers k e;
            overrides =
                subst (λ find. All (IsOverride time find c.tiers now) os) same
                  (check_overrides-IsOverride time c.tiers by_id now 0 c.overrides f);
            single = λ k t. check_windows-one_in_force time os k t g;
          },
          refl,
          refl,
        )
