-- ===== src/Policy/Limits.antt =====
-- What Resolve and Reload (internal/policy/resolver.go) promise on a config that Validate accepted.
use ti_assignment_promise_th.Base.{
  ◌≤◌, ◌<◌, ◌≡◌, refl, sym, and-true, subst, ap, ◌∙◌, ◌⊎◌, inl, inr, true, String, Option, none,
  some, List, [], ◌∷◌, ◌++◌, ◌==◌, string_eq, All, count_if, arith, Bool-cases, Option-cases,
}
use mathlib.Core.Option.{some-injective}
use ti_assignment_promise_th.Base.Int.{ℤ, pos, ◌<ℤ◌, ◌≤ℤ◌}
use ti_assignment_promise_th.Ratelimit.Gcra.{Time}
use ti_assignment_promise_th.Policy.Result.{Result-cases, or_fail-eq-ok, ok, err, ConfigError}
use ti_assignment_promise_th.Policy.Config.{
  Config, CustomerConfig, OverrideConfig, TimeLib, contracted_limit, tier_or_zero, validate,
}
use ti_assignment_promise_th.Policy.Resolver.{
  Resolver, Resolution, OverrideApplied, tier_default, override_applied, unknown_customer,
  find_customer, lookup_customer, find_override, active_at, instants_for, resolve, load_valid,
  reload,
}
use ti_assignment_promise_th.Policy.Customers.{IsCustomer}
use ti_assignment_promise_th.Policy.Overrides.{IsOverride}
use ti_assignment_promise_th.Policy.Windows.{in_force, in_force_fitting, fits}
use ti_assignment_promise_th.Policy.Validate.{IsValid, validate-IsValid}

All-find_customer {ℓ} :
    (P : CustomerConfig → Type ℓ) (id : String) (cs : List CustomerConfig) (cust : CustomerConfig)
    → All P cs
    → find_customer id cs ≡ some cust
    → P cust
unfolding find_customer
All-find_customer P id [] cust h e = cc
All-find_customer P id (c ∷ cs) cust h e = elim (Bool-cases (c.id == id)) [
  | inl same ↦ subst P (some-injective _ _ (rw same at e)) h.0
  | inr differ ↦ All-find_customer P id cs cust h.1 (rw differ at e)
]

module _ (time : TimeLib) where
  All-find_override {ℓ} :
      (P : OverrideConfig → Type ℓ) (id : String) (now : Time) (os : List OverrideConfig)
      (o : OverrideConfig)
      → All P os
      → find_override time id now os ≡ some o
      → P o × (in_force time id now o ≡ true)
  unfolding find_override
  All-find_override P id now [] o h e = cc
  All-find_override P id now (a ∷ os) o h e = elim (Bool-cases (in_force time id now a)) [
    | inl hit ↦
        let same : a ≡ o = ground (arith, hit) in
        (subst P same h.0, subst (λ b. in_force time id now b ≡ true) same hit)
    | inr miss ↦ All-find_override P id now os o h.1 (ground (arith, miss))
  ]

  active-unexpired :
      (o : OverrideConfig) (now : Time) → active_at time o now ≡ true → now < o.expires_at
  unfolding active_at
  active-unexpired o now h = ground arith

  -- The limit that a customer's contract names.
  abbrev pub contract : Config → CustomerConfig → ℤ
  contract c cust = contracted_limit cust (tier_or_zero c.tiers cust.tier)

  -- The one audit event of an override that is applied.
  abbrev pub event_of : String → ℤ → OverrideConfig → Time → OverrideApplied
  event_of id contracted o now = record {
    customer_id = id;
    contracted_limit_rpm = contracted;
    effective_limit_rpm = o.limit_rpm;
    override_ticket = o.ticket;
    window_start = (instants_for time o now).0;
    window_end = (instants_for time o now).1;
  }

  module _ (r : Resolver) (id : String) (now : Time) where
    resolve-missing :
        find_customer id r.cfg.customers ≡ none
        → resolve time r id now ≡ (record { limit = pos 0; reason = unknown_customer }, [])
    unfolding resolve lookup_customer
    resolve-missing e = rw (e, lookup_customer, resolve) refl

    module _ (cust : CustomerConfig) (e : find_customer id r.cfg.customers ≡ some cust) where
      resolve-tier :
          find_override time id now r.cfg.overrides ≡ none
          → resolve time r id now
            ≡ (record { limit = contract r.cfg cust; reason = tier_default }, [])
      unfolding resolve lookup_customer
      resolve-tier n = rw (e, lookup_customer, n, resolve) refl

      resolve-override :
          (o : OverrideConfig)
          → find_override time id now r.cfg.overrides ≡ some o
          → resolve time r id now ≡ (
            record { limit = o.limit_rpm; reason = override_applied },
            event_of id (contract r.cfg cust) o now ∷ [],
          )
      unfolding resolve lookup_customer
      resolve-override o n = rw (e, lookup_customer, n, resolve) refl

  -- What a customer's resolution is: the contract and no event, or an override that is in force and
  -- raises the contract, with its event.
  abbrev pub Resolves :
      Config → String → CustomerConfig → Time → Resolution × List OverrideApplied → Type 0
  Resolves c id cust now (r, events) =
      ((r ≡ record { limit = contract c cust; reason = tier_default }) × (events ≡ []))
      ⊎ ((o : OverrideConfig) × (r ≡ record { limit = o.limit_rpm; reason = override_applied })
          × (events ≡ event_of id (contract c cust) o now ∷ [])
          × (contract c cust <ℤ o.limit_rpm)
          × (in_force time id now o ≡ true)
          × (now < o.expires_at))

  -- On a valid config a configured customer gets a positive limit, never less than its contract;
  -- more only by an override that is in force and unexpired, and then exactly one audit event
  -- says so.
  pub resolve_known :
      (r : Resolver) (loaded : Time) (id : String) (now : Time) (cust : CustomerConfig)
      → IsValid time loaded r.cfg
      → find_customer id r.cfg.customers ≡ some cust
      → (pos 1 ≤ℤ contract r.cfg cust)
        × (contract r.cfg cust ≤ℤ (resolve time r id now).0.limit)
        × Resolves r.cfg id cust now (resolve time r id now)
  resolve_known r loaded id now cust v e =
      let limited =
        (All-find_customer (IsCustomer r.cfg.tiers) id r.cfg.customers cust v.customers
          e).has_limit in
      elim (Option-cases (find_override time id now r.cfg.overrides)) [
        | inl tier ↦ rw (resolve-tier r id now cust e tier) (limited, omega arith, inl (refl, refl))
        | inr (o, applied) ↦
            let (own, active) =
              All-find_override
                (IsOverride time (λ k. find_customer k r.cfg.customers) r.cfg.tiers loaded) id now
                r.cfg.overrides o v.overrides applied in
            let (named, live) = and-true (o.customer == id) (active_at time o now) active in
            let holder = some-injective own.holder cust (
              sym own.is_configured
              ∙ ap (λ k. find_customer k r.cfg.customers)
                  ((string_eq.beq_iff o.customer id).0 named)
              ∙ e) in
            let raised : contract r.cfg cust <ℤ o.limit_rpm =
              subst (λ c. contract r.cfg c <ℤ o.limit_rpm) holder own.raises in
            rw (resolve-override r id now cust e o applied) (
              limited,
              omega (arith, raised),
              inr (o, refl, refl, raised, active, active-unexpired o now live),
            )
      ]

  -- A customer that is not configured gets nothing, and nothing is logged.
  pub resolve_unknown :
      (r : Resolver) (id : String) (now : Time)
      → find_customer id r.cfg.customers ≡ none
      → resolve time r id now ≡ (record { limit = pos 0; reason = unknown_customer }, [])
  resolve_unknown r id now e = resolve-missing r id now e

  counted :
      (id : String) (now : Time) (pre post : List OverrideConfig) (o : OverrideConfig)
      → in_force time id now o ≡ true
      → 1 ≤ count_if (in_force time id now) (pre ++ o ∷ post)
  counted id now [] post o h = rw h (omega arith)
  counted id now (p ∷ pre) post o h = ground (arith, counted id now pre post o h)

  find_override-in_force :
      (id : String) (now : Time) (pre post : List OverrideConfig) (o : OverrideConfig)
      → in_force time id now o ≡ true
      → count_if (in_force time id now) (pre ++ o ∷ post) ≤ 1
      → find_override time id now (pre ++ o ∷ post) ≡ some o
  unfolding find_override
  find_override-in_force id now [] post o h one = ground (arith, h)
  find_override-in_force id now (p ∷ pre) post o h one =
      elim (Bool-cases (in_force time id now p)) [
        | inl hit ↦ absurd (omega (arith, counted id now pre post o h, rw hit at one))
        | inr miss ↦
            let later = find_override-in_force id now pre post o h (rw miss at one) in
            ground (arith, miss, later)
      ]

  fitting :
      (id : String) (now : Time) (os : List OverrideConfig)
      → All (λ o. fits time o ≡ true) os
      → count_if (in_force_fitting time id now) os ≡ count_if (in_force time id now) os
  fitting id now [] h = refl
  fitting id now (o ∷ os) (f, h) = rw f (rw (fitting id now os h) refl)

  -- On a valid config in which every window ends, the grace included, within an int64 of
  -- nanoseconds, an override that is in force for a customer is the one that is applied, wherever
  -- the file lists it.
  pub resolve-in_force :
      (r : Resolver) (loaded : Time) (id : String) (now : Time) (cust : CustomerConfig)
      (pre post : List OverrideConfig) (o : OverrideConfig)
      → IsValid time loaded r.cfg
      → All (λ x. fits time x ≡ true) r.cfg.overrides
      → find_customer id r.cfg.customers ≡ some cust
      → r.cfg.overrides ≡ pre ++ o ∷ post
      → in_force time id now o ≡ true
      → (resolve time r id now).0 ≡ record { limit = o.limit_rpm; reason = override_applied }
  resolve-in_force r loaded id now cust pre post o v fit e listed active =
      let single : count_if (in_force time id now) r.cfg.overrides ≤ 1 =
        subst (λ n. n ≤ 1) (fitting id now r.cfg.overrides fit) (v.single id now) in
      let found =
        find_override-in_force id now pre post o active
          (subst (λ os. count_if (in_force time id now) os ≤ 1) listed single) in
      ap (λ (x : Resolution × List OverrideApplied). x.0)
        (resolve-override r id now cust e o
          (subst (λ os. find_override time id now os ≡ some o) (sym listed) found))

  -- Reload swaps in a config only if it is valid, and otherwise keeps the one that is served.
  pub reload_safe :
      (load_config : String → Option Config) (r : Resolver) (path : String) (now : Time)
      → let (r', result) = reload time load_config r path now in
        ((result ≡ ok tt) × IsValid time now r'.cfg)
        ⊎ ((x : ConfigError) × (result ≡ err x) × (r' ≡ r))
  unfolding reload load_valid
  reload_safe load_config r path now = elim (Result-cases (load_valid time load_config path now)) [
    | inl (cfg, e) ↦
        let (c, _, valid) = or_fail-eq-ok (load_config path) _ (λ c. validate time c now) e in
        rw (e, reload) (inl (refl, (validate-IsValid time c now valid).0))
    | inr (x, e) ↦ rw (e, reload) (inr (x, refl, refl))
  ]
