-- ===== src/Policy/Customers.antt =====
-- What Validate (internal/policy/config.go) establishes of the customers: each has a positive
-- limit, and customersByID is the linear lookup of Config.lookup.
use ti_assignment_promise_th.Base.{
  count_if, ◌≤◌, ℕ, ◌+◌, ◌≡◌, ◌≢◌, refl, ◌∙◌, true, String, none, some, List, [], ◌∷◌, ◌==◌,
  string_eq, arith, Bool-cases, inl, inr, All,
}
use ti_assignment_promise_th.Base.Dict.{Dict, lookup, lookup_or, insert, lookup-insert}
use ti_assignment_promise_th.Base.Int.{pos, ◌≤ℤ◌}
use ti_assignment_promise_th.Policy.Result.{ok, >>=-eq-ok}
use ti_assignment_promise_th.Policy.Config.{
  CustomerConfig, TierConfig, contracted_limit, tier_or_zero, check_customer, check_customers,
  is_some,
}
use ti_assignment_promise_th.Policy.Resolver.{find_customer}

-- The customer has an id, a tier that is defined, and a positive contracted limit.
pub record IsCustomer (tiers : Dict String TierConfig) (cust : CustomerConfig) : Type 0 where
  pub has_id : cust.id ≢ ""
  pub has_tier : is_some (lookup cust.tier tiers) ≡ true
  pub has_limit : pos 1 ≤ℤ contracted_limit cust (tier_or_zero tiers cust.tier)

module _ (tiers : Dict String TierConfig) (by_id : Dict String CustomerConfig) (i : ℕ)
    (cust : CustomerConfig) where
  check_customer-new : check_customer tiers by_id i cust ≡ ok tt → lookup cust.id by_id ≡ none
  unfolding check_customer
  check_customer-new h = ground arith

  check_customer-IsCustomer : check_customer tiers by_id i cust ≡ ok tt → IsCustomer tiers cust
  unfolding check_customer contracted_limit tier_or_zero lookup_or
  check_customer-IsCustomer h = record {
    has_id = λ e. ground (arith, string_eq.beq_iff cust.id "");
    has_tier = ground arith;
    has_limit = ground arith;
  }

module _ (tiers : Dict String TierConfig) where
  -- Each customer passed its own check, against those before it.
  check_customers-cons :
      (by_id : Dict String CustomerConfig) (i : ℕ) (cust : CustomerConfig)
      (rest : List CustomerConfig) {d : Dict String CustomerConfig}
      → check_customers tiers by_id i (cust ∷ rest) ≡ ok d
      → (check_customer tiers by_id i cust ≡ ok tt)
        × (check_customers tiers (insert cust.id cust by_id) (i + 1) rest ≡ ok d)
  unfolding check_customers
  check_customers-cons by_id i cust rest h =
      let (u, e, f) = >>=-eq-ok (check_customer tiers by_id i cust) _ h in (e, f)

  pub check_customers-IsCustomer :
      (by_id : Dict String CustomerConfig) (i : ℕ) (cs : List CustomerConfig)
      {d : Dict String CustomerConfig}
      → check_customers tiers by_id i cs ≡ ok d
      → All (IsCustomer tiers) cs
  check_customers-IsCustomer by_id i [] h = tt
  check_customers-IsCustomer by_id i (cust ∷ rest) h =
      let (e, f) = check_customers-cons by_id i cust rest h in
      (
        check_customer-IsCustomer tiers by_id i cust e,
        check_customers-IsCustomer (insert cust.id cust by_id) (i + 1) rest f,
      )

  -- An id that was seen does not come again.
  check_customers-fresh :
      (by_id : Dict String CustomerConfig) (i : ℕ) (cs : List CustomerConfig) (k : String)
      {d : Dict String CustomerConfig} {c : CustomerConfig}
      → check_customers tiers by_id i cs ≡ ok d
      → lookup k by_id ≡ some c
      → find_customer k cs ≡ none
  unfolding find_customer
  check_customers-fresh by_id i [] k h seen = refl
  check_customers-fresh by_id i (cust ∷ rest) k {c = c} h seen =
      let (e, f) = check_customers-cons by_id i cust rest h in
      elim (Bool-cases (cust.id == k)) [
        | inl same ↦
            let repeated = (string_eq.beq_iff cust.id k).0 same in
            ground (arith, check_customer-new tiers by_id i cust e)
        | inr differ ↦ rw differ (
            check_customers-fresh (insert cust.id cust by_id) (i + 1) rest k {c = c} f
              (lookup-insert cust.id k cust by_id ∙ rw differ seen))
      ]

  -- What was seen stays.
  check_customers-kept :
      (by_id : Dict String CustomerConfig) (i : ℕ) (cs : List CustomerConfig) (k : String)
      {d : Dict String CustomerConfig} {c : CustomerConfig}
      → check_customers tiers by_id i cs ≡ ok d
      → lookup k by_id ≡ some c
      → lookup k d ≡ some c
  unfolding check_customers
  check_customers-kept by_id i [] k h seen = ground arith
  check_customers-kept by_id i (cust ∷ rest) k h seen =
      let (e, f) = check_customers-cons by_id i cust rest h in
      elim (Bool-cases (cust.id == k)) [
        | inl same ↦
            let repeated = (string_eq.beq_iff cust.id k).0 same in
            ground (arith, check_customer-new tiers by_id i cust e)
        | inr differ ↦
            check_customers-kept (insert cust.id cust by_id) (i + 1) rest k f
              (lookup-insert cust.id k cust by_id ∙ rw differ seen)
      ]

  -- customersByID finds what Config.lookup finds.
  pub lookup-check_customers :
      (by_id : Dict String CustomerConfig) (i : ℕ) (cs : List CustomerConfig) (k : String)
      {d : Dict String CustomerConfig}
      → check_customers tiers by_id i cs ≡ ok d
      → lookup k by_id ≡ none
      → lookup k d ≡ find_customer k cs
  unfolding find_customer check_customers
  lookup-check_customers by_id i [] k h unseen = ground arith
  lookup-check_customers by_id i (cust ∷ rest) k h unseen =
      let (e, f) = check_customers-cons by_id i cust rest h in
      elim (Bool-cases (cust.id == k)) [
        | inl same ↦ rw same (
            check_customers-kept (insert cust.id cust by_id) (i + 1) rest k f
              (lookup-insert cust.id k cust by_id ∙ rw same refl))
        | inr differ ↦ rw differ (
            lookup-check_customers (insert cust.id cust by_id) (i + 1) rest k f
              (lookup-insert cust.id k cust by_id ∙ rw differ unseen))
      ]

  absent :
      (k : String) (cs : List CustomerConfig)
      → find_customer k cs ≡ none
      → count_if (λ c. c.id == k) cs ≡ 0
  unfolding find_customer
  absent k [] h = refl
  absent k (cust ∷ rest) h = ground (arith, absent k rest)

  -- No id is used twice.
  pub check_customers-distinct :
      (by_id : Dict String CustomerConfig) (i : ℕ) (cs : List CustomerConfig) (k : String)
      {d : Dict String CustomerConfig}
      → check_customers tiers by_id i cs ≡ ok d
      → count_if (λ c. c.id == k) cs ≤ 1
  check_customers-distinct by_id i [] k h = omega arith
  check_customers-distinct by_id i (cust ∷ rest) k h =
      let (e, f) = check_customers-cons by_id i cust rest h in
      let later = check_customers-distinct (insert cust.id cust by_id) (i + 1) rest k f in
      elim (Bool-cases (cust.id == k)) [
        | inl same ↦
            let gone = absent k rest (
              check_customers-fresh (insert cust.id cust by_id) (i + 1) rest k {c = cust} f
                (lookup-insert cust.id k cust by_id ∙ rw same refl)) in
            rw same (omega (arith, gone))
        | inr differ ↦ rw differ later
      ]
