-- ===== src/Harness/Contracts.antt =====
-- The contracted limits that main of cmd/harness/main.go reads out of the policy file by itself,
-- and the run of the scenarios up to the exit code.
use ti_assignment_promise_th.Base.{
  ℕ, ◌+◌, ◌≤◌, ◌≡◌, ◌∙◌, refl, inl, inr, Bool, not, String, Option, none, some, List, [], ◌∷◌, ◌==◌,
  if◌then◌else◌, string_eq, count_if, arith, All, Bool-cases, Option-cases, some,
}
use ti_assignment_promise_th.Base.Int.{ℤ, is_zero}
use ti_assignment_promise_th.Base.Dict.{Dict, lookup, lookup_or, insert, lookup-insert}
use ti_assignment_promise_th.Ratelimit.Gcra.{Time}
use ti_assignment_promise_th.Policy.Config.{
  Config, CustomerConfig, TierConfig, TimeLib, contracted_limit, tier_or_zero,
}
use ti_assignment_promise_th.Policy.Resolver.{find_customer}
use ti_assignment_promise_th.Policy.Customers.{IsCustomer}
use ti_assignment_promise_th.Policy.Validate.{IsValid}
use ti_assignment_promise_th.Policy.Limits.{contract}
use ti_assignment_promise_th.Harness.Report.{ScenarioResult, any_fail}

-- One turn of the loop over the customers.
unfoldable pub add_contract :
    Dict String TierConfig → CustomerConfig → Dict String ℤ → Dict String ℤ
add_contract tiers cust contracted =
    if not (is_zero cust.limit_rpm)
    then insert cust.id cust.limit_rpm contracted
    else elim (lookup cust.tier tiers) [
      | some tier ↦ insert cust.id tier.rpm contracted
      | none ↦ contracted
    ]

unfoldable pub add_contracts :
    Dict String TierConfig → List CustomerConfig → Dict String ℤ → Dict String ℤ
unfolding add_contract
add_contracts tiers [] contracted = contracted
add_contracts tiers (cust ∷ custs) contracted =
    add_contracts tiers custs (add_contract tiers cust contracted)

unfoldable pub contracted_limits : Config → Dict String ℤ
unfolding add_contracts
contracted_limits cfg = add_contracts cfg.tiers cfg.customers []

-- The first name that is no scenario's.
unfoldable pub unknown_scenario : Dict String Bool → List String → Option String
unknown_scenario registry [] = none
unknown_scenario registry (n ∷ names) = elim (lookup n registry) [
  | none ↦ some n
  | some _ ↦ unknown_scenario registry names
]

-- The runs in order; `none` is a context that is cancelled before one of them. A run is told its
-- place in the order, since a name that is asked for twice runs twice.
unfoldable pub run_all :
    (ℕ → String → Option ScenarioResult) → ℕ → List String → Option (List ScenarioResult)
run_all run i [] = some []
run_all run i (n ∷ names) =
    let rest = run_all run (i + 1) names in
    elim (run i n) [ none ↦ none | some s ↦ elim rest [ none ↦ none | some ss ↦ some (s ∷ ss) ] ]

-- The exit code: 2 for a config that does not load or a name that is not known, 1 for a cancelled
-- context or a failure.
unfoldable pub exit_code :
    Option Config → Dict String Bool → (ℕ → String → Option ScenarioResult) → List String → ℕ
unfolding unknown_scenario run_all
exit_code none registry run names = 2
exit_code (some cfg) registry run names = elim (unknown_scenario registry names) [
  | some n ↦ 2
  | none ↦ elim (run_all run 0 names) [
    | none ↦ 1
    | some results ↦ if any_fail results then 1 else 0
  ]
]

tier_or_zero-found :
    (tiers : Dict String TierConfig) (name : String) (tier : TierConfig)
    → lookup name tiers ≡ some tier
    → tier_or_zero tiers name ≡ tier
unfolding tier_or_zero lookup_or
tier_or_zero-found tiers name tier found = ground (arith, found)

add_contract-lookup :
    (tiers : Dict String TierConfig) (cust : CustomerConfig) (m : Dict String ℤ) (k : String)
    → IsCustomer tiers cust
    → lookup k (add_contract tiers cust m) ≡ (
        if cust.id == k
        then some (contracted_limit cust (tier_or_zero tiers cust.tier))
        else lookup k m)
unfolding add_contract contracted_limit
add_contract-lookup tiers cust m k ok = elim (Bool-cases (is_zero cust.limit_rpm)) [
  | inl zero ↦ elim (Option-cases (lookup cust.tier tiers)) [
    | inl missing ↦ ground (arith, ok.has_tier, missing)
    | inr (tier, found) ↦
        rw
          (
            zero,
            found,
            lookup-insert cust.id k tier.rpm m,
            tier_or_zero-found tiers cust.tier tier found,
          )
          refl
  ]
  | inr own ↦ rw (own, lookup-insert cust.id k cust.limit_rpm m) refl
]

find_none :
    (k : String) (cs : List CustomerConfig)
    → count_if (λ c. c.id == k) cs ≡ 0
    → find_customer k cs ≡ none
unfolding find_customer
find_none k [] h = refl
find_none k (c ∷ cs) h = ground (arith, find_none k cs)

add_contracts-lookup :
    (tiers : Dict String TierConfig) (cs : List CustomerConfig) (m : Dict String ℤ) (k : String)
    → All (IsCustomer tiers) cs
    → count_if (λ c. c.id == k) cs ≤ 1
    → lookup k (add_contracts tiers cs m) ≡ elim (find_customer k cs) as (λ _. Option ℤ) [
      | none ↦ lookup k m
      | some cust ↦ some (contracted_limit cust (tier_or_zero tiers cust.tier))
    ]
unfolding add_contracts find_customer
add_contracts-lookup tiers [] m k ok single = refl
add_contracts-lookup tiers (c ∷ cs) m k (ok, oks) single =
    let rest = add_contracts-lookup tiers cs (add_contract tiers c m) k oks in
    let head = add_contract-lookup tiers c m k ok in
    elim (Bool-cases (c.id == k)) [
      | inl same ↦
          let alone : count_if (λ (cust : CustomerConfig). cust.id == k) cs ≡ 0 =
            ground (arith, single, same) in
          rw (find_none k cs alone) at rest (omega (arith, alone)) ∙ head ∙ rw same refl
      | inr other ↦ elim (Option-cases (find_customer k cs)) [
        | inl missing ↦ ground (arith, rest, head, single, other, missing)
        | inr (cust, found) ↦ ground (arith, rest, head, single, other, found)
      ]
    ]

-- On a config that Validate accepts, the contracted limits that the harness reads out of the file
-- by itself are those of the resolver's contract: one for each customer, none for any other name.
pub contracted_limits-lookup :
    (time : TimeLib) (now : Time) (cfg : Config) (id : String)
    → IsValid time now cfg
    → lookup id (contracted_limits cfg) ≡ elim (find_customer id cfg.customers) as (λ _. Option ℤ) [
      | none ↦ none
      | some cust ↦ some (contract time cfg cust)
    ]
unfolding contracted_limits find_customer
contracted_limits-lookup time now cfg id valid =
    let each =
      add_contracts-lookup cfg.tiers cfg.customers [] id valid.customers (valid.distinct id) in
    elim (Option-cases (find_customer id cfg.customers)) [
      | inl missing ↦ each ∙ rw missing (unfold lookup in refl)
      | inr (cust, found) ↦ each ∙ rw found refl
    ]
