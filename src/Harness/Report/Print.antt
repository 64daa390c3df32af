-- ===== src/Harness/Report/Print.antt =====
-- What cmd/harness/report.go prints: a line is its kind with the values that it shows.
use Prim.Native.String.{compare}
use Prim.Native.Nat.{Ordering}
use ti_assignment_promise_th.Base.{
  ℕ, ◌≡◌, refl, Bool, true, false, String, Option, none, some, List, [], ◌∷◌, ◌++◌, map,
  if◌then◌else◌, string_eq, arith,
}
use ti_assignment_promise_th.Base.Dict.{Dict, lookup_or}
use ti_assignment_promise_th.Base.Go.{Sorting}
use ti_assignment_promise_th.Coordinator.Static.Share.{safety_bound}
use ti_assignment_promise_th.Harness.Report.{
  Verdict, Note, CustomerResult, ScenarioResult, scenario_verdict, any_fail, all_pass,
}
use ti_assignment_promise_th.Harness.Verdicts.{any_fail-All}

pub data Line : Type 0 where
  rule blank overall table_head : Line
  json : List ScenarioResult → Line
  scenario summary : String → Verdict → Line
  scenario_note customer_note : Note → Line
  -- The row of a customer, with the bound that its maximum is shown against.
  row : CustomerResult → (bound : ℕ) → Line
  node_distribution : List (String × ℕ) → Line
  all_scenarios_pass some_scenario_failed : Line

abbrev keys {ℓ} : {V : Type ℓ} → Dict String V → List String
keys [] = []
keys ((k, v) ∷ m) = k ∷ keys m

abbrev is_before : String → String → Bool
is_before a b = elim (compare a b) [ Ordering.lt ↦ true | _ ↦ false ]

module _ (sorting : Sorting) where
  -- printNodeDistribution.
  pub print_node_distribution : Dict String ℕ → List Line
  print_node_distribution [] = []
  print_node_distribution (d ∷ dist) =
      node_distribution
        (map (λ n. (n, lookup_or 0 n (d ∷ dist))) (sorting.sort is_before (keys (d ∷ dist))))
      ∷ []

  -- The loop over a scenario's customers.
  pub print_rows : List CustomerResult → List Line
  unfolding print_node_distribution
  print_rows [] = []
  print_rows (c ∷ cs) =
      row c (safety_bound c.effective_limit)
      ∷ (print_node_distribution c.node_distribution
          ++ (map customer_note c.notes ++ print_rows cs))

  -- printScenario.
  pub print_scenario : ScenarioResult → List Line
  unfolding print_rows
  print_scenario s =
      rule
      ∷ scenario s.name (scenario_verdict s)
      ∷ rule
      ∷ (map scenario_note s.notes
          ++ ((elim s.notes [ [] ↦ [] | _ ∷ _ ↦ blank ∷ [] ])
              ++ (table_head ∷ (print_rows s.customers ++ blank ∷ []))))

  pub print_scenarios : List ScenarioResult → List Line
  unfolding print_scenario
  print_scenarios [] = []
  print_scenarios (s ∷ ss) = print_scenario s ++ print_scenarios ss

pub print_summaries : List ScenarioResult → List Line
print_summaries [] = []
print_summaries (s ∷ ss) = summary s.name (scenario_verdict s) ∷ print_summaries ss

-- printOverallSummary.
pub print_overall_summary : List ScenarioResult → List Line
unfolding print_summaries
print_overall_summary results =
    rule
    ∷ overall
    ∷ rule
    ∷ (print_summaries results
        ++ (if all_pass results then all_scenarios_pass else some_scenario_failed) ∷ [])

-- printReport.
unfoldable pub print_report : Sorting → List ScenarioResult → Bool → List Line
unfolding print_scenarios print_overall_summary
print_report sorting results as_json =
    if as_json
    then json results ∷ []
    else print_scenarios sorting results ++ print_overall_summary results

abbrev pub last {ℓ} : {A : Type ℓ} → List A → Option A
last [] = none
last (x ∷ xs) = elim (last xs) [ none ↦ some x | some y ↦ some y ]

last-snoc {ℓ} : {A : Type ℓ} (xs : List A) (x : A) → last (xs ++ x ∷ []) ≡ some x
last-snoc [] x = refl
last-snoc (y ∷ xs) x = rw (last-snoc xs x) refl

last-append {ℓ} :
    {A : Type ℓ} (xs ys : List A) (y : A) → last ys ≡ some y → last (xs ++ ys) ≡ some y
last-append [] ys y e = e
last-append (x ∷ xs) ys y e = rw (last-append xs ys y e) refl

-- A report for a reader ends with the words that say whether the harness exits with success.
pub print_report-last :
    (sorting : Sorting) (results : List ScenarioResult)
    → last (print_report sorting results false)
      ≡ some (if any_fail results then some_scenario_failed else all_scenarios_pass)
unfolding print_report print_overall_summary
print_report-last sorting results =
    let outcome = if any_fail results then some_scenario_failed else all_scenarios_pass in
    let says : (if all_pass results then all_scenarios_pass else some_scenario_failed) ≡ outcome =
      ground (arith, (any_fail-All results).0) in
    last-append (print_scenarios sorting results) (print_overall_summary results) outcome
      (rw says (last-snoc (rule ∷ overall ∷ rule ∷ print_summaries results) outcome))
