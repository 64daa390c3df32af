-- ===== src/Harness/Verdicts.antt =====
-- What the verdicts of cmd/harness (report.go, scenarios.go) say about the observed responses.
use ti_assignment_promise_th.Base.{
  ℕ, ◌≤◌, ◌≡◌, ◌↔◌, inl, inr, refl, false, not, String, Option, List, [], ◌∷◌, arith, All,
  Bool-cases,
}
use ti_assignment_promise_th.Base.Go.{Floats, Sorting}
use ti_assignment_promise_th.Ratelimit.Gcra.{Time}
use ti_assignment_promise_th.Coordinator.Static.Share.{safety_bound}
use ti_assignment_promise_th.Harness.Analysis.{Record, summarize, max_rolling60s}
use ti_assignment_promise_th.Harness.Analysis.Exact.{admitted_in_minute, max_rolling60s-exact}
use ti_assignment_promise_th.Harness.CrossCheck.{ServerLogLine}
use ti_assignment_promise_th.Harness.Report.{
  Verdict, CustomerResult, ScenarioResult, any_row_fails, scenario_verdict, any_fail, all_pass,
  is_fail,
}
use ti_assignment_promise_th.Harness.Scenarios.{Env, make_customer_result, safety_verdict}

abbrev pub Passes : CustomerResult → Type 0
Passes c = c.verdict ≡ Verdict.pass

is_fail_lem :
    (v : Verdict) → (is_fail v ≡ false → v ≡ Verdict.pass) × (v ≡ Verdict.pass → is_fail v ≡ false)
is_fail_lem Verdict.pass = (λ e. refl, λ e. refl)
is_fail_lem Verdict.fail = (λ e. cc, λ e. cc)

any_row_fails-All :
    (cs : List CustomerResult)
    → (any_row_fails cs ≡ false → All Passes cs) × (All Passes cs → any_row_fails cs ≡ false)
unfolding any_row_fails
any_row_fails-All [] = (λ e. tt, λ h. refl)
any_row_fails-All (c ∷ cs) = elim (Bool-cases (is_fail c.verdict)) [
  | inl bad ↦ rw bad (λ e. cc, λ h. ground (arith, (is_fail_lem c.verdict).1 h.0))
  | inr good ↦ rw good (
    λ e. ((is_fail_lem c.verdict).0 good, (any_row_fails-All cs).0 e),
    λ h. (any_row_fails-All cs).1 h.1,
  )
]

-- The harness exits with success, and prints that all scenarios pass, exactly if every row of every
-- scenario passes.
pub any_fail-All :
    (ss : List ScenarioResult)
    → (all_pass ss ≡ not (any_fail ss))
      × ((any_fail ss ≡ false) ↔ All (λ s. All Passes s.customers) ss)
unfolding any_fail all_pass
any_fail-All [] = (refl, (λ e. tt, λ h. refl))
any_fail-All (s ∷ ss) =
    let (agree, (down, up)) = any_fail-All ss in
    elim (Bool-cases (any_row_fails s.customers)) [
      | inl bad ↦
          rw (bad, scenario_verdict)
            (refl, (λ e. cc, λ h. ground (arith, (any_row_fails-All s.customers).1 h.0)))
      | inr good ↦
          rw (good, scenario_verdict)
            (agree, (λ e. ((any_row_fails-All s.customers).0 good, down e), λ h. up h.1))
    ]

verdict_pass : (n limit : ℕ) → safety_verdict n limit ≡ Verdict.pass → n ≤ safety_bound limit
unfolding safety_verdict
verdict_pass n limit e = ground arith

pass_verdict : (n limit : ℕ) → n ≤ safety_bound limit → safety_verdict n limit ≡ Verdict.pass
unfolding safety_verdict
pass_verdict n limit h = ground arith

module _ (fl : Floats) (sorting : Sorting) (format : Time → String)
    (logs : String → List String → Option (List (Option ServerLogLine))) where
  -- A row passes exactly if no closed minute of the observed responses holds more admissions than
  -- the bound for the limit.
  pub make_customer_result-verdict :
      (env : Env) (id : String) (rpm limit : ℕ) (records : List Record)
      → Passes (make_customer_result fl sorting format logs env id rpm limit records)
        ↔ ((lo : Time) → admitted_in_minute lo records ≤ safety_bound limit)
  unfolding make_customer_result safety_verdict
  make_customer_result-verdict env id rpm limit records =
      let (bound, (lo, attained)) = max_rolling60s-exact sorting records in
      let same : (summarize sorting records).rolling ≡ max_rolling60s sorting records =
        unfold summarize in refl in
      rw same (
        λ e at. omega (arith, bound at, verdict_pass (max_rolling60s sorting records).max limit e),
        λ h.
            pass_verdict (max_rolling60s sorting records).max limit (omega (arith, h lo, attained)),
      )
