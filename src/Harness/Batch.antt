-- ===== src/Harness/Batch.antt =====
-- The verdict of northwind-batch in cmd/harness/scenarios.go, which asks for more than the bound:
-- no rejection while the override is active, and some while it is not.
use ti_assignment_promise_th.Base.{
  ℕ, ◌/◌, ◌≤◌, ◌≡◌, ◌≢◌, ◌↔◌, ◌⊎◌, inl, inr, refl, String, Option, some, List, [], ◌∷◌, ◌++◌, arith,
  Bool-cases, ltb, nat_beq, div?-eq, string_eq,
}
use ti_assignment_promise_th.Base.Int.{ℤ, pos, ltb_ℤ, ◌<ℤ◌}
use ti_assignment_promise_th.Base.Dict.{lookup_or}
use ti_assignment_promise_th.Base.Go.{Floats, Sorting}
use ti_assignment_promise_th.Ratelimit.Gcra.{Time, minute}
use ti_assignment_promise_th.Coordinator.Static.Share.{safety_bound}
use ti_assignment_promise_th.Harness.Analysis.{Record, summarize}
use ti_assignment_promise_th.Harness.Analysis.Exact.{admitted_in_minute}
use ti_assignment_promise_th.Harness.CrossCheck.{ServerLogLine}
use ti_assignment_promise_th.Harness.Report
use ti_assignment_promise_th.Harness.Report.{
  Verdict, CustomerResult, ScenarioResult, scenario_verdict,
}
use ti_assignment_promise_th.Harness.Scenarios.{
  Env, make_customer_result, northwind_batch, judge_batch,
}
use ti_assignment_promise_th.Harness.Verdicts.{Passes, make_customer_result-verdict}

-- What the batch asks of the number of rejections.
abbrev pub IsServed : ℕ → ℤ → ℕ → Type 0
IsServed limit contracted rejected =
    (contracted <ℤ pos limit → rejected ≡ 0) × (¬ (contracted <ℤ pos limit) → rejected ≢ 0)

judge_batch_lem :
    (limit : ℕ) (contracted : ℤ) (c : CustomerResult)
    → 3 ≤ limit
    → (v : Verdict) × (notes : List Report.Note) × (own : Report.Note) × (judge_batch limit
          contracted c
        ≡ some (v, notes, own))
      × ((v ≡ Verdict.pass) ↔ (Passes c × IsServed limit contracted c.rejected))
unfolding judge_batch
judge_batch_lem limit contracted c large =
    let panic_free = div?-eq minute (limit / 3) (omega arith) in
    elim (Bool-cases (ltb_ℤ contracted (pos limit))) [
      | inl active ↦ elim (Bool-cases (ltb 0 c.rejected)) [
        | inl some_rejected ↦ (
          Verdict.fail,
          Report.override_active limit contracted ∷ Report.never_a_429 ∷ [],
          Report.rejected_in_override c.rejected c.sent limit (minute / (limit / 3)),
          rw (active, some_rejected, panic_free) refl,
          (λ e. cc, λ h. absurd (ground (arith, h.1.0))),
        )
        | inr none_rejected ↦ (
          c.verdict,
          Report.override_active limit contracted ∷ Report.never_a_429 ∷ [],
          Report.no_429,
          rw (active, none_rejected) refl,
          (λ e. (e, (λ lt. ground arith, λ idle. absurd (idle (ground arith)))), λ h. h.0),
        )
      ]
      | inr idle ↦ elim (Bool-cases (nat_beq c.rejected 0)) [
        | inl none_rejected ↦ (
          Verdict.fail,
          Report.override_inactive limit ∷ Report.how_to_activate ∷ [],
          Report.no_cutoff,
          rw (idle, none_rejected) refl,
          (λ e. cc, λ h. absurd (h.1.1 (λ lt. ground arith) (ground arith))),
        )
        | inr some_rejected ↦ (
          c.verdict,
          Report.override_inactive limit ∷ Report.how_to_activate ∷ [],
          Report.cutoff_confirmed c.rejected c.sent,
          rw (idle, some_rejected) refl,
          (λ e. (e, (λ lt. absurd (ground arith), λ no_override. λ z. ground arith)), λ h. h.0),
        )
      ]
    ]

is_pass : (v : Verdict) → (v ≡ Verdict.pass) ⊎ (v ≡ Verdict.fail)
is_pass Verdict.pass = inl refl
is_pass Verdict.fail = inr refl

single_row :
    (name : String) (c : CustomerResult) (notes : List Report.Note)
    → (scenario_verdict (record { name = name; customers = c ∷ []; notes = notes }) ≡ Verdict.pass)
      ↔ Passes c
unfolding scenario_verdict Report.any_row_fails
single_row name c notes = elim (is_pass c.verdict) [
  | inl p ↦ (λ e. p, λ e. rw p refl)
  | inr f ↦ (λ e. ground (arith, f), λ e. ground (arith, f))
]

module _ (fl : Floats) (sorting : Sorting) (format : Time → String)
    (logs : String → List String → Option (List (Option ServerLogLine))) where
  -- The batch scenario does not panic for a limit of three or more, and it passes exactly if no
  -- closed minute exceeds the bound and, while the effective limit is above the contract, no
  -- response was a rejection, and otherwise some was.
  pub northwind_batch-verdict :
      (env : Env) (limit : ℕ) (records : List Record)
      → 3 ≤ limit
      → (s : ScenarioResult) × (northwind_batch fl sorting format logs env (some limit) records
          ≡ some s)
        × ((scenario_verdict s ≡ Verdict.pass) ↔ (
            ((lo : Time) → admitted_in_minute lo records ≤ safety_bound limit)
            × IsServed limit
                (lookup_or (pos 0) "cust_northwind_logistics" env.contracted_limit)
                (summarize sorting records).rejected))
  unfolding northwind_batch
  northwind_batch-verdict env limit records large =
      let id : String = "cust_northwind_logistics" in
      let c = make_customer_result fl sorting format logs env id 1200 limit records in
      let contracted = lookup_or (pos 0) id env.contracted_limit in
      let (v, notes, own, e, judged) = judge_batch_lem limit contracted c large in
      let safe = make_customer_result-verdict fl sorting format logs env id 1200 limit records in
      let row : CustomerResult = record c { verdict = v; notes = c.notes ++ (own ∷ []) } in
      let verdict = single_row "northwind-batch" row notes in
      (
        record { name = "northwind-batch"; customers = row ∷ []; notes = notes },
        rw e refl,
        (
          λ p.
              let (q, served) = judged.0 (verdict.0 p) in
              (safe.0 q, unfold make_customer_result in served),
          λ h. verdict.1 (judged.1 (safe.1 h.0, unfold make_customer_result in h.1)),
        ),
      )
