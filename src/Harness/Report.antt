-- ===== src/Harness/Report.antt =====
-- The results of cmd/harness/report.go: one row for each customer, one result for each scenario,
-- and the verdicts. Notes are texts for a reader; a note is its kind with the numbers that it
-- prints.
pub mod Print
use ti_assignment_promise_th.Base.{ℕ, Bool, true, false, String, List, [], ◌∷◌, if◌then◌else◌}
use ti_assignment_promise_th.Base.Int.{ℤ}
use ti_assignment_promise_th.Base.Dict.{Dict}
use ti_assignment_promise_th.Ratelimit.Gcra.{Time, Duration}

pub data Verdict : Type 0 where
  pass fail : Verdict

pub data Note : Type 0 where
  cross_check_skipped : Note
  cross_check_ok cross_check_mismatch : (admitted total client : ℕ) → Note
  under_delivered : (effective_limit : ℕ) → Note
  offered_both : (rpm limit : ℕ) → Note
  isolation_check : Note
  counts_diverged counts_close : (a b : ℕ) → Note
  offered_over : (rpm limit : ℕ) → Note
  no_rejections : Note
  offered_exact : (rpm : ℕ) → Note
  minute_counts : List (ℕ × ℕ) → Note
  actual_proof : (max limit : ℕ) → Note
  spans_boundary : (start end : Time) → Note
  within_minute : Note
  could_not_probe probe_failed : Note
  override_active : (limit : ℕ) → (contracted : ℤ) → Note
  never_a_429 : Note
  rejected_in_override : (rejected sent limit : ℕ) → (interval : Duration) → Note
  no_429 : Note
  override_inactive : (limit : ℕ) → Note
  how_to_activate : Note
  no_cutoff : Note
  cutoff_confirmed : (rejected sent : ℕ) → Note
  no_kill_cmd : Note
  revived : String → Note
  killed : (at : Duration) → String → Note
  node_stopped : (at : Duration) → Note
  only_condition : (limit : ℕ) → Note

pub record CustomerResult : Type 0 where
  pub customer_id : String
  pub contracted_limit : ℤ
  pub effective_limit : ℕ
  pub offered_rpm : ℕ
  pub sent : ℕ
  pub admitted : ℕ
  pub rejected : ℕ
  pub errored : ℕ
  pub max_rolling60s : ℕ
  pub node_distribution : Dict String ℕ
  pub verdict : Verdict
  pub notes : List Note

pub record ScenarioResult : Type 0 where
  pub name : String
  pub customers : List CustomerResult
  pub notes : List Note

abbrev pub is_fail : Verdict → Bool
is_fail pass = false
is_fail fail = true

-- The loop of ScenarioResult.Verdict.
unfoldable pub any_row_fails : List CustomerResult → Bool
any_row_fails [] = false
any_row_fails (c ∷ cs) = if is_fail c.verdict then true else any_row_fails cs

-- ScenarioResult.Verdict.
unfoldable pub scenario_verdict : ScenarioResult → Verdict
unfolding any_row_fails
scenario_verdict s = if any_row_fails s.customers then fail else pass

unfoldable pub any_fail : List ScenarioResult → Bool
unfolding scenario_verdict
any_fail [] = false
any_fail (s ∷ ss) = if is_fail (scenario_verdict s) then true else any_fail ss

-- What printOverallSummary ends with: true for ALL SCENARIOS PASS.
unfoldable pub all_pass : List ScenarioResult → Bool
unfolding scenario_verdict
all_pass [] = true
all_pass (s ∷ ss) = let rest = all_pass ss in if is_fail (scenario_verdict s) then false else rest
