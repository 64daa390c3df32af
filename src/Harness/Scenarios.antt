-- ===== src/Harness/Scenarios.antt =====
-- The scenarios of cmd/harness/scenarios.go as functions of what they observed: the limit that the
-- probe read, if it read one, and the records that Offer collected. The traffic itself, the
-- commands that stop and start a node and the channels between goroutines are not part of the
-- model.
use ti_assignment_promise_th.Base.{
  ℕ, zero, suc, ◌-◌, ◌/◌, Bool, not, ◌&&◌, String, Option, none, some, ◌>>=◌, List, [], ◌∷◌, ◌++◌,
  ◌==◌, if◌then◌else◌, ltb, nat_beq, string_eq, div?,
}
use ti_assignment_promise_th.Base.Int.{ℤ, pos, ltb_ℤ}
use ti_assignment_promise_th.Base.Dict.{Dict, lookup_or}
use ti_assignment_promise_th.Base.Go.{Floats, Sorting}
use ti_assignment_promise_th.Ratelimit.Gcra.{Time, Duration, minute}
use ti_assignment_promise_th.Coordinator.Static.Share.{safety_bound}
use ti_assignment_promise_th.Harness.Analysis.{Record, summarize, per_calendar_minute}
use ti_assignment_promise_th.Harness.Minutes.{format_minute_buckets, same_minute}
use ti_assignment_promise_th.Harness.CrossCheck.{ServerLogLine, cross_check}
use ti_assignment_promise_th.Harness.Report

pub record Env : Type 0 where
  pub base_url : String
  pub contracted_limit : Dict String ℤ
  pub kill_cmd : String
  pub revive_cmd : String
  pub kill_at : Duration
  pub compose_file : String
  pub services : List String

-- One attempt of probeEffectiveLimit: the context ends in the pause before it, the request cannot
-- be made, it fails or its header is no number, or the header is read.
pub data Probe : Type 0 where
  cancelled malformed failed : Probe
  read : ℕ → Probe

abbrev max_attempts : ℕ
max_attempts = 3

-- The loop, with the number of attempts that are left.
unfoldable pub probe_attempts : ℕ → List Probe → Option ℕ
probe_attempts zero attempts = none
probe_attempts (suc left) [] = none
probe_attempts (suc left) (cancelled ∷ attempts) = none
probe_attempts (suc left) (malformed ∷ attempts) = none
probe_attempts (suc left) (failed ∷ attempts) = probe_attempts left attempts
probe_attempts (suc left) (read limit ∷ attempts) = some limit

unfoldable pub probe_effective_limit : List Probe → Option ℕ
unfolding probe_attempts
probe_effective_limit attempts = probe_attempts max_attempts attempts

-- The limit of a scenario that ignores the probe's error.
abbrev pub or_zero : Option ℕ → ℕ
or_zero none = 0
or_zero (some n) = n

unfoldable pub safety_verdict : ℕ → ℕ → Report.Verdict
safety_verdict max_rolling60s effective_limit =
    if ltb (safety_bound effective_limit) max_rolling60s then Report.fail else Report.pass

abbrev with_note : Report.CustomerResult → List Report.Note → Report.CustomerResult
with_note c more = record c { notes = c.notes ++ more }

abbrev listed : Option Report.Note → List Report.Note
listed none = []
listed (some n) = n ∷ []

module _ (fl : Floats) where
  -- !(a >= b)
  abbrev at_least : fl.Float → fl.Float → Bool
  at_least a b = not (fl.is_greater b a)

  -- jitterNote; `seconds` is a whole number in every call.
  unfoldable pub jitter_note : ℕ → ℕ → ℕ → List Report.Note
  jitter_note admitted effective_limit seconds =
      if nat_beq effective_limit 0
      then []
      else (let expected =
            fl.quotient (fl.mul (fl.of_int effective_limit) (fl.of_int seconds)) (fl.of_int 60) in
          let pct = fl.mul (fl.quotient (fl.of_int admitted) expected) (fl.of_int 100) in
          if not (fl.is_greater expected (fl.of_int 0))
          then []
          else if at_least pct (fl.of_int 90)
          then []
          else Report.under_delivered effective_limit ∷ [])

  -- diffPct
  unfoldable pub diff_pct : ℕ → ℕ → fl.Float
  diff_pct a b =
      if nat_beq a 0 && nat_beq b 0
      then fl.of_int 0
      else (let max = if ltb a b then b else a in
          let diff = if ltb a b then b - a else a - b in
          fl.mul (fl.quotient (fl.of_int diff) (fl.of_int max)) (fl.of_int 100))

-- What northwind-batch adds to the row: its verdict, the notes of the scenario and the row's own.
-- The text of a rejection holds a division by a third of the limit; `none` is its panic.
unfoldable pub judge_batch :
    ℕ → ℤ → Report.CustomerResult → Option (Report.Verdict × List Report.Note × Report.Note)
judge_batch limit contracted c =
    if ltb_ℤ contracted (pos limit)
    then (let notes = Report.override_active limit contracted ∷ Report.never_a_429 ∷ [] in
        if ltb 0 c.rejected
        then (div? minute (limit / 3) >>= λ interval.
            some (Report.fail, notes, Report.rejected_in_override c.rejected c.sent limit interval))
        else some (c.verdict, notes, Report.no_429))
    else (let notes = Report.override_inactive limit ∷ Report.how_to_activate ∷ [] in
        if nat_beq c.rejected 0
        then some (Report.fail, notes, Report.no_cutoff)
        else some (c.verdict, notes, Report.cutoff_confirmed c.rejected c.sent))

module _ (fl : Floats) (sorting : Sorting) (format : Time → String)
    (logs : String → List String → Option (List (Option ServerLogLine))) where
  unfoldable pub make_customer_result : Env → String → ℕ → ℕ → List Record → Report.CustomerResult
  unfolding safety_verdict
  make_customer_result env customer_id offered_rpm effective_limit records =
      let a = summarize sorting records in
      record {
        customer_id = customer_id;
        contracted_limit = lookup_or (pos 0) customer_id env.contracted_limit;
        effective_limit = effective_limit;
        offered_rpm = offered_rpm;
        sent = a.sent;
        admitted = a.admitted;
        rejected = a.rejected;
        errored = a.errored;
        max_rolling60s = a.rolling.max;
        node_distribution = a.node_distribution;
        verdict = safety_verdict a.rolling.max effective_limit;
        notes = listed (cross_check format logs env.compose_file env.services customer_id records);
      }

  unfoldable pub two_tenants_fair :
      Env → Option ℕ → Option ℕ → List Record → List Record → Report.ScenarioResult
  unfolding make_customer_result jitter_note diff_pct
  two_tenants_fair env probe_a probe_b rec_a rec_b =
      let limit_a = or_zero probe_a in
      let limit_b = or_zero probe_b in
      let a = make_customer_result env "cust_harness_fair_a" 200 limit_a rec_a in
      let b = make_customer_result env "cust_harness_fair_b" 200 limit_b rec_b in
      record {
        name = "two-tenants-fair";
        customers =
            with_note a (jitter_note fl a.admitted limit_a 30)
            ∷ with_note b (jitter_note fl b.admitted limit_b 30)
            ∷ [];
        notes =
            Report.offered_both 200 limit_a
            ∷ Report.isolation_check
            ∷ (if fl.is_greater (diff_pct fl a.admitted b.admitted) (fl.of_int 15)
                then Report.counts_diverged a.admitted b.admitted
                else Report.counts_close a.admitted b.admitted)
            ∷ [];
      }

  unfoldable pub over_limit_cutoff : Env → Option ℕ → List Record → Report.ScenarioResult
  unfolding make_customer_result
  over_limit_cutoff env probe records =
      let limit = or_zero probe in
      let c = make_customer_result env "cust_harness_overlimit" 400 limit records in
      record {
        name = "over-limit-cutoff";
        customers = c ∷ [];
        notes =
            Report.offered_over 400 limit
            ∷ (if nat_beq c.rejected 0 then Report.no_rejections ∷ [] else []);
      }

  unfoldable pub window_boundary : Env → Option ℕ → List Record → Report.ScenarioResult
  unfolding make_customer_result jitter_note
  window_boundary env probe records =
      let limit = or_zero probe in
      let c = make_customer_result env "cust_harness_window" 100 limit records in
      let rolling = (summarize sorting records).rolling in
      record {
        name = "window-boundary";
        customers = c ∷ [];
        notes =
            (Report.offered_exact 100
              ∷ Report.minute_counts (format_minute_buckets (per_calendar_minute records []))
              ∷ Report.actual_proof rolling.max limit
              ∷ (if same_minute rolling.window_start rolling.window_end
                  then Report.within_minute
                  else Report.spans_boundary rolling.window_start rolling.window_end)
              ∷ [])
            ++ jitter_note fl c.admitted limit 150;
      }

  -- The row of a customer whose limit could not be read.
  abbrev unprobed : String → Report.CustomerResult
  unprobed customer_id = record {
    customer_id = customer_id;
    contracted_limit = pos 0;
    effective_limit = 0;
    offered_rpm = 0;
    sent = 0;
    admitted = 0;
    rejected = 0;
    errored = 0;
    max_rolling60s = 0;
    node_distribution = [];
    verdict = Report.fail;
    notes = Report.probe_failed ∷ [];
  }

  unfoldable pub northwind_batch : Env → Option ℕ → List Record → Option Report.ScenarioResult
  unfolding make_customer_result judge_batch
  northwind_batch env none records = some (record {
    name = "northwind-batch";
    customers = unprobed "cust_northwind_logistics" ∷ [];
    notes = Report.could_not_probe ∷ [];
  })
  northwind_batch env (some limit) records =
      let c = make_customer_result env "cust_northwind_logistics" 1200 limit records in
      judge_batch limit (lookup_or (pos 0) "cust_northwind_logistics" env.contracted_limit) c
      >>= λ r. some (record {
        name = "northwind-batch";
        customers = record c { verdict = r.0; notes = c.notes ++ (r.2 ∷ []) } ∷ [];
        notes = r.1;
      })

  -- `fired` says that the kill command ran before the offer ended.
  unfoldable pub node_failure : Env → Option ℕ → Bool → List Record → Report.ScenarioResult
  unfolding make_customer_result
  node_failure env probe fired records =
      let limit = or_zero probe in
      let c = make_customer_result env "cust_harness_nodefail" 90 limit records in
      let kills = not (env.kill_cmd == "") in
      record {
        name = "node-failure";
        customers = c ∷ [];
        notes =
            (if kills then [] else Report.no_kill_cmd ∷ [])
            ++ (if env.revive_cmd == "" then [] else Report.revived env.revive_cmd ∷ [])
            ++ (if kills && fired
                then Report.killed env.kill_at env.kill_cmd ∷ Report.node_stopped env.kill_at ∷ []
                else [])
            ++ (Report.only_condition limit ∷ []);
      }
