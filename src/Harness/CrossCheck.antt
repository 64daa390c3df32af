-- ===== src/Harness/CrossCheck.antt =====
-- cmd/harness/crosscheck.go, and Env.crossCheck of scenarios.go: the admissions that the nodes'
-- logs tell of, next to the harness's own count. What docker prints, the decoding of a line and the
-- text of an instant are parameters.
use Prim.Native.String.{compare}
use Prim.Native.Nat.{Ordering}
use ti_assignment_promise_th.Base.{
  ℕ, ◌+◌, Bool, true, false, not, ◌||◌, ◌&&◌, String, Option, none, some, List, [], ◌∷◌, ◌==◌,
  count_if, if◌then◌else◌, ltb, nat_beq, string_eq,
}
use ti_assignment_promise_th.Ratelimit.Gcra.{Time}
use ti_assignment_promise_th.Harness.Analysis.{Record, is_admitted}
use ti_assignment_promise_th.Harness.Report.{
  Note, cross_check_skipped, cross_check_ok, cross_check_mismatch,
}

-- serverLogLine, the fields that are read.
pub record ServerLogLine : Type 0 where
  pub time : String
  pub msg : String
  pub customer_id : String
  pub allowed : Bool

abbrev pub is_less : String → String → Bool
is_less a b = elim (compare a b) [ Ordering.lt ↦ true | _ ↦ false ]

-- The entry is one of the customer's admissions in the window.
unfoldable pub is_counted : String → String → String → ServerLogLine → Bool
is_counted customer_id start end entry =
    if not (entry.msg == "request_admission") || not (entry.customer_id == customer_id)
    then false
    else not (is_less entry.time start) && not (is_less end entry.time)

-- The loop of fetchServerAdmittedCount; `none` is a line without an entry.
unfoldable pub count_lines :
    String → String → String → List (Option ServerLogLine) → (ℕ × ℕ) → ℕ × ℕ
unfolding is_counted
count_lines customer_id start end [] counts = counts
count_lines customer_id start end (none ∷ lines) counts =
    count_lines customer_id start end lines counts
count_lines customer_id start end (some entry ∷ lines) counts =
    count_lines customer_id start end lines (
      if is_counted customer_id start end entry
      then (counts.0 + 1, if entry.allowed then counts.1 + 1 else counts.1)
      else counts)

module _ (format : Time → String)
    (logs : String → List String → Option (List (Option ServerLogLine))) where
  -- crossCheckAgainstServerLogs; `none` is a docker that fails.
  unfoldable pub cross_check_against_server_logs :
      String → List String → String → Time → Time → ℕ → Note
  unfolding count_lines
  cross_check_against_server_logs compose_file services customer_id start end client =
      elim (logs compose_file services) [
        | none ↦ cross_check_skipped
        | some lines ↦
            let counts = count_lines customer_id (format start) (format end) lines (0, 0) in
            if nat_beq counts.1 client
            then cross_check_ok counts.1 counts.0 client
            else cross_check_mismatch counts.1 counts.0 client
      ]

  -- The earliest send and the latest receipt.
  unfoldable pub record_window : List Record → Time × Time → Time × Time
  record_window [] window = window
  record_window (r ∷ rs) window = record_window rs (
    if ltb r.sent_at window.0 then r.sent_at else window.0,
    if ltb window.1 r.received_at then r.received_at else window.1,
  )

  -- Env.crossCheck; `none` is the empty text.
  unfoldable pub cross_check : String → List String → String → List Record → Option Note
  unfolding record_window cross_check_against_server_logs
  cross_check compose_file services customer_id [] = none
  cross_check compose_file services customer_id (r ∷ rs) =
      if compose_file == ""
      then none
      else (let window = record_window (r ∷ rs) (r.sent_at, r.received_at) in
          some (
            cross_check_against_server_logs compose_file services customer_id window.0 window.1
              (count_if is_admitted (r ∷ rs))))
