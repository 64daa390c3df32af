-- ===== src/Harness/Analysis/Exact.antt =====
-- maxRolling60s and summarize of cmd/harness/analysis.go: that the counts are those of the records.
use ti_assignment_promise_th.Base.{
  ℕ, ◌+◌, ◌-◌, ◌≤◌, ◌≡◌, ◌∙◌, refl, true, ◌&&◌, List, [], ◌∷◌, String, length, count_if,
  count_if-le, string_eq, arith, All,
}
use native.Mathlib.Nat.{le_antisymm}
use ti_assignment_promise_th.Base.Dict.{Dict, lookup, lookup_or, insert}
use ti_assignment_promise_th.Base.Go.{Sorting, IsAscending, count_if-sort}
use ti_assignment_promise_th.Ratelimit.Gcra.{Time, minute}
use ti_assignment_promise_th.Harness.Analysis.{
  Record, Aggregate, is_admitted, admitted_times, no_window, sorted_times, max_rolling60s, roll,
  tally, tally_all, summarize, no_records,
}
use ti_assignment_promise_th.Harness.Analysis.Rolling.{
  is_in_minute, is_before_end, roll-bound, roll-attained,
}

-- The responses that were admitted in the closed minute from `lo` on.
abbrev pub admitted_in_minute : Time → List Record → ℕ
admitted_in_minute lo = count_if (λ r. is_admitted r && is_in_minute lo r.received_at)

count_if-admitted_times :
    (lo : Time) (rs : List Record)
    → count_if (is_in_minute lo) (admitted_times rs) ≡ admitted_in_minute lo rs
unfolding admitted_times
count_if-admitted_times lo [] = refl
count_if-admitted_times lo (r ∷ rs) = ground (arith, count_if-admitted_times lo rs)

end_in_minute :
    (hi : Time) (xs : List Time)
    → All (λ x. is_before_end hi x ≡ true → is_in_minute (hi - minute) x ≡ true) xs
end_in_minute hi [] = tt
end_in_minute hi (x ∷ xs) = (λ e. ground arith, end_in_minute hi xs)

-- What the counts of a map add up to.
abbrev pub sum_values : Dict String ℕ → ℕ
sum_values [] = 0
sum_values ((k, v) ∷ m) = v + sum_values m

sum_values-insert :
    (k : String) (m : Dict String ℕ)
    → sum_values (insert k (lookup_or 0 k m + 1) m) ≤ sum_values m + 1
unfolding insert lookup_or lookup
sum_values-insert k [] = omega arith
sum_values-insert k ((i, w) ∷ m) = ground (arith, sum_values-insert k m)

tally_lem :
    (r : Record) (rs : List Record) (a : Aggregate)
    → a.sent ≡ a.admitted + a.rejected
    → sum_values a.node_distribution ≤ a.sent
    → let t = tally a r in
      (t.sent ≡ t.admitted + t.rejected)
      × (sum_values t.node_distribution ≤ t.sent)
      × (t.sent + t.errored ≡ a.sent + a.errored + 1)
      × (t.admitted + count_if is_admitted rs ≡ a.admitted + count_if is_admitted (r ∷ rs))
unfolding tally
tally_lem r rs a split nodes = ground (arith, sum_values-insert r.node_id a.node_distribution)

tally_all-accounts :
    (rs : List Record) (a : Aggregate)
    → a.sent ≡ a.admitted + a.rejected
    → sum_values a.node_distribution ≤ a.sent
    → let b = tally_all a rs in
      (b.admitted ≡ a.admitted + count_if is_admitted rs)
      × (b.sent ≡ b.admitted + b.rejected)
      × (b.sent + b.errored ≡ a.sent + a.errored + length rs)
      × (sum_values b.node_distribution ≤ b.sent)
unfolding tally_all tally
tally_all-accounts [] a split nodes = (omega arith, split, omega arith, nodes)
tally_all-accounts (r ∷ rs) a split nodes =
    let t = tally a r in
    let step : (t.sent ≡ t.admitted + t.rejected)
        × (sum_values t.node_distribution ≤ t.sent)
        × (t.sent + t.errored ≡ a.sent + a.errored + 1)
        × (t.admitted + count_if is_admitted rs ≡ a.admitted + count_if is_admitted (r ∷ rs)) =
      tally_lem r rs a split nodes in
    let (adm, snt, all, dist) = tally_all-accounts rs t step.0 step.1 in
    (adm ∙ step.3, snt, omega (arith, all, step.2), dist)

module _ (sorting : Sorting) where
  count_sorted :
      (lo : Time) (rs : List Record)
      → count_if (is_in_minute lo) (sorted_times sorting rs) ≡ admitted_in_minute lo rs
  unfolding sorted_times
  count_sorted lo rs =
      count_if-sort sorting _ (is_in_minute lo) (admitted_times rs) ∙ count_if-admitted_times lo rs

  sorted_times-IsAscending : (rs : List Record) → IsAscending (sorted_times sorting rs)
  unfolding sorted_times
  sorted_times-IsAscending rs = sorting.sort-IsAscending (admitted_times rs)

  -- MaxRolling60s is exact: no closed minute, wherever it starts, holds more admitted responses,
  -- and one holds as many. The records may come in any order.
  pub max_rolling60s-exact :
      (rs : List Record)
      → ((lo : Time) → admitted_in_minute lo rs ≤ (max_rolling60s sorting rs).max)
        × ((lo : Time) × (admitted_in_minute lo rs ≡ (max_rolling60s sorting rs).max))
  unfolding max_rolling60s
  max_rolling60s-exact rs =
      let times = sorted_times sorting rs in
      let best = roll times 0 times no_window in
      let bound : (lo : Time) → admitted_in_minute lo rs ≤ best.max = λ lo.
        rw (count_sorted lo rs) at (roll-bound lo times [] times no_window refl (omega arith)) in
      let reached =
        roll-attained times [] times no_window refl (sorted_times-IsAscending rs) (omega arith) in
      let inside =
        count_if-le (is_before_end best.window_end) (is_in_minute (best.window_end - minute)) times
          (end_in_minute best.window_end times) in
      (
        bound,
        (
          best.window_end - minute,
          le_antisymm (bound (best.window_end - minute))
              (omega (arith, reached, inside, count_sorted (best.window_end - minute) rs)),
        ),
      )

  pub summarize-accounts :
      (rs : List Record)
      → let a = summarize sorting rs in
        (a.admitted ≡ count_if is_admitted rs)
        × (a.sent ≡ a.admitted + a.rejected)
        × (a.sent + a.errored ≡ length rs)
        × (sum_values a.node_distribution ≤ a.sent)
  unfolding summarize
  summarize-accounts rs =
      let (adm, snt, all, dist) = tally_all-accounts rs (no_records no_window) refl (omega arith) in
      (omega (arith, adm), snt, omega (arith, all), dist)
