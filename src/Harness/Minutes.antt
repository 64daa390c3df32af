-- ===== src/Harness/Minutes.antt =====
-- formatMinuteBuckets and sameMinute of cmd/harness/scenarios.go: the admissions of each calendar
-- minute, by its number. The inner loop moves a key left past the greater ones, so the sorted part
-- is held with its last key first.
pub mod Tally
pub mod Ordered
use mathlib.Core.List.{reverse}
use ti_assignment_promise_th.Base.{
  ℕ, ◌/◌, Bool, List, [], ◌∷◌, if◌then◌else◌, ltb, nat_beq, nat_eq, map,
}
use ti_assignment_promise_th.Base.Dict.{Dict, lookup_or}
use ti_assignment_promise_th.Ratelimit.Gcra.{Time, minute}

unfoldable pub sift : ℕ → List ℕ → List ℕ
sift key [] = key ∷ []
sift key (prev ∷ sorted) =
    let rest = sift key sorted in if ltb key prev then prev ∷ rest else key ∷ prev ∷ sorted

unfoldable pub sort_keys : List ℕ → List ℕ → List ℕ
unfolding sift
sort_keys [] sorted = sorted
sort_keys (key ∷ keys) sorted = sort_keys keys (sift key sorted)

abbrev pub keys_of : Dict ℕ ℕ → List ℕ
keys_of [] = []
keys_of ((k, n) ∷ m) = k ∷ keys_of m

-- The pairs that the text lists.
unfoldable pub format_minute_buckets : Dict ℕ ℕ → List (ℕ × ℕ)
unfolding sort_keys
format_minute_buckets buckets =
    map (λ k. (k, lookup_or 0 k buckets)) (reverse (sort_keys (keys_of buckets) []))

-- a.Truncate(time.Minute).Equal(b.Truncate(time.Minute))
abbrev pub same_minute : Time → Time → Bool
same_minute a b = nat_beq (a / minute) (b / minute)
