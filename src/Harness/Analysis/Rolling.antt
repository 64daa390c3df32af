-- ===== src/Harness/Analysis/Rolling.antt =====
-- maxRolling60s of cmd/harness/analysis.go against its definition: the most admitted responses in
-- any sixty seconds, both ends included.
use ti_assignment_promise_th.Base.{
  ℕ, ◌+◌, ◌-◌, ◌≤◌, ◌≡◌, ◌∙◌, sym, subst, inl, inr, Bool, true, ◌&&◌, List, [], ◌∷◌, ◌++◌, length,
  count_if, count_if-le-length, count_if-append, count_if-le, length-snoc, get_or, arith, All,
  Bool-cases, ltb, leb, if◌then◌else◌,
}
use mathlib.Core.List.{append_assoc, append-nil}
use ti_assignment_promise_th.Base.Go.{IsAscending}
use ti_assignment_promise_th.Ratelimit.Gcra.{Time, minute, zero_time}
use ti_assignment_promise_th.Harness.Analysis.{RollingMax, search_first, is_recent, roll}

-- The instant lies in the closed minute that starts at `lo`.
abbrev pub is_in_minute : Time → Time → Bool
is_in_minute lo x = leb lo x && leb x (lo + minute)

-- The instant lies in the closed minute that ends at `hi`.
abbrev pub is_before_end : Time → Time → Bool
is_before_end hi x = is_recent hi x && leb x hi

-- What a search passes over and what passes its test from there on are within the list.
search_first-le :
    (test : Time → Bool) (pre rest : List Time) (t : Time)
    → test t ≡ true
    → search_first test (pre ++ t ∷ rest) + count_if test (pre ++ t ∷ []) ≤ length pre + 1
unfolding search_first
search_first-le test [] rest t h = ground arith
search_first-le test (x ∷ pre) rest t h = ground (
  arith,
  search_first-le test pre rest t h,
  count_if-le-length test (pre ++ t ∷ []),
  length-snoc pre t,
)

All-recent :
    (hi x : Time) (pre rest : List Time) (t : Time)
    → is_recent hi x ≡ true
    → All (λ y. x ≤ y) (pre ++ t ∷ rest)
    → length pre + 1 ≤ count_if (is_recent hi) (pre ++ t ∷ [])
All-recent hi x [] rest t h (b, below) = ground arith
All-recent hi x (y ∷ pre) rest t h (b, below) = ground (arith, All-recent hi x pre rest t h below)

-- In an ascending list all that follows a recent instant is recent, so the search finds exactly the
-- rest.
search_first-recent :
    (hi : Time) (pre rest : List Time) (t : Time)
    → is_recent hi t ≡ true
    → IsAscending (pre ++ t ∷ rest)
    → length pre + 1
      ≤ search_first (is_recent hi) (pre ++ t ∷ rest) + count_if (is_recent hi) (pre ++ t ∷ [])
unfolding search_first
search_first-recent hi [] rest t h up = ground arith
search_first-recent hi (x ∷ pre) rest t h (below, up) = elim (Bool-cases (is_recent hi x)) [
  | inl found ↦ rw found (omega (arith, All-recent hi x pre rest t found below))
  | inr old ↦ rw old (omega (arith, search_first-recent hi pre rest t h up))
]

-- The better of what was found and a new window.
abbrev better : List Time → ℕ → Time → RollingMax → RollingMax
better times i t best =
    let lo = search_first (is_recent t) times in
    let count = i + 1 - lo in
    if ltb best.max count
    then record { max = count; window_start = get_or times lo zero_time; window_end = t }
    else best

better_max :
    (times : List Time) (i : ℕ) (t : Time) (best : RollingMax)
    → (best.max ≤ (better times i t best).max)
      × (i + 1 - search_first (is_recent t) times ≤ (better times i t best).max)
better_max times i t best = ground arith

recent_self : (t : Time) → is_recent t t ≡ true
recent_self t = ground arith

in_minute-recent :
    (lo t : Time) (xs : List Time)
    → t ≤ lo + minute
    → All (λ x. is_in_minute lo x ≡ true → is_recent t x ≡ true) xs
in_minute-recent lo t [] h = tt
in_minute-recent lo t (x ∷ xs) h = (λ e. ground arith, in_minute-recent lo t xs h)

-- Every window is counted at its last instant.
pub roll-bound :
    (lo : Time) (times pre rest : List Time) (best : RollingMax)
    → times ≡ pre ++ rest
    → count_if (is_in_minute lo) pre ≤ best.max
    → count_if (is_in_minute lo) times ≤ (roll times (length pre) rest best).max
unfolding roll
roll-bound lo times pre [] best e seen = rw (e, append-nil) seen
roll-bound lo times pre (t ∷ rest) best e seen =
    let snoc = length-snoc pre t in
    let (kept, counted) = better_max times (length pre) t best in
    let seen' : count_if (is_in_minute lo) (pre ++ t ∷ [])
        ≤ (better times (length pre) t best).max =
      elim (Bool-cases (is_in_minute lo t)) [
        | inl inside ↦
            let inner =
              count_if-le (is_in_minute lo) (is_recent t) (pre ++ t ∷ [])
                (in_minute-recent lo t (pre ++ t ∷ []) (ground arith)) in
            let found = search_first-le (is_recent t) pre rest t (recent_self t) in
            let at_t : search_first (is_recent t) times + count_if (is_recent t) (pre ++ t ∷ [])
                ≤ length pre + 1 =
              rw e found in
            omega (arith, inner, at_t, counted)
        | inr outside ↦ ground (arith, count_if-append (is_in_minute lo) pre (t ∷ []), kept)
      ] in
    let rest_bound =
      roll-bound lo times (pre ++ t ∷ []) rest (better times (length pre) t best)
        (e ∙ sym (append_assoc pre (t ∷ []) rest)) seen' in
    rw snoc at rest_bound

All-middle :
    (x : Time) (pre rest : List Time) (t : Time) → All (λ y. x ≤ y) (pre ++ t ∷ rest) → x ≤ t
All-middle x [] rest t (b, below) = b
All-middle x (y ∷ pre) rest t (b, below) = All-middle x pre rest t below

All-below :
    (pre rest : List Time) (t : Time)
    → IsAscending (pre ++ t ∷ rest)
    → All (λ x. is_recent t x ≡ true → is_before_end t x ≡ true) (pre ++ t ∷ [])
All-below [] rest t up = (λ e. ground arith, tt)
All-below (x ∷ pre) rest t (below, up) =
    (λ e. ground (arith, All-middle x pre rest t below), All-below pre rest t up)

-- The count that a new window starts with lies in that window.
counted_inside :
    (times pre rest : List Time) (t : Time)
    → times ≡ pre ++ t ∷ rest
    → IsAscending times
    → length pre + 1 - search_first (is_recent t) times ≤ count_if (is_before_end t) times
counted_inside times pre rest t e up =
    let up' : IsAscending (pre ++ t ∷ rest) = subst IsAscending e up in
    let found = search_first-recent t pre rest t (recent_self t) up' in
    let inner =
      count_if-le (is_recent t) (is_before_end t) (pre ++ t ∷ []) (All-below pre rest t up') in
    let whole = count_if-append (is_before_end t) (pre ++ t ∷ []) rest in
    rw e (omega (arith, found, inner, rw (append_assoc pre (t ∷ []) rest) at whole))

-- The largest count is that of the window that ends where it was found.
pub roll-attained :
    (times pre rest : List Time) (best : RollingMax)
    → times ≡ pre ++ rest
    → IsAscending times
    → best.max ≤ count_if (is_before_end best.window_end) times
    → (roll times (length pre) rest best).max
      ≤ count_if (is_before_end (roll times (length pre) rest best).window_end) times
unfolding roll
roll-attained times pre [] best e up seen = seen
roll-attained times pre (t ∷ rest) best e up seen =
    let next = better times (length pre) t best in
    let seen' : next.max ≤ count_if (is_before_end next.window_end) times =
      elim (Bool-cases (ltb best.max (length pre + 1 - search_first (is_recent t) times))) [
        | inl more ↦ rw more (counted_inside times pre rest t e up)
        | inr same ↦ rw same seen
      ] in
    let rest_bound =
      roll-attained times (pre ++ t ∷ []) rest next (e ∙ sym (append_assoc pre (t ∷ []) rest)) up
        seen' in
    rw (length-snoc pre t) at rest_bound
