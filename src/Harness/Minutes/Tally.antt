-- ===== src/Harness/Minutes/Tally.antt =====
-- How often each minute stands among those that formatMinuteBuckets of cmd/harness sorts: once if a
-- response was admitted in it.
use mathlib.Core.List.{reverse, reverse-cons}
use ti_assignment_promise_th.Base.{
  ℕ, if◌then◌else◌, ◌+◌, ◌≡◌, refl, inl, inr, ◌&&◌, List, [], ◌∷◌, ◌++◌, count_if, arith,
  Bool-cases, ltb, nat_beq, nat_eq,
}
use ti_assignment_promise_th.Base.Dict.{Dict, lookup_or, lookup_or-insert, insert}
use ti_assignment_promise_th.Harness.Analysis.{Record, is_admitted, minute_of, per_calendar_minute}
use ti_assignment_promise_th.Harness.Minutes.{sift, sort_keys, keys_of}

-- How often a number stands in a list.
abbrev pub times_in : ℕ → List ℕ → ℕ
times_in k = count_if (λ j. nat_beq j k)

-- A write adds its key where it is new.
times_in-insert :
    (j v k : ℕ) (m : Dict ℕ ℕ)
    → times_in k (keys_of (insert j v m))
      ≡ (if nat_beq j k && nat_beq (times_in k (keys_of m)) 0 then 1 else times_in k (keys_of m))
unfolding insert
times_in-insert j v k [] = ground arith
times_in-insert j v k ((i, old) ∷ m) = ground (arith, times_in-insert j v k m)

-- The keys are the minutes with a count, each once.
abbrev pub IsTally : Dict ℕ ℕ → Type 0
IsTally m = (k : ℕ) → times_in k (keys_of m) ≡ (if ltb 0 (lookup_or 0 k m) then 1 else 0)

IsTally-insert : (j : ℕ) (m : Dict ℕ ℕ) → IsTally m → IsTally (insert j (lookup_or 0 j m + 1) m)
IsTally-insert j m h k = ground (
  arith,
  times_in-insert j (lookup_or 0 j m + 1) k m,
  lookup_or-insert 0 j k (lookup_or 0 j m + 1) m,
  h k,
)

pub per_calendar_minute-IsTally :
    (rs : List Record) (buckets : Dict ℕ ℕ)
    → IsTally buckets
    → IsTally (per_calendar_minute rs buckets)
unfolding per_calendar_minute
per_calendar_minute-IsTally [] buckets h = h
per_calendar_minute-IsTally (r ∷ rs) buckets h = elim (Bool-cases (is_admitted r)) [
  | inl yes_admitted ↦
      rw yes_admitted
        (per_calendar_minute-IsTally rs _ (IsTally-insert (minute_of r.received_at) buckets h))
  | inr not_admitted ↦ rw not_admitted (per_calendar_minute-IsTally rs buckets h)
]

times_in-sift : (k key : ℕ) (xs : List ℕ) → times_in k (sift key xs) ≡ times_in k (key ∷ xs)
unfolding sift
times_in-sift k key [] = refl
times_in-sift k key (x ∷ xs) = ground (arith, times_in-sift k key xs)

pub times_in-sort_keys :
    (k : ℕ) (ks xs : List ℕ) → times_in k (sort_keys ks xs) ≡ times_in k ks + times_in k xs
unfolding sort_keys
times_in-sort_keys k [] xs = omega arith
times_in-sort_keys k (key ∷ ks) xs =
    ground (arith, times_in-sort_keys k ks (sift key xs), times_in-sift k key xs)

times_in-snoc : (k x : ℕ) (xs : List ℕ) → times_in k (xs ++ x ∷ []) ≡ times_in k (x ∷ xs)
times_in-snoc k x [] = refl
times_in-snoc k x (y ∷ ys) = ground (arith, times_in-snoc k x ys)

pub times_in-reverse : (k : ℕ) (xs : List ℕ) → times_in k (reverse xs) ≡ times_in k xs
times_in-reverse k [] = refl
times_in-reverse k (x ∷ xs) =
    rw reverse-cons (ground (arith, times_in-snoc k x (reverse xs), times_in-reverse k xs))
