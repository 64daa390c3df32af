-- ===== src/Harness/Minutes/Ordered.antt =====
-- The minutes that window-boundary of cmd/harness lists: in order, each with its count.
use mathlib.Core.List.{reverse, reverse-cons}
use ti_assignment_promise_th.Base.{
  ℕ, if◌then◌else◌, ◌+◌, ◌≤◌, ◌≡◌, ◌∙◌, ap, subst, refl, inl, inr, ◌&&◌, List, [], ◌∷◌, ◌++◌, map,
  count_if, arith, All, Bool-cases, ltb, nat_beq, nat_eq,
}
use ti_assignment_promise_th.Base.Dict.{Dict, lookup, lookup_or, lookup_or-insert, insert}
use ti_assignment_promise_th.Base.Go.{IsAscending}
use ti_assignment_promise_th.Harness.Analysis.{Record, is_admitted, minute_of, per_calendar_minute}
use ti_assignment_promise_th.Harness.Minutes.{sift, sort_keys, keys_of, format_minute_buckets}
use ti_assignment_promise_th.Harness.Minutes.Tally.{
  times_in, times_in-reverse, times_in-sort_keys, per_calendar_minute-IsTally,
}

-- No number is above one that stands before it.
abbrev IsDescending : List ℕ → Type 0
IsDescending [] = Unit
IsDescending (x ∷ xs) = All (λ y. y ≤ x) xs × IsDescending xs

All-sift : (P : ℕ → Type 0) (k : ℕ) (xs : List ℕ) → P k → All P xs → All P (sift k xs)
unfolding sift
All-sift P k [] pk ps = (pk, tt)
All-sift P k (x ∷ xs) pk (px, ps) = elim (Bool-cases (ltb k x)) [
  | inl less ↦ rw less (px, All-sift P k xs pk ps)
  | inr more ↦ rw more (pk, (px, ps))
]

All-above : (x k : ℕ) (xs : List ℕ) → x ≤ k → All (λ y. y ≤ x) xs → All (λ y. y ≤ k) xs
All-above x k [] h below = tt
All-above x k (y ∷ ys) h (b, below) = (omega arith, All-above x k ys h below)

sift-IsDescending : (k : ℕ) (xs : List ℕ) → IsDescending xs → IsDescending (sift k xs)
unfolding sift
sift-IsDescending k [] down = (tt, tt)
sift-IsDescending k (x ∷ xs) (below, down) = elim (Bool-cases (ltb k x)) [
  | inl less ↦
      rw less (All-sift (λ y. y ≤ x) k xs (ground arith) below, sift-IsDescending k xs down)
  | inr more ↦
      rw more let h : x ≤ k = ground arith in ((h, All-above x k xs h below), (below, down))
]

sort_keys-IsDescending : (ks xs : List ℕ) → IsDescending xs → IsDescending (sort_keys ks xs)
unfolding sort_keys
sort_keys-IsDescending [] xs down = down
sort_keys-IsDescending (k ∷ ks) xs down =
    sort_keys-IsDescending ks (sift k xs) (sift-IsDescending k xs down)

All-snoc : (P : ℕ → Type 0) (x : ℕ) (xs : List ℕ) → All P xs → P x → All P (xs ++ x ∷ [])
All-snoc P x [] ps px = (px, tt)
All-snoc P x (y ∷ ys) (py, ps) px = (py, All-snoc P x ys ps px)

IsAscending-snoc :
    (x : ℕ) (xs : List ℕ) → IsAscending xs → All (λ y. y ≤ x) xs → IsAscending (xs ++ x ∷ [])
IsAscending-snoc x [] up below = (tt, tt)
IsAscending-snoc x (y ∷ ys) (a, up) (b, below) =
    (All-snoc (λ z. y ≤ z) x ys a b, IsAscending-snoc x ys up below)

All-reverse : (P : ℕ → Type 0) (xs : List ℕ) → All P xs → All P (reverse xs)
All-reverse P [] ps = tt
All-reverse P (x ∷ xs) (p, ps) = rw reverse-cons (All-snoc P x (reverse xs) (All-reverse P xs ps) p)

reverse-IsAscending : (xs : List ℕ) → IsDescending xs → IsAscending (reverse xs)
reverse-IsAscending [] down = tt
reverse-IsAscending (x ∷ xs) (below, down) = rw reverse-cons (
    IsAscending-snoc x (reverse xs) (reverse-IsAscending xs down)
      (All-reverse (λ y. y ≤ x) xs below))

-- The admitted responses of a calendar minute.
abbrev pub admitted_in : ℕ → List Record → ℕ
admitted_in k = count_if (λ r. is_admitted r && nat_beq (minute_of r.received_at) k)

per_calendar_minute_lem :
    (rs : List Record) (buckets : Dict ℕ ℕ) (k : ℕ)
    → lookup_or 0 k (per_calendar_minute rs buckets) ≡ lookup_or 0 k buckets + admitted_in k rs
unfolding per_calendar_minute
per_calendar_minute_lem [] buckets k = omega arith
per_calendar_minute_lem (r ∷ rs) buckets k =
    let j = minute_of r.received_at in
    elim (Bool-cases (is_admitted r)) [
      | inl yes_admitted ↦
          let next = insert j (lookup_or 0 j buckets + 1) buckets in
          rw yes_admitted (
            per_calendar_minute_lem rs next k
            ∙ ground (arith, lookup_or-insert 0 j k (lookup_or 0 j buckets + 1) buckets))
      | inr not_admitted ↦ rw not_admitted (per_calendar_minute_lem rs buckets k)
    ]

abbrev pub IsCounted : List Record → ℕ × ℕ → Type 0
IsCounted rs entry = entry.1 ≡ admitted_in entry.0 rs

map-IsCounted :
    (rs : List Record) (ks : List ℕ)
    → All (IsCounted rs) (map (λ k. (k, lookup_or 0 k (per_calendar_minute rs []))) ks)
map-IsCounted rs [] = tt
map-IsCounted rs (k ∷ ks) = (
  per_calendar_minute_lem rs [] k ∙ (unfold lookup_or lookup in omega arith),
  map-IsCounted rs ks,
)

abbrev pub minute_key : ℕ × ℕ → ℕ
minute_key e = e.0

-- The minutes of the report, in its order.
abbrev pub minutes_listed : List Record → List ℕ
minutes_listed rs = map minute_key (format_minute_buckets (per_calendar_minute rs []))

map-first :
    (rs : List Record) (ks : List ℕ)
    → ks ≡ map minute_key (map (λ k. (k, lookup_or 0 k (per_calendar_minute rs []))) ks)
map-first rs [] = refl
map-first rs (k ∷ ks) = ap (λ r. k ∷ r) (map-first rs ks)

-- The report lists the calendar minutes in order, each with the number of admitted responses in it:
-- every minute in which a response was admitted stands in it exactly once, and no other does.
pub format_minute_buckets-ordered :
    (rs : List Record)
    → IsAscending (minutes_listed rs)
      × All (IsCounted rs) (format_minute_buckets (per_calendar_minute rs []))
      × ((k : ℕ) → times_in k (minutes_listed rs) ≡ (if ltb 0 (admitted_in k rs) then 1 else 0))
unfolding format_minute_buckets lookup_or lookup
format_minute_buckets-ordered rs =
    let buckets = per_calendar_minute rs [] in
    let ks = keys_of buckets in
    let listed = map-first rs (reverse (sort_keys ks [])) in
    (
      subst IsAscending listed
          (reverse-IsAscending (sort_keys ks []) (sort_keys-IsDescending ks [] tt)),
      map-IsCounted rs (reverse (sort_keys ks [])),
      λ k.
          subst (λ l. times_in k l ≡ (if ltb 0 (admitted_in k rs) then 1 else 0)) listed
            (times_in-reverse k (sort_keys ks [])
              ∙ ground (
                arith,
                times_in-sort_keys k ks [],
                per_calendar_minute-IsTally rs [] (λ j. refl) k,
                per_calendar_minute_lem rs [] k,
              )),
    )
