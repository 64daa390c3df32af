-- ===== src/Base/Go/Samples.antt =====
-- Concrete instances of the interfaces to Go's library: fractions of whole numbers for float64 and
-- an insertion sort for sort.Slice.
use ti_assignment_promise_th.Base.{
  ℕ, ◌+◌, ◌-◌, ◌*◌, ◌/◌, ◌≤◌, ◌≡◌, refl, inl, inr, Bool, List, [], ◌∷◌, map, sum, arith, All, ltb,
  if◌then◌else◌, Bool-cases,
}
use ti_assignment_promise_th.Base.Go.{Floats, Sorting, IsAscending}

pub whole_quotient : (a b c : ℕ) → (a * b * 1) / (1 * 1 * c) ≡ a * b / c
whole_quotient a b c = ground arith

abbrev pub fractions : Floats
fractions = record {
  Float = ℕ × ℕ;
  of_int = λ n. (n, 1);
  add = λ x y. (x.0 * y.1 + y.0 * x.1, x.1 * y.1);
  sub = λ x y. (x.0 * y.1 - y.0 * x.1, x.1 * y.1);
  mul = λ x y. (x.0 * y.0, x.1 * y.1);
  quotient = λ x y. (x.0 * y.1, x.1 * y.0);
  is_greater = λ x y. ltb (y.0 * x.1) (x.0 * y.1);
  trunc = λ x. x.0 / x.1;
  trunc-quotient = λ a b c hc hab small. whole_quotient a b c;
}

abbrev pub insert_in : {A : Type 0} → (A → A → Bool) → A → List A → List A
insert_in less x [] = x ∷ []
insert_in less x (y ∷ ys) =
    let rest = insert_in less x ys in if less x y then x ∷ y ∷ ys else y ∷ rest

abbrev pub insertion_sort : {A : Type 0} → (A → A → Bool) → List A → List A
insertion_sort less [] = []
insertion_sort less (x ∷ xs) = insert_in less x (insertion_sort less xs)

sum-insert_in :
    {A : Type 0} (less : A → A → Bool) (f : A → ℕ) (x : A) (ys : List A)
    → sum (map f (insert_in less x ys)) ≡ f x + sum (map f ys)
sum-insert_in less f x [] = refl
sum-insert_in less f x (y ∷ ys) = ground (arith, sum-insert_in less f x ys)

pub sum-insertion_sort :
    {A : Type 0} (less : A → A → Bool) (f : A → ℕ) (xs : List A)
    → sum (map f (insertion_sort less xs)) ≡ sum (map f xs)
sum-insertion_sort less f [] = refl
sum-insertion_sort less f (x ∷ xs) =
    omega (arith, sum-insertion_sort less f xs, sum-insert_in less f x (insertion_sort less xs))

All-insert_in :
    (P : ℕ → Type 0) (x : ℕ) (ys : List ℕ)
    → P x
    → All P ys
    → All P (insert_in (λ a b. ltb a b) x ys)
All-insert_in P x [] px ps = (px, tt)
All-insert_in P x (y ∷ ys) px (py, ps) = elim (Bool-cases (ltb x y)) [
  | inl less ↦ rw less (px, (py, ps))
  | inr more ↦ rw more (py, All-insert_in P x ys px ps)
]

All-weaken : (x y : ℕ) (ys : List ℕ) → x ≤ y → All (λ z. y ≤ z) ys → All (λ z. x ≤ z) ys
All-weaken x y [] h below = tt
All-weaken x y (z ∷ ys) h (b, below) = (omega arith, All-weaken x y ys h below)

insert_in-IsAscending :
    (x : ℕ) (ys : List ℕ) → IsAscending ys → IsAscending (insert_in (λ a b. ltb a b) x ys)
insert_in-IsAscending x [] up = (tt, tt)
insert_in-IsAscending x (y ∷ ys) (below, up) = elim (Bool-cases (ltb x y)) [
  | inl less ↦ rw less let h : x ≤ y = ground arith in ((h, All-weaken x y ys h below), (below, up))
  | inr more ↦
      rw more (All-insert_in (λ z. y ≤ z) x ys (ground arith) below, insert_in-IsAscending x ys up)
]

pub insertion_sort-IsAscending : (xs : List ℕ) → IsAscending (insertion_sort (λ a b. ltb a b) xs)
insertion_sort-IsAscending [] = tt
insertion_sort-IsAscending (x ∷ xs) =
    insert_in-IsAscending x (insertion_sort (λ a b. ltb a b) xs) (insertion_sort-IsAscending xs)

abbrev pub sorting : Sorting
sorting = record {
  sort = insertion_sort;
  sum-sort = sum-insertion_sort;
  sort-IsAscending = insertion_sort-IsAscending;
}
