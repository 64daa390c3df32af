-- ===== src/Base/Go.antt =====
-- What the code uses of Go and its standard library, as interfaces: float64 and sort.Slice.
pub mod Samples
use ti_assignment_promise_th.Base.{
  ℕ, ◌*◌, ◌/◌, ◌^◌, ◌<◌, ◌≤◌, ◌≡◌, ◌∙◌, sym, refl, Bool, List, [], ◌∷◌, map, sum, count_if, arith,
  All, ltb, if◌then◌else◌,
}

-- float64. What the code relies on: for whole numbers whose product is exact in 53 bits, the
-- integer part of a quotient is the exact one.
pub record Floats : Type 1 where
  pub Float : Type 0
  pub of_int : ℕ → Float
  pub add : Float → Float → Float
  pub sub : Float → Float → Float
  pub mul : Float → Float → Float
  pub quotient : Float → Float → Float
  pub is_greater : Float → Float → Bool
  pub trunc : Float → ℕ
  pub trunc-quotient :
      (a b c : ℕ)
      → 1 ≤ c
      → a * b < 2 ^ 53
      → c < 2 ^ 53
      → trunc (quotient (mul (of_int a) (of_int b)) (of_int c)) ≡ a * b / c

-- No number is below one that stands before it.
abbrev pub IsAscending : List ℕ → Type 0
IsAscending [] = Unit
IsAscending (x ∷ xs) = All (λ y. x ≤ y) xs × IsAscending xs

-- sort.Slice with a comparison: the result has the items of the argument, each as often, so that
-- every measure of the items adds up to the same; numbers are sorted by `<`.
pub record Sorting : Type 1 where
  pub sort : {A : Type 0} → (A → A → Bool) → List A → List A
  pub sum-sort :
      {A : Type 0} (less : A → A → Bool) (f : A → ℕ) (xs : List A)
      → sum (map f (sort less xs)) ≡ sum (map f xs)
  pub sort-IsAscending : (xs : List ℕ) → IsAscending (sort (λ a b. ltb a b) xs)

one_if : Bool → ℕ
one_if b = if b then 1 else 0

count_if-sum :
    {A : Type 0} (test : A → Bool) (xs : List A)
    → count_if test xs ≡ sum (map (λ x. one_if (test x)) xs)
unfolding one_if
count_if-sum test [] = refl
count_if-sum test (x ∷ xs) = ground (arith, count_if-sum test xs)

pub count_if-sort :
    (sorting : Sorting) {A : Type 0} (less : A → A → Bool) (test : A → Bool) (xs : List A)
    → count_if test (sorting.sort less xs) ≡ count_if test xs
count_if-sort sorting less test xs =
    count_if-sum test (sorting.sort less xs)
    ∙ sorting.sum-sort less (λ x. one_if (test x)) xs
    ∙ sym (count_if-sum test xs)
