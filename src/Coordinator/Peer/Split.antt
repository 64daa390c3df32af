-- ===== src/Coordinator/Peer/Split.antt =====
-- proportionalSplit and evenWeights of internal/coordinator/peer.go, over interfaces for float64
-- and sort.Slice. Weights are the positive numbers that rebalanceCustomer makes.
pub mod Total
use ti_assignment_promise_th.Base.{
  ℕ, zero, suc, ◌+◌, ◌-◌, ◌*◌, List, [], ◌∷◌, map, length, sum, replicate, set, get_or,
  if◌then◌else◌, nat_beq,
}
use ti_assignment_promise_th.Base.Go.{Floats, Sorting}

pub even_weights : ℕ → List ℕ
even_weights n = replicate n 1

-- result[idx]++
unfoldable pub bump : List ℕ → ℕ → List ℕ
bump result idx = set result idx (get_or result idx 0 + 1)

module _ (fl : Floats) (sorting : Sorting) where
  pub record Remainder : Type 0 where
    pub idx : ℕ
    pub rem : fl.Float

  unfoldable pub exact_part : ℕ → ℕ → ℕ → fl.Float
  exact_part total sum w = fl.quotient (fl.mul (fl.of_int total) (fl.of_int w)) (fl.of_int sum)

  -- The floors of the exact parts.
  unfoldable pub floors : ℕ → ℕ → List ℕ → List ℕ
  floors total sum [] = []
  floors total sum (w ∷ weights) = fl.trunc (exact_part total sum w) ∷ floors total sum weights

  -- The fractions that the floors leave, with their indices from `i` on.
  unfoldable pub remainders : ℕ → ℕ → ℕ → List ℕ → List Remainder
  remainders total sum i [] = []
  remainders total sum i (w ∷ weights) =
      let exact = exact_part total sum w in
      record { idx = i; rem = fl.sub exact (fl.of_int (fl.trunc exact)) }
      ∷ remainders total sum (i + 1) weights

  -- The loop that hands out the leftover, one to each index in the remainders' order.
  unfoldable pub hand_out : ℕ → List Remainder → List ℕ → List ℕ
  hand_out zero rems result = result
  hand_out (suc leftover) [] result = result
  hand_out (suc leftover) (r ∷ rems) result = hand_out leftover rems (bump result r.idx)

  -- The part of proportionalSplit below the check for a zero sum. Where the floors exceed the
  -- total, the leftover is negative and the loop does not run; `-` gives 0.
  unfoldable pub split_by : ℕ → List ℕ → List ℕ
  unfolding floors remainders hand_out
  split_by total weights =
      let s = sum weights in
      let result = floors total s weights in
      let rems = sorting.sort (λ a b. fl.is_greater a.rem b.rem) (remainders total s 0 weights) in
      hand_out (total - sum result) rems result

  unfoldable pub proportional_split : ℕ → List ℕ → List ℕ
  unfolding split_by
  proportional_split total [] = []
  proportional_split total (w ∷ weights) =
      if nat_beq (sum (w ∷ weights)) 0
      then split_by total (even_weights (length (w ∷ weights)))
      else split_by total (w ∷ weights)
