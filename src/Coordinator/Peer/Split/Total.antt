-- ===== src/Coordinator/Peer/Split/Total.antt =====
-- What the parts of proportionalSplit (internal/coordinator/peer.go) add up to.
use native.Mathlib.Nat.{div-add-mod, mod-lt}
use ti_assignment_promise_th.Base.{
  ℕ, zero, suc, ◌+◌, ◌-◌, ◌*◌, ◌/◌, ◌^◌, ◌≤◌, ◌<◌, ◌≡◌, ◌∙◌, refl, Bool, true, List, [], ◌∷◌,
  length, sum, replicate, set, get_or, count_if, length-set, length-replicate, arith, nat_beq, leb,
  Bool-cases, inl, inr,
}
use ti_assignment_promise_th.Base.Go.{Floats, Sorting, count_if-sort}
use ti_assignment_promise_th.Coordinator.Peer.Split.{
  Remainder, exact_part, floors, remainders, bump, hand_out, split_by, proportional_split,
  even_weights,
}

sum-set : (xs : List ℕ) (i v : ℕ) → i < length xs → sum (set xs i v) + get_or xs i 0 ≡ sum xs + v
sum-set [] i v h = omega arith
sum-set (x ∷ xs) zero v h = omega arith
sum-set (x ∷ xs) (suc i) v h = omega (arith, sum-set xs i v (omega arith))

sum-replicate_one : (n : ℕ) → sum (replicate n 1) ≡ n
sum-replicate_one zero = refl
sum-replicate_one (suc n) = omega (arith, sum-replicate_one n)

quotient_bounds : (a q : ℕ) → 1 ≤ q → (q * (a / q) ≤ a) × (a ≤ q * (a / q) + q)
quotient_bounds a q h = (omega (arith, div-add-mod a q), omega (arith, div-add-mod a q, mod-lt a h))

cancel_le : (s a b : ℕ) → 1 ≤ s → s * a ≤ b * s → a ≤ b
cancel_le s a b hs h = grind arith

module _ (fl : Floats) (sorting : Sorting) where
  -- The remainder's index lies beyond a list of `n` items.
  abbrev is_beyond : ℕ → Remainder fl sorting → Bool
  is_beyond n r = leb n r.idx

  abbrev any_item : Remainder fl sorting → Bool
  any_item r = true

  sum-hand_out :
      (n : ℕ) (rems : List (Remainder fl sorting)) (result : List ℕ)
      → count_if (is_beyond (length result)) rems ≡ 0
      → n ≤ count_if any_item rems
      → sum (hand_out fl sorting n rems result) ≡ sum result + n
  unfolding hand_out bump
  sum-hand_out zero rems result inside enough = omega arith
  sum-hand_out (suc n) [] result inside enough = omega arith
  sum-hand_out (suc n) (r ∷ rems) result inside enough =
      let same = length-set result r.idx (get_or result r.idx 0 + 1) in
      let rest = sum-hand_out n rems (bump result r.idx) (rw same (ground arith)) (omega arith) in
      omega (arith, rest, sum-set result r.idx (get_or result r.idx 0 + 1) (ground arith))

  length-floors : (t s : ℕ) (ws : List ℕ) → length (floors fl sorting t s ws) ≡ length ws
  unfolding floors
  length-floors t s [] = refl
  length-floors t s (w ∷ ws) = omega (arith, length-floors t s ws)

  remainders-all :
      (t s i : ℕ) (ws : List ℕ) → count_if any_item (remainders fl sorting t s i ws) ≡ length ws
  unfolding remainders
  remainders-all t s i [] = refl
  remainders-all t s i (w ∷ ws) = omega (arith, remainders-all t s (i + 1) ws)

  remainders-inside :
      (t s i n : ℕ) (ws : List ℕ)
      → i + length ws ≤ n
      → count_if (is_beyond n) (remainders fl sorting t s i ws) ≡ 0
  unfolding remainders
  remainders-inside t s i n [] h = refl
  remainders-inside t s i n (w ∷ ws) h =
      ground (arith, remainders-inside t s (i + 1) n ws (omega arith))

  sum-floors :
      (t s : ℕ) (ws : List ℕ)
      → 1 ≤ s
      → s < 2 ^ 53
      → t * sum ws < 2 ^ 53
      → (s * sum (floors fl sorting t s ws) ≤ t * sum ws)
        × (t * sum ws ≤ s * (sum (floors fl sorting t s ws) + length ws))
  unfolding floors exact_part
  sum-floors t s [] hs small exact = omega arith
  sum-floors t s (w ∷ ws) hs small exact =
      let (below, above) = sum-floors t s ws hs small (omega arith) in
      let whole : fl.trunc (exact_part fl sorting t s w) ≡ t * w / s =
        fl.trunc-quotient t w s hs (omega arith) small in
      let (low, high) = quotient_bounds (t * w) s hs in rw whole (omega arith, omega arith)

  unfoldable sorted : ℕ → ℕ → List ℕ → List (Remainder fl sorting)
  sorted t s ws = sorting.sort (λ a b. fl.is_greater a.rem b.rem) (remainders fl sorting t s 0 ws)

  sum-split_by :
      (t : ℕ) (ws : List ℕ)
      → 1 ≤ sum ws
      → sum ws < 2 ^ 53
      → t * sum ws < 2 ^ 53
      → sum (split_by fl sorting t ws) ≡ t
  unfolding split_by sorted
  sum-split_by t ws hs small exact =
      let s = sum ws in
      let parts = floors fl sorting t s ws in
      let (below, above) = sum-floors t s ws hs small exact in
      let fits : sum parts ≤ t = cancel_le s _ _ hs below in
      let few : t ≤ sum parts + length ws = cancel_le s _ _ hs (omega arith) in
      let rems = remainders fl sorting t s 0 ws in
      let inside : count_if (is_beyond (length parts)) (sorted t s ws) ≡ 0 =
        count_if-sort sorting _ (is_beyond (length parts)) rems
        ∙ remainders-inside t s 0 (length parts) ws (omega (arith, length-floors t s ws)) in
      let many : count_if any_item (sorted t s ws) ≡ length ws =
        count_if-sort sorting _ any_item rems ∙ remainders-all t s 0 ws in
      omega (arith, sum-hand_out (t - sum parts) _ parts inside (omega arith))

  -- The parts add up to exactly the total, for any non-empty weights whose products with the
  -- total are exact in 53 bits.
  pub proportional_split-sum :
      (t w : ℕ) (ws : List ℕ)
      → t * (sum (w ∷ ws) + length (w ∷ ws)) < 2 ^ 53
      → sum (w ∷ ws) + length (w ∷ ws) < 2 ^ 53
      → sum (proportional_split fl sorting t (w ∷ ws)) ≡ t
  unfolding proportional_split even_weights
  proportional_split-sum t w ws exact small = elim (Bool-cases (nat_beq (sum (w ∷ ws)) 0)) [
    | inl none_asked ↦ rw none_asked (
        sum-split_by t (replicate (length (w ∷ ws)) 1)
          (omega (arith, sum-replicate_one (length (w ∷ ws))))
          (omega (arith, sum-replicate_one (length (w ∷ ws))))
          (rw (sum-replicate_one (length (w ∷ ws))) (omega arith)))
    | inr asked ↦ rw asked (sum-split_by t (w ∷ ws) (ground arith) (omega arith) (omega arith))
  ]

  length-hand_out :
      (n : ℕ) (rems : List (Remainder fl sorting)) (result : List ℕ)
      → length (hand_out fl sorting n rems result) ≡ length result
  unfolding hand_out bump
  length-hand_out zero rems result = refl
  length-hand_out (suc n) [] result = refl
  length-hand_out (suc n) (r ∷ rems) result =
      length-hand_out n rems (bump result r.idx)
      ∙ length-set result r.idx (get_or result r.idx 0 + 1)

  length-split_by : (t : ℕ) (ws : List ℕ) → length (split_by fl sorting t ws) ≡ length ws
  unfolding split_by sorted
  length-split_by t ws =
      length-hand_out (t - sum (floors fl sorting t (sum ws) ws)) (sorted t (sum ws) ws)
        (floors fl sorting t (sum ws) ws)
      ∙ length-floors t (sum ws) ws

  -- One part for each weight.
  pub length-proportional_split :
      (t : ℕ) (ws : List ℕ) → length (proportional_split fl sorting t ws) ≡ length ws
  unfolding proportional_split even_weights
  length-proportional_split t [] = refl
  length-proportional_split t (w ∷ ws) = elim (Bool-cases (nat_beq (sum (w ∷ ws)) 0)) [
    | inl none_asked ↦
        rw none_asked
          (length-split_by t (replicate (length (w ∷ ws)) 1) ∙ length-replicate (length (w ∷ ws)) 1)
    | inr asked ↦ rw asked (length-split_by t (w ∷ ws))
  ]
