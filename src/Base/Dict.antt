-- ===== src/Base/Dict.antt =====
-- Go's maps as association lists, with their laws in the form of an `if`.
use ti_assignment_promise_th.Base.{
  ◌≡◌, refl, Option, none, some, List, [], ◌∷◌, arith, Eq, ◌==◌, if◌then◌else◌, ◌⊎◌, inl, inr,
  Bool-cases,
}

abbrev pub Dict {ℓ κ} : Type ℓ → Type κ → Type (ℓ ⊔ κ)
Dict K V = List (K × V)

module _ {ℓ κ} {K : Type ℓ} {V : Type κ} ⦃e : Eq K⦄ where
  -- m[k], `none` where the key is missing.
  unfoldable pub lookup : K → Dict K V → Option V
  lookup k [] = none
  lookup k ((i, w) ∷ m) = if i == k then some w else lookup k m

  -- m[k] = v
  unfoldable pub insert : K → V → Dict K V → Dict K V
  insert key new [] = (key, new) ∷ []
  insert key new ((i, old) ∷ m) = if i == key then (key, new) ∷ m else (i, old) ∷ insert key new m

  pub lookup-insert :
      (k j : K) (v : V) (m : Dict K V)
      → lookup j (insert k v m) ≡ (if k == j then some v else lookup j m)
  unfolding lookup insert
  lookup-insert key j v [] = refl
  lookup-insert key j v ((i, w) ∷ m) =
      ground (arith, e.beq_iff key j, e.beq_iff i key, e.beq_iff i j, lookup-insert key j v m)

  -- m[k], with Go's zero value `d` where the key is missing.
  unfoldable pub lookup_or : V → K → Dict K V → V
  unfolding lookup
  lookup_or d k m = elim (lookup k m) [ none ↦ d | some v ↦ v ]

  pub lookup_or-insert :
      (d : V) (k j : K) (v : V) (m : Dict K V)
      → lookup_or d j (insert k v m) ≡ (if k == j then v else lookup_or d j m)
  unfolding lookup_or
  lookup_or-insert d k j v m = ground (arith, lookup-insert k j v m)

  -- What a map holds after a write is the write or was there before.
  pub lookup-insert_cases :
      (k j : K) (v w : V) (m : Dict K V)
      → lookup j (insert k v m) ≡ some w
      → ((k ≡ j) × (v ≡ w)) ⊎ (lookup j m ≡ some w)
  lookup-insert_cases k j v w m h = elim (Bool-cases (k == j)) [
    | inl same ↦ inl ((e.beq_iff k j).0 same, ground (arith, lookup-insert k j v m))
    | inr differ ↦ inr (ground (arith, lookup-insert k j v m))
  ]
