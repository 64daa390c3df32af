-- ===== src/Ratelimit/Store.antt =====
-- internal/ratelimit/store.go: the striped map of TATs. Each method holds its shard's mutex from
-- start to end, so one call is one atomic step. The hash of package hash/fnv is the parameter
-- `fnv32a`.
use native.Mathlib.Nat.{mod-lt}
use ti_assignment_promise_th.Base.{
  ℕ, ◌%◌, ◌<◌, ◌≡◌, refl, ap, ◌∙◌, inl, inr, String, Option, some, ◌>>=◌, List, [], ◌==◌,
  if◌then◌else◌, arith, string_eq, length, set, get_or, replicate, length-set, get_or-set_self,
  get_or-set_ne, get_or-replicate, Bool-cases, ℕ_discrete,
}
use ti_assignment_promise_th.Base.Dict.{Dict, lookup, lookup_or, insert, lookup_or-insert}
use ti_assignment_promise_th.Ratelimit.Gcra.{Time, Decision, zero_time}

abbrev pub num_shards : ℕ
num_shards = 32

abbrev pub Shard : Type 0
Shard = Dict String Time

pub record Store : Type 0 where
  pub shards : List Shard

unfoldable pub new_store : Store
new_store = record { shards = replicate num_shards [] }

-- The array of shards keeps its length.
pub record IsValid (s : Store) : Type 0 where
  pub full : length s.shards ≡ num_shards

module _ (fnv32a : String → ℕ) where
  -- The index that shardFor computes.
  unfoldable pub shard_for : String → ℕ
  shard_for key = fnv32a key % num_shards

  -- sh.state[key] of the key's shard.
  unfoldable pub tat_of : Store → String → Time
  unfolding shard_for
  tat_of s key = lookup_or zero_time key (get_or s.shards (shard_for key) [])

  -- sh.state[key] = tat
  unfoldable pub put_tat : Store → String → Time → Store
  unfolding shard_for
  put_tat s key tat =
      let i = shard_for key in
      record { shards = set s.shards i (insert key tat (get_or s.shards i [])) }

  unfoldable pub with_tat :
      Store → String → (Time → Option (Decision × Time)) → Option (Decision × Store)
  unfolding tat_of put_tat
  with_tat s key fn = do r ← fn (tat_of s key); some (r.0, put_tat s key r.1)

  shard_for-lt : (key : String) → shard_for key < num_shards
  unfolding shard_for
  shard_for-lt key = mod-lt (fnv32a key) (omega arith)

  pub put_tat-IsValid :
      (s : Store) (key : String) (tat : Time) → IsValid s → IsValid (put_tat s key tat)
  unfolding put_tat
  put_tat-IsValid s key tat v = record { full = length-set s.shards _ _ ∙ v.full }

  -- Customers do not share state, in one shard or in two.
  pub tat_of-put_tat :
      (s : Store) (key other : String) (tat : Time)
      → IsValid s
      → tat_of (put_tat s key tat) other ≡ (if key == other then tat else tat_of s other)
  unfolding tat_of put_tat
  tat_of-put_tat s key other tat v = elim (ℕ_discrete (shard_for key) (shard_for other)) [
    | yes e ↦ rw (← e) (
        rw (get_or-set_self s.shards (shard_for key) _ [] (rw v.full (shard_for-lt key)))
          (lookup_or-insert zero_time key other tat _))
    | no ne ↦
        rw (get_or-set_ne s.shards (shard_for key) (shard_for other) _ [] ne)
          (elim (Bool-cases (key == other)) [
            | inl same ↦ absurd (ne (ap shard_for ((string_eq.beq_iff key other).0 same)))
            | inr differ ↦ rw differ refl
          ])
  ]

pub new_store-IsValid : IsValid new_store
unfolding new_store
new_store-IsValid = record { full = refl }

-- A customer that was never seen has the zero time.
pub tat_of-new_store :
    (fnv32a : String → ℕ) (key : String) → tat_of fnv32a new_store key ≡ zero_time
unfolding tat_of new_store lookup_or
tat_of-new_store fnv32a key =
    rw (get_or-replicate {A = Shard} num_shards (fnv32a key % num_shards) [])
      (unfold lookup in refl)
