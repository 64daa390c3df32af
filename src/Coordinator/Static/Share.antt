-- ===== src/Coordinator/Static/Share.antt =====
-- nodeShare of internal/coordinator/static.go and safetyBound of cmd/harness/scenarios.go: what the
-- shares of all nodes add up to.
use native.Mathlib.Nat.{mul-mod_right}
use ti_assignment_promise_th.Base.{
  ℕ, ◌+◌, ◌-◌, ◌*◌, ◌/◌, ◌≤◌, ◌<◌, ◌≡◌, ◌≢◌, ◌%◌, some, arith, div?-eq, ceil_div, pos_of_mul,
  ℕ_discrete,
}
use ti_assignment_promise_th.Coordinator.{node_share, node_burst}

-- nodeShare as a number.
unfoldable pub share_of : ℕ → ℕ → ℕ
share_of global_limit node_count = (global_limit + node_count - 1) / node_count

pub node_share-eq : (g n : ℕ) → 1 ≤ n → node_share g n ≡ some (share_of g n)
unfolding node_share share_of
node_share-eq g n h = div?-eq (g + n - 1) n h

pub share_of-bounds : (g n : ℕ) → 1 ≤ n → (g ≤ n * share_of g n) × (n * share_of g n < g + n)
unfolding share_of
share_of-bounds g n h = ceil_div g n h

-- The shares of all nodes give the customer the whole limit, and at most one request for each node
-- but one beyond it; they give exactly the limit only if it divides evenly.
pub node_share_total :
    (g n share : ℕ)
    → 1 ≤ n
    → node_share g n ≡ some share
    → (g ≤ n * share) × (n * share < g + n) × (g % n ≢ 0 → g < n * share)
node_share_total g n share h e =
    let same : share_of g n ≡ share = ground (arith, node_share-eq g n h) in
    let exact : n * share % n ≡ 0 = mul-mod_right n share in
    let (covers, fits) : (g ≤ n * share) × (n * share < g + n) =
      rw same at (share_of-bounds g n h) in
    (
      covers,
      fits,
      λ uneven. elim (ℕ_discrete g (n * share)) [
        | yes e ↦ absurd (uneven (rw e exact))
        | no ne ↦ omega arith
      ],
    )

pub share_of_pos : (g n : ℕ) → 1 ≤ g → 1 ≤ n → 1 ≤ share_of g n
share_of_pos g n hg hn = pos_of_mul (share_of g n) n (omega (arith, share_of-bounds g n hn))

-- safetyBound: the harness's worst case over the three nodes.
abbrev pub harness_nodes : ℕ
harness_nodes = 3

unfoldable pub safety_bound : ℕ → ℕ
safety_bound effective_limit =
    let share = (effective_limit + harness_nodes - 1) / harness_nodes in
    (share + node_burst) * harness_nodes
