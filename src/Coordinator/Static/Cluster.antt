-- ===== src/Coordinator/Static/Cluster.antt =====
-- A cluster of nodes under the static strategy (internal/coordinator/static.go), which share no
-- state and take requests in any split, against the bound that the harness checks (safetyBound of
-- cmd/harness/scenarios.go).
use ti_assignment_promise_th.Base.{
  ℕ, ◌+◌, ◌*◌, ◌≤◌, ◌≡◌, refl, subst, String, Option, some, ◌>>=◌, List, [], ◌∷◌, arith, All,
  length, sum, map,
}
use native.Mathlib.Nat.{le_trans}
use ti_assignment_promise_th.Ratelimit.Gcra.{Time, minute}
use ti_assignment_promise_th.Ratelimit.Gcra.Pacing.{Entry, admitted_within}
use ti_assignment_promise_th.Ratelimit.Gcra.Demux.{entries}
use ti_assignment_promise_th.Coordinator.{node_burst}
use ti_assignment_promise_th.Coordinator.Static.{ShareKey, key_eq, Static}
use ti_assignment_promise_th.Coordinator.Static.Share.{share_of, safety_bound}
use ti_assignment_promise_th.Coordinator.Static.Window.{
  IsValid, Call, run, run-Refines, run-window_bound,
}

-- A node and the calls that the load balancer sends it.
abbrev pub Node : Type 0
Node = Static × List Call

-- A node of a cluster of `n`, and calls with limits that a validated config can give.
abbrev pub IsNode : ℕ → Node → Type 0
IsNode n (s, cs) = IsValid s × (s.node_count ≡ n) × All (λ c. 1 ≤ c.0.global_limit) cs

abbrev pub Log : Type 0
Log = List (ShareKey × Entry)

-- How many of a key's requests all nodes together admit in the minute from `lo` on.
unfoldable pub admitted_by_all : ShareKey → Time → List Log → ℕ
admitted_by_all key lo logs =
    sum (map (λ log. admitted_within lo (lo + minute) (entries key log)) logs)

module _ (fnv32a : String → ℕ) where
  unfoldable pub run_all : List Node → Option (List Log)
  run_all [] = some []
  run_all ((s, cs) ∷ nodes) = do r ← run fnv32a s cs; rest ← run_all nodes; some (r.0 ∷ rest)

  -- The worst case of any set of nodes is the sum of the nodes' own.
  pub run_all-window_bound :
      (n : ℕ) (nodes : List Node) (key : ShareKey) (lo : Time)
      → All (IsNode n) nodes
      → 1 ≤ key.global_limit
      → (logs : List Log) × (run_all nodes ≡ some logs)
        × (admitted_by_all key lo logs ≤ length nodes * (share_of key.global_limit n + node_burst))
  unfolding run_all admitted_by_all
  run_all-window_bound n [] key lo h hk = ([], refl, omega arith)
  run_all-window_bound n ((s, cs) ∷ nodes) key lo ((v, counted, limits), h) hk =
      let (log, s', ran, _, _, _) = run-Refines fnv32a s cs v limits in
      let (logs, ran', bound) = run_all-window_bound n nodes key lo h hk in
      let own : admitted_within lo (lo + minute) (entries key log)
          ≤ share_of key.global_limit n + node_burst =
        subst
          (λ m.
            admitted_within lo (lo + minute) (entries key log)
            ≤ share_of key.global_limit m + node_burst)
          counted (run-window_bound fnv32a s cs key lo v limits hk ran) in
      (log ∷ logs, rw (ran, ran') refl, omega (arith, own, bound))

  -- Three nodes, however the requests fall on them, stay within the bound that the harness computes
  -- from the limit: at most five requests beyond it.
  pub harness_bound :
      (nodes : List Node) (key : ShareKey) (lo : Time)
      → length nodes ≡ 3
      → All (IsNode 3) nodes
      → 1 ≤ key.global_limit
      → (logs : List Log) × (run_all nodes ≡ some logs)
        × (admitted_by_all key lo logs ≤ safety_bound key.global_limit)
        × (safety_bound key.global_limit ≤ key.global_limit + 5)
  unfolding safety_bound share_of
  harness_bound nodes key lo three h hk =
      let (logs, ran, bound) = run_all-window_bound 3 nodes key lo h hk in
      (logs, ran, le_trans (rw three at bound) (omega arith), omega arith)
