-- ===== src/Httpapi/Cluster.antt =====
-- Three nodes of internal/httpapi/server.go over the static strategy, behind a load balancer that
-- splits the requests in any way, against the bound of the load harness (safetyBound of
-- cmd/harness/scenarios.go).
use ti_assignment_promise_th.Base.{
  ℕ, ◌+◌, ◌*◌, ◌≤◌, ◌≡◌, refl, subst, String, Option, some, ◌>>=◌, List, [], ◌∷◌, arith, All,
  length, sum, map,
}
use native.Mathlib.Nat.{le_trans}
use ti_assignment_promise_th.Ratelimit.Gcra.{Time, Duration}
use ti_assignment_promise_th.Coordinator.{node_burst}
use ti_assignment_promise_th.Coordinator.Static.{ShareKey, Static}
use ti_assignment_promise_th.Coordinator.Static.Share.{share_of, safety_bound}
use ti_assignment_promise_th.Coordinator.Static.Window as Window
use ti_assignment_promise_th.Policy.Config.{TimeLib}
use ti_assignment_promise_th.Policy.Validate.{IsValid}
use ti_assignment_promise_th.Httpapi.{Server}
use ti_assignment_promise_th.Httpapi.Serve.{
  Event, Answer, served_within, serve_events, serve_events-window_bound,
}

-- A node, and what comes to it.
abbrev pub Load : Type 0
Load = Server Static × List Event

-- The clients' view of all nodes.
unfoldable pub served_by_all : ShareKey → Time → List (List Answer) → ℕ
served_by_all key lo answers = sum (map (served_within key lo) answers)

module _ (time : TimeLib) (fnv32a : String → ℕ) (jitter : Duration → Duration) (path : String) where
  -- A node of a cluster of `n` that has started on a valid config.
  abbrev pub IsStarted : ℕ → Load → Type 0
  IsStarted n (s, events) =
      ((loaded : Time) × IsValid time loaded s.resolver.cfg)
      × Window.IsValid s.coord
      × (s.coord.node_count ≡ n)

  unfoldable pub serve_all : List Load → Option (List (List Answer))
  serve_all [] = some []
  serve_all ((s, events) ∷ loads) = serve_events time fnv32a jitter path s events >>= λ r.
      serve_all loads >>= λ rest. some (r.0 ∷ rest)

  serve_all_lem :
      (n : ℕ) (loads : List Load)
      → All (IsStarted n) loads
      → (answers : List (List Answer)) × (serve_all loads ≡ some answers)
        × ((key : ShareKey) (lo : Time)
            → 1 ≤ key.global_limit
            → served_by_all key lo answers
              ≤ length loads * (share_of key.global_limit n + node_burst))
  unfolding serve_all served_by_all
  serve_all_lem n [] h = ([], refl, λ key lo large. omega arith)
  serve_all_lem n ((s, events) ∷ loads) (((loaded, valid), fits, counted), h) =
      let (own, s', served, bound) =
        serve_events-window_bound time fnv32a jitter path s events loaded valid fits in
      let (answers, rest, total) = serve_all_lem n loads h in
      (
        own ∷ answers,
        rw (served, rest) refl,
        λ key lo large.
            let here : served_within key lo own ≤ share_of key.global_limit n + node_burst =
              subst (λ m. served_within key lo own ≤ share_of key.global_limit m + node_burst)
                counted (bound key lo large) in
            omega (arith, here, total key lo large),
      )

  -- Three started nodes, whatever requests and SIGHUPs each of them gets, never panic, and under
  -- one limit they answer a customer with 200 in no window of a minute more often than the
  -- harness's bound for that limit, which is at most five above it.
  pub serve_all-harness_bound :
      (loads : List Load)
      → length loads ≡ 3
      → All (IsStarted 3) loads
      → (answers : List (List Answer)) × (serve_all loads ≡ some answers)
        × ((key : ShareKey) (lo : Time)
            → 1 ≤ key.global_limit
            → (served_by_all key lo answers ≤ safety_bound key.global_limit)
              × (safety_bound key.global_limit ≤ key.global_limit + 5))
  unfolding safety_bound share_of
  serve_all-harness_bound loads three h =
      let (answers, served, bound) = serve_all_lem 3 loads h in
      (
        answers,
        served,
        λ key lo large. (le_trans (rw three at (bound key lo large)) (omega arith), omega arith),
      )
