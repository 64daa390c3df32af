-- ===== src/Httpapi/Peers/Cluster.antt =====
-- All nodes of internal/httpapi/server.go over the peer strategy: what their clients are answered
-- with 200 while the shares of a customer move between the nodes.
use ti_assignment_promise_th.Base.{
  ℕ, ◌+◌, ◌≤◌, ◌≡◌, refl, inl, inr, String, Option, some, ◌>>=◌, List, [], ◌∷◌, string_eq, length,
  sum, map, arith, All, Option-cases,
}
use ti_assignment_promise_th.Ratelimit.Gcra.{Time, Duration}
use ti_assignment_promise_th.Coordinator.Peer.{Peer}
use ti_assignment_promise_th.Coordinator.Peer.History as History
use ti_assignment_promise_th.Coordinator.Peer.History.{serve_peer, retold}
use ti_assignment_promise_th.Coordinator.Peer.History.Cluster.{
  Load, Log, IsReady, serve_peers, caps_of, all_shrinks, all_hits, serve_peers-window_bound,
}
use ti_assignment_promise_th.Policy.Config.{TimeLib}
use ti_assignment_promise_th.Httpapi.{Server}
use ti_assignment_promise_th.Httpapi.Serve.{Answer}
use ti_assignment_promise_th.Httpapi.Peers.{
  NodeEvent, answered, serve_node, calls_of, serve_node_lem,
}

-- A node, what it gets, and the caps of its shares.
abbrev pub NodeLoad : Type 0
NodeLoad = Server Peer × List NodeEvent × (String → ℕ)

-- A run of all coordinators is a run of the first and one of the others.
peers_cases :
    (p : Peer) (calls : List History.Event) (caps : String → ℕ) (loads : List Load)
    {logs : List Log}
    → serve_peers ((p, calls, caps) ∷ loads) ≡ some logs
    → (log : Log) × (p' : Peer) × (rest : List Log) × (serve_peer p calls ≡ some (log, p'))
      × (serve_peers loads ≡ some rest)
      × (logs ≡ log ∷ rest)
unfolding serve_peers
peers_cases p calls caps loads e = elim (Option-cases (serve_peer p calls)) [
  | inl panic ↦ absurd (ground (arith, e, panic))
  | inr (r, ran) ↦ elim (Option-cases (serve_peers loads)) [
    | inl panic ↦ absurd (ground (arith, e, ran, panic))
    | inr (rest, rest_ran) ↦
        (r.0, r.1, rest, ground (arith, ran), rest_ran, ground (arith, e, ran, rest_ran))
  ]
]

module _ (time : TimeLib) (jitter : Duration → Duration) (path : String) where
  unfoldable pub serve_nodes : List NodeLoad → Option (List (List Answer))
  serve_nodes [] = some []
  serve_nodes ((s, events, caps) ∷ loads) =
      serve_node time jitter path s events >>= λ r. serve_nodes loads >>= λ rest. some (r.0 ∷ rest)

  -- The coordinators of the nodes, with the calls that reach them.
  abbrev pub coordinators : List NodeLoad → List Load
  coordinators [] = []
  coordinators ((s, events, caps) ∷ loads) =
      (s.coord, calls_of time jitter path s.resolver events, caps) ∷ coordinators loads

  abbrev pub answered_by_all : String → Time → Time → List (List Answer) → ℕ
  answered_by_all id lo hi answers = sum (map (answered id lo hi) answers)

  serve_nodes_lem :
      (loads : List NodeLoad) (logs : List Log)
      → serve_peers (coordinators loads) ≡ some logs
      → (answers : List (List Answer)) × (serve_nodes loads ≡ some answers)
        × ((id : String) (lo hi : Time) → answered_by_all id lo hi answers ≤ all_hits id lo hi logs)
  unfolding serve_peers serve_nodes
  serve_nodes_lem [] logs e = ([], refl, λ id lo hi. omega arith)
  serve_nodes_lem ((s, events, caps) ∷ loads) logs e =
      let (log, p', rest, ran, rest_ran, is) =
        peers_cases s.coord (calls_of time jitter path s.resolver events) caps (coordinators loads)
          e in
      let (own, s', served, counts) = serve_node_lem time jitter path s events ran in
      let (answers, all_served, all_counts) = serve_nodes_lem loads rest rest_ran in
      (
        own ∷ answers,
        rw (served, all_served) refl,
        λ id lo hi. rw is (omega (arith, counts id lo hi, all_counts id lo hi)),
      )

  length-coordinators : (loads : List NodeLoad) → length (coordinators loads) ≡ length loads
  length-coordinators [] = refl
  length-coordinators ((s, events, caps) ∷ loads) = omega (arith, length-coordinators loads)

  -- Nodes over the peer strategy, whatever requests, SIGHUPs, instructions and polls reach each of
  -- them and in whatever order: as long as the shares that the calls make and set keep within caps
  -- for each customer, none panics, and in every window as long as the intervals of each node's cap
  -- they answer a customer with 200 at most as often as the sum of its caps, one more for each node
  -- and one more for each time that a share of the customer shrinks.
  pub serve_nodes-window_bound :
      (loads : List NodeLoad) (id : String) (width : Duration)
      → All (IsReady id width) (coordinators loads)
      → (answers : List (List Answer)) × (logs : List Log) × (serve_nodes loads ≡ some answers)
        × (serve_peers (coordinators loads) ≡ some logs)
        × ((lo : Time)
            → answered_by_all id lo (lo + width) answers
              ≤ caps_of id (coordinators loads) + length loads + all_shrinks id logs)
  serve_nodes-window_bound loads id width h =
      let (logs, ran, bound) = serve_peers-window_bound (coordinators loads) id width h in
      let (answers, served, counts) = serve_nodes_lem loads logs ran in
      (
        answers,
        logs,
        served,
        ran,
        λ lo. omega (arith, bound lo, counts id lo (lo + width), length-coordinators loads),
      )
