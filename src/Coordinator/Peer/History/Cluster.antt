-- ===== src/Coordinator/Peer/History/Cluster.antt =====
-- The nodes of the peer strategy (internal/coordinator/peer.go) together: what they admit of a
-- customer while its shares move between them.
use ti_assignment_promise_th.Base.{
  ℕ, ◌+◌, ◌*◌, ◌/◌, ◌≤◌, ◌≡◌, refl, true, String, Option, some, ◌>>=◌, List, [], ◌∷◌, length, sum,
  map, count_if, arith, All,
}
use ti_assignment_promise_th.Ratelimit.Gcra.{Time, Duration}
use ti_assignment_promise_th.Coordinator.{node_burst}
use ti_assignment_promise_th.Coordinator.ShareGcra.Shrinks.{Trace, decided, requotaed, is_hit}
use ti_assignment_promise_th.Coordinator.Peer.{Peer}
use ti_assignment_promise_th.Coordinator.Peer.History.{Event, serve_peer, traces}
use ti_assignment_promise_th.Coordinator.Peer.History.Remains.{IsHeld, IsWithin, hits, shrinks}
use ti_assignment_promise_th.Coordinator.Peer.History.Bound.{serve_peer-window_bound}

-- A node, what reaches it, and the cap of its share of each customer.
abbrev pub Load : Type 0
Load = Peer × List Event × (String → ℕ)

abbrev pub Log : Type 0
Log = List (String × Trace)

unfoldable pub serve_peers : List Load → Option (List Log)
serve_peers [] = some []
serve_peers ((p, events, caps) ∷ loads) = do
  r ← serve_peer p events
  rest ← serve_peers loads
  some (r.0 ∷ rest)

abbrev pub caps_of : String → List Load → ℕ
caps_of id loads = sum (map (λ (l : Load). l.2 id) loads)

abbrev pub all_hits : String → Time → Time → List Log → ℕ
all_hits id lo hi logs = sum (map (hits id lo hi) logs)

abbrev pub all_shrinks : String → List Log → ℕ
all_shrinks id logs = sum (map (shrinks id) logs)

-- A node whose shares keep within its caps, with a window of the width `width` for the customer.
abbrev pub IsReady : String → Duration → Load → Type 0
IsReady id width (p, events, caps) =
    (1 ≤ p.cfg.node_count)
    × ((j : String) → caps j ≤ p.cfg.period)
    × IsHeld caps p
    × All (IsWithin caps p.cfg.node_count) events
    × (width ≤ caps id * (p.cfg.period / caps id))

is_hit-narrower : (lo a b : Time) (t : Trace) → a ≤ b → is_hit lo a t ≡ true → is_hit lo b t ≡ true
is_hit-narrower lo a b (decided e) h hit = ground arith
is_hit-narrower lo a b (requotaed old new) h hit = hit

narrower :
    (lo a b : Time) (ts : List Trace)
    → a ≤ b
    → count_if (is_hit lo a) ts ≤ count_if (is_hit lo b) ts
narrower lo a b [] h = omega arith
narrower lo a b (t ∷ ts) h = ground (arith, is_hit-narrower lo a b t h, narrower lo a b ts h)

serve_peers_lem :
    (loads : List Load) (id : String) (width : Duration)
    → All (IsReady id width) loads
    → (logs : List Log) × (serve_peers loads ≡ some logs)
      × ((lo : Time)
          → all_hits id lo (lo + width) logs
            ≤ caps_of id loads + length loads * node_burst + all_shrinks id logs)
unfolding serve_peers
serve_peers_lem [] id width h = ([], refl, λ lo. omega arith)
serve_peers_lem ((p, events, caps) ∷ loads) id width ((counted, fits, held, within, wide), h) =
    let (log, p', run, bound) =
      serve_peer-window_bound caps p.cfg counted fits p events refl held within in
    let (logs, rest, total) = serve_peers_lem loads id width h in
    (
      log ∷ logs,
      rw (run, rest) refl,
      λ lo. omega (
        arith,
        bound id lo,
        total lo,
        narrower lo (lo + width) (lo + caps id * (p.cfg.period / caps id)) (traces id log)
            (omega arith),
      ),
    )

-- Peer nodes whose shares of each customer keep within caps, whatever calls, instructions and polls
-- reach each of them and in whatever order: none panics, and in every window as long as the
-- intervals of each node's cap they admit together of a customer at most the sum of its caps, one
-- more for each node and one more for each time that a share of the customer shrinks.
pub serve_peers-window_bound :
    (loads : List Load) (id : String) (width : Duration)
    → All (IsReady id width) loads
    → (logs : List Log) × (serve_peers loads ≡ some logs)
      × ((lo : Time)
          → all_hits id lo (lo + width) logs
            ≤ caps_of id loads + length loads + all_shrinks id logs)
serve_peers-window_bound loads id width h =
    let (logs, run, bound) = serve_peers_lem loads id width h in
    (logs, run, λ lo. omega (arith, bound lo))
