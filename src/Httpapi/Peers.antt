-- ===== src/Httpapi/Peers.antt =====
-- Nodes of internal/httpapi/server.go over the peer strategy: the metered endpoint, SIGHUPs and the
-- two endpoints that Peer.RegisterRoutes adds, in the order in which they take the node's mutex.
pub mod Cluster
mod Tests
use ti_assignment_promise_th.Base.{
  ℕ, ◌+◌, ◌*◌, ◌≤◌, ◌≡◌, refl, ◌⊎◌, inl, inr, Bool, true, false, ◌&&◌, String, Option, none, some,
  ◌>>=◌, List, [], ◌∷◌, ◌++◌, ◌==◌, if◌then◌else◌, string_eq, nat_beq, leb, ltb, count_if, length,
  sum, map, arith, All, Bool-cases, Option-cases,
}
use ti_assignment_promise_th.Base.Int.{ℤ, pos_part}
use ti_assignment_promise_th.Ratelimit.Gcra.{Time, Duration, Decision}
use ti_assignment_promise_th.Coordinator.ShareGcra.Shrinks.{decided}
use ti_assignment_promise_th.Coordinator.Peer.{
  Peer, ApplyShareRequest, ApplyShareResponse, handle_apply_share, local_status,
}
use ti_assignment_promise_th.Coordinator.Peer as Peer
use ti_assignment_promise_th.Coordinator.Peer.History as History
use ti_assignment_promise_th.Coordinator.Peer.History.{serve_peer, retold}
use ti_assignment_promise_th.Coordinator.Peer.History.Remains.{hits}
use ti_assignment_promise_th.Coordinator.Peer.History.Cluster.{
  Load, Log, IsReady, serve_peers, caps_of, all_shrinks, all_hits, serve_peers-window_bound,
}
use ti_assignment_promise_th.Policy.Config.{TimeLib}
use ti_assignment_promise_th.Policy.Resolver.{Resolver, OverrideApplied, resolve, reload}
use ti_assignment_promise_th.Policy.Reload.{Signal}
use ti_assignment_promise_th.Httpapi.{
  Coordinator, Server, Response, Body, handle_ping, respond, refusal, is_unknown,
}
use ti_assignment_promise_th.Httpapi.Serve.{Answer}

-- The peer strategy behind the interface.
abbrev pub peer_coordinator : Coordinator Peer
peer_coordinator = record {
  allow = λ p customer_id limit now. Peer.allow p customer_id (pos_part limit) now;
}

pub data NodeEvent : Type 0 where
  request : String → Time → NodeEvent
  hangup : Signal → NodeEvent
  instruction : Time → Option ApplyShareRequest → NodeEvent
  status : NodeEvent

-- The request is answered with 200 from `lo` on and before `hi`.
abbrev pub is_answered : String → Time → Time → Answer → Bool
is_answered id lo hi (j, t, r) = nat_beq r.status 200 && (j == id) && leb lo t && ltb t hi

abbrev pub answered : String → Time → Time → List Answer → ℕ
answered id lo hi = count_if (is_answered id lo hi)

module _ (time : TimeLib) (jitter : Duration → Duration) (path : String) where
  unfoldable pub serve_node : Server Peer → List NodeEvent → Option (List Answer × Server Peer)
  serve_node s [] = some ([], s)
  serve_node s (request id now ∷ events) =
      handle_ping time peer_coordinator jitter s id now >>= λ r.
      serve_node r.1 events >>= λ rest. some ((id, now, r.0) ∷ rest.0, rest.1)
  serve_node s (hangup signal ∷ events) =
      serve_node
        (record s { resolver = (reload time signal.load_config s.resolver path signal.at).0 })
        events
  serve_node s (instruction now body ∷ events) =
      handle_apply_share s.coord now body >>= λ r. serve_node (record s { coord = r.1 }) events
  serve_node s (status ∷ events) = serve_node (record s { coord = (local_status s.coord).1 }) events

  -- What of this reaches the coordinator.
  unfoldable pub calls_of : Resolver → List NodeEvent → List History.Event
  calls_of r [] = []
  calls_of r (request id now ∷ events) =
      let rest = calls_of r events in
      let resolved = resolve time r id now in
      if id == ""
      then rest
      else if is_unknown resolved.0.reason
      then rest
      else History.ping id (pos_part resolved.0.limit) now ∷ rest
  calls_of r (hangup signal ∷ events) =
      calls_of (reload time signal.load_config r path signal.at).0 events
  calls_of r (instruction now body ∷ events) = History.instruction now body ∷ calls_of r events
  calls_of r (status ∷ events) = History.status ∷ calls_of r events

  -- A node answers with 200 no more than its coordinator admits.
  abbrev pub Answers : Server Peer → List NodeEvent → Log → Type 0
  Answers s events log =
      (answers : List Answer) × (s' : Server Peer) × (serve_node s events ≡ some (answers, s'))
      × ((id : String) (lo hi : Time) → answered id lo hi answers ≤ hits id lo hi log)

  -- The refused request and what follows it.
  refused-Answers :
      (s : Server Peer) (id : String) (now : Time) (events : List NodeEvent) (log : Log)
      (answer : Response) (audit : List OverrideApplied)
      → handle_ping time peer_coordinator jitter s id now ≡ some (answer, s, audit)
      → nat_beq answer.status 200 ≡ false
      → Answers s events log
      → Answers s (request id now ∷ events) log
  unfolding serve_node
  refused-Answers s id now events log answer audit e other (answers, s', served, counts) = (
    (id, now, answer) ∷ answers,
    s',
    rw (e, served) refl,
    λ j lo hi. ground (arith, counts j lo hi, other),
  )

  step_counts :
      (id j : String) (lo hi now : Time) (node_id : String) (limit : ℤ) (d : Decision)
      (answers : List Answer) (log : Log)
      → answered j lo hi answers ≤ hits j lo hi log
      → answered j lo hi ((id, now, respond jitter node_id id limit d) ∷ answers)
        ≤ hits j lo hi ((id, decided (now, d)) ∷ log)
  unfolding respond
  step_counts id j lo hi now node_id limit d answers log h = ground (arith, h)

  called-Answers :
      (s : Server Peer) (id : String) (now : Time) (events : List NodeEvent) (log : Log)
      (d : Decision) (p1 : Peer)
      → (id == "") ≡ false
      → is_unknown (resolve time s.resolver id now).0.reason ≡ false
      → Peer.allow s.coord id (pos_part (resolve time s.resolver id now).0.limit) now ≡ some (d, p1)
      → Answers (record s { coord = p1 }) events log
      → Answers s (request id now ∷ events) ((id, decided (now, d)) ∷ log)
  unfolding serve_node handle_ping
  called-Answers s id now events log d p1 named known called (answers, s', served, counts) =
      let limit = (resolve time s.resolver id now).0.limit in
      (
        (id, now, respond jitter s.node_id id limit d) ∷ answers,
        s',
        rw (named, known, called, served) refl,
        λ j lo hi. step_counts id j lo hi now s.node_id limit d answers log (counts j lo hi),
      )

  -- A run of the coordinator on a call and what follows it.
  call_cases :
      (p : Peer) (id : String) (limit : ℕ) (now : Time) (calls : List History.Event) {log : Log}
      {p' : Peer}
      → serve_peer p (History.ping id limit now ∷ calls) ≡ some (log, p')
      → (d : Decision) × (p1 : Peer) × (rest : Log) × (Peer.allow p id limit now ≡ some (d, p1))
        × (serve_peer p1 calls ≡ some (rest, p'))
        × (log ≡ (id, decided (now, d)) ∷ rest)
  unfolding serve_peer
  call_cases p id limit now calls e = elim (Option-cases (Peer.allow p id limit now)) [
    | inl panic ↦ absurd (ground (arith, e, panic))
    | inr (r, called) ↦ elim (Option-cases (serve_peer r.1 calls)) [
      | inl panic ↦ absurd (ground (arith, e, called, panic))
      | inr (rest, ran) ↦ (
        r.0,
        r.1,
        rest.0,
        ground (arith, called),
        ground (arith, e, called, ran),
        ground (arith, e, called, ran),
      )
    ]
  ]

  instruction_cases :
      (p : Peer) (now : Time) (body : Option ApplyShareRequest) (calls : List History.Event)
      {log : Log} {p' : Peer}
      → serve_peer p (History.instruction now body ∷ calls) ≡ some (log, p')
      → (r : ApplyShareResponse × Peer) × (rest : Log) × (handle_apply_share p now body ≡ some r)
        × (serve_peer r.1 calls ≡ some (rest, p'))
        × (log ≡ retold p r.1 body ++ rest)
  unfolding serve_peer
  instruction_cases p now body calls e = elim (Option-cases (handle_apply_share p now body)) [
    | inl panic ↦ absurd (ground (arith, e, panic))
    | inr (r, told) ↦ elim (Option-cases (serve_peer r.1 calls)) [
      | inl panic ↦ absurd (ground (arith, e, told, panic))
      | inr (rest, ran) ↦
          (r, rest.0, told, ground (arith, e, told, ran), ground (arith, e, told, ran))
    ]
  ]

  hits-retold :
      (p p1 : Peer) (body : Option ApplyShareRequest) (id : String) (lo hi : Time) (log : Log)
      → hits id lo hi (retold p p1 body ++ log) ≡ hits id lo hi log
  hits-retold p p1 none id lo hi log = refl
  hits-retold p p1 (some req) id lo hi log = ground arith

  pub serve_node_lem :
      (s : Server Peer) (events : List NodeEvent) {log : Log} {p' : Peer}
      → serve_peer s.coord (calls_of s.resolver events) ≡ some (log, p')
      → Answers s events log
  unfolding serve_node calls_of handle_ping refusal
  serve_node_lem s [] {log} e = ([], s, refl, λ id lo hi. omega arith)
  serve_node_lem s (request id now ∷ events) {log} {p'} e =
      let resolved = resolve time s.resolver id now in
      elim (Bool-cases (id == "")) [
        | inl empty ↦
            refused-Answers s id now events log (refusal s.node_id 400 Body.missing_customer_id) []
              (rw empty refl) refl
              (serve_node_lem s events {log = log} {p' = p'} (ground (arith, e, empty)))
        | inr named ↦ elim (Bool-cases (is_unknown resolved.0.reason)) [
          | inl stranger ↦
              refused-Answers s id now events log (refusal s.node_id 403 Body.unknown_customer)
                resolved.1 (rw (named, stranger) refl) refl
                (serve_node_lem s events {log = log} {p' = p'} (ground (arith, e, named, stranger)))
          | inr known ↦
              let (d, p1, rest, called, ran, is) =
                call_cases s.coord id (pos_part resolved.0.limit) now (calls_of s.resolver events)
                  {log = log} {p' = p'} (ground (arith, e, named, known)) in
              rw is (
                called-Answers s id now events rest d p1 named known called
                  (serve_node_lem (record s { coord = p1 }) events ran))
        ]
      ]
  serve_node_lem s (hangup signal ∷ events) e =
      serve_node_lem
        (record s { resolver = (reload time signal.load_config s.resolver path signal.at).0 })
        events e
  serve_node_lem s (instruction now body ∷ events) {log} e =
      let (r, rest, told, ran, is) =
        instruction_cases s.coord now body (calls_of s.resolver events) e in
      let (answers, s', served, counts) = serve_node_lem (record s { coord = r.1 }) events ran in
      (
        answers,
        s',
        rw (told, served) refl,
        λ id lo hi.
            rw is (omega (arith, counts id lo hi, hits-retold s.coord r.1 body id lo hi rest)),
      )
  serve_node_lem s (status ∷ events) {log} {p'} e =
      serve_node_lem (record s { coord = (local_status s.coord).1 }) events {log = log} {p' = p'}
        (unfold serve_peer in e)
