-- ===== src/Coordinator/Peer/History/Bound.antt =====
-- What a peer node of internal/coordinator/peer.go admits while instructions change its shares.
use ti_assignment_promise_th.Base.{
  ℕ, ◌+◌, ◌*◌, ◌/◌, ◌≤◌, ◌≡◌, refl, sym, subst, ◌∙◌, inl, inr, String, Option, none, some, List, [],
  ◌∷◌, string_eq, count_if, arith, All,
}
use ti_assignment_promise_th.Ratelimit.Gcra.{Time}
use ti_assignment_promise_th.Ratelimit.Gcra.Laws.{verdict}
use ti_assignment_promise_th.Coordinator.{node_burst}
use ti_assignment_promise_th.Coordinator.ShareGcra.{ShareState, effective_quota}
use ti_assignment_promise_th.Coordinator.ShareGcra.Agreement.{share_params}
use ti_assignment_promise_th.Coordinator.ShareGcra.Shrinks.{
  Trace, decided, requotaed, is_hit, is_shrink, request-IsBounded,
}
use ti_assignment_promise_th.Coordinator.Static.Share.{share_of}
use ti_assignment_promise_th.Coordinator.Peer.{
  Peer, PeerConfig, ApplyShareRequest, local_status, handle_apply_share,
}
use ti_assignment_promise_th.Coordinator.Peer.Fence.{standing}
use ti_assignment_promise_th.Coordinator.Peer.History.{
  Event, ping, instruction, status, serve_peer, traces, share_held, allow-IsPinged, instruct_share,
  poll_share,
}
use ti_assignment_promise_th.Coordinator.Peer.History.Remains.{
  IsHeld, IsWithin, Remains, hits, shrinks, Remains-fresh, new_share-capped, fresh-capped,
  IsHeld-moved, Remains-moved, Remains-start, retold-step, Remains-nil,
}

module _ (caps : String → ℕ) (cfg : PeerConfig) (counted : 1 ≤ cfg.node_count)
    (fits : (id : String) → caps id ≤ cfg.period) where
  -- From any state no event panics, and what follows is bounded for every customer.
  abbrev Follows : Peer → List Event → Type 0
  Follows p events =
      (log : List (String × Trace)) × (p' : Peer) × (serve_peer p events ≡ some (log, p'))
      × ((j : String) → Remains (caps j) cfg.period (share_held j p) (traces j log))

  ping-Follows :
      (p : Peer) (id : String) (limit : ℕ) (now : Time) (events : List Event)
      → p.cfg ≡ cfg
      → IsHeld caps p
      → 1 ≤ limit
      → share_of limit cfg.node_count ≤ caps id
      → ((p' : Peer) → p'.cfg ≡ cfg → IsHeld caps p' → Follows p' events)
      → Follows p (ping id limit now ∷ events)
  unfolding serve_peer
  ping-Follows p id limit now events same held hl small rest =
      let (s, start, called) = allow-IsPinged p cfg id limit now same hl counted in
      let ok : (s.burst ≡ node_burst) × (effective_quota s ≤ caps id) = elim start [
        | inl (_, new) ↦ rw new (new_share-capped limit cfg.node_count (caps id) hl counted small)
        | inr old ↦ held id s old
      ] in
      let v = verdict (share_params s cfg.period) s.tat now in
      let s' : ShareState = record s { tat = v.1 } in
      let (p', e, same', look) = called (omega (arith, ok.1, fits id)) in
      let held' =
        IsHeld-moved caps cfg counted fits p p' id s' look (ok.0, unfold effective_quota in ok.1)
          held in
      let (log, p2, run, remains) = rest p' same' held' in
      (
        (id, decided (now, v.0)) ∷ log,
        p2,
        rw (e, run) refl,
        Remains-moved caps cfg counted fits p p' id s' (decided (now, v.0)) log look
            (λ ih.
              let bounded =
                request-IsBounded (caps id) cfg.period s now (traces id log) (fits id) ih in
              Remains-start caps cfg counted fits p id s (decided (now, v.0) ∷ traces id log) start
                ok bounded)
            remains,
      )

  instruction-Follows :
      (p : Peer) (now : Time) (req : ApplyShareRequest) (events : List Event)
      → p.cfg ≡ cfg
      → IsHeld caps p
      → 1 ≤ caps req.customer_id
      → req.quota ≤ caps req.customer_id
      → ((p' : Peer) → p'.cfg ≡ cfg → IsHeld caps p' → Follows p' events)
      → Follows p (instruction now (some req) ∷ events)
  unfolding serve_peer
  instruction-Follows p now req events same held pos small rest =
      let id = req.customer_id in
      let s = (standing p id).share in
      let (p', answer, e, same', start, s', cases, look) = instruct_share p now req in
      let ok : (s.burst ≡ node_burst) × (effective_quota s ≤ caps id) = elim start [
        | inl (_, new) ↦ rw new (fresh-capped (caps id) pos)
        | inr old ↦ held id s old
      ] in
      let told = retold-step caps cfg counted fits p p' req s s' pos small ok cases look in
      let held' = IsHeld-moved caps cfg counted fits p p' id s' look told.0 held in
      let (log, p2, run, remains) = rest p' (same' ∙ same) held' in
      let t = requotaed s.quota (standing p' id).share.quota in
      (
        (id, t) ∷ log,
        p2,
        rw (e, run) refl,
        Remains-moved caps cfg counted fits p p' id s' t log look
            (λ ih.
              Remains-start caps cfg counted fits p id s (t ∷ traces id log) start ok
                (told.1 (traces id log) ih))
            remains,
      )

  status-Follows :
      (p : Peer) (events : List Event)
      → p.cfg ≡ cfg
      → IsHeld caps p
      → ((p' : Peer) → p'.cfg ≡ cfg → IsHeld caps p' → Follows p' events)
      → Follows p (status ∷ events)
  unfolding serve_peer
  status-Follows p events same held rest =
      let p' = (local_status p).1 in
      let (log, p2, run, remains) =
        rest p' (unfold local_status in same) (λ id s e. held id s (sym (poll_share p id) ∙ e)) in
      (
        log,
        p2,
        run,
        λ j. subst (λ o. Remains (caps j) cfg.period o (traces j log)) (poll_share p j) (remains j),
      )

  serve_peer-Follows :
      (p : Peer) (events : List Event)
      → p.cfg ≡ cfg
      → IsHeld caps p
      → All (IsWithin caps cfg.node_count) events
      → Follows p events
  unfolding serve_peer handle_apply_share
  serve_peer-Follows p [] same held within =
      ([], p, refl, λ j. Remains-nil caps cfg counted fits (caps j) (share_held j p))
  serve_peer-Follows p (ping id limit now ∷ events) same held ((hl, small), within) =
      ping-Follows p id limit now events same held hl small
        (λ p' same' held'. serve_peer-Follows p' events same' held' within)
  serve_peer-Follows p (instruction now none ∷ events) same held (_, within) =
      let (log, p2, run, remains) = serve_peer-Follows p events same held within in
      (log, p2, rw run refl, remains)
  serve_peer-Follows p (instruction now (some req) ∷ events) same held ((pos, small), within) =
      instruction-Follows p now req events same held pos small
        (λ p' same' held'. serve_peer-Follows p' events same' held' within)
  serve_peer-Follows p (status ∷ events) same held (_, within) =
      status-Follows p events same held
        (λ p' same' held'. serve_peer-Follows p' events same' held' within)

  from_start :
      (p : Peer) (id : String) (o : Option ShareState) (log : List Trace) (lo : Time)
      → share_held id p ≡ o
      → IsHeld caps p
      → Remains (caps id) cfg.period o log
      → count_if (is_hit lo (lo + caps id * (cfg.period / caps id))) log
        ≤ caps id + node_burst + count_if is_shrink log
  from_start p id none log lo e held remains = omega (arith, remains lo 0)
  from_start p id (some s) log lo e held remains =
      let ok = held id s e in
      omega (arith, Remains-fresh (caps id) cfg.period s log ok.0 ok.1 remains lo 0)

  -- A peer node, whatever calls of Allow, instructions and polls reach it in whatever order, never
  -- panics as long as the shares it makes and is told keep within the customers' caps. Of each
  -- customer it admits, in a window as long as the cap's intervals, at most the cap, the burst and
  -- one more for each time that the customer's quota shrinks.
  pub serve_peer-window_bound :
      (p : Peer) (events : List Event)
      → p.cfg ≡ cfg
      → IsHeld caps p
      → All (IsWithin caps cfg.node_count) events
      → (log : List (String × Trace)) × (p' : Peer) × (serve_peer p events ≡ some (log, p'))
        × ((id : String) (lo : Time)
            → hits id lo (lo + caps id * (cfg.period / caps id)) log
              ≤ caps id + node_burst + shrinks id log)
  serve_peer-window_bound p events same held within =
      let (log, p', run, remains) = serve_peer-Follows p events same held within in
      (
        log,
        p',
        run,
        λ id lo. from_start p id (share_held id p) (traces id log) lo refl held (remains id),
      )
