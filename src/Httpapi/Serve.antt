-- ===== src/Httpapi/Serve.antt =====
-- A node of internal/httpapi/server.go over the static strategy, while requests and SIGHUPs come
-- in: what its clients are answered with 200.
use ti_assignment_promise_th.Base.{
  ℕ, ◌+◌, ◌≤◌, ◌≡◌, refl, ◌⊎◌, inl, inr, Bool, true, false, ◌&&◌, String, Option, none, some, ◌>>=◌,
  List, [], ◌∷◌, ◌==◌, string_eq, nat_beq, leb, ltb, count_if, arith, All, Bool-cases, Option-cases,
}
use ti_assignment_promise_th.Base.Int.{ℤ, pos, negsuc, pos_part, ◌≤ℤ◌}
use ti_assignment_promise_th.Ratelimit.Gcra.{Time, Duration, Decision, minute}
use ti_assignment_promise_th.Ratelimit.Gcra.Pacing.{Entry, admitted_within}
use ti_assignment_promise_th.Ratelimit.Gcra.Demux.{entries}
use ti_assignment_promise_th.Coordinator.{node_burst}
use ti_assignment_promise_th.Coordinator.Static.{ShareKey, key_eq, Static}
use ti_assignment_promise_th.Coordinator.Static as Static
use ti_assignment_promise_th.Coordinator.Static.Share.{share_of}
use ti_assignment_promise_th.Coordinator.Static.Window as Window
use ti_assignment_promise_th.Policy.Config.{TimeLib}
use ti_assignment_promise_th.Policy.Resolver.{OverrideApplied, resolve, reload, find_customer}
use ti_assignment_promise_th.Policy.Validate.{IsValid}
use ti_assignment_promise_th.Policy.Limits.{resolve_known, resolve_unknown}
use ti_assignment_promise_th.Policy.Reload.{Signal, reload-IsValid}
use ti_assignment_promise_th.Httpapi.{
  Coordinator, Server, Response, Body, handle_ping, respond, refusal, is_unknown,
}

-- The static strategy behind the interface. A config that Validate accepts gives positive limits
-- only.
abbrev pub static_coordinator : (String → ℕ) → Coordinator Static
static_coordinator fnv32a = record {
  allow = λ s customer_id limit now. Static.allow fnv32a s customer_id (pos_part limit) now;
}

-- A request with its customer's name, or a SIGHUP.
pub data Event : Type 0 where
  ping : String → Time → Event
  hangup : Signal → Event

-- A response with the name and the time of its request.
abbrev pub Answer : Type 0
Answer = String × Time × Response

abbrev pub is_limit : Option ℤ → ℕ → Bool
is_limit none n = false
is_limit (some (negsuc m)) n = false
is_limit (some (pos m)) n = nat_beq m n

-- The request is answered with 200, under the key's limit, in the minute from `lo` on.
abbrev pub is_served : ShareKey → Time → Answer → Bool
is_served key lo (id, t, r) =
    nat_beq r.status 200
    && (id == key.customer_id)
    && is_limit r.x_ratelimit_limit key.global_limit
    && leb lo t
    && ltb t (lo + minute)

abbrev pub served_within : ShareKey → Time → List Answer → ℕ
served_within key lo = count_if (is_served key lo)

module _ (time : TimeLib) (fnv32a : String → ℕ) (jitter : Duration → Duration) (path : String) where
  unfoldable pub serve_events : Server Static → List Event → Option (List Answer × Server Static)
  serve_events s [] = some ([], s)
  serve_events s (ping id now ∷ events) =
      handle_ping time (static_coordinator fnv32a) jitter s id now >>= λ r.
      serve_events r.1 events >>= λ rest. some ((id, now, r.0) ∷ rest.0, rest.1)
  serve_events s (hangup signal ∷ events) =
      serve_events
        (record s { resolver = (reload time signal.load_config s.resolver path signal.at).0 })
        events

  positive : (z : ℤ) → pos 1 ≤ℤ z → (n : ℕ) × (z ≡ pos n) × (1 ≤ n)
  positive (pos n) h = (n, refl, omega (arith, h))
  positive (negsuc n) h = absurd (omega (arith, h))

  -- The request is refused, or it is a call of Allow with a positive limit.
  abbrev IsPinged : Server Static → String → Time → Type 0
  IsPinged s id now =
      ((answer : Response) × (events : List OverrideApplied) × (handle_ping time
            (static_coordinator fnv32a) jitter s id now
          ≡ some (answer, s, events))
        × (nat_beq answer.status 200 ≡ false))
      ⊎ ((limit : ℕ) × (d : Decision) × (s1 : Static) × (events : List OverrideApplied) × (1
            ≤ limit)
          × (Static.allow fnv32a s.coord id limit now ≡ some (d, s1))
          × Window.IsValid s1
          × (s1.node_count ≡ s.coord.node_count)
          × (handle_ping time (static_coordinator fnv32a) jitter s id now
              ≡ some (respond jitter s.node_id id (pos limit) d, record s { coord = s1 }, events)))

  called_lem :
      (s : Server Static) (id : String) (now : Time) (limit : ℕ) (d : Decision) (s1 : Static)
      → (id == "") ≡ false
      → is_unknown (resolve time s.resolver id now).0.reason ≡ false
      → (resolve time s.resolver id now).0.limit ≡ pos limit
      → Static.allow fnv32a s.coord id limit now ≡ some (d, s1)
      → handle_ping time (static_coordinator fnv32a) jitter s id now
        ≡ some (
          respond jitter s.node_id id (pos limit) d,
          record s { coord = s1 },
          (resolve time s.resolver id now).1,
        )
  unfolding handle_ping
  called_lem s id now limit d s1 named known is called = rw (named, known, is, called) refl

  ping_lem :
      (s : Server Static) (id : String) (now loaded : Time)
      → IsValid time loaded s.resolver.cfg
      → Window.IsValid s.coord
      → IsPinged s id now
  unfolding handle_ping refusal
  ping_lem s id now loaded valid fits =
      let resolved = resolve time s.resolver id now in
      elim (Bool-cases (id == "")) [
        | inl empty ↦ inl (refusal s.node_id 400 Body.missing_customer_id, [], rw empty refl, refl)
        | inr named ↦ elim (Bool-cases (is_unknown resolved.0.reason)) [
          | inl stranger ↦ inl (
            refusal s.node_id 403 Body.unknown_customer,
            resolved.1,
            rw (named, stranger) refl,
            refl,
          )
          | inr known ↦ elim (Option-cases (find_customer id s.resolver.cfg.customers)) [
            | inl gone ↦
                let stranger : is_unknown resolved.0.reason ≡ true =
                  rw (resolve_unknown time s.resolver id now gone) (unfold is_unknown in refl) in
                absurd (ground (arith, known, stranger))
            | inr (cust, found) ↦
                let (one, more, _) = resolve_known time s.resolver loaded id now cust valid found in
                let (limit, is, positive_limit) =
                  positive resolved.0.limit (omega (arith, one, more)) in
                let key : ShareKey = record { customer_id = id; global_limit = limit } in
                let (s1, called, v1, same, _) =
                  Window.allow_lem fnv32a s.coord key now fits positive_limit in
                inr (
                  limit,
                  _,
                  s1,
                  resolved.1,
                  positive_limit,
                  called,
                  v1,
                  same,
                  called_lem s id now limit _ s1 named known is called,
                )
          ]
        ]
      ]

  -- The entry of the log that an answered call leaves.
  step_counts :
      (key call : ShareKey) (lo now : Time) (s : Server Static) (d : Decision)
      (answers : List Answer) (log : List (ShareKey × Entry))
      → served_within key lo answers ≤ admitted_within lo (lo + minute) (entries key log)
      → served_within key lo (
          (
            call.customer_id,
            now,
            respond jitter s.node_id call.customer_id (pos call.global_limit) d,
          )
          ∷ answers)
        ≤ admitted_within lo (lo + minute) (entries key ((call, (now, d)) ∷ log))
  unfolding respond
  step_counts key call lo now s d answers log h = ground (arith, h)

  -- Whatever comes in, nothing panics, and the answers with 200 are admissions in a history of
  -- calls of the strategy.
  serve_events_lem :
      (s : Server Static) (events : List Event) (loaded : Time)
      → IsValid time loaded s.resolver.cfg
      → Window.IsValid s.coord
      → (answers : List Answer) × (s' : Server Static) × (calls : List Window.Call) × (log : List
          (ShareKey × Entry))
        × (serve_events s events ≡ some (answers, s'))
        × (Window.run fnv32a s.coord calls ≡ some (log, s'.coord))
        × All (λ c. 1 ≤ c.0.global_limit) calls
        × ((key : ShareKey) (lo : Time)
            → served_within key lo answers ≤ admitted_within lo (lo + minute) (entries key log))
  unfolding serve_events Window.run
  serve_events_lem s [] loaded valid fits = ([], s, [], [], refl, refl, tt, λ key lo. omega arith)
  serve_events_lem s (hangup signal ∷ events) loaded valid fits =
      let s1 : Server Static = record s {
        resolver = (reload time signal.load_config s.resolver path signal.at).0;
      } in
      let (later, kept) = reload-IsValid time path s.resolver loaded signal valid in
      serve_events_lem s1 events later kept fits
  serve_events_lem s (ping id now ∷ events) loaded valid fits =
      elim (ping_lem s id now loaded valid fits) [
        | inl (answer, audit, e, other) ↦
            let (answers, s', calls, log, served, ran, limits, counts) =
              serve_events_lem s events loaded valid fits in
            (
              (id, now, answer) ∷ answers,
              s',
              calls,
              log,
              rw (e, served) refl,
              ran,
              limits,
              λ key lo. ground (arith, counts key lo, other),
            )
        | inr (limit, d, s1, audit, large, called, v1, same, e) ↦
            let key : ShareKey = record { customer_id = id; global_limit = limit } in
            let (answers, s', calls, log, served, ran, limits, counts) =
              serve_events_lem (record s { coord = s1 }) events loaded valid v1 in
            (
              (id, now, respond jitter s.node_id id (pos limit) d) ∷ answers,
              s',
              (key, now) ∷ calls,
              (key, (now, d)) ∷ log,
              rw (e, served) refl,
              rw (called, ran) refl,
              (large, limits),
              λ k lo. step_counts k key lo now s d answers log (counts k lo),
            )
      ]

  -- A node over the static strategy, whatever requests and SIGHUPs it gets, never panics, and under
  -- one limit it answers a customer with 200 in no window of a minute more often than the node's
  -- share of that limit and its burst allow. It starts on a valid config.
  pub serve_events-window_bound :
      (s : Server Static) (events : List Event) (loaded : Time)
      → IsValid time loaded s.resolver.cfg
      → Window.IsValid s.coord
      → (answers : List Answer) × (s' : Server Static) × (serve_events s events
          ≡ some (answers, s'))
        × ((key : ShareKey) (lo : Time)
            → 1 ≤ key.global_limit
            → served_within key lo answers
              ≤ share_of key.global_limit s.coord.node_count + node_burst)
  serve_events-window_bound s events loaded valid fits =
      let (answers, s', calls, log, served, ran, limits, counts) =
        serve_events_lem s events loaded valid fits in
      (
        answers,
        s',
        served,
        λ key lo large.
            let bound = Window.run-window_bound fnv32a s.coord calls key lo fits limits large ran in
            omega (arith, bound, counts key lo),
      )
