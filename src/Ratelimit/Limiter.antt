-- ===== src/Ratelimit/Limiter.antt =====
-- internal/ratelimit/gcra.go (Limiter, AllowAt) over the striped store, against one GCRA state for
-- each customer. The arrival time is an argument, as it is of AllowAt.
use ti_assignment_promise_th.Base.{
  ◌+◌, ◌≤◌, ℕ, ◌≡◌, refl, String, Option, some, ◌>>=◌, List, [], ◌∷◌, string_eq,
}
use ti_assignment_promise_th.Ratelimit.Gcra.{Time, Params, Decision, decide}
use ti_assignment_promise_th.Ratelimit.Gcra.Laws.{IsPaced, verdict, decide_lem}
use ti_assignment_promise_th.Ratelimit.Gcra.Pacing.{Entry, serve_one, admitted_within}
use ti_assignment_promise_th.Ratelimit.Gcra.Demux.{
  entries, Refines, Refines-nil, Refines-cons, Refines-window_bound,
}
use ti_assignment_promise_th.Ratelimit.Store.{
  Store, IsValid, new_store, tat_of, put_tat, with_tat, put_tat-IsValid, tat_of-put_tat,
}

pub record Limiter : Type 0 where
  pub store : Store
  pub params : Params

unfoldable pub new_limiter : Params → Limiter
new_limiter p = record { store = new_store; params = p }

-- A request: the customer and the arrival time.
abbrev pub Request : Type 0
Request = String × Time

-- A decided request: the customer, the arrival time and the decision.
abbrev pub Served : Type 0
Served = String × Entry

module _ (fnv32a : String → ℕ) where
  unfoldable pub allow_at : Limiter → String → Time → Option (Decision × Limiter)
  unfolding with_tat
  allow_at l customer now = do
    r ← with_tat fnv32a l.store customer (λ tat. decide tat now l.params)
    some (r.0, record l { store = r.1 })

  -- Allow: AllowAt at what the clock reads.
  unfoldable pub allow : (Unit {0} → Time) → Limiter → String → Option (Decision × Limiter)
  unfolding allow_at
  allow clock l customer = allow_at l customer (clock tt)

  -- A history of requests, in the order in which they take the locks.
  unfoldable pub serve : Limiter → List Request → Option (List Served × Limiter)
  serve l [] = some ([], l)
  serve l ((customer, now) ∷ rs) = do
    r ← allow_at l customer now
    rest ← serve r.1 rs
    some ((customer, (now, r.0)) ∷ rest.0, rest.1)

  -- The state after a request that is decided by `v`.
  abbrev after : Limiter → String → Decision × Time → Limiter
  after l customer v = record l { store = put_tat fnv32a l.store customer v.1 }

  pub allow_at_lem :
      (l : Limiter) (customer : String) (now : Time)
      → IsPaced l.params
      → let v = verdict l.params (tat_of fnv32a l.store customer) now in
        allow_at l customer now ≡ some (v.0, after l customer v)
  unfolding allow_at
  allow_at_lem l customer now paced =
      rw (decide_lem l.params (tat_of fnv32a l.store customer) now paced) refl

  -- Every customer is served as by a limiter of its own: others change nothing for it, in its shard
  -- of the store or in another.
  pub serve-Refines :
      (l : Limiter) (rs : List Request)
      → IsPaced l.params
      → IsValid l.store
      → (log : List Served) × (l' : Limiter) × (serve l rs ≡ some (log, l'))
        × IsValid l'.store
        × (l'.params ≡ l.params)
        × Refines (λ c. l.params) (tat_of fnv32a l.store) rs log (tat_of fnv32a l'.store)
  unfolding serve serve_one
  serve-Refines l [] paced valid =
      ([], l, refl, valid, refl, Refines-nil (λ c. l.params) (tat_of fnv32a l.store))
  serve-Refines l ((customer, now) ∷ rs) paced valid =
      let v = verdict l.params (tat_of fnv32a l.store customer) now in
      let (log, l', e, valid', same, ih) =
        serve-Refines (after l customer v) rs paced
          (put_tat-IsValid fnv32a l.store customer v.1 valid) in
      (
        (customer, (now, v.0)) ∷ log,
        l',
        rw (allow_at_lem l customer now paced, e) refl,
        valid',
        same,
        Refines-cons (λ c. l.params) (tat_of fnv32a l.store)
            (tat_of fnv32a (after l customer v).store) (tat_of fnv32a l'.store) customer now rs log
            paced (λ c. tat_of-put_tat fnv32a l.store customer c v.1 valid) ih,
      )

  -- A limiter with paced parameters and a full store admits of each customer at most quota +
  -- burst requests in any window of one period, whatever the others send and in whatever order.
  pub serve-window_bound :
      (l : Limiter) (rs : List Request)
      → IsPaced l.params
      → IsValid l.store
      → (log : List Served) × (l' : Limiter) × (serve l rs ≡ some (log, l'))
        × ((c : String) (lo : Time)
            → admitted_within lo (lo + l.params.period) (entries c log)
              ≤ l.params.quota + l.params.burst)
  serve-window_bound l rs paced valid =
      let (log, l', e, _, _, own) = serve-Refines l rs paced valid in
      (
        log,
        l',
        e,
        λ c lo.
            Refines-window_bound (λ c. l.params) (tat_of fnv32a l.store) (tat_of fnv32a l'.store) rs
              log c lo paced own,
      )
