-- ===== src/Ratelimit/Gcra/Demux.antt =====
-- Histories of requests by many keys, each with parameters of its own, against one run of `decide`
-- (internal/ratelimit/gcra.go) for each key. The limiter, the static strategy and the peers' shares
-- are refinements of this.
use ti_assignment_promise_th.Base.{
  ◌+◌, ◌≤◌, ◌≡◌, refl, ap, some, List, [], ◌∷◌, ◌==◌, if◌then◌else◌, Eq, Bool-cases, inl, inr,
}
use ti_assignment_promise_th.Ratelimit.Gcra.{Time, Params}
use ti_assignment_promise_th.Ratelimit.Gcra.Laws.{IsPaced, verdict, decide_lem}
use ti_assignment_promise_th.Ratelimit.Gcra.Pacing.{Entry, serve_one, admitted_within, window_bound}

module _ {ℓ} {K : Type ℓ} ⦃eq : Eq K⦄ where
  -- The arrivals of one key, in order.
  abbrev pub arrivals : K → List (K × Time) → List Time
  arrivals k [] = []
  arrivals k ((j, now) ∷ rs) = let rest = arrivals k rs in if j == k then now ∷ rest else rest

  -- The entries of one key, in order.
  abbrev pub entries : K → List (K × Entry) → List Entry
  entries k [] = []
  entries k ((j, e) ∷ log) = let rest = entries k log in if j == k then e ∷ rest else rest

  -- The history from the TATs `tat` to the TATs `tat'` is, for each key, a run of its own.
  abbrev pub Refines :
      (K → Params) → (K → Time) → List (K × Time) → List (K × Entry) → (K → Time) → Type ℓ
  Refines params tat rs log tat' =
      (k : K) → serve_one (params k) (tat k) (arrivals k rs) ≡ some (entries k log, tat' k)

  pub Refines-nil : (params : K → Params) (tat : K → Time) → Refines params tat [] [] tat
  unfolding serve_one
  Refines-nil params tat k = refl

  pub Refines-cons :
      (params : K → Params) (tat between tat' : K → Time) (key : K) (now : Time)
      (rs : List (K × Time)) (log : List (K × Entry))
      → IsPaced (params key)
      → ((k : K) → between k ≡ (if key == k then (verdict (params key) (tat key) now).1 else tat k))
      → Refines params between rs log tat'
      → Refines params tat
          ((key, now) ∷ rs)
          ((key, (now, (verdict (params key) (tat key) now).0)) ∷ log)
          tat'
  unfolding serve_one
  Refines-cons params tat between tat' key now rs log paced moved ih k =
      elim (Bool-cases (key == k)) [
        | inl same ↦
            let e = (eq.beq_iff key k).0 same in
            rw (same, ← ap tat e, ← ap params e, decide_lem (params key) (tat key) now paced)
              (rw (← (rw same at (moved k)), ap params e, ih k) refl)
        | inr differ ↦ rw (differ, ← (rw differ at (moved k))) (ih k)
      ]

  -- No key's window exceeds its quota and burst.
  pub Refines-window_bound :
      (params : K → Params) (tat tat' : K → Time) (rs : List (K × Time)) (log : List (K × Entry))
      (k : K) (lo : Time)
      → IsPaced (params k)
      → Refines params tat rs log tat'
      → admitted_within lo (lo + (params k).period) (entries k log)
        ≤ (params k).quota + (params k).burst
  Refines-window_bound params tat tat' rs log k lo paced own =
      window_bound (params k) lo (tat k) (arrivals k rs) paced (own k)
