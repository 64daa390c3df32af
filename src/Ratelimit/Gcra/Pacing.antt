-- ===== src/Ratelimit/Gcra/Pacing.antt =====
-- A sequence of requests of one customer against `decide` (internal/ratelimit/gcra.go), the TAT
-- carried from each call to the next, and how many of them any rolling window admits.
use ti_assignment_promise_th.Base.{
  lt_of_mul, ℕ, zero, suc, ◌+◌, ◌*◌, ◌≤◌, ◌<◌, ◌≡◌, refl, Bool, true, ◌&&◌, Option, some, ◌>>=◌,
  List, [], ◌∷◌, ltb, leb, arith, count_if, Bool-cases, inl, inr,
}
use ti_assignment_promise_th.Ratelimit.Gcra.{Time, Params, Decision, decide}
use ti_assignment_promise_th.Ratelimit.Gcra.Laws.{
  IsPaced, interval, interval_pos, period-le, verdict, decide_lem,
}

-- A served request: when it arrived and what was decided.
abbrev pub Entry : Type 0
Entry = Time × Decision

-- The limiter of a single customer, with no store: the reference for the striped one.
unfoldable pub serve_one : Params → Time → List Time → Option (List Entry × Time)
serve_one p tat [] = some ([], tat)
serve_one p tat (now ∷ nows) = do
  r ← decide tat now p
  rest ← serve_one p r.1 nows
  some ((now, r.0) ∷ rest.0, rest.1)

-- The entry is admitted, at an instant from `lo` on and before `hi`.
abbrev pub is_admitted_within : Time → Time → Entry → Bool
is_admitted_within lo hi e = e.1.allowed && leb lo e.0 && ltb e.0 hi

abbrev pub admitted_within : Time → Time → List Entry → ℕ
admitted_within lo hi = count_if (is_admitted_within lo hi)

-- What `n` admissions from `lo` on leave behind.
abbrev IsPushed : Params → Time → ℕ → Time → Type 0
IsPushed p lo n tat = 0 < n → lo + n * interval p ≤ tat

verdict-grows : (p : Params) (tat now : Time) → tat ≤ (verdict p tat now).1
unfolding verdict
verdict-grows p tat now = ground arith

verdict-IsPushed :
    (p : Params) (lo : Time) (n : ℕ) (tat now : Time)
    → IsPaced p
    → IsPushed p lo n tat
    → (verdict p tat now).0.allowed ≡ true
    → lo ≤ now
    → now < lo + p.period
    → (n < p.quota + p.burst) × (lo + (n + 1) * interval p ≤ (verdict p tat now).1)
unfolding verdict
verdict-IsPushed p lo zero tat now paced pushed ok after before =
    ground (arith, interval_pos p paced)
verdict-IsPushed p lo (suc n) tat now paced pushed ok after before =
    ground (arith, period-le p paced, lt_of_mul (interval p) (suc n) (p.quota + p.burst))

-- With parameters that are paced no request panics.
pub serve_one_total :
    (p : Params) (tat : Time) (nows : List Time)
    → IsPaced p
    → (r : List Entry × Time) × (serve_one p tat nows ≡ some r)
unfolding serve_one
serve_one_total p tat [] paced = (([], tat), refl)
serve_one_total p tat (now ∷ nows) paced =
    let v = verdict p tat now in
    let (r, e) = serve_one_total p v.1 nows paced in
    (((now, v.0) ∷ r.0, r.1), rw (decide_lem p tat now paced, e))

-- The first entry of a run is the verdict at its TAT.
pub serve_one-cons :
    (p : Params) (tat now : Time) (nows : List Time) {log : List Entry} {tat' : Time}
    → IsPaced p
    → serve_one p tat (now ∷ nows) ≡ some (log, tat')
    → (rest : List Entry) × (serve_one p (verdict p tat now).1 nows ≡ some (rest, tat'))
      × (log ≡ (now, (verdict p tat now).0) ∷ rest)
unfolding serve_one
serve_one-cons p tat now nows paced e =
    let (r, f) = serve_one_total p (verdict p tat now).1 nows paced in
    (r.0, ground (arith, decide_lem p tat now paced), ground (arith, decide_lem p tat now paced))

serve_one-window :
    (p : Params) (lo : Time) (n : ℕ) (tat : Time) (nows : List Time) {log : List Entry}
    {tat' : Time}
    → IsPaced p
    → IsPushed p lo n tat
    → n ≤ p.quota + p.burst
    → serve_one p tat nows ≡ some (log, tat')
    → n + admitted_within lo (lo + p.period) log ≤ p.quota + p.burst
unfolding serve_one
serve_one-window p lo n tat [] paced pushed fits e = ground arith
serve_one-window p lo n tat (now ∷ nows) paced pushed fits e =
    let (rest, f, g) = serve_one-cons p tat now nows paced e in
    elim (Bool-cases (is_admitted_within lo (lo + p.period) (now, (verdict p tat now).0))) [
      | inl hit ↦
          let (room_left, pushed') =
            verdict-IsPushed p lo n tat now paced pushed (ground arith) (ground arith)
              (ground arith) in
          let ih : n + 1 + admitted_within lo (lo + p.period) rest ≤ p.quota + p.burst =
            serve_one-window p lo (n + 1) (verdict p tat now).1 nows paced (λ h. pushed')
              (omega arith) f in
          rw (g, hit) (omega (arith, ih))
      | inr miss ↦
          rw (g, miss)
            (serve_one-window p lo n (verdict p tat now).1 nows paced
              (λ h. omega (arith, pushed h, verdict-grows p tat now)) fits f)
    ]

-- In every window of one period, wherever it starts, at most `quota + burst` of a customer's
-- requests are admitted. The arrivals may come in any order.
pub window_bound :
    (p : Params) (lo tat : Time) (nows : List Time) {log : List Entry} {tat' : Time}
    → IsPaced p
    → serve_one p tat nows ≡ some (log, tat')
    → admitted_within lo (lo + p.period) log ≤ p.quota + p.burst
window_bound p lo tat nows paced e =
    omega (arith, serve_one-window p lo 0 tat nows paced (λ h. omega arith) (omega arith) e)
