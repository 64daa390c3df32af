-- ===== src/Ratelimit/Gcra/Answers.antt =====
-- What the fields of a Decision (internal/ratelimit/decision.go) promise, checked against later
-- calls of `decide`.
use native.Mathlib.Nat.{div-eq_of_lt, div-eq-sub-div}
use ti_assignment_promise_th.Base.{
  ℕ, zero, suc, ◌+◌, ◌-◌, ◌*◌, ◌≤◌, ◌<◌, ◌≡◌, sym, ◌∙◌, Bool, true, false, Option, none, some, List,
  leb, arith, count_if, Bool-cases, inl, inr, replicate,
}
use Prim.Native.Nat.{min}
use ti_assignment_promise_th.Ratelimit.Gcra.{Time, Params, Decision, decide}
use ti_assignment_promise_th.Ratelimit.Gcra.Laws.{
  IsPaced, interval, interval_pos, room, verdict, decide_lem,
}
use ti_assignment_promise_th.Ratelimit.Gcra.Pacing.{Entry, serve_one, serve_one-cons}

-- Whether a request at `now` is admitted on the TAT `tat`.
abbrev pub allows : Option (Decision × Time) → Bool
allows none = false
allows (some r) = r.0.allowed

abbrev pub admits : Params → Time → Time → Bool
admits p tat now = allows (decide tat now p)

pub admits-eq :
    (p : Params) (tat now : Time)
    → IsPaced p
    → admits p tat now ≡ leb tat (now + p.burst * interval p)
unfolding verdict
admits-eq p tat now paced = rw (decide_lem p tat now paced) (ground arith)

-- A rejection leaves the TAT alone and names a positive wait, and the wait is exact: on that TAT
-- every earlier request is turned away and every later one admitted.
pub retry_after_exact :
    (p : Params) (tat now : Time) {d : Decision} {tat' : Time}
    → IsPaced p
    → decide tat now p ≡ some (d, tat')
    → d.allowed ≡ false
    → (tat' ≡ tat)
      × (0 < d.retry_after)
      × ((later : Time) → admits p tat' later ≡ leb (now + d.retry_after) later)
unfolding verdict
retry_after_exact p tat now paced e refused =
    let v = sym (decide_lem p tat now paced) ∙ e in
    (ground arith, ground arith, λ later. ground (arith, admits-eq p tat later paced))

-- How many requests a log admits.
abbrev pub admitted_count : List Entry → ℕ
admitted_count = count_if (λ e. e.1.allowed)

room_step :
    (e offset margin : ℕ)
    → 1 ≤ e
    → margin ≤ offset
    → room e offset margin ≡ suc (room e offset (margin + e))
unfolding room
room_step e offset margin pos fits = elim (Bool-cases (leb (margin + e) offset)) [
  | inl more ↦ ground (arith, div-eq-sub-div {m = e} {n = offset - margin} pos)
  | inr last ↦ ground (arith, div-eq_of_lt {n = offset - margin} {m = e})
]

-- The requests at `now` that a TAT of `tat`, not behind it, leaves room for.
left : Params → Time → Time → ℕ
left p now tat = room (interval p) (p.burst * interval p) (tat - now)

module _ (p : Params) (tat now : Time) (paced : IsPaced p) (ahead : now ≤ tat) where
  -- One more request at an instant that the TAT is not behind.
  again_admitted :
      tat ≤ now + p.burst * interval p
      → ((verdict p tat now).0.allowed ≡ true)
        × (now ≤ (verdict p tat now).1)
        × (left p now tat ≡ suc (left p now (verdict p tat now).1))
  unfolding verdict left
  again_admitted h = (
    ground arith,
    ground arith,
    ground
        (arith, room_step (interval p) (p.burst * interval p) (tat - now) (interval_pos p paced)),
  )

  again_rejected :
      now + p.burst * interval p < tat
      → ((verdict p tat now).0.allowed ≡ false)
        × ((verdict p tat now).1 ≡ tat)
        × (left p now tat ≡ 0)
  unfolding verdict left room
  again_rejected h = ground arith

serve_same :
    (p : Params) (now : Time) (k : ℕ) (tat : Time) {log : List Entry} {tat' : Time}
    → IsPaced p
    → now ≤ tat
    → serve_one p tat (replicate k now) ≡ some (log, tat')
    → admitted_count log ≡ min k (left p now tat)
unfolding serve_one
serve_same p now zero tat paced ahead e = ground arith
serve_same p now (suc k) tat paced ahead e =
    let (rest, f, g) = serve_one-cons p tat now (replicate k now) paced e in
    elim (Bool-cases (leb tat (now + p.burst * interval p))) [
      | inl fits ↦
          let (ok, ahead', less) = again_admitted p tat now paced ahead (ground arith) in
          let ih : admitted_count rest ≡ min k (left p now (verdict p tat now).1) =
            serve_same p now k (verdict p tat now).1 paced ahead' f in
          rw (g, ok, less) (omega (arith, ih))
      | inr full ↦
          let (no_more, same, none_left) = again_rejected p tat now paced ahead (ground arith) in
          let ih : admitted_count rest ≡ min k (left p now tat) =
            serve_same p now k tat paced ahead (rw same at f) in
          rw (g, no_more, none_left) (omega (arith, ih, none_left))
    ]

-- `Remaining` is exact: of any number of further requests at the instant of an admission, that many
-- are admitted and no more.
pub remaining_exact :
    (p : Params) (tat now : Time) (k : ℕ) {d : Decision} {tat' tat'' : Time} {log : List Entry}
    → IsPaced p
    → decide tat now p ≡ some (d, tat')
    → d.allowed ≡ true
    → serve_one p tat' (replicate k now) ≡ some (log, tat'')
    → admitted_count log ≡ min k d.remaining
unfolding verdict left
remaining_exact p tat now k paced e ok run =
    let v = sym (decide_lem p tat now paced) ∙ e in
    ground (arith, serve_same p now k _ paced (ground arith) run)
