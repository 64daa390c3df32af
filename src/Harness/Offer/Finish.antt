-- ===== src/Harness/Offer/Finish.antt =====
-- Offer of cmd/harness/client.go always comes to its end, with one record for each tick that it did
-- not drop.
use mathlib.Core.List.{append_assoc, append-nil}
use ti_assignment_promise_th.Base.{
  ℕ, ◌+◌, ◌-◌, ◌*◌, ◌/◌, ◌≤◌, ◌<◌, ◌≡◌, ◌∙◌, refl, ap, sym, subst, ◌⊎◌, inl, inr, Bool, true, false,
  not, ◌||◌, Option, some, List, [], ◌∷◌, ◌++◌, if◌then◌else◌, ltb, length, length-snoc, div?,
  arith, Bool-cases, Option-cases, lt_of_mul, ceil_div,
}
use ti_assignment_promise_th.Ratelimit.Gcra.{Time}
use ti_assignment_promise_th.Harness.Analysis.{Record}
use ti_assignment_promise_th.Harness.Client.{Outcome, do_request}
use ti_assignment_promise_th.Harness.Offer.{
  OfferConfig, OfferState, Move, Pace, new_pace, tick_interval, turn, cancelled, take, finish,
  collect, start_offer, on_tick, on_turn, step, run, returned,
}

-- The most ticks that Offer handles: the time up to the deadline over the interval, rounded up.
abbrev pub most_ticks : Pace → ℕ
most_ticks pace = (pace.deadline - pace.ticker_start + pace.interval - 1) / pace.interval

-- How many moves are left: four for each tick to come, one to end the loop, three for a request
-- that waits, two for one that is under way and one for a record.
measure : Pace → OfferState → ℕ
measure pace s =
    4 * (most_ticks pace - s.ticks)
    + (if s.offering then 1 else 0)
    + 3 * s.queued
    + 2 * s.busy
    + length s.buffered

-- Every tick is dropped, waits, is under way or has its record.
pub record IsSound (cfg : OfferConfig) (s : OfferState) : Type 0 where
  pub room : s.queued ≤ cfg.concurrency * 2
  pub workers : s.busy ≤ cfg.concurrency
  pub counted : s.ticks ≡ s.dropped + s.queued + s.busy + length s.buffered + length s.collected

-- The records of a schedule, in the order in which the workers send them.
unfoldable pub finished : List Move → List Record
finished [] = []
finished (finish r ∷ moves) = r ∷ finished moves
finished (_ ∷ moves) = finished moves

-- The record of a request that could not be made.
abbrev unmade : Record
unmade = do_request 0 0 Outcome.unmade

List-cases {ℓ} :
    {A : Type ℓ} (xs : List A) → (xs ≡ []) ⊎ ((x : A) × (rest : List A) × (xs ≡ x ∷ rest))
List-cases [] = inl refl
List-cases (x ∷ xs) = inr (x, xs, refl)

module _ (cfg : OfferConfig) (pace : Pace) (pos : 1 ≤ pace.interval) where
  tick_left :
      (s : OfferState) (now : Time)
      → pace.ticker_start + s.ticks * pace.interval ≤ now
      → now < pace.deadline
      → s.ticks < most_ticks pace
  tick_left s now h k =
      lt_of_mul pace.interval s.ticks (most_ticks pace)
        (omega (arith, (ceil_div (pace.deadline - pace.ticker_start) pace.interval pos).0))

  on_tick_lem :
      (s : OfferState)
      → IsSound cfg s
      → s.ticks < most_ticks pace
      → IsSound cfg (on_tick cfg s)
        × (measure pace (on_tick cfg s) < measure pace s)
        × ((on_tick cfg s).ticks ≤ most_ticks pace)
  unfolding on_tick measure
  on_tick_lem s h more = elim (Bool-cases (ltb s.queued (cfg.concurrency * 2))) [
    | inl free ↦ rw free (ground (arith, free), ground (arith, h.room), ground arith)
    | inr full ↦ rw full (ground (arith, full), ground (arith, h.room), ground arith)
  ]

  end_lem :
      (s : OfferState)
      → s.offering ≡ true
      → measure pace (record s { offering = false }) < measure pace s
  unfolding measure
  end_lem s on = rw on (omega arith)

  abbrev Kept : OfferState → OfferState → Type 0
  Kept s s' = IsSound cfg s' × (s'.ticks ≤ most_ticks pace) × (measure pace s' < measure pace s)

  on_turn-Kept :
      (done : Bool) (now : Time) (s s' : OfferState)
      → IsSound cfg s
      → s.ticks ≤ most_ticks pace
      → on_turn cfg pace done now s ≡ some s'
      → Kept s s'
  unfolding on_turn
  on_turn-Kept done now s s' h few e =
      elim (Bool-cases (not s.offering || ltb now (pace.ticker_start + s.ticks * pace.interval))) [
        | inl early ↦ absurd (ground (arith, e, early))
        | inr due ↦ elim (Bool-cases (not (ltb now pace.deadline) || done)) [
          | inl over ↦
              let is : record s { offering = false } ≡ s' = ground (arith, e, due, over) in
              subst (Kept s) is (
                record { room = h.room; workers = h.workers; counted = h.counted },
                few,
                end_lem s (ground (arith, due)),
              )
          | inr more ↦
              let is : on_tick cfg s ≡ s' = ground (arith, e, due, more) in
              let (sound, less, few') =
                on_tick_lem s h (tick_left s now (ground (arith, due)) (ground (arith, more))) in
              subst (Kept s) is (sound, few', less)
        ]
      ]

  step-Kept :
      (m : Move) (s s' : OfferState)
      → IsSound cfg s
      → s.ticks ≤ most_ticks pace
      → step cfg pace m s ≡ some s'
      → Kept s s'
  unfolding step
  step-Kept (turn now) s s' h few e = on_turn-Kept false now s s' h few e
  step-Kept (cancelled now) s s' h few e = on_turn-Kept true now s s' h few e
  step-Kept take s s' h few e = (ground arith, ground arith, unfold measure in ground arith)
  step-Kept (finish r) s s' h few e = (
    ground (arith, length-snoc s.buffered r),
    ground arith,
    unfold measure in ground (arith, length-snoc s.buffered r),
  )
  step-Kept collect s s' h few e = elim (List-cases s.buffered) [
    | inl empty ↦ absurd (ground (arith, e, empty))
    | inr (r, rs, some_left) ↦ (
      ground (arith, some_left, length-snoc s.collected r),
      ground (arith, some_left),
      unfold measure in ground (arith, some_left),
    )
  ]

  -- All records so far, in order.
  held : OfferState → List Record
  held s = s.collected ++ s.buffered

  step-held :
      (m : Move) (s s' : OfferState) (moves : List Move)
      → step cfg pace m s ≡ some s'
      → held s' ++ finished moves ≡ held s ++ finished (m ∷ moves)
  unfolding step on_turn on_tick held finished
  step-held (turn now) s s' moves e = ground arith
  step-held (cancelled now) s s' moves e = ground arith
  step-held take s s' moves e = ground arith
  step-held (finish r) s s' moves e =
      let is : s'.collected ++ s'.buffered ≡ s.collected ++ (s.buffered ++ r ∷ []) = ground arith in
      rw is (simp append_assoc)
  step-held collect s s' moves e = elim (List-cases s.buffered) [
    | inl empty ↦ absurd (ground (arith, e, empty))
    | inr (r, rs, some_left) ↦
        let is : s'.collected ++ s'.buffered ≡ (s.collected ++ r ∷ []) ++ rs =
          ground (arith, some_left) in
        rw (is, some_left) (simp append_assoc)
  ]

  -- A schedule that is carried out is no longer than what is left to do.
  run-Kept :
      (moves : List Move) (s s' : OfferState)
      → IsSound cfg s
      → s.ticks ≤ most_ticks pace
      → run cfg pace moves s ≡ some s'
      → IsSound cfg s'
        × (s'.ticks ≤ most_ticks pace)
        × (length moves + measure pace s' ≤ measure pace s)
        × (held s' ≡ held s ++ finished moves)
  unfolding run finished
  run-Kept [] s s' h few e =
      let is : s ≡ s' = ground (arith, e) in
      subst
        (λ (t : OfferState).
          IsSound cfg t
          × (t.ticks ≤ most_ticks pace)
          × (length {A = Move} [] + measure pace t ≤ measure pace s)
          × (held t ≡ held s ++ finished []))
        is (h, few, omega arith, sym (append-nil (held s)))
  run-Kept (m ∷ moves) s s' h few e = elim (Option-cases (step cfg pace m s)) [
    | inl stuck ↦ absurd (ground (arith, e, stuck))
    | inr (t, moved) ↦
        let (h1, few1, less) = step-Kept m s t h few moved in
        let (h2, few2, longer, same) = run-Kept moves t s' h1 few1 (ground (arith, e, moved)) in
        (h2, few2, omega arith, same ∙ step-held m s t moves moved)
  ]

  -- As long as Offer has not returned something can happen.
  goes_on :
      (s : OfferState)
      → IsSound cfg s
      → ((rs : List Record) × (returned s ≡ some rs)
          × (s.collected ≡ rs)
          × (s.buffered ≡ [])
          × (s.queued ≡ 0)
          × (s.busy ≡ 0))
        ⊎ ((m : Move) × (s' : OfferState) × (step cfg pace m s ≡ some s'))
  unfolding returned step on_turn
  goes_on s h = elim (Bool-cases s.offering) [
    | inl on ↦ inr (
      turn (pace.ticker_start + s.ticks * pace.interval + pace.deadline),
      record s { offering = false },
      ground (arith, on),
    )
    | inr off ↦ elim (List-cases s.buffered) [
      | inr (r, rs, some_left) ↦ inr (
        collect,
        record s { buffered = rs; collected = s.collected ++ r ∷ [] },
        rw some_left refl,
      )
      | inl empty ↦ elim (Bool-cases (ltb 0 s.busy)) [
        | inl working ↦ inr (
          finish unmade,
          record s { busy = s.busy - 1; buffered = s.buffered ++ unmade ∷ [] },
          ground (arith, working, empty, h.workers),
        )
        | inr idle ↦ elim (Bool-cases (ltb 0 s.queued)) [
          | inl waiting ↦ inr (
            take,
            record s { queued = s.queued - 1; busy = s.busy + 1 },
            ground (arith, waiting, idle, h.room),
          )
          | inr none_left ↦ inl (
            s.collected,
            ground (arith, off, empty, idle, none_left),
            refl,
            empty,
            ground (arith, none_left),
            ground (arith, idle),
          )
        ]
      ]
    ]
  ]

new_pace-pos :
    (cfg : OfferConfig) (ticker_start now : Time) {pace : Pace}
    → new_pace cfg ticker_start now ≡ some pace
    → 1 ≤ pace.interval
unfolding new_pace tick_interval div?
new_pace-pos cfg ticker_start now e = ground arith

start-IsSound : (cfg : OfferConfig) → IsSound cfg start_offer
start-IsSound cfg = record { room = omega arith; workers = omega arith; counted = refl }

-- However the ticks, the workers, the collector and a cancellation are scheduled, Offer ends after
-- at most four moves for each tick and one: until it has returned something can happen. It returns
-- the records of its workers, each once and in the order in which they were sent, one for each tick
-- that was not dropped; there are no more ticks than the time up to the deadline over the interval,
-- rounded up.
pub run-offer_ends :
    (cfg : OfferConfig) (ticker_start now : Time) (moves : List Move) {pace : Pace} {s : OfferState}
    → new_pace cfg ticker_start now ≡ some pace
    → run cfg pace moves start_offer ≡ some s
    → (length moves ≤ 4 * most_ticks pace + 1)
      × (s.ticks ≤ most_ticks pace)
      × (((returned s ≡ some (finished moves)) × (length (finished moves) + s.dropped ≡ s.ticks))
          ⊎ ((m : Move) × (s' : OfferState) × (step cfg pace m s ≡ some s')))
unfolding measure held
run-offer_ends cfg ticker_start now moves {pace} {s} paced e =
    let pos = new_pace-pos cfg ticker_start now paced in
    let (h, few, longer, same) =
      run-Kept cfg pace pos moves start_offer s (start-IsSound cfg) (omega arith) e in
    (
      omega (arith, longer),
      few,
      elim (goes_on cfg pace pos s h) [
        | inr more ↦ inr more
        | inl (rs, is, all, empty, none_queued, none_busy) ↦
            let whole : s.collected ≡ finished moves =
              sym (append-nil s.collected) ∙ ap (λ xs. s.collected ++ xs) (sym empty) ∙ same in
            inl (
              is ∙ ap {B = Option (List Record)} some (sym all ∙ whole),
              ground (arith, h.counted, empty, none_queued, none_busy, ap length whole),
            )
      ],
    )
