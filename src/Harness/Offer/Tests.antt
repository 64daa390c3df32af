-- ===== src/Harness/Offer/Tests.antt =====
-- Offer of cmd/harness/client.go with one worker: six requests a minute, for fifteen seconds.
use ti_assignment_promise_th.Base.{
  ◌+◌, ◌*◌, ◌≤◌, ◌≡◌, refl, ◌⊎◌, false, some, List, [], ◌∷◌, length, div?,
}
use ti_assignment_promise_th.Harness.Client.{Outcome, do_request}
use ti_assignment_promise_th.Harness.Analysis.{Record}
use ti_assignment_promise_th.Harness.Offer.{
  OfferConfig, OfferState, Move, Pace, turn, take, finish, collect, start_offer, tick_interval,
  new_pace, step, on_turn, on_tick, run, returned,
}
use ti_assignment_promise_th.Harness.Offer.Finish.{finished, most_ticks, run-offer_ends}

abbrev slow : OfferConfig
slow = record { rpm = 6; duration = 15000000000; concurrency = 1 }

abbrev pace : Pace
pace = record { interval = 10000000000; ticker_start = 100; deadline = 15000000120 }

abbrev lost : Record
lost = do_request 150 250 Outcome.unanswered

-- The second record is sent before the first is collected.
abbrev schedule : List Move
schedule =
    turn 120
    ∷ take
    ∷ turn 10000000130
    ∷ finish lost
    ∷ take
    ∷ finish lost
    ∷ collect
    ∷ turn 20000000140
    ∷ collect
    ∷ []

abbrev over : OfferState
over = record {
  offering = false;
  ticks = 2;
  dropped = 0;
  queued = 0;
  busy = 0;
  buffered = [];
  collected = lost ∷ lost ∷ [];
}

run-schedule : run slow pace schedule start_offer ≡ some over
unfolding run step on_turn on_tick do_request
run-schedule = refl

returned-over : returned over ≡ some (finished schedule)
unfolding returned finished
returned-over = refl

run-offer_ends_example :
    (length schedule ≤ 4 * most_ticks pace + 1)
    × (over.ticks ≤ most_ticks pace)
    × (((returned over ≡ some (finished schedule))
          × (length (finished schedule) + over.dropped ≡ over.ticks))
        ⊎ ((m : Move) × (s' : OfferState) × (step slow pace m over ≡ some s')))
unfolding new_pace tick_interval div?
run-offer_ends_example =
    run-offer_ends slow 100 120 schedule {pace = pace} {s = over} refl run-schedule
