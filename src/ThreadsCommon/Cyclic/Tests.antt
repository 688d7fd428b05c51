-- ===== src/ThreadsCommon/Cyclic/Tests.antt =====
-- Cyclic requests on a system that records its calls, two interfaces and a tick of one millisecond.
use taste_samv71_rtems_runti.Common.{
  ◌⊎◌, Option, none, some, Bool, true, false, ◌≤◌, ℕ, ◌-◌, ◌^◌, ◌<◌, ◌≡◌, refl, List, [], ◌∷◌,
  arith, get_or, replicate,
}
use taste_samv71_rtems_runti.Rtems.Recorder.{recorder, Call, timer, fire_after, send}
use taste_samv71_rtems_runti.ThreadsCommon.Cyclic.{
  CyclicRequestData, blank, Cyclic, clear_bytes, schedule_next_tick, timer_callback, new_request,
  create_cyclic_request, empty_request_size,
}
use taste_samv71_rtems_runti.ThreadsCommon.Cyclic.Schedule.{
  run, fired, advance, run_no_drift, now, due, ArmedBy, schedule_next_tick_lem,
}
use taste_samv71_rtems_runti.ThreadsCommon.Cyclic.Create.{
  IsValid, create_cyclic_request-IsValid, create_cyclic_request_lem,
}

abbrev fresh : Cyclic recorder
fresh = record {
  cyclic_requests_count = 0;
  cyclic_request_data = blank ∷ blank ∷ [];
  empty_request = replicate 32 0;
  world = [];
}

abbrev request : ℕ → ℕ → ℕ → CyclicRequestData
request next interval queue = record {
  timer_id = 1;
  next_wakeup_ticks = next;
  interval_ticks = interval;
  queue_id = queue;
  request_size = 24;
}

abbrev one : Cyclic recorder
one = record {
  cyclic_requests_count = 1;
  cyclic_request_data = request 150 100 7 ∷ blank ∷ [];
  empty_request = replicate 32 0;
  world = fire_after 1 149 0 ∷ timer 0x50 ∷ [];
}

fresh-IsValid : IsValid recorder 2 fresh
fresh-IsValid = record { counted = omega arith; room = refl; small = omega arith }

-- 100 ms, from 50 ms on
create_one :
    create_cyclic_request recorder 2 (λ ms. ms) 0x50 100_000_000 50_000_000 7 24 fresh
    ≡ some (one, true)
unfolding create_cyclic_request new_request schedule_next_tick clear_bytes
create_one = refl

create_large : create_cyclic_request recorder 2 (λ ms. ms) 0x50 100_000_000 0 7 33 fresh ≡ none
unfolding create_cyclic_request
create_large = refl

create_cyclic_request-IsValid_test :
    IsValid recorder 2 one
    × ((i : ℕ)
        → i < 0
        → get_or one.cyclic_request_data i blank ≡ get_or fresh.cyclic_request_data i blank)
create_cyclic_request-IsValid_test =
    create_cyclic_request-IsValid recorder 2 (λ ms. ms) 0x50 100_000_000 50_000_000 7 24 fresh
      fresh-IsValid one true create_one

abbrev create_fresh : Option (Cyclic recorder × Bool)
create_fresh = create_cyclic_request recorder 2 (λ ms. ms) 0x50 100_000_000 50_000_000 7 24 fresh

create_cyclic_request_lem_example :
    ((empty_request_size < 24) × (create_fresh ≡ none))
    ⊎ ((24 ≤ empty_request_size)
        × (((2 ≤ 0)
              × (s' : Cyclic recorder) × (create_fresh ≡ some (s', false))
              × (s'.cyclic_requests_count ≡ 0)
              × (s'.cyclic_request_data ≡ fresh.cyclic_request_data)
              × (s'.world ≡ []))
            ⊎ ((0 < 2)
                × (((true ≡ false)
                      × (s' : Cyclic recorder) × (create_fresh ≡ some (s', false))
                      × (s'.cyclic_requests_count ≡ 0)
                      × (s'.cyclic_request_data ≡ fresh.cyclic_request_data)
                      × (s'.world ≡ timer 0x50 ∷ []))
                    ⊎ ((true ≡ true)
                        × (s' : Cyclic recorder) × (create_fresh ≡ some (s', true))
                        × (s'.cyclic_requests_count ≡ 1)
                        × (get_or s'.cyclic_request_data 0 blank ≡ request 150 100 7)
                        × (s'.world ≡ fire_after 1 149 0 ∷ timer 0x50 ∷ []))))))
create_cyclic_request_lem_example =
    create_cyclic_request_lem recorder 2 (λ ms. ms) 0x50 100_000_000 50_000_000 7 24 fresh
      fresh-IsValid

-- The callback sends the first 24 bytes of the empty request and arms the timer again.
callback_one :
    (timer_callback recorder 0 one).world ≡ fire_after 1 247 0 ∷ send 7 (replicate 24 0) ∷ one.world
unfolding timer_callback schedule_next_tick
callback_one = refl

abbrev ticks : List (ℕ × (List Call → List Call))
ticks = (0, λ w. w) ∷ (1, λ w. timer 9 ∷ w) ∷ (0, λ w. timer 8 ∷ w) ∷ []

run_no_drift_example :
    get_or (run recorder ticks one).cyclic_request_data 0 blank
    ≡ advance recorder (request 150 100 7) (fired recorder 0 ticks)
run_no_drift_example = run_no_drift recorder ticks one 0 (omega arith) (omega arith)

abbrev late : Cyclic recorder
late = record one { cyclic_request_data = request 0 1 7 ∷ blank ∷ [] }

-- One tick late: the timer is armed for 2^32 - 1 ticks.
schedule_next_tick_lem_example :
    ((now recorder 0 late ≤ due recorder 0 late)
      × ArmedBy recorder 0 late (due recorder 0 late - now recorder 0 late))
    ⊎ ((due recorder 0 late < now recorder 0 late) × ArmedBy recorder 0 late (2 ^ 32 - 1))
schedule_next_tick_lem_example =
    schedule_next_tick_lem recorder 0 late (omega arith) (omega arith) (omega arith)
