-- ===== src/Hal/Time/Tests.antt =====
-- The time base over a Boolean flag and fixed-point numbers.
use mathlib.Core.List.{Memᴰ}
use taste_samv71_rtems_runti.Common.{
  ℕ, ◌+◌, ◌-◌, ◌*◌, ◌^◌, ◌≤◌, ◌<◌, ◌≡◌, ◌≢◌, refl, inl, inr, Bool, true, false, some, none, List,
  [], ◌∷◌, ◌++◌, arith,
}
use taste_samv71_rtems_runti.Common.Double.{fixed_point, fixed_lt}
use taste_samv71_rtems_runti.Rtems.Recorder.{recorder, sleep}
use taste_samv71_rtems_runti.Hal.Time.{
  AccessFlag, Event, interrupt, other_reset, Round, Timer, timer_irq_handler, happen, attempt,
  read_counters, total_ticks, ticks_per_reload, get_elapsed_time_in_ns, sleep_ns,
}
use taste_samv71_rtems_runti.Hal.Time.Reading.{
  IsQuiet, read_counters_lem, read_counters_total, read_counters-shared,
}
use taste_samv71_rtems_runti.Hal.Time.Ticks.{
  total_ticks_mono, total_ticks_wraps, total_ticks_repeats, get_elapsed_time_in_ns_mono,
}

abbrev bool_flag : AccessFlag
bool_flag = record {
  Flag = Bool;
  set = λ f. true;
  reset = λ f. false;
  check = λ f. f;
  check-set = λ f. refl;
  check-reset = λ f. refl;
  Channel = ℕ;
  get_channel_status = λ c. 0;
}

abbrev round : List Event → List Event → List Event → ℕ → Round
round a b c counter = record {
  before_load = a;
  before_read = b;
  before_check = c;
  counter = counter;
}

-- an interrupt between the two loads, then a quiet round
abbrev rounds : List Round
rounds = round [] (interrupt ∷ []) [] 3 ∷ round [] [] [] 9 ∷ []

abbrev start : Timer bool_flag
start = record { reloads_counter = 4; reloads_modified_flag = true; channel = 1 }

abbrev later : Timer bool_flag
later = record { reloads_counter = 5; reloads_modified_flag = false; channel = 0 }

read_rounds : read_counters bool_flag rounds start ≡ some (5, 9, later)
unfolding read_counters attempt happen timer_irq_handler
read_rounds = refl

read_counters_lem_example :
    (5 ≡ later.reloads_counter) × (r : Round) × Memᴰ r rounds × IsQuiet r × (9 ≡ r.counter)
read_counters_lem_example =
    read_counters_lem bool_flag rounds start later 5 9 (refl, refl, refl, (refl, refl, refl, tt))
      read_rounds

read_counters_total_example :
    read_counters bool_flag
      ((round (interrupt ∷ []) (other_reset ∷ interrupt ∷ []) [] 0 ∷ [])
        ++ (round [] (other_reset ∷ []) [] 9 ∷ []))
      start
    ≢ none
read_counters_total_example =
    read_counters_total bool_flag (round (interrupt ∷ []) (other_reset ∷ interrupt ∷ []) [] 0 ∷ [])
      (round [] (other_reset ∷ []) [] 9) [] start (refl, refl, refl)

abbrev shared : Round
shared = round [] (interrupt ∷ other_reset ∷ []) [] 1

read_counters-shared_example :
    (t' : Timer bool_flag) × (read_counters bool_flag (shared ∷ []) start ≡ some (4, 1, t'))
    × (t'.reloads_counter ≡ 5)
read_counters-shared_example = read_counters-shared bool_flag shared [] start refl refl refl

total_ticks_mono_test :
    (total_ticks 7 65000 ≡ 7 * ticks_per_reload + 65000) × (total_ticks 7 65000 ≤ total_ticks 8 3)
total_ticks_mono_test =
    total_ticks_mono 7 8 65000 3 (omega arith) (omega arith) (omega arith) (inl (omega arith))

total_ticks_wraps_example :
    (total_ticks 1_000_000 12 < 2 ^ 32 + 2 ^ 16)
    × (total_ticks 65538 12 + (2 ^ 32 - 2 ^ 17) < total_ticks 65537 12)
total_ticks_wraps_example = total_ticks_wraps 1_000_000 12 (omega arith)

total_ticks_repeats_test : total_ticks 3 65535 ≡ total_ticks (3 + 1) 0
total_ticks_repeats_test = total_ticks_repeats 3 (omega arith)

get_elapsed_time_in_ns_mono_example :
    (n₁ n₂ : ℕ) × (get_elapsed_time_in_ns bool_flag fixed_point 75_000_000 rounds start
      ≡ some (n₁, later))
    × (get_elapsed_time_in_ns bool_flag fixed_point 75_000_000 rounds start ≡ some (n₂, later))
    × (n₁ ≤ n₂)
unfolding fixed_lt
get_elapsed_time_in_ns_mono_example =
    get_elapsed_time_in_ns_mono bool_flag fixed_point 75_000_000 rounds rounds start start later
      later 5 9 5 9 refl read_rounds read_rounds (omega arith) (omega arith) (omega arith)
      (inr (refl, omega arith))

-- With the main clock at 75 MHz a sleep of one millisecond is passed on as 75000 clock ticks.
sleep_one_ms : sleep_ns fixed_point recorder 75_000_000 1_000_000 [] ≡ (sleep 75_000 ∷ [], true)
unfolding sleep_ns
sleep_one_ms = refl
