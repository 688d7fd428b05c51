-- ===== src/Hal/Time.antt =====
-- The time base of src/Hal/Hal.c: the timer's interrupt handler, the loop that reads the software
-- and the hardware counter, and the ticks since start. The hardware counter, and the moments at which
-- interrupts arrive and at which other tasks that read the time reset the flag they share, are given
-- by the environment, round by round.
pub mod Reading
pub mod Ticks
mod Tests
use taste_samv71_rtems_runti.Common.Double.{Double}
use taste_samv71_rtems_runti.Rtems.{Rtems, is_successful}
use taste_samv71_rtems_runti.Common.{
  ◌≡◌, ℕ, zero, suc, ◌+◌, ◌*◌, Bool, true, false, Option, none, some, List, [], ◌∷◌, u32, u64,
}

-- `ConcurrentAccessFlag` and the timer driver of the board support package. What is documented: a set
-- flag is seen as set, a reset flag is not.
pub record AccessFlag : Type 1 where
  pub Flag : Type 0
  pub set : Flag → Flag
  pub reset : Flag → Flag
  pub check : Flag → Bool
  pub check-set : (f : Flag) → check (set f) ≡ true
  pub check-reset : (f : Flag) → check (reset f) ≡ false
  pub Channel : Type 0
  pub get_channel_status : Channel → Channel

abbrev pub ticks_per_reload : ℕ
ticks_per_reload = 65535

-- A timer interrupt, or the reset of the flag by another task that begins a round of its own
pub data Event : Type 0 where
  interrupt other_reset : Event

-- One round of the loop as the environment has it: what happens between the reset of the flag and the
-- load of the software counter, between that and the read of the hardware counter, and between that
-- and the check of the flag; and what the hardware counter reads.
pub record Round : Type 0 where
  pub before_load : List Event
  pub before_read : List Event
  pub before_check : List Event
  pub counter : ℕ

module _ (api : AccessFlag) where
  -- `reloads_counter`, `reloads_modified_flag` and the timer's first channel in `tic`
  pub record Timer : Type 0 where
    pub reloads_counter : ℕ
    pub reloads_modified_flag : api.Flag
    pub channel : api.Channel

  unfoldable pub timer_irq_handler : Timer → Timer
  timer_irq_handler t = record {
    reloads_counter = u32 (t.reloads_counter + 1);
    reloads_modified_flag = api.set t.reloads_modified_flag;
    channel = api.get_channel_status t.channel;
  }

  unfoldable pub happen : List Event → Timer → Timer
  happen [] t = t
  happen (interrupt ∷ es) t = happen es (timer_irq_handler t)
  happen (other_reset ∷ es) t =
      happen es (record t { reloads_modified_flag = api.reset t.reloads_modified_flag })

  -- What one round of the loop in `Hal_GetElapsedTimeInNs` reads, and the timer behind it.
  unfoldable pub attempt : Round → Timer → ℕ × ℕ × Timer
  attempt round t =
      let clean = record t { reloads_modified_flag = api.reset t.reloads_modified_flag } in
      let loaded = happen round.before_load clean in
      let reading = happen round.before_read loaded in
      (loaded.reloads_counter, round.counter, happen round.before_check reading)

  -- The loop; `none` means that it is still running when the given rounds are over.
  unfoldable pub read_counters : List Round → Timer → Option (ℕ × ℕ × Timer)
  read_counters [] t = none
  read_counters (round ∷ rounds) t =
      let (reloads, ticks, t') = attempt round t in
      elim (api.check t'.reloads_modified_flag) [
        | true ↦ read_counters rounds t'
        | false ↦ some (reloads, ticks, t')
      ]

-- `reloads` is a `uint32_t` and `TICKS_PER_RELOAD` an `unsigned long` of 32 bits: the product is cut
-- to 32 bits before it is widened.
unfoldable pub total_ticks : ℕ → ℕ → ℕ
total_ticks reloads ticks = u64 (u32 (reloads * ticks_per_reload) + ticks)

module _ (d : Double) where
  -- The conversion at the end of `Hal_GetElapsedTimeInNs`, by the main clock's frequency.
  unfoldable pub ticks_to_ns : ℕ → ℕ → ℕ
  ticks_to_ns frequency total =
      let clock_frequency = d.div (d.from_u64 frequency) (d.from_u64 8) in
      d.to_u64 (d.div (d.from_u64 total) (d.div clock_frequency (d.from_u64 1_000_000_000)))

  -- `Hal_SleepNs`; a `double` that the target type cannot hold is outside C.
  unfoldable pub sleep_ns : (os : Rtems) → ℕ → ℕ → os.World → os.World × Bool
  sleep_ns os frequency time_ns w =
      let sleep_tick_count =
        d.mul (d.from_u64 time_ns) (d.div (d.from_u64 frequency) (d.from_u64 1_000_000_000)) in
      let (status, w') = os.task_wake_after (u32 (d.to_u64 sleep_tick_count)) w in
      (w', is_successful status)

module _ (api : AccessFlag) (d : Double) where
  unfoldable pub get_elapsed_time_in_ns : ℕ → List Round → Timer api → Option (ℕ × Timer api)
  unfolding total_ticks ticks_to_ns
  get_elapsed_time_in_ns frequency rounds t = elim (read_counters api rounds t) [
    | none ↦ none
    | some (reloads, ticks, t') ↦ some (ticks_to_ns d frequency (total_ticks reloads ticks), t')
  ]
