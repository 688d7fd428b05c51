-- ===== src/Hal/Init/Started.antt =====
-- The state in which initialisation leaves the hardware, and the first time query after it.
use taste_samv71_rtems_runti.Common.{
  ℕ, ◌<◌, ◌^◌, ◌≡◌, refl, Bool, true, false, [], ◌∷◌, some, arith,
}
use taste_samv71_rtems_runti.Common.Double.{Double}
use taste_samv71_rtems_runti.Hal.Time.{
  AccessFlag, Round, Timer, happen, attempt, read_counters, total_ticks, ticks_to_ns,
  get_elapsed_time_in_ns,
}
use taste_samv71_rtems_runti.Hal.Watchdog.{Wdt, wdt_config}
use taste_samv71_rtems_runti.Hal.Watchdog.Setup.{init_setup_watchdog_lem}
use taste_samv71_rtems_runti.SamV71Core.Start.{Board, mpu_conf, core_init}
use taste_samv71_rtems_runti.SamV71Core.Clock.{Target, Pmc, default_config}
use taste_samv71_rtems_runti.SamV71Core.Clock.Init.{init_lem}
use taste_samv71_rtems_runti.Hal.Init.{Tic, Hardware, init_timer, hal_init}

-- A round of the time query without an interrupt
abbrev pub quiet : ℕ → Round
quiet counter = record { before_load = []; before_read = []; before_check = []; counter = counter }

first_round :
    (api : AccessFlag) (t : Timer api) (counter : ℕ)
    → read_counters api (quiet counter ∷ []) t
      ≡ some (
        t.reloads_counter,
        counter,
        record t { reloads_modified_flag = api.reset t.reloads_modified_flag },
      )
unfolding read_counters attempt happen
first_round api t counter = rw (read_counters, api.check-reset t.reloads_modified_flag) refl

module _ (api : AccessFlag) (tic : Tic) (wdt : Wdt) (board : Board) (pmc : Pmc) (target : Target)
    (use_watchdog : Bool) (h : Hardware api tic wdt board pmc) where
  abbrev pub started : Hardware api tic wdt board pmc
  started = record {
    watchdog = wdt.set_config (wdt_config use_watchdog) (wdt.init h.watchdog);
    idle_task_is_watchdog_enabled = h.idle_task_is_watchdog_enabled;
    board_world = board.set_mpu_config mpu_conf (board.mpu_init (board.pmc_init h.board_world));
    clock = (pmc.set_config default_config 1_000_000 h.clock).1;
    mck_frequency = 75_000_000;
    timer = (init_timer api tic (h.timer, h.world)).0;
    world = (init_timer api tic (h.timer, h.world)).1;
  }

  -- When the watchdog is not locked and the clock driver accepts its configuration, initialisation
  -- succeeds with the chosen watchdog configuration and a main clock of 75 MHz. A time query after it in
  -- whose first round no interrupt arrives ends in that round, with the time of the timer's 16-bit
  -- counter alone.
  pub hal_init_lem :
      (d : Double) (counter : ℕ)
      → wdt.locked (wdt.init h.watchdog) ≡ false
      → (pmc.set_config default_config 1_000_000 h.clock).0 ≡ true
      → counter < 2 ^ 16
      → (hal_init api tic wdt board pmc target false use_watchdog h ≡ some (started, true))
        × (wdt.get_config started.watchdog ≡ wdt_config use_watchdog)
        × (get_elapsed_time_in_ns api d started.mck_frequency (quiet counter ∷ []) started.timer
            ≡ some (
              ticks_to_ns d 75_000_000 counter,
              record started.timer {
                reloads_modified_flag = api.reset h.timer.reloads_modified_flag;
              },
            ))
  unfolding hal_init core_init init_timer get_elapsed_time_in_ns
  hal_init_lem d counter free accepted small =
      let (dog, chosen) =
        (init_setup_watchdog_lem wdt use_watchdog h.idle_task_is_watchdog_enabled h.watchdog).0
          free in
      let clock = (init_lem pmc target h.clock h.mck_frequency).0 accepted in
      let start : total_ticks 0 counter ≡ counter = (unfold total_ticks in omega arith) in
      (
        simp (dog, clock),
        chosen,
        rw (get_elapsed_time_in_ns, first_round api started.timer counter) (rw start refl),
      )
