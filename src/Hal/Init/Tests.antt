-- ===== src/Hal/Init/Tests.antt =====
-- Initialisation over a watchdog that can be written once, a clock that takes every configuration, and a
-- timer that records its calls.
use taste_samv71_rtems_runti.Common.{ℕ, ◌≡◌, refl, Bool, true, false, some, List, [], ◌∷◌, arith}
use taste_samv71_rtems_runti.Common.Double.{fixed_point}
use taste_samv71_rtems_runti.Hal.Time.{AccessFlag, get_elapsed_time_in_ns, ticks_to_ns}
use taste_samv71_rtems_runti.Hal.Watchdog.{wdt_config}
use taste_samv71_rtems_runti.Hal.Watchdog.Once.{write_once}
use taste_samv71_rtems_runti.SamV71Core.Start.{Board}
use taste_samv71_rtems_runti.SamV71Core.Clock.{samv71q21, Pmc, PmcConfig, default_config}
use taste_samv71_rtems_runti.Hal.Init.{Tic, Hardware, init_timer, hal_init}
use taste_samv71_rtems_runti.Hal.Init.Started.{quiet, started, hal_init_lem}

abbrev bool_flag : AccessFlag
bool_flag = record {
  Flag = Bool;
  set = λ f. true;
  reset = λ f. false;
  check = λ f. f;
  check-set = λ f. refl;
  check-reset = λ f. refl;
  Channel = ℕ;
  get_channel_status = λ c. c;
}

abbrev tic : Tic
tic = record {
  World = List ℕ;
  enable_peripheral_clock = λ w. 1 ∷ w;
  install_handler = λ w. 2 ∷ w;
  enable_vector = λ w. 3 ∷ w;
  init = λ w. 4 ∷ w;
  write_protect = λ b w. 5 ∷ w;
  set_channel_config = λ c w. 6 ∷ w;
  enable_channel = λ w. 7 ∷ w;
  trigger_channel = λ w. 8 ∷ w;
}

abbrev pmc : Pmc
pmc = record {
  Registers = PmcConfig;
  set_config = λ c timeout r. (true, c);
  get_mainck_config = λ r. r.mainck;
  get_pll_config = λ r. r.pll;
  get_masterck_config = λ r. r.masterck;
  read_back = λ c timeout r e. (refl, refl, refl);
}

-- The calls in their order
abbrev board : Board
board = record {
  World = List ℕ;
  pmc_init = λ w. 1 ∷ w;
  mpu_init = λ w. 2 ∷ w;
  set_mpu_config = λ c w. 3 ∷ w;
  enable_peripheral_clk = λ id w. 4 ∷ w;
  set_pck_config = λ id c timeout w. (w, true);
  interrupt_handler_install = λ vector handler arg w. 5 ∷ w;
  interrupt_vector_enable = λ vector w. 6 ∷ w;
}

abbrev cold : Hardware bool_flag tic write_once board pmc
cold = record {
  watchdog = (wdt_config true, false);
  idle_task_is_watchdog_enabled = false;
  board_world = [];
  clock = default_config;
  mck_frequency = 0;
  timer = record { reloads_counter = 9; reloads_modified_flag = true; channel = 0 };
  world = [];
}

abbrev warm : Hardware bool_flag tic write_once board pmc
warm = started bool_flag tic write_once board pmc samv71q21 false cold

hal_init_lem_example :
    (hal_init bool_flag tic write_once board pmc samv71q21 false false cold ≡ some (warm, true))
    × (write_once.get_config warm.watchdog ≡ wdt_config false)
    × (get_elapsed_time_in_ns bool_flag fixed_point warm.mck_frequency (quiet 100 ∷ []) warm.timer
        ≡ some (
          ticks_to_ns fixed_point 75_000_000 100,
          record warm.timer { reloads_modified_flag = false },
        ))
hal_init_lem_example =
    hal_init_lem bool_flag tic write_once board pmc samv71q21 false cold fixed_point 100 refl refl
      (omega arith)

calls : warm.world ≡ 8 ∷ 7 ∷ 6 ∷ 5 ∷ 4 ∷ 3 ∷ 2 ∷ 1 ∷ []
unfolding init_timer
calls = refl
