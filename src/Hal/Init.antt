-- ===== src/Hal/Init.antt =====
-- `Hal_Init` of src/Hal/Hal.c with `Hal_InitTimer`: the watchdog, the clock of SamV71Core and the timer,
-- one after the other. The timer's driver and the installation of its interrupt are an interface.
pub mod Started
mod Tests
use taste_samv71_rtems_runti.Common.{ℕ, Bool, true, false, Option, none, some}
use taste_samv71_rtems_runti.Common.Options.{◌>>=◌}
use taste_samv71_rtems_runti.Hal.Time.{AccessFlag, Timer}
use taste_samv71_rtems_runti.Hal.Watchdog.{Wdt, init_setup_watchdog}
use taste_samv71_rtems_runti.SamV71Core.Start.{Board, core_init}
use taste_samv71_rtems_runti.SamV71Core.Clock.{Target, Pmc}

-- The fields of `Tic_ChannelConfig` that are set; the clock source is the main clock by 8.
pub record ChannelConfig : Type 0 where
  pub is_enabled : Bool
  pub is_mck_by_8 : Bool
  pub is_counter_overflow_irq_enabled : Bool

pub record Tic : Type 1 where
  pub World : Type 0
  pub enable_peripheral_clock : World → World
  pub install_handler : World → World
  pub enable_vector : World → World
  pub init : World → World
  pub write_protect : Bool → World → World
  pub set_channel_config : ChannelConfig → World → World
  pub enable_channel : World → World
  pub trigger_channel : World → World

abbrev pub channel_config : ChannelConfig
channel_config = record {
  is_enabled = true;
  is_mck_by_8 = true;
  is_counter_overflow_irq_enabled = true;
}

module _ (api : AccessFlag) (tic : Tic) where
  unfoldable pub init_timer : Timer api × tic.World → Timer api × tic.World
  init_timer (t, w) =
      let w₁ = tic.enable_vector (tic.install_handler (tic.enable_peripheral_clock w)) in
      let w₂ = tic.write_protect false (tic.init w₁) in
      (
        record t { reloads_counter = 0 },
        tic.trigger_channel (tic.enable_channel (tic.set_channel_config channel_config w₂)),
      )

module _ (api : AccessFlag) (tic : Tic) (wdt : Wdt) (board : Board) (pmc : Pmc) where
  -- The static variables that initialisation sets, and the devices
  pub record Hardware : Type 0 where
    pub watchdog : wdt.Registers
    pub idle_task_is_watchdog_enabled : Bool
    pub board_world : board.World
    pub clock : pmc.Registers
    pub mck_frequency : ℕ
    pub timer : Timer api
    pub world : tic.World

  -- By RT_RTOS_NO_INIT and RT_RTOS_USE_WATCHDOG
  unfoldable pub hal_init : Target → Bool → Bool → Hardware → Option (Hardware × Bool)
  unfolding init_timer
  hal_init target no_init use_watchdog h = do
    (watchdog, enabled) ←
        init_setup_watchdog wdt no_init use_watchdog (h.watchdog, h.idle_task_is_watchdog_enabled)
    (board_world, clock, frequency) ←
        core_init board pmc target no_init (h.board_world, h.clock, h.mck_frequency)
    let (timer, world) = init_timer api tic (h.timer, h.world)
    some (
      record {
        watchdog = watchdog;
        idle_task_is_watchdog_enabled = enabled;
        board_world = board_world;
        clock = clock;
        mck_frequency = frequency;
        timer = timer;
        world = world;
      },
      true,
    )
