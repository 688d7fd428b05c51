-- ===== src/Hal/Watchdog/Tests.antt =====
-- A watchdog whose configuration can be written once.
use taste_samv71_rtems_runti.Common.{◌≡◌, refl, true, false, none, some, arith}
use taste_samv71_rtems_runti.Hal.Watchdog.{wdt_config, init_setup_watchdog}
use taste_samv71_rtems_runti.Hal.Watchdog.Once.{write_once}
use taste_samv71_rtems_runti.Hal.Watchdog.Setup.{init_setup_watchdog_lem}

-- A locked watchdog that already runs cannot be disabled.
init_setup_watchdog_lem_test :
    (init_setup_watchdog write_once false true ((wdt_config false, false), false)
      ≡ some ((wdt_config true, true), false))
    × (init_setup_watchdog write_once false false ((wdt_config true, true), false) ≡ none)
init_setup_watchdog_lem_test = (
  ((init_setup_watchdog_lem write_once true false (wdt_config false, false)).0 refl).0,
  (init_setup_watchdog_lem write_once false false (wdt_config true, true)).2 refl
      (λ d e. ground arith),
)
