-- ===== src/Hal/Watchdog.antt =====
-- `Init_setup_watchdog`, `Hal_ResetWatchdog` and `Hal_IdleTask` of src/Hal/Hal.c. The watchdog's driver is no part of the repository: `Wdt`
-- is its interface. A failed assertion is `none`.
pub mod Setup
pub mod Once
mod Tests
use taste_samv71_rtems_runti.Common.{
  ℕ, zero, suc, ◌≡◌, Bool, true, false, not, Option, none, some, if◌then◌else◌, ◌&&◌, ◌||◌,
}

-- `Wdt_Config`
pub record WdtConfig : Type 0 where
  pub counter_value : ℕ
  pub delta_value : ℕ
  pub is_reset_enabled : Bool
  pub is_fault_interrupt_enabled : Bool
  pub is_disabled : Bool
  pub is_halted_on_idle : Bool
  pub is_halted_on_debug : Bool

-- The watchdog of this device can be configured once after a reset: `locked` says that it has been.
-- Until then a configuration is read back as it was given; after it the old one stays.
pub record Wdt : Type 1 where
  pub Registers : Type 0
  pub init : Registers → Registers
  pub set_config : WdtConfig → Registers → Registers
  pub get_config : Registers → WdtConfig
  pub reset : Registers → Registers
  pub locked : Registers → Bool
  pub read_back :
      (c : WdtConfig) (r : Registers) → locked r ≡ false → get_config (set_config c r) ≡ c
  pub keeps_old :
      (c : WdtConfig) (r : Registers) → locked r ≡ true → get_config (set_config c r) ≡ get_config r

-- The configuration with, and the one without, RT_RTOS_USE_WATCHDOG.
abbrev pub wdt_config : Bool → WdtConfig
wdt_config true = record {
  counter_value = 0x0fff;
  delta_value = 0x0fff;
  is_reset_enabled = true;
  is_fault_interrupt_enabled = false;
  is_disabled = false;
  is_halted_on_idle = false;
  is_halted_on_debug = true;
}
wdt_config false = record {
  counter_value = 0x0fff;
  delta_value = 0x0fff;
  is_reset_enabled = false;
  is_fault_interrupt_enabled = false;
  is_disabled = true;
  is_halted_on_idle = false;
  is_halted_on_debug = true;
}

-- The comparison `a == b` of the two assertions.
abbrev pub same : Bool → Bool → Bool
same true b = b
same false b = not b

module _ (wdt : Wdt) where
  -- By RT_RTOS_NO_INIT and RT_RTOS_USE_WATCHDOG, which are never defined together, on the registers
  -- and `idleTaskIsWatchdogEnabled`.
  unfoldable pub init_setup_watchdog :
      Bool → Bool → wdt.Registers × Bool → Option (wdt.Registers × Bool)
  init_setup_watchdog no_init use_watchdog (r, enabled) =
      let r₁ = wdt.init r in
      let r₂ = wdt.set_config (wdt_config use_watchdog) r₁ in
      let existing = wdt.get_config r₂ in
      if no_init
      then some (r₁, if not (wdt.get_config r₁).is_disabled then true else enabled)
      else if same existing.is_disabled (wdt_config use_watchdog).is_disabled
          && same existing.is_reset_enabled (wdt_config use_watchdog).is_reset_enabled
      then some (r₂, enabled)
      else none

  unfoldable pub reset_watchdog : wdt.Registers → wdt.Registers
  reset_watchdog r = wdt.reset r

  -- `Hal_IdleTask`, which never ends, after this many rounds of its loop
  unfoldable pub idle_task : ℕ → wdt.Registers → wdt.Registers
  unfolding reset_watchdog
  idle_task zero r = r
  idle_task (suc rounds) r = idle_task rounds (reset_watchdog r)
