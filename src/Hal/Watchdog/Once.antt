-- ===== src/Hal/Watchdog/Once.antt =====
-- A watchdog whose configuration can be written once. It meets the interface.
use taste_samv71_rtems_runti.Common.{◌≡◌, refl, Bool, true, false, arith}
use taste_samv71_rtems_runti.Hal.Watchdog.{WdtConfig, Wdt}

abbrev pub write : WdtConfig → WdtConfig × Bool → WdtConfig × Bool
write c (old, true) = (old, true)
write c (old, false) = (c, true)

pub write-free : (c : WdtConfig) (r : WdtConfig × Bool) → r.1 ≡ false → (write c r).0 ≡ c
write-free c (old, true) h = ground arith
write-free c (old, false) h = refl

pub write-locked : (c : WdtConfig) (r : WdtConfig × Bool) → r.1 ≡ true → (write c r).0 ≡ r.0
write-locked c (old, true) h = refl
write-locked c (old, false) h = ground arith

abbrev pub write_once : Wdt
write_once = record {
  Registers = WdtConfig × Bool;
  init = λ r. r;
  set_config = write;
  get_config = λ r. r.0;
  reset = λ r. r;
  locked = λ r. r.1;
  read_back = write-free;
  keeps_old = write-locked;
}
