-- ===== src/FaultHandler/Entry/Tests.antt =====
-- A usage fault of a task on the process stack at 0x20410000.
use taste_samv71_rtems_runti.Common.{ℕ}
use taste_samv71_rtems_runti.FaultHandler.Entry.{General, Special}

abbrev general : General
general = record {
  r0 = 1;
  r1 = 2;
  r2 = 3;
  r3 = 4;
  r4 = 5;
  r5 = 6;
  r6 = 7;
  r7 = 8;
  r8 = 9;
  r9 = 10;
  r10 = 11;
  r11 = 12;
}

abbrev special : Special
special = record {
  msp = 0x2045_0000;
  psp = 0x2041_0000;
  ipsr = 6;
  primask = 0;
  faultmask = 0;
  basepri = 0;
  control = 2;
}

-- Every word holds its address.
abbrev memory : ℕ → ℕ
memory a = a
