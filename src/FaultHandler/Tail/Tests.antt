-- ===== src/FaultHandler/Tail/Tests.antt =====
-- A usage fault of a task whose stack pointer is 64 below the value of the symbol.
use taste_samv71_rtems_runti.Common.{ℕ, false, List, [], ◌∷◌}
use taste_samv71_rtems_runti.FaultHandler.Report.{DeathReport}
use taste_samv71_rtems_runti.FaultHandler.Entry.{General, Special}
use taste_samv71_rtems_runti.FaultHandler.Entry.Saved.{entered}
use taste_samv71_rtems_runti.FaultHandler.Tail.{Board, fault}

-- The calls in their order
abbrev board : Board
board = record {
  World = List ℕ;
  clean_dcache = λ w. 1 ∷ w;
  invalidate_dcache = λ w. 2 ∷ w;
  reset_system = λ w. 3 ∷ w;
}

abbrev general : General
general = record {
  r0 = 1;
  r1 = 2;
  r2 = 3;
  r3 = 4;
  r4 = 5;
  r5 = 6;
  r6 = 7;
  r7 = 8;
  r8 = 9;
  r9 = 10;
  r10 = 11;
  r11 = 12;
}

abbrev special : Special
special = record {
  msp = 0x2045_0000;
  psp = 0x2041_0000;
  ipsr = 6;
  primask = 0;
  faultmask = 0;
  basepri = 0;
  control = 2;
}

abbrev memory : ℕ → ℕ
memory a = a

abbrev left : DeathReport
left = (fault board 0x2041_0040 memory (entered general special 0xffff_fffd false) []).0
