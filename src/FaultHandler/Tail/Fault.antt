-- ===== src/FaultHandler/Tail/Fault.antt =====
-- What a fault leaves in memory.
use taste_samv71_rtems_runti.Common.{ℕ, ◌+◌, ◌^◌, ◌≤◌, ◌⊎◌, Bool, List, get_or}
use taste_samv71_rtems_runti.FaultHandler.Report.{DeathReport, Registers, SystemControlBlock}
use taste_samv71_rtems_runti.FaultHandler.Entry.{
  General, Special, word_at, death_report_begin, wdt_cr, run, fault_handler,
}
use taste_samv71_rtems_runti.FaultHandler.Entry.Saved.{entered, stack_pointer}
use taste_samv71_rtems_runti.FaultHandler.Tail.{Board, fault}

-- The structures whose words these are, from the exception's number on
abbrev registers_of : List ℕ → Registers
registers_of ws = record {
  r0 = get_or ws 1 0;
  r1 = get_or ws 2 0;
  r2 = get_or ws 3 0;
  r3 = get_or ws 4 0;
  r4 = get_or ws 5 0;
  r5 = get_or ws 6 0;
  r6 = get_or ws 7 0;
  r7 = get_or ws 8 0;
  r8 = get_or ws 9 0;
  r9 = get_or ws 10 0;
  r10 = get_or ws 11 0;
  r11 = get_or ws 12 0;
  r12 = get_or ws 13 0;
  msp = get_or ws 14 0;
  psp = get_or ws 15 0;
  lr = get_or ws 16 0;
  pc = get_or ws 17 0;
  psr = get_or ws 18 0;
  pri_mask = get_or ws 19 0;
  fault_mask = get_or ws 20 0;
  base_pri = get_or ws 21 0;
  control = get_or ws 22 0;
}

abbrev block_of : List ℕ → SystemControlBlock
block_of ws = record {
  cfsr = get_or ws 23 0;
  hfsr = get_or ws 24 0;
  mmar = get_or ws 25 0;
  bfar = get_or ws 26 0;
}

module _ (board : Board) (w : board.World) (stack_end : ℕ) (memory : ℕ → ℕ) (general : General)
    (special : Special) (lr : ℕ) (equal : Bool) (room : stack_pointer special lr + 32 ≤ 2 ^ 32)
    (frame : (stack_pointer special lr + 32 ≤ death_report_begin)
      ⊎ (death_report_begin + 632 ≤ stack_pointer special lr))
    (no_device : (stack_pointer special lr + 32 ≤ wdt_cr)
      ⊎ (wdt_cr + 4 ≤ stack_pointer special lr)) where
  abbrev pub after : ℕ → ℕ
  after = word_at memory (run memory fault_handler (entered general special lr equal)).stores

  abbrev pub report : DeathReport
  report = (fault board stack_end memory (entered general special lr equal) w).0
