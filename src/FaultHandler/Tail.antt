-- ===== src/FaultHandler/Tail.antt =====
-- `Fault_HandlerTail` of src/FaultHandler/FaultHandler.c, and a fault from the first instruction of the
-- handler to the reset. The drivers of the caches and of the reset controller are an interface; the
-- reset does not return, so the endless loop behind it is not reached.
pub mod Fault
mod Tests
use taste_samv71_rtems_runti.Common.{
  ℕ, zero, suc, ◌+◌, ◌*◌, ◌/◌, ◌%◌, Bool, true, false, not, ◌==◌, List, [], ◌∷◌, if◌then◌else◌,
}
use taste_samv71_rtems_runti.FaultHandler.Report.{
  Registers, SystemControlBlock, DeathReport, death_report_stack_trace_size, generate_death_report,
}
use taste_samv71_rtems_runti.FaultHandler.Entry.{
  General, Special, Core, word_at, words_from, death_report_begin, register_offset, block_offset,
  exception_id_offset, sp_offset, run, fault_handler,
}

pub record Board : Type 1 where
  pub World : Type 0
  pub clean_dcache : World → World
  pub invalidate_dcache : World → World
  pub reset_system : World → World

module _ (memory : ℕ → ℕ) where
  abbrev field : ℕ → ℕ
  field offset = memory (death_report_begin + offset)

  -- The structure at `DEATH_REPORT_BEGIN`, from the words of memory
  unfoldable pub report_at : DeathReport
  report_at = record {
    checksum = field 0 % 65536;
    was_seen = not (field 0 / 65536 % 256 == 0);
    padding = field 0 / 16777216 % 256;
    exception_id = field exception_id_offset;
    registers = record {
      r0 = field (register_offset 0);
      r1 = field (register_offset 1);
      r2 = field (register_offset 2);
      r3 = field (register_offset 3);
      r4 = field (register_offset 4);
      r5 = field (register_offset 5);
      r6 = field (register_offset 6);
      r7 = field (register_offset 7);
      r8 = field (register_offset 8);
      r9 = field (register_offset 9);
      r10 = field (register_offset 10);
      r11 = field (register_offset 11);
      r12 = field (register_offset 12);
      msp = field (register_offset 13);
      psp = field (register_offset 14);
      lr = field (register_offset 15);
      pc = field (register_offset 16);
      psr = field (register_offset 17);
      pri_mask = field (register_offset 18);
      fault_mask = field (register_offset 19);
      base_pri = field (register_offset 20);
      control = field (register_offset 21);
    };
    system_control_block = record {
      cfsr = field (block_offset 0);
      hfsr = field (block_offset 1);
      mmar = field (block_offset 2);
      bfar = field (block_offset 3);
    };
    stack_trace_pointer = field sp_offset;
    stack_trace_length = field 116;
    stack_trace = words_from death_report_stack_trace_size (death_report_begin + 120) memory;
  }

module _ (board : Board) (stack_end : ℕ) where
  -- The report that is left in memory, and the system at the reset
  unfoldable pub fault_handler_tail : (ℕ → ℕ) → board.World → DeathReport × board.World
  unfolding report_at
  fault_handler_tail memory w = (
    (generate_death_report death_report_begin stack_end memory (report_at memory)).0,
    board.reset_system (board.invalidate_dcache (board.clean_dcache w)),
  )

  -- The jump from `Fault_Handler` to its C part
  unfoldable pub fault : (ℕ → ℕ) → Core → board.World → DeathReport × board.World
  unfolding fault_handler_tail
  fault memory c w = fault_handler_tail (word_at memory (run memory fault_handler c).stores) w
