-- ===== src/FaultHandler/Entry/Saved.antt =====
-- What the death report holds when the fault handler jumps to its C part.
use taste_samv71_rtems_runti.Common.{
  ℕ, ◌+◌, ◌^◌, ◌<◌, ◌≤◌, ◌⊎◌, Bool, List, [], ◌∷◌, ◌++◌, if◌then◌else◌, ◌==◌, bit_and, u32,
}
use taste_samv71_rtems_runti.FaultHandler.Report.{Registers, SystemControlBlock}
use taste_samv71_rtems_runti.FaultHandler.Entry.{
  Instruction, General, Special, Core, death_report_begin, wdt_cr, wdt_rst_key, register_offset,
  run, watchdog_reset, save_exception, copies, save_high, save_stacks, save_masks, save_block,
}

-- The processor at the entry to the handler
abbrev pub entered : General → Special → ℕ → Bool → Core
entered general special lr equal = record {
  general = general;
  special = special;
  lr = lr;
  equal = equal;
  stores = [];
}

-- The stack pointer in use at the exception, by the return value in lr
abbrev pub stack_pointer : Special → ℕ → ℕ
stack_pointer special lr = if bit_and lr 4 == 0 then special.msp else special.psp

module _ (memory : ℕ → ℕ) where
  module _ (general : General) (special : Special) (lr : ℕ) (equal : Bool)
      (room : stack_pointer special lr + 32 ≤ 2 ^ 32)
      (frame : (stack_pointer special lr + 32 ≤ death_report_begin)
        ⊎ (death_report_begin + 632 ≤ stack_pointer special lr))
      (no_device : stack_pointer special lr + 32 ≤ wdt_cr
        ⊎ wdt_cr + 4 ≤ stack_pointer special lr) where
    abbrev c : Core
    c = entered general special lr equal

    abbrev pub sp : ℕ
    sp = stack_pointer special lr

    -- The processor between two parts of the handler
    abbrev saving : ℕ → ℕ → List (ℕ × ℕ) → Core
    saving x y ws = record c {
      general = record c.general { r0 = death_report_begin; r1 = x; r2 = y; r3 = sp };
      special = record c.special { primask = 1 };
      equal = bit_and lr 4 == 0;
      stores = ws;
    }

    -- Offsets in the frame and places in the report
    abbrev InBounds : List (ℕ × ℕ) → Type 0
    InBounds [] = Unit {0}
    InBounds ((offset, k) ∷ cs) = (offset + 4 ≤ 32) × (k < 22) × InBounds cs

    copied : List (ℕ × ℕ) → List (ℕ × ℕ) → List (ℕ × ℕ)
    copied [] ws = ws
    copied ((offset, k) ∷ cs) ws =
        copied cs ((u32 (death_report_begin + register_offset k), memory (sp + offset)) ∷ ws)

    last_copied : List (ℕ × ℕ) → ℕ → ℕ
    last_copied [] x = x
    last_copied ((offset, k) ∷ cs) x = last_copied cs (memory (sp + offset))

    -- The program from each of its copies on
    abbrev from_masks : List Instruction
    from_masks = save_masks ++ save_block

    abbrev from_stacks : List Instruction
    from_stacks = save_stacks ++ (copies ((20, 15) ∷ (24, 16) ∷ (28, 17) ∷ []) ++ from_masks)

    abbrev from_high : List Instruction
    from_high = save_high ++ (copies ((16, 12) ∷ []) ++ from_stacks)

    abbrev from_watchdog : List Instruction
    from_watchdog =
        watchdog_reset
        ++ (save_exception ++ (copies ((0, 0) ∷ (4, 1) ∷ (8, 2) ∷ (12, 3) ∷ []) ++ from_high))

    -- The stores before and behind each group of copies
    abbrev stores_0 : List (ℕ × ℕ)
    stores_0 = (0x2045_facc, bit_and special.ipsr 0x3f) ∷ (wdt_cr, wdt_rst_key) ∷ []

    abbrev stores_1 : List (ℕ × ℕ)
    stores_1 = copied ((0, 0) ∷ (4, 1) ∷ (8, 2) ∷ (12, 3) ∷ []) stores_0

    abbrev stores_2 : List (ℕ × ℕ)
    stores_2 = (run memory save_high (saving 0 0 stores_1)).stores

    abbrev stores_3 : List (ℕ × ℕ)
    stores_3 = (run memory save_stacks (saving 0 0 (copied ((16, 12) ∷ []) stores_2))).stores

    abbrev stores_4 : List (ℕ × ℕ)
    stores_4 = copied ((20, 15) ∷ (24, 16) ∷ (28, 17) ∷ []) stores_3

    -- The registers of the interrupted code: those of the frame, those that the handler has not changed
    -- yet, and the special ones, of which PRIMASK is already set
    abbrev pub interrupted : Registers
    interrupted = record {
      r0 = memory sp;
      r1 = memory (sp + 4);
      r2 = memory (sp + 8);
      r3 = memory (sp + 12);
      r4 = general.r4;
      r5 = general.r5;
      r6 = general.r6;
      r7 = general.r7;
      r8 = general.r8;
      r9 = general.r9;
      r10 = general.r10;
      r11 = general.r11;
      r12 = memory (sp + 16);
      msp = special.msp;
      psp = special.psp;
      lr = memory (sp + 20);
      pc = memory (sp + 24);
      psr = memory (sp + 28);
      pri_mask = 1;
      fault_mask = special.faultmask;
      base_pri = special.basepri;
      control = special.control;
    }

    -- The fault status and address registers at their documented addresses
    abbrev pub fault_status : SystemControlBlock
    fault_status = record {
      cfsr = memory 0xe000_ed28;
      hfsr = memory 0xe000_ed2c;
      mmar = memory 0xe000_ed34;
      bfar = memory 0xe000_ed38;
    }
