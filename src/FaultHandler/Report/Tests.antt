-- ===== src/FaultHandler/Report/Tests.antt =====
-- A death report of a task whose stack pointer is eight below the value of the symbol.
use taste_samv71_rtems_runti.Common.{
  ℕ, ◌+◌, ◌-◌, ◌*◌, ◌≤◌, ◌<◌, ◌≡◌, ◌≢◌, ◌⊎◌, inl, refl, true, false, List, [], ◌∷◌, ◌++◌, arith,
  length, get_or, u32, replicate,
}
use taste_samv71_rtems_runti.FaultHandler.Crc.{calculate_crc}
use taste_samv71_rtems_runti.FaultHandler.Report.{
  Registers, SystemControlBlock, DeathReport, report_bytes, body_bytes, words_bytes, register_words,
  block_words, death_report_size, calculate_report_crc, stored, copy_words, saved_length,
  save_stack, generate_death_report,
}
use taste_samv71_rtems_runti.FaultHandler.Report.Stack.{save_stack_lem, save_stack-past_end}
use taste_samv71_rtems_runti.FaultHandler.Report.Sealed.{
  generate_death_report_lem, generate_death_report_detects,
}

abbrev registers : Registers
registers = record {
  r0 = 0;
  r1 = 1;
  r2 = 2;
  r3 = 3;
  r4 = 4;
  r5 = 5;
  r6 = 6;
  r7 = 7;
  r8 = 8;
  r9 = 9;
  r10 = 10;
  r11 = 11;
  r12 = 12;
  msp = 0x2040_1000;
  psp = 0x2040_0ff8;
  lr = 0x40_0100;
  pc = 0x40_0200;
  psr = 0x100_0000;
  pri_mask = 0;
  fault_mask = 0;
  base_pri = 0;
  control = 2;
}

abbrev block : SystemControlBlock
block = record { cfsr = 0x200_0000; hfsr = 0; mmar = 0; bfar = 0 }

abbrev saved : DeathReport
saved = record {
  checksum = 0;
  was_seen = true;
  padding = 0xa5;
  exception_id = 6;
  registers = registers;
  system_control_block = block;
  stack_trace_pointer = 0x2040_0ff8;
  stack_trace_length = 0;
  stack_trace = replicate 128 0;
}

abbrev start : ℕ
start = 0x2045_fac8

-- the value of the symbol
abbrev stack_end : ℕ
stack_end = 0x2040_1000

-- every word of memory holds its own address
abbrev memory : ℕ → ℕ
memory address = address

saved_length_example : saved_length stack_end 0x2040_0ff8 ≡ 8
unfolding saved_length
saved_length_example = refl

save_stack_lem_test :
    let r = save_stack start stack_end memory saved in
    (r.stack_trace_length ≤ 128)
    × (length r.stack_trace ≡ 128)
    × (((5 < r.stack_trace_length)
          × (get_or r.stack_trace 5 0 ≡ memory (u32 (saved.stack_trace_pointer + 4 * 5))))
        ⊎ ((r.stack_trace_length ≤ 5) × (get_or r.stack_trace 5 0 ≡ get_or saved.stack_trace 5 0)))
save_stack_lem_test = save_stack_lem start stack_end memory saved 5 refl (inl (omega arith))

save_stack-past_end_test :
    let r = save_stack start stack_end memory saved in
    (r.stack_trace_length ≡ stack_end - saved.stack_trace_pointer)
    × (stack_end ≤ saved.stack_trace_pointer + 4 * (r.stack_trace_length - 1))
save_stack-past_end_test =
    save_stack-past_end start stack_end memory saved (omega arith) (omega arith) (omega arith)

generate_death_report_lem_example :
    let (g, done) = generate_death_report start stack_end memory saved in
    (done ≡ true)
    × (g.was_seen ≡ false)
    × (g.padding ≡ 0)
    × (g.registers ≡ saved.registers)
    × (g.system_control_block ≡ saved.system_control_block)
    × (g.exception_id ≡ saved.exception_id)
    × (g.stack_trace_pointer ≡ saved.stack_trace_pointer)
    × (length (report_bytes g) ≡ death_report_size)
    × (g.checksum ≡ calculate_report_crc (report_bytes g) death_report_size)
generate_death_report_lem_example = generate_death_report_lem start stack_end memory saved refl

-- the words that `save_stack` copies, and the untouched ones
abbrev trace : List ℕ
trace =
    0x2040_0ff8
    ∷ 0x2040_0ffc
    ∷ 0x2040_1000
    ∷ 0x2040_1004
    ∷ 0x2040_1008
    ∷ 0x2040_100c
    ∷ 0x2040_1010
    ∷ 0x2040_1014
    ∷ replicate 120 0

-- the bytes behind the mark of the unseen report
abbrev rest : List ℕ
rest =
    0
    ∷ words_bytes
        (6 ∷ (register_words registers ++ (block_words block ++ (0x2040_0ff8 ∷ 8 ∷ trace))))

generate_death_report_detects_example :
    calculate_crc ([] ++ (1 ∷ rest))
    ≢ (generate_death_report start stack_end memory saved).0.checksum
unfolding body_bytes generate_death_report save_stack saved_length copy_words stored
generate_death_report_detects_example =
    generate_death_report_detects start stack_end memory saved refl [] 0 1 rest refl (omega arith)
      (omega arith) (omega arith) (omega arith)
