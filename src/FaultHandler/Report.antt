-- ===== src/FaultHandler/Report.antt =====
-- The death report: its layout in src/FaultHandler/DeathReport.h, and how
-- src/FaultHandler/DeathReportWriter.c fills it. The words of memory are a parameter, as are the address
-- of the report and the value of `bsp_section_rtemsstack_end`, which the code declares as a `uint32_t`:
-- the word that stands at the symbol of the linker script, not its address.
pub mod Stack
pub mod Sealed
mod Tests
use taste_samv71_rtems_runti.Common.{
  ℕ, zero, suc, ◌+◌, ◌-◌, ◌*◌, ◌/◌, ◌%◌, Bool, true, false, List, [], ◌∷◌, ◌++◌, if◌then◌else◌, ltb,
  ◌==◌, modify, take, drop, sub_u32, u32,
}
use taste_samv71_rtems_runti.FaultHandler.Crc.{calculate_crc}

abbrev pub death_report_stack_trace_size : ℕ
death_report_stack_trace_size = 128

pub record Registers : Type 0 where
  pub r0 : ℕ
  pub r1 : ℕ
  pub r2 : ℕ
  pub r3 : ℕ
  pub r4 : ℕ
  pub r5 : ℕ
  pub r6 : ℕ
  pub r7 : ℕ
  pub r8 : ℕ
  pub r9 : ℕ
  pub r10 : ℕ
  pub r11 : ℕ
  pub r12 : ℕ
  pub msp : ℕ
  pub psp : ℕ
  pub lr : ℕ
  pub pc : ℕ
  pub psr : ℕ
  pub pri_mask : ℕ
  pub fault_mask : ℕ
  pub base_pri : ℕ
  pub control : ℕ

pub record SystemControlBlock : Type 0 where
  pub cfsr : ℕ
  pub hfsr : ℕ
  pub mmar : ℕ
  pub bfar : ℕ

-- `DeathReportWriter_DeathReport`
pub record DeathReport : Type 0 where
  pub checksum : ℕ
  pub was_seen : Bool
  pub padding : ℕ
  pub exception_id : ℕ
  pub registers : Registers
  pub system_control_block : SystemControlBlock
  pub stack_trace_pointer : ℕ
  pub stack_trace_length : ℕ
  pub stack_trace : List ℕ

-- The packed, little-endian layout.
abbrev pub u16_bytes : ℕ → List ℕ
u16_bytes n = n % 256 ∷ n / 256 % 256 ∷ []

abbrev pub u32_bytes : ℕ → List ℕ
u32_bytes n = n % 256 ∷ n / 256 % 256 ∷ n / 65536 % 256 ∷ n / 16777216 % 256 ∷ []

abbrev pub words_bytes : List ℕ → List ℕ
words_bytes [] = []
words_bytes (w ∷ ws) = u32_bytes w ++ words_bytes ws

abbrev pub register_words : Registers → List ℕ
register_words r =
    r.r0 ∷ r.r1 ∷ r.r2 ∷ r.r3 ∷ r.r4 ∷ r.r5 ∷ r.r6 ∷ r.r7 ∷ r.r8 ∷ r.r9 ∷ r.r10 ∷ r.r11 ∷ r.r12
    ∷ r.msp ∷ r.psp ∷ r.lr ∷ r.pc ∷ r.psr ∷ r.pri_mask ∷ r.fault_mask ∷ r.base_pri ∷ r.control ∷ []

abbrev pub block_words : SystemControlBlock → List ℕ
block_words b = b.cfsr ∷ b.hfsr ∷ b.mmar ∷ b.bfar ∷ []

-- What stands behind the checksum.
unfoldable pub body_bytes : DeathReport → List ℕ
body_bytes r =
    (if r.was_seen then 1 else 0)
    ∷ r.padding % 256
    ∷ words_bytes (
        r.exception_id
        ∷ (register_words r.registers
            ++ (block_words r.system_control_block
                ++ (r.stack_trace_pointer ∷ r.stack_trace_length ∷ r.stack_trace))))

unfoldable pub report_bytes : DeathReport → List ℕ
unfolding body_bytes
report_bytes r = u16_bytes r.checksum ++ body_bytes r

-- `sizeof(DeathReportWriter_DeathReport)`
abbrev pub death_report_size : ℕ
death_report_size = 632

unfoldable pub calculate_report_crc : List ℕ → ℕ → ℕ
calculate_report_crc report total_size = calculate_crc (take (total_size - 2) (drop 2 report))

-- A word stored in memory
unfoldable pub stored : ℕ → ℕ → (ℕ → ℕ) → ℕ → ℕ
stored a v memory b = if b == a then v else memory b

-- The loop of `save_stack` at index `i`, with `left` rounds to go, for a report at `start`. The trace lies
-- in the same memory as the stack, so each round reads what the earlier ones have stored.
unfoldable pub copy_words : ℕ → (ℕ → ℕ) → ℕ → ℕ → ℕ → List ℕ → List ℕ
unfolding stored
copy_words start memory pointer zero i trace = trace
copy_words start memory pointer (suc left) i trace =
    let word = memory (u32 (pointer + 4 * i)) in
    copy_words start (stored (start + (120 + 4 * i)) word memory) pointer left (i + 1)
      (modify trace i (λ _. word))

-- The length that `save_stack` records, by the value of the symbol and the saved stack pointer
unfoldable pub saved_length : ℕ → ℕ → ℕ
saved_length stack_end pointer =
    if ltb (sub_u32 stack_end pointer) death_report_stack_trace_size
    then sub_u32 stack_end pointer
    else death_report_stack_trace_size

module _ (start stack_end : ℕ) (memory : ℕ → ℕ) where
  unfoldable pub save_stack : DeathReport → DeathReport
  unfolding saved_length copy_words stored
  save_stack r =
      let length = saved_length stack_end r.stack_trace_pointer in
      record r {
        stack_trace_length = length;
        stack_trace =
            copy_words start (stored (start + 116) length memory) r.stack_trace_pointer length 0
              r.stack_trace;
      }

  -- `DeathReportWriter_GenerateDeathReport`, on the report at `DEATH_REPORT_BEGIN`
  unfoldable pub generate_death_report : DeathReport → DeathReport × Bool
  generate_death_report report =
      let saved = save_stack report in
      let padded = record saved { padding = 0 } in
      let unseen = record padded { was_seen = false } in
      (
        record unseen { checksum = calculate_report_crc (report_bytes unseen) death_report_size },
        true,
      )
