-- ===== src/FaultHandler/Entry.antt =====
-- `Fault_Handler` of src/FaultHandler/FaultHandler.c: its instructions and what they do. Memory is
-- given by its words at entry, the registers of devices included; what the handler has stored is a
-- list, the latest first. The jump to the C part of the handler ends the run.
pub mod Stores
pub mod Saved
mod Tests
use taste_samv71_rtems_runti.Common.{
  ℕ, zero, suc, ◌+◌, ◌*◌, Bool, true, false, List, [], ◌∷◌, ◌++◌, if◌then◌else◌, ◌==◌, bit_and, u32,
}

-- The general registers that the handler names
pub data Reg : Type 0 where
  r0 r1 r2 r3 r4 r5 r6 r7 r8 r9 r10 r11 : Reg

pub data SpecialReg : Type 0 where
  msp psp ipsr primask faultmask basepri control : SpecialReg

pub data Instruction : Type 0 where
  cpsid_i : Instruction
  tst_lr : ℕ → Instruction
  mrs mrseq mrsne : Reg → SpecialReg → Instruction
  -- a constant of the literal pool
  ldr_literal : Reg → ℕ → Instruction
  and_imm : Reg → Reg → ℕ → Instruction
  -- `ldr rt, [rn, #offset]`, `ldr rt, [rn], #step` and `str rt, [rn, #offset]`
  ldr ldr_post str : Reg → Reg → ℕ → Instruction

pub record General : Type 0 where
  pub r0 : ℕ
  pub r1 : ℕ
  pub r2 : ℕ
  pub r3 : ℕ
  pub r4 : ℕ
  pub r5 : ℕ
  pub r6 : ℕ
  pub r7 : ℕ
  pub r8 : ℕ
  pub r9 : ℕ
  pub r10 : ℕ
  pub r11 : ℕ

pub record Special : Type 0 where
  pub msp : ℕ
  pub psp : ℕ
  pub ipsr : ℕ
  pub primask : ℕ
  pub faultmask : ℕ
  pub basepri : ℕ
  pub control : ℕ

-- The processor; `equal` is the flag Z.
pub record Core : Type 0 where
  pub general : General
  pub special : Special
  pub lr : ℕ
  pub equal : Bool
  pub stores : List (ℕ × ℕ)

unfoldable pub get : Reg → General → ℕ
get r0 g = g.r0
get r1 g = g.r1
get r2 g = g.r2
get r3 g = g.r3
get r4 g = g.r4
get r5 g = g.r5
get r6 g = g.r6
get r7 g = g.r7
get r8 g = g.r8
get r9 g = g.r9
get r10 g = g.r10
get r11 g = g.r11

unfoldable pub set : Reg → ℕ → General → General
set r0 v g = record g { r0 = v }
set r1 v g = record g { r1 = v }
set r2 v g = record g { r2 = v }
set r3 v g = record g { r3 = v }
set r4 v g = record g { r4 = v }
set r5 v g = record g { r5 = v }
set r6 v g = record g { r6 = v }
set r7 v g = record g { r7 = v }
set r8 v g = record g { r8 = v }
set r9 v g = record g { r9 = v }
set r10 v g = record g { r10 = v }
set r11 v g = record g { r11 = v }

unfoldable pub get_special : SpecialReg → Special → ℕ
get_special msp s = s.msp
get_special psp s = s.psp
get_special ipsr s = s.ipsr
get_special primask s = s.primask
get_special faultmask s = s.faultmask
get_special basepri s = s.basepri
get_special control s = s.control

-- The word at an address: the latest store to it, or the word at entry
unfoldable pub word_at : (ℕ → ℕ) → List (ℕ × ℕ) → ℕ → ℕ
word_at memory [] a = memory a
word_at memory ((at, v) ∷ ws) a = if a == at then v else word_at memory ws a

-- The words from an address on
abbrev pub words_from : ℕ → ℕ → (ℕ → ℕ) → List ℕ
words_from zero a memory = []
words_from (suc count) a memory = memory a ∷ words_from count (a + 4) memory

-- `DEATH_REPORT_BEGIN` of linker_script/linkcmds.intsram, and the watchdog's control register
abbrev pub death_report_begin : ℕ
death_report_begin = 0x2045_fac8

abbrev pub wdt_cr : ℕ
wdt_cr = 0x4010_0250

abbrev pub wdt_rst_key : ℕ
wdt_rst_key = 0xa500_0001

abbrev pub cfsr_address : ℕ
cfsr_address = 0xe000_ed28

-- `offsetof` in the death report, which is packed: of the exception's number, of the register and of
-- the fault status register with this place in its structure, and of the stack trace pointer
abbrev pub exception_id_offset : ℕ
exception_id_offset = 4

abbrev pub register_offset : ℕ → ℕ
register_offset k = 8 + 4 * k

abbrev pub block_offset : ℕ → ℕ
block_offset k = 96 + 4 * k

abbrev pub sp_offset : ℕ
sp_offset = 112

module _ (memory : ℕ → ℕ) where
  abbrev load : Reg → ℕ → Core → Core
  load rt a c = record c { general = set rt (word_at memory c.stores a) c.general }

  abbrev move : Reg → ℕ → Core → Core
  move rt v c = record c { general = set rt v c.general }

  unfoldable pub exec : Instruction → Core → Core
  unfolding get set get_special word_at
  exec cpsid_i c = record c { special = record c.special { primask = 1 } }
  exec (tst_lr mask) c = record c { equal = bit_and c.lr mask == 0 }
  exec (mrs rd s) c = move rd (get_special s c.special) c
  exec (mrseq rd s) c = move rd (if c.equal then get_special s c.special else get rd c.general) c
  exec (mrsne rd s) c = move rd (if c.equal then get rd c.general else get_special s c.special) c
  exec (ldr_literal rt v) c = move rt v c
  exec (and_imm rd rn v) c = move rd (bit_and (get rn c.general) v) c
  exec (ldr rt rn offset) c = load rt (u32 (get rn c.general + offset)) c
  exec (ldr_post rt rn step) c = let a = get rn c.general in move rn (u32 (a + step)) (load rt a c)
  exec (str rt rn offset) c = record c {
    stores = (u32 (get rn c.general + offset), get rt c.general) ∷ c.stores;
  }

  unfoldable pub run : List Instruction → Core → Core
  unfolding exec
  run [] c = c
  run (i ∷ is) c = run is (exec i c)

-- The stack pointer of the interrupted code, in r3
unfoldable pub select : List Instruction
select = cpsid_i ∷ tst_lr 4 ∷ mrseq r3 msp ∷ mrsne r3 psp ∷ []

unfoldable pub watchdog_reset : List Instruction
watchdog_reset = ldr_literal r0 wdt_rst_key ∷ ldr_literal r1 wdt_cr ∷ str r0 r1 0 ∷ []

unfoldable pub save_exception : List Instruction
save_exception =
    ldr_literal r0 death_report_begin
    ∷ mrs r1 ipsr
    ∷ and_imm r1 r1 0x3f
    ∷ str r1 r0 exception_id_offset
    ∷ []

-- A word of the exception's frame, at an offset from r3, goes to the register with this place.
abbrev pub copies : List (ℕ × ℕ) → List Instruction
copies [] = []
copies ((offset, k) ∷ cs) = ldr r1 r3 offset ∷ str r1 r0 (register_offset k) ∷ copies cs

unfoldable pub save_high : List Instruction
save_high =
    str r4 r0 (register_offset 4)
    ∷ str r5 r0 (register_offset 5)
    ∷ str r6 r0 (register_offset 6)
    ∷ str r7 r0 (register_offset 7)
    ∷ str r8 r0 (register_offset 8)
    ∷ str r9 r0 (register_offset 9)
    ∷ str r10 r0 (register_offset 10)
    ∷ str r11 r0 (register_offset 11)
    ∷ []

unfoldable pub save_stacks : List Instruction
save_stacks =
    mrs r1 msp ∷ str r1 r0 (register_offset 13) ∷ mrs r1 psp ∷ str r1 r0 (register_offset 14) ∷ []

unfoldable pub save_masks : List Instruction
save_masks =
    mrs r1 primask
    ∷ str r1 r0 (register_offset 18)
    ∷ mrs r1 faultmask
    ∷ str r1 r0 (register_offset 19)
    ∷ mrs r1 basepri
    ∷ str r1 r0 (register_offset 20)
    ∷ mrs r1 control
    ∷ str r1 r0 (register_offset 21)
    ∷ []

unfoldable pub save_block : List Instruction
save_block =
    ldr_literal r1 cfsr_address
    ∷ ldr_post r2 r1 4
    ∷ str r2 r0 (block_offset 0)
    ∷ ldr_post r2 r1 8
    ∷ str r2 r0 (block_offset 1)
    ∷ ldr_post r2 r1 4
    ∷ str r2 r0 (block_offset 2)
    ∷ ldr r2 r1 0
    ∷ str r2 r0 (block_offset 3)
    ∷ str r3 r0 sp_offset
    ∷ []

unfoldable pub fault_handler : List Instruction
unfolding select watchdog_reset save_exception save_high save_stacks save_masks save_block
fault_handler =
    select
    ++ (watchdog_reset
        ++ (save_exception
            ++ (copies ((0, 0) ∷ (4, 1) ∷ (8, 2) ∷ (12, 3) ∷ [])
                ++ (save_high
                    ++ (copies ((16, 12) ∷ [])
                        ++ (save_stacks
                            ++ (copies ((20, 15) ∷ (24, 16) ∷ (28, 17) ∷ [])
                                ++ (save_masks ++ save_block))))))))
