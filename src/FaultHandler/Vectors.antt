-- ===== src/FaultHandler/Vectors.antt =====
-- The exception vector table of src/FaultHandler/CustomExceptionVector.c and `FaultHandler_Init` of
-- src/FaultHandler/FaultHandler.c, which puts it to use. The masks of the system control block and the
-- relocation of the table belong to the board support package and are parameters.
pub mod Faults
mod Tests
use taste_samv71_rtems_runti.Common.{ℕ, List, [], ◌∷◌, ◌++◌, Bool, true, bit_or, replicate}
use taste_samv71_rtems_runti.SamV71Core.Clock.{Target, samv71q21, samrh71f20, samrh707f18}

-- What an entry points to: `_ISR_Stack_area_end`, `_start`, `Fault_Handler`, and the functions of RTEMS
-- `_ARMV7M_Exception_default`, `_ARMV7M_Supervisor_call`, `_ARMV7M_Pendable_service_call`,
-- `_ARMV7M_Clock_handler` and `_ARMV7M_NVIC_Interrupt_dispatch`
pub data Vector : Type 0 where
  initial_stack_pointer start exception_default fault_handler supervisor_call : Vector
  pendable_service_call clock_handler interrupt_dispatch : Vector

-- The number of interrupts by target
unfoldable pub irq_count : Target → ℕ
irq_count samv71q21 = 74
irq_count samrh71f20 = 91
irq_count samrh707f18 = 80

unfoldable pub irq_handlers : Target → List Vector
unfolding irq_count
irq_handlers target = replicate (irq_count target) interrupt_dispatch

unfoldable pub exception_table : Target → List Vector
unfolding irq_handlers
exception_table target =
    initial_stack_pointer
    ∷ start
    ∷ exception_default
    ∷ fault_handler
    ∷ fault_handler
    ∷ fault_handler
    ∷ fault_handler
    ∷ exception_default
    ∷ exception_default
    ∷ exception_default
    ∷ exception_default
    ∷ supervisor_call
    ∷ exception_default
    ∷ exception_default
    ∷ pendable_service_call
    ∷ clock_handler
    ∷ irq_handlers target

pub record Scb : Type 0 where
  pub shcsr : ℕ
  pub ccr : ℕ

-- `FaultHandler_Init`: usage faults and divisions by zero are trapped.
unfoldable pub init :
    {World : Type 0}
    → ℕ
    → ℕ
    → (List Vector → World → World)
    → Target
    → Scb × World
    → Scb × World × Bool
init usgfaultena_mask div_0_trp_mask relocate_vector_table target (scb, w) = (
  record { shcsr = bit_or scb.shcsr usgfaultena_mask; ccr = bit_or scb.ccr div_0_trp_mask },
  relocate_vector_table (exception_table target) w,
  true,
)
