-- ===== src/FaultHandler/Vectors/Tests.antt =====
-- The usage fault of the SAMV71Q21, and its DMA interrupt.
use taste_samv71_rtems_runti.Common.{
  ◌+◌, ◌≤◌, ◌<◌, ◌≡◌, ◌≢◌, ◌⊎◌, refl, some, arith, get_elem?, bit_and,
}
use taste_samv71_rtems_runti.SamV71Core.Clock.{samv71q21}
use taste_samv71_rtems_runti.FaultHandler.Vectors.{
  Vector, fault_handler, interrupt_dispatch, irq_count, exception_table,
}
use taste_samv71_rtems_runti.FaultHandler.Vectors.Faults.{exception_table_lem}

exception_table_lem_test :
    ((3 ≤ 6)
      × (6 ≤ 6)
      × (get_elem? (exception_table samv71q21) 6 ≡ some fault_handler)
      × (bit_and 6 0x3f ≡ 6))
    ⊎ (((6 < 16)
          × (v : Vector) × (get_elem? (exception_table samv71q21) 6 ≡ some v)
          × (v ≢ fault_handler))
        ⊎ ((16 ≤ 6) × (get_elem? (exception_table samv71q21) 6 ≡ some interrupt_dispatch)))
unfolding irq_count
exception_table_lem_test = exception_table_lem samv71q21 6 (omega arith)

dma_interrupt : get_elem? (exception_table samv71q21) (16 + 58) ≡ some interrupt_dispatch
unfolding exception_table
dma_interrupt = refl
