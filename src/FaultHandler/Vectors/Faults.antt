-- ===== src/FaultHandler/Vectors/Faults.antt =====
-- Which exceptions the fault handler takes.
use taste_samv71_rtems_runti.Common.{
  ℕ, zero, suc, ◌+◌, ◌≤◌, ◌<◌, ◌≡◌, ◌≢◌, ◌⊎◌, inl, inr, refl, some, arith, get_elem?, replicate,
  bit_and,
}
use taste_samv71_rtems_runti.SamV71Core.Clock.{Target}
use taste_samv71_rtems_runti.FaultHandler.Vectors.{
  Vector, initial_stack_pointer, start, exception_default, supervisor_call, pendable_service_call,
  clock_handler, fault_handler, interrupt_dispatch, irq_count, exception_table,
}

get_elem?-replicate : {A : Type 0} (n i : ℕ) (a : A) → i < n → get_elem? (replicate n a) i ≡ some a
get_elem?-replicate zero i a h = absurd (omega arith)
get_elem?-replicate (suc n) zero a h = refl
get_elem?-replicate (suc n) (suc i) a h = get_elem?-replicate n i a (omega arith)

-- On every target the fault handler takes the exceptions 3 to 6 and no other: hard faults and faults of
-- memory management, bus and usage. Their numbers fit in the six bits that the handler saves, and every
-- interrupt of the target goes to the dispatcher of RTEMS.
pub exception_table_lem :
    (target : Target) (n : ℕ)
    → n < 16 + irq_count target
    → ((3 ≤ n)
        × (n ≤ 6)
        × (get_elem? (exception_table target) n ≡ some fault_handler)
        × (bit_and n 0x3f ≡ n))
      ⊎ (((n < 16)
            × (v : Vector) × (get_elem? (exception_table target) n ≡ some v)
            × (v ≢ fault_handler))
          ⊎ ((16 ≤ n) × (get_elem? (exception_table target) n ≡ some interrupt_dispatch)))
unfolding exception_table
exception_table_lem target zero h = inr (inl (omega arith, initial_stack_pointer, refl, λ e. cc))
exception_table_lem target (suc zero) h = inr (inl (omega arith, start, refl, λ e. cc))
exception_table_lem target (suc (suc zero)) h =
    inr (inl (omega arith, exception_default, refl, λ e. cc))
exception_table_lem target (suc (suc (suc zero))) h = inl (omega arith, omega arith, refl, refl)
exception_table_lem target (suc (suc (suc (suc zero)))) h =
    inl (omega arith, omega arith, refl, refl)
exception_table_lem target (suc (suc (suc (suc (suc zero))))) h =
    inl (omega arith, omega arith, refl, refl)
exception_table_lem target (suc (suc (suc (suc (suc (suc zero)))))) h =
    inl (omega arith, omega arith, refl, refl)
exception_table_lem target (suc (suc (suc (suc (suc (suc (suc zero))))))) h =
    inr (inl (omega arith, exception_default, refl, λ e. cc))
exception_table_lem target (suc (suc (suc (suc (suc (suc (suc (suc zero)))))))) h =
    inr (inl (omega arith, exception_default, refl, λ e. cc))
exception_table_lem target (suc (suc (suc (suc (suc (suc (suc (suc (suc zero))))))))) h =
    inr (inl (omega arith, exception_default, refl, λ e. cc))
exception_table_lem target (suc (suc (suc (suc (suc (suc (suc (suc (suc (suc zero)))))))))) h =
    inr (inl (omega arith, exception_default, refl, λ e. cc))
exception_table_lem target (suc (suc (suc (suc (suc (suc (suc (suc (suc (suc (suc zero)))))))))))
      h =
    inr (inl (omega arith, supervisor_call, refl, λ e. cc))
exception_table_lem target
      (suc (suc (suc (suc (suc (suc (suc (suc (suc (suc (suc (suc zero)))))))))))) h =
    inr (inl (omega arith, exception_default, refl, λ e. cc))
exception_table_lem target
      (suc (suc (suc (suc (suc (suc (suc (suc (suc (suc (suc (suc (suc zero))))))))))))) h =
    inr (inl (omega arith, exception_default, refl, λ e. cc))
exception_table_lem target
      (suc (suc (suc (suc (suc (suc (suc (suc (suc (suc (suc (suc (suc (suc zero)))))))))))))) h =
    inr (inl (omega arith, pendable_service_call, refl, λ e. cc))
exception_table_lem target
      (suc (suc (suc (suc (suc (suc (suc (suc (suc (suc (suc (suc (suc (suc (suc zero)))))))))))))))
      h =
    inr (inl (omega arith, clock_handler, refl, λ e. cc))
exception_table_lem target
      (suc
        (suc (suc (suc (suc (suc (suc (suc (suc (suc (suc (suc (suc (suc (suc (suc n))))))))))))))))
      h =
    inr
      (inr (omega arith, get_elem?-replicate (irq_count target) n interrupt_dispatch (omega arith)))
