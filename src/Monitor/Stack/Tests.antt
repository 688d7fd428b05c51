-- ===== src/Monitor/Stack/Tests.antt =====
-- A stack of 32 bytes at 0x1000, of which the upper 20 have been used.
use taste_samv71_rtems_runti.Common.{ℕ, ◌≡◌, refl, true, [], ◌∷◌, if◌then◌else◌, ltb, arith}
use taste_samv71_rtems_runti.Common.Integers.{pos}
use taste_samv71_rtems_runti.Monitor.Stack.{
  stack_byte_pattern, Thread, visit, Tasks, get_maximum_stack_usage,
}
use taste_samv71_rtems_runti.Monitor.Stack.Usage.{get_maximum_stack_usage_lem}

abbrev memory : ℕ → ℕ
memory address = if ltb address 0x100c then stack_byte_pattern else 7

abbrev other : Thread
other = record { id = 1; area = 0x2000; size = 64 }

abbrev thread : Thread
thread = record { id = 9; area = 0x1000; size = 32 }

abbrev tasks : Tasks
tasks = record {
  threads = other ∷ thread ∷ [];
  iterate = λ visitor a. visit visitor (other ∷ thread ∷ []) a;
  iterate-visit = λ visitor a. refl;
}

get_maximum_stack_usage_lem_example :
    get_maximum_stack_usage memory tasks true (4 ∷ 9 ∷ []) 1 ≡ pos 20
get_maximum_stack_usage_lem_example =
    get_maximum_stack_usage_lem memory (4 ∷ 9 ∷ []) tasks 1 (other ∷ []) [] thread refl
      (λ e. omega (arith, e), tt) refl (omega arith) (omega arith) (omega arith) 3 (omega arith)
      (λ j p. ground arith) (λ e. omega (arith, e))
