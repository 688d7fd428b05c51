-- ===== src/Monitor/Stack.antt =====
-- `Monitor_GetMaximumStackUsage` of src/Monitor/Monitor.c, for a stack that grows down
-- (`CPU_STACK_GROWS_UP` is not TRUE). The words of memory and RTEMS's iteration over the threads are
-- parameters; an address 0 is NULL.
pub mod Usage
mod Tests
use taste_samv71_rtems_runti.Common.{
  ℕ, zero, suc, ◌+◌, ◌/◌, ◌≡◌, Bool, true, false, List, [], ◌∷◌, if◌then◌else◌, not, ltb, ◌==◌,
  get_or, u32, sub_u32,
}
use taste_samv71_rtems_runti.Common.Integers.{ℤ, minus_one, to_int32}

abbrev pub stack_byte_pattern : ℕ
stack_byte_pattern = 0xa5a5a5a5

-- Of `Thread_Control`: the identifier, and the area and the size of the initial stack
pub record Thread : Type 0 where
  pub id : ℕ
  pub area : ℕ
  pub size : ℕ

-- `struct Monitor_MaximumStackUsageData`
pub record MaximumStackUsageData : Type 0 where
  pub interface : ℕ
  pub maximum_stack_usage : ℕ
  pub is_found : Bool

-- A visitor is called for one thread after the other until it returns true.
unfoldable pub visit : {A : Type 0} → (Thread → A → A × Bool) → List Thread → A → A
visit visitor [] a = a
visit visitor (t ∷ ts) a =
    let rest = visit visitor ts (visitor t a).0 in if (visitor t a).1 then (visitor t a).0 else rest

-- `rtems_task_iterate`, and what is documented of it
pub record Tasks : Type 1 where
  pub threads : List Thread
  pub iterate : {A : Type 0} → (Thread → A → A × Bool) → A → A
  pub iterate-visit :
      {A : Type 0} (visitor : Thread → A → A × Bool) (a : A)
      → iterate visitor a ≡ visit visitor threads a

module _ (memory : ℕ → ℕ) where
  -- The loop of `find_high_water_mark` for at most the given number of rounds; below the end of the
  -- address space the pointer does not wrap.
  unfoldable pub search_from : ℕ → ℕ → ℕ → ℕ
  search_from zero pointer limit = 0
  search_from (suc rounds) pointer limit =
      let rest = search_from rounds (pointer + 4) limit in
      if ltb pointer limit
      then if memory pointer == stack_byte_pattern then rest else pointer
      else 0

  -- One round per word, and one to see the end.
  unfoldable pub find_high_water_mark : ℕ → ℕ → ℕ
  find_high_water_mark stack_start stack_size =
      search_from (stack_size / 4 + 2) stack_start (stack_start + stack_size)

  unfoldable pub calculate_used_stack : ℕ → ℕ → ℕ → ℕ
  calculate_used_stack stack_start stack_size high_water_mark =
      sub_u32 (stack_start + stack_size) high_water_mark

  -- `ids` is `threads_info[...].id`.
  unfoldable pub thread_stack_usage_visitor :
      List ℕ → Thread → MaximumStackUsageData → MaximumStackUsageData × Bool
  thread_stack_usage_visitor ids t usage =
      let mark = find_high_water_mark t.area t.size in
      if get_or ids usage.interface 0 == t.id
      then if t.area == 0 then (usage, true) else (
        record usage {
          maximum_stack_usage =
              if mark == 0
              then usage.maximum_stack_usage
              else calculate_used_stack t.area t.size mark;
          is_found = true;
        },
        true,
      )
      else (usage, false)

  unfoldable pub get_maximum_stack_usage : Tasks → Bool → List ℕ → ℕ → ℤ
  get_maximum_stack_usage tasks rt_measure_stack ids interface =
      let start : MaximumStackUsageData = record {
        interface = interface;
        maximum_stack_usage = 0;
        is_found = false;
      } in
      let usage : MaximumStackUsageData = tasks.iterate (thread_stack_usage_visitor ids) start in
      if rt_measure_stack
      then if usage.is_found then to_int32 usage.maximum_stack_usage else minus_one
      else minus_one
