-- ===== src/Monitor/Log.antt =====
-- The interface activation log of src/Monitor/Monitor.c: a cyclic buffer in linker-provided
-- memory. `RT_EXEC_LOG_ACTIVE` and the buffer's size, which the linker script gives, are
-- parameters; so is the time stamp that `Hal_GetElapsedTimeInNs` returns.
pub mod Slots
pub mod Refine
pub mod Query
pub mod Preempted
mod Tests
use taste_samv71_rtems_runti.Common.{
  ℕ, ◌+◌, ◌-◌, ◌/◌, ◌%◌, Bool, true, false, List, [], ◌∷◌, Option, none, some, ltb, ◌==◌,
  if◌then◌else◌, modify, u32, u64, sub_u32, sub_u64,
}

-- `enum Monitor_EntryType`
pub data EntryType : Type 0 where
  activation deactivation : EntryType

-- `struct Monitor_InterfaceActivationEntry`
pub record Entry : Type 0 where
  pub interface : ℕ
  pub entry_type : EntryType
  pub timestamp : ℕ

-- `RT_EXEC_LOG_BUFFER_SIZE`, from the addresses of the linker's two symbols and the entry's size
unfoldable pub buffer_size : ℕ → ℕ → ℕ → ℕ
buffer_size log_buffer_start log_buffer_end entry_size =
    sub_u32 log_buffer_end log_buffer_start / entry_size

-- The static variables of the log.
pub record Log : Type 0 where
  pub is_frozen : Bool
  pub activation_entry_counter : ℕ
  pub activation_log_buffer : List Entry

-- As the program starts; the buffer holds whatever is in memory.
unfoldable pub initial : List Entry → Log
initial memory = record {
  is_frozen = true;
  activation_entry_counter = 0;
  activation_log_buffer = memory;
}

-- What a query writes through its three pointers.
pub record Report : Type 0 where
  pub activation_log : List Entry
  pub latest_activation_entry_index : ℕ
  pub size_of_activation_log : ℕ

module _ (size : ℕ) where
  -- The three stores of `handle_activation_log_cyclic_buffer`, one field after the other.
  unfoldable pub store : ℕ → EntryType → ℕ → Log → Log
  store interface kind now log =
      let slot = log.activation_entry_counter % size in
      let b₁ = modify log.activation_log_buffer slot (λ e. record e { interface = interface }) in
      let b₂ = modify b₁ slot (λ e. record e { entry_type = kind }) in
      let b₃ = modify b₂ slot (λ e. record e { timestamp = now }) in
      record log {
        activation_entry_counter = u64 (log.activation_entry_counter + 1);
        activation_log_buffer = b₃;
      }

module _ (rt_exec_log_active : Bool) (size : ℕ) where
  unfoldable pub handle_activation_log_cyclic_buffer : ℕ → EntryType → ℕ → Log → Log × Bool
  handle_activation_log_cyclic_buffer interface kind now log =
      if rt_exec_log_active
      then if log.is_frozen then (log, false) else (store size interface kind now log, true)
      else (log, false)

  unfoldable pub indicate_interface_activated : ℕ → ℕ → Log → Log × Bool
  unfolding handle_activation_log_cyclic_buffer
  indicate_interface_activated interface now log =
      handle_activation_log_cyclic_buffer interface activation now log

  unfoldable pub indicate_interface_deactivated : ℕ → ℕ → Log → Log × Bool
  unfolding handle_activation_log_cyclic_buffer
  indicate_interface_deactivated interface now log =
      handle_activation_log_cyclic_buffer interface deactivation now log

  -- `Monitor_GetInterfaceActivationEntryLog`; `none` is its result `false`. The subtraction is on
  -- `uint64_t` and the outputs are `uint32_t`.
  unfoldable pub get_interface_activation_entry_log : Log → Option Report
  get_interface_activation_entry_log log =
      if rt_exec_log_active
      then some (record {
        activation_log = activation_log_buffer;
        latest_activation_entry_index =
            if counter == 0 then 0 else u32 (sub_u64 (counter % size) 1);
        size_of_activation_log =
            if counter == 0 then 0 else if ltb size counter then u32 size else u32 counter;
      })
      else none
    where
      open log use {activation_entry_counter as counter, activation_log_buffer}

  unfoldable pub freeze_interface_activation_logging : Log → Log × Bool
  freeze_interface_activation_logging log =
      if rt_exec_log_active
      then if size == 0 then (log, false) else (record log { is_frozen = true }, true)
      else (log, false)

  unfoldable pub unfreeze_interface_activation_logging : Log → Log × Bool
  unfreeze_interface_activation_logging log =
      if rt_exec_log_active
      then if size == 0 then (log, false) else (record log { is_frozen = false }, true)
      else (log, false)

  unfoldable pub clear_interface_activation_log : Log → Log × Bool
  clear_interface_activation_log log =
      if rt_exec_log_active
      then if size == 0 then (log, false) else (record log { activation_entry_counter = 0 }, true)
      else (log, false)

-- A client's calls; an indication carries the time at which it is made.
pub data Op : Type 0 where
  activated deactivated : ℕ → ℕ → Op
  freeze unfreeze clear : Op

module _ (size : ℕ) where
  -- One call, with the log compiled in.
  unfoldable pub step : Log → Op → Log
  unfolding indicate_interface_activated indicate_interface_deactivated
      freeze_interface_activation_logging unfreeze_interface_activation_logging
      clear_interface_activation_log
  step log (activated i now) = (indicate_interface_activated true size i now log).0
  step log (deactivated i now) = (indicate_interface_deactivated true size i now log).0
  step log freeze = (freeze_interface_activation_logging true size log).0
  step log unfreeze = (unfreeze_interface_activation_logging true size log).0
  step log clear = (clear_interface_activation_log true size log).0

  unfoldable pub run : Log → List Op → Log
  run log [] = log
  run log (op ∷ ops) = run (step log op) ops
