-- ===== src/Monitor/Log/Preempted.antt =====
-- `handle_activation_log_cyclic_buffer` of src/Monitor/Monitor.c in tasks that preempt each other. It
-- takes no lock, so between any two of its statements other tasks can run. A statement is one step, but
-- the increment of the counter is a load and a store, of all 64 bits each; the log is compiled in.
pub mod Alone
pub mod Race
pub mod Lost
mod Tests
use taste_samv71_rtems_runti.Common.{
  ℕ, ◌+◌, ◌%◌, Bool, true, false, List, [], ◌∷◌, if◌then◌else◌, modify, get_or, u64,
}
use taste_samv71_rtems_runti.Monitor.Log.{EntryType, activation, Entry, Log}

-- Where a call stands: before the test of `is_frozen`, behind it, behind each of the three stores,
-- within the increment with the value of the counter that it has loaded, or returned, with `true` or
-- with `false`
pub data Point : Type 0 where
  entered tested interface_stored type_stored time_stored logged refused : Point
  counter_loaded : ℕ → Point

pub record Call : Type 0 where
  pub interface : ℕ
  pub entry_type : EntryType
  pub point : Point

abbrev pub call : ℕ → EntryType → Point → Call
call interface entry_type point = record {
  interface = interface;
  entry_type = entry_type;
  point = point;
}

-- No call
abbrev pub idle : Call
idle = call 0 activation refused

-- The log that the tasks share, and the call of each task
pub record Tasks : Type 0 where
  pub log : Log
  pub calls : List Call

module _ (size : ℕ) where
  -- The counter is read again in each of the three stores.
  unfoldable pub write_slot : (Entry → Entry) → Log → Log
  write_slot change log = record log {
    activation_log_buffer =
        modify log.activation_log_buffer (log.activation_entry_counter % size) change;
  }

  -- The statement at a point; `now` is the time that `Hal_GetElapsedTimeInNs` gives if it is called.
  unfoldable pub advance_from : Point → ℕ → Call → Log → Log × Call
  unfolding write_slot
  advance_from entered now c log =
      (log, record c { point = if log.is_frozen then refused else tested })
  advance_from tested now c log = (
    write_slot (λ e. record e { interface = c.interface }) log,
    record c { point = interface_stored },
  )
  advance_from interface_stored now c log = (
    write_slot (λ e. record e { entry_type = c.entry_type }) log,
    record c { point = type_stored },
  )
  advance_from type_stored now c log =
      (write_slot (λ e. record e { timestamp = now }) log, record c { point = time_stored })
  advance_from time_stored now c log =
      (log, record c { point = counter_loaded log.activation_entry_counter })
  advance_from (counter_loaded v) now c log =
      (record log { activation_entry_counter = u64 (v + 1) }, record c { point = logged })
  advance_from logged now c log = (log, c)
  advance_from refused now c log = (log, c)

  unfoldable pub advance : ℕ → Call → Log → Log × Call
  unfolding advance_from
  advance now c log = advance_from c.point now c log

  -- The task with index t runs for one statement.
  unfoldable pub step : ℕ → ℕ → Tasks → Tasks
  unfolding advance
  step t now s =
      let (log', c') = advance now (get_or s.calls t idle) s.log in
      record { log = log'; calls = modify s.calls t (λ c. c') }

  -- The scheduler picks a task for each statement.
  unfoldable pub run : List (ℕ × ℕ) → Tasks → Tasks
  run [] s = s
  run ((t, now) ∷ schedule) s = run schedule (step t now s)
