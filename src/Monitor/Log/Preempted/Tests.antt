-- ===== src/Monitor/Log/Preempted/Tests.antt =====
-- Two tasks and a buffer of four entries, the first of them in use.
use taste_samv71_rtems_runti.Common.{ℕ, ◌≡◌, refl, true, false, some, List, [], ◌∷◌, get_or, arith}
use taste_samv71_rtems_runti.Monitor.Log.{
  activation, Entry, Log, Report, handle_activation_log_cyclic_buffer,
  get_interface_activation_entry_log,
}
use taste_samv71_rtems_runti.Monitor.Log.Slots.{blank}
use taste_samv71_rtems_runti.Monitor.Log.Preempted.{
  entered, logged, Call, call, idle, Tasks, step, run,
}
use taste_samv71_rtems_runti.Monitor.Log.Preempted.Alone.{
  steps_of, run-eq-handle_activation_log_cyclic_buffer,
}
use taste_samv71_rtems_runti.Monitor.Log.Preempted.Lost.{
  late_preemption, recounted, all_returned, run-recounted_log,
}
use taste_samv71_rtems_runti.Monitor.Log.Preempted.Race.{
  preemption, raced, both_returned, run-raced_report,
}

abbrev entry : ℕ → ℕ → Entry
entry i now = record { interface = i; entry_type = activation; timestamp = now }

abbrev log : Log
log = record {
  is_frozen = false;
  activation_entry_counter = 1;
  activation_log_buffer = entry 5 50 ∷ entry 0 0 ∷ entry 99 0 ∷ entry 98 0 ∷ [];
}

abbrev tasks : Tasks
tasks = record { log = log; calls = call 6 activation entered ∷ call 7 activation entered ∷ [] }

run-eq-handle_activation_log_cyclic_buffer_test :
    run 4 (steps_of 1 (0 ∷ 0 ∷ 0 ∷ 70 ∷ 0 ∷ 0 ∷ [])) tasks ≡ record {
      log = (handle_activation_log_cyclic_buffer true 4 7 activation 70 log).0;
      calls = call 6 activation entered ∷ call 7 activation logged ∷ [];
    }
unfolding handle_activation_log_cyclic_buffer
run-eq-handle_activation_log_cyclic_buffer_test =
    run-eq-handle_activation_log_cyclic_buffer 4 0 0 0 70 0 0 1 7 activation tasks (omega arith)
      refl

-- Interface 6 has left no trace, and the entry of interface 99, which was never logged, is counted.
lost_entry :
    (run 4 (preemption 0 1 60 70) tasks).log.activation_log_buffer
    ≡ entry 5 50 ∷ entry 7 70 ∷ entry 99 0 ∷ entry 98 0 ∷ []
unfolding run step
lost_entry = refl

abbrev after : Log
after = raced 4 0 1 6 7 activation activation 60 70 tasks

abbrev returned : List Call
returned = both_returned 4 0 1 6 7 activation activation 60 70 tasks

run-raced_report_example :
    (run 4 (preemption 0 1 60 70) tasks ≡ record { log = after; calls = returned })
    × (get_or returned 0 idle ≡ call 6 activation logged)
    × (get_or returned 1 idle ≡ call 7 activation logged)
    × (after.activation_entry_counter ≡ 3)
    × (get_or after.activation_log_buffer 1 blank ≡ entry 7 70)
    × (r : Report) × (get_interface_activation_entry_log true 4 after ≡ some r)
    × (r.latest_activation_entry_index ≡ 2)
    × (get_or r.activation_log r.latest_activation_entry_index blank ≡ entry 99 0)
run-raced_report_example =
    run-raced_report 4 0 1 6 7 activation activation 60 70 tasks (λ e. omega arith) (omega arith)
      (omega arith) refl refl refl (omega arith) (omega arith) (omega arith) (omega arith)
      (λ e. omega arith)

abbrev recounted_log : Log
recounted_log = recounted 4 0 1 6 7 activation activation 60 70 tasks

abbrev recounted_calls : List Call
recounted_calls = all_returned 4 0 1 6 7 activation activation 60 70 tasks

run-recounted_log_example :
    (run 4 (late_preemption 0 1 60 70) tasks
      ≡ record { log = recounted_log; calls = recounted_calls })
    × (get_or recounted_calls 0 idle ≡ call 6 activation logged)
    × (get_or recounted_calls 1 idle ≡ call 7 activation logged)
    × (recounted_log.activation_entry_counter ≡ 2)
    × (get_or recounted_log.activation_log_buffer 1 blank ≡ entry 7 70)
run-recounted_log_example =
    run-recounted_log 4 0 1 6 7 activation activation 60 70 tasks (λ e. omega arith) (omega arith)
      (omega arith) refl refl refl (omega arith) (omega arith) (omega arith)
