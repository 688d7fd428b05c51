-- ===== src/ThreadsCommon/Requests/Tests.antt =====
-- Requests on a clock that counts its readings, with a function that takes ten units of time.
use taste_samv71_rtems_runti.Common.{
  ℕ, ◌+◌, ◌≤◌, ◌≡◌, refl, true, false, List, [], ◌∷◌, arith, get_or, replicate,
}
use taste_samv71_rtems_runti.Common.Double.{fixed_point}
use taste_samv71_rtems_runti.Monitor.Log.{activated, deactivated, run}
use taste_samv71_rtems_runti.Monitor.Log.Slots.{blank}
use taste_samv71_rtems_runti.Monitor.Log.Refine.{Holds, journal_run}
use taste_samv71_rtems_runti.ThreadsCommon.Requests.{
  ThreadInfo, no_thread, Node, indicated, process_request,
}
use taste_samv71_rtems_runti.ThreadsCommon.Requests.Statistics.{
  least, greatest, updates, updates_lem, ExactLaws, updates_constant,
}
use taste_samv71_rtems_runti.ThreadsCommon.Requests.Process.{
  entry_time, return_time, process_request_lem, process_request-Holds,
}

abbrev info : ThreadInfo fixed_point
info = record {
  id = 3;
  name = [];
  thread_execution_time = 0;
  min_thread_execution_time = 100;
  max_thread_execution_time = 0;
  mean_thread_execution_time = 0;
  execution_time_counter = 0;
}

updates_lem_example :
    let info' = updates fixed_point (5 ∷ 9 ∷ 7 ∷ []) info in
    (info'.min_thread_execution_time ≡ 5)
    × (info'.max_thread_execution_time ≡ 9)
    × (info'.execution_time_counter ≡ 3)
    × (info'.id ≡ 3)
    × (info'.name ≡ [])
    × (info'.thread_execution_time ≡ 0)
unfolding least greatest
updates_lem_example = updates_lem fixed_point (5 ∷ 9 ∷ 7 ∷ []) info (omega arith)

fixed_laws : ExactLaws fixed_point
fixed_laws = record {
  sub_zero = λ a. omega arith;
  sub_self = λ a. omega arith;
  zero_add = λ a. omega arith;
  add_zero = λ a. omega arith;
  div_one = λ a. grind arith;
  zero_div = λ k. grind arith;
}

constant_four :
    (updates fixed_point (replicate 4 25) info).mean_thread_execution_time ≡ fixed_point.from_u64 25
constant_four = updates_constant fixed_point fixed_laws 25 3 info refl refl

abbrev clock : ℕ → ℕ × ℕ
clock w = (w, w + 1)

-- While the function runs, another task indicates the activation of interface 2.
abbrev work : List ℕ → ℕ → Node fixed_point ℕ clock → Node fixed_point ℕ clock
work bytes size n = record n { log = run 3 n.log (activated 2 55 ∷ []); world = n.world + 10 }

abbrev node : Node fixed_point ℕ clock
node = record {
  log = record {
    is_frozen = false;
    activation_entry_counter = 0;
    activation_log_buffer = blank ∷ blank ∷ blank ∷ [];
  };
  threads_info = info ∷ info ∷ [];
  world = 50;
}

process_request_lem_test :
    let after = (process_request fixed_point ℕ clock true 3 (1 ∷ []) 1 work 1 node).0 in
    let new = get_or after.threads_info 1 (no_thread fixed_point) in
    ((process_request fixed_point ℕ clock true 3 (1 ∷ []) 1 work 1 node).1 ≡ true)
    × (new.thread_execution_time ≡ 11)
    × (new.min_thread_execution_time ≤ new.thread_execution_time)
    × (new.thread_execution_time ≤ new.max_thread_execution_time)
    × (new.execution_time_counter ≡ 1)
    × (get_or after.threads_info 0 (no_thread fixed_point)
        ≡ get_or node.threads_info 0 (no_thread fixed_point))
unfolding entry_time return_time indicated
process_request_lem_test =
    process_request_lem fixed_point ℕ clock true 3 (1 ∷ []) 1 work 1 node 0 (λ e. omega arith)
      (omega arith)

process_request-Holds_example :
    Holds 3 (process_request fixed_point ℕ clock true 3 (1 ∷ []) 1 work 1 node).0.log (
      journal_run
        (record { frozen = false; entries = [] })
        (activated 1 50 ∷ activated 2 55 ∷ deactivated 1 63 ∷ []))
unfolding indicated
process_request-Holds_example =
    process_request-Holds fixed_point ℕ clock true 3 (1 ∷ []) 1 work 1 node
      (record { frozen = false; entries = [] }) (activated 2 55 ∷ []) refl (omega arith)
      (record { room = refl; live = λ e. omega arith; counted = omega arith })
      (record { same_frozen = refl; same_count = refl; kept = λ k p q. absurd (omega arith) }) refl
      (omega arith)
