-- ===== src/ThreadsCommon/Requests/Process.antt =====
-- What the processing of one request does to the activation log and to the thread's data.
use taste_samv71_rtems_runti.Common.{
  ℕ, ◌+◌, ◌^◌, ◌≤◌, ◌<◌, ◌≡◌, ◌≢◌, ◌∙◌, refl, ap, sym, Bool, true, List, [], ◌∷◌, ◌++◌, arith,
  length, length-append, get_or, modify, length-modify, get_or-modify_self, get_or-modify_ne, u64,
  sub_u64,
}
use taste_samv71_rtems_runti.Common.Double.{Double}
use taste_samv71_rtems_runti.Monitor.Log.{
  Log, Op, activated, deactivated, step, run, indicate_interface_activated,
}
use taste_samv71_rtems_runti.Monitor.Log.Slots.{IsValid}
use taste_samv71_rtems_runti.Monitor.Log.Refine.{Journal, Holds, journal_run, run-Holds}
use taste_samv71_rtems_runti.ThreadsCommon.Requests.{
  ThreadInfo, no_thread, update_execution_time_data, Node, indicated, process_request,
}

module _ (d : Double) (time thread : ℕ) (infos : List (ThreadInfo d)) where
  abbrev measured : List (ThreadInfo d)
  measured = modify infos thread (λ i. record i { thread_execution_time = time })

  abbrev updated : List (ThreadInfo d)
  updated = modify measured thread (update_execution_time_data d time)

  updated_self :
      thread < length infos
      → get_or updated thread (no_thread d)
        ≡ update_execution_time_data d time
            (record (get_or infos thread (no_thread d)) { thread_execution_time = time })
  updated_self h =
      get_or-modify_self measured thread _ (no_thread d) (
        omega
          (arith, h, length-modify infos thread (λ i. record i { thread_execution_time = time })))
      ∙ ap (update_execution_time_data d time) (get_or-modify_self infos thread _ (no_thread d) h)

  updated-ne : (i : ℕ) → thread ≢ i → get_or updated i (no_thread d) ≡ get_or infos i (no_thread d)
  updated-ne i h =
      get_or-modify_ne measured thread i _ (no_thread d) h
      ∙ get_or-modify_ne infos thread i _ (no_thread d) h

  updated_lem :
      thread < length infos
      → let old = get_or infos thread (no_thread d) in
        let info = get_or updated thread (no_thread d) in
        (info.thread_execution_time ≡ time)
        × (info.min_thread_execution_time ≤ info.thread_execution_time)
        × (info.thread_execution_time ≤ info.max_thread_execution_time)
        × (info.execution_time_counter ≡ u64 (old.execution_time_counter + 1))
  unfolding update_execution_time_data
  updated_lem h =
      rw (updated_self h, update_execution_time_data) (refl, ground arith, ground arith, refl)

run-append :
    (size : ℕ) (ops more : List Op) (log : Log)
    → run size log (ops ++ more) ≡ run size (run size log ops) more
unfolding run
run-append size [] more log = refl
run-append size (op ∷ ops) more log = run-append size ops more (step size log op)

module _ (d : Double) (World : Type 0) (clock : World → ℕ × World) (active : Bool) (size : ℕ)
    (data_bytes : List ℕ) (request_size : ℕ)
    (function : List ℕ → ℕ → Node d World clock → Node d World clock) (thread : ℕ)
    (n : Node d World clock) where
  abbrev entered : Node d World clock
  entered = indicated d World clock active (indicate_interface_activated active size thread) n

  -- The clock as the user's function is entered, and as it returns
  unfoldable pub entry_time : ℕ
  entry_time = (clock entered.world).0

  abbrev pub called : Node d World clock
  called = record entered { world = (clock entered.world).1 }

  abbrev pub returned : Node d World clock
  returned = function data_bytes request_size called

  unfoldable pub return_time : ℕ
  return_time = (clock returned.world).0

  abbrev processed : Node d World clock
  processed =
      (process_request d World clock active size data_bytes request_size function thread n).0

  -- Processing always succeeds. The thread's last execution time is the time from the entry of the
  -- user's function to its return, modulo 2^64; the recorded minimum and maximum enclose it, and the
  -- number of executions is one more than as the function returned, modulo 2^64. The data of the other
  -- threads is as the function left it.
  pub process_request_lem :
      (i : ℕ)
      → thread ≢ i
      → thread < length returned.threads_info
      → let old = get_or returned.threads_info thread (no_thread d) in
        let info = get_or processed.threads_info thread (no_thread d) in
        ((process_request d World clock active size data_bytes request_size function thread n).1
          ≡ true)
        × (info.thread_execution_time ≡ sub_u64 return_time entry_time)
        × (info.min_thread_execution_time ≤ info.thread_execution_time)
        × (info.thread_execution_time ≤ info.max_thread_execution_time)
        × (info.execution_time_counter ≡ u64 (old.execution_time_counter + 1))
        × (get_or processed.threads_info i (no_thread d)
            ≡ get_or returned.threads_info i (no_thread d))
  unfolding process_request entry_time return_time
  process_request_lem i ne h =
      let measure = updated_lem d (sub_u64 return_time entry_time) thread returned.threads_info h in
      (
        refl,
        measure.0,
        measure.1,
        measure.2,
        measure.3,
        updated-ne d (sub_u64 return_time entry_time) thread returned.threads_info i ne,
      )

  -- The calls on the log, when the calls `during` are made while the function runs
  abbrev calls : List Op → List Op
  calls during =
      activated thread (clock n.world).0
      ∷ (during ++ (deactivated thread (clock (clock returned.world).1).0 ∷ []))

  -- The indication behind the function
  abbrev left : Op
  left = deactivated thread (clock (clock returned.world).1).0

  log-called : active ≡ true → called.log ≡ step size n.log (activated thread (clock n.world).0)
  unfolding indicated step
  log-called e = rw e refl

  log-processed : active ≡ true → processed.log ≡ step size returned.log left
  unfolding process_request indicated step
  log-processed e = rw e refl

  process_request-run :
      (during : List Op)
      → active ≡ true
      → returned.log ≡ run size called.log during
      → processed.log ≡ run size n.log (calls during)
  unfolding run
  process_request-run during e logged =
      log-processed e
      ∙ ap (λ l. step size l left) logged
      ∙ ap (λ l. step size (run size l during) left) (log-called e)
      ∙ sym (run-append size during (left ∷ []) _)

  -- When the log is compiled in and agrees with a journal, and the user's function and the tasks that
  -- run while it does change the log by whole calls only, the log agrees after the processing with the
  -- journal of these calls, behind the activation of the thread's interface and before its
  -- deactivation, which carry the readings of the clock before the first and after the last reading of
  -- the measurement.
  pub process_request-Holds :
      (j : Journal) (during : List Op)
      → active ≡ true
      → 0 < size
      → IsValid size n.log
      → Holds size n.log j
      → returned.log ≡ run size called.log during
      → length j.entries + (length during + 2) < 2 ^ 64
      → Holds size processed.log (journal_run j (calls during))
  process_request-Holds j during e positive v h logged small =
      rw (process_request-run during e logged) (
        run-Holds size (calls during) n.log j positive v h (
          omega (
            arith,
            length-append during (deactivated thread (clock (clock returned.world).1).0 ∷ []),
          )))
