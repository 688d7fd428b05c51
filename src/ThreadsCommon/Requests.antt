-- ===== src/ThreadsCommon/Requests.antt =====
-- `ThreadsCommon_ProcessRequest` and the execution times of src/ThreadsCommon/ThreadsCommon.c, and
-- `Monitor_GetUsageData` of src/Monitor/Monitor.c. The clock, which is `Hal_GetElapsedTimeInNs`,
-- changes the state of the rest of the system, `World`. The user's function, and the other tasks that run
-- while it does, may also change the activation log and the threads' data.
pub mod Statistics
pub mod Process
mod Tests
use taste_samv71_rtems_runti.Common.{
  ℕ, ◌+◌, Bool, true, false, List, [], ◌∷◌, if◌then◌else◌, ◌&&◌, not, ltb, modify, get_or, u64,
  sub_u64,
}
use taste_samv71_rtems_runti.Common.Double.{Double}
use taste_samv71_rtems_runti.Monitor.Log.{
  Log, indicate_interface_activated, indicate_interface_deactivated,
}

module _ (d : Double) where
  -- `thread_info` of src/Mocks/interfaces_info.h
  pub record ThreadInfo : Type 0 where
    pub id : ℕ
    pub name : List ℕ
    pub thread_execution_time : ℕ
    pub min_thread_execution_time : ℕ
    pub max_thread_execution_time : ℕ
    pub mean_thread_execution_time : d.F
    pub execution_time_counter : ℕ

  -- What an access outside the array is given; the accesses of the source are inside.
  abbrev pub no_thread : ThreadInfo
  no_thread = record {
    id = 0;
    name = [];
    thread_execution_time = 0;
    min_thread_execution_time = 0;
    max_thread_execution_time = 0;
    mean_thread_execution_time = d.from_u64 0;
    execution_time_counter = 0;
  }

  -- On the element of `threads_info`.
  unfoldable pub update_execution_time_data : ℕ → ThreadInfo → ThreadInfo
  update_execution_time_data time info = record info {
    min_thread_execution_time =
        if ltb time info.min_thread_execution_time then time else info.min_thread_execution_time;
    max_thread_execution_time =
        if ltb info.max_thread_execution_time time then time else info.max_thread_execution_time;
    mean_thread_execution_time = d.add info.mean_thread_execution_time (
        d.div (d.sub (d.from_u64 time) info.mean_thread_execution_time)
          (d.add (d.from_u64 info.execution_time_counter) (d.from_u64 1)));
    execution_time_counter = u64 (info.execution_time_counter + 1);
  }

  -- `struct Monitor_InterfaceUsageData`
  pub record InterfaceUsageData : Type 0 where
    pub interface : ℕ
    pub maximum_execution_time : ℕ
    pub minimum_execution_time : ℕ
    pub average_execution_time : ℕ

  unfoldable pub get_usage_data : ℕ → List ThreadInfo → InterfaceUsageData × Bool
  get_usage_data thread threads_info =
      let info = get_or threads_info thread no_thread in
      (
        record {
          interface = thread;
          maximum_execution_time = info.max_thread_execution_time;
          minimum_execution_time = info.min_thread_execution_time;
          average_execution_time = d.to_u64 info.mean_thread_execution_time;
        },
        true,
      )

  module _ (World : Type 0) (clock : World → ℕ × World) where
    pub record Node : Type 0 where
      pub log : Log
      pub threads_info : List ThreadInfo
      pub world : World

    -- An indication of the activation log reads the clock for its time stamp, unless the log is not
    -- compiled in or frozen.
    unfoldable pub indicated : Bool → (ℕ → Log → Log × Bool) → Node → Node
    indicated rt_exec_log_active indicate n =
        let (now, w) = clock n.world in
        record n {
          log = (indicate now n.log).0;
          world = if rt_exec_log_active && not n.log.is_frozen then w else n.world;
        }

    unfoldable pub process_request :
        Bool → ℕ → List ℕ → ℕ → (List ℕ → ℕ → Node → Node) → ℕ → Node → Node × Bool
    unfolding update_execution_time_data indicated
    process_request rt_exec_log_active log_size request_data request_size user_function thread n =
        let n₁ =
          indicated rt_exec_log_active
            (indicate_interface_activated rt_exec_log_active log_size thread) n in
        let (time_before_execution, w₁) = clock n₁.world in
        let returned = user_function request_data request_size (record n₁ { world = w₁ }) in
        let (time_after_execution, w₂) = clock returned.world in
        let n₂ =
          indicated rt_exec_log_active
            (indicate_interface_deactivated rt_exec_log_active log_size thread)
            (record returned { world = w₂ }) in
        let time = sub_u64 time_after_execution time_before_execution in
        let measured =
          modify n₂.threads_info thread (λ i. record i { thread_execution_time = time }) in
        (
          record n₂ { threads_info = modify measured thread (update_execution_time_data time) },
          true,
        )
