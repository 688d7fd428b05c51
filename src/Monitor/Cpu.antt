-- ===== src/Monitor/Cpu.antt =====
-- The idle CPU usage of src/Monitor/Monitor.c: `cpu_usage_visitor`, `Monitor_Init`,
-- `Monitor_MonitoringTick` and the query. `float` is an interface, and so are the time stamps of
-- RTEMS, whose division gives a percentage and its thousandths.
pub mod Bounds
mod Tests
use taste_samv71_rtems_runti.Common.{
  ℕ, zero, ◌+◌, Bool, true, false, List, [], ◌∷◌, if◌then◌else◌, u32,
}
use taste_samv71_rtems_runti.Common.Double.{Double}
use taste_samv71_rtems_runti.Monitor.Queues.{reset_maximum}
use taste_samv71_rtems_runti.Monitor.Stack.{Thread, visit, Tasks}

-- `Timestamp_Control` and its functions
pub record Timestamps : Type 1 where
  pub Timestamp : Type 0
  pub zero_time : Timestamp
  pub subtract : Timestamp → Timestamp → Timestamp
  pub divide : Timestamp → Timestamp → ℕ × ℕ

module _ (d : Double) (api : Timestamps) where
  -- `struct Monitor_CPUUsageData`
  pub record CpuUsageData : Type 0 where
    pub minimum_cpu_usage : d.F
    pub maximum_cpu_usage : d.F
    pub average_cpu_usage : d.F

  -- The static variables
  pub record Cpu : Type 0 where
    pub benchmarking_ticks : ℕ
    pub uptime_at_last_reset : api.Timestamp
    pub total_usage_time : api.Timestamp
    pub idle_cpu_usage_data : CpuUsageData

  -- What a tick finds: the uptime, and the time each thread has used since the last reset
  pub record Sample : Type 0 where
    pub uptime : api.Timestamp
    pub used_time : Thread → api.Timestamp

  abbrev pub usage_percent : api.Timestamp → api.Timestamp → d.F
  usage_percent used total =
      let (integer_val, float_val) = api.divide used total in
      d.add (d.div (d.from_u64 float_val) (d.from_u64 1000)) (d.from_u64 integer_val)

  unfoldable pub cpu_usage_visitor : Sample → Thread → Cpu → Cpu × Bool
  cpu_usage_visitor sample t s =
      let total = api.subtract s.uptime_at_last_reset sample.uptime in
      let usage = usage_percent (sample.used_time t) total in
      let idle = s.idle_cpu_usage_data in
      (
        record s {
          total_usage_time = total;
          idle_cpu_usage_data = record {
            minimum_cpu_usage =
                if d.lt usage idle.minimum_cpu_usage then usage else idle.minimum_cpu_usage;
            maximum_cpu_usage =
                if d.lt idle.maximum_cpu_usage usage then usage else idle.maximum_cpu_usage;
            average_cpu_usage = d.add idle.average_cpu_usage (
                d.div (d.sub usage idle.average_cpu_usage)
                  (d.from_u64 (u32 (s.benchmarking_ticks + 1))));
          };
        },
        true,
      )

  -- The source returns no value, so there is no result.
  unfoldable pub monitoring_tick : Tasks → Sample → Cpu → Cpu
  monitoring_tick tasks sample s =
      let visited : Cpu = tasks.iterate (cpu_usage_visitor sample) s in
      record visited { benchmarking_ticks = u32 (visited.benchmarking_ticks + 1) }

  unfoldable pub get_idle_cpu_usage_data : Cpu → CpuUsageData × Bool
  get_idle_cpu_usage_data s = (s.idle_cpu_usage_data, true)

  -- `Monitor_Init`, on these variables and on `maximum_queued_items` of as many threads as there are
  unfoldable pub init : ℕ → api.Timestamp → Cpu × List ℕ → Cpu × List ℕ × Bool
  init runtime_thread_count uptime (s, maximum_queued_items) = (
    record s { total_usage_time = api.zero_time; uptime_at_last_reset = uptime },
    reset_maximum 0 runtime_thread_count maximum_queued_items,
    true,
  )
