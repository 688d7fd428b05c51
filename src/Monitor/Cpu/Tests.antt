-- ===== src/Monitor/Cpu/Tests.antt =====
-- Time stamps that count, an idle thread and two ticks with 50 % and 80 %.
use taste_samv71_rtems_runti.Common.{ℕ, ◌-◌, ◌*◌, ◌/◌, ◌%◌, ◌≤◌, ◌≡◌, refl, List, [], ◌∷◌}
use taste_samv71_rtems_runti.Common.Double.{fixed_point, fixed_lt}
use taste_samv71_rtems_runti.Monitor.Stack.{Thread, visit, Tasks}
use taste_samv71_rtems_runti.Monitor.Cpu.{
  Timestamps, Cpu, Sample, cpu_usage_visitor, monitoring_tick,
}
use taste_samv71_rtems_runti.Monitor.Cpu.Bounds.{
  ticks, measured, Within, ticks_bounds, Natural, ticks_minimum_zero,
}

abbrev counts : Timestamps
counts = record {
  Timestamp = ℕ;
  zero_time = 0;
  subtract = λ start stop. stop - start;
  divide = λ used total. (used * 100 / total, used * 100_000 / total % 1000);
}

abbrev idle : Thread
idle = record { id = 1; area = 0x2000; size = 64 }

abbrev tasks : Tasks
tasks = record {
  threads = idle ∷ [];
  iterate = λ visitor a. visit visitor (idle ∷ []) a;
  iterate-visit = λ visitor a. refl;
}

abbrev sample : ℕ → ℕ → Sample fixed_point counts
sample uptime used = record { uptime = uptime; used_time = λ t. used }

abbrev samples : List (Sample fixed_point counts)
samples = sample 200 50 ∷ sample 300 160 ∷ []

abbrev fresh : Cpu fixed_point counts
fresh = record {
  benchmarking_ticks = 0;
  uptime_at_last_reset = 100;
  total_usage_time = 0;
  idle_cpu_usage_data = record {
    minimum_cpu_usage = 0;
    maximum_cpu_usage = 0;
    average_cpu_usage = 0;
  };
}

-- The mean of the two is 65, the minimum is still 0.
two_ticks : (ticks fixed_point counts tasks samples fresh).idle_cpu_usage_data ≡ record {
  minimum_cpu_usage = 0;
  maximum_cpu_usage = fixed_point.from_u64 80;
  average_cpu_usage = fixed_point.from_u64 65;
}
unfolding ticks monitoring_tick visit cpu_usage_visitor fixed_lt
two_ticks = refl

ticks_bounds_example :
    let new = (ticks fixed_point counts tasks samples fresh).idle_cpu_usage_data in
    (new.minimum_cpu_usage ≤ 0)
    × (0 ≤ new.maximum_cpu_usage)
    × Within fixed_point counts tasks idle [] refl new.minimum_cpu_usage new.maximum_cpu_usage 100
        samples
ticks_bounds_example = ticks_bounds fixed_point counts tasks idle [] refl samples fresh

ticks_minimum_zero_test :
    (ticks fixed_point counts tasks samples fresh).idle_cpu_usage_data.minimum_cpu_usage ≡ 0
unfolding Natural measured fixed_lt
ticks_minimum_zero_test =
    ticks_minimum_zero fixed_point counts tasks idle [] refl samples fresh refl (refl, (refl, tt))
