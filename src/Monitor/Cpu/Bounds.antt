-- ===== src/Monitor/Cpu/Bounds.antt =====
-- The recorded minimum and maximum of the idle usage against the usages that were measured.
use mathlib.Core.Path.{subst}
use taste_samv71_rtems_runti.Common.{
  ◌+◌, ◌≡◌, ◌∙◌, refl, ap, false, List, [], ◌∷◌, if◌then◌else◌, u32, Bool-cases, inl, inr,
}
use taste_samv71_rtems_runti.Common.Double.{Double}
use taste_samv71_rtems_runti.Monitor.Stack.{Thread, visit, Tasks}
use taste_samv71_rtems_runti.Monitor.Cpu.{
  Timestamps, Cpu, Sample, usage_percent, cpu_usage_visitor, monitoring_tick,
}

module _ (d : Double) where
  lower_lem : (u m : d.F) → let low = if d.lt u m then u else m in d.le low m × d.le low u
  lower_lem u m = elim (Bool-cases (d.lt u m)) [
    | inl less ↦ rw less (d.le_of_lt u m less, d.le_refl u)
    | inr greater ↦ rw greater (d.le_refl m, d.le_of_not_lt u m greater)
  ]

  upper_lem : (u m : d.F) → let high = if d.lt m u then u else m in d.le m high × d.le u high
  upper_lem u m = elim (Bool-cases (d.lt m u)) [
    | inl less ↦ rw less (d.le_of_lt m u less, d.le_refl u)
    | inr greater ↦ rw greater (d.le_refl m, d.le_of_not_lt m u greater)
  ]

module _ (d : Double) (api : Timestamps) (tasks : Tasks) where
  unfoldable pub ticks : List (Sample d api) → Cpu d api → Cpu d api
  ticks [] s = s
  ticks (sample ∷ rest) s = ticks rest (monitoring_tick d api tasks sample s)

  module _ (idle : Thread) (others : List Thread) (first : tasks.threads ≡ idle ∷ others) where
    -- The usage of the first thread that a sample gives, from a time on
    unfoldable pub measured : api.Timestamp → Sample d api → d.F
    measured reset sample =
        usage_percent d api (sample.used_time idle) (api.subtract reset sample.uptime)

    -- Every usage lies between two bounds.
    unfoldable pub Within : d.F → d.F → api.Timestamp → List (Sample d api) → Type 0
    Within low high reset [] = Unit {0}
    Within low high reset (sample ∷ rest) =
        d.le low (measured reset sample)
        × d.le (measured reset sample) high
        × Within low high reset rest

    tick_lem :
        (sample : Sample d api) (s : Cpu d api)
        → monitoring_tick d api tasks sample s ≡ (
            let s' = (cpu_usage_visitor d api sample idle s).0 in
            record s' { benchmarking_ticks = u32 (s'.benchmarking_ticks + 1) })
    unfolding monitoring_tick visit cpu_usage_visitor
    tick_lem sample s =
        ap {A = Cpu d api}
          (λ s'. record s' { benchmarking_ticks = u32 (s'.benchmarking_ticks + 1) })
          (tasks.iterate-visit (cpu_usage_visitor d api sample) s
            ∙ ap (λ ts. visit (cpu_usage_visitor d api sample) ts s) first
            ∙ refl)

    tick-le :
        (sample : Sample d api) (s : Cpu d api)
        → let s₁ = monitoring_tick d api tasks sample s in
          let old = s.idle_cpu_usage_data in
          let new = s₁.idle_cpu_usage_data in
          let usage = measured s.uptime_at_last_reset sample in
          d.le new.minimum_cpu_usage old.minimum_cpu_usage
          × d.le old.maximum_cpu_usage new.maximum_cpu_usage
          × d.le new.minimum_cpu_usage usage
          × d.le usage new.maximum_cpu_usage
          × (s₁.uptime_at_last_reset ≡ s.uptime_at_last_reset)
    unfolding measured cpu_usage_visitor
    tick-le sample s =
        let usage = measured s.uptime_at_last_reset sample in
        let lower = lower_lem d usage s.idle_cpu_usage_data.minimum_cpu_usage in
        let upper = upper_lem d usage s.idle_cpu_usage_data.maximum_cpu_usage in
        rw (tick_lem sample s) (lower.0, upper.0, lower.1, upper.1, refl)

    -- After any number of ticks every usage that was measured on the way lies between the recorded
    -- minimum and the recorded maximum; the minimum never grows and the maximum never falls.
    pub ticks_bounds :
        (samples : List (Sample d api)) (s : Cpu d api)
        → let s' = ticks samples s in
          let old = s.idle_cpu_usage_data in
          let new = s'.idle_cpu_usage_data in
          d.le new.minimum_cpu_usage old.minimum_cpu_usage
          × d.le old.maximum_cpu_usage new.maximum_cpu_usage
          × Within new.minimum_cpu_usage new.maximum_cpu_usage s.uptime_at_last_reset samples
    unfolding ticks Within
    ticks_bounds [] s = (
      d.le_refl s.idle_cpu_usage_data.minimum_cpu_usage,
      d.le_refl s.idle_cpu_usage_data.maximum_cpu_usage,
      tt,
    )
    ticks_bounds (sample ∷ rest) s =
        let s₁ = monitoring_tick d api tasks sample s in
        let step = tick-le sample s in
        let later = ticks_bounds rest s₁ in
        let new = (ticks rest s₁).idle_cpu_usage_data in
        (
          d.le_trans _ _ _ later.0 step.0,
          d.le_trans _ _ _ step.1 later.1,
          (
            d.le_trans _ _ _ later.0 step.2,
            d.le_trans _ _ _ step.3 later.1,
            subst (λ reset. Within new.minimum_cpu_usage new.maximum_cpu_usage reset rest) step.4
                later.2,
          ),
        )

    -- None of the usages is below 0.
    unfoldable pub Natural : api.Timestamp → List (Sample d api) → Type 0
    Natural reset [] = Unit {0}
    Natural reset (sample ∷ rest) =
        (d.lt (measured reset sample) (d.from_u64 0) ≡ false) × Natural reset rest

    -- A minimum that starts at 0, as the static variable does, stays 0 whatever the usages are, if none
    -- is below 0.
    pub ticks_minimum_zero :
        (samples : List (Sample d api)) (s : Cpu d api)
        → s.idle_cpu_usage_data.minimum_cpu_usage ≡ d.from_u64 0
        → Natural s.uptime_at_last_reset samples
        → (ticks samples s).idle_cpu_usage_data.minimum_cpu_usage ≡ d.from_u64 0
    unfolding ticks Natural measured cpu_usage_visitor
    ticks_minimum_zero [] s zero_min natural = zero_min
    ticks_minimum_zero (sample ∷ rest) s zero_min (natural, later) =
        ticks_minimum_zero rest (monitoring_tick d api tasks sample s)
          (rw (tick_lem sample s, zero_min, natural) refl) (rw (tick_lem sample s) later)
