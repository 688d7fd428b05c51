-- ===== src/Hal/Time/Ticks.antt =====
-- The ticks since start, as a function of the two counters.
use taste_samv71_rtems_runti.Common.{
  ℕ, ◌+◌, ◌-◌, ◌*◌, ◌^◌, ◌<◌, ◌≤◌, ◌≡◌, ◌⊎◌, arith, some, List, true,
}
use taste_samv71_rtems_runti.Common.Double.{Double}
use taste_samv71_rtems_runti.Hal.Time.{
  total_ticks, ticks_per_reload, AccessFlag, Round, Timer, read_counters, ticks_to_ns,
  get_elapsed_time_in_ns,
}

-- For up to 65537 reloads nothing wraps, and time does not run backwards: a later pair of readings,
-- ordered by reloads and then by ticks, gives at least as many ticks. That holds of 16-bit readings
-- of the hardware counter.
pub total_ticks_mono :
    (r s t u : ℕ)
    → s ≤ 65537
    → t < 2 ^ 16
    → u < 2 ^ 16
    → (r < s) ⊎ ((r ≡ s) × (t ≤ u))
    → (total_ticks r t ≡ r * ticks_per_reload + t) × (total_ticks r t ≤ total_ticks s u)
unfolding total_ticks
total_ticks_mono r s t u small ht hu later = ground arith

-- The ticks never reach 2^32 + 2^16, however many reloads there are: on the reload after the 65537th
-- the product wraps, and the count falls by more than 2^32 - 2^17.
pub total_ticks_wraps :
    (r t : ℕ)
    → t < 2 ^ 16
    → (total_ticks r t < 2 ^ 32 + 2 ^ 16)
      × (total_ticks 65538 t + (2 ^ 32 - 2 ^ 17) < total_ticks 65537 t)
unfolding total_ticks
total_ticks_wraps r t h = omega arith

-- A reload is counted as 65535 ticks: the last reading of the 16-bit counter before it reloads and
-- the first one after give the same time.
pub total_ticks_repeats : (r : ℕ) → r < 65537 → total_ticks r 65535 ≡ total_ticks (r + 1) 0
unfolding total_ticks
total_ticks_repeats r h = omega arith

module _ (api : AccessFlag) (d : Double) where
  -- Two calls, the second at least as late as the first by its counters and made before the 65538th
  -- reload, return times in that order.
  pub get_elapsed_time_in_ns_mono :
      (frequency : ℕ) (rounds₁ rounds₂ : List Round) (t₁ t₂ u₁ u₂ : Timer api) (r₁ c₁ r₂ c₂ : ℕ)
      → d.lt
          (d.from_u64 0)
          (d.div (d.div (d.from_u64 frequency) (d.from_u64 8)) (d.from_u64 1_000_000_000))
        ≡ true
      → read_counters api rounds₁ t₁ ≡ some (r₁, c₁, u₁)
      → read_counters api rounds₂ t₂ ≡ some (r₂, c₂, u₂)
      → r₂ ≤ 65537
      → c₁ < 2 ^ 16
      → c₂ < 2 ^ 16
      → (r₁ < r₂) ⊎ ((r₁ ≡ r₂) × (c₁ ≤ c₂))
      → (n₁ n₂ : ℕ) × (get_elapsed_time_in_ns api d frequency rounds₁ t₁ ≡ some (n₁, u₁))
        × (get_elapsed_time_in_ns api d frequency rounds₂ t₂ ≡ some (n₂, u₂))
        × (n₁ ≤ n₂)
  unfolding get_elapsed_time_in_ns
  get_elapsed_time_in_ns_mono frequency rounds₁ rounds₂ t₁ t₂ u₁ u₂ r₁ c₁ r₂ c₂ pos e₁ e₂ few h₁ h₂
        later =
      (
        ticks_to_ns d frequency (total_ticks r₁ c₁),
        ticks_to_ns d frequency (total_ticks r₂ c₂),
        rw (e₁, get_elapsed_time_in_ns),
        rw (e₂, get_elapsed_time_in_ns),
        d.to_u64_mono _ _ (
            d.div_mono _ _ _ pos
              (d.from_u64_mono _ _ (total_ticks_mono r₁ r₂ c₁ c₂ few h₁ h₂ later).1)),
      )
