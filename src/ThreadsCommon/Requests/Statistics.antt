-- ===== src/ThreadsCommon/Requests/Statistics.antt =====
-- What the recorded execution times are over a whole run.
use taste_samv71_rtems_runti.Common.{
  ℕ, zero, suc, ◌+◌, ◌^◌, ◌<◌, ◌≡◌, ◌∙◌, refl, List, [], ◌∷◌, arith, length, u64, min, max,
  replicate,
}
use taste_samv71_rtems_runti.Common.Double.{Double}
use taste_samv71_rtems_runti.ThreadsCommon.Requests.{ThreadInfo, update_execution_time_data}

unfoldable pub least : ℕ → List ℕ → ℕ
least m [] = m
least m (t ∷ ts) = min t (least m ts)

unfoldable pub greatest : ℕ → List ℕ → ℕ
greatest m [] = m
greatest m (t ∷ ts) = max t (greatest m ts)

least-min : (a b : ℕ) (ts : List ℕ) → least (min a b) ts ≡ min a (least b ts)
unfolding least
least-min a b [] = refl
least-min a b (t ∷ ts) = omega (arith, least-min a b ts)

greatest-max : (a b : ℕ) (ts : List ℕ) → greatest (max a b) ts ≡ max a (greatest b ts)
unfolding greatest
greatest-max a b [] = refl
greatest-max a b (t ∷ ts) = omega (arith, greatest-max a b ts)

module _ (d : Double) where
  unfoldable pub updates : List ℕ → ThreadInfo d → ThreadInfo d
  updates [] info = info
  updates (t ∷ ts) info = updates ts (update_execution_time_data d t info)

  -- After any number of requests the recorded minimum and maximum are the least and the greatest of
  -- their old values and all execution times, and the counter has advanced by the number of requests,
  -- modulo 2^64; identifier, name and last execution time are kept.
  pub updates_lem :
      (times : List ℕ) (info : ThreadInfo d)
      → info.execution_time_counter < 2 ^ 64
      → let info' = updates times info in
        (info'.min_thread_execution_time ≡ least info.min_thread_execution_time times)
        × (info'.max_thread_execution_time ≡ greatest info.max_thread_execution_time times)
        × (info'.execution_time_counter ≡ u64 (info.execution_time_counter + length times))
        × (info'.id ≡ info.id)
        × (info'.name ≡ info.name)
        × (info'.thread_execution_time ≡ info.thread_execution_time)
  unfolding updates update_execution_time_data least greatest
  updates_lem [] info h = (refl, refl, omega arith, refl, refl, refl)
  updates_lem (t ∷ ts) info h =
      let rest = updates_lem ts (update_execution_time_data d t info) (omega arith) in
      (
        ground (arith, rest.0, least-min t info.min_thread_execution_time ts),
        ground (arith, rest.1, greatest-max t info.max_thread_execution_time ts),
        rest.2 ∙ omega arith,
        rest.3,
        rest.4,
        rest.5,
      )

  -- Laws of IEEE arithmetic on numbers, which hold without rounding.
  pub record ExactLaws : Type 0 where
    pub sub_zero : (a : d.F) → d.sub a (d.from_u64 0) ≡ a
    pub sub_self : (a : d.F) → d.sub a a ≡ d.from_u64 0
    pub zero_add : (a : d.F) → d.add (d.from_u64 0) a ≡ a
    pub add_zero : (a : d.F) → d.add a (d.from_u64 0) ≡ a
    pub div_one : (a : d.F) → d.div a (d.add (d.from_u64 0) (d.from_u64 1)) ≡ a
    pub zero_div :
        (k : ℕ) → d.div (d.from_u64 0) (d.add (d.from_u64 k) (d.from_u64 1)) ≡ d.from_u64 0

  module _ (laws : ExactLaws) (t : ℕ) where
    settled :
        (n : ℕ) (info : ThreadInfo d)
        → info.mean_thread_execution_time ≡ d.from_u64 t
        → (updates (replicate n t) info).mean_thread_execution_time ≡ d.from_u64 t
    unfolding updates update_execution_time_data
    settled zero info e = e
    settled (suc n) info e = settled n (update_execution_time_data d t info) (
        rw (e, laws.sub_self (d.from_u64 t), laws.zero_div info.execution_time_counter)
          (laws.add_zero (d.from_u64 t)))

    -- From a counter and a mean of 0, when every request takes the same time, the mean is exactly that
    -- time from the first request on.
    pub updates_constant :
        (n : ℕ) (info : ThreadInfo d)
        → info.execution_time_counter ≡ 0
        → info.mean_thread_execution_time ≡ d.from_u64 0
        → (updates (replicate (suc n) t) info).mean_thread_execution_time ≡ d.from_u64 t
    unfolding updates update_execution_time_data
    updates_constant n info start zero_mean = settled n (update_execution_time_data d t info) (
        rw (start, zero_mean, laws.sub_zero (d.from_u64 t), laws.div_one (d.from_u64 t))
          (laws.zero_add (d.from_u64 t)))
