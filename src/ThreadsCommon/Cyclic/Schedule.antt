-- ===== src/ThreadsCommon/Cyclic/Schedule.antt =====
-- When the timers of cyclic requests are due.
use taste_samv71_rtems_runti.Common.{
  ◌⊎◌, inl, inr, Bool-cases, ltb, ℕ, ◌+◌, ◌-◌, ◌*◌, ◌^◌, ◌≤◌, ◌<◌, ◌≡◌, ◌≢◌, ◌∙◌, ap, sym, List, [],
  ◌∷◌, if◌then◌else◌, ◌==◌, arith, length, get_or, length-modify, get_or-modify_self,
  get_or-modify_ne, u32, sub_u32,
}
use native.Mathlib.Decide.{ℕ_discrete}
use taste_samv71_rtems_runti.Rtems.{Rtems}
use taste_samv71_rtems_runti.ThreadsCommon.Cyclic.{
  CyclicRequestData, blank, Cyclic, schedule_next_tick, timer_callback,
}

module _ (os : Rtems) where
  -- A run of callbacks: before each of them the rest of the system changes the state of RTEMS as it
  -- likes, so the callback runs at any time after it is due.
  pub run : List (ℕ × (os.World → os.World)) → Cyclic os → Cyclic os
  unfolding timer_callback
  run [] s = s
  run ((index, others) ∷ ticks) s =
      run ticks (timer_callback os index (record s { world = others s.world }))

  -- How often the callback of one request runs.
  pub fired : ℕ → List (ℕ × (os.World → os.World)) → ℕ
  fired i [] = 0
  fired i ((index, others) ∷ ticks) = if i == index then 1 + fired i ticks else fired i ticks

  pub advance : CyclicRequestData → ℕ → CyclicRequestData
  advance d n = record d { next_wakeup_ticks = u32 (d.next_wakeup_ticks + n * d.interval_ticks) }

  advance_zero : (d : CyclicRequestData) → d.next_wakeup_ticks < 2 ^ 32 → advance d 0 ≡ d
  unfolding advance
  advance_zero d small = ap (λ n. record d { next_wakeup_ticks = n }) (omega arith)

  advance-advance : (d : CyclicRequestData) (n : ℕ) → advance (advance d 1) n ≡ advance d (1 + n)
  unfolding advance
  advance-advance d n = ap (λ n. record d { next_wakeup_ticks = n }) (grind arith)

  timer_callback_self :
      (i : ℕ) (s : Cyclic os)
      → i < length s.cyclic_request_data
      → get_or (timer_callback os i s).cyclic_request_data i blank
        ≡ advance (get_or s.cyclic_request_data i blank) 1
  unfolding timer_callback schedule_next_tick advance
  timer_callback_self i s h =
      get_or-modify_self s.cyclic_request_data i _ blank h
      ∙ ap (λ n. record (get_or s.cyclic_request_data i blank) { next_wakeup_ticks = n })
          (omega arith)

  timer_callback-ne :
      (i j : ℕ) (s : Cyclic os)
      → i ≢ j
      → get_or (timer_callback os i s).cyclic_request_data j blank
        ≡ get_or s.cyclic_request_data j blank
  unfolding timer_callback schedule_next_tick
  timer_callback-ne i j s h = get_or-modify_ne s.cyclic_request_data i j _ blank h

  timer_callback-length :
      (i : ℕ) (s : Cyclic os)
      → length (timer_callback os i s).cyclic_request_data ≡ length s.cyclic_request_data
  unfolding timer_callback schedule_next_tick
  timer_callback-length i s = length-modify s.cyclic_request_data i _

  fired_self :
      (i index : ℕ) (others : os.World → os.World) (ticks : List (ℕ × (os.World → os.World)))
      → i ≡ index
      → fired i ((index, others) ∷ ticks) ≡ 1 + fired i ticks
  unfolding fired
  fired_self i index others ticks same = ground arith

  fired_ne :
      (i index : ℕ) (others : os.World → os.World) (ticks : List (ℕ × (os.World → os.World)))
      → i ≢ index
      → fired i ((index, others) ∷ ticks) ≡ fired i ticks
  unfolding fired
  fired_ne i index others ticks other = ground arith

  -- However late the callbacks run and however they are interleaved, the wake-up time of a request
  -- advances by exactly one interval per callback of that request, modulo 2^32, and nothing else of
  -- the request changes: the period does not drift.
  pub run_no_drift :
      (ticks : List (ℕ × (os.World → os.World))) (s : Cyclic os) (i : ℕ)
      → i < length s.cyclic_request_data
      → (get_or s.cyclic_request_data i blank).next_wakeup_ticks < 2 ^ 32
      → get_or (run ticks s).cyclic_request_data i blank
        ≡ advance (get_or s.cyclic_request_data i blank) (fired i ticks)
  unfolding run fired advance
  run_no_drift [] s i h small = sym (advance_zero (get_or s.cyclic_request_data i blank) small)
  run_no_drift ((index, others) ∷ ticks) s i h small =
      let s₁ = record s { world = others s.world } in
      let s₂ = timer_callback os index s₁ in
      let inside : i < length s₂.cyclic_request_data =
        omega (arith, h, timer_callback-length index s₁) in
      elim (ℕ_discrete i index) [
        | yes same ↦
            let step : get_or s₂.cyclic_request_data i blank
                ≡ advance (get_or s.cyclic_request_data i blank) 1 =
              rw (sym same) (timer_callback_self i s₁ h) in
            run_no_drift ticks s₂ i inside (rw (step) (omega arith))
            ∙ ap (λ d. advance d (fired i ticks)) step
            ∙ advance-advance (get_or s.cyclic_request_data i blank) (fired i ticks)
            ∙ ap (advance (get_or s.cyclic_request_data i blank))
                (sym (fired_self i index others ticks same))
        | no other ↦
            let step : get_or s₂.cyclic_request_data i blank
                ≡ get_or s.cyclic_request_data i blank =
              timer_callback-ne index i s₁ (λ e. other (sym e)) in
            run_no_drift ticks s₂ i inside (rw (step) small)
            ∙ ap (λ d. advance d (fired i ticks)) step
            ∙ ap (advance (get_or s.cyclic_request_data i blank))
                (sym (fired_ne i index others ticks other))
      ]

module _ (os : Rtems) (i : ℕ) (s : Cyclic os) where
  abbrev pub now : ℕ
  now = os.clock_get_ticks_since_boot s.world

  abbrev pub due : ℕ
  due =
      (get_or s.cyclic_request_data i blank).next_wakeup_ticks
      + (get_or s.cyclic_request_data i blank).interval_ticks

  pub ArmedBy : ℕ → Type 0
  ArmedBy delta =
      (schedule_next_tick os i s).world
      ≡ os.timer_fire_after (get_or s.cyclic_request_data i blank).timer_id delta i s.world

  -- The timer is armed for the ticks that are left to the next wake-up, if there are any; if the
  -- wake-up has already passed it is armed for 2^32 less the ticks by which it is late.
  pub schedule_next_tick_lem :
      i < length s.cyclic_request_data
      → due < 2 ^ 32
      → now < 2 ^ 32
      → ((now ≤ due) × ArmedBy (due - now)) ⊎ ((due < now) × ArmedBy (2 ^ 32 - (now - due)))
  unfolding schedule_next_tick ArmedBy
  schedule_next_tick_lem h p q =
      let timer = (get_or s.cyclic_request_data i blank).timer_id in
      let armed : ArmedBy (sub_u32 (u32 due) now) =
        ap (λ d. os.timer_fire_after d.timer_id (sub_u32 d.next_wakeup_ticks now) i s.world)
          (get_or-modify_self s.cyclic_request_data i _ blank h) in
      elim (Bool-cases (ltb due now)) [
        | inl late ↦ inr (
          ground arith,
          armed ∙ ap (λ delta. os.timer_fire_after timer delta i s.world) (ground arith),
        )
        | inr early ↦ inl (
          ground arith,
          armed ∙ ap (λ delta. os.timer_fire_after timer delta i s.world) (ground arith),
        )
      ]
