-- ===== src/Monitor/Log/Preempted/Lost.antt =====
-- A call that is interrupted by another one within the increment of the counter.
use native.Mathlib.Nat.{mod-lt}
use taste_samv71_rtems_runti.Common.{
  ℕ, ◌+◌, ◌%◌, ◌^◌, ◌<◌, ◌≤◌, ◌≡◌, ◌≢◌, sym, ◌∙◌, ap, false, List, [], ◌∷◌, ◌++◌, length,
  length-modify, modify, get_or, get_or-modify_self, get_or-modify_ne, u64, arith,
}
use taste_samv71_rtems_runti.Monitor.Log.{
  EntryType, Log, store, handle_activation_log_cyclic_buffer,
}
use taste_samv71_rtems_runti.Monitor.Log.Slots.{blank, length-store, get_or-store_self}
use taste_samv71_rtems_runti.Monitor.Log.Preempted.{
  entered, counter_loaded, logged, Call, call, idle, Tasks, advance, run,
}
use taste_samv71_rtems_runti.Monitor.Log.Preempted.Alone.{
  steps_of, run-append, advances, run-alone, advances-six,
}

-- Task `first` is preempted when it has loaded the counter for the increment; task `second` makes a whole
-- call; then `first` stores.
abbrev pub late_preemption : ℕ → ℕ → ℕ → ℕ → List (ℕ × ℕ)
late_preemption first second now₀ now₁ =
    steps_of first (0 ∷ 0 ∷ 0 ∷ now₀ ∷ 0 ∷ [])
    ++ (steps_of second (0 ∷ 0 ∷ 0 ∷ now₁ ∷ 0 ∷ 0 ∷ []) ++ steps_of first (0 ∷ []))

module _ (size first second i₀ i₁ : ℕ) (k₀ k₁ : EntryType) (now₀ now₁ : ℕ) (s : Tasks) where
  abbrev counter : ℕ
  counter = s.log.activation_entry_counter

  abbrev uncounted : Log
  uncounted = record (store size i₀ k₀ now₀ s.log) { activation_entry_counter = counter }

  abbrev overwritten : Log
  overwritten = store size i₁ k₁ now₁ uncounted

  -- The log and the calls at the end
  abbrev pub recounted : Log
  recounted = record overwritten { activation_entry_counter = u64 (counter + 1) }

  abbrev loaded : List Call
  loaded = modify s.calls first (λ c. call i₀ k₀ (counter_loaded counter))

  abbrev returned_second : List Call
  returned_second = modify loaded second (λ c. call i₁ k₁ logged)

  abbrev pub all_returned : List Call
  all_returned = modify returned_second first (λ c. call i₀ k₀ logged)

  advances-loaded :
      s.log.is_frozen ≡ false
      → advances size (0 ∷ 0 ∷ 0 ∷ now₀ ∷ 0 ∷ []) (call i₀ k₀ entered) s.log
        ≡ (uncounted, call i₀ k₀ (counter_loaded counter))
  unfolding advances advance store
  advances-loaded open_log = simp open_log

  advances-second :
      s.log.is_frozen ≡ false
      → advances size (0 ∷ 0 ∷ 0 ∷ now₁ ∷ 0 ∷ 0 ∷ []) (call i₁ k₁ entered) uncounted
        ≡ (overwritten, call i₁ k₁ logged)
  unfolding handle_activation_log_cyclic_buffer store
  advances-second open_log = advances-six size 0 0 0 now₁ 0 0 i₁ k₁ uncounted ∙ simp open_log

  module _ (ne : first ≢ second) (in₀ : first < length s.calls) (in₁ : second < length s.calls)
      (e₀ : get_or s.calls first idle ≡ call i₀ k₀ entered)
      (e₁ : get_or s.calls second idle ≡ call i₁ k₁ entered)
      (open_log : s.log.is_frozen ≡ false) where
    run-loaded :
        run size (steps_of first (0 ∷ 0 ∷ 0 ∷ now₀ ∷ 0 ∷ [])) s
        ≡ record { log = uncounted; calls = loaded }
    run-loaded =
        run-alone size (0 ∷ 0 ∷ 0 ∷ now₀ ∷ 0 ∷ []) first (call i₀ k₀ entered) s in₀ e₀
        ∙ ap (λ (m : Log × Call). record { log = m.0; calls = modify s.calls first (λ d. m.1) })
            (advances-loaded open_log)

    run-second :
        run size
          (steps_of second (0 ∷ 0 ∷ 0 ∷ now₁ ∷ 0 ∷ 0 ∷ []))
          (record { log = uncounted; calls = loaded })
        ≡ record { log = overwritten; calls = returned_second }
    run-second =
        run-alone size (0 ∷ 0 ∷ 0 ∷ now₁ ∷ 0 ∷ 0 ∷ []) second (call i₁ k₁ entered)
          (record { log = uncounted; calls = loaded })
          (omega (arith, length-modify s.calls first (λ c. call i₀ k₀ (counter_loaded counter))))
          (get_or-modify_ne s.calls first second _ idle ne ∙ e₁)
        ∙ ap (λ (m : Log × Call). record { log = m.0; calls = modify loaded second (λ d. m.1) })
            (advances-second open_log)

    in_returned : first < length returned_second
    in_returned = omega (
      arith,
      length-modify loaded second (λ c. call i₁ k₁ logged),
      length-modify s.calls first (λ c. call i₀ k₀ (counter_loaded counter)),
    )

    run-stored :
        run size (steps_of first (0 ∷ [])) (record { log = overwritten; calls = returned_second })
        ≡ record { log = recounted; calls = all_returned }
    unfolding advances advance
    run-stored =
        run-alone size (0 ∷ []) first (call i₀ k₀ (counter_loaded counter))
          (record { log = overwritten; calls = returned_second }) in_returned
          (get_or-modify_ne loaded second first _ idle (λ e. ne (sym e))
            ∙ get_or-modify_self s.calls first _ idle in₀)

    run-recounted :
        run size (late_preemption first second now₀ now₁) s
        ≡ record { log = recounted; calls = all_returned }
    run-recounted =
        let later = steps_of second (0 ∷ 0 ∷ 0 ∷ now₁ ∷ 0 ∷ 0 ∷ []) ++ steps_of first (0 ∷ []) in
        run-append size (steps_of first (0 ∷ 0 ∷ 0 ∷ now₀ ∷ 0 ∷ [])) later s
        ∙ ap (run size later) run-loaded
        ∙ run-append size (steps_of second (0 ∷ 0 ∷ 0 ∷ now₁ ∷ 0 ∷ 0 ∷ []))
            (steps_of first (0 ∷ [])) (record { log = uncounted; calls = loaded })
        ∙ ap (run size (steps_of first (0 ∷ []))) run-second
        ∙ run-stored

  -- In a log that is not frozen, a task is preempted when it has loaded the counter to increment it, and
  -- another task logs an entry. Both calls return true, but the counter has advanced by one only, and
  -- the one slot that was written holds the second task's entry.
  pub run-recounted_log :
      first ≢ second
      → first < length s.calls
      → second < length s.calls
      → get_or s.calls first idle ≡ call i₀ k₀ entered
      → get_or s.calls second idle ≡ call i₁ k₁ entered
      → s.log.is_frozen ≡ false
      → 0 < size
      → size ≤ length s.log.activation_log_buffer
      → counter + 1 < 2 ^ 64
      → (run size (late_preemption first second now₀ now₁) s
          ≡ record { log = recounted; calls = all_returned })
        × (get_or all_returned first idle ≡ call i₀ k₀ logged)
        × (get_or all_returned second idle ≡ call i₁ k₁ logged)
        × (recounted.activation_entry_counter ≡ counter + 1)
        × (get_or recounted.activation_log_buffer (counter % size) blank
            ≡ record { interface = i₁; entry_type = k₁; timestamp = now₁ })
  run-recounted_log ne in₀ in₁ e₀ e₁ open_log some_room room fits =
      let inside : counter % size < length s.log.activation_log_buffer =
        omega (arith, mod-lt counter some_room) in
      let sized = length-store size i₀ k₀ now₀ s.log in
      (
        run-recounted ne in₀ in₁ e₀ e₁ open_log,
        get_or-modify_self returned_second first _ idle (in_returned ne in₀ in₁ e₀ e₁ open_log),
        get_or-modify_ne returned_second first second _ idle ne
            ∙ get_or-modify_self loaded second _ idle (
                omega
                  (arith, length-modify s.calls first (λ c. call i₀ k₀ (counter_loaded counter)))),
        omega arith,
        get_or-store_self size i₁ k₁ now₁ uncounted (omega arith),
      )
