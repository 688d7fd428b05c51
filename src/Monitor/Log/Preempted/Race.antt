-- ===== src/Monitor/Log/Preempted/Race.antt =====
-- A call that is interrupted by another one before its last statement.
use native.Mathlib.Nat.{mod-lt, le_trans}
use taste_samv71_rtems_runti.Common.{
  ℕ, ◌+◌, ◌-◌, ◌%◌, ◌^◌, ◌<◌, ◌≤◌, ◌≡◌, ◌≢◌, refl, sym, ◌∙◌, ap, true, false, if◌then◌else◌, ◌==◌,
  ltb, u32, sub_u64, some, List, [], ◌∷◌, ◌++◌, length, length-modify, modify, get_or,
  get_or-modify_self, get_or-modify_ne, u64, arith,
}
use taste_samv71_rtems_runti.Monitor.Log.{
  EntryType, Log, Report, store, handle_activation_log_cyclic_buffer,
  get_interface_activation_entry_log,
}
use taste_samv71_rtems_runti.Monitor.Log.Slots.{
  blank, length-store, get_or-store_self, get_or-store_ne, mod-ne-mod,
}
use taste_samv71_rtems_runti.Monitor.Log.Query.{latest_behind}
use taste_samv71_rtems_runti.Monitor.Log.Preempted.{
  entered, time_stored, logged, Call, call, idle, Tasks, advance, run,
}
use taste_samv71_rtems_runti.Monitor.Log.Preempted.Alone.{
  steps_of, run-append, advances, run-alone, advances-four, advances-six,
}

-- Task `first` is preempted before it counts its entry; task `second` makes a whole call; then `first`
-- goes on. The fourth statement of each call takes the time.
abbrev pub preemption : ℕ → ℕ → ℕ → ℕ → List (ℕ × ℕ)
preemption first second now₀ now₁ =
    steps_of first (0 ∷ 0 ∷ 0 ∷ now₀ ∷ [])
    ++ (steps_of second (0 ∷ 0 ∷ 0 ∷ now₁ ∷ 0 ∷ 0 ∷ []) ++ steps_of first (0 ∷ 0 ∷ []))

module _ (size first second i₀ i₁ : ℕ) (k₀ k₁ : EntryType) (now₀ now₁ : ℕ) (s : Tasks) where
  abbrev counter : ℕ
  counter = s.log.activation_entry_counter

  -- The log when `first` is preempted, when `second` has returned, and at the end
  abbrev uncounted : Log
  uncounted = record (store size i₀ k₀ now₀ s.log) { activation_entry_counter = counter }

  abbrev overwritten : Log
  overwritten = store size i₁ k₁ now₁ uncounted

  abbrev pub raced : Log
  raced = record overwritten {
    activation_entry_counter = u64 (overwritten.activation_entry_counter + 1);
  }

  abbrev waiting : List Call
  waiting = modify s.calls first (λ c. call i₀ k₀ time_stored)

  abbrev returned_second : List Call
  returned_second = modify waiting second (λ c. call i₁ k₁ logged)

  abbrev pub both_returned : List Call
  both_returned = modify returned_second first (λ c. call i₀ k₀ logged)

  module _ (ne : first ≢ second) (in₀ : first < length s.calls) (in₁ : second < length s.calls)
      (e₀ : get_or s.calls first idle ≡ call i₀ k₀ entered)
      (e₁ : get_or s.calls second idle ≡ call i₁ k₁ entered)
      (open_log : s.log.is_frozen ≡ false) where
    run-first :
        run size (steps_of first (0 ∷ 0 ∷ 0 ∷ now₀ ∷ [])) s
        ≡ record { log = uncounted; calls = waiting }
    run-first =
        run-alone size (0 ∷ 0 ∷ 0 ∷ now₀ ∷ []) first (call i₀ k₀ entered) s in₀ e₀
        ∙ ap (λ (m : Log × Call). record { log = m.0; calls = modify s.calls first (λ d. m.1) })
            (advances-four size 0 0 0 now₀ i₀ k₀ s.log open_log)

    second-open :
        advances size (0 ∷ 0 ∷ 0 ∷ now₁ ∷ 0 ∷ 0 ∷ []) (call i₁ k₁ entered) uncounted
        ≡ (overwritten, call i₁ k₁ logged)
    unfolding handle_activation_log_cyclic_buffer store
    second-open = advances-six size 0 0 0 now₁ 0 0 i₁ k₁ uncounted ∙ simp open_log

    run-second :
        run size
          (steps_of second (0 ∷ 0 ∷ 0 ∷ now₁ ∷ 0 ∷ 0 ∷ []))
          (record { log = uncounted; calls = waiting })
        ≡ record { log = overwritten; calls = returned_second }
    run-second =
        run-alone size (0 ∷ 0 ∷ 0 ∷ now₁ ∷ 0 ∷ 0 ∷ []) second (call i₁ k₁ entered)
          (record { log = uncounted; calls = waiting })
          (omega (arith, length-modify s.calls first (λ c. call i₀ k₀ time_stored)))
          (get_or-modify_ne s.calls first second _ idle ne ∙ e₁)
        ∙ ap (λ (m : Log × Call). record { log = m.0; calls = modify waiting second (λ d. m.1) })
            second-open

    at_first : get_or returned_second first idle ≡ call i₀ k₀ time_stored
    at_first =
        get_or-modify_ne waiting second first _ idle (λ e. ne (sym e))
        ∙ get_or-modify_self s.calls first _ idle in₀

    in_returned : first < length returned_second
    in_returned = omega (
      arith,
      length-modify waiting second (λ c. call i₁ k₁ logged),
      length-modify s.calls first (λ c. call i₀ k₀ time_stored),
    )

    run-last :
        run size
          (steps_of first (0 ∷ 0 ∷ []))
          (record { log = overwritten; calls = returned_second })
        ≡ record { log = raced; calls = both_returned }
    unfolding advances advance
    run-last =
        run-alone size (0 ∷ 0 ∷ []) first (call i₀ k₀ time_stored)
          (record { log = overwritten; calls = returned_second }) in_returned at_first

    run-raced :
        run size (preemption first second now₀ now₁) s
        ≡ record { log = raced; calls = both_returned }
    run-raced =
        let later =
          steps_of second (0 ∷ 0 ∷ 0 ∷ now₁ ∷ 0 ∷ 0 ∷ []) ++ steps_of first (0 ∷ 0 ∷ []) in
        run-append size (steps_of first (0 ∷ 0 ∷ 0 ∷ now₀ ∷ [])) later s
        ∙ ap (run size later) run-first
        ∙ run-append size (steps_of second (0 ∷ 0 ∷ 0 ∷ now₁ ∷ 0 ∷ 0 ∷ []))
            (steps_of first (0 ∷ 0 ∷ [])) (record { log = uncounted; calls = waiting })
        ∙ ap (run size (steps_of first (0 ∷ 0 ∷ []))) run-second
        ∙ run-last

  abbrev latest : ℕ → ℕ
  latest c = if c == 0 then 0 else u32 (sub_u64 (c % size) 1)

  -- What a query reports afterwards
  abbrev reported : Report
  reported =
      let c = raced.activation_entry_counter in
      record {
        activation_log = raced.activation_log_buffer;
        latest_activation_entry_index = latest c;
        size_of_activation_log = if c == 0 then 0 else if ltb size c then u32 size else u32 c;
      }

  counter_raced : counter + 2 < 2 ^ 64 → raced.activation_entry_counter ≡ counter + 2
  unfolding store
  counter_raced small = omega arith

  -- In a log that is not frozen and has more than one slot, a task that has stored its entry is
  -- preempted before it counts it, and another task logs an entry. Both calls return true and the
  -- counter has advanced by two, but only one slot was written: it holds the second task's entry, and
  -- the first one is lost. Unless the counter is then a multiple of the size, the slot that a query
  -- reports as the newest entry is one that neither task has written.
  pub run-raced_report :
      first ≢ second
      → first < length s.calls
      → second < length s.calls
      → get_or s.calls first idle ≡ call i₀ k₀ entered
      → get_or s.calls second idle ≡ call i₁ k₁ entered
      → s.log.is_frozen ≡ false
      → 1 < size
      → size < 2 ^ 32
      → size ≤ length s.log.activation_log_buffer
      → counter + 2 < 2 ^ 64
      → (counter + 2) % size ≢ 0
      → (run size (preemption first second now₀ now₁) s
          ≡ record { log = raced; calls = both_returned })
        × (get_or both_returned first idle ≡ call i₀ k₀ logged)
        × (get_or both_returned second idle ≡ call i₁ k₁ logged)
        × (raced.activation_entry_counter ≡ counter + 2)
        × (get_or raced.activation_log_buffer (counter % size) blank
            ≡ record { interface = i₁; entry_type = k₁; timestamp = now₁ })
        × (r : Report) × (get_interface_activation_entry_log true size raced ≡ some r)
        × (r.latest_activation_entry_index ≡ (counter + 1) % size)
        × (get_or r.activation_log r.latest_activation_entry_index blank
            ≡ get_or s.log.activation_log_buffer ((counter + 1) % size) blank)
  unfolding get_interface_activation_entry_log
  run-raced_report ne in₀ in₁ e₀ e₁ open_log two small room fits turn =
      let count = counter_raced fits in
      let inside : counter % size < length s.log.activation_log_buffer =
        omega (arith, mod-lt counter (le_trans (omega arith) two)) in
      let sized = length-store size i₀ k₀ now₀ s.log in
      let newest = latest_behind size (counter + 2) (omega arith) small turn in
      let one_back : (counter + 2) - 1 ≡ counter + 1 = omega arith in
      let index : reported.latest_activation_entry_index ≡ (counter + 1) % size =
        ap latest count ∙ newest ∙ ap (λ k. k % size) one_back in
      let back : (counter + 1) - 1 ≡ counter = omega arith in
      let next : counter % size ≢ (counter + 1) % size =
        (λ e. mod-ne-mod size (counter + 1) 1 (omega arith) two (omega arith) (rw back (sym e))) in
      (
        run-raced ne in₀ in₁ e₀ e₁ open_log,
        get_or-modify_self returned_second first _ idle (in_returned ne in₀ in₁ e₀ e₁ open_log),
        get_or-modify_ne returned_second first second _ idle ne
            ∙ get_or-modify_self waiting second _ idle
                (omega (arith, length-modify s.calls first (λ c. call i₀ k₀ time_stored))),
        count,
        get_or-store_self size i₁ k₁ now₁ uncounted (omega arith),
        reported,
        refl,
        index,
        ap (λ k. get_or raced.activation_log_buffer k blank) index
            ∙ get_or-store_ne size i₁ k₁ now₁ uncounted ((counter + 1) % size) next
            ∙ get_or-store_ne size i₀ k₀ now₀ s.log ((counter + 1) % size) next,
      )
