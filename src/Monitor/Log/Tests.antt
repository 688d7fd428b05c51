-- ===== src/Monitor/Log/Tests.antt =====
-- The activation log on a buffer of three entries.
use taste_samv71_rtems_runti.Common.{
  ◌⊎◌, ℕ, ◌-◌, ◌%◌, ◌^◌, ◌≤◌, ◌≡◌, refl, true, false, List, [], ◌∷◌, arith, length, get_or, min,
  some,
}
use taste_samv71_rtems_runti.Monitor.Log.{
  EntryType, activation, deactivation, Entry, Log, Report, Op, activated, deactivated, freeze,
  unfreeze, store, step, run, buffer_size, freeze_interface_activation_logging,
  get_interface_activation_entry_log,
}
use taste_samv71_rtems_runti.Monitor.Log.Slots.{IsValid, blank, step-IsValid}
use taste_samv71_rtems_runti.Monitor.Log.Refine.{Journal, Holds, journal_run, run-Holds}
use taste_samv71_rtems_runti.Monitor.Log.Query.{report_lem, latest_index_after_turn, freeze_keeps}

abbrev memory : List Entry
memory = blank ∷ blank ∷ blank ∷ []

abbrev fresh : Log
fresh = record { is_frozen = true; activation_entry_counter = 0; activation_log_buffer = memory }

abbrev empty : Journal
empty = record { frozen = true; entries = [] }

fresh-IsValid : IsValid 3 fresh
fresh-IsValid = record { room = refl; live = λ e. ground arith; counted = omega arith }

fresh-Holds : Holds 3 fresh empty
fresh-Holds = record { same_frozen = refl; same_count = refl; kept = λ k p q. absurd (omega arith) }

abbrev entry : ℕ → EntryType → ℕ → Entry
entry i kind now = record { interface = i; entry_type = kind; timestamp = now }

-- 64 bytes between the linker's symbols hold four entries of 16 bytes.
buffer_size_example : buffer_size 0x2040_0000 0x2040_0040 16 ≡ 4
unfolding buffer_size
buffer_size_example = refl

abbrev two : List Op
two = activated 7 1 ∷ unfreeze ∷ activated 0 10 ∷ deactivated 0 20 ∷ []

abbrev three : List Op
three = unfreeze ∷ activated 0 10 ∷ deactivated 0 20 ∷ activated 1 30 ∷ []

abbrev after_two : Log
after_two = record {
  is_frozen = false;
  activation_entry_counter = 2;
  activation_log_buffer = entry 0 activation 10 ∷ entry 0 deactivation 20 ∷ blank ∷ [];
}

run-two : run 3 fresh two ≡ after_two
unfolding run step store
run-two = refl

run-Holds_example : Holds 3 (run 3 fresh two) (journal_run empty two)
run-Holds_example =
    run-Holds 3 two fresh empty (omega arith) fresh-IsValid fresh-Holds (omega arith)

after_three-Holds : Holds 3 (run 3 fresh three) (journal_run empty three)
after_three-Holds =
    run-Holds 3 three fresh empty (omega arith) fresh-IsValid fresh-Holds (omega arith)

step-IsValid_test : IsValid 3 (step 3 fresh unfreeze)
step-IsValid_test = step-IsValid 3 fresh unfreeze fresh-IsValid

report_lem_example :
    (r : Report) × (get_interface_activation_entry_log true 3 (run 3 fresh two) ≡ some r)
    × (r.activation_log ≡ (run 3 fresh two).activation_log_buffer)
    × (r.size_of_activation_log ≡ min (length (journal_run empty two).entries) 3)
    × (((run 3 fresh two).activation_entry_counter % 3 ≡ 0)
        ⊎ (get_or r.activation_log r.latest_activation_entry_index blank
            ≡ get_or (journal_run empty two).entries 0 blank))
report_lem_example =
    report_lem 3 (run 3 fresh two) (journal_run empty two) (omega arith) (omega arith)
      run-Holds_example

latest_index_after_turn_example :
    (r : Report) × (get_interface_activation_entry_log true 3 (run 3 fresh three) ≡ some r)
    × (r.latest_activation_entry_index ≡ 2 ^ 32 - 1)
    × (3 ≤ r.latest_activation_entry_index)
    × (get_or r.activation_log (3 - 1) blank ≡ get_or (journal_run empty three).entries 0 blank)
unfolding run step store
latest_index_after_turn_example =
    latest_index_after_turn 3 (run 3 fresh three) (journal_run empty three) (omega arith)
      (omega arith) after_three-Holds (omega arith) refl

freeze_keeps_test :
    let (frozen, done) = freeze_interface_activation_logging true 3 after_two in
    (done ≡ true)
    × (get_interface_activation_entry_log true 3 frozen
        ≡ get_interface_activation_entry_log true 3 after_two)
    × (run 3 frozen (activated 1 40 ∷ freeze ∷ []) ≡ frozen)
freeze_keeps_test = freeze_keeps 3 after_two (activated 1 40 ∷ freeze ∷ []) (omega arith) tt
