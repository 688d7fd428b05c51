-- ===== src/Monitor/Log/Query.antt =====
-- What `Monitor_GetInterfaceActivationEntryLog` reports, and how freezing bears on it.
use native.Mathlib.Nat.{suc-mod, mod-lt, mod-eq_of_lt, mod_self, mod-le, zero-mod}
use native.Mathlib.Decide.{ℕ_discrete, dec_lt}
use taste_samv71_rtems_runti.Common.{
  ℕ, suc, zero, ◌+◌, ◌-◌, ◌%◌, ◌<◌, ◌^◌, ◌≤◌, ◌≡◌, ◌≢◌, refl, ◌∙◌, sym, ap, inl, inr, ◌⊎◌,
  if◌then◌else◌, ◌==◌, true, List, [], ◌∷◌, min, arith, length, get_or, some, u32, sub_u64,
}
use taste_samv71_rtems_runti.Monitor.Log.{
  EntryType, Log, Report, Op, activated, deactivated, freeze, unfreeze, clear,
  freeze_interface_activation_logging, get_interface_activation_entry_log, step, run,
}
use taste_samv71_rtems_runti.Monitor.Log.Slots.{blank}
use taste_samv71_rtems_runti.Monitor.Log.Refine.{Journal, Holds, handle_frozen, nonzero}

-- One step back from a remainder.
pred-mod :
    (n c : ℕ)
    → 0 < n
    → c ≢ 0
    → ((c % n ≢ 0) × ((c - 1) % n + 1 ≡ c % n)) ⊎ ((c % n ≡ 0) × ((c - 1) % n ≡ n - 1))
pred-mod n zero pos ne = absurd (ne refl)
pred-mod n (suc d) pos ne =
    let same : suc d - 1 ≡ d = omega arith in
    rw same (elim (dec_lt (suc (d % n)) n) [
      | yes below ↦ inl (
        omega (arith, suc-mod d n, mod-eq_of_lt below),
        omega (arith, suc-mod d n, mod-eq_of_lt below),
      )
      | no above ↦
          let top : suc (d % n) ≡ n = omega (arith, mod-lt d pos) in
          inr (suc-mod d n ∙ ap (λ k. k % n) top ∙ mod_self n, omega arith)
    ])

-- The reported index, as the code computes it.
pub latest_behind :
    (size c : ℕ)
    → 0 < size
    → size < 2 ^ 32
    → c % size ≢ 0
    → (if c == 0 then 0 else u32 (sub_u64 (c % size) 1)) ≡ (c - 1) % size
latest_behind size zero pos small ne = absurd (ne (zero-mod size))
latest_behind size (suc d) pos small ne = elim (pred-mod size (suc d) pos (omega arith)) [
  | inl (_, e) ↦ ground (arith, mod-lt (suc d) pos)
  | inr (e, _) ↦ absurd (ne e)
]

-- A report gives the buffer and the number of entries that it holds, the journal's length capped
-- at the buffer's size. Unless the counter is a multiple of the size, the reported index is that
-- of the newest entry.
pub report_lem :
    (size : ℕ) (log : Log) (j : Journal)
    → 0 < size
    → size < 2 ^ 32
    → Holds size log j
    → (r : Report) × (get_interface_activation_entry_log true size log ≡ some r)
      × (r.activation_log ≡ log.activation_log_buffer)
      × (r.size_of_activation_log ≡ min (length j.entries) size)
      × ((log.activation_entry_counter % size ≡ 0)
          ⊎ (get_or r.activation_log r.latest_activation_entry_index blank
              ≡ get_or j.entries 0 blank))
unfolding get_interface_activation_entry_log
report_lem size log j pos small h = (
  _,
  refl,
  refl,
  ground (arith, h.same_count),
  elim (ℕ_discrete (log.activation_entry_counter % size) 0) [
    | yes turned ↦ inl turned
    | no ne ↦ inr (
        rw (latest_behind size log.activation_entry_counter pos small ne)
          (h.kept 0 pos (omega (arith, mod-le log.activation_entry_counter size, h.same_count))))
  ],
)

-- After every full turn of the buffer the reported index of the newest entry is 2^32 - 1: the
-- code subtracts 1 from the remainder 0. The newest entry stands at index `size - 1`.
pub latest_index_after_turn :
    (size : ℕ) (log : Log) (j : Journal)
    → 0 < size
    → size < 2 ^ 32
    → Holds size log j
    → log.activation_entry_counter ≢ 0
    → log.activation_entry_counter % size ≡ 0
    → (r : Report) × (get_interface_activation_entry_log true size log ≡ some r)
      × (r.latest_activation_entry_index ≡ 2 ^ 32 - 1)
      × (size ≤ r.latest_activation_entry_index)
      × (get_or r.activation_log (size - 1) blank ≡ get_or j.entries 0 blank)
unfolding get_interface_activation_entry_log
latest_index_after_turn size log j pos small h ne e = (
  _,
  refl,
  ground arith,
  ground arith,
  elim (pred-mod size log.activation_entry_counter pos ne) [
    | inl (ne', _) ↦ absurd (ne' e)
    | inr (_, top) ↦
        ap (λ i. get_or log.activation_log_buffer i blank) (sym top)
        ∙ h.kept 0 (omega arith) (omega (arith, h.same_count))
  ],
)

-- No unfreezing and no clearing.
abbrev pub StaysFrozen : List Op → Type 0
StaysFrozen [] = Unit {0}
StaysFrozen (activated i now ∷ ops) = StaysFrozen ops
StaysFrozen (deactivated i now ∷ ops) = StaysFrozen ops
StaysFrozen (freeze ∷ ops) = StaysFrozen ops
StaysFrozen (unfreeze ∷ ops) = ⊥
StaysFrozen (clear ∷ ops) = ⊥

step_frozen :
    (size : ℕ) (log : Log) (op : Op)
    → log.is_frozen ≡ true
    → StaysFrozen (op ∷ [])
    → step size log op ≡ log
unfolding step
step_frozen size log (activated i now) e h = handle_frozen size i EntryType.activation now log e
step_frozen size log (deactivated i now) e h = handle_frozen size i EntryType.deactivation now log e
step_frozen size log freeze e h = ground arith
step_frozen size log unfreeze e h = absurd h
step_frozen size log clear e h = absurd h

run_frozen :
    (size : ℕ) (log : Log) (ops : List Op)
    → log.is_frozen ≡ true
    → StaysFrozen ops
    → run size log ops ≡ log
unfolding run
run_frozen size log [] e h = refl
run_frozen size log (activated i now ∷ ops) e h =
    rw (step_frozen size log (activated i now) e tt) (run_frozen size log ops e h)
run_frozen size log (deactivated i now ∷ ops) e h =
    rw (step_frozen size log (deactivated i now) e tt) (run_frozen size log ops e h)
run_frozen size log (freeze ∷ ops) e h =
    rw (step_frozen size log freeze e tt) (run_frozen size log ops e h)
run_frozen size log (unfreeze ∷ ops) e h = absurd h
run_frozen size log (clear ∷ ops) e h = absurd h

-- Freezing a log that has room succeeds, does not change what a query reports, and from then on
-- no call but unfreezing and clearing changes anything.
pub freeze_keeps :
    (size : ℕ) (log : Log) (ops : List Op)
    → 0 < size
    → StaysFrozen ops
    → let (frozen, done) = freeze_interface_activation_logging true size log in
      (done ≡ true)
      × (get_interface_activation_entry_log true size frozen
          ≡ get_interface_activation_entry_log true size log)
      × (run size frozen ops ≡ frozen)
unfolding freeze_interface_activation_logging get_interface_activation_entry_log
freeze_keeps size log ops pos h = rw (nonzero size pos) (refl, refl, run_frozen size _ ops refl h)
