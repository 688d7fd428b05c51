-- ===== src/Monitor/Log/Refine.antt =====
-- The cyclic buffer of src/Monitor/Monitor.c against an unbounded journal of indications.
use taste_samv71_rtems_runti.Common.{
  ℕ, suc, zero, ◌+◌, ◌-◌, ◌%◌, ◌<◌, ◌^◌, ◌≤◌, ◌≡◌, refl, ◌∙◌, Bool, true, false, List, [], ◌∷◌,
  arith, length, get_or, Bool-cases, inl, inr, ◌==◌, if◌then◌else◌,
}
use taste_samv71_rtems_runti.Monitor.Log.{
  EntryType, Entry, Log, store, handle_activation_log_cyclic_buffer, step, run, Op, activated,
  deactivated, freeze, unfreeze, clear,
}
use taste_samv71_rtems_runti.Monitor.Log.Slots.{
  IsValid, blank, get_or-store_self, get_or-store_ne, mod-ne-mod, step-IsValid,
}

-- Every indication since the last clear, newest first.
pub record Journal : Type 0 where
  pub frozen : Bool
  pub entries : List Entry

write : EntryType → ℕ → ℕ → Journal → Journal
write kind i now j = if j.frozen then j else record j {
  entries = record { interface = i; entry_type = kind; timestamp = now } ∷ j.entries;
}

pub journal_step : Journal → Op → Journal
unfolding write
journal_step j (activated i now) = write EntryType.activation i now j
journal_step j (deactivated i now) = write EntryType.deactivation i now j
journal_step j freeze = record j { frozen = true }
journal_step j unfreeze = record j { frozen = false }
journal_step j clear = record j { entries = [] }

pub journal_run : Journal → List Op → Journal
journal_run j [] = j
journal_run j (op ∷ ops) = journal_run (journal_step j op) ops

-- The log keeps the newest `size` entries of the journal, the k-th newest k + 1 slots behind the
-- counter.
pub record Holds (size : ℕ) (log : Log) (j : Journal) : Type 0 where
  pub same_frozen : log.is_frozen ≡ j.frozen
  pub same_count : log.activation_entry_counter ≡ length j.entries
  pub kept :
      (k : ℕ)
      → k < size
      → k < length j.entries
      → get_or log.activation_log_buffer ((log.activation_entry_counter - suc k) % size) blank
        ≡ get_or j.entries k blank

write_frozen :
    (kind : EntryType) (i now : ℕ) (j : Journal) → j.frozen ≡ true → write kind i now j ≡ j
unfolding write
write_frozen kind i now j e = ground arith

module _ (size i : ℕ) (kind : EntryType) (now : ℕ) (log : Log) where
  -- A frozen log refuses an indication and does not change.
  pub handle_frozen :
      log.is_frozen ≡ true → (handle_activation_log_cyclic_buffer true size i kind now log).0 ≡ log
  unfolding handle_activation_log_cyclic_buffer
  handle_frozen e = ground arith

  pub handle_live :
      log.is_frozen ≡ false
      → (handle_activation_log_cyclic_buffer true size i kind now log).0 ≡ store size i kind now log
  unfolding handle_activation_log_cyclic_buffer
  handle_live e = ground arith

pub nonzero : (size : ℕ) → 0 < size → (size == 0) ≡ false
nonzero size h = ground arith

module _ (size : ℕ) (pos : 0 < size) where
  -- One more entry: slot `c % size` now holds the newest, and the others keep their places.
  kept-store :
      (i : ℕ) (kind : EntryType) (now : ℕ) (log : Log) (es : List Entry)
      → IsValid size log
      → log.activation_entry_counter ≡ length es
      → ((k : ℕ)
          → k < size
          → k < length es
          → get_or log.activation_log_buffer ((log.activation_entry_counter - suc k) % size) blank
            ≡ get_or es k blank)
      → (k : ℕ) → k < size
      → k < suc (length es)
      → get_or
          (store size i kind now log).activation_log_buffer
          ((log.activation_entry_counter + 1 - suc k) % size)
          blank
        ≡ get_or (record { interface = i; entry_type = kind; timestamp = now } ∷ es) k blank
  kept-store i kind now log es v e old zero p q =
      let same : log.activation_entry_counter + 1 - 1 ≡ log.activation_entry_counter =
        omega arith in
      rw same (get_or-store_self size i kind now log (omega arith))
  kept-store i kind now log es v e old (suc k) p q =
      let same : log.activation_entry_counter + 1 - suc (suc k)
          ≡ log.activation_entry_counter - suc k =
        omega arith in
      rw same (
        get_or-store_ne size i kind now log ((log.activation_entry_counter - suc k) % size)
          (mod-ne-mod size log.activation_entry_counter (suc k) (omega arith) p (omega arith))
        ∙ old k (omega arith) (omega arith))

  store-Holds :
      (i : ℕ) (kind : EntryType) (now : ℕ) (log : Log) (j : Journal)
      → IsValid size log
      → Holds size log j
      → length j.entries + 1 < 2 ^ 64
      → j.frozen ≡ false
      → Holds size (store size i kind now log) (write kind i now j)
  unfolding write
  store-Holds i kind now log j v h small e = rw e (record {
    same_frozen = unfold store in h.same_frozen ∙ e;
    same_count = unfold store in omega arith;
    kept = λ k p q.
        let same : (store size i kind now log).activation_entry_counter
            ≡ log.activation_entry_counter + 1 =
          unfold store in omega arith in
        rw same (kept-store i kind now log j.entries v h.same_count h.kept k p q);
  })

  handle-Holds :
      (i : ℕ) (kind : EntryType) (now : ℕ) (log : Log) (j : Journal)
      → IsValid size log
      → Holds size log j
      → length j.entries + 1 < 2 ^ 64
      → Holds size
          (handle_activation_log_cyclic_buffer true size i kind now log).0
          (write kind i now j)
  handle-Holds i kind now log j v h small = elim (Bool-cases j.frozen) [
    | inl e ↦
        rw (handle_frozen size i kind now log (h.same_frozen ∙ e), write_frozen kind i now j e) h
    | inr e ↦
        rw (handle_live size i kind now log (h.same_frozen ∙ e))
          (store-Holds i kind now log j v h small e)
  ]

  step-Holds :
      (op : Op) (log : Log) (j : Journal)
      → IsValid size log
      → Holds size log j
      → length j.entries + 1 < 2 ^ 64
      → Holds size (step size log op) (journal_step j op)
  unfolding step journal_step
  step-Holds (activated i now) log j v h small =
      handle-Holds i EntryType.activation now log j v h small
  step-Holds (deactivated i now) log j v h small =
      handle-Holds i EntryType.deactivation now log j v h small
  step-Holds freeze log j v h small =
      rw (nonzero size pos, step)
        (record { same_frozen = refl; same_count = h.same_count; kept = h.kept })
  step-Holds unfreeze log j v h small =
      rw (nonzero size pos, step)
        (record { same_frozen = refl; same_count = h.same_count; kept = h.kept })
  step-Holds clear log j v h small =
      rw (nonzero size pos, step)
        (record {
          same_frozen = h.same_frozen;
          same_count = refl;
          kept = λ k p q. absurd (omega arith);
        })

length-journal_step :
    (j : Journal) (op : Op) → length (journal_step j op).entries ≤ length j.entries + 1
unfolding journal_step
length-journal_step j (activated i now) = ground arith
length-journal_step j _ = ground arith

-- Any sequence of calls on a log that has room keeps the buffer in step with the journal of the
-- same calls: same frozen flag, same number of entries, and in the slots behind the counter the
-- newest `size` entries of the journal, if fewer than 2^64 entries are made in all.
pub run-Holds :
    (size : ℕ) (ops : List Op) (log : Log) (j : Journal)
    → 0 < size
    → IsValid size log
    → Holds size log j
    → length j.entries + length ops < 2 ^ 64
    → Holds size (run size log ops) (journal_run j ops)
unfolding run journal_run
run-Holds size [] log j pos v h small = h
run-Holds size (op ∷ ops) log j pos v h small =
    run-Holds size ops (step size log op) (journal_step j op) pos (step-IsValid size log op v)
      (step-Holds size pos op log j v h (omega arith)) (omega (arith, length-journal_step j op))
