-- ===== src/Monitor/Log/Slots.antt =====
-- The log's invariant, and the slot that one indication writes.
use taste_samv71_rtems_runti.Common.{
  ℕ, ◌-◌, ◌%◌, ◌<◌, ◌^◌, ◌≤◌, ◌≡◌, ◌≢◌, ◌∙◌, false, arith, length, get_or, modify, length-modify,
  get_or-modify_self, get_or-modify_ne,
}
use taste_samv71_rtems_runti.Monitor.Log.{
  EntryType, Entry, Log, store, step, Op, activated, deactivated, freeze, unfreeze, clear,
}

pub record IsValid (size : ℕ) (log : Log) : Type 0 where
  pub room : length log.activation_log_buffer ≡ size
  pub live : log.is_frozen ≡ false → 0 < size
  pub counted : log.activation_entry_counter < 2 ^ 64

abbrev pub blank : Entry
blank = record { interface = 0; entry_type = EntryType.activation; timestamp = 0 }

module _ (size i : ℕ) (kind : EntryType) (now : ℕ) (log : Log) where
  pub length-store :
      length (store size i kind now log).activation_log_buffer ≡ length log.activation_log_buffer
  unfolding store
  length-store = length-modify _ _ _ ∙ length-modify _ _ _ ∙ length-modify _ _ _

  pub get_or-store_self :
      log.activation_entry_counter % size < length log.activation_log_buffer
      → get_or
          (store size i kind now log).activation_log_buffer
          (log.activation_entry_counter % size)
          blank
        ≡ record { interface = i; entry_type = kind; timestamp = now }
  unfolding store
  get_or-store_self h =
      let buf = log.activation_log_buffer in
      let slot = log.activation_entry_counter % size in
      ground (
        arith,
        length-modify buf slot (λ e. record e { interface = i }),
        length-modify (modify buf slot (λ e. record e { interface = i })) slot
            (λ e. record e { entry_type = kind }),
        get_or-modify_self buf slot (λ e. record e { interface = i }) blank,
        get_or-modify_self (modify buf slot (λ e. record e { interface = i })) slot
            (λ e. record e { entry_type = kind }) blank,
        get_or-modify_self
            (modify (modify buf slot (λ e. record e { interface = i })) slot
              (λ e. record e { entry_type = kind }))
            slot (λ e. record e { timestamp = now }) blank,
      )

  pub get_or-store_ne :
      (j : ℕ)
      → log.activation_entry_counter % size ≢ j
      → get_or (store size i kind now log).activation_log_buffer j blank
        ≡ get_or log.activation_log_buffer j blank
  unfolding store
  get_or-store_ne j ne =
      get_or-modify_ne _ _ j _ blank ne
      ∙ get_or-modify_ne _ _ j _ blank ne
      ∙ get_or-modify_ne _ _ j _ blank ne

  pub store-IsValid :
      IsValid size log → log.is_frozen ≡ false → IsValid size (store size i kind now log)
  unfolding store
  store-IsValid v e = record { room = length-store ∙ v.room; live = v.live; counted = omega arith }

-- Two places fewer than `n` apart lie in different slots.
pub mod-ne-mod : (n c k : ℕ) → 0 < k → k < n → k ≤ c → c % n ≢ (c - k) % n
mod-ne-mod n c k h₁ h₂ h₃ e = grind arith

-- every call keeps the invariant
pub step-IsValid :
    (size : ℕ) (log : Log) (op : Op) → IsValid size log → IsValid size (step size log op)
unfolding step
step-IsValid size log (activated i now) v =
    ground (arith, store-IsValid size i EntryType.activation now log v)
step-IsValid size log (deactivated i now) v =
    ground (arith, store-IsValid size i EntryType.deactivation now log v)
step-IsValid size log freeze v = ground arith
step-IsValid size log unfreeze v = ground arith
step-IsValid size log clear v = ground arith
