-- ===== src/BootHelper.antt =====
-- src/BootHelper/BootHelper.c: the reason of the last reset. The reset controller's driver is no part
-- of the repository; `other` stands for the types that it may report besides those the source names.
use taste_samv71_rtems_runti.Common.{ℕ, ◌≡◌, ◌⊎◌, arith}

-- `Rstc_ResetType`
pub data ResetType : Type 0 where
  powerup backup watchdog software user : ResetType
  other : ℕ → ResetType

-- `enum Reset_Reason`, by its values
pub data ResetReason : Type 0 where
  reason_unknown reason_powerup reason_backup reason_watchdog reason_software reason_user :
      ResetReason

unfoldable pub get_reset_reason : ResetType → ResetReason
get_reset_reason powerup = reason_powerup
get_reset_reason backup = reason_backup
get_reset_reason watchdog = reason_watchdog
get_reset_reason software = reason_software
get_reset_reason user = reason_user
get_reset_reason (other n) = reason_unknown

-- Reset types that the source names are told apart.
get_reset_reason_injective :
    (s t : ResetType)
    → get_reset_reason s ≡ get_reset_reason t
    → (s ≡ t) ⊎ (get_reset_reason s ≡ reason_unknown)
unfolding get_reset_reason
get_reset_reason_injective s t e = ground arith
