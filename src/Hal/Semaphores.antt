-- ===== src/Hal/Semaphores.antt =====
-- The semaphores of src/Hal/Hal.c. Identifiers are kept as the bit patterns of `rtems_id`.
pub mod Limits
mod Tests
use taste_samv71_rtems_runti.Common.{
  ℕ, ◌+◌, Bool, true, false, List, if◌then◌else◌, leb, modify, u32,
}
use taste_samv71_rtems_runti.Rtems.{Rtems, is_successful}

abbrev pub rt_max_hal_semaphores : ℕ
rt_max_hal_semaphores = 8

module _ (os : Rtems) where
  -- `created_semaphores_count`, `hal_semaphore_ids`, the generator's static name, and the system
  pub record Hal : Type 0 where
    pub created_semaphores_count : ℕ
    pub hal_semaphore_ids : List ℕ
    pub name : ℕ
    pub world : os.World

  unfoldable pub generate_new_hal_semaphore_name : Hal → ℕ × Hal
  generate_new_hal_semaphore_name h = (h.name, record h { name = u32 (h.name + 1) })

  unfoldable pub semaphore_create : Hal → Hal × ℕ
  unfolding generate_new_hal_semaphore_name
  semaphore_create h =
      let (name, named) = generate_new_hal_semaphore_name h in
      let (status, id, w) = os.semaphore_create name named.world in
      let stored = record named {
        hal_semaphore_ids = modify named.hal_semaphore_ids named.created_semaphores_count (λ _. id);
        world = w;
      } in
      if leb rt_max_hal_semaphores h.created_semaphores_count
      then (h, 0)
      else if is_successful status
      then (record stored { created_semaphores_count = u32 (h.created_semaphores_count + 1) }, id)
      else (stored, 0)

  unfoldable pub semaphore_obtain : ℕ → Hal → Hal × Bool
  semaphore_obtain id h =
      let (status, w) = os.semaphore_obtain id h.world in
      if leb rt_max_hal_semaphores h.created_semaphores_count
      then (h, false)
      else (record h { world = w }, is_successful status)

  unfoldable pub semaphore_release : ℕ → Hal → Hal × Bool
  semaphore_release id h =
      let (status, w) = os.semaphore_release id h.world in
      if leb rt_max_hal_semaphores h.created_semaphores_count
      then (h, false)
      else (record h { world = w }, is_successful status)
