-- ===== src/Hal/Semaphores/Tests.antt =====
-- The semaphores over a system that records its calls.
use taste_samv71_rtems_runti.Common.{
  ◌⊎◌, ℕ, ◌+◌, ◌≤◌, ◌<◌, ◌≡◌, refl, true, false, [], ◌∷◌, arith, get_or,
}
use taste_samv71_rtems_runti.Rtems.{is_successful}
use taste_samv71_rtems_runti.Rtems.Recorder.{recorder}
use taste_samv71_rtems_runti.Hal.Semaphores.{
  Hal, rt_max_hal_semaphores, semaphore_create, semaphore_obtain, semaphore_release,
}
use taste_samv71_rtems_runti.Hal.Semaphores.Limits.{
  IsValid, semaphore_create-IsValid, semaphore_create_lem, full_refuses,
}

abbrev two : Hal recorder
two = record {
  created_semaphores_count = 2;
  hal_semaphore_ids = 5 ∷ 6 ∷ 0 ∷ 0 ∷ 0 ∷ 0 ∷ 0 ∷ 0 ∷ [];
  name = 0x4800_0002;
  world = [];
}

abbrev full : Hal recorder
full = record {
  created_semaphores_count = 8;
  hal_semaphore_ids = 1 ∷ 2 ∷ 3 ∷ 4 ∷ 5 ∷ 6 ∷ 7 ∷ 8 ∷ [];
  name = 0x4800_0008;
  world = [];
}

two-IsValid : IsValid recorder two
two-IsValid = record { counted = omega arith; room = refl }

semaphore_create-IsValid_test :
    IsValid recorder (semaphore_create recorder two).0
    × ((i : ℕ)
        → i < 2
        → get_or (semaphore_create recorder two).0.hal_semaphore_ids i 0
          ≡ get_or two.hal_semaphore_ids i 0)
semaphore_create-IsValid_test = semaphore_create-IsValid recorder two two-IsValid

semaphore_create_lem_example :
    let (status, id, w) = recorder.semaphore_create two.name two.world in
    let (h', given) = semaphore_create recorder two in
    ((2 < rt_max_hal_semaphores)
      × (is_successful status ≡ true)
      × (given ≡ id)
      × (h'.created_semaphores_count ≡ 2 + 1)
      × (get_or h'.hal_semaphore_ids 2 0 ≡ id))
    ⊎ (((2 < rt_max_hal_semaphores)
          × (is_successful status ≡ false)
          × (given ≡ 0)
          × (h'.created_semaphores_count ≡ 2))
        ⊎ ((rt_max_hal_semaphores ≤ 2) × (h' ≡ two) × (given ≡ 0)))
semaphore_create_lem_example = semaphore_create_lem recorder two two-IsValid

full_refuses_test :
    (semaphore_obtain recorder 3 full ≡ (full, false))
    × (semaphore_release recorder 3 full ≡ (full, false))
full_refuses_test = full_refuses recorder full 3 refl
