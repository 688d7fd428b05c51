-- ===== src/Hal/Semaphores/Limits.antt =====
-- How many semaphores there can be, and when they can be used.
use taste_samv71_rtems_runti.Common.{
  ◌⊎◌, inl, inr, Bool-cases, ltb, ℕ, ◌+◌, ◌<◌, ◌≤◌, ◌≡◌, refl, true, false, arith, length, get_or,
  length-modify, get_or-modify_self, get_or-modify_ne,
}
use taste_samv71_rtems_runti.Rtems.{Rtems, is_successful}
use taste_samv71_rtems_runti.Hal.Semaphores.{
  Hal, rt_max_hal_semaphores, semaphore_create, semaphore_obtain, semaphore_release,
}

module _ (os : Rtems) where
  pub record IsValid (h : Hal os) : Type 0 where
    pub counted : h.created_semaphores_count ≤ rt_max_hal_semaphores
    pub room : length h.hal_semaphore_ids ≡ rt_max_hal_semaphores

  -- Creation keeps the count within the array, and the identifiers that were handed out before.
  pub semaphore_create-IsValid :
      (h : Hal os)
      → IsValid h
      → IsValid (semaphore_create os h).0
        × ((i : ℕ)
            → i < h.created_semaphores_count
            → get_or (semaphore_create os h).0.hal_semaphore_ids i 0
              ≡ get_or h.hal_semaphore_ids i 0)
  unfolding semaphore_create
  semaphore_create-IsValid h v =
      let id = (os.semaphore_create h.name h.world).1 in
      let count = h.created_semaphores_count in
      (
        ground (arith, length-modify h.hal_semaphore_ids count (λ _. id)),
        λ i p. ground (arith, get_or-modify_ne h.hal_semaphore_ids count i (λ _. id) 0),
      )

  -- Below the limit a semaphore that the system creates is counted, and its identifier is returned and
  -- stored in the next place; one that the system does not create is not counted, and 0 is returned.
  -- At the limit 0 is returned and nothing is called.
  pub semaphore_create_lem :
      (h : Hal os)
      → IsValid h
      → let (status, id, w) = os.semaphore_create h.name h.world in
        let (h', given) = semaphore_create os h in
        ((h.created_semaphores_count < rt_max_hal_semaphores)
          × (is_successful status ≡ true)
          × (given ≡ id)
          × (h'.created_semaphores_count ≡ h.created_semaphores_count + 1)
          × (get_or h'.hal_semaphore_ids h.created_semaphores_count 0 ≡ id))
        ⊎ (((h.created_semaphores_count < rt_max_hal_semaphores)
              × (is_successful status ≡ false)
              × (given ≡ 0)
              × (h'.created_semaphores_count ≡ h.created_semaphores_count))
            ⊎ ((rt_max_hal_semaphores ≤ h.created_semaphores_count) × (h' ≡ h) × (given ≡ 0)))
  unfolding semaphore_create
  semaphore_create_lem h v =
      let id = (os.semaphore_create h.name h.world).1 in
      elim (Bool-cases (ltb h.created_semaphores_count rt_max_hal_semaphores)) [
        | inr full ↦ inr (inr (ground arith, ground arith, ground arith))
        | inl room ↦
            let p : h.created_semaphores_count < rt_max_hal_semaphores = ground arith in
            elim (Bool-cases (is_successful (os.semaphore_create h.name h.world).0)) [
              | inl s ↦ inl (
                p,
                s,
                ground arith,
                ground arith,
                ground (
                  arith,
                  get_or-modify_self h.hal_semaphore_ids h.created_semaphores_count (λ _. id) 0,
                ),
              )
              | inr s ↦ inr (inl (p, s, ground arith, ground arith))
            ]
      ]

  -- As soon as all eight semaphores are created, no semaphore can be obtained or released: both calls
  -- return false for every identifier, and the system is not called.
  pub full_refuses :
      (h : Hal os) (id : ℕ)
      → h.created_semaphores_count ≡ rt_max_hal_semaphores
      → (semaphore_obtain os id h ≡ (h, false)) × (semaphore_release os id h ≡ (h, false))
  unfolding semaphore_obtain semaphore_release
  full_refuses h id e = rw e (refl, refl)
