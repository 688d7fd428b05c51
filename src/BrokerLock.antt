-- ===== src/BrokerLock.antt =====
-- src/BrokerLock/BrokerLock.c: the lock of the message broker. A failed assertion is `none`.
use taste_samv71_rtems_runti.Common.{ℕ, Option, none, some, if◌then◌else◌}
use taste_samv71_rtems_runti.Rtems.{Rtems, is_successful}

module _ (os : Rtems) (broker_semaphore : ℕ) where
  unfoldable pub broker_acquire_lock : os.World → Option os.World
  broker_acquire_lock w =
      let (result, w') = os.semaphore_obtain broker_semaphore w in
      if is_successful result then some w' else none

  unfoldable pub broker_release_lock : os.World → os.World
  broker_release_lock w = (os.semaphore_release broker_semaphore w).1
