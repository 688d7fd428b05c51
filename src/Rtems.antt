-- ===== src/Rtems.antt =====
-- The calls of RTEMS that the runtime makes, as an interface: RTEMS is no part of the repository. A
-- call takes the state of the operating system and returns its status, what it writes through
-- pointers, and the new state.
pub mod Recorder
use taste_samv71_rtems_runti.Common.{ℕ, Bool, true, false, List}

-- `rtems_status_code`, as far as the source tells codes apart
pub data StatusCode : Type 0 where
  successful too_many : StatusCode
  failed : ℕ → StatusCode

abbrev pub is_successful : StatusCode → Bool
is_successful successful = true
is_successful too_many = false
is_successful (failed code) = false

abbrev pub is_too_many : StatusCode → Bool
is_too_many too_many = true
is_too_many successful = false
is_too_many (failed code) = false

pub record Rtems : Type 1 where
  pub World : Type 0
  pub id_none : ℕ
  pub semaphore_create : ℕ → World → StatusCode × ℕ × World
  pub semaphore_obtain : ℕ → World → StatusCode × World
  pub semaphore_release : ℕ → World → StatusCode × World
  pub task_wake_after : ℕ → World → StatusCode × World
  pub timer_create : ℕ → World → StatusCode × ℕ × World
  pub timer_fire_after : ℕ → ℕ → ℕ → World → World
  pub message_queue_send : ℕ → List ℕ → World → StatusCode × World
  pub message_queue_get_number_pending : ℕ → World → StatusCode × ℕ
  pub clock_get_ticks_since_boot : World → ℕ
