-- ===== src/Rtems/Recorder.antt =====
-- An operating system on which every call succeeds, and which records the calls, latest first: with
-- it the theorems are applied to concrete inputs.
use taste_samv71_rtems_runti.Common.{ℕ, ◌+◌, List, ◌∷◌, length}
use taste_samv71_rtems_runti.Rtems.{successful, Rtems}

pub data Call : Type 0 where
  create obtain release sleep : ℕ → Call
  timer : ℕ → Call
  fire_after : ℕ → ℕ → ℕ → Call
  send : ℕ → List ℕ → Call

abbrev pub recorder : Rtems
recorder = record {
  World = List Call;
  id_none = 0;
  semaphore_create = λ name w. (successful, length w + 1, create name ∷ w);
  semaphore_obtain = λ id w. (successful, obtain id ∷ w);
  semaphore_release = λ id w. (successful, release id ∷ w);
  task_wake_after = λ ticks w. (successful, sleep ticks ∷ w);
  timer_create = λ name w. (successful, length w + 1, timer name ∷ w);
  timer_fire_after = λ id delta index w. fire_after id delta index ∷ w;
  message_queue_send = λ id message w. (successful, send id message ∷ w);
  message_queue_get_number_pending = λ id w. (successful, length w);
  clock_get_ticks_since_boot = λ w. length w;
}
