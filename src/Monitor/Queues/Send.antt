-- ===== src/Monitor/Queues/Send.antt =====
-- The result of a send, the queries and the reset of the maxima.
use taste_samv71_rtems_runti.Common.{
  ℕ, zero, suc, ◌+◌, ◌^◌, ◌≤◌, ◌<◌, ◌≡◌, ◌≢◌, refl, Bool, true, false, Option, none, some, List,
  arith, length, get_or, modify, take, length-modify, get_or-modify_self, get_or-modify_ne, ◌⊎◌,
  inl,
}
use native.Mathlib.Decide.{ℕ_discrete}
use taste_samv71_rtems_runti.Common.Integers.{pos, minus_one, to_int32-small}
use taste_samv71_rtems_runti.Rtems.{Rtems, StatusCode, successful, too_many, failed, is_successful}
use taste_samv71_rtems_runti.Monitor.Queues.{
  Queues, reset_maximum, get_queued_items_count, record_count, send_request,
}

module _ (os : Rtems) where
  -- What the caller of a send sees, by the status of RTEMS and the callback that is set.
  unfoldable pub outcome :
      StatusCode → Option (ℕ → ℕ → os.World → os.World) → ℕ → os.World → os.World × Bool
  outcome successful callback thread w = (w, true)
  outcome too_many none thread w = (w, false)
  outcome too_many (some f) thread w = (f thread 1 w, true)
  outcome (failed code) callback thread w = (w, false)

  -- A send returns true when the message is queued, and when the queue is full and an overflow
  -- callback is set, which is then called with one item; a full queue without callback and any other
  -- failure give false, and the callback is not called. The map and the callback are kept.
  pub send_request_lem :
      (request_data : List ℕ) (size queue thread : ℕ) (q : Queues os) (w : os.World)
      → let (status, w₁) = os.message_queue_send queue (take size request_data) w in
        let (q', w', b) = send_request os (λ x. x) request_data size queue thread (q, w) in
        ((w', b) ≡ outcome status q.overflow_callback thread w₁)
        × (q'.interface_to_queue_map ≡ q.interface_to_queue_map)
        × (q'.overflow_callback ≡ q.overflow_callback)
  unfolding send_request record_count outcome
  send_request_lem request_data size queue thread q w = ground arith

  -- The count of a queue is -1 without a queue or when RTEMS gives no count, and otherwise the count,
  -- if it is below 2^31.
  pub get_queued_items_count_lem :
      (interface : ℕ) (q : Queues os) (w : os.World)
      → let queue = get_or q.interface_to_queue_map interface 0 in
        let (status, count) = os.message_queue_get_number_pending queue w in
        (queue ≡ os.id_none → get_queued_items_count os interface q w ≡ minus_one)
        × (is_successful status ≡ false → get_queued_items_count os interface q w ≡ minus_one)
        × (queue ≢ os.id_none
            → is_successful status ≡ true
            → count < 2 ^ 31
            → get_queued_items_count os interface q w ≡ pos count)
  unfolding get_queued_items_count
  get_queued_items_count_lem interface q w =
      let count =
        (os.message_queue_get_number_pending (get_or q.interface_to_queue_map interface 0) w).1 in
      (
        λ e. ground arith,
        λ e. ground arith,
        λ some_queue ok small. ground (arith, to_int32-small count small),
      )

-- The loop sets the maximum of the threads i to i + n - 1 to 0 and keeps the others.
pub reset_maximum_lem :
    (n i j : ℕ) (items : List ℕ)
    → i + n ≤ length items
    → (i ≤ j → j < i + n → get_or (reset_maximum i n items) j 0 ≡ 0)
      × ((j < i) ⊎ (i + n ≤ j) → get_or (reset_maximum i n items) j 0 ≡ get_or items j 0)
unfolding reset_maximum
reset_maximum_lem zero i j items h = (λ p q. absurd (omega arith), λ out. refl)
reset_maximum_lem (suc n) i j items h =
    let once = modify items i (λ n. 0) in
    let rest =
      reset_maximum_lem n (i + 1) j once (omega (arith, h, length-modify items i (λ n. 0))) in
    elim (ℕ_discrete i j) [
      | yes same ↦ (
        λ p q. ground (
          arith,
          rest.1 (inl (omega arith)),
          get_or-modify_self items i (λ n. 0) 0 (omega arith),
        ),
        λ out. absurd (omega arith),
      )
      | no other ↦ (
        λ p q. rest.0 (omega arith) (omega arith),
        λ out. ground (arith, rest.1 (ground arith), get_or-modify_ne items i j (λ n. 0) 0 other),
      )
    ]
