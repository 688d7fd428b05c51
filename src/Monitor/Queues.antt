-- ===== src/Monitor/Queues.antt =====
-- The queue statistics of src/Monitor/Monitor.c, and `ThreadsCommon_SendRequest` of
-- src/ThreadsCommon/ThreadsCommon.c, the one place that changes them after the start.
pub mod Maximum
pub mod Send
mod Tests
use taste_samv71_rtems_runti.Common.{
  ℕ, zero, suc, ◌+◌, Bool, true, false, Option, none, some, List, [], ◌∷◌, if◌then◌else◌, ◌&&◌, ltb,
  ◌==◌, modify, get_or, take, u32,
}
use taste_samv71_rtems_runti.Common.Integers.{
  ℤ, pos, negsuc, minus_one, to_int32, is_natural, to_uint32,
}
use taste_samv71_rtems_runti.Rtems.{Rtems, is_successful, is_too_many}

-- The loop of `Monitor_Init`, from thread i on.
unfoldable pub reset_maximum : ℕ → ℕ → List ℕ → List ℕ
reset_maximum i zero items = items
reset_maximum i (suc left) items = reset_maximum (i + 1) left (modify items i (λ n. 0))

module _ (os : Rtems) where
  -- `interface_to_queue_map`, `maximum_queued_items` and `Monitor_MessageQueueOverflowCallback`, which
  -- may be null. A callback takes the interface and a number of items.
  pub record Queues : Type 0 where
    pub interface_to_queue_map : List ℕ
    pub maximum_queued_items : List ℕ
    pub overflow_callback : Option (ℕ → ℕ → os.World → os.World)

  unfoldable pub set_message_queue_overflow_callback :
      Option (ℕ → ℕ → os.World → os.World) → Queues → Queues × Bool
  set_message_queue_overflow_callback callback q = (record q { overflow_callback = callback }, true)

  unfoldable pub get_queued_items_count : ℕ → Queues → os.World → ℤ
  get_queued_items_count interface q w =
      let queue = get_or q.interface_to_queue_map interface 0 in
      let (status, count) = os.message_queue_get_number_pending queue w in
      if queue == os.id_none
      then minus_one
      else if is_successful status
      then to_int32 count
      else minus_one

  unfoldable pub get_maximum_queued_items_count : ℕ → Queues → ℤ
  get_maximum_queued_items_count interface q = to_int32 (get_or q.maximum_queued_items interface 0)

  -- The update of the maximum; the second comparison is on `uint32_t`. No lock is held: `others` is what
  -- the tasks that run between the comparison and the store do.
  unfoldable pub record_count : (Queues → Queues) → ℕ → ℤ → Queues → Queues
  record_count others thread_id count q =
      let later = others q in
      if is_natural count && ltb (get_or q.maximum_queued_items thread_id 0) (to_uint32 count)
      then record later {
        maximum_queued_items = modify later.maximum_queued_items thread_id (λ n. to_uint32 count);
      }
      else later

  -- `Option`'s test against NULL
  abbrev pub is_set : Option (ℕ → ℕ → os.World → os.World) → Bool
  is_set none = false
  is_set (some f) = true

  abbrev pub call : Option (ℕ → ℕ → os.World → os.World) → ℕ → ℕ → os.World → os.World
  call none i n w = w
  call (some f) i n w = f i n w

  unfoldable pub send_request :
      (Queues → Queues) → List ℕ → ℕ → ℕ → ℕ → Queues × os.World → Queues × os.World × Bool
  unfolding record_count get_queued_items_count
  send_request others request_data request_size queue_id thread_id (q, w) =
      let (result, w₁) = os.message_queue_send queue_id (take request_size request_data) w in
      let queued_items_count = get_queued_items_count thread_id q w₁ in
      let q₁ = record_count others thread_id queued_items_count q in
      if is_too_many result && is_set q₁.overflow_callback
      then (q₁, call q₁.overflow_callback thread_id 1 w₁, true)
      else (q₁, w₁, is_successful result)
