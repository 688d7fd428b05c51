-- ===== src/Monitor/Queues/Maximum.antt =====
-- What the maximum of queued items records.
use taste_samv71_rtems_runti.Common.{
  ℕ, ◌<◌, ◌≡◌, ◌≢◌, sym, List, [], ◌∷◌, if◌then◌else◌, ◌==◌, ◌^◌, arith, length, get_or, take,
  modify, length-modify, get_or-modify_self, get_or-modify_ne, u32, max,
}
use native.Mathlib.Decide.{ℕ_discrete}
use taste_samv71_rtems_runti.Common.Integers.{ℤ, pos, negsuc, to_uint32}
use taste_samv71_rtems_runti.Rtems.{Rtems}
use taste_samv71_rtems_runti.Monitor.Queues.{
  Queues, get_queued_items_count, record_count, send_request,
}

pub record Request : Type 0 where
  pub request_data : List ℕ
  pub request_size : ℕ
  pub queue_id : ℕ
  pub thread_id : ℕ

-- A count below 0 is no item.
abbrev pub natural_part : ℤ → ℕ
natural_part (pos n) = u32 n
natural_part (negsuc n) = 0

module _ (os : Rtems) where
  -- The count that a send sees, behind the message.
  unfoldable pub seen : Request → Queues os × os.World → ℤ
  seen r (q, w) =
      get_queued_items_count os r.thread_id q
        (os.message_queue_send r.queue_id (take r.request_size r.request_data) w).1

  -- Sends, and before each of them whatever the rest of the system does.
  unfoldable pub sends :
      List (Request × (os.World → os.World)) → Queues os × os.World → Queues os × os.World
  sends [] s = s
  sends ((r, others) ∷ rest) (q, w) =
      let (q₁, w₁, b) =
        send_request os (λ x. x) r.request_data r.request_size r.queue_id r.thread_id
          (q, others w) in
      sends rest (q₁, w₁)

  -- The greatest count that the sends for one thread see.
  unfoldable pub peak : ℕ → List (Request × (os.World → os.World)) → Queues os × os.World → ℕ
  unfolding sends
  peak i [] s = 0
  peak i ((r, others) ∷ rest) (q, w) =
      let later = peak i rest (sends ((r, others) ∷ []) (q, w)) in
      if i == r.thread_id then max (natural_part (seen r (q, others w))) later else later

  record_count-length :
      (t : ℕ) (c : ℤ) (q : Queues os)
      → length (record_count os (λ x. x) t c q).maximum_queued_items ≡ length q.maximum_queued_items
  unfolding record_count
  record_count-length t c q =
      ground (arith, length-modify q.maximum_queued_items t (λ n. to_uint32 c))

  record_count_self :
      (t : ℕ) (c : ℤ) (q : Queues os)
      → t < length q.maximum_queued_items
      → get_or (record_count os (λ x. x) t c q).maximum_queued_items t 0
        ≡ max (get_or q.maximum_queued_items t 0) (natural_part c)
  unfolding record_count to_uint32
  record_count_self t (pos n) q h =
      ground (arith, get_or-modify_self q.maximum_queued_items t (λ _. u32 n) 0 h)
  record_count_self t (negsuc n) q h = ground arith

  record_count-ne :
      (t i : ℕ) (c : ℤ) (q : Queues os)
      → t ≢ i
      → get_or (record_count os (λ x. x) t c q).maximum_queued_items i 0
        ≡ get_or q.maximum_queued_items i 0
  unfolding record_count
  record_count-ne t i c q h =
      ground (arith, get_or-modify_ne q.maximum_queued_items t i (λ _. to_uint32 c) 0 h)

  -- One send leaves the queues as `record_count` does, whatever the result.
  send_request-queues :
      (r : Request) (q : Queues os) (w : os.World)
      → (send_request os (λ x. x) r.request_data r.request_size r.queue_id r.thread_id (q, w)).0
        ≡ record_count os (λ x. x) r.thread_id (seen r (q, w)) q
  unfolding send_request seen
  send_request-queues r q w = ground arith

  send_request-length :
      (r : Request) (q : Queues os) (w : os.World)
      → length
          (send_request os
            (λ x. x)
            r.request_data
            r.request_size
            r.queue_id
            r.thread_id
            (q, w)).0.maximum_queued_items
        ≡ length q.maximum_queued_items
  send_request-length r q w =
      rw (send_request-queues r q w) (record_count-length r.thread_id (seen r (q, w)) q)

  send_request-maximum :
      (r : Request) (q : Queues os) (w : os.World) (i : ℕ)
      → i < length q.maximum_queued_items
      → get_or
          (send_request os
            (λ x. x)
            r.request_data
            r.request_size
            r.queue_id
            r.thread_id
            (q, w)).0.maximum_queued_items
          i
          0
        ≡ (if i == r.thread_id
            then max (get_or q.maximum_queued_items i 0) (natural_part (seen r (q, w)))
            else get_or q.maximum_queued_items i 0)
  send_request-maximum r q w i h = rw (send_request-queues r q w) (elim (ℕ_discrete i r.thread_id) [
    | yes same ↦
        ground (arith, same, record_count_self r.thread_id (seen r (q, w)) q (rw (sym same) h))
    | no other ↦
        ground (arith, other, record_count-ne r.thread_id i (seen r (q, w)) q (λ e. other (sym e)))
  ])

  -- After any sends, one after another, with anything else that changes the queues between them and no
  -- other task within them, the maximum of a thread is the greatest of its old value and the counts that the sends for that thread saw; sends for
  -- other threads do not change it, and a count below 0 is not recorded.
  pub sends_maximum :
      (calls : List (Request × (os.World → os.World))) (q : Queues os) (w : os.World) (i : ℕ)
      → i < length q.maximum_queued_items
      → get_or (sends calls (q, w)).0.maximum_queued_items i 0
        ≡ max (get_or q.maximum_queued_items i 0) (peak i calls (q, w))
  unfolding sends peak
  sends_maximum [] q w i h = omega arith
  sends_maximum ((r, others) ∷ rest) q w i h =
      let (q₁, w₁, b) =
        send_request os (λ x. x) r.request_data r.request_size r.queue_id r.thread_id
          (q, others w) in
      ground (
        arith,
        sends_maximum rest q₁ w₁ i (omega (arith, h, send_request-length r q (others w))),
        send_request-maximum r q (others w) i h,
      )

  -- When a send that saw a count above the maximum is preempted between its comparison and its store,
  -- and another send for the same thread then records a greater count, the maximum is the smaller count
  -- of the two.
  pub record_count-preempted :
      (t c c' : ℕ) (q : Queues os)
      → t < length q.maximum_queued_items
      → get_or q.maximum_queued_items t 0 < c
      → c < c'
      → c' < 2 ^ 32
      → let other = record_count os (λ x. x) t (pos c') in
        (get_or (other q).maximum_queued_items t 0 ≡ c')
        × (get_or (record_count os other t (pos c) q).maximum_queued_items t 0 ≡ c)
  unfolding record_count to_uint32
  record_count-preempted t c c' q h above greater small =
      let once = modify q.maximum_queued_items t (λ n. u32 c') in
      ground (
        arith,
        get_or-modify_self q.maximum_queued_items t (λ n. u32 c') 0 h,
        get_or-modify_self once t (λ n. u32 c) 0
            (omega (arith, h, length-modify q.maximum_queued_items t (λ n. u32 c'))),
      )
