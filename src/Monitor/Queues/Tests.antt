-- ===== src/Monitor/Queues/Tests.antt =====
-- Two threads; the recorder counts every call as a pending message.
use taste_samv71_rtems_runti.Common.{ℕ, ◌≡◌, refl, none, List, [], ◌∷◌, arith, get_or, max}
use taste_samv71_rtems_runti.Common.Integers.{pos, to_int32, to_uint32}
use taste_samv71_rtems_runti.Rtems.{successful}
use taste_samv71_rtems_runti.Rtems.Recorder.{recorder, Call, send, sleep}
use taste_samv71_rtems_runti.Monitor.Queues.{
  Queues, reset_maximum, get_queued_items_count, record_count, send_request,
}
use taste_samv71_rtems_runti.Monitor.Queues.Maximum.{
  Request, sends, peak, sends_maximum, record_count-preempted,
}
use taste_samv71_rtems_runti.Monitor.Queues.Send.{
  outcome, send_request_lem, get_queued_items_count_lem, reset_maximum_lem,
}

abbrev two : Queues recorder
two = record {
  interface_to_queue_map = 5 ∷ 0 ∷ [];
  maximum_queued_items = 1 ∷ 4 ∷ [];
  overflow_callback = none;
}

abbrev request : ℕ → Request
request thread = record {
  request_data = 1 ∷ 2 ∷ [];
  request_size = 2;
  queue_id = 5;
  thread_id = thread;
}

abbrev calls : List (Request × (List Call → List Call))
calls = (request 0, λ w. w) ∷ (request 1, λ w. w) ∷ (request 0, λ w. []) ∷ []

sends_maximum_example :
    get_or (sends recorder calls (two, [])).0.maximum_queued_items 0 0
    ≡ max (get_or two.maximum_queued_items 0 0) (peak recorder 0 calls (two, []))
sends_maximum_example = sends_maximum recorder calls two [] 0 (omega arith)

-- The first send sees one pending message, the second none as its interface has no queue.
sends-two :
    (sends recorder
      ((request 0, λ w. sleep 1 ∷ w) ∷ (request 1, λ w. w) ∷ [])
      (two, [])).0.maximum_queued_items
    ≡ 2 ∷ 4 ∷ []
unfolding sends send_request record_count get_queued_items_count to_int32 to_uint32
sends-two = refl

send_request_lem_test :
    let sent = send_request recorder (λ x. x) (1 ∷ 2 ∷ 3 ∷ []) 2 5 0 (two, []) in
    ((sent.1, sent.2) ≡ outcome recorder successful none 0 (send 5 (1 ∷ 2 ∷ []) ∷ []))
    × (sent.0.interface_to_queue_map ≡ 5 ∷ 0 ∷ [])
    × (sent.0.overflow_callback ≡ none)
send_request_lem_test = send_request_lem recorder (1 ∷ 2 ∷ 3 ∷ []) 2 5 0 two []

count_two : get_queued_items_count recorder 0 two (sleep 1 ∷ []) ≡ pos 1
count_two =
    (get_queued_items_count_lem recorder 0 two (sleep 1 ∷ [])).2 (ground arith) refl (omega arith)

reset_two : get_or (reset_maximum 0 2 (7 ∷ 8 ∷ 9 ∷ [])) 1 0 ≡ 0
reset_two = (reset_maximum_lem 2 0 1 (7 ∷ 8 ∷ 9 ∷ []) (omega arith)).0 (omega arith) (omega arith)

record_count-preempted_example :
    let other = record_count recorder (λ x. x) 0 (pos 7) in
    (get_or (other two).maximum_queued_items 0 0 ≡ 7)
    × (get_or (record_count recorder other 0 (pos 3) two).maximum_queued_items 0 0 ≡ 3)
record_count-preempted_example =
    record_count-preempted recorder 0 3 7 two (omega arith) (omega arith) (omega arith)
      (omega arith)
