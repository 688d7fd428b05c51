-- ===== src/ThreadsCommon/Cyclic.antt =====
-- Cyclic requests of src/ThreadsCommon/ThreadsCommon.c. The static variables of the file and the
-- state of RTEMS are one state. `RT_MAX_CYCLIC_INTERFACES`, the macro RTEMS_MILLISECONDS_TO_TICKS
-- and the name that the external generator gives are parameters.
pub mod Schedule
pub mod Create
mod Tests
use taste_samv71_rtems_runti.Common.{
  ℕ, zero, suc, ◌+◌, ◌*◌, ◌/◌, Bool, true, false, Option, none, some, List, [], ◌∷◌, if◌then◌else◌,
  leb, modify, get_or, take, u32, u64, sub_u32,
}
use taste_samv71_rtems_runti.Rtems.{Rtems, is_successful}

-- `struct CyclicRequestData`
pub record CyclicRequestData : Type 0 where
  pub timer_id : ℕ
  pub next_wakeup_ticks : ℕ
  pub interval_ticks : ℕ
  pub queue_id : ℕ
  pub request_size : ℕ

-- What an access outside the array is given; the accesses of the source are inside.
abbrev pub blank : CyclicRequestData
blank = record {
  timer_id = 0;
  next_wakeup_ticks = 0;
  interval_ticks = 0;
  queue_id = 0;
  request_size = 0;
}

abbrev pub nanoseconds_in_millisecond : ℕ
nanoseconds_in_millisecond = 1_000_000

-- `struct CyclicInterfaceEmptyRequestData` has 32 bytes: two words, and at offset 16, the alignment
-- of `m_data`, its 8 bytes.
abbrev pub empty_request_size : ℕ
empty_request_size = 32

abbrev pub m_data_offset : ℕ
m_data_offset = 16

abbrev pub empty_request_data_buffer_size : ℕ
empty_request_data_buffer_size = 8

-- `memset(p + from, 0, count)`
unfoldable pub clear_bytes : ℕ → ℕ → List ℕ → List ℕ
clear_bytes from zero bytes = bytes
clear_bytes from (suc count) bytes = clear_bytes (from + 1) count (modify bytes from (λ b. 0))

module _ (os : Rtems) where
  pub record Cyclic : Type 0 where
    pub cyclic_requests_count : ℕ
    pub cyclic_request_data : List CyclicRequestData
    pub empty_request : List ℕ
    pub world : os.World

  unfoldable pub schedule_next_tick : ℕ → Cyclic → Cyclic
  schedule_next_tick index s =
      let requests =
        modify s.cyclic_request_data index
          (λ d. record d { next_wakeup_ticks = u32 (d.next_wakeup_ticks + d.interval_ticks) }) in
      let d = get_or requests index blank in
      let delta = sub_u32 d.next_wakeup_ticks (os.clock_get_ticks_since_boot s.world) in
      record s {
        cyclic_request_data = requests;
        world = os.timer_fire_after d.timer_id delta index s.world;
      }

  -- The status of the send is not looked at.
  unfoldable pub timer_callback : ℕ → Cyclic → Cyclic
  unfolding schedule_next_tick
  timer_callback index s =
      let d = get_or s.cyclic_request_data index blank in
      let (status, w) =
        os.message_queue_send d.queue_id (take d.request_size s.empty_request) s.world in
      schedule_next_tick index (record s { world = w })

  module _ (max_cyclic_interfaces : ℕ) (milliseconds_to_ticks : ℕ → ℕ) where
    -- The entry that a successful creation fills in, before it is scheduled.
    unfoldable pub new_request : ℕ → ℕ → ℕ → ℕ → ℕ → CyclicRequestData
    new_request timer interval_ns dispatch_offset_ns queue_id request_size = record {
      timer_id = timer;
      next_wakeup_ticks =
          u32 (milliseconds_to_ticks (dispatch_offset_ns / nanoseconds_in_millisecond));
      interval_ticks = u32 (milliseconds_to_ticks (interval_ns / nanoseconds_in_millisecond));
      queue_id = queue_id;
      request_size = request_size;
    }

    -- `ThreadsCommon_CreateCyclicRequest`; `none` is the failed assertion. A creation that RTEMS
    -- refuses leaves the place of the timer's identifier as it is.
    unfoldable pub create_cyclic_request : ℕ → ℕ → ℕ → ℕ → ℕ → Cyclic → Option (Cyclic × Bool)
    unfolding schedule_next_tick
    create_cyclic_request name interval_ns dispatch_offset_ns queue_id request_size s =
        let count = s.cyclic_requests_count in
        let cleared = record s {
          empty_request = clear_bytes m_data_offset empty_request_data_buffer_size s.empty_request;
        } in
        let (status, timer, w) = os.timer_create name s.world in
        let filled = record cleared {
          cyclic_request_data =
              modify s.cyclic_request_data count
                (λ d. new_request timer interval_ns dispatch_offset_ns queue_id request_size);
          world = w;
        } in
        let scheduled = schedule_next_tick count filled in
        if leb request_size empty_request_size
        then if leb max_cyclic_interfaces count
          then some (cleared, false)
          else if is_successful status
          then some (record scheduled { cyclic_requests_count = u32 (count + 1) }, true)
          else some (record cleared { world = w }, false)
        else none
