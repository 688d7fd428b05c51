-- ===== src/ThreadsCommon/Cyclic/Create.antt =====
-- What the creation of a cyclic request does, on every branch.
use taste_samv71_rtems_runti.Common.{
  ◌⊎◌, inl, inr, Bool-cases, ltb, ℕ, ◌+◌, ◌/◌, ◌^◌, ◌≤◌, ◌<◌, ◌≡◌, ◌∙◌, refl, ap, Bool, true, false,
  Option, none, some, arith, length, get_or, modify, length-modify, get_or-modify_self,
  get_or-modify_ne, u32, sub_u32,
}
use taste_samv71_rtems_runti.Rtems.{Rtems, is_successful}
use taste_samv71_rtems_runti.ThreadsCommon.Cyclic.{
  CyclicRequestData, blank, Cyclic, clear_bytes, schedule_next_tick, new_request,
  create_cyclic_request, nanoseconds_in_millisecond, m_data_offset, empty_request_data_buffer_size,
  empty_request_size,
}

module _ (os : Rtems) (max_cyclic_interfaces : ℕ) where
  pub record IsValid (s : Cyclic os) : Type 0 where
    pub counted : s.cyclic_requests_count ≤ max_cyclic_interfaces
    pub room : length s.cyclic_request_data ≡ max_cyclic_interfaces
    pub small : max_cyclic_interfaces < 2 ^ 32

  module _ (to_ticks : ℕ → ℕ) (name interval_ns offset_ns queue size : ℕ) (s : Cyclic os)
      (v : IsValid s) where
    abbrev create : Option (Cyclic os × Bool)
    create =
        create_cyclic_request os max_cyclic_interfaces to_ticks name interval_ns offset_ns queue
          size s

    abbrev cleared : Cyclic os
    cleared = record s {
      empty_request = clear_bytes m_data_offset empty_request_data_buffer_size s.empty_request;
    }

    abbrev filled : Cyclic os
    filled =
        let (status, timer, w) = os.timer_create name s.world in
        record cleared {
          cyclic_request_data = modify s.cyclic_request_data s.cyclic_requests_count (λ d.
              new_request os max_cyclic_interfaces to_ticks timer interval_ns offset_ns queue size);
          world = w;
        }

    abbrev scheduled : Cyclic os
    scheduled = record (schedule_next_tick os s.cyclic_requests_count filled) {
      cyclic_requests_count = u32 (s.cyclic_requests_count + 1);
    }

    filled-length : length filled.cyclic_request_data ≡ length s.cyclic_request_data
    filled-length = length-modify s.cyclic_request_data s.cyclic_requests_count _

    filled-get_or :
        s.cyclic_requests_count < max_cyclic_interfaces
        → get_or filled.cyclic_request_data s.cyclic_requests_count blank
          ≡ new_request os max_cyclic_interfaces to_ticks
              (os.timer_create name s.world).1
              interval_ns
              offset_ns
              queue
              size
    filled-get_or p =
        get_or-modify_self s.cyclic_request_data s.cyclic_requests_count _ blank
          (omega (arith, v.room))

    abbrev ready : CyclicRequestData
    ready =
        let d =
          new_request os max_cyclic_interfaces to_ticks (os.timer_create name s.world).1 interval_ns
            offset_ns queue size in
        record d { next_wakeup_ticks = u32 (d.next_wakeup_ticks + d.interval_ticks) }

    scheduled-get_or :
        s.cyclic_requests_count < max_cyclic_interfaces
        → get_or scheduled.cyclic_request_data s.cyclic_requests_count blank ≡ ready
    unfolding schedule_next_tick
    scheduled-get_or p =
        get_or-modify_self filled.cyclic_request_data s.cyclic_requests_count _ blank
          (omega (arith, v.room, filled-length))
        ∙ ap {A = CyclicRequestData}
            (λ d. record d { next_wakeup_ticks = u32 (d.next_wakeup_ticks + d.interval_ticks) })
            (filled-get_or p)

    scheduled-length : length scheduled.cyclic_request_data ≡ length s.cyclic_request_data
    unfolding schedule_next_tick
    scheduled-length =
        length-modify filled.cyclic_request_data s.cyclic_requests_count _ ∙ filled-length

    scheduled-ne :
        (i : ℕ)
        → i < s.cyclic_requests_count
        → get_or scheduled.cyclic_request_data i blank ≡ get_or s.cyclic_request_data i blank
    unfolding schedule_next_tick
    scheduled-ne i p =
        get_or-modify_ne filled.cyclic_request_data s.cyclic_requests_count i _ blank
          (λ e. omega arith)
        ∙ get_or-modify_ne s.cyclic_request_data s.cyclic_requests_count i _ blank
            (λ e. omega arith)

    -- A creation keeps the count within the array, and the requests that were created before.
    pub create_cyclic_request-IsValid :
        (s' : Cyclic os) (b : Bool)
        → create ≡ some (s', b)
        → IsValid s'
          × ((i : ℕ)
              → i < s.cyclic_requests_count
              → get_or s'.cyclic_request_data i blank ≡ get_or s.cyclic_request_data i blank)
    unfolding create_cyclic_request schedule_next_tick
    create_cyclic_request-IsValid s' b e = (
      ground (arith, v.counted, v.room, v.small, scheduled-length),
      λ i p. ground (arith, scheduled-ne i p),
    )

    create_cyclic_request_branches :
        let (status, timer, w) = os.timer_create name s.world in
        let count = s.cyclic_requests_count in
        let interval = u32 (to_ticks (interval_ns / nanoseconds_in_millisecond)) in
        let first = u32 (u32 (to_ticks (offset_ns / nanoseconds_in_millisecond)) + interval) in
        (empty_request_size < size → create ≡ none)
        × (size ≤ empty_request_size
            → max_cyclic_interfaces ≤ count
            → (s' : Cyclic os) × (create ≡ some (s', false))
              × (s'.cyclic_requests_count ≡ count)
              × (s'.cyclic_request_data ≡ s.cyclic_request_data)
              × (s'.world ≡ s.world))
        × (size ≤ empty_request_size
            → count < max_cyclic_interfaces
            → is_successful status ≡ false
            → (s' : Cyclic os) × (create ≡ some (s', false))
              × (s'.cyclic_requests_count ≡ count)
              × (s'.cyclic_request_data ≡ s.cyclic_request_data)
              × (s'.world ≡ w))
        × (size ≤ empty_request_size
            → count < max_cyclic_interfaces
            → is_successful status ≡ true
            → (s' : Cyclic os) × (create ≡ some (s', true))
              × (s'.cyclic_requests_count ≡ count + 1)
              × (get_or s'.cyclic_request_data count blank ≡ record {
                timer_id = timer;
                next_wakeup_ticks = first;
                interval_ticks = interval;
                queue_id = queue;
                request_size = size;
              })
              × (s'.world
                  ≡ os.timer_fire_after timer
                      (sub_u32 first (os.clock_get_ticks_since_boot w))
                      count
                      w))
    unfolding create_cyclic_request schedule_next_tick new_request
    create_cyclic_request_branches = (
      λ large. ground arith,
      λ fits full. (cleared, ground arith, refl, refl, refl),
      λ fits free refused. (
        record cleared { world = (os.timer_create name s.world).2 },
        ground arith,
        refl,
        refl,
        refl,
      ),
      λ fits free created. (
        scheduled,
        ground arith,
        omega arith,
        scheduled-get_or free,
        ap
            (λ d.
              os.timer_fire_after d.timer_id
                (sub_u32 d.next_wakeup_ticks
                  (os.clock_get_ticks_since_boot (os.timer_create name s.world).2))
                s.cyclic_requests_count (os.timer_create name s.world).2)
            (scheduled-get_or free),
      ),
    )

    -- A request larger than the empty request fails an assertion. With a full array, or when RTEMS
    -- creates no timer, the result is false and no request changes; with a full array RTEMS is not
    -- called. Otherwise the request is counted, and its first wake-up is one interval after the offset,
    -- both in ticks.
    pub create_cyclic_request_lem :
        let (status, timer, w) = os.timer_create name s.world in
        let count = s.cyclic_requests_count in
        let interval = u32 (to_ticks (interval_ns / nanoseconds_in_millisecond)) in
        let first = u32 (u32 (to_ticks (offset_ns / nanoseconds_in_millisecond)) + interval) in
        ((empty_request_size < size) × (create ≡ none))
        ⊎ ((size ≤ empty_request_size)
            × (((max_cyclic_interfaces ≤ count)
                  × (s' : Cyclic os) × (create ≡ some (s', false))
                  × (s'.cyclic_requests_count ≡ count)
                  × (s'.cyclic_request_data ≡ s.cyclic_request_data)
                  × (s'.world ≡ s.world))
                ⊎ ((count < max_cyclic_interfaces)
                    × (((is_successful status ≡ false)
                          × (s' : Cyclic os) × (create ≡ some (s', false))
                          × (s'.cyclic_requests_count ≡ count)
                          × (s'.cyclic_request_data ≡ s.cyclic_request_data)
                          × (s'.world ≡ w))
                        ⊎ ((is_successful status ≡ true)
                            × (s' : Cyclic os) × (create ≡ some (s', true))
                            × (s'.cyclic_requests_count ≡ count + 1)
                            × (get_or s'.cyclic_request_data count blank ≡ record {
                              timer_id = timer;
                              next_wakeup_ticks = first;
                              interval_ticks = interval;
                              queue_id = queue;
                              request_size = size;
                            })
                            × (s'.world
                                ≡ os.timer_fire_after timer
                                    (sub_u32 first (os.clock_get_ticks_since_boot w))
                                    count
                                    w))))))
    create_cyclic_request_lem =
        let (large, full, refused, created) = create_cyclic_request_branches in
        elim (Bool-cases (ltb empty_request_size size)) [
          | inl over ↦ let p : empty_request_size < size = ground arith in inl (p, large p)
          | inr fits ↦
              let p : size ≤ empty_request_size = ground arith in
              inr (
                p,
                elim (Bool-cases (ltb s.cyclic_requests_count max_cyclic_interfaces)) [
                  | inr taken ↦
                      let q : max_cyclic_interfaces ≤ s.cyclic_requests_count = ground arith in
                      let (s', run, kept, requests, world) = full p q in
                      inl (q, s', run, kept, requests, world)
                  | inl left ↦
                      let q : s.cyclic_requests_count < max_cyclic_interfaces = ground arith in
                      inr (
                        q,
                        elim (Bool-cases (is_successful (os.timer_create name s.world).0)) [
                          | inr no_timer ↦
                              (let (s', run, kept, requests, world) = refused p q no_timer in
                                inl (no_timer, s', run, kept, requests, world))
                          | inl timer ↦
                              (let (s', run, counted, requests, world) = created p q timer in
                                inr (timer, s', run, counted, requests, world))
                        ],
                      )
                ],
              )
        ]
