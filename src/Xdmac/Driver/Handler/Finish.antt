-- ===== src/Xdmac/Driver/Handler/Finish.antt =====
-- The end of a transfer: what the interrupt handler does to the channel that the controller has stopped.
use taste_samv71_rtems_runti.Common.{
  ℕ, zero, suc, ◌+◌, ◌^◌, ◌<◌, ◌≤◌, ◌≡◌, ◌⊎◌, inl, inr, refl, Bool, true, false, not, some,
  if◌then◌else◌, ◌&&◌, ◌||◌, ltb, leb, ◌==◌, get_or, get_or-modify_self, length, bit_and, arith,
  Bool-cases,
}
use taste_samv71_rtems_runti.Xdmac.Registers.{chid, cis, cim}
use taste_samv71_rtems_runti.Xdmac.Registers.Device.{Device}
use taste_samv71_rtems_runti.Xdmac.Registers.Channel.{get_channel_it_mask, get_mask_channel_isr}
use taste_samv71_rtems_runti.Xdmac.Channels.{Channel, done, blank, is_free}
use taste_samv71_rtems_runti.Xdmac.Driver.{Board, Node, state_of, set_state}
use taste_samv71_rtems_runti.Xdmac.Driver.Handler.{
  cis_bis, cis_lis, cis_dis, cim_lim, has, continued, call_back, is_last_block, finish, execute,
  handle_channel, handle_from,
}

module _ (dev : Device) (board : Board) (invoke : ℕ → ℕ → ℕ → Node dev board → Node dev board) where
  -- The loop passes over channels without a pending interrupt.
  pub handle_from-skip :
      (interrupts running k rounds i : ℕ) (n : Node dev board) (exec : Bool)
      → i + k ≤ n.xdmad.num_channels
      → ((j : ℕ) → i ≤ j → j < i + k → has interrupts (2 ^ j) ≡ false)
      → handle_from dev board invoke interrupts running i (k + rounds) n exec
        ≡ handle_from dev board invoke interrupts running (i + k) rounds n exec
  unfolding handle_from handle_channel
  handle_from-skip interrupts running zero rounds i n exec room quiet =
      let start : i + 0 ≡ i = omega arith in
      let none_left : 0 + rounds ≡ rounds = omega arith in simp (start, none_left)
  handle_from-skip interrupts running (suc k) rounds i n exec room quiet =
      let here : has interrupts (2 ^ i) ≡ false = quiet i (omega arith) (omega arith) in
      let more : leb n.xdmad.num_channels i ≡ false = ground arith in
      let rest =
        handle_from-skip interrupts running k rounds (i + 1) n exec (omega arith)
          (λ j p q. quiet j (omega arith) (omega arith)) in
      let shift : i + suc k ≡ (i + 1) + k = omega arith in
      let one_more : suc k + rounds ≡ suc (k + rounds) = omega arith in
      rw shift (rw one_more (simp (here, more, rest)))

  pub handle_from-quiet :
      (interrupts running rounds i : ℕ) (n : Node dev board) (exec : Bool)
      → ((j : ℕ) → i ≤ j → has interrupts (2 ^ j) ≡ false)
      → handle_from dev board invoke interrupts running i rounds n exec ≡ some n
  unfolding handle_from handle_channel
  handle_from-quiet interrupts running zero i n exec quiet = refl
  handle_from-quiet interrupts running (suc rounds) i n exec quiet =
      let here : has interrupts (2 ^ i) ≡ false = quiet i (omega arith) in
      let rest =
        handle_from-quiet interrupts running rounds (i + 1) n exec (λ j p. quiet j (omega arith)) in
      elim (Bool-cases (leb n.xdmad.num_channels i)) [
        | inl past ↦ simp past
        | inr more ↦ simp (here, more, rest)
      ]

  module _ (i : ℕ) (n : Node dev board) where
    -- The unmasked status of the channel, and the controller after the two reads
    abbrev status : ℕ
    status =
        let (word, s₁) = dev.read (chid i cis) n.device in bit_and word (dev.read (chid i cim) s₁).0

    abbrev after_status : dev.State
    after_status = (dev.read (chid i cim) (dev.read (chid i cis) n.device).1).1

    abbrev after_finish : dev.State
    after_finish =
        if has status cis_bis then (dev.read (chid i cim) after_status).1 else after_status

    -- The channel reports the end of its linked list, of being disabled, or of the last block.
    abbrev pub Ends : Type 0
    Ends =
        (has status cis_lis ≡ true)
        ⊎ (has status cis_dis ≡ true)
        ⊎ ((has status cis_bis ≡ true)
            × (has (dev.read (chid i cim) after_status).0 cim_lim ≡ false))

    -- The node with the transfer done
    abbrev pub finished : Node dev board
    finished = record n {
      device = after_finish;
      world = board.disable_dcache n.world;
      xdmad = set_state i done n.xdmad;
    }

    abbrev is_last : Bool
    is_last = has status cis_bis && not (has (dev.read (chid i cim) after_status).0 cim_lim)

    is_last_block_lem :
        i < 24 → is_last_block dev board invoke i status after_status ≡ some (is_last, after_finish)
    unfolding is_last_block get_channel_it_mask
    is_last_block_lem inside =
        let known : ltb i 24 ≡ true = ground arith in
        elim (Bool-cases (has status cis_bis)) [
          | inl block ↦ simp (known, block)
          | inr no_block ↦ simp (known, no_block)
        ]

    ends_true : Ends → (is_last || has status cis_lis || has status cis_dis) ≡ true
    ends_true ends = elim (Bool-cases is_last) [
      | inl last ↦ simp last
      | inr more ↦ elim ends [
        | inl list ↦ simp (more, list)
        | inr (inl disabled) ↦ elim (Bool-cases (has status cis_lis)) [
          | inl list ↦ simp (more, list)
          | inr no_list ↦ simp (more, no_list, disabled)
        ]
        | inr (inr (block, last)) ↦ absurd (ground arith)
      ]
    ]

    finish-done : i < 24 → Ends → finish dev board invoke i n ≡ some (finished, true)
    unfolding finish get_mask_channel_isr
    finish-done inside ends =
        let known : ltb i 24 ≡ true = ground arith in
        simp (known, is_last_block_lem inside, ends_true ends)

    abbrev channel : Channel
    channel = get_or n.xdmad.channels i blank

    -- The system after the callback, if there is one
    abbrev pub called : Node dev board
    called =
        if channel.callback == 0 then finished else invoke channel.callback i channel.arg finished

    finished-channel :
        i < length n.xdmad.channels
        → get_or finished.xdmad.channels i blank ≡ record channel { state = done }
    finished-channel room = get_or-modify_self n.xdmad.channels i _ blank room

    execute-finished :
        i < length n.xdmad.channels → execute dev board invoke i true finished ≡ some called
    unfolding execute call_back
    execute-finished room = elim (Bool-cases (channel.callback == 0)) [
      | inl null ↦ simp (finished-channel room, null)
      | inr set ↦ simp (finished-channel room, set)
    ]

    pub handle_channel-ends :
        (interrupts running : ℕ) (exec : Bool)
        → i < 24
        → i < length n.xdmad.channels
        → has interrupts (2 ^ i) ≡ true
        → has running (2 ^ i) ≡ false
        → is_free (state_of n.xdmad i) ≡ false
        → Ends
        → handle_channel dev board invoke interrupts running i n exec ≡ some (continued called true)
    unfolding handle_channel
    handle_channel-ends interrupts running exec inside room pending stopped in_use ends =
        simp (pending, stopped, in_use, finish-done inside ends, execute-finished room)
