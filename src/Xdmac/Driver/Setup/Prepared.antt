-- ===== src/Xdmac/Driver/Setup/Prepared.antt =====
-- What `XDMAD_PrepareChannel` leaves in the registers of the channel.
use taste_samv71_rtems_runti.Common.{
  ℕ, ◌<◌, ◌≤◌, ◌≡◌, ◌≢◌, ◌⊎◌, inl, inr, refl, ◌∙◌, ap, Bool-cases, true, some, none, [], ◌∷◌,
  if◌then◌else◌, lt→ltb, leb, arith, u8,
}
use taste_samv71_rtems_runti.Xdmac.Registers.{
  global, gid, gd, chid, ChannelRegister, cid, cim, cis, csa, cda, cnda, cndc, cbc, cc,
}
use taste_samv71_rtems_runti.Xdmac.Registers.Device.{Device, is_parameter, writable, cut}
use taste_samv71_rtems_runti.Xdmac.Registers.Device.Writes.{
  Writes, write_all, write_all-value, write_all-mask, write_all-other, last_write,
}
use taste_samv71_rtems_runti.Xdmac.Registers.Layout.{channel_index}
use taste_samv71_rtems_runti.Xdmac.Registers.Global.{channel_bit, disable_git, disable_channel}
use taste_samv71_rtems_runti.Xdmac.Registers.Channel.{
  get_channel_isr, disable_channel_it, set_source_addr, set_destination_addr, set_block_control,
  set_channel_config, set_descriptor_addr, set_descriptor_control,
}
use taste_samv71_rtems_runti.Xdmac.Channels.{
  State, free, allocated, start, in_xfr, done, halted, ok, busy, error,
}
use taste_samv71_rtems_runti.Xdmac.Driver.{Board, Node, state_of}
use taste_samv71_rtems_runti.Xdmac.Driver.Setup.{refuse_prepare, prepare_registers, prepare_channel}

-- What the state of a channel means for its preparation
refuse_prepare_cases :
    (s : State)
    → ((s ≡ free) × (refuse_prepare s ≡ some error))
      ⊎ (((s ≡ start) ⊎ (s ≡ in_xfr)) × (refuse_prepare s ≡ some busy))
      ⊎ (((s ≡ allocated) ⊎ (s ≡ done) ⊎ (s ≡ halted)) × (refuse_prepare s ≡ none))
refuse_prepare_cases free = inl (refl, refl)
refuse_prepare_cases start = inr (inl (inl refl, refl))
refuse_prepare_cases in_xfr = inr (inl (inr refl, refl))
refuse_prepare_cases allocated = inr (inr (inl refl, refl))
refuse_prepare_cases done = inr (inr (inr (inl refl), refl))
refuse_prepare_cases halted = inr (inr (inr (inr refl), refl))

-- The writes to parameters, the latest first
abbrev reset_writes : Writes
reset_writes = (cndc, 0) ∷ (cnda, 0) ∷ (cc, 0x20) ∷ (cbc, 0) ∷ (cda, 0) ∷ (csa, 0) ∷ []

-- What a parameter register holds afterwards, if it held `old`
unfoldable pub prepared : ChannelRegister → ℕ → ℕ
prepared csa old = 0
prepared cda old = 0
prepared cbc old = 0
prepared cc old = 0x20
prepared cnda old = 0
prepared cndc old = 0
prepared _ old = old

last_write-prepared :
    (q : ChannelRegister) (old : ℕ)
    → is_parameter q ≡ true
    → last_write q reset_writes old ≡ prepared q old
unfolding last_write prepared channel_index cut writable
last_write-prepared q old h = ground arith

module _ (dev : Device) (i : ℕ) (s : dev.State) where
  -- The status is read, the interrupts are disabled in both places, and the channel is disabled.
  abbrev quiet : dev.State
  quiet =
      let s₁ = (dev.read (chid i cis) s).1 in
      let s₂ = dev.write (global gid) (channel_bit i) s₁ in
      let s₃ = dev.write (chid i cid) 0xff s₂ in dev.write (global gd) (channel_bit i) s₃

  abbrev pub prepared_state : dev.State
  prepared_state = write_all dev i reset_writes quiet

  quiet-parameter :
      (j : ℕ) (q : ChannelRegister)
      → is_parameter q ≡ true
      → dev.value (chid j q) quiet ≡ dev.value (chid j q) s
  quiet-parameter j q h =
      let s₁ = (dev.read (chid i cis) s).1 in
      let s₂ = dev.write (global gid) (channel_bit i) s₁ in
      let s₃ = dev.write (chid i cid) 0xff s₂ in
      dev.write_keeps (global gd) j q (channel_bit i) s₃ h (λ e. ground arith) (λ e. ground arith)
      ∙ dev.write_keeps (chid i cid) j q 0xff s₂ h (λ e. ground arith) (λ e. ground arith)
      ∙ dev.write_keeps (global gid) j q (channel_bit i) s₁ h (λ e. ground arith)
          (λ e. ground arith)
      ∙ dev.read_keeps (chid i cis) j q s h

  quiet-mask : dev.value (chid i cim) quiet ≡ 0
  quiet-mask =
      let s₂ = dev.write (global gid) (channel_bit i) (dev.read (chid i cis) s).1 in
      dev.write_keeps_mask (global gd) i (channel_bit i) (dev.write (chid i cid) 0xff s₂)
        (λ e. ground arith) (λ e. ground arith) (λ e. ground arith)
      ∙ dev.mask_clear i s₂

  prepare_registers_lem :
      (board : Board) → i < 24 → prepare_registers dev board i s ≡ some prepared_state
  unfolding prepare_registers write_all get_channel_isr disable_git disable_channel_it
      disable_channel set_source_addr set_destination_addr set_block_control set_channel_config
      set_descriptor_addr set_descriptor_control
  prepare_registers_lem board inside = simp (lt→ltb i 24 inside)

module _ (dev : Device) (board : Board) (channel : ℕ) (n : Node dev board) where
  abbrev i : ℕ
  i = u8 channel

  abbrev pub prepared_node : Node dev board
  prepared_node = record n {
    device = prepared_state dev i n.device;
    world =
        if board.is_peripheral_clk_enabled n.world
        then n.world
        else board.enable_peripheral_clk n.world;
  }

  -- On a board whose clock runs once it is enabled, with at most 24 channels, the preparation of a
  -- channel has one of four ends. A channel that does not exist or is free is an error, and one that is
  -- started or in transfer is busy; these change nothing. A channel that is allocated, done or halted is
  -- prepared: the instance is kept, the clock runs, the channel's addresses, block length, descriptor
  -- and descriptor control are 0, its configuration is 0x20, its other parameter registers are kept,
  -- its interrupts are all masked, and each parameter register of any other channel is kept.
  pub prepare_channel_lem :
      (q : ChannelRegister) (j : ℕ)
      → ((w : board.World) → board.is_peripheral_clk_enabled (board.enable_peripheral_clk w) ≡ true)
      → is_parameter q ≡ true
      → i ≢ j
      → n.xdmad.num_channels ≤ 24
      → ((n.xdmad.num_channels ≤ i) × (prepare_channel dev board channel n ≡ some (n, error)))
        ⊎ ((i < n.xdmad.num_channels)
            × (state_of n.xdmad i ≡ free)
            × (prepare_channel dev board channel n ≡ some (n, error)))
        ⊎ ((i < n.xdmad.num_channels)
            × ((state_of n.xdmad i ≡ start) ⊎ (state_of n.xdmad i ≡ in_xfr))
            × (prepare_channel dev board channel n ≡ some (n, busy)))
        ⊎ ((i < n.xdmad.num_channels)
            × ((state_of n.xdmad i ≡ allocated)
                ⊎ (state_of n.xdmad i ≡ done)
                ⊎ (state_of n.xdmad i ≡ halted))
            × (prepare_channel dev board channel n ≡ some (prepared_node, ok))
            × (board.is_peripheral_clk_enabled prepared_node.world ≡ true)
            × (dev.value (chid i q) prepared_node.device
                ≡ prepared q (dev.value (chid i q) n.device))
            × (dev.value (chid i cim) prepared_node.device ≡ 0)
            × (dev.value (chid j q) prepared_node.device ≡ dev.value (chid j q) n.device))
  unfolding prepare_channel
  prepare_channel_lem q j runs h ne few = elim (Bool-cases (leb n.xdmad.num_channels i)) [
    | inl missing ↦ inl (ground arith, simp missing)
    | inr exists ↦ elim (refuse_prepare_cases (state_of n.xdmad i)) [
      | inl (unused, refused) ↦ inr (inl (ground arith, unused, simp (exists, refused)))
      | inr (inl (running, refused)) ↦
          inr (inr (inl (ground arith, running, simp (exists, refused))))
      | inr (inr (ready, accepted)) ↦
          let inside : i < 24 = ground arith in
          let run = prepare_registers_lem dev i n.device board inside in
          let s = n.device in
          inr (
            inr (
              inr (
                ground arith,
                ready,
                simp (exists, accepted, run),
                elim (Bool-cases (board.is_peripheral_clk_enabled n.world)) [
                  | inl on ↦ rw on on
                  | inr off ↦ rw off (runs n.world)
                ],
                write_all-value dev i reset_writes q (quiet dev i s) h (omega arith)
                    ∙ last_write-prepared q _ h
                    ∙ ap (prepared q) (quiet-parameter dev i s i q h),
                write_all-mask dev i reset_writes i (quiet dev i s)
                      (refl, (refl, (refl, (refl, (refl, (refl, tt))))))
                    ∙ quiet-mask dev i s,
                write_all-other dev i reset_writes j q (quiet dev i s) h ne
                    ∙ quiet-parameter dev i s j q h,
              )))
    ]
  ]
