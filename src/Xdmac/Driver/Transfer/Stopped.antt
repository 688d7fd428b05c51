-- ===== src/Xdmac/Driver/Transfer/Stopped.antt =====
-- What `XDMAD_StopTransfer` does to a channel in any state.
use taste_samv71_rtems_runti.Common.{
  ℕ, ◌<◌, ◌≤◌, ◌≡◌, ◌≢◌, ◌∙◌, ap, true, false, some, ltb, leb, arith, length, get_or,
  get_or-modify_self, get_or-modify_ne, u8,
}
use taste_samv71_rtems_runti.Xdmac.Registers.{global, gd, gs, chid, ChannelRegister, cid, cim, cis}
use taste_samv71_rtems_runti.Xdmac.Registers.Device.{Device, is_parameter}
use taste_samv71_rtems_runti.Xdmac.Registers.Global.{
  channel_bit, disable_channel, get_global_ch_status,
}
use taste_samv71_rtems_runti.Xdmac.Registers.Channel.{get_channel_isr, disable_channel_it}
use taste_samv71_rtems_runti.Xdmac.Channels.{free, halted, blank, ok, free_channel}
use taste_samv71_rtems_runti.Xdmac.Driver.{Board, Node, state_of, set_state}
use taste_samv71_rtems_runti.Xdmac.Driver.Transfer.{stop_transfer}

module _ (dev : Device) (board : Board) (channel : ℕ) (n : Node dev board) where
  abbrev i : ℕ
  i = u8 channel

  abbrev disabled : dev.State
  disabled = dev.write (global gd) (channel_bit i) n.device

  abbrev masked : dev.State
  masked = dev.write (chid i cid) 0xff disabled

  abbrev cleared : dev.State
  cleared = (dev.read (chid i cis) masked).1

  abbrev pub stopped_node : Node dev board
  stopped_node = record n {
    xdmad = set_state i halted n.xdmad;
    device = (dev.read (global gs) cleared).1;
  }

  -- On a channel that exists the stop succeeds whatever the state of the channel, also when it is free:
  -- the channel is halted, all other channels are kept, its interrupts are all masked, and each
  -- parameter register is kept. A release then succeeds and makes the channel free.
  pub stop_transfer_lem :
      (q : ChannelRegister) (j c : ℕ)
      → is_parameter q ≡ true
      → i ≢ j
      → i < n.xdmad.num_channels
      → n.xdmad.num_channels ≤ 24
      → n.xdmad.num_channels ≤ length n.xdmad.channels
      → (stop_transfer dev board channel n ≡ some (stopped_node, ok))
        × (state_of stopped_node.xdmad i ≡ halted)
        × (get_or stopped_node.xdmad.channels j blank ≡ get_or n.xdmad.channels j blank)
        × (dev.value (chid i cim) stopped_node.device ≡ 0)
        × (dev.value (chid c q) stopped_node.device ≡ dev.value (chid c q) n.device)
        × (free_channel channel stopped_node.xdmad ≡ (set_state i free stopped_node.xdmad, ok))
  unfolding stop_transfer disable_channel disable_channel_it get_channel_isr get_global_ch_status
      free_channel
  stop_transfer_lem q j c h ne exists few room =
      let inside : ltb i 24 ≡ true = ground arith in
      let known : leb n.xdmad.num_channels i ≡ false = ground arith in
      let halts : state_of stopped_node.xdmad i ≡ halted =
        ap (λ d. d.state) (get_or-modify_self n.xdmad.channels i _ blank (omega arith)) in
      (
        simp (known, inside),
        halts,
        get_or-modify_ne n.xdmad.channels i j _ blank ne,
        dev.read_keeps_mask (global gs) i cleared
            ∙ dev.read_keeps_mask (chid i cis) i masked
            ∙ dev.mask_clear i disabled,
        dev.read_keeps (global gs) c q cleared h
            ∙ dev.read_keeps (chid i cis) c q masked h
            ∙ dev.write_keeps (chid i cid) c q 0xff disabled h (λ e. ground arith)
                (λ e. ground arith)
            ∙ dev.write_keeps (global gd) c q (channel_bit i) n.device h (λ e. ground arith)
                (λ e. ground arith),
        simp (known, halts),
      )
