-- ===== src/Xdmac/Driver/Handler/Callbacks.antt =====
-- How often the interrupt handler calls the callback of a channel that still runs.
use taste_samv71_rtems_runti.Common.{
  ℕ, ◌^◌, ◌<◌, ◌≡◌, ◌≢◌, Bool, true, false, none, some, if◌then◌else◌, ltb, Bool-cases, inl, inr,
  ◌==◌, get_or, arith,
}
use taste_samv71_rtems_runti.Xdmac.Registers.{chid, cis}
use taste_samv71_rtems_runti.Xdmac.Registers.Device.{Device}
use taste_samv71_rtems_runti.Xdmac.Registers.Channel.{get_channel_isr}
use taste_samv71_rtems_runti.Xdmac.Channels.{Channel, blank, is_free}
use taste_samv71_rtems_runti.Xdmac.Driver.{Board, Node, state_of}
use taste_samv71_rtems_runti.Xdmac.Driver.Handler.{
  cis_bis, has, continued, call_back, block_end, execute, handle_channel,
}

module _ (dev : Device) (board : Board) (invoke : ℕ → ℕ → ℕ → Node dev board → Node dev board)
    (interrupts running i : ℕ) (n : Node dev board) (inside : i < 24)
    (pending : has interrupts (2 ^ i) ≡ true) (in_use : is_free (state_of n.xdmad i) ≡ false)
    (runs : has running (2 ^ i) ≡ true)
    (ended : has (dev.read (chid i cis) n.device).0 cis_bis ≡ true) where
  -- The driver as the first callback finds it
  abbrev pub found : Node dev board
  found = record n {
    device = (dev.read (chid i cis) n.device).1;
    world = board.disable_dcache n.world;
  }

  abbrev channel : Channel
  channel = get_or n.xdmad.channels i blank

  abbrev pub called : Node dev board
  called = invoke channel.callback i channel.arg found

  abbrev pub channel' : Channel
  channel' = get_or called.xdmad.channels i blank

  -- An end of block of a running channel calls its callback once if the flag `bExec` is clear. If an
  -- earlier channel in the same interrupt left the flag set, the callback is called a second time,
  -- unless the first call removed it.
  pub handle_channel_block_end :
      channel.callback ≢ 0
      → (handle_channel dev board invoke interrupts running i n false
          ≡ some (continued called false))
        × (handle_channel dev board invoke interrupts running i n true
            ≡ some (
                continued
                  (if channel'.callback == 0
                    then called
                    else invoke channel'.callback i channel'.arg called)
                  true))
  unfolding handle_channel block_end execute call_back get_channel_isr
  handle_channel_block_end set =
      let known : ltb i 24 ≡ true = ground arith in
      let first : (channel.callback == 0) ≡ false = ground arith in
      (
        simp (known, pending, in_use, runs, ended, first),
        elim (Bool-cases (channel'.callback == 0)) [
          | inl gone ↦ simp (known, pending, in_use, runs, ended, first, gone)
          | inr second ↦ simp (known, pending, in_use, runs, ended, first, second)
        ],
      )

  -- Without a callback the handler calls through a null pointer.
  pub handle_channel_null :
      (exec : Bool)
      → channel.callback ≡ 0
      → handle_channel dev board invoke interrupts running i n exec ≡ none
  unfolding handle_channel block_end execute call_back get_channel_isr
  handle_channel_null exec null =
      let known : ltb i 24 ≡ true = ground arith in simp (known, pending, in_use, runs, ended, null)
