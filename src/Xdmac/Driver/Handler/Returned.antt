-- ===== src/Xdmac/Driver/Handler/Returned.antt =====
-- An interrupt of a free channel: the `return` in the loop of the handler.
use taste_samv71_rtems_runti.Common.{
  ℕ, suc, ◌+◌, ◌-◌, ◌^◌, ◌<◌, ◌≤◌, ◌≡◌, ◌∙◌, true, false, some, leb, arith,
}
use taste_samv71_rtems_runti.Xdmac.Registers.{global, gis}
use taste_samv71_rtems_runti.Xdmac.Registers.Device.{Device}
use taste_samv71_rtems_runti.Xdmac.Registers.Global.{get_gisr, get_global_ch_status}
use taste_samv71_rtems_runti.Xdmac.Channels.{is_free}
use taste_samv71_rtems_runti.Xdmac.Driver.{Board, Node, state_of}
use taste_samv71_rtems_runti.Xdmac.Driver.Handler.{has, handle_channel, handle_from, handler}
use taste_samv71_rtems_runti.Xdmac.Driver.Handler.Finish.{handle_from-skip}
use taste_samv71_rtems_runti.Xdmac.Driver.Handler.Single.{noticed, running}

module _ (dev : Device) (board : Board) (invoke : ℕ → ℕ → ℕ → Node dev board → Node dev board)
    (n : Node dev board) where
  handle_from-free :
      (word i rounds : ℕ) (m : Node dev board)
      → i < rounds
      → i < m.xdmad.num_channels
      → has word (2 ^ i) ≡ true
      → ((j : ℕ) → j < i → has word (2 ^ j) ≡ false)
      → is_free (state_of m.xdmad i) ≡ true
      → handle_from dev board invoke word (running dev board invoke i n) 0 rounds m false ≡ some m
  unfolding handle_from handle_channel
  handle_from-free word i rounds m enough exists raised lowest free_i =
      let count : rounds ≡ i + suc (rounds - suc i) = omega arith in
      let zero_i : 0 + i ≡ i = omega arith in
      let more : leb m.xdmad.num_channels i ≡ false = ground arith in
      rw count (
        handle_from-skip dev board invoke word (running dev board invoke i n) i
          (suc (rounds - suc i)) 0 m false (omega arith) (λ j low high. lowest j (omega arith))
        ∙ rw zero_i (simp (more, raised, free_i)))

  -- When the lowest channel that has raised the interrupt is free, the handler returns after it has
  -- read the two global status words: no channel is served and no callback is called, whichever other
  -- channels have raised the interrupt too.
  pub handler-free :
      (i : ℕ)
      → i < n.xdmad.num_channels
      → n.xdmad.num_channels ≤ 24
      → has (dev.read (global gis) n.device).0 0xff_ffff ≡ true
      → has (dev.read (global gis) n.device).0 (2 ^ i) ≡ true
      → ((j : ℕ) → j < i → has (dev.read (global gis) n.device).0 (2 ^ j) ≡ false)
      → is_free (state_of n.xdmad i) ≡ true
      → handler dev board invoke n ≡ some (noticed dev board invoke i n)
  unfolding handler get_gisr get_global_ch_status
  handler-free i exists few some_raised raised lowest free_i =
      let loop =
        handle_from-free (dev.read (global gis) n.device).0 i 32 (noticed dev board invoke i n)
          (omega arith) exists raised lowest free_i in
      simp (some_raised, loop)
