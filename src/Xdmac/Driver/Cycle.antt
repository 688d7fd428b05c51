-- ===== src/Xdmac/Driver/Cycle.antt =====
-- One transfer from the allocation of its channel to the release: the operations of src/Xdmac/xdmad.c
-- in the order in which a user of the driver calls them.
pub mod Steps
pub mod Stages
mod Tests
use mathlib.Core.Path.{subst}
use native.Mathlib.Decide.{dec_lt}
use taste_samv71_rtems_runti.Common.{
  ℕ, ◌+◌, ◌^◌, ◌≤◌, ◌<◌, ◌≡◌, ◌≢◌, refl, sym, ◌∙◌, ap, Bool, true, false, some, arith, length,
  length-modify, ltb, leb, ◌==◌, if◌then◌else◌, get_or, get_or-modify_self, get_or-modify_ne,
  bit_and, u8, inl, inr, none, modify,
}
use taste_samv71_rtems_runti.Xdmac.Table.{Peripheral}
use taste_samv71_rtems_runti.Xdmac.Channels.{
  State, free, allocated, start, done, is_free, Channel, blank, Xdmad, ok, claim, can_transfer,
  allocate_xdmac_channel, free_channel,
}
use taste_samv71_rtems_runti.Xdmac.Channels.Allocation.{with_claim, allocate_xdmac_channel-first}
use taste_samv71_rtems_runti.Xdmac.Channels.Sequence.{allocate_xdmac_channel-Sized}
use taste_samv71_rtems_runti.Xdmac.Registers.{global, gis, csa}
use taste_samv71_rtems_runti.Xdmac.Registers.Device.{Device}
use taste_samv71_rtems_runti.Xdmac.Registers.Device.Writes.{AreWords}
use taste_samv71_rtems_runti.Xdmac.Driver.{Board, Node, state_of, set_state}
use taste_samv71_rtems_runti.Xdmac.Driver.Setup.{refuse_callback, set_callback}
use taste_samv71_rtems_runti.Xdmac.Driver.Transfer.{Cfg, refuse, configure_transfer, start_transfer}
use taste_samv71_rtems_runti.Xdmac.Driver.Transfer.Configured.{
  writes, configured_node, configure_transfer_lem,
}
use taste_samv71_rtems_runti.Xdmac.Driver.Handler.{has, clean, handler, is_transfer_done}
use taste_samv71_rtems_runti.Xdmac.Driver.Handler.Finish.{Ends, finished, called}
use taste_samv71_rtems_runti.Xdmac.Driver.Handler.Single.{noticed, running, handler-single}
use taste_samv71_rtems_runti.Xdmac.Driver.Cycle.Steps.{
  started, start_transfer_lem, is_transfer_done-done, free_channel-done, with_callback,
  set_callback-ready,
}
use taste_samv71_rtems_runti.Xdmac.Driver.Cycle.Stages.{
  length-running, get_or-attached, get_or-running, get_or-ended, get_or-released, released-other,
}

module _ (dev : Device) (board : Board) (invoke : ℕ → ℕ → ℕ → Node dev board → Node dev board)
    (periph_id : Peripheral → ℕ) (xdmac_type src dst i callback arg : ℕ) (cfg : Cfg) (int_en : ℕ)
    (n : Node dev board) (elapsed : dev.State) (later : board.World) where
  -- The channel allocated, its callback set, its transfer configured and started
  abbrev pub allocated_node : Node dev board
  allocated_node = record n { xdmad = with_claim periph_id xdmac_type src dst n.xdmad }

  abbrev pub attached_node : Node dev board
  attached_node = record n { xdmad = with_callback i callback arg allocated_node.xdmad }

  abbrev pub ready_node : Node dev board
  ready_node = configured_node dev board i cfg 0 0 int_en attached_node

  abbrev pub started_node : Node dev board
  started_node = started dev board invoke i ready_node

  -- The interrupt: the controller and the system are no longer what they were.
  abbrev pub raised_node : Node dev board
  raised_node = record started_node { device = elapsed; world = later }

  -- What the callback gets, and what it leaves
  abbrev pub done_node : Node dev board
  done_node = finished dev board invoke i (noticed dev board invoke i raised_node)

  abbrev pub notified_node : Node dev board
  notified_node = invoke callback i arg done_node

  abbrev claimed : Channel
  claimed = claim periph_id xdmac_type src dst (get_or n.xdmad.channels i blank)

  -- The first free channel, asked for by a request that the table of peripherals allows, with a
  -- callback that is not null and keeps the driver's instance, and a transfer without linked list:
  -- each operation from the allocation to the start succeeds. If the controller, in whatever state it
  -- then is, raises the interrupt of this channel alone, has stopped it and reports its end, the
  -- handler returns from one call of the callback, which found the channel done; the query for the end
  -- and the release succeed. At the end the channel is free with its peripherals and callback still
  -- noted, and all other channels are as at the beginning.
  pub transfer_cycle :
      (j : ℕ)
      → i ≢ j
      → can_transfer periph_id xdmac_type src dst ≡ true
      → i < n.xdmad.num_channels
      → n.xdmad.num_channels ≤ 24
      → n.xdmad.num_channels ≤ length n.xdmad.channels
      → is_free (state_of n.xdmad i) ≡ true
      → ((k : ℕ) → k < i → is_free (state_of n.xdmad k) ≡ false)
      → 0 < callback
      → AreWords (writes cfg)
      → (dev.read (global gis) elapsed).0 ≡ 2 ^ i
      → has (running dev board invoke i raised_node) (2 ^ i) ≡ false
      → Ends dev board invoke i (noticed dev board invoke i raised_node)
      → notified_node.xdmad ≡ done_node.xdmad
      → (allocate_xdmac_channel periph_id xdmac_type src dst n.xdmad ≡ (allocated_node.xdmad, i))
        × (set_callback i callback arg allocated_node.xdmad ≡ (attached_node.xdmad, ok))
        × (configure_transfer dev board i cfg 0 0 int_en attached_node ≡ some (ready_node, ok))
        × (start_transfer dev board i ready_node ≡ some (started_node, ok))
        × (handler dev board invoke raised_node ≡ some notified_node)
        × (state_of done_node.xdmad i ≡ done)
        × (is_transfer_done dev board invoke i notified_node
            ≡ some (clean dev board invoke notified_node, ok))
        × (free_channel i notified_node.xdmad ≡ (set_state i free notified_node.xdmad, ok))
        × (get_or (set_state i free notified_node.xdmad).channels i blank
            ≡ record claimed { callback = callback; arg = arg; state = free })
        × (get_or (set_state i free notified_node.xdmad).channels j blank
            ≡ get_or n.xdmad.channels j blank)
  unfolding claim
  transfer_cycle j ne allowed exists few room free_i before set words raised stopped ends keeps =
      let (exact, given) =
        allocate_xdmac_channel-first periph_id xdmac_type src dst i n.xdmad allowed exists room
          (omega arith) free_i before in
      let (counted, sized) = allocate_xdmac_channel-Sized periph_id xdmac_type src dst n.xdmad in
      let x = allocated_node.xdmad in
      let same : u8 i ≡ i = omega arith in
      let inside : i < length x.channels = omega arith in
      let claimed_state = ap (λ (c : Channel). c.state) given.claimed in
      let attached_i = get_or-attached i callback arg x inside given.claimed in
      let attached_state = ap (λ (c : Channel). c.state) attached_i in
      let running_i = get_or-running i callback arg x inside given.claimed in
      let in_use = ap (λ (c : Channel). is_free c.state) running_i in
      let fits = length-running i callback arg x in
      let single =
        handler-single dev board invoke i raised_node j ne (omega arith) (omega arith) (omega arith)
          raised stopped in_use ends in
      let some_callback : (callback == 0) ≡ false = ground arith in
      let over =
        ap (λ (c : Channel). c.state) (get_or-ended i callback arg x inside given.claimed) in
      let over' : state_of notified_node.xdmad i ≡ done = rw keeps over in
      let count : notified_node.xdmad.num_channels ≡ n.xdmad.num_channels =
        ap (λ (y : Xdmad). y.num_channels) keeps ∙ counted in
      (
        ap (λ (c : ℕ). (allocated_node.xdmad, c)) exact,
        set_callback-ready i callback arg x (omega arith) (omega arith)
            (ap refuse_callback claimed_state),
        (configure_transfer_lem dev board i cfg 0 0 int_en attached_node csa (i + 1) refl
            (λ e. omega arith) (omega arith) (omega arith) (rw same (λ e. cc)) (rw same (λ e. cc))
            refl words).0,
        start_transfer_lem dev board invoke i ready_node (omega arith) (omega arith)
            (ap refuse attached_state),
        single.0 ∙ simp (running_i, some_callback),
        over,
        is_transfer_done-done dev board invoke i notified_node (omega arith) (omega arith) over',
        free_channel-done i notified_node.xdmad (omega arith) (omega arith) over',
        rw keeps (get_or-released i callback arg x inside given.claimed),
        rw keeps (released-other i callback arg x j ne ∙ given.others j ne),
      )
