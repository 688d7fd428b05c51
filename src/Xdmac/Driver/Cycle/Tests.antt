-- ===== src/Xdmac/Driver/Cycle/Tests.antt =====
-- Two channels; the first is in use, and the second goes through a whole transfer to SPI0. A callback
-- is counted in the state of the board.
use taste_samv71_rtems_runti.Common.{
  ℕ, zero, suc, ◌+◌, ◌<◌, ◌≡◌, inl, refl, false, [], ◌∷◌, some, if◌then◌else◌, ◌==◌, get_or, arith,
}
use taste_samv71_rtems_runti.Xdmac.Table.{has_peripheral, is_validated_peripher_on_dma}
use taste_samv71_rtems_runti.Xdmac.Registers.Layout.{address, global_index, channel_index}
use taste_samv71_rtems_runti.Xdmac.Registers.Device.Memory.{memory}
use taste_samv71_rtems_runti.Xdmac.Channels.{
  free, allocated, done, is_free, blank, Xdmad, ok, claim, can_transfer, allocate_xdmac_channel,
  free_channel,
}
use taste_samv71_rtems_runti.Xdmac.Driver.{Node, state_of, set_state}
use taste_samv71_rtems_runti.Xdmac.Driver.Setup.{set_callback}
use taste_samv71_rtems_runti.Xdmac.Driver.Transfer.{configure_transfer, start_transfer}
use taste_samv71_rtems_runti.Xdmac.Driver.Handler.{clean, handler, is_transfer_done}
use taste_samv71_rtems_runti.Xdmac.Driver.Cycle.{
  allocated_node, attached_node, ready_node, started_node, raised_node, done_node, notified_node,
  transfer_cycle,
}
use taste_samv71_rtems_runti.Xdmac.Samples.{ids, board, cfg}

abbrev kind : ℕ
kind = 0x2c_0001

abbrev Run : Type 0
Run = Node memory board

abbrev two : Xdmad
two = record {
  channels = record blank { state = allocated } ∷ blank ∷ [];
  num_controllers = 1;
  num_channels = 2;
  polling_mode = 0;
}

abbrev before : Run
unfolding memory
before = record { xdmad = two; device = λ a. 0; world = 0 }

-- Channel 1 has raised the interrupt, no channel runs, and every status is an end of linked list.
abbrev elapsed : memory.State
unfolding memory
elapsed = λ a. if a == 0x4007_8024 then 0 else 2

abbrev count : ℕ → ℕ → ℕ → Run → Run
count callback i arg n = record n { world = n.world + callback + i + arg }

abbrev given : Run
given = allocated_node memory board count ids kind 0xff 21 1 7 5 cfg 2 before elapsed 3

abbrev attached : Run
attached = attached_node memory board count ids kind 0xff 21 1 7 5 cfg 2 before elapsed 3

abbrev ready : Run
ready = ready_node memory board count ids kind 0xff 21 1 7 5 cfg 2 before elapsed 3

abbrev started : Run
started = started_node memory board count ids kind 0xff 21 1 7 5 cfg 2 before elapsed 3

abbrev raised : Run
raised = raised_node memory board count ids kind 0xff 21 1 7 5 cfg 2 before elapsed 3

abbrev over : Run
over = done_node memory board count ids kind 0xff 21 1 7 5 cfg 2 before elapsed 3

abbrev notified : Run
notified = notified_node memory board count ids kind 0xff 21 1 7 5 cfg 2 before elapsed 3

abbrev released : Xdmad
released = set_state 1 free notified.xdmad

taken_before : (k : ℕ) → k < 1 → is_free (state_of two k) ≡ false
taken_before zero h = refl
taken_before (suc k) h = absurd (omega arith)

transfer_cycle_example :
    (allocate_xdmac_channel ids kind 0xff 21 two ≡ (given.xdmad, 1))
    × (set_callback 1 7 5 given.xdmad ≡ (attached.xdmad, ok))
    × (configure_transfer memory board 1 cfg 0 0 2 attached ≡ some (ready, ok))
    × (start_transfer memory board 1 ready ≡ some (started, ok))
    × (handler memory board count raised ≡ some notified)
    × (state_of over.xdmad 1 ≡ done)
    × (is_transfer_done memory board count 1 notified
        ≡ some (clean memory board count notified, ok))
    × (free_channel 1 notified.xdmad ≡ (released, ok))
    × (get_or released.channels 1 blank
        ≡ record (claim ids kind 0xff 21 blank) { callback = 7; arg = 5; state = free })
    × (get_or released.channels 0 blank ≡ record blank { state = allocated })
unfolding memory address global_index channel_index can_transfer has_peripheral
    is_validated_peripher_on_dma
transfer_cycle_example =
    transfer_cycle memory board count ids kind 0xff 21 1 7 5 cfg 2 before elapsed 3 0
      (λ e. omega arith) refl (omega arith) (omega arith) (omega arith) refl taken_before
      (omega arith) (omega arith) refl refl (inl refl) refl
