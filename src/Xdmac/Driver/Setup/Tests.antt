-- ===== src/Xdmac/Driver/Setup/Tests.antt =====
-- A controller with three channels, an array for four, and five requests; then the preparation of the
-- second channel.
use taste_samv71_rtems_runti.Common.{
  ℕ, ◌≤◌, ◌<◌, ◌≡◌, ◌⊎◌, refl, Bool, true, false, some, List, [], ◌∷◌, arith, get_or,
}
use taste_samv71_rtems_runti.Rtems.Recorder.{recorder, Call, obtain, release}
use taste_samv71_rtems_runti.Xdmac.Registers.{chid, cc, csa, cubc, cim}
use taste_samv71_rtems_runti.Xdmac.Registers.Layout.{address, global_index, channel_index}
use taste_samv71_rtems_runti.Xdmac.Registers.Device.{cut}
use taste_samv71_rtems_runti.Xdmac.Registers.Device.Memory.{put, memory}
use taste_samv71_rtems_runti.Xdmac.Registers.Device.Writes.{write_all}
use taste_samv71_rtems_runti.Xdmac.Registers.Global.{get_type}
use taste_samv71_rtems_runti.Xdmac.Table.{has_peripheral, is_validated_peripher_on_dma}
use taste_samv71_rtems_runti.Xdmac.Channels.{
  allocated, done, blank, alloc_failed, Xdmad, can_transfer, State, free, start, in_xfr, halted,
  busy, ok, error,
}
use taste_samv71_rtems_runti.Xdmac.Channels.Sequence.{Requests, allocate_all, count_all}
use taste_samv71_rtems_runti.Xdmac.Driver.Setup.{initialize, prepare_channel}
use taste_samv71_rtems_runti.Xdmac.Driver.Setup.Prepared.{
  prepared, prepared_node, prepare_channel_lem,
}
use taste_samv71_rtems_runti.Xdmac.Driver.{Board, Node}
use taste_samv71_rtems_runti.Xdmac.Driver.Setup.Initialized.{initialized, initialize_lem}
use taste_samv71_rtems_runti.Xdmac.Samples.{ids}

-- The type register: 45 requests, and three channels
abbrev kind : ℕ
kind = 0x2c_0002

abbrev powered : memory.State
unfolding memory
powered = λ a. kind

-- What the memory of the instance happens to hold
abbrev leftover : Xdmad
leftover = record {
  channels =
      record blank { state = done }
      ∷ record blank { state = allocated }
      ∷ blank
      ∷ record blank { state = done }
      ∷ [];
  num_controllers = 9;
  num_channels = 9;
  polling_mode = 9;
}

abbrev calls : List Call
calls = []

-- From one peripheral to another; the others have memory on one side.
abbrev requests : Requests
requests = (21, 7) ∷ (0xff, 21) ∷ (21, 0xff) ∷ (0xff, 0xff) ∷ (0xff, 21) ∷ []

abbrev ready : Xdmad
unfolding memory
ready = initialized memory recorder 4 1 leftover powered calls

three_channels : count_all ids kind 3 0 requests ≡ alloc_failed ∷ 0 ∷ 1 ∷ 2 ∷ alloc_failed ∷ []
unfolding count_all can_transfer is_validated_peripher_on_dma has_peripheral
three_channels = refl

initialize_lem_example :
    (initialize memory recorder 4 1 (leftover, false, powered, calls)
      ≡ some (ready, true, powered, release 4 ∷ obtain 4 ∷ []))
    × (get_or ready.channels 2 blank ≡ blank)
    × (allocate_all ids kind requests ready ≡ count_all ids kind 3 0 requests)
    × (initialize memory recorder 4 0 (leftover, true, powered, calls)
        ≡ some (leftover, true, powered, release 4 ∷ obtain 4 ∷ []))
unfolding memory get_type
initialize_lem_example =
    initialize_lem memory recorder 4 1 leftover powered calls 2 0 ids kind requests leftover powered
      calls refl refl (omega arith) (omega arith)

-- The second channel of `leftover` is allocated; all words of the controller are alike, and the clock is
-- off.
abbrev unclocked : Board
unclocked = record {
  World = Bool;
  is_peripheral_clk_enabled = λ w. w;
  enable_peripheral_clk = λ w. true;
  disable_dcache = λ w. w;
}

abbrev resting : Node memory unclocked
resting = record { xdmad = leftover; device = powered; world = false }

abbrev prepared_one : Node memory unclocked
prepared_one = prepared_node memory unclocked 1 resting

prepare_registers_test :
    (memory.value (chid 1 cc) prepared_one.device ≡ 0x20)
    × (memory.value (chid 1 csa) prepared_one.device ≡ 0)
    × (memory.value (chid 1 cubc) prepared_one.device ≡ kind)
    × (memory.value (chid 0 csa) prepared_one.device ≡ kind)
    × (memory.value (chid 1 cim) prepared_one.device ≡ 0)
    × (prepared_one.world ≡ true)
unfolding memory put cut write_all address global_index channel_index
prepare_registers_test = (refl, refl, refl, refl, refl, refl)

prepare_channel_lem_example :
    ((9 ≤ 1) × (prepare_channel memory unclocked 1 resting ≡ some (resting, error)))
    ⊎ ((1 < 9)
        × (State.allocated ≡ free)
        × (prepare_channel memory unclocked 1 resting ≡ some (resting, error)))
    ⊎ ((1 < 9)
        × ((State.allocated ≡ start) ⊎ (State.allocated ≡ in_xfr))
        × (prepare_channel memory unclocked 1 resting ≡ some (resting, busy)))
    ⊎ ((1 < 9)
        × ((State.allocated ≡ allocated) ⊎ (State.allocated ≡ done) ⊎ (State.allocated ≡ halted))
        × (prepare_channel memory unclocked 1 resting ≡ some (prepared_one, ok))
        × (prepared_one.world ≡ true)
        × (memory.value (chid 1 cc) prepared_one.device ≡ 0x20)
        × (memory.value (chid 1 cim) prepared_one.device ≡ 0)
        × (memory.value (chid 0 cc) prepared_one.device ≡ memory.value (chid 0 cc) powered))
unfolding prepared
prepare_channel_lem_example =
    prepare_channel_lem memory unclocked 1 resting cc 0 (λ w. refl) refl (λ e. omega arith)
      (omega arith)
