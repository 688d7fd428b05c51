-- ===== src/Xdmac/Driver/Transfer/Tests.antt =====
-- Two channels: the second, which is halted, gets a linked list whose first descriptor has the second
-- view; the first, which is free, is stopped.
use taste_samv71_rtems_runti.Common.{◌≡◌, refl, [], ◌∷◌, some, arith, get_or}
use taste_samv71_rtems_runti.Xdmac.Registers.{chid, cim, csa, cc, cnda, cndc}
use taste_samv71_rtems_runti.Xdmac.Registers.Device.{cut}
use taste_samv71_rtems_runti.Xdmac.Registers.Device.Writes.{write_all}
use taste_samv71_rtems_runti.Xdmac.Registers.Layout.{address, global_index, channel_index}
use taste_samv71_rtems_runti.Xdmac.Registers.Device.Memory.{put, memory}
use taste_samv71_rtems_runti.Xdmac.Channels.{free, halted, blank, ok, free_channel}
use taste_samv71_rtems_runti.Xdmac.Driver.{Node, state_of, set_state}
use taste_samv71_rtems_runti.Xdmac.Driver.Transfer.{configure_transfer, stop_transfer}
use taste_samv71_rtems_runti.Xdmac.Driver.Transfer.Stopped.{stopped_node, stop_transfer_lem}
use taste_samv71_rtems_runti.Xdmac.Driver.Transfer.Linked.{listed_node}
use taste_samv71_rtems_runti.Xdmac.Registers.Descriptor.{
  dscr_fetch_en, nde, params_updated, ndsup, nddup, ndv1, ndview, control_word, members,
  register_of, has_register,
}
use taste_samv71_rtems_runti.Xdmac.Driver.Transfer.Views.{given, configure_transfer-given}
use taste_samv71_rtems_runti.Xdmac.Samples.{board, cfg}

-- The words hold 9, the interrupt masks included.
abbrev stopped : Node memory board
unfolding memory
stopped = record {
  xdmad = record {
    channels = blank ∷ record blank { state = halted } ∷ [];
    num_controllers = 1;
    num_channels = 2;
    polling_mode = 0;
  };
  device = λ a. 9;
  world = 0;
}

abbrev listed : Node memory board
unfolding memory
listed = listed_node memory board 1 cfg 9 0x2040_1003 2 stopped

-- The configuration and the descriptor are written, the source address is left to the list, and only
-- the requested interrupt stays enabled.
listed_registers :
    (memory.value (chid 1 cc) listed.device ≡ 0x20)
    × (memory.value (chid 1 cnda) listed.device ≡ 0x2040_1000)
    × (memory.value (chid 1 cndc) listed.device ≡ 9)
    × (memory.value (chid 1 csa) listed.device ≡ 9)
    × (memory.value (chid 1 cim) listed.device ≡ 2)
unfolding memory put cut write_all address global_index channel_index
listed_registers = (refl, refl, refl, refl, refl)

-- A list of the second view that updates both sides, whose descriptors have no configuration
viewed_word : control_word dscr_fetch_en params_updated params_updated ndv1 ≡ 15
unfolding control_word nde ndsup nddup ndview
viewed_word = refl

abbrev viewed : Node memory board
unfolding memory
viewed =
    listed_node memory board 1 cfg (control_word dscr_fetch_en params_updated params_updated ndv1)
      0x2040_1003 2 stopped

configure_transfer-given_example :
    (configure_transfer memory board 1 cfg
        (control_word dscr_fetch_en params_updated params_updated ndv1)
        0x2040_1003
        2
        stopped
      ≡ some (viewed, ok))
    × (memory.value (chid 1 cc) viewed.device ≡ cfg.mbr_cfg)
unfolding memory given cut has_register members register_of channel_index control_word nde ndsup
    nddup ndview
configure_transfer-given_example =
    configure_transfer-given memory board 1 cfg params_updated params_updated ndv1 0x2040_1003 2
      stopped cc refl refl (omega arith) (omega arith) (λ e. ground arith) (λ e. ground arith)
      (omega arith)

abbrev halted_node : Node memory board
unfolding memory
halted_node = stopped_node memory board 0 stopped

-- The first channel is free, and the stop halts it.
stop_transfer_lem_test :
    (stop_transfer memory board 0 stopped ≡ some (halted_node, ok))
    × (state_of halted_node.xdmad 0 ≡ halted)
    × (get_or halted_node.xdmad.channels 1 blank ≡ get_or stopped.xdmad.channels 1 blank)
    × (memory.value (chid 0 cim) halted_node.device ≡ 0)
    × (memory.value (chid 1 cc) halted_node.device ≡ memory.value (chid 1 cc) stopped.device)
    × (free_channel 0 halted_node.xdmad ≡ (set_state 0 free halted_node.xdmad, ok))
unfolding memory
stop_transfer_lem_test =
    stop_transfer_lem memory board 0 stopped cc 1 1 refl (λ e. omega arith) (omega arith)
      (omega arith) (omega arith)
