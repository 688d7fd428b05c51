-- ===== src/Xdmac/Channels/Tests.antt =====
-- Three channels, the first of them taken; peripherals are numbered in the order of the table.
use taste_samv71_rtems_runti.Common.{ℕ, ◌≡◌, ◌⊎◌, refl, true, false, [], ◌∷◌, arith}
use taste_samv71_rtems_runti.Xdmac.Table.{
  find_interface, has_peripheral, get_channel_number, is_validated_peripher_on_dma,
}
use taste_samv71_rtems_runti.Xdmac.Channels.{
  allocated, blank, alloc_failed, Xdmad, busy, claim, allocate_from, can_transfer,
  allocate_xdmac_channel, free_channel,
}
use taste_samv71_rtems_runti.Xdmac.Channels.Allocation.{Given, NoneFree, allocate_xdmac_channel_lem}
use taste_samv71_rtems_runti.Xdmac.Samples.{ids}

-- 45 rows: the register holds 44.
abbrev kind : ℕ
kind = 2_883_607

abbrev three : Xdmad
three = record {
  channels = record blank { state = allocated } ∷ blank ∷ blank ∷ [];
  num_controllers = 1;
  num_channels = 3;
  polling_mode = 0;
}

allocate_xdmac_channel_lem_test :
    let (x', c) = allocate_xdmac_channel ids kind 0xff 21 three in
    ((x' ≡ three)
      × (c ≡ alloc_failed)
      × (NoneFree ids kind 0xff 21 0 three ⊎ (can_transfer ids kind 0xff 21 ≡ false)))
    ⊎ ((can_transfer ids kind 0xff 21 ≡ true) × Given ids kind 0xff 21 0 three x' c)
allocate_xdmac_channel_lem_test =
    allocate_xdmac_channel_lem ids kind 0xff 21 three (omega arith) (omega arith)

-- The second channel is given; SPI0 sends on interface 1 and receives on interface 2.
allocate_three : allocate_xdmac_channel ids kind 0xff 21 three ≡ (
  record three {
    channels =
        record blank { state = allocated }
        ∷ record blank {
          state = allocated;
          src_periph_id = 0xff;
          dst_periph_id = 21;
          src_tx_if_id = 0xff;
          src_rx_if_id = 0xff;
          dst_tx_if_id = 1;
          dst_rx_if_id = 2;
        }
        ∷ blank
        ∷ [];
  },
  1,
)
unfolding allocate_xdmac_channel allocate_from can_transfer claim get_channel_number find_interface
    is_validated_peripher_on_dma has_peripheral
allocate_three = refl

-- A channel on which no transfer was started cannot be released.
free_allocated : free_channel 0 three ≡ (three, busy)
unfolding free_channel
free_allocated = refl
