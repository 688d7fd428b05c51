-- ===== src/Xdmac/Table.antt =====
-- The table of src/Xdmac/xdma_hardware_interface.c and its two look-ups. The identifiers of the
-- peripherals are those of the board support package, and the controller's type register gives the
-- number of rows that are looked at; both are parameters.
use taste_samv71_rtems_runti.Common.{
  ℕ, ◌+◌, ◌/◌, ◌%◌, Bool, true, false, List, [], ◌∷◌, if◌then◌else◌, ◌&&◌, ◌==◌, take,
}

-- `Pmc_PeripheralId`, as far as the table names it
pub data Peripheral : Type 0 where
  hsmci spi0 spi1 qspi usart0 usart1 usart2 pwm0 twihs0 twihs1 twihs2 uart0 uart1 uart2 uart3 uart4
        dacc ssc pio_a afec0 afec1 aes pwm1 tc0_ch0 tc0_ch1 tc0_ch2 tc1_ch0 :
      Peripheral

-- `XdmaHardwareInterface`, whose controller is 0 in every row
pub record HardwareInterface : Type 0 where
  pub peripheral : Peripheral
  pub transfer : ℕ
  pub interface_id : ℕ

abbrev pub row : Peripheral → ℕ → ℕ → HardwareInterface
row p t i = record { peripheral = p; transfer = t; interface_id = i }

abbrev pub xdma_hw_if : List HardwareInterface
xdma_hw_if =
    row hsmci 0 0
    ∷ row hsmci 1 0
    ∷ row spi0 0 1
    ∷ row spi0 1 2
    ∷ row spi1 0 3
    ∷ row spi1 1 4
    ∷ row qspi 0 5
    ∷ row qspi 1 6
    ∷ row usart0 0 7
    ∷ row usart0 1 8
    ∷ row usart1 0 9
    ∷ row usart1 1 10
    ∷ row usart2 0 11
    ∷ row usart2 1 12
    ∷ row pwm0 0 13
    ∷ row twihs0 0 14
    ∷ row twihs0 1 15
    ∷ row twihs1 0 16
    ∷ row twihs1 1 17
    ∷ row twihs2 0 18
    ∷ row twihs2 1 19
    ∷ row uart0 0 20
    ∷ row uart0 1 21
    ∷ row uart1 0 22
    ∷ row uart1 1 23
    ∷ row uart2 0 24
    ∷ row uart2 1 25
    ∷ row uart3 0 26
    ∷ row uart3 1 27
    ∷ row uart4 0 28
    ∷ row uart4 1 29
    ∷ row dacc 0 30
    ∷ row dacc 0 31
    ∷ row ssc 0 32
    ∷ row ssc 1 33
    ∷ row pio_a 1 34
    ∷ row afec0 1 35
    ∷ row afec1 1 36
    ∷ row aes 0 37
    ∷ row aes 1 38
    ∷ row pwm1 0 39
    ∷ row tc0_ch0 1 40
    ∷ row tc0_ch1 1 41
    ∷ row tc0_ch2 1 42
    ∷ row tc1_ch0 1 43
    ∷ []

module _ (periph_id : Peripheral → ℕ) where
  unfoldable pub find_interface : ℕ → ℕ → List HardwareInterface → ℕ
  find_interface id transfer [] = 0xff
  find_interface id transfer (r ∷ rows) =
      let rest = find_interface id transfer rows in
      if periph_id r.peripheral == id && r.transfer == transfer then r.interface_id else rest

  unfoldable pub has_peripheral : ℕ → List HardwareInterface → Bool
  has_peripheral id [] = false
  has_peripheral id (r ∷ rows) =
      let rest = has_peripheral id rows in if periph_id r.peripheral == id then true else rest

  -- `XDMAIF_Get_ChannelNumber`, by the type register. The loop looks at one row more than the register
  -- says; rows behind the end of the table, which C leaves undefined, are none.
  unfoldable pub get_channel_number : ℕ → ℕ → ℕ → ℕ
  unfolding find_interface
  get_channel_number xdmac_type id transfer =
      find_interface id transfer (take (xdmac_type / 65536 % 256 + 1) xdma_hw_if)

  unfoldable pub is_validated_peripher_on_dma : ℕ → ℕ → Bool
  unfolding has_peripheral
  is_validated_peripher_on_dma xdmac_type id =
      if id == 0xff
      then true
      else has_peripheral id (take (xdmac_type / 65536 % 256 + 1) xdma_hw_if)
