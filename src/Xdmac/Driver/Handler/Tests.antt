-- ===== src/Xdmac/Driver/Handler/Tests.antt =====
-- Three channels, of which the first and the third have raised the interrupt; a callback is counted in
-- the state of the board.
use taste_samv71_rtems_runti.Common.{
  ℕ, zero, suc, ◌+◌, ◌*◌, ◌^◌, ◌<◌, ◌≡◌, inl, refl, true, false, [], ◌∷◌, some, if◌then◌else◌, ◌==◌,
  get_or, arith,
}
use taste_samv71_rtems_runti.Xdmac.Registers.Layout.{address, global_index, channel_index}
use taste_samv71_rtems_runti.Xdmac.Registers.Device.Memory.{memory}
use taste_samv71_rtems_runti.Xdmac.Channels.{start, done, is_free, blank, Xdmad}
use taste_samv71_rtems_runti.Xdmac.Driver.{Node, state_of}
use taste_samv71_rtems_runti.Xdmac.Driver.Handler.{has, handler}
use taste_samv71_rtems_runti.Xdmac.Driver.Handler.Single.{noticed}
use taste_samv71_rtems_runti.Xdmac.Driver.Handler.Served.{serve, AllEnd}
use taste_samv71_rtems_runti.Xdmac.Driver.Handler.Several.{all_served, handler-serve}
use taste_samv71_rtems_runti.Xdmac.Driver.Handler.Returned.{handler-free}
use taste_samv71_rtems_runti.Xdmac.Samples.{board}

abbrev three : Xdmad
three = record {
  channels =
      record blank { state = start; callback = 7; arg = 1 }
      ∷ blank
      ∷ record blank { state = start; callback = 8; arg = 2 }
      ∷ [];
  num_controllers = 1;
  num_channels = 3;
  polling_mode = 0;
}

-- The interrupt status is 5 and no channel runs; every other word is 2.
abbrev words : memory.State
unfolding memory
words = λ a. if a == 0x4007_8018 then 5 else if a == 0x4007_8024 then 0 else 2

abbrev raised : Node memory board
raised = record { xdmad = three; device = words; world = 0 }

abbrev count : ℕ → ℕ → ℕ → Node memory board → Node memory board
count callback i arg n = record n { world = n.world * 100 + callback * 10 + i }

-- The callback of channel 0 comes first.
order : (all_served memory board count raised).world ≡ 7082
unfolding memory serve address global_index channel_index
order = refl

in_use :
    (i : ℕ)
    → i < 3
    → has 5 (2 ^ i) ≡ true
    → (is_free (state_of three i) ≡ false) × (has 0 (2 ^ i) ≡ false)
in_use zero h e = (refl, refl)
in_use (suc zero) h e = absurd (cc)
in_use (suc (suc zero)) h e = (refl, refl)
in_use (suc (suc (suc i))) h e = absurd (omega arith)

at_end : AllEnd memory board count 5 0 3 (noticed memory board count 0 raised)
unfolding memory AllEnd address global_index channel_index
at_end = (λ e. inl refl, (λ e. inl refl, (λ e. inl refl, tt)))

handler-serve_example :
    (handler memory board count raised ≡ some (all_served memory board count raised))
    × (get_or (all_served memory board count raised).xdmad.channels 2 blank
        ≡ record blank { state = done; callback = 8; arg = 2 })
unfolding memory address global_index channel_index
handler-serve_example =
    handler-serve memory board count raised 2 (λ callback i arg m. refl) refl in_use at_end
      (omega arith) (omega arith) (omega arith)

-- The second channel, which is free, has raised the interrupt with the third.
abbrev stale : memory.State
unfolding memory
stale = λ a. if a == 0x4007_8018 then 6 else if a == 0x4007_8024 then 0 else 2

abbrev stale_node : Node memory board
stale_node = record { xdmad = three; device = stale; world = 0 }

below : (j : ℕ) → j < 1 → has 6 (2 ^ j) ≡ false
below zero h = refl
below (suc j) h = absurd (omega arith)

handler-free_example :
    handler memory board count stale_node ≡ some (noticed memory board count 1 stale_node)
unfolding memory address global_index channel_index
handler-free_example =
    handler-free memory board count stale_node 1 (omega arith) (omega arith) refl refl below refl
