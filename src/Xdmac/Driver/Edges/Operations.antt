-- ===== src/Xdmac/Driver/Edges/Operations.antt =====
-- The steps that the driver's operations and its interrupts make, and the edges they go along.
use taste_samv71_rtems_runti.Common.{
  ℕ, zero, suc, ◌+◌, ◌≡◌, inl, inr, sym, ap, true, false, Option, some, leb, Bool-cases, u8, arith,
}
use taste_samv71_rtems_runti.Common.Options.{bind-some, Option-cases}
use mathlib.Core.Option.{some_inj}
use taste_samv71_rtems_runti.Xdmac.Table.{Peripheral}
use taste_samv71_rtems_runti.Xdmac.Registers.Device.{Device}
use taste_samv71_rtems_runti.Xdmac.Registers.Global.{enable_channel, disable_channel}
use taste_samv71_rtems_runti.Xdmac.Registers.Channel.{get_channel_isr, disable_channel_it}
use taste_samv71_rtems_runti.Xdmac.Channels.{
  State, free, start, done, halted, is_free, ReturnCode, Xdmad, claim, allocate_from, can_transfer,
  allocate_xdmac_channel, release, free_channel,
}
use taste_samv71_rtems_runti.Xdmac.Driver.{Board, Node, state_of, set_state}
use taste_samv71_rtems_runti.Xdmac.Driver.Setup.{
  refuse_callback, set_callback, refuse_prepare, prepare_registers, prepare_channel,
}
use taste_samv71_rtems_runti.Xdmac.Driver.Transfer.{
  Cfg, refuse, configure_registers, configure_transfer, start_transfer, stop_transfer,
}
use taste_samv71_rtems_runti.Xdmac.Driver.Edges.{
  stays, allocates, halts, refuse-Edge, is_free-Edge, release-Edge, Moves, Moves-refl, modify-Moves,
}

module _ (dev : Device) (board : Board) (periph_id : Peripheral → ℕ) (xdmac_type : ℕ) where
  -- One call of an operation, or the end of a transfer in the interrupt handler, on any node that
  -- holds the instance
  pub data Step : Xdmad → Xdmad → Type 0 where
    allocation :
        (x : Xdmad) (src dst : ℕ) → Step x (allocate_xdmac_channel periph_id xdmac_type src dst x).0
    freeing : (x : Xdmad) (channel : ℕ) → Step x (free_channel channel x).0
    setting :
        (x : Xdmad) (channel callback arg : ℕ) → Step x (set_callback channel callback arg x).0
    preparing :
        (n n' : Node dev board) (code : ReturnCode) (channel : ℕ)
        → prepare_channel dev board channel n ≡ some (n', code)
        → Step n.xdmad n'.xdmad
    configuring :
        (n n' : Node dev board) (code : ReturnCode) (channel : ℕ) (cfg : Cfg)
        (desc_cfg desc_addr int_en : ℕ)
        → configure_transfer dev board channel cfg desc_cfg desc_addr int_en n ≡ some (n', code)
        → Step n.xdmad n'.xdmad
    starting :
        (n n' : Node dev board) (code : ReturnCode) (channel : ℕ)
        → start_transfer dev board channel n ≡ some (n', code)
        → Step n.xdmad n'.xdmad
    stopping :
        (n n' : Node dev board) (code : ReturnCode) (channel : ℕ)
        → stop_transfer dev board channel n ≡ some (n', code)
        → Step n.xdmad n'.xdmad
    ending : (x : Xdmad) (i : ℕ) → is_free (state_of x i) ≡ false → Step x (set_state i done x)

  free_state : (s : State) → is_free s ≡ true → s ≡ free
  free_state s h = ground arith

  allocate_from-Moves :
      (src dst i left : ℕ) (x : Xdmad)
      → Moves x (allocate_from periph_id xdmac_type src dst i left x).0
  unfolding allocate_from claim
  allocate_from-Moves src dst i zero x = Moves-refl x
  allocate_from-Moves src dst i (suc left) x = elim (Bool-cases (is_free (state_of x i))) [
    | inl unused ↦
        let here : state_of x i ≡ free = free_state (state_of x i) unused in
        rw unused (modify-Moves x i (claim periph_id xdmac_type src dst) (rw here allocates))
    | inr used ↦ rw used (allocate_from-Moves src dst (i + 1) left x)
  ]

  allocation-Moves :
      (x : Xdmad) (src dst : ℕ) → Moves x (allocate_xdmac_channel periph_id xdmac_type src dst x).0
  unfolding allocate_xdmac_channel
  allocation-Moves x src dst = elim (Bool-cases (can_transfer periph_id xdmac_type src dst)) [
    | inl allowed ↦ rw allowed (allocate_from-Moves src dst 0 x.num_channels x)
    | inr refused ↦ rw refused (Moves-refl x)
  ]

  freeing-Moves : (x : Xdmad) (channel : ℕ) → Moves x (free_channel channel x).0
  unfolding free_channel
  freeing-Moves x channel = elim (Bool-cases (leb x.num_channels (u8 channel))) [
    | inl outside ↦ simp outside (Moves-refl x)
    | inr inside ↦ elim (Option-cases (release (state_of x (u8 channel)))) [
      | inl refused ↦ simp (inside, refused) (Moves-refl x)
      | inr (s, released) ↦
          simp (inside, released)
            (modify-Moves x (u8 channel) (λ c. record c { state = s })
              (release-Edge (state_of x (u8 channel)) s released))
    ]
  ]

  setting-Moves :
      (x : Xdmad) (channel callback arg : ℕ) → Moves x (set_callback channel callback arg x).0
  unfolding set_callback
  setting-Moves x channel callback arg = elim (Bool-cases (leb x.num_channels (u8 channel))) [
    | inl outside ↦ simp outside (Moves-refl x)
    | inr inside ↦ elim (Option-cases (refuse_callback (state_of x (u8 channel)))) [
      | inr (code, refused) ↦ simp (inside, refused) (Moves-refl x)
      | inl accepted ↦
          simp (inside, accepted)
            (modify-Moves x (u8 channel) (λ c. record c { callback = callback; arg = arg })
              (stays (state_of x (u8 channel))))
    ]
  ]

  -- An operation that only touches the controller keeps the instance.
  same-Moves : (x x' : Xdmad) → x' ≡ x → Moves x x'
  same-Moves x x' e = rw e (Moves-refl x)

  abbrev Answer : Type 0
  Answer = Node dev board × ReturnCode

  result : (r r' : Answer) → Path (Option Answer) (some r) (some r') → r'.0.xdmad ≡ r.0.xdmad
  result r r' e = sym (ap (λ p. p.0.xdmad) (some_inj.0 e))

  preparing_keeps :
      (n n' : Node dev board) (code : ReturnCode) (channel : ℕ)
      → prepare_channel dev board channel n ≡ some (n', code)
      → n'.xdmad ≡ n.xdmad
  unfolding prepare_channel
  preparing_keeps n n' code channel e = elim (Bool-cases (leb n.xdmad.num_channels (u8 channel))) [
    | inl outside ↦ result _ _ (simp outside at e)
    | inr inside ↦ elim (Option-cases (refuse_prepare (state_of n.xdmad (u8 channel)))) [
      | inr (answer, refused) ↦ result _ _ (simp (inside, refused) at e)
      | inl accepted ↦
          let (s, _, made) =
            bind-some (prepare_registers dev board (u8 channel) n.device) _
              (simp (inside, accepted) at e) in
          result _ _ made
    ]
  ]

  configuring_keeps :
      (n n' : Node dev board) (code : ReturnCode) (channel : ℕ) (cfg : Cfg)
      (desc_cfg desc_addr int_en : ℕ)
      → configure_transfer dev board channel cfg desc_cfg desc_addr int_en n ≡ some (n', code)
      → n'.xdmad ≡ n.xdmad
  unfolding configure_transfer
  configuring_keeps n n' code channel cfg desc_cfg desc_addr int_en e =
      elim (Bool-cases (leb n.xdmad.num_channels (u8 channel))) [
        | inl outside ↦ result _ _ (simp outside at e)
        | inr inside ↦
            let ((status, s₁), _, chosen) =
              bind-some (get_channel_isr dev (u8 channel) n.device) _ (simp inside at e) in
            elim (Option-cases (refuse (state_of n.xdmad (u8 channel)))) [
              | inr (answer, refused) ↦ result _ _ (simp refused at chosen)
              | inl accepted ↦
                  let (s₂, _, made) =
                    bind-some
                      (configure_registers dev (u8 channel) cfg desc_cfg desc_addr int_en s₁) _
                      (simp accepted at chosen) in
                  result _ _ made
            ]
      ]

  starting-Moves :
      (n n' : Node dev board) (code : ReturnCode) (channel : ℕ)
      → start_transfer dev board channel n ≡ some (n', code)
      → Moves n.xdmad n'.xdmad
  unfolding start_transfer
  starting-Moves n n' code channel e = elim (Bool-cases (leb n.xdmad.num_channels (u8 channel))) [
    | inl outside ↦ same-Moves n.xdmad n'.xdmad (result _ _ (simp outside at e))
    | inr inside ↦ elim (Option-cases (refuse (state_of n.xdmad (u8 channel)))) [
      | inr (answer, refused) ↦
          same-Moves n.xdmad n'.xdmad (result _ _ (simp (inside, refused) at e))
      | inl accepted ↦
          let (s₁, _, made) =
            bind-some (enable_channel dev (u8 channel) n.device) _ (simp (inside, accepted) at e) in
          rw (result _ _ made) (
            modify-Moves n.xdmad (u8 channel) (λ c. record c { state = start })
              (refuse-Edge (state_of n.xdmad (u8 channel)) accepted))
    ]
  ]

  stopping-Moves :
      (n n' : Node dev board) (code : ReturnCode) (channel : ℕ)
      → stop_transfer dev board channel n ≡ some (n', code)
      → Moves n.xdmad n'.xdmad
  unfolding stop_transfer
  stopping-Moves n n' code channel e = elim (Bool-cases (leb n.xdmad.num_channels (u8 channel))) [
    | inl outside ↦ same-Moves n.xdmad n'.xdmad (result _ _ (simp outside at e))
    | inr inside ↦
        let (s₁, _, e₁) =
          bind-some (disable_channel dev (u8 channel) n.device) _ (simp inside at e) in
        let (s₂, _, e₂) = bind-some (disable_channel_it dev (u8 channel) 0xff s₁) _ e₁ in
        let ((status, s₃), _, made) = bind-some (get_channel_isr dev (u8 channel) s₂) _ e₂ in
        rw (result _ _ made) (
          modify-Moves n.xdmad (u8 channel) (λ c. record c { state = halted })
            (halts (state_of n.xdmad (u8 channel))))
  ]

  -- Whatever an operation or the end of a transfer does, each channel goes along an edge.
  pub Step-Moves : (x x' : Xdmad) → Step x x' → Moves x x'
  Step-Moves x _ (allocation _ src dst) = allocation-Moves x src dst
  Step-Moves x _ (freeing _ channel) = freeing-Moves x channel
  Step-Moves x _ (setting _ channel callback arg) = setting-Moves x channel callback arg
  Step-Moves _ _ (preparing n n' code channel e) =
      same-Moves n.xdmad n'.xdmad (preparing_keeps n n' code channel e)
  Step-Moves _ _ (configuring n n' code channel cfg desc_cfg desc_addr int_en e) =
      same-Moves n.xdmad n'.xdmad
        (configuring_keeps n n' code channel cfg desc_cfg desc_addr int_en e)
  Step-Moves _ _ (starting n n' code channel e) = starting-Moves n n' code channel e
  Step-Moves _ _ (stopping n n' code channel e) = stopping-Moves n n' code channel e
  Step-Moves x _ (ending _ i used) =
      modify-Moves x i (λ c. record c { state = done }) (is_free-Edge (state_of x i) used)
