-- ===== src/Xdmac/Driver/Handler/Kept.antt =====
-- What the interrupt handler and the query for the end of a transfer do to the driver's instance: a
-- relation that holds along callbacks and along the end of a transfer holds along them.
use taste_samv71_rtems_runti.Common.{
  ℕ, zero, suc, ◌+◌, ◌^◌, ◌≡◌, inl, inr, ap, Bool, false, not, some, if◌then◌else◌, ◌&&◌, ◌||◌, leb,
  ◌==◌, get_or, u8, Bool-cases,
}
use mathlib.Core.Option
use mathlib.Core.Option.{some_inj}
use taste_samv71_rtems_runti.Common.Options.{bind-some, Option-cases}
use taste_samv71_rtems_runti.Xdmac.Registers.{global, gis, gs}
use taste_samv71_rtems_runti.Xdmac.Registers.Device.{Device}
use taste_samv71_rtems_runti.Xdmac.Registers.Global.{get_gisr, get_global_ch_status}
use taste_samv71_rtems_runti.Xdmac.Registers.Channel.{get_channel_isr, get_mask_channel_isr}
use taste_samv71_rtems_runti.Xdmac.Channels.{done, is_free, blank, Xdmad, ReturnCode}
use taste_samv71_rtems_runti.Xdmac.Driver.{Board, Node, state_of, set_state}
use taste_samv71_rtems_runti.Xdmac.Driver.Handler.{
  cis_bis, cis_lis, cis_dis, has, Next, returned, continued, call_back, clean, is_last_block,
  finish, block_end, execute, handle_channel, handle_from, handler, answer, is_transfer_done,
}

-- What a round of the loop leaves
abbrev pub node : {A : Type 0} → Next A → A
node (returned a) = a
node (continued a exec) = a

module _ (dev : Device) (board : Board) (invoke : ℕ → ℕ → ℕ → Node dev board → Node dev board)
    (R : Xdmad → Xdmad → Type 0) (rests : (x : Xdmad) → R x x)
    (join : (x y z : Xdmad) → R x y → R y z → R x z)
    (ends : (x : Xdmad) (i : ℕ) → is_free (state_of x i) ≡ false → R x (set_state i done x))
    (calls : (callback i arg : ℕ) (n : Node dev board)
      → R n.xdmad (invoke callback i arg n).xdmad) where
  abbrev Runs : Node dev board → Node dev board → Type 0
  Runs n n' = R n.xdmad n'.xdmad

  same : (n n' n'' : Node dev board) → Runs n n' → some n' ≡ some n'' → Runs n n''
  same n n' n'' p e = rw (some_inj.0 e) at p

  both : (n n' n'' : Node dev board) → Runs n n' → Runs n' n'' → Runs n n''
  both n n' n'' p q = join n.xdmad n'.xdmad n''.xdmad p q

  call_back-Runs :
      (i : ℕ) (n n' : Node dev board) → call_back dev board invoke i n ≡ some n' → Runs n n'
  unfolding call_back
  call_back-Runs i n n' e =
      let c = get_or n.xdmad.channels i blank in
      elim (Bool-cases (c.callback == 0)) [
        | inl null ↦ absurd (let bad = simp null at e in cc)
        | inr set ↦
            same n (invoke c.callback i c.arg n) n' (calls c.callback i c.arg n) (simp set at e)
      ]

  execute-Runs :
      (i : ℕ) (exec : Bool) (n n' : Node dev board)
      → execute dev board invoke i exec n ≡ some n'
      → Runs n n'
  unfolding execute
  execute-Runs i exec n n' e =
      let c = get_or n.xdmad.channels i blank in
      elim (Bool-cases (exec && not (c.callback == 0))) [
        | inl wanted ↦ call_back-Runs i n n' (simp wanted at e)
        | inr quiet ↦ same n n n' (rests n.xdmad) (simp quiet at e)
      ]

  block_end-Runs :
      (i : ℕ) (n n' : Node dev board) → block_end dev board invoke i n ≡ some n' → Runs n n'
  unfolding block_end
  block_end-Runs i n n' e =
      let ((status, s₁), _, next) = bind-some (get_channel_isr dev i n.device) _ e in
      let cleaned = clean dev board invoke (record n { device = s₁ }) in
      elim (Bool-cases (has status cis_bis)) [
        | inl block ↦ call_back-Runs i cleaned n' (simp block at next)
        | inr quiet ↦ same n cleaned n' (rests n.xdmad) (simp quiet at next)
      ]

  finish-Runs :
      (i : ℕ) (n n' : Node dev board) (ended : Bool)
      → is_free (state_of n.xdmad i) ≡ false
      → finish dev board invoke i n ≡ some (n', ended)
      → Runs n n'
  unfolding finish
  finish-Runs i n n' ended used e =
      let ((status, s₁), _, e₁) = bind-some (get_mask_channel_isr dev i n.device) _ e in
      let ((last, s₂), _, e₂) = bind-some (is_last_block dev board invoke i status s₁) _ e₁ in
      let over = last || has status cis_lis || has status cis_dis in
      let ended_or_not : R n.xdmad (if over then set_state i done n.xdmad else n.xdmad) =
        elim (Bool-cases over) [
          | inl true_ ↦ rw true_ (ends n.xdmad i used)
          | inr false_ ↦ rw false_ (rests n.xdmad)
        ] in
      rw (ap (λ p. p.0.xdmad) (some_inj.0 e₂)) at ended_or_not

  pub handle_channel-Runs :
      (interrupts running i : ℕ) (n : Node dev board) (exec : Bool) (next : Next (Node dev board))
      → handle_channel dev board invoke interrupts running i n exec ≡ some next
      → Runs n (node next)
  unfolding handle_channel
  handle_channel-Runs interrupts running i n exec next e =
      elim (Bool-cases (has interrupts (2 ^ i))) [
        | inr quiet ↦ same n n (node next) (rests n.xdmad) (ap (Option.map node) (simp quiet at e))
        | inl pending ↦ elim (Bool-cases (is_free (state_of n.xdmad i))) [
          | inl unused ↦
              same n n (node next) (rests n.xdmad)
                (ap (Option.map node) (simp (pending, unused) at e))
          | inr used ↦ elim (Bool-cases (has running (2 ^ i))) [
            | inl runs ↦
                let (n₁, block, e₁) =
                  bind-some (block_end dev board invoke i n) _ (simp (pending, used, runs) at e) in
                let (n₂, call, e₂) = bind-some (execute dev board invoke i exec n₁) _ e₁ in
                same n n₂ (node next)
                  (both n n₁ n₂ (block_end-Runs i n n₁ block) (execute-Runs i exec n₁ n₂ call))
                  (ap (Option.map node) e₂)
            | inr stopped ↦
                let ((n₁, ended), finished, e₁) =
                  bind-some (finish dev board invoke i n) _ (simp (pending, used, stopped) at e) in
                let (n₂, call, e₂) = bind-some (execute dev board invoke i ended n₁) _ e₁ in
                same n n₂ (node next)
                  (both n n₁ n₂ (finish-Runs i n n₁ ended used finished)
                    (execute-Runs i ended n₁ n₂ call))
                  (ap (Option.map node) e₂)
          ]
        ]
      ]

  handle_from-Runs :
      (interrupts running rounds i : ℕ) (n n' : Node dev board) (exec : Bool)
      → handle_from dev board invoke interrupts running i rounds n exec ≡ some n'
      → Runs n n'
  unfolding handle_from
  handle_from-Runs interrupts running zero i n n' exec e = same n n n' (rests n.xdmad) e
  handle_from-Runs interrupts running (suc rounds) i n n' exec e =
      elim (Bool-cases (leb n.xdmad.num_channels i)) [
        | inl past ↦ same n n n' (rests n.xdmad) (simp past at e)
        | inr more ↦
            let (next, round, rest) =
              bind-some (handle_channel dev board invoke interrupts running i n exec) _
                (simp more at e) in
            both n (node next) n' (handle_channel-Runs interrupts running i n exec next round) (
              after next rest
                (λ n₁ exec₁ e'. handle_from-Runs interrupts running rounds (i + 1) n₁ n' exec₁ e'))
      ]
    where
      after :
          (next : Next (Node dev board))
          → elim next [
            | returned n₁ ↦ some n₁
            | continued n₁ exec₁ ↦
                handle_from dev board invoke interrupts running (i + 1) rounds n₁ exec₁
          ]
            ≡ some n'
          → ((n₁ : Node dev board) (exec₁ : Bool)
              → handle_from dev board invoke interrupts running (i + 1) rounds n₁ exec₁ ≡ some n'
              → Runs n₁ n')
          → Runs (node next) n'
      after (returned n₁) e' go_on = same n₁ n₁ n' (rests n₁.xdmad) e'
      after (continued n₁ exec₁) e' go_on = go_on n₁ exec₁ e'

  pub handler-Runs : (n n' : Node dev board) → handler dev board invoke n ≡ some n' → Runs n n'
  unfolding handler get_gisr get_global_ch_status
  handler-Runs n n' e =
      let (interrupts, s₁) = dev.read (global gis) n.device in
      let (running, s₂) = dev.read (global gs) s₁ in
      elim (Bool-cases (has interrupts 0xff_ffff)) [
        | inl pending ↦
            handle_from-Runs interrupts running 32 0 (record n { device = s₂ }) n' false
              (simp pending at e)
        | inr quiet ↦ same n (record n { device = s₁ }) n' (rests n.xdmad) (simp quiet at e)
      ]

  pub is_transfer_done-Runs :
      (channel : ℕ) (n n' : Node dev board) (code : ReturnCode)
      → is_transfer_done dev board invoke channel n ≡ some (n', code)
      → Runs n n'
  unfolding is_transfer_done
  is_transfer_done-Runs channel n n' code e =
      let cleaned = clean dev board invoke n in
      elim (Bool-cases (leb n.xdmad.num_channels (u8 channel))) [
        | inl outside ↦ same n n n' (rests n.xdmad) (ap (Option.map (λ p. p.0)) (simp outside at e))
        | inr inside ↦ elim (Option-cases (answer (state_of n.xdmad (u8 channel)))) [
          | inr (known, e₁) ↦
              same n cleaned n' (rests n.xdmad)
                (ap (Option.map (λ p. p.0)) (simp (inside, e₁) at e))
          | inl asks ↦ elim (Bool-cases (n.xdmad.polling_mode == 0)) [
            | inl interrupts ↦
                same n cleaned n' (rests n.xdmad)
                  (ap (Option.map (λ p. p.0)) (simp (inside, asks, interrupts) at e))
            | inr polls ↦
                let (n₁, handled, e₁) =
                  bind-some (handler dev board invoke cleaned) _
                    (simp (inside, asks, polls) at e) in
                same n n₁ n' (handler-Runs cleaned n₁ handled) (ap (Option.map (λ p. p.0)) e₁)
          ]
        ]
      ]
