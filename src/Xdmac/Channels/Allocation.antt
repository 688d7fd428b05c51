-- ===== src/Xdmac/Channels/Allocation.antt =====
-- Which channel an allocation gives, and what a release needs.
use taste_samv71_rtems_runti.Common.{
  ℕ, zero, suc, ◌+◌, ◌≤◌, ◌<◌, ◌≡◌, ◌≢◌, ◌⊎◌, inl, inr, refl, sym, true, false, arith, length,
  get_or, get_or-modify_self, get_or-modify_ne, Bool-cases, u8,
}
use mathlib.Core.Path.{subst}
use native.Mathlib.Decide.{ℕ_discrete, dec_lt}
use taste_samv71_rtems_runti.Xdmac.Table.{Peripheral}
use taste_samv71_rtems_runti.Xdmac.Channels.{
  is_free, blank, alloc_failed, Xdmad, claim, allocate_from, can_transfer, allocate_xdmac_channel,
}

module _ (periph_id : Peripheral → ℕ) (xdmac_type src dst : ℕ) where
  -- The channel c was the first free one from i on, and is now claimed; all other channels are kept.
  pub record Given (i : ℕ) (x x' : Xdmad) (c : ℕ) : Type 0 where
    pub from : i ≤ c
    pub inside : c < x.num_channels
    pub was_free : is_free (get_or x.channels c blank).state ≡ true
    pub is_first : (j : ℕ) → i ≤ j → j < c → is_free (get_or x.channels j blank).state ≡ false
    pub claimed :
        get_or x'.channels c blank ≡ claim periph_id xdmac_type src dst (get_or x.channels c blank)
    pub others : (j : ℕ) → c ≢ j → get_or x'.channels j blank ≡ get_or x.channels j blank

  -- No channel from i on is free.
  unfoldable pub NoneFree : ℕ → Xdmad → Type 0
  NoneFree i x =
      (j : ℕ) → i ≤ j → j < x.num_channels → is_free (get_or x.channels j blank).state ≡ false

  free_here :
      (x : Xdmad) (i j : ℕ)
      → is_free (get_or x.channels i blank).state ≡ false
      → i ≤ j
      → (i + 1 ≤ j → is_free (get_or x.channels j blank).state ≡ false)
      → is_free (get_or x.channels j blank).state ≡ false
  free_here x i j taken p later = elim (ℕ_discrete i j) [
    | yes same ↦ rw (sym same) taken
    | no other ↦ later (omega arith)
  ]

  allocate_from_lem :
      (left i : ℕ) (x : Xdmad)
      → i + left ≡ x.num_channels
      → x.num_channels ≤ length x.channels
      → x.num_channels ≤ 256
      → let (x', c) = allocate_from periph_id xdmac_type src dst i left x in
        ((x' ≡ x) × (c ≡ alloc_failed) × NoneFree i x) ⊎ Given i x x' c
  unfolding allocate_from NoneFree
  allocate_from_lem zero i x e room small = inl (refl, refl, λ j p q. absurd (omega arith))
  allocate_from_lem (suc left) i x e room small =
      elim (Bool-cases (is_free (get_or x.channels i blank).state)) [
        | inl free_i ↦ rw free_i (
            inr (
              let low : u8 i ≡ i = omega arith in
              rw low (record {
                from = omega arith;
                inside = omega arith;
                was_free = free_i;
                is_first = λ j p q. absurd (omega arith);
                claimed = get_or-modify_self x.channels i _ blank (omega arith);
                others = λ j ne. get_or-modify_ne x.channels i j _ blank ne;
              })))
        | inr taken ↦ rw taken (elim (allocate_from_lem left (i + 1) x (omega arith) room small) [
          | inl (same, failed, none_free) ↦
              inl (same, failed, λ j p q. free_here x i j taken p (λ p'. none_free j p' q))
          | inr given ↦ inr record {
            from = omega arith;
            inside = given.inside;
            was_free = given.was_free;
            is_first = λ j p q. free_here x i j taken p (λ p'. given.is_first j p' q);
            claimed = given.claimed;
            others = given.others;
          }
        ])
      ]

  -- With at most 256 channels, an allocation that the table of peripherals allows gives the first free
  -- channel, which is then claimed for the two peripherals, and keeps all others; without a free
  -- channel, or when the table does not allow it, it returns the failure code and changes nothing.
  pub allocate_xdmac_channel_lem :
      (x : Xdmad)
      → x.num_channels ≤ length x.channels
      → x.num_channels ≤ 256
      → let (x', c) = allocate_xdmac_channel periph_id xdmac_type src dst x in
        ((x' ≡ x)
          × (c ≡ alloc_failed)
          × (NoneFree 0 x ⊎ (can_transfer periph_id xdmac_type src dst ≡ false)))
        ⊎ ((can_transfer periph_id xdmac_type src dst ≡ true) × Given 0 x x' c)
  unfolding allocate_xdmac_channel
  allocate_xdmac_channel_lem x room small =
      elim (Bool-cases (can_transfer periph_id xdmac_type src dst)) [
        | inl allowed ↦
            rw allowed (elim (allocate_from_lem x.num_channels 0 x (omega arith) room small) [
              | inl (same, failed, none_free) ↦ inl (same, failed, inl none_free)
              | inr given ↦ inr (refl, given)
            ])
        | inr refused ↦ rw refused (inl (refl, refl, inr refl))
      ]

  abbrev pub with_claim : Xdmad → Xdmad
  with_claim x = (allocate_xdmac_channel periph_id xdmac_type src dst x).0

  -- The first free channel is the one that is given.
  pub allocate_xdmac_channel-first :
      (i : ℕ) (x : Xdmad)
      → can_transfer periph_id xdmac_type src dst ≡ true
      → i < x.num_channels
      → x.num_channels ≤ length x.channels
      → x.num_channels ≤ 256
      → is_free (get_or x.channels i blank).state ≡ true
      → ((k : ℕ) → k < i → is_free (get_or x.channels k blank).state ≡ false)
      → ((allocate_xdmac_channel periph_id xdmac_type src dst x).1 ≡ i) × Given 0 x (with_claim x) i
  unfolding NoneFree
  allocate_xdmac_channel-first i x allowed exists room small free_i before =
      elim (allocate_xdmac_channel_lem x room small) [
        | inl (kept, failed, inl none_free) ↦
            absurd (let t = none_free i (omega arith) exists in cc)
        | inl (kept, failed, inr refused) ↦ absurd (cc)
        | inr (yes_allowed, given) ↦
            let c = (allocate_xdmac_channel periph_id xdmac_type src dst x).1 in
            let exact : c ≡ i = elim (dec_lt c i) [
              | yes below ↦ absurd (let t = before c below in let u = given.was_free in cc)
              | no h ↦ elim (dec_lt i c) [
                | yes above ↦ absurd (let t = given.is_first i (omega arith) above in cc)
                | no h' ↦ omega arith
              ]
            ] in
            (exact, subst (λ d. Given 0 x (with_claim x) d) exact given)
      ]
