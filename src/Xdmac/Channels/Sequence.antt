-- ===== src/Xdmac/Channels/Sequence.antt =====
-- A sequence of allocations without a release, against a counter of the channels given out.
use taste_samv71_rtems_runti.Common.{
  ℕ, zero, suc, ◌+◌, ◌≤◌, ◌<◌, ◌≡◌, inl, inr, refl, sym, ◌∙◌, ap, true, false, List, [], ◌∷◌,
  if◌then◌else◌, ◌&&◌, arith, length, length-modify, ltb, get_or, Bool-cases,
}
use native.Mathlib.Decide.{ℕ_discrete, dec_lt}
use taste_samv71_rtems_runti.Xdmac.Table.{Peripheral}
use taste_samv71_rtems_runti.Xdmac.Channels.{
  Channel, is_free, blank, alloc_failed, Xdmad, claim, allocate_from, can_transfer,
  allocate_xdmac_channel,
}
use taste_samv71_rtems_runti.Xdmac.Channels.Allocation.{Given, NoneFree, allocate_xdmac_channel_lem}

-- The source and the destination of each request
abbrev pub Requests : Type 0
Requests = List (ℕ × ℕ)

-- The number of channels and their array are kept.
abbrev pub Sized : Xdmad → Xdmad → Type 0
Sized x x' = (x'.num_channels ≡ x.num_channels) × (length x'.channels ≡ length x.channels)

-- The channels below `given`, and no other, are in use.
pub record IsFilled (given : ℕ) (x : Xdmad) : Type 0 where
  pub within : given ≤ x.num_channels
  pub room : x.num_channels ≤ length x.channels
  pub small : x.num_channels ≤ 256
  pub taken : (j : ℕ) → j < given → is_free (get_or x.channels j blank).state ≡ false
  pub left :
      (j : ℕ) → given ≤ j → j < x.num_channels → is_free (get_or x.channels j blank).state ≡ true

module _ (periph_id : Peripheral → ℕ) (xdmac_type : ℕ) where
  -- The answers of the driver to the requests, one after the other
  unfoldable pub allocate_all : Requests → Xdmad → List ℕ
  allocate_all [] x = []
  allocate_all ((src, dst) ∷ rs) x =
      let (x', c) = allocate_xdmac_channel periph_id xdmac_type src dst x in c ∷ allocate_all rs x'

  -- The same by a counter: the channels below `given` are in use, those from it on are free.
  unfoldable pub count_all : ℕ → ℕ → Requests → List ℕ
  count_all channels given [] = []
  count_all channels given ((src, dst) ∷ rs) =
      let fits = can_transfer periph_id xdmac_type src dst && ltb given channels in
      (if fits then given else alloc_failed)
      ∷ count_all channels (if fits then given + 1 else given) rs

  module _ (src dst : ℕ) where
    allocate_from-Sized :
        (left i : ℕ) (x : Xdmad) → Sized x (allocate_from periph_id xdmac_type src dst i left x).0
    unfolding allocate_from
    allocate_from-Sized zero i x = (refl, refl)
    allocate_from-Sized (suc left) i x =
        elim (Bool-cases (is_free (get_or x.channels i blank).state)) [
          | inl here ↦ rw here (refl, length-modify x.channels i _)
          | inr there ↦ rw there (allocate_from-Sized left (i + 1) x)
        ]

    pub allocate_xdmac_channel-Sized :
        (x : Xdmad) → Sized x (allocate_xdmac_channel periph_id xdmac_type src dst x).0
    unfolding allocate_xdmac_channel
    allocate_xdmac_channel-Sized x = elim (Bool-cases (can_transfer periph_id xdmac_type src dst)) [
      | inl allowed ↦ rw allowed (allocate_from-Sized x.num_channels 0 x)
      | inr refused ↦ rw refused (refl, refl)
    ]

    Given-IsFilled :
        {k c : ℕ} {x x' : Xdmad}
        → IsFilled k x
        → Given periph_id xdmac_type src dst 0 x x' c
        → Sized x x'
        → (c ≡ k) × (k < x.num_channels) × IsFilled (k + 1) x'
    unfolding claim
    Given-IsFilled {k} {c} {x} {x'} f g (same, sized) =
        let above : k ≤ c = elim (dec_lt c k) [
          | yes below ↦ absurd (let t = f.taken c below in let u = g.was_free in cc)
          | no h ↦ omega arith
        ] in
        let inside = g.inside in
        let exact : c ≡ k = elim (dec_lt k c) [
          | yes below ↦ absurd (
              let t = f.left k (omega arith) (omega arith) in
              let u = g.is_first k (omega arith) below in cc)
          | no h ↦ omega arith
        ] in
        (
          exact,
          omega arith,
          record {
            within = omega (arith, f.within);
            room = omega (arith, f.room);
            small = omega (arith, f.small);
            taken = λ j h. elim (ℕ_discrete c j) [
              | yes e ↦ rw (sym e) (ap (λ (d : Channel). is_free d.state) g.claimed)
              | no ne ↦
                  ap (λ (d : Channel). is_free d.state) (g.others j ne) ∙ f.taken j (omega arith)
            ];
            left = λ j h low.
                ap (λ (d : Channel). is_free d.state) (g.others j (λ e. omega arith))
                ∙ f.left j (omega arith) (omega arith);
          },
        )

  -- Where no channel is free all are given out.
  NoneFree-full :
      (src dst k : ℕ) (x : Xdmad)
      → IsFilled k x
      → NoneFree periph_id xdmac_type src dst 0 x
      → k ≡ x.num_channels
  unfolding NoneFree
  NoneFree-full src dst k x f none_free = elim (dec_lt k x.num_channels) [
    | yes more ↦
        absurd (let t = f.left k (omega arith) more in let u = none_free k (omega arith) more in cc)
    | no h ↦ omega (arith, f.within)
  ]

  -- One request, answered as the counter answers it
  allocate_one :
      (src dst k : ℕ) (x : Xdmad)
      → IsFilled k x
      → let (x', c) = allocate_xdmac_channel periph_id xdmac_type src dst x in
        let fits = can_transfer periph_id xdmac_type src dst && ltb k x.num_channels in
        (x'.num_channels ≡ x.num_channels)
        × (c ≡ (if fits then k else alloc_failed))
        × IsFilled (if fits then k + 1 else k) x'
  allocate_one src dst k x f =
      let (same, sized) = allocate_xdmac_channel-Sized src dst x in
      elim (allocate_xdmac_channel_lem periph_id xdmac_type src dst x f.room f.small) [
        | inl (kept, failed, inl none_free) ↦
            let full : ltb k x.num_channels ≡ false =
              let e = NoneFree-full src dst k x f none_free in ground arith in
            elim (Bool-cases (can_transfer periph_id xdmac_type src dst)) [
              | inl allowed ↦ rw (allowed, full) (same, failed, rw kept f)
              | inr refused ↦ rw refused (same, failed, rw kept f)
            ]
        | inl (kept, failed, inr refused) ↦ rw refused (same, failed, rw kept f)
        | inr (allowed, given) ↦
            let (exact, more, filled) = Given-IsFilled src dst f given (same, sized) in
            let room : ltb k x.num_channels ≡ true = ground arith in
            rw (allowed, room) (same, exact, filled)
      ]

  -- From an instance in which the channels below `given` and no other are in use, with at most 256
  -- channels, any sequence of allocations without a release is answered as by a counter: a request
  -- that the table of peripherals allows gets the next channel until all are given out, and any other
  -- request, or one behind the last channel, gets the failure code and takes no channel.
  pub allocate_all-eq-count_all :
      (rs : Requests) (given : ℕ) (x : Xdmad)
      → IsFilled given x
      → allocate_all rs x ≡ count_all x.num_channels given rs
  unfolding allocate_all count_all
  allocate_all-eq-count_all [] given x f = refl
  allocate_all-eq-count_all ((src, dst) ∷ rs) given x f =
      let (same, answer, filled) = allocate_one src dst given x f in
      let x' = (allocate_xdmac_channel periph_id xdmac_type src dst x).0 in
      let rest = allocate_all-eq-count_all rs _ x' filled in simp (answer, rest, same)
