-- ===== src/SamV71Core/Cache/Regions.antt =====
-- How often the data cache can be disabled, and which regions that takes.
use native.Mathlib.Decide.{ℕ_discrete}
use taste_samv71_rtems_runti.Common.{
  get_or, inl, inr, ◌⊎◌, Bool-cases, ltb, lt→ltb, ℕ, zero, suc, ◌+◌, ◌-◌, ◌^◌, ◌<◌, ◌≤◌, ◌≡◌, ◌≢◌,
  ◌∙◌, ap, true, false, Option, none, some, List, [], ◌∷◌, arith, length, u32,
}
use taste_samv71_rtems_runti.SamV71Core.Cache.{
  Mpu, uncached, accepts, disable_data_cache_in_region, first_region, generate_new_name,
}

module _ (mpu : Mpu) where
  -- A sequence of calls, each with an address and a size exponent; a failed assertion ends it.
  pub disable_all : List (ℕ × ℕ) → mpu.Registers × ℕ → Option (mpu.Registers × ℕ)
  disable_all [] s = some s
  disable_all ((address, size) ∷ calls) s = elim (disable_data_cache_in_region mpu address size s) [
    | none ↦ none
    | some s' ↦ disable_all calls s'
  ]

  -- The writes that the calls stand for: region by region downwards.
  pub regions_from : ℕ → List (ℕ × ℕ) → mpu.Registers → mpu.Registers
  regions_from region [] r = r
  regions_from region ((address, size) ∷ calls) r =
      regions_from (region - 1) calls (mpu.set_region_config region (uncached address size) r)

  abbrev pub AllAccepted : List (ℕ × ℕ) → Type 0
  AllAccepted [] = Unit {0}
  AllAccepted ((address, size) ∷ calls) = (accepts mpu address size ≡ true) × AllAccepted calls

  disable_lem :
      (address size : ℕ) (r : mpu.Registers) (region : ℕ)
      → accepts mpu address size ≡ true
      → 11 < region
      → region < 256
      → disable_data_cache_in_region mpu address size (r, region)
        ≡ some (mpu.set_region_config region (uncached address size) r, region - 1)
  unfolding disable_data_cache_in_region
  disable_lem address size r region h low small =
      rw (h, lt→ltb 11 region low)
        (ap (λ k. some (mpu.set_region_config region (uncached address size) r, k)) (omega arith))

  disable_refused :
      (address size : ℕ) (r : mpu.Registers) (region : ℕ)
      → (accepts mpu address size ≡ false) ⊎ (region ≡ 11)
      → disable_data_cache_in_region mpu address size (r, region) ≡ none
  unfolding disable_data_cache_in_region
  disable_refused address size r region h = ground arith

  disable_from :
      (calls : List (ℕ × ℕ)) (region : ℕ) (r : mpu.Registers)
      → AllAccepted calls
      → region < 256
      → length calls + 11 ≤ region
      → disable_all calls (r, region) ≡ some (regions_from region calls r, region - length calls)
  unfolding disable_all regions_from
  disable_from [] region r h small room = ap (λ k. some (r, k)) (omega arith)
  disable_from ((address, size) ∷ calls) region r h small room =
      rw (disable_lem address size r region h.0 (omega arith) small, disable_all)
        (disable_from calls (region - 1) (mpu.set_region_config region (uncached address size) r)
            h.1 (omega arith) (omega arith)
          ∙ ap
              (λ k. some (
                regions_from (region - 1) calls
                    (mpu.set_region_config region (uncached address size) r),
                k,
              ))
              (omega arith))

  disable_too_many :
      (calls : List (ℕ × ℕ)) (region : ℕ) (r : mpu.Registers)
      → region < 256
      → 11 ≤ region
      → region < length calls + 11
      → disable_all calls (r, region) ≡ none
  unfolding disable_all
  disable_too_many [] region r small low many = absurd (omega arith)
  disable_too_many ((address, size) ∷ calls) region r small low many =
      elim (Bool-cases (accepts mpu address size)) [
        | inr refused ↦ rw (disable_refused address size r region (inl refused), disable_all)
        | inl accepted ↦ elim (ℕ_discrete region 11) [
          | yes last ↦ rw (disable_refused address size r region (inr last), disable_all)
          | no more ↦
              rw (disable_lem address size r region accepted (omega arith) small, disable_all)
                (disable_too_many calls (region - 1) _ (omega arith) (omega arith) (omega arith))
        ]
      ]

  -- From the start, up to four calls with acceptable arguments succeed and take the regions 15, 14, 13
  -- and 12 in this order, each written with the address and size of its call; five such calls or more
  -- end in a failed assertion.
  pub disable_all_lem :
      (calls : List (ℕ × ℕ)) (r : mpu.Registers)
      → AllAccepted calls
      → ((length calls ≤ 4)
          × (disable_all calls (r, first_region)
              ≡ some (regions_from first_region calls r, first_region - length calls)))
        ⊎ ((4 < length calls) × (disable_all calls (r, first_region) ≡ none))
  disable_all_lem calls r h = elim (Bool-cases (ltb 4 (length calls))) [
    | inl many ↦ inr (
      ground arith,
      disable_too_many calls first_region r (omega arith) (omega arith) (ground arith),
    )
    | inr few ↦ inl (ground arith, disable_from calls first_region r h (omega arith) (ground arith))
  ]

-- The names of n calls of a generator.
pub names : ℕ → ℕ → List ℕ
names zero name = []
names (suc n) name = let (given, next) = generate_new_name name in given ∷ names n next

names_lem : (n name k : ℕ) → name < 2 ^ 32 → k < n → get_or (names n name) k 0 ≡ u32 (name + k)
unfolding names generate_new_name
names_lem zero name k small h = absurd (omega arith)
names_lem (suc n) name zero small h = omega arith
names_lem (suc n) name (suc k) small h =
    names_lem n (u32 (name + 1)) k (omega arith) (omega arith) ∙ omega arith

-- Up to 2^32 names that one generator gives differ from one another.
pub names_distinct :
    (n name i j : ℕ)
    → name < 2 ^ 32
    → n ≤ 2 ^ 32
    → i < j
    → j < n
    → get_or (names n name) i 0 ≢ get_or (names n name) j 0
names_distinct n name i j small few lt inside e =
    omega (arith, names_lem n name i small (omega arith), names_lem n name j small inside)
