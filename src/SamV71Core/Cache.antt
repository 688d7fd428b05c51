-- ===== src/SamV71Core/Cache.antt =====
-- `SamV71Core_DisableDataCacheInRegion` and the name generators of src/SamV71Core/SamV71Core.c. The
-- memory protection unit's driver and its address mask are no part of the repository: `Mpu` is its
-- interface. A failed assertion is `none`.
pub mod Regions
use taste_samv71_rtems_runti.Common.{
  ℕ, ◌+◌, ◌-◌, ◌*◌, ◌^◌, Bool, true, false, Option, none, some, List, [], ◌∷◌, if◌then◌else◌, ltb,
  leb, ◌==◌, ◌&&◌, bit_and, u8, u32,
}

pub data MemoryType : Type 0 where
  strongly_ordered other_type : MemoryType

pub data CachePolicy : Type 0 where
  non_cacheable other_policy : CachePolicy

pub data Access : Type 0 where
  read_write other_access : Access

-- `Mpu_RegionConfig`
pub record RegionConfig : Type 0 where
  pub address : ℕ
  pub is_enabled : Bool
  pub size : ℕ
  pub subregion_disable_mask : ℕ
  pub is_shareable : Bool
  pub is_executable : Bool
  pub memory_type : MemoryType
  pub inner_cache_policy : CachePolicy
  pub outer_cache_policy : CachePolicy
  pub privileged_access : Access
  pub unprivileged_access : Access

pub record Mpu : Type 1 where
  pub Registers : Type 0
  pub rbar_addr_mask : ℕ
  pub set_region_config : ℕ → RegionConfig → Registers → Registers

abbrev pub uncached : ℕ → ℕ → RegionConfig
uncached address size_exponent = record {
  address = u32 address;
  is_enabled = true;
  size = size_exponent;
  subregion_disable_mask = 0;
  is_shareable = true;
  is_executable = true;
  memory_type = strongly_ordered;
  inner_cache_policy = non_cacheable;
  outer_cache_policy = non_cacheable;
  privileged_access = read_write;
  unprivileged_access = read_write;
}

module _ (mpu : Mpu) where
  -- The three assertions on the arguments; `~mask` is on 32 bits.
  unfoldable pub accepts : ℕ → ℕ → Bool
  accepts address size_exponent =
      bit_and (u32 address) (2 ^ 32 - 1 - u32 mpu.rbar_addr_mask) == 0
      && leb 4 size_exponent
      && leb size_exponent 31

  -- On the unit's registers and the static variable `region`.
  unfoldable pub disable_data_cache_in_region :
      ℕ → ℕ → mpu.Registers × ℕ → Option (mpu.Registers × ℕ)
  disable_data_cache_in_region address size_exponent (r, region) =
      if accepts address size_exponent && ltb 11 region
      then some (mpu.set_region_config region (uncached address size_exponent) r, u8 (region + 255))
      else none

abbrev pub first_region : ℕ
first_region = 15

-- `SamV71Core_GenerateNewSemaphoreName` and `SamV71Core_GenerateNewTaskName`: the static variable is
-- returned and then counted up.
unfoldable pub generate_new_name : ℕ → ℕ × ℕ
generate_new_name name = (name, u32 (name + 1))
