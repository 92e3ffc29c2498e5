-- ===== src/Region.antt =====
-- The metadata of a region, its placement policy and its counters:
-- crates/tvm-core/src/region.rs, residency.rs, policy.rs and metrics.rs.
use tvm_wasm.Base.{ℕ, ◌+◌, ◌%◌, Bool, true, false, u64_mod}

pub data RegionKind : Type 0 where
  hot_heap object_arena blob_arena page_store scratch device_state code_cache : RegionKind

pub data Residency : Type 0 where
  hot warm cold external : Residency

pub record Region : Type 0 where
  pub id : ℕ
  pub generation : ℕ
  pub capacity : ℕ
  pub used : ℕ
  pub kind : RegionKind
  pub residency : Residency
  pub pinned : Bool
  pub pinnable : Bool
  pub spillable : Bool

pub record PlacementPolicy : Type 0 where
  pub initial_residency : Residency
  pub pinnable : Bool
  pub spillable : Bool

unfoldable pub for_kind : RegionKind → PlacementPolicy
for_kind hot_heap = record { initial_residency = hot; pinnable = true; spillable = false }
for_kind code_cache = record { initial_residency = hot; pinnable = true; spillable = false }
for_kind device_state = record { initial_residency = hot; pinnable = true; spillable = false }
for_kind object_arena = record { initial_residency = hot; pinnable = false; spillable = true }
for_kind blob_arena = record { initial_residency = hot; pinnable = false; spillable = true }
for_kind page_store = record { initial_residency = warm; pinnable = false; spillable = true }
for_kind scratch = record { initial_residency = hot; pinnable = false; spillable = false }

-- `==` of residencies.
abbrev pub is_hot : Residency → Bool
is_hot hot = true
is_hot _ = false

abbrev pub is_warm : Residency → Bool
is_warm warm = true
is_warm _ = false

abbrev pub is_cold : Residency → Bool
is_cold cold = true
is_cold _ = false

abbrev pub is_external : Residency → Bool
is_external external = true
is_external _ = false

-- Hot or Warm.
abbrev pub is_resident : Residency → Bool
is_resident hot = true
is_resident warm = true
is_resident _ = false

-- The counters of the default build, where the feature `metrics` is on; each wraps like its
-- atomic `u64`.
pub record RegionMetrics : Type 0 where
  pub allocations : ℕ
  pub bytes_allocated : ℕ
  pub bytes_read : ℕ
  pub bytes_written : ℕ
  pub faults : ℕ
  pub promotions : ℕ
  pub demotions : ℕ

abbrev pub no_metrics : RegionMetrics
no_metrics = record {
  allocations = 0;
  bytes_allocated = 0;
  bytes_read = 0;
  bytes_written = 0;
  faults = 0;
  promotions = 0;
  demotions = 0;
}

abbrev fetch_add : ℕ → ℕ → ℕ
fetch_add counter n = (counter + n) % u64_mod

abbrev pub record_alloc : RegionMetrics → ℕ → RegionMetrics
record_alloc m bytes = record m {
  allocations = fetch_add m.allocations 1;
  bytes_allocated = fetch_add m.bytes_allocated bytes;
}

abbrev pub record_read : RegionMetrics → ℕ → RegionMetrics
record_read m bytes = record m { bytes_read = fetch_add m.bytes_read bytes }

abbrev pub record_write : RegionMetrics → ℕ → RegionMetrics
record_write m bytes = record m { bytes_written = fetch_add m.bytes_written bytes }

abbrev pub record_fault : RegionMetrics → RegionMetrics
record_fault m = record m { faults = fetch_add m.faults 1 }

abbrev pub record_promotion : RegionMetrics → RegionMetrics
record_promotion m = record m { promotions = fetch_add m.promotions 1 }

abbrev pub record_demotion : RegionMetrics → RegionMetrics
record_demotion m = record m { demotions = fetch_add m.demotions 1 }
