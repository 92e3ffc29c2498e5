-- ===== src/Directory.antt =====
-- `RegionDirectory` of crates/tvm-core/src/directory.rs: the table of regions and the list of the
-- warm ones. A method returns its result beside the directory that it leaves, also when it fails.
-- The thread-local error context that some failures record is not part of the state.
pub mod Access
pub mod Async
pub mod Bytes
pub mod Compact
pub mod Evict
pub mod Invariant
pub mod Slices
pub mod Spill
pub mod Step
pub mod Tiers
use tvm_wasm.Base.{
  ℕ, suc, ◌+◌, Bool, true, false, not, ltb, ◌==◌, if◌then◌else◌, List, [], ◌∷◌, ◌++◌, Option, none,
  some, length, get_elem?, set, Result, ok, err, region_not_found, allocation_failed, u16_mod,
}
use tvm_wasm.Region.{
  Region, RegionKind, Residency, PlacementPolicy, RegionMetrics, for_kind, no_metrics, is_warm,
}
use tvm_wasm.Allocator.{RegionAllocator, AllocatorKind, bump_kind}
use tvm_wasm.Allocator

pub record RegionEntry (M : Type 0) : Type 0 where
  pub meta : Region
  pub memory : Option M
  pub metrics : RegionMetrics
  pub allocator : RegionAllocator

-- The front of `warm_lru` is the region demoted last.
pub record RegionDirectory (M : Type 0) : Type 0 where
  pub regions : List (Option (RegionEntry M))
  pub warm_lru : List ℕ

-- The first occurrence goes.
abbrev pub remove_first : ℕ → List ℕ → List ℕ
remove_first id [] = []
remove_first id (x ∷ xs) = if x == id then xs else x ∷ remove_first id xs

abbrev pub last? : List ℕ → Option ℕ
last? [] = none
last? (x ∷ []) = some x
last? (x ∷ y ∷ r) = last? (y ∷ r)

module _ {M : Type 0} where
  abbrev pub new : RegionDirectory M
  new = record { regions = []; warm_lru = [] }

  unfoldable pub lru_remove : RegionDirectory M → ℕ → RegionDirectory M
  lru_remove d region_id = record d { warm_lru = remove_first region_id d.warm_lru }

  unfoldable pub lru_push_front : RegionDirectory M → ℕ → RegionDirectory M
  unfolding lru_remove
  lru_push_front d region_id = record d { warm_lru = region_id ∷ (lru_remove d region_id).warm_lru }

  unfoldable pub warm_lru_back : RegionDirectory M → Option ℕ
  warm_lru_back d = last? d.warm_lru

  -- A slot of the table that is there and in use.
  abbrev pub occupied : Option (Option (RegionEntry M)) → Option (RegionEntry M)
  occupied none = none
  occupied (some slot) = slot

  unfoldable pub entry : RegionDirectory M → ℕ → Option (RegionEntry M)
  entry d region_id = occupied (get_elem? d.regions region_id)

  -- What a method that borrowed the entry leaves in its slot.
  unfoldable pub put : RegionDirectory M → ℕ → RegionEntry M → RegionDirectory M
  put d region_id e = record d { regions = set d.regions region_id (some e) }

  unfoldable pub create_region_with_policy :
      RegionDirectory M
      → RegionKind
      → ℕ
      → AllocatorKind
      → PlacementPolicy
      → M
      → Result ℕ × RegionDirectory M
  create_region_with_policy d kind capacity allocator policy memory =
      let id = length d.regions in
      if not (ltb id u16_mod) then (err allocation_failed, d) else (
        ok id,
        record {
          regions =
              d.regions
              ++ some (record {
                meta = record {
                  id = id;
                  generation = 1;
                  capacity = capacity;
                  used = 0;
                  kind = kind;
                  residency = policy.initial_residency;
                  pinned = false;
                  pinnable = policy.pinnable;
                  spillable = policy.spillable;
                };
                memory = some memory;
                metrics = no_metrics;
                allocator = Allocator.new allocator capacity;
              })
                ∷ [];
          warm_lru = if is_warm policy.initial_residency then id ∷ d.warm_lru else d.warm_lru;
        },
      )

  unfoldable pub create_region_with :
      RegionDirectory M → RegionKind → ℕ → AllocatorKind → M → Result ℕ × RegionDirectory M
  unfolding create_region_with_policy for_kind
  create_region_with d kind capacity allocator memory =
      create_region_with_policy d kind capacity allocator (for_kind kind) memory

  unfoldable pub create_region :
      RegionDirectory M → RegionKind → ℕ → M → Result ℕ × RegionDirectory M
  unfolding create_region_with
  create_region d kind capacity memory = create_region_with d kind capacity bump_kind memory

  unfoldable pub destroy_region : RegionDirectory M → ℕ → Result (Unit {0}) × RegionDirectory M
  unfolding entry lru_remove
  destroy_region d region_id = elim (entry d region_id) [
    | none ↦ (err (region_not_found region_id), d)
    | some _ ↦ (ok tt, lru_remove (record d { regions = set d.regions region_id none }) region_id)
  ]

  unfoldable pub region_info : RegionDirectory M → ℕ → Result Region
  unfolding entry
  region_info d region_id = elim (entry d region_id) [
    | none ↦ err (region_not_found region_id)
    | some e ↦ ok e.meta
  ]

  abbrev live_slots : List (Option (RegionEntry M)) → ℕ
  live_slots [] = 0
  live_slots (none ∷ r) = live_slots r
  live_slots (some _ ∷ r) = suc (live_slots r)

  unfoldable pub len : RegionDirectory M → ℕ
  len d = live_slots d.regions
