-- ===== src/Directory/Step.antt =====
-- The calls of a `RegionDirectory` (crates/tvm-core/src/directory.rs) as steps, and runs of them.
use tvm_wasm.Base.{ℕ, ◌<◌, ◌≡◌, List, [], ◌∷◌, Option, none, some, Result, u32_mod, All, refl, ap}
use tvm_wasm.Handle.{Handle}
use tvm_wasm.Region.{RegionKind, PlacementPolicy}
use tvm_wasm.Memory.{MemoryRegion, IsMemory, BackingStore}
use tvm_wasm.Allocator.{AllocatorKind}
use tvm_wasm.Allocator.Sound.{KindFits}
use tvm_wasm.Directory.{RegionDirectory, create_region_with_policy, destroy_region}
use tvm_wasm.Directory.Access.{
  alloc_aligned, dealloc, pin, unpin, bump_generation, read, write, cross_region_copy, read_into,
  write_from,
}
use tvm_wasm.Directory.Tiers.{
  mark_external, load_external_region, restore_region, spill_region, load_region, promote_region,
  demote_region, evict_warm_region, read_or_fault, write_or_fault,
}
use tvm_wasm.Directory.Compact.{HandleRemap, compact_region}
use tvm_wasm.Directory.Compact.Migrate.{compact_region_total}
use tvm_wasm.Directory.Invariant.{IsDirectory}
use tvm_wasm.Directory.Invariant.Access.{
  create-IsDirectory, destroy_region-IsDirectory, alloc_aligned-IsDirectory, dealloc-IsDirectory,
  pin-IsDirectory, unpin-IsDirectory, bump_generation-IsDirectory,
}
use tvm_wasm.Directory.Invariant.Bytes.{
  read-IsDirectory, write-IsDirectory, copy-IsDirectory, read_into-IsDirectory,
  write_from-IsDirectory,
}
use tvm_wasm.Directory.Invariant.Tiers.{
  mark_external-IsDirectory, load_external-IsDirectory, restore_region-IsDirectory,
  spill_region-IsDirectory, load_region-IsDirectory, promote_region-IsDirectory,
  demote_region-IsDirectory, evict_warm_region-IsDirectory, read_or_fault-IsDirectory,
  write_or_fault-IsDirectory,
}

-- The synchronous methods that change a directory. An asynchronous one, awaited over an adapter, is
-- its synchronous cousin (Directory/Async/Adapter); the slices are apart (Directory/Slices). A
-- loader and a file come with what they give.
pub data Command (M : Type 0) : Type 0 where
  create : RegionKind → ℕ → AllocatorKind → PlacementPolicy → M → Command M
  destroy promote demote spill load pin_it unpin_it bump_it compact mark : ℕ → Command M
  alloc_in : ℕ → ℕ → ℕ → Command M
  dealloc_at : Handle → Command M
  read_at read_fault : Handle → ℕ → Command M
  write_at write_fault : Handle → List ℕ → Command M
  copy : ℕ → ℕ → ℕ → ℕ → ℕ → Command M
  copy_into : Handle → ℕ → ℕ → ℕ → Command M
  copy_from : ℕ → ℕ → Handle → ℕ → Command M
  evict : Command M
  fetch : ℕ → (ℕ → ℕ → Result (List ℕ)) → Command M
  restore_from : ℕ → Result (List ℕ) → Command M

module _ {M B : Type 0} (mem : MemoryRegion M) (store : BackingStore B) where
  -- What a compaction leaves; `none` is its panic.
  abbrev after_compact :
      Option (Result HandleRemap × RegionDirectory M) → B → Option (B × RegionDirectory M)
  after_compact none b = none
  after_compact (some (_, d)) b = some (b, d)

  abbrev without_result {ℓ} :
      {A : Type ℓ} → A × B × RegionDirectory M → Option (B × RegionDirectory M)
  without_result (_, b, d) = some (b, d)

  -- The store and the directory after a call; `none` is a panic.
  unfoldable pub step : Command M → B → RegionDirectory M → Option (B × RegionDirectory M)
  step (create k c a p m) b d = some (b, (create_region_with_policy d k c a p m).1)
  step (destroy id) b d = some (b, (destroy_region d id).1)
  step (promote id) b d = without_result (promote_region mem store d id b)
  step (demote id) b d = without_result (demote_region mem store d id b)
  step (spill id) b d = without_result (spill_region mem store d id b)
  step (load id) b d = without_result (load_region mem store d id b)
  step (pin_it id) b d = some (b, (pin d id).1)
  step (unpin_it id) b d = some (b, (unpin d id).1)
  step (bump_it id) b d = some (b, (bump_generation d id).1)
  step (compact id) b d = after_compact (compact_region mem d id) b
  step (mark id) b d = some (b, (mark_external d id).1)
  step (alloc_in id n align) b d = some (b, (alloc_aligned d id n align).1)
  step (dealloc_at h) b d = some (b, (dealloc d h).1)
  step (read_at h n) b d = some (b, (read mem d h n).1)
  step (read_fault h n) b d = without_result (read_or_fault mem store d h n b)
  step (write_at h bytes) b d = some (b, (write mem d h bytes).1)
  step (write_fault h bytes) b d = without_result (write_or_fault mem store d h bytes b)
  step (copy s so t to n) b d = some (b, (cross_region_copy mem d s so t to n).1)
  step (copy_into src t to n) b d = some (b, (read_into mem d src t to n).1)
  step (copy_from s so dst n) b d = some (b, (write_from mem d s so dst n).1)
  step evict b d = without_result (evict_warm_region mem store d b)
  step (fetch id loader) b d = some (b, (load_external_region mem d id loader).1)
  step (restore_from id file) b d = some (b, (restore_region mem d id file).1)

  -- The arguments that the calls are given: a region has at least one byte and a class of a slab too,
  -- and sizes are `u32`.
  abbrev pub Fits : Command M → Type 0
  Fits (create k c a p m) = (0 < c) × (c < u32_mod) × KindFits a
  Fits (alloc_in id n align) = align < u32_mod
  Fits _ = Unit {0}

  unfoldable pub run : List (Command M) → B → RegionDirectory M → Option (B × RegionDirectory M)
  run [] b d = some (b, d)
  run (c ∷ cs) b d = elim (step c b d) [ none ↦ none | some (b', d') ↦ run cs b' d' ]

  step-IsDirectory :
      IsMemory mem
      → (c : Command M) (b : B) (d : RegionDirectory M) → Fits c
      → IsDirectory d
      → (b' : B) × (d' : RegionDirectory M) × (step c b d ≡ some (b', d')) × IsDirectory d'
  unfolding step
  step-IsDirectory laws (create k c a p m) b d f v =
      (_, _, refl, create-IsDirectory d k c a p m f.0 f.1 f.2 v)
  step-IsDirectory laws (destroy id) b d f v = (_, _, refl, destroy_region-IsDirectory d id v)
  step-IsDirectory laws (promote id) b d f v =
      (_, _, refl, promote_region-IsDirectory mem store d id b v)
  step-IsDirectory laws (demote id) b d f v =
      (_, _, refl, demote_region-IsDirectory mem store d id b v)
  step-IsDirectory laws (spill id) b d f v =
      (_, _, refl, spill_region-IsDirectory mem store d id b v)
  step-IsDirectory laws (load id) b d f v = (_, _, refl, load_region-IsDirectory mem store d id b v)
  step-IsDirectory laws (pin_it id) b d f v = (_, _, refl, pin-IsDirectory d id v)
  step-IsDirectory laws (unpin_it id) b d f v = (_, _, refl, unpin-IsDirectory d id v)
  step-IsDirectory laws (bump_it id) b d f v = (_, _, refl, bump_generation-IsDirectory d id v)
  step-IsDirectory laws (compact id) b d f v =
      let (r, d', ends, w) = compact_region_total mem laws d id v in
      (b, d', ap (λ x. after_compact x b) ends, w)
  step-IsDirectory laws (mark id) b d f v = (_, _, refl, mark_external-IsDirectory d id v)
  step-IsDirectory laws (alloc_in id n align) b d f v =
      (_, _, refl, alloc_aligned-IsDirectory d id n align f v)
  step-IsDirectory laws (dealloc_at h) b d f v = (_, _, refl, dealloc-IsDirectory d h v)
  step-IsDirectory laws (read_at h n) b d f v = (_, _, refl, read-IsDirectory mem d h n v)
  step-IsDirectory laws (read_fault h n) b d f v =
      (_, _, refl, read_or_fault-IsDirectory mem store d h n b v)
  step-IsDirectory laws (write_at h bytes) b d f v = (_, _, refl, write-IsDirectory mem d h bytes v)
  step-IsDirectory laws (write_fault h bytes) b d f v =
      (_, _, refl, write_or_fault-IsDirectory mem store d h bytes b v)
  step-IsDirectory laws (copy s so t to n) b d f v =
      (_, _, refl, copy-IsDirectory mem d s so t to n v)
  step-IsDirectory laws (copy_into src t to n) b d f v =
      (_, _, refl, read_into-IsDirectory mem d src t to n v)
  step-IsDirectory laws (copy_from s so dst n) b d f v =
      (_, _, refl, write_from-IsDirectory mem d s so dst n v)
  step-IsDirectory laws evict b d f v = (_, _, refl, evict_warm_region-IsDirectory mem store d b v)
  step-IsDirectory laws (fetch id loader) b d f v =
      (_, _, refl, load_external-IsDirectory mem d id loader v)
  step-IsDirectory laws (restore_from id file) b d f v =
      (_, _, refl, restore_region-IsDirectory mem d id file v)

  -- Over a lawful memory, every sequence of the directory's calls on a well-formed directory,
  -- whose created regions have a positive u32 capacity and a positive slab class and whose
  -- alignments are u32, runs to its end without a panic of the compaction, whatever the store
  -- does, and leaves a well-formed directory: sound allocators, `used` as the allocator counts it,
  -- generations from 1 to 65535, ids equal to slots, and a warm list of known ids without
  -- duplicates.
  pub run-IsDirectory :
      IsMemory mem
      → (cs : List (Command M)) (b : B) (d : RegionDirectory M) → All Fits cs
      → IsDirectory d
      → (b' : B) × (d' : RegionDirectory M) × (run cs b d ≡ some (b', d')) × IsDirectory d'
  unfolding run
  run-IsDirectory laws [] b d f v = (b, d, refl, v)
  run-IsDirectory laws (c ∷ cs) b d f v =
      let (b', d', stepped, w) = step-IsDirectory laws c b d f.0 v in
      rw (run, stepped) (run-IsDirectory laws cs b' d' f.1 w)
