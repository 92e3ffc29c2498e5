-- ===== src/Tests/Directories.antt =====
-- A directory of two regions, and the theorems at it.
use tvm_wasm.Base.{
  inr, ℕ, zero, suc, ◌≡◌, ◌⊎◌, refl, subst, some-inj, true, false, List, [], ◌∷◌, reverse, none,
  some, Result, ok, err, not_resident, stale_handle, allocation_failed, arith,
}
use tvm_wasm.Handle.{Handle}
use tvm_wasm.Region.{object_arena, hot_heap, warm, hot, no_metrics}
use tvm_wasm.Memory.{VecBackedRegion, vec_memory, vec_read, vec_write, BackingStore, IsStore}
use tvm_wasm.Memory.Vec.{vec-IsMemory}
use tvm_wasm.Allocator.{RegionAllocator, bump, freelist}
use tvm_wasm.Allocator
use tvm_wasm.Allocator.Sound.{is_bump, is_freelist}
use tvm_wasm.Directory.{RegionDirectory, RegionEntry, entry, put}
use tvm_wasm.Directory.Access.{validate, read, write, write_entry, bump_generation, next_generation}
use tvm_wasm.Directory.Tiers.{
  restore_region, spill_region, read_or_fault, demote_region, mark_external, evict_warm_region,
  evict_first,
}
use tvm_wasm.Directory.Compact.{
  HandleRemap, Packing, compacted, compact_region, pack_blocks, migrate,
}
use tvm_wasm.Directory.Compact.Migrate.{compact_region_total, compact_region-migrate}
use tvm_wasm.Directory.Invariant.{IsEntry, IsDirectory}
use tvm_wasm.Directory.Bytes.{read-write, validate-bump_generation}
use tvm_wasm.Directory.Spill.{read_or_fault-spill, spill_region-failed}
use tvm_wasm.Directory.Slices.{
  region_slice_at, region_full_slice, region_slice_at-read, region_full_slice-restore_region,
}
use tvm_wasm.Directory.Evict.{find_first, evictable, evict_warm_region-oldest, pinned_stays}
use tvm_wasm.Directory.Step.{alloc_in, write_at, spill, read_fault, compact, run, run-IsDirectory}
use tvm_wasm.Tests.Allocators.{arena, arena-IsFreelist}

-- The bytes of the block at 2 are 1 to 4.
abbrev pub bytes_0 : VecBackedRegion
bytes_0 = record { bytes = 0 ∷ 0 ∷ 1 ∷ 2 ∷ 3 ∷ 4 ∷ 0 ∷ 0 ∷ 0 ∷ 0 ∷ 0 ∷ 0 ∷ [] }

abbrev pub entry_0 : RegionEntry VecBackedRegion
entry_0 = record {
  meta = record {
    id = 0;
    generation = 1;
    capacity = 12;
    used = 4;
    kind = object_arena;
    residency = warm;
    pinned = false;
    pinnable = false;
    spillable = true;
  };
  memory = some bytes_0;
  metrics = no_metrics;
  allocator = freelist arena;
}

abbrev entry_1 : RegionEntry VecBackedRegion
entry_1 = record {
  meta = record {
    id = 1;
    generation = 1;
    capacity = 4;
    used = 0;
    kind = hot_heap;
    residency = hot;
    pinned = true;
    pinnable = true;
    spillable = false;
  };
  memory = some (record { bytes = 0 ∷ 0 ∷ 0 ∷ 0 ∷ [] });
  metrics = no_metrics;
  allocator = bump (record { capacity = 4; used = 0 });
}

abbrev pub two_regions : RegionDirectory VecBackedRegion
two_regions = record { regions = some entry_0 ∷ some entry_1 ∷ []; warm_lru = 0 ∷ [] }

entry_0-IsEntry : IsEntry 0 entry_0
unfolding Allocator.used
entry_0-IsEntry = record {
  named = refl;
  generation_pos = omega arith;
  generation_fits = omega arith;
  sound = is_freelist arena arena-IsFreelist refl;
  counted = refl;
}

entry_1-IsEntry : IsEntry 1 entry_1
unfolding Allocator.used
entry_1-IsEntry = record {
  named = refl;
  generation_pos = omega arith;
  generation_fits = omega arith;
  sound =
      is_bump (record { capacity = 4; used = 0 })
        (record { capacity_fits = omega arith; within = omega arith }) refl;
  counted = refl;
}

two_regions-entries :
    (id : ℕ) (e : RegionEntry VecBackedRegion) → entry two_regions id ≡ some e → IsEntry id e
unfolding entry
two_regions-entries zero e at = subst (IsEntry 0) (some-inj entry_0 e at) entry_0-IsEntry
two_regions-entries (suc zero) e at = subst (IsEntry 1) (some-inj entry_1 e at) entry_1-IsEntry
two_regions-entries (suc (suc id)) e at = absurd (ground arith)

two_regions-IsDirectory : IsDirectory two_regions
two_regions-IsDirectory = record {
  ids_fit = omega arith;
  lru_distinct = (tt, tt);
  lru_known = omega arith;
  entries = two_regions-entries;
}

abbrev pub block_2 : Handle
block_2 = record { region_id = 0; generation = 1; offset = 2 }

-- A store that keeps one file.
abbrev pub one_file : BackingStore (List ℕ)
one_file = record {
  spill = λ b id generation bytes. (ok tt, bytes);
  load = λ b id generation. (ok b, b);
}

one_file-IsStore : IsStore one_file
one_file-IsStore = record { load-spill = λ b id generation bytes done. refl }

-- A store that is full.
abbrev full_disk : BackingStore (List ℕ)
full_disk = record {
  spill = λ b id generation bytes. (err allocation_failed, b);
  load = λ b id generation. (ok b, b);
}

run-IsDirectory_example :
    (b : List ℕ) × (d : RegionDirectory VecBackedRegion) × (run vec_memory one_file
        (alloc_in 0 3 8
          ∷ write_at block_2 (7 ∷ 8 ∷ [])
          ∷ spill 0
          ∷ read_fault block_2 4
          ∷ compact 0
          ∷ [])
        []
        two_regions
      ≡ some (b, d))
    × IsDirectory d
run-IsDirectory_example =
    run-IsDirectory vec_memory one_file vec-IsMemory
      (alloc_in 0 3 8
        ∷ write_at block_2 (7 ∷ 8 ∷ [])
        ∷ spill 0
        ∷ read_fault block_2 4
        ∷ compact 0
        ∷ [])
      [] two_regions (omega arith) two_regions-IsDirectory

compact_region_total_example :
    (r : Result HandleRemap) × (d : RegionDirectory VecBackedRegion) × (compact_region vec_memory
        two_regions 0
      ≡ some (r, d))
    × IsDirectory d
compact_region_total_example =
    compact_region_total vec_memory vec-IsMemory two_regions 0 two_regions-IsDirectory

-- What the loop makes of the region.
abbrev packed_0 : Packing
packed_0 = record {
  new_data = 1 ∷ 2 ∷ 3 ∷ 4 ∷ 0 ∷ 0 ∷ 0 ∷ 0 ∷ 0 ∷ 0 ∷ 0 ∷ 0 ∷ [];
  mapping = (2, 0) ∷ [];
  new_blocks = (0, 4) ∷ [];
  cursor = 4;
}

abbrev remap_0 : HandleRemap
remap_0 = record { region_id = 0; old_generation = 1; new_generation = 2; mapping = (2, 0) ∷ [] }

compact_region-migrate_example :
    let d = put two_regions 0 (compacted vec_memory entry_0 packed_0) in
    (k : Handle) × (bytes : List ℕ) × (migrate remap_0 block_2 ≡ some k)
    × ((read vec_memory two_regions block_2 4).0 ≡ ok bytes)
    × ((read vec_memory d k 4).0 ≡ ok bytes)
    × (validate d block_2 ≡ err stale_handle)
unfolding compact_region pack_blocks vec_read Allocator.allocated_blocks next_generation entry
compact_region-migrate_example =
    compact_region-migrate vec_memory vec-IsMemory two_regions 0 entry_0 ((2, 4) ∷ []) remap_0
      (put two_regions 0 (compacted vec_memory entry_0 packed_0)) 2 4 two_regions-IsDirectory refl
      refl refl refl

read-write_example :
    let d = (write vec_memory two_regions block_2 (7 ∷ 8 ∷ [])).1 in
    ((read vec_memory d block_2 2).0 ≡ ok (7 ∷ 8 ∷ []))
    × ((block_2.region_id ≡ 1)
        ⊎ ((read vec_memory d (record { region_id = 1; generation = 1; offset = 0 }) 4).0
            ≡ (read vec_memory two_regions
                (record { region_id = 1; generation = 1; offset = 0 })
                4).0))
unfolding write write_entry vec_write validate entry
read-write_example =
    read-write vec_memory vec-IsMemory two_regions block_2 (7 ∷ 8 ∷ [])
      (record { region_id = 1; generation = 1; offset = 0 }) 4 refl

validate-bump_generation_example :
    let d' = (bump_generation two_regions 0).1 in
    (validate d' block_2 ≡ err stale_handle)
    × ((f : RegionEntry VecBackedRegion) × (validate d'
            (record { region_id = 0; generation = next_generation 1; offset = 2 })
          ≡ ok f)
        × (f.memory ≡ some bytes_0)
        × (f.allocator ≡ freelist arena))
    × ((block_2.region_id ≡ 1)
        ⊎ (validate d' (record { region_id = 1; generation = 1; offset = 0 })
            ≡ validate two_regions (record { region_id = 1; generation = 1; offset = 0 })))
unfolding validate entry
validate-bump_generation_example =
    validate-bump_generation two_regions block_2 entry_0
      (record { region_id = 1; generation = 1; offset = 0 }) two_regions-IsDirectory refl

read_or_fault-spill_example :
    let (_, b', d') = spill_region vec_memory one_file two_regions 0 [] in
    ((read vec_memory d' block_2 4).0 ≡ err not_resident)
    × ((read_or_fault vec_memory one_file d' block_2 4 b').0
        ≡ (read vec_memory two_regions block_2 4).0)
unfolding spill_region validate entry
read_or_fault-spill_example =
    read_or_fault-spill vec_memory one_file vec-IsMemory one_file-IsStore two_regions block_2
      entry_0 4 [] refl refl refl

spill_region-failed_example :
    let (r, b', d') = spill_region vec_memory full_disk two_regions 0 [] in
    (r ≡ err allocation_failed)
    × (entry d' 0 ≡ some (record entry_0 { memory = none }))
    × ((read vec_memory d' block_2 4).0 ≡ err not_resident)
    × ((spill_region vec_memory full_disk d' 0 b').0 ≡ err not_resident)
unfolding validate entry
spill_region-failed_example =
    spill_region-failed vec_memory full_disk two_regions block_2 entry_0 bytes_0 []
      allocation_failed 4 refl refl refl refl refl refl

evict_warm_region-oldest_example : some 0 ≡ find_first (evictable two_regions) (reverse (0 ∷ []))
unfolding evict_warm_region evict_first spill_region entry
evict_warm_region-oldest_example =
    evict_warm_region-oldest vec_memory one_file two_regions [] (some 0) refl

pinned_stays_example :
    (entry (spill_region vec_memory one_file two_regions 1 []).2 1 ≡ some entry_1)
    × (entry (demote_region vec_memory one_file two_regions 1 []).2 1 ≡ some entry_1)
    × (entry (mark_external two_regions 1).1 1 ≡ some entry_1)
    × (entry (evict_warm_region vec_memory one_file two_regions []).2 1 ≡ some entry_1)
unfolding entry
pinned_stays_example = pinned_stays vec_memory one_file two_regions 1 1 entry_1 [] refl refl

region_slice_at-read_example :
    region_slice_at two_regions block_2 4 ≡ some (read vec_memory two_regions block_2 4)
unfolding validate entry
region_slice_at-read_example =
    region_slice_at-read two_regions block_2 entry_0 4 refl (omega arith)
      (inr (bytes_0, refl, refl)) (omega arith)

region_full_slice-restore_region_example :
    ((restore_region vec_memory two_regions 0 (ok (9 ∷ []))).0 ≡ ok tt)
    × (region_full_slice (restore_region vec_memory two_regions 0 (ok (9 ∷ []))).1 0 ≡ none)
unfolding entry
region_full_slice-restore_region_example =
    region_full_slice-restore_region two_regions 0 entry_0 (9 ∷ []) refl (omega arith) (omega arith)
