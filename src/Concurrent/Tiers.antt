-- ===== src/Concurrent/Tiers.antt =====
-- `spill_region`, `load_region` and `compact_region` of crates/tvm-core/src/concurrent.rs.
use tvm_wasm.Base.{
  ℕ, Bool, true, false, not, ◌&&◌, if◌then◌else◌, Option, none, some, Result, ok, err, pinned,
  policy_violation, not_resident, unsupported_allocator, region_not_found,
}
use tvm_wasm.Region.{cold, is_hot, is_cold}
use tvm_wasm.Memory.{MemoryRegion, BackingStore}
use tvm_wasm.Allocator
use tvm_wasm.Directory.{RegionEntry}
use tvm_wasm.Directory.Access.{next_generation}
use tvm_wasm.Directory.Compact.{HandleRemap, pack_blocks, empty_packing, compacted}
use tvm_wasm.Directory.Tiers.{is_some, demoted, faulted_in}
use tvm_wasm.Concurrent.{ConcurrentDirectory, entry_arc, locked, lru_remove}

module _ {M B : Type 0} (mem : MemoryRegion M) (store : BackingStore B) where
  -- Under the lock. The flag says that bytes went to the store. A memory that the store did not
  -- take is gone.
  abbrev pub spill_section : B → RegionEntry M → (Result Bool × B) × RegionEntry M
  spill_section b e =
      if e.meta.pinned
      then ((err pinned, b), e)
      else if not e.meta.spillable
      then ((err policy_violation, b), e)
      else if is_cold e.meta.residency
      then ((ok false, b), e)
      else elim e.memory [
        | none ↦ ((err not_resident, b), e)
        | some m ↦
            let (r, b') = store.spill b e.meta.id e.meta.generation (mem.snapshot m) in
            elim r [
              | err x ↦ ((err x, b'), record e { memory = none })
              | ok _ ↦ ((ok true, b'), demoted (record e { memory = none }) cold)
            ]
      ]

  unfoldable pub spill_region :
      ConcurrentDirectory M → ℕ → B → Result (Unit {0}) × B × ConcurrentDirectory M
  spill_region d region_id b = elim (entry_arc d region_id) [
    | err x ↦ (err x, b, d)
    | ok arc ↦
        let (done, d') = locked (err (region_not_found region_id), b) d arc (spill_section b) in
        elim (done.0) [
          | err x ↦ (err x, done.1, d')
          | ok moved ↦ (ok tt, done.1, if moved then lru_remove d' region_id else d')
        ]
  ]

  abbrev pub load_section : B → RegionEntry M → (Result (Unit {0}) × B) × RegionEntry M
  load_section b e =
      if is_hot e.meta.residency && is_some e.memory
      then ((ok tt, b), e)
      else let (r, b') = store.load b e.meta.id e.meta.generation in
        elim r [ err x ↦ ((err x, b'), e) | ok bytes ↦ ((ok tt, b'), faulted_in mem e bytes) ]

  unfoldable pub load_region :
      ConcurrentDirectory M → ℕ → B → Result (Unit {0}) × B × ConcurrentDirectory M
  load_region d region_id b = elim (entry_arc d region_id) [
    | err x ↦ (err x, b, d)
    | ok arc ↦
        let (done, d') = locked (err (region_not_found region_id), b) d arc (load_section b) in
        (done.0, done.1, d')
  ]

module _ {M : Type 0} (mem : MemoryRegion M) where
  -- `none` is the panic of `pack_blocks`.
  abbrev pub compact_section : ℕ → RegionEntry M → Option (Result HandleRemap) × RegionEntry M
  compact_section region_id e =
      if e.meta.pinned
      then (some (err pinned), e)
      else elim (Allocator.allocated_blocks e.allocator) [
        | none ↦ (some (err unsupported_allocator), e)
        | some blocks ↦ elim e.memory [
          | none ↦ (some (err not_resident), e)
          | some m ↦ elim (pack_blocks mem m blocks (empty_packing e.meta.capacity)) [
            | none ↦ (none, e)
            | some (err x) ↦ (some (err x), e)
            | some (ok p) ↦ (
              some (
                  ok (record {
                    region_id = region_id;
                    old_generation = e.meta.generation;
                    new_generation = next_generation e.meta.generation;
                    mapping = p.mapping;
                  })),
              compacted mem e p,
            )
          ]
        ]
      ]

  unfoldable pub compact_region :
      ConcurrentDirectory M → ℕ → Option (Result HandleRemap) × ConcurrentDirectory M
  compact_region d region_id = elim (entry_arc d region_id) [
    | err x ↦ (some (err x), d)
    | ok arc ↦ locked (some (err (region_not_found region_id))) d arc (compact_section region_id)
  ]
