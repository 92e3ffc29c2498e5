-- ===== src/Tests/Guests.antt =====
-- A guest of one small pool, and the theorems at it.
use tvm_wasm.Base.{ℕ, ◌≡◌, refl, List, [], ◌∷◌, take, drop, splice, ok, arith}
use tvm_wasm.Handle.{Handle}
use tvm_wasm.Region.{Region, object_arena, page_store, for_kind}
use tvm_wasm.Allocator.{bump_kind, freelist_kind, freelist}
use tvm_wasm.Allocator
use tvm_wasm.Allocator.Align
use tvm_wasm.Allocator.Freelist
use tvm_wasm.Guest.{
  Pool, GuestDirectory, GuestEntry, Dispatch, new, create_region, choose_pool, scan_band, resolve,
  entry,
}
use tvm_wasm.Directory.Access
use tvm_wasm.Guest
use tvm_wasm.Guest.Exclusive.{Exclusive}
use tvm_wasm.Guest.Isolation.{resolve-alloc}
use tvm_wasm.Guest.Facade.{GuestTvm, with_default_allocator, cached_resolve}
use tvm_wasm.Guest.Facade
use tvm_wasm.Guest.Facade.Calls.{Call, create, allocate, compact, read_at, run}
use tvm_wasm.Guest.Facade.Coherence.{cached_resolve-run}

abbrev one_pool : List Pool
one_pool = record { memory_index = 1; used = 0; capacity = 8 } ∷ []

-- The bytes of the one pool.
abbrev flat : Dispatch (List ℕ)
flat = record {
  read_bytes = λ p pool offset n. ok (take n (drop offset p));
  write_bytes = λ p pool offset bytes. (ok tt, splice p offset bytes);
  intra_pool_copy = λ p pool dst src n. (ok tt, splice p dst (take n (drop src p)));
}

abbrev after_failure : GuestDirectory
after_failure = (create_region (new one_pool) object_arena 16 bump_kind).1

abbrev after_second : GuestDirectory
after_second = (create_region after_failure object_arena 4 bump_kind).1

abbrev after_third : GuestDirectory
after_third = (create_region after_second object_arena 4 bump_kind).1

-- Two regions, with a block in the first that is read, and a compaction.
abbrev calls : List Call
calls =
    create object_arena 4
    ∷ create page_store 4
    ∷ allocate 1 2
    ∷ read_at (record { region_id = 1; generation = 1; offset = 0 }) 2
    ∷ compact 1
    ∷ []

abbrev block : Handle
block = record { region_id = 1; generation = 2; offset = 0 }

cached_resolve-run_example :
    (cached_resolve (run flat calls [] (with_default_allocator one_pool freelist_kind)).1 block).0
    ≡ resolve (run flat calls [] (with_default_allocator one_pool freelist_kind)).1.directory block
cached_resolve-run_example = cached_resolve-run flat one_pool freelist_kind calls [] block

abbrev guest : GuestTvm
guest = (run flat calls [] (with_default_allocator one_pool freelist_kind)).1

abbrev next_block : Handle
next_block = record { region_id = 1; generation = 2; offset = 2 }

abbrev grown : GuestDirectory
grown = (Guest.alloc guest.directory 1 2).1

grown_lem : Guest.alloc guest.directory 1 2 ≡ (ok next_block, grown)
unfolding run Guest.alloc Guest.put Guest.entry Guest.compact_region Guest.slide Guest.walk_blocks
    create_region choose_pool scan_band for_kind Facade.create_region Facade.alloc Facade.read
    Facade.cached_resolve Facade.compact_region Allocator.new Allocator.alloc
    Allocator.allocated_blocks Allocator.rebuild_after_compact resolve Freelist.alloc Freelist.scan
    Freelist.new Align.align_up Freelist.rebuild_after_compact Freelist.adopt Access.next_generation
grown_lem = refl

resolve-alloc_example : Exclusive grown next_block 2 1 2
resolve-alloc_example =
    resolve-alloc flat one_pool freelist_kind calls [] 1 2 2 next_block grown
      ((omega arith, omega arith), tt) tt
      ((omega arith, omega arith), ((omega arith, omega arith), (tt, (tt, (tt, tt))))) grown_lem
