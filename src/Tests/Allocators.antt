-- ===== src/Tests/Allocators.antt =====
-- Handles, allocators and byte vectors at concrete values.
use tvm_wasm.Base.{
  ℕ, ◌+◌, ◌%◌, ◌<◌, ◌≤◌, ◌≡◌, ◌≢◌, ◌↔◌, ◌⊎◌, refl, true, false, List, [], ◌∷◌, none, some, ok, err,
  length, get_elem?, out_of_bounds, allocation_failed, arith, insert_at,
}
use tvm_wasm.Handle.{Handle, IsHandle, is_null, pack, unpack}
use tvm_wasm.Handle.RoundTrip.{unpack-pack, pack-unpack, is_null-pack}
use tvm_wasm.Allocator.Align.{align_up, IsRounded, align_up-IsRounded}
use tvm_wasm.Allocator.{RegionAllocator, freelist}
use tvm_wasm.Allocator
use tvm_wasm.Allocator.Sound.{IsAllocator, is_freelist, alloc-IsAllocator}
use tvm_wasm.Allocator.Bump.{BumpAllocator}
use tvm_wasm.Allocator.Bump
use tvm_wasm.Allocator.Bump.Bounds.{IsBump, alloc-IsBump}
use tvm_wasm.Allocator.Blocks.{lookup}
use tvm_wasm.Allocator.Freelist.{FreelistAllocator, partition_point, coalesce}
use tvm_wasm.Allocator.Freelist
use tvm_wasm.Allocator.Freelist.Merge.{put_back, coalesce-put_back}
use tvm_wasm.Allocator.Freelist.Rebuild.{rebuild-IsFreelist}
use tvm_wasm.Allocator.Freelist.Sound.{IsFreelist, Grants, alloc-Grants}
use tvm_wasm.Allocator.Freelist.Return.{Returns, dealloc_cases, dealloc-alloc}
use tvm_wasm.Allocator.Freelist.Calls.{Call, allocate, release, run, step, run-new}
use tvm_wasm.Allocator.Slab.{SlabAllocator, contains}
use tvm_wasm.Allocator.Slab
use tvm_wasm.Allocator.Slab.Slots.{Slot}
use tvm_wasm.Allocator.Slab.Sound.{
  IsSlab, new-IsSlab, Handed, alloc_slot_cases, dealloc-Slot_cases, dealloc-alloc_slot,
}
use tvm_wasm.Memory.{VecBackedRegion, vec_read, vec_write}
use tvm_wasm.Memory.Vec.{vec_write_lem}

abbrev pub handle_3_7_64 : Handle
handle_3_7_64 = record { region_id = 3; generation = 7; offset = 64 }

handle_3_7_64-IsHandle : IsHandle handle_3_7_64
handle_3_7_64-IsHandle = record {
  region_id_fits = omega arith;
  generation_fits = omega arith;
  offset_fits = omega arith;
}

unpack-pack_example : unpack (pack handle_3_7_64) ≡ handle_3_7_64
unpack-pack_example = unpack-pack handle_3_7_64 handle_3_7_64-IsHandle

pack-unpack_example : pack (unpack 0x0003_0007_0000_0040) ≡ 0x0003_0007_0000_0040
pack-unpack_example = pack-unpack 0x0003_0007_0000_0040 (omega arith)

is_null-pack_example : (is_null handle_3_7_64 ≡ true) ↔ (pack handle_3_7_64 ≡ 0)
is_null-pack_example = is_null-pack handle_3_7_64 handle_3_7_64-IsHandle

align_up-IsRounded_example : IsRounded 13 8 16
unfolding align_up
align_up-IsRounded_example = align_up-IsRounded 13 8 (omega arith) refl

abbrev bump_at_5 : BumpAllocator
bump_at_5 = record { capacity = 64; used = 5 }

bump_at_5-IsBump : IsBump bump_at_5
bump_at_5-IsBump = record { capacity_fits = omega arith; within = omega arith }

alloc-IsBump_example :
    IsBump (record { capacity = 64; used = 18 })
    × (5 ≤ 8)
    × (8 % 8 ≡ 0)
    × (18 ≡ 8 + 10)
    × (bump_at_5.capacity ≡ 64)
unfolding Bump.alloc align_up
alloc-IsBump_example =
    alloc-IsBump bump_at_5 10 8 {off = 8} {b = record { capacity = 64; used = 18 }} bump_at_5-IsBump
      (omega arith) refl

-- 4 bytes are in use, between two free blocks.
abbrev pub arena : FreelistAllocator
arena = record { capacity = 12; free = (0, 2) ∷ (6, 6) ∷ []; allocated = (2, 4) ∷ []; used = 4 }

pub arena-IsFreelist : IsFreelist arena
arena-IsFreelist = record {
  capacity_fits = omega arith;
  free_live = omega arith;
  allocated_live = omega arith;
  gapped = omega arith;
  ordered = omega arith;
  counted = refl;
  conserved = refl;
  partition = λ x. ground arith;
}

-- 3 more bytes, aligned to 8.
abbrev fuller : FreelistAllocator
fuller = record {
  capacity = 12;
  free = (0, 2) ∷ (6, 2) ∷ (11, 1) ∷ [];
  allocated = (2, 4) ∷ (8, 3) ∷ [];
  used = 7;
}

alloc-Grants_example : Grants arena 3 8 8 fuller
unfolding Freelist.alloc Freelist.scan Freelist.split align_up
alloc-Grants_example = alloc-Grants arena 3 8 8 fuller arena-IsFreelist (omega arith) refl

dealloc-alloc_example : Freelist.dealloc fuller 8 ≡ ok (3, arena)
unfolding Freelist.alloc Freelist.scan Freelist.split align_up
dealloc-alloc_example = dealloc-alloc arena 3 8 8 fuller arena-IsFreelist (omega arith) refl

dealloc_cases_example :
    ((size : ℕ) × (lookup 2 arena.allocated ≡ some size)
      × (b : FreelistAllocator) × (Freelist.dealloc arena 2 ≡ ok (size, b))
      × Returns arena 2 size b)
    ⊎ ((lookup 2 arena.allocated ≡ none) × (Freelist.dealloc arena 2 ≡ err out_of_bounds))
dealloc_cases_example = dealloc_cases arena 2 arena-IsFreelist

abbrev fresh : FreelistAllocator
fresh = record { capacity = 12; free = (0, 12) ∷ []; allocated = []; used = 0 }

-- Three blocks, of which the middle one is returned last; two calls fail.
abbrev out_of_order : List Call
out_of_order =
    allocate 4 1
    ∷ allocate 2 8
    ∷ allocate 3 1
    ∷ allocate 9 1
    ∷ release 8
    ∷ release 8
    ∷ release 0
    ∷ release 4
    ∷ []

run-new_example : run out_of_order (Freelist.new 12) ≡ Freelist.new 12
unfolding run step Freelist.new Freelist.alloc Freelist.scan Freelist.split align_up
    Freelist.dealloc Freelist.partition_point Freelist.coalesce Freelist.merge_at
run-new_example = run-new out_of_order 12 (omega arith) (omega arith) (omega arith) refl

coalesce-put_back_example :
    coalesce
      (insert_at ((0, 4) ∷ (8, 4) ∷ []) (partition_point 4 ((0, 4) ∷ (8, 4) ∷ [])) (4, 4))
      (partition_point 4 ((0, 4) ∷ (8, 4) ∷ []))
    ≡ put_back 4 4 ((0, 4) ∷ (8, 4) ∷ [])
coalesce-put_back_example =
    coalesce-put_back 12 0 4 4 ((0, 4) ∷ (8, 4) ∷ []) (omega arith) (omega arith) (omega arith)
      (omega arith)

rebuild-IsFreelist_example :
    let b = Freelist.rebuild_after_compact arena ((0, 4) ∷ (4, 3) ∷ []) 12 in
    IsFreelist b
    × (b.used ≡ 7)
    × (b.capacity ≡ 12)
    × (b.allocated ≡ (0, 4) ∷ (4, 3) ∷ [])
    × (b.free ≡ (7, 5) ∷ [])
rebuild-IsFreelist_example =
    rebuild-IsFreelist arena ((0, 4) ∷ (4, 3) ∷ []) 12 (omega arith) (omega arith) (omega arith)

alloc-IsAllocator_example :
    IsAllocator 12 (freelist fuller)
    × (8 + 3 ≤ 12)
    × (Allocator.used (freelist arena) + 3 ≤ Allocator.used (freelist fuller))
unfolding Allocator.alloc Freelist.alloc Freelist.scan Freelist.split align_up
alloc-IsAllocator_example =
    alloc-IsAllocator 12 (freelist arena) 3 8 8 (freelist fuller)
      (is_freelist arena arena-IsFreelist refl) (omega arith) refl

abbrev pages : SlabAllocator
pages = record { capacity = 20; class_size = 8; free_slots = 0 ∷ 8 ∷ []; n_slots = 2; used = 0 }

pages-IsSlab : IsSlab pages
unfolding Slab.new
pages-IsSlab = new-IsSlab 20 8 (omega arith) (omega arith)

alloc_slot_cases_example :
    ((8 ≡ pages.class_size)
      × (off : ℕ) × (b : SlabAllocator) × (Slab.alloc pages 8 ≡ ok (off, b))
      × Handed pages off b)
    ⊎ (((8 ≢ pages.class_size) ⊎ (pages.free_slots ≡ []))
        × (Slab.alloc pages 8 ≡ err allocation_failed))
alloc_slot_cases_example = alloc_slot_cases pages 8 pages-IsSlab

dealloc-Slot_cases_example :
    (Slot 2 8 8
      × (contains pages.free_slots 8 ≡ false)
      × (b : SlabAllocator) × (Slab.dealloc pages 8 ≡ ok (8, b))
      × IsSlab b
      × (b.capacity ≡ 20)
      × (b.free_slots ≡ 8 ∷ pages.free_slots)
      × (b.used + 8 ≡ 0))
    ⊎ (((¬ Slot 2 8 8) ⊎ (contains pages.free_slots 8 ≡ true))
        × (Slab.dealloc pages 8 ≡ err out_of_bounds))
dealloc-Slot_cases_example = dealloc-Slot_cases pages 8 pages-IsSlab

dealloc-alloc_slot_example :
    Slab.dealloc
      (record { capacity = 20; class_size = 8; free_slots = 8 ∷ []; n_slots = 2; used = 8 })
      0
    ≡ ok (8, pages)
unfolding Slab.alloc
dealloc-alloc_slot_example =
    dealloc-alloc_slot pages 8 0
      (record { capacity = 20; class_size = 8; free_slots = 8 ∷ []; n_slots = 2; used = 8 })
      pages-IsSlab refl

abbrev row : VecBackedRegion
row = record { bytes = 1 ∷ 2 ∷ 3 ∷ 4 ∷ [] }

vec_write_lem_example :
    let (r, m') = vec_write row 1 (8 ∷ 9 ∷ []) in
    ((1 + 2 ≤ 4)
      × (r ≡ ok tt)
      × (length m'.bytes ≡ 4)
      × (vec_read m' 1 2 ≡ ok (8 ∷ 9 ∷ []))
      × (((1 ≤ 3) × (3 < 1 + 2)) ⊎ (get_elem? m'.bytes 3 ≡ some 4)))
    ⊎ ((4 < 1 + 2) × (r ≡ err out_of_bounds) × (m' ≡ row))
vec_write_lem_example = vec_write_lem row 1 (8 ∷ 9 ∷ []) 3
