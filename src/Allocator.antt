-- ===== src/Allocator.antt =====
-- crates/tvm-core/src/allocator.rs: the allocator of a region, one of three kinds. A method that
-- fails leaves the allocator as it was, so that only a success returns a new one.
pub mod Align
pub mod Blocks
pub mod Bump
pub mod Freelist
pub mod Slab
pub mod Sound
use tvm_wasm.Base.{ℕ, List, Option, none, some, Bool, true, false, Result, ok, ◌>>=◌}
use tvm_wasm.Allocator.Blocks.{Block}
use tvm_wasm.Allocator.Bump.{BumpAllocator}
use tvm_wasm.Allocator.Bump
use tvm_wasm.Allocator.Freelist.{FreelistAllocator}
use tvm_wasm.Allocator.Freelist
use tvm_wasm.Allocator.Slab.{SlabAllocator}
use tvm_wasm.Allocator.Slab

pub data AllocatorKind : Type 0 where
  bump_kind freelist_kind : AllocatorKind
  slab_kind : ℕ → AllocatorKind

pub data RegionAllocator : Type 0 where
  bump : BumpAllocator → RegionAllocator
  freelist : FreelistAllocator → RegionAllocator
  slab : SlabAllocator → RegionAllocator

unfoldable pub new : AllocatorKind → ℕ → RegionAllocator
new bump_kind capacity = bump (Bump.new capacity)
new freelist_kind capacity = freelist (Freelist.new capacity)
new (slab_kind class_size) capacity = slab (Slab.new capacity class_size)

unfoldable pub alloc : RegionAllocator → ℕ → ℕ → Result (ℕ × RegionAllocator)
alloc (bump a) size align = do (off, b) ← Bump.alloc a size align; ok (off, bump b)
alloc (freelist a) size align = do (off, b) ← Freelist.alloc a size align; ok (off, freelist b)
alloc (slab a) size align = do (off, b) ← Slab.alloc a size; ok (off, slab b)

unfoldable pub dealloc : RegionAllocator → ℕ → Result (ℕ × RegionAllocator)
dealloc (bump a) offset = ok (0, bump a)
dealloc (freelist a) offset = do (size, b) ← Freelist.dealloc a offset; ok (size, freelist b)
dealloc (slab a) offset = do (size, b) ← Slab.dealloc a offset; ok (size, slab b)

unfoldable pub used : RegionAllocator → ℕ
used (bump a) = a.used
used (freelist a) = a.used
used (slab a) = a.used

unfoldable pub allocated_blocks : RegionAllocator → Option (List Block)
allocated_blocks (bump a) = none
allocated_blocks (freelist a) = some a.allocated
allocated_blocks (slab a) = none

unfoldable pub rebuild_after_compact : RegionAllocator → List Block → ℕ → RegionAllocator
rebuild_after_compact (bump a) new_blocks capacity = bump a
rebuild_after_compact (freelist a) new_blocks capacity =
    freelist (Freelist.rebuild_after_compact a new_blocks capacity)
rebuild_after_compact (slab a) new_blocks capacity = slab a

unfoldable pub supports_compaction : RegionAllocator → Bool
supports_compaction (bump a) = false
supports_compaction (freelist a) = true
supports_compaction (slab a) = false
