-- ===== src/Allocator/Freelist.antt =====
-- `FreelistAllocator` of crates/tvm-core/src/allocator.rs: first fit over free blocks in order of
-- offset, with the neighbours of a returned block merged. A method that fails leaves the allocator
-- as it was, so that only a success returns a new one.
pub mod Scan
pub mod Merge
pub mod Return
pub mod Sound
pub mod Rebuild
pub mod Calls
use tvm_wasm.Base.{
  ℕ, ◌+◌, ◌-◌, List, [], ◌∷◌, Option, none, some, ltb, leb, ◌==◌, ◌&&◌, if◌then◌else◌, Result, ok,
  err, allocation_failed, out_of_bounds, ok_or, ◌>>=◌, checked_add32, add32, sub32, length,
  get_elem?, set, insert_at, remove_at,
}
use tvm_wasm.Allocator.Align.{align_up}
use tvm_wasm.Allocator.Blocks.{Block, lookup, insert, remove}

pub record FreelistAllocator : Type 0 where
  pub capacity : ℕ
  pub free : List Block
  pub allocated : List Block
  pub used : ℕ

unfoldable pub new : ℕ → FreelistAllocator
new capacity = record { capacity = capacity; free = (0, capacity) ∷ []; allocated = []; used = 0 }

-- What stands in the place of the free block at `block_off`, of which `need` bytes are taken.
unfoldable pub split : ℕ → ℕ → ℕ → ℕ → ℕ → List Block → List Block
split block_off aligned pad size remainder rest =
    if pad == 0 && remainder == 0
    then rest
    else if pad == 0
    then (add32 aligned size, remainder) ∷ rest
    else if remainder == 0
    then (block_off, pad) ∷ rest
    else (block_off, pad) ∷ (add32 aligned size, remainder) ∷ rest

-- The loop of `alloc` over the free blocks.
unfoldable pub scan : ℕ → ℕ → List Block → Result (ℕ × List Block)
scan size align [] = err allocation_failed
scan size align ((block_off, block_size) ∷ rest) = do
  aligned ← ok_or (align_up block_off align) allocation_failed
  let pad = sub32 aligned block_off
  need ← ok_or (checked_add32 pad size) allocation_failed
  if leb need block_size
      then ok (aligned, split block_off aligned pad size (sub32 block_size need) rest)
      else do (found, rest') ← scan size align rest; ok (found, (block_off, block_size) ∷ rest')

unfoldable pub alloc : FreelistAllocator → ℕ → ℕ → Result (ℕ × FreelistAllocator)
alloc a size align = if size == 0 then err allocation_failed else do
  (aligned, free') ← scan size align a.free
  ok (
    aligned,
    record a {
      free = free';
      allocated = insert aligned size a.allocated;
      used = add32 a.used size;
    },
  )

-- `partition_point` of the blocks that start below the offset.
unfoldable pub partition_point : ℕ → List Block → ℕ
partition_point offset [] = 0
partition_point offset ((o, s) ∷ r) = if ltb o offset then partition_point offset r + 1 else 0

-- Merges the blocks at `i` and `i + 1` if they touch.
unfoldable pub merge_at : List Block → ℕ → List Block
merge_at free i = elim (get_elem? free i) [
  | none ↦ free
  | some (a_off, a_size) ↦ elim (get_elem? free (i + 1)) [
    | none ↦ free
    | some (b_off, b_size) ↦
        if add32 a_off a_size == b_off
        then remove_at (set free i (a_off, add32 a_size b_size)) (i + 1)
        else free
  ]
]

unfoldable pub coalesce : List Block → ℕ → List Block
coalesce free idx =
    let right = if ltb (idx + 1) (length free) then merge_at free idx else free in
    if ltb 0 idx then merge_at right (idx - 1) else right

unfoldable pub dealloc : FreelistAllocator → ℕ → Result (ℕ × FreelistAllocator)
dealloc a offset = do
  size ← ok_or (lookup offset a.allocated) out_of_bounds
  let pos = partition_point offset a.free
  ok (
    size,
    record a {
      free = coalesce (insert_at a.free pos (offset, size)) pos;
      allocated = remove offset a.allocated;
      used = sub32 a.used size;
    },
  )

-- The loop of `rebuild_after_compact` over the new blocks.
unfoldable pub adopt : List Block → List Block → ℕ → List Block × ℕ
adopt [] allocated used = (allocated, used)
adopt ((off, size) ∷ r) allocated used = adopt r (insert off size allocated) (add32 used size)

unfoldable pub rebuild_after_compact : FreelistAllocator → List Block → ℕ → FreelistAllocator
rebuild_after_compact a new_blocks capacity =
    let (allocated, used) = adopt new_blocks [] 0 in
    record {
      capacity = capacity;
      free = if ltb used capacity then (used, sub32 capacity used) ∷ [] else [];
      allocated = allocated;
      used = used;
    }
