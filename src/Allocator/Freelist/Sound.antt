-- ===== src/Allocator/Freelist/Sound.antt =====
-- Valid states of `FreelistAllocator` (crates/tvm-core/src/allocator.rs), and its `alloc`.
use native.Mathlib.Decide.{dec_lt}
use tvm_wasm.Base.{
  ℕ, ◌+◌, ◌%◌, ◌≤◌, ◌<◌, ◌≡◌, refl, inl, inr, List, none, All, Option-cases, ok, u32_mod, arith,
  Result-cases,
}
use tvm_wasm.Allocator.Blocks.{
  Block, lookup, insert, cover, count, total, Gapped, Live, Ordered, count-insert, total-insert,
  insert-Ordered, insert-Live, count-Live,
}
use tvm_wasm.Allocator.Freelist.{FreelistAllocator, new, scan, alloc}
use tvm_wasm.Allocator.Freelist.Scan.{Taken, scan-Taken, scan-count}

pub record IsFreelist (a : FreelistAllocator) : Type 0 where
  pub capacity_fits : a.capacity < u32_mod
  pub free_live : All (Live a.capacity) a.free
  pub allocated_live : All (Live a.capacity) a.allocated
  pub gapped : Gapped 0 a.free
  pub ordered : Ordered 0 a.allocated
  pub counted : a.used ≡ total a.allocated
  pub conserved : total a.free + total a.allocated ≡ a.capacity
  pub partition : (x : ℕ) → count x a.free + count x a.allocated ≡ cover x 0 a.capacity

pub new-IsFreelist : (capacity : ℕ) → 0 < capacity → capacity < u32_mod → IsFreelist (new capacity)
unfolding new
new-IsFreelist capacity pos h = record {
  capacity_fits = h;
  free_live = omega arith;
  allocated_live = tt;
  gapped = omega arith;
  ordered = tt;
  counted = refl;
  conserved = omega arith;
  partition = λ x. omega arith;
}

-- Bytes that come out of the free blocks are in no allocation.
fresh :
    (a : FreelistAllocator) (size align off : ℕ) (free' : List Block)
    → IsFreelist a
    → align < u32_mod
    → 0 < size
    → scan size align a.free ≡ ok (off, free')
    → lookup off a.allocated ≡ none
fresh a size align off free' v ha pos e = elim (Option-cases (lookup off a.allocated)) [
  | inl absent ↦ absent
  | inr (s, present) ↦ absurd (
      ground (
        arith,
        count-Live a.capacity off s a.allocated v.allocated_live present,
        scan-count off a.capacity size align off a.free free' ha v.capacity_fits v.free_live e,
        v.partition off,
      ))
]

alloc_ok :
    (a : FreelistAllocator) (size align off : ℕ) (b : FreelistAllocator)
    → alloc a size align ≡ ok (off, b)
    → (free' : List Block) × (scan size align a.free ≡ ok (off, free'))
      × (b ≡ record a {
        free = free';
        allocated = insert off size a.allocated;
        used = (a.used + size) % u32_mod;
      })
unfolding alloc
alloc_ok a size align off b e = elim (Result-cases (scan size align a.free)) [
  | inl ((found, free'), at) ↦ (free', ground arith, ground arith)
  | inr (failure, at) ↦ absurd (ground arith)
]

-- What an allocation of `size` bytes at `off` makes of the allocator.
pub record Grants (a : FreelistAllocator) (size align off : ℕ) (b : FreelistAllocator)
    : Type 0 where
  pub valid : IsFreelist b
  pub aligned : off % align ≡ 0
  pub ends : off + size ≤ a.capacity
  pub capacity : b.capacity ≡ a.capacity
  pub used : b.used ≡ a.used + size
  pub absent : lookup off a.allocated ≡ none
  pub recorded : b.allocated ≡ insert off size a.allocated
  pub taken : (x : ℕ) → count x b.free + cover x off size ≡ count x a.free

granted :
    (a : FreelistAllocator) (size align off : ℕ) (free' : List Block)
    → IsFreelist a
    → align < u32_mod
    → 0 < size
    → scan size align a.free ≡ ok (off, free')
    → Grants a size align off (record a {
      free = free';
      allocated = insert off size a.allocated;
      used = (a.used + size) % u32_mod;
    })
granted a size align off free' v ha pos e = record {
  valid = record {
    capacity_fits = v.capacity_fits;
    free_live = t.live;
    allocated_live = insert-Live a.capacity off size a.allocated (pos, t.ends) v.allocated_live;
    gapped = t.gapped;
    ordered = insert-Ordered 0 off size a.allocated (omega arith) v.ordered;
    counted = omega (arith, t.sum, sum_insert);
    conserved = omega (arith, t.sum, sum_insert);
    partition =
        λ x. omega (arith, gone x, count-insert x off size a.allocated absent, v.partition x);
  };
  aligned = t.aligned;
  ends = t.ends;
  capacity = refl;
  used = omega (arith, t.sum);
  absent = absent;
  recorded = refl;
  taken = gone;
}
  where
    t : Taken a.capacity size align 0 off a.free free'
    t =
        scan-Taken a.capacity size align 0 off a.free free' ha v.capacity_fits pos v.free_live
          v.gapped e

    absent : lookup off a.allocated ≡ none
    absent = fresh a size align off free' v ha pos e

    sum_insert : total (insert off size a.allocated) ≡ size + total a.allocated
    sum_insert = total-insert off size a.allocated absent

    gone : (x : ℕ) → count x free' + cover x off size ≡ count x a.free
    gone x = scan-count x a.capacity size align off a.free free' ha v.capacity_fits v.free_live e

-- An allocation that succeeds on a valid freelist allocator, with a u32 alignment, leaves it
-- valid, returns an aligned offset within the capacity that starts no live block, records the
-- block, adds its size to `used`, and takes exactly its bytes from the free blocks.
pub alloc-Grants :
    (a : FreelistAllocator) (size align off : ℕ) (b : FreelistAllocator)
    → IsFreelist a
    → align < u32_mod
    → alloc a size align ≡ ok (off, b)
    → Grants a size align off b
unfolding alloc
alloc-Grants a size align off b v ha e = elim (dec_lt 0 size) [
  | no zero ↦ absurd (ground arith)
  | yes pos ↦
      let (free', found, made) = alloc_ok a size align off b e in
      rw made (granted a size align off free' v ha pos found)
]
