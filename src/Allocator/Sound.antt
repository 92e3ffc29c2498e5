-- ===== src/Allocator/Sound.antt =====
-- `RegionAllocator` of crates/tvm-core/src/allocator.rs as the directory relies on it.
use tvm_wasm.Base.{ℕ, ◌+◌, ◌≤◌, ◌<◌, ◌≡◌, refl, ok, >>=-eq-ok, along_ok, ◌∙◌, u32_mod, arith}
use tvm_wasm.Allocator.{
  AllocatorKind, bump_kind, freelist_kind, slab_kind, RegionAllocator, bump, freelist, slab, new,
  alloc, dealloc, used,
}
use tvm_wasm.Allocator.Bump
use tvm_wasm.Allocator.Freelist
use tvm_wasm.Allocator.Slab
use tvm_wasm.Allocator.Bump.Bounds.{IsBump, alloc-IsBump}
use tvm_wasm.Allocator.Freelist.Sound.{IsFreelist, new-IsFreelist, alloc-Grants}
use tvm_wasm.Allocator.Freelist.Return.{dealloc-Returns}
use tvm_wasm.Allocator.Slab.Sound.{IsSlab, new-IsSlab, alloc-Handed, dealloc-IsSlab}

-- A valid allocator over `capacity` bytes.
pub data IsAllocator (capacity : ℕ) : RegionAllocator → Type 0 where
  is_bump :
      (a : Bump.BumpAllocator) → IsBump a → a.capacity ≡ capacity → IsAllocator capacity (bump a)
  is_freelist :
      (a : Freelist.FreelistAllocator)
      → IsFreelist a
      → a.capacity ≡ capacity
      → IsAllocator capacity (freelist a)
  is_slab :
      (a : Slab.SlabAllocator) → IsSlab a → a.capacity ≡ capacity → IsAllocator capacity (slab a)

-- A slab needs a class of at least one byte.
abbrev pub KindFits : AllocatorKind → Type 0
KindFits bump_kind = Unit {0}
KindFits freelist_kind = Unit {0}
KindFits (slab_kind class_size) = 0 < class_size

pub new-IsAllocator :
    (k : AllocatorKind) (capacity : ℕ)
    → 0 < capacity
    → capacity < u32_mod
    → KindFits k
    → IsAllocator capacity (new k capacity)
unfolding new Bump.new Freelist.new Slab.new
new-IsAllocator bump_kind capacity pos h k = is_bump _ (omega arith) refl
new-IsAllocator freelist_kind capacity pos h k = is_freelist _ (new-IsFreelist capacity pos h) refl
new-IsAllocator (slab_kind c) capacity pos h k = is_slab _ (new-IsSlab capacity c h k) refl

pub used-le : (capacity : ℕ) (a : RegionAllocator) → IsAllocator capacity a → used a ≤ capacity
unfolding used
used-le capacity (bump a) (is_bump _ v e) = omega (arith, v.within)
used-le capacity (freelist a) (is_freelist _ v e) = omega (arith, v.counted, v.conserved)
used-le capacity (slab a) (is_slab _ v e) = omega (arith, v.conserved, v.slots_fit)

abbrev Grown : ℕ → ℕ → ℕ → ℕ × RegionAllocator → Type 0
Grown capacity before size (off, b) =
    IsAllocator capacity b × (off + size ≤ capacity) × (before + size ≤ used b)

abbrev Shrunk : ℕ → ℕ → ℕ × RegionAllocator → Type 0
Shrunk capacity before (size, b) = IsAllocator capacity b × (used b + size ≡ before)

-- Whatever its kind, a valid allocator stays valid through an allocation that succeeds, with a u32
-- alignment; the block lies within the capacity, and `used` grows by at least the size.
pub alloc-IsAllocator :
    (capacity : ℕ) (a : RegionAllocator) (size align off : ℕ) (b : RegionAllocator)
    → IsAllocator capacity a
    → align < u32_mod
    → alloc a size align ≡ ok (off, b)
    → IsAllocator capacity b × (off + size ≤ capacity) × (used a + size ≤ used b)
unfolding alloc used
alloc-IsAllocator capacity (bump a) size align off b (is_bump _ v e) h done =
    let ((o, x), found, made) =
      >>=-eq-ok (Bump.alloc a size align) (λ r. ok (r.0, bump r.1)) done in
    let (valid, above, _, last, same) = alloc-IsBump a size align v h found in
    along_ok (Grown capacity a.used size) (o, bump x) (off, b) made
      (is_bump x valid (same ∙ e), omega (arith, valid.within), omega arith)
alloc-IsAllocator capacity (freelist a) size align off b (is_freelist _ v e) h done =
    let ((o, x), found, made) =
      >>=-eq-ok (Freelist.alloc a size align) (λ r. ok (r.0, freelist r.1)) done in
    let g = alloc-Grants a size align o x v h found in
    along_ok (Grown capacity a.used size) (o, freelist x) (off, b) made
      (is_freelist x g.valid (g.capacity ∙ e), omega (arith, g.ends), omega (arith, g.used))
alloc-IsAllocator capacity (slab a) size align off b (is_slab _ v e) h done =
    let ((o, x), found, made) = >>=-eq-ok (Slab.alloc a size) (λ r. ok (r.0, slab r.1)) done in
    let (same, g) = alloc-Handed a size o x v found in
    along_ok (Grown capacity a.used size) (o, slab x) (off, b) made
      (is_slab x g.valid (g.kept.0 ∙ e), omega (arith, g.ends), omega (arith, g.used))

pub dealloc-IsAllocator :
    (capacity : ℕ) (a : RegionAllocator) (off size : ℕ) (b : RegionAllocator)
    → IsAllocator capacity a
    → dealloc a off ≡ ok (size, b)
    → IsAllocator capacity b × (used b + size ≡ used a)
unfolding dealloc used
dealloc-IsAllocator capacity (bump a) off size b (is_bump _ v e) done =
    along_ok (Shrunk capacity a.used) (0, bump a) (size, b) done (is_bump a v e, omega arith)
dealloc-IsAllocator capacity (freelist a) off size b (is_freelist _ v e) done =
    let ((s, x), found, made) =
      >>=-eq-ok (Freelist.dealloc a off) (λ r. ok (r.0, freelist r.1)) done in
    let r = dealloc-Returns a off s x v found in
    along_ok (Shrunk capacity a.used) (s, freelist x) (size, b) made
      (is_freelist x r.valid (r.capacity ∙ e), r.used)
dealloc-IsAllocator capacity (slab a) off size b (is_slab _ v e) done =
    let ((s, x), found, made) = >>=-eq-ok (Slab.dealloc a off) (λ r. ok (r.0, slab r.1)) done in
    let (valid, same, sum) = dealloc-IsSlab a off s x v found in
    along_ok (Shrunk capacity a.used) (s, slab x) (size, b) made (is_slab x valid (same ∙ e), sum)
