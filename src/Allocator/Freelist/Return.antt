-- ===== src/Allocator/Freelist/Return.antt =====
-- `dealloc` of `FreelistAllocator` (crates/tvm-core/src/allocator.rs).
use tvm_wasm.Base.{
  ℕ, ◌+◌, ◌<◌, ◌≡◌, refl, sym, ap, subst, ◌∙◌, ◌⊎◌, inl, inr, List, [], ◌∷◌, none, some, All,
  Option-cases, ok, err, out_of_bounds, u32_mod, arith, sub32, along_ok,
}
use tvm_wasm.Allocator.Blocks.{
  Block, lookup, remove, cover, count, total, Live, count-remove, total-remove, remove-Ordered,
  remove-Live, lookup-Live, Apart-of_count, Apart, lookup-remove, eq_of_count, remove-insert,
  lookup-insert_self,
}
use tvm_wasm.Allocator.Freelist.{FreelistAllocator, new, alloc, dealloc}
use tvm_wasm.Allocator.Freelist.Merge.{
  put_back, coalesce-put_back, put_back-count, put_back-total, put_back-Live, put_back_from,
}
use tvm_wasm.Allocator.Freelist.Sound.{IsFreelist, alloc-Grants}

-- What the return of the block at `off` makes of the allocator.
pub record Returns (a : FreelistAllocator) (off size : ℕ) (b : FreelistAllocator) : Type 0 where
  pub valid : IsFreelist b
  pub capacity : b.capacity ≡ a.capacity
  pub used : b.used + size ≡ a.used
  pub live : lookup off a.allocated ≡ some size
  pub removed : b.allocated ≡ remove off a.allocated
  pub gone : lookup off b.allocated ≡ none
  pub given : (x : ℕ) → count x b.free ≡ cover x off size + count x a.free

-- A live block is apart from every free one.
free-Apart :
    (a : FreelistAllocator) (off size : ℕ)
    → IsFreelist a
    → lookup off a.allocated ≡ some size
    → All (Apart off size) a.free
free-Apart a off size v live =
    Apart-of_count a.capacity off size a.free
      (lookup-Live a.capacity off size a.allocated v.allocated_live live).0 v.free_live
      (λ x. ground (arith, v.partition x, count-remove x off size a.allocated live))

returned :
    (a : FreelistAllocator) (off size : ℕ)
    → IsFreelist a
    → lookup off a.allocated ≡ some size
    → Returns a off size (record a {
      free = put_back off size a.free;
      allocated = remove off a.allocated;
      used = sub32 a.used size;
    })
returned a off size v live = record {
  valid = record {
    capacity_fits = v.capacity_fits;
    free_live = put_back-Live a.capacity off size a.free block v.free_live;
    allocated_live = remove-Live a.capacity off a.allocated v.allocated_live;
    gapped =
        put_back_from a.capacity 0 off size a.free (omega arith) block.0 v.free_live
          (free-Apart a off size v live) v.gapped;
    ordered = remove-Ordered 0 off a.allocated v.ordered;
    counted = omega (arith, sum);
    conserved = omega (arith, sum, put_back-total off size a.free);
    partition = λ x. omega (
      arith,
      v.partition x,
      put_back-count x off size a.free,
      count-remove x off size a.allocated live,
    );
  };
  capacity = refl;
  used = omega (arith, sum);
  live = live;
  removed = refl;
  gone = lookup-remove 0 off a.allocated v.ordered;
  given = λ x. put_back-count x off size a.free;
}
  where
    block : Live a.capacity (off, size)
    block = lookup-Live a.capacity off size a.allocated v.allocated_live live

    sum : total (remove off a.allocated) + size ≡ total a.allocated
    sum = total-remove off size a.allocated live

-- The code's index arithmetic puts the block back among the free ones.
dealloc_found :
    (a : FreelistAllocator) (off size : ℕ)
    → IsFreelist a
    → lookup off a.allocated ≡ some size
    → dealloc a off
      ≡ ok (
        size,
        record a {
          free = put_back off size a.free;
          allocated = remove off a.allocated;
          used = sub32 a.used size;
        },
      )
unfolding dealloc
dealloc_found a off size v live = rw (
  live,
  coalesce-put_back a.capacity 0 off size a.free v.capacity_fits
      (lookup-Live a.capacity off size a.allocated v.allocated_live live) v.free_live v.gapped,
)

-- On a valid freelist allocator, `dealloc` of an offset succeeds exactly when a live block starts
-- there: it then returns the block's size, stays valid, forgets the block, lowers `used` by its
-- size and gives exactly its bytes back to the free blocks; otherwise it fails with `OutOfBounds`.
pub dealloc_cases :
    (a : FreelistAllocator) (off : ℕ)
    → IsFreelist a
    → ((size : ℕ) × (lookup off a.allocated ≡ some size)
        × (b : FreelistAllocator) × (dealloc a off ≡ ok (size, b))
        × Returns a off size b)
      ⊎ ((lookup off a.allocated ≡ none) × (dealloc a off ≡ err out_of_bounds))
unfolding dealloc
dealloc_cases a off v = elim (Option-cases (lookup off a.allocated)) [
  | inl absent ↦ inr (absent, rw absent)
  | inr (size, live) ↦ inl (
    size,
    live,
    record a {
      free = put_back off size a.free;
      allocated = remove off a.allocated;
      used = sub32 a.used size;
    },
    dealloc_found a off size v live,
    returned a off size v live,
  )
]

pub dealloc-Returns :
    (a : FreelistAllocator) (off size : ℕ) (b : FreelistAllocator)
    → IsFreelist a
    → dealloc a off ≡ ok (size, b)
    → Returns a off size b
dealloc-Returns a off size b v e = elim (dealloc_cases a off v) [
  | inl (s, live, c, done, r) ↦
      along_ok (λ o. Returns a off o.0 o.1) (s, c) (size, b) (sym done ∙ e) r
  | inr (absent, failed) ↦ cc
]

-- On a valid freelist allocator, with a u32 alignment, a block that is allocated and returned at
-- once gives back its size and leaves the allocator exactly as it was, its list of free blocks
-- included.
pub dealloc-alloc :
    (a : FreelistAllocator) (size align off : ℕ) (b : FreelistAllocator)
    → IsFreelist a
    → align < u32_mod
    → alloc a size align ≡ ok (off, b)
    → dealloc b off ≡ ok (size, a)
dealloc-alloc a size align off b v ha e =
    let g = alloc-Grants a size align off b v ha e in
    let live : lookup off b.allocated ≡ some size =
      rw g.recorded (lookup-insert_self off size a.allocated) in
    let r = returned b off size g.valid live in
    let free : put_back off size b.free ≡ a.free =
      eq_of_count 0 a.capacity (put_back off size b.free) a.free
        (subst (λ c. All (Live c) (put_back off size b.free)) g.capacity r.valid.free_live)
        v.free_live r.valid.gapped v.gapped
        (λ x. omega (arith, g.taken x, put_back-count x off size b.free)) in
    let live_rest : remove off b.allocated ≡ a.allocated =
      rw g.recorded (remove-insert 0 off size a.allocated v.ordered g.absent) in
    let used : sub32 b.used size ≡ a.used =
      omega (arith, g.used, v.counted, v.conserved, v.capacity_fits) in
    dealloc_found b off size g.valid live ∙ λ i. ok (
      size,
      record { capacity = g.capacity i; free = free i; allocated = live_rest i; used = used i },
    )

total_zero : (lim : ℕ) (m : List Block) → All (Live lim) m → total m ≡ 0 → m ≡ []
total_zero lim [] l e = refl
total_zero lim ((o, s) ∷ m) l e = absurd (omega arith)

-- A valid freelist allocator of positive capacity in which nothing is in use is a new one: all its
-- free blocks have merged into one.
pub free_whole :
    (a : FreelistAllocator) → IsFreelist a → a.used ≡ 0 → 0 < a.capacity → a ≡ new a.capacity
unfolding new
free_whole a v e pos =
    let empty : a.allocated ≡ [] =
      total_zero a.capacity a.allocated v.allocated_live (omega (arith, v.counted)) in
    let free : a.free ≡ (0, a.capacity) ∷ [] =
      eq_of_count 0 a.capacity a.free ((0, a.capacity) ∷ []) v.free_live (omega arith) v.gapped
        (omega arith) (λ x. omega (arith, v.partition x, ap (count x) empty)) in
    λ i. record { capacity = a.capacity; free = free i; allocated = empty i; used = e i }
