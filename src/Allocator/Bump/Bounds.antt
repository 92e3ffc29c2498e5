-- ===== src/Allocator/Bump/Bounds.antt =====
-- The bounds of `BumpAllocator` (crates/tvm-core/src/allocator.rs).
use tvm_wasm.Base.{
  ℕ, ◌+◌, ◌%◌, ◌≤◌, ◌<◌, ◌≡◌, Option-cases, ◌⊎◌, inl, inr, ok, err, allocation_failed, u32_mod,
  arith,
}
use tvm_wasm.Allocator.Align.{align_up, align_up-one, align_up-IsRounded}
use tvm_wasm.Allocator.Bump.{BumpAllocator, alloc}

pub record IsBump (a : BumpAllocator) : Type 0 where
  pub capacity_fits : a.capacity < u32_mod
  pub within : a.used ≤ a.capacity

-- An allocation that succeeds on a valid bump allocator, with a u32 alignment, keeps it valid,
-- lies above all that was handed out, is aligned, and moves the pointer to its end.
pub alloc-IsBump :
    (a : BumpAllocator) (size align : ℕ) {off : ℕ} {b : BumpAllocator}
    → IsBump a
    → align < u32_mod
    → alloc a size align ≡ ok (off, b)
    → IsBump b
      × (a.used ≤ off)
      × (off % align ≡ 0)
      × (b.used ≡ off + size)
      × (b.capacity ≡ a.capacity)
unfolding alloc
alloc-IsBump a size align v h e = elim (Option-cases (align_up a.used align)) [
  | inl missing ↦ absurd (ground arith)
  | inr (x, at) ↦ ground (arith, align_up-IsRounded a.used align h at)
]

-- With alignment 1, a valid bump allocator serves a request at its pointer when the capacity holds
-- it, and fails with `AllocationFailed` when it does not.
pub alloc_one :
    (a : BumpAllocator) (size : ℕ)
    → IsBump a
    → ((a.used + size ≤ a.capacity)
        × (alloc a size 1 ≡ ok (a.used, record a { used = a.used + size })))
      ⊎ ((a.capacity < a.used + size) × (alloc a size 1 ≡ err allocation_failed))
unfolding alloc
alloc_one a size v = ground (arith, align_up-one a.used)
