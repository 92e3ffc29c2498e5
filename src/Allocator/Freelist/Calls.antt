-- ===== src/Allocator/Freelist/Calls.antt =====
-- The calls of a `FreelistAllocator` (crates/tvm-core/src/allocator.rs), and runs of them.
use tvm_wasm.Base.{
  ℕ, ◌<◌, ◌≡◌, refl, ap, ◌∙◌, inl, inr, List, [], ◌∷◌, ok, err, Result-cases, All, u32_mod, arith,
}
use tvm_wasm.Allocator.Freelist.{FreelistAllocator, new, alloc, dealloc}
use tvm_wasm.Allocator.Freelist.Sound.{IsFreelist, new-IsFreelist, alloc-Grants}
use tvm_wasm.Allocator.Freelist.Return.{dealloc-Returns, free_whole}

pub data Call : Type 0 where
  allocate : ℕ → ℕ → Call
  release : ℕ → Call

-- A call that fails leaves the allocator as it was.
unfoldable pub step : Call → FreelistAllocator → FreelistAllocator
step (allocate size align) a = elim (alloc a size align) [ err _ ↦ a | ok (_, b) ↦ b ]
step (release off) a = elim (dealloc a off) [ err _ ↦ a | ok (_, b) ↦ b ]

unfoldable pub run : List Call → FreelistAllocator → FreelistAllocator
run [] a = a
run (c ∷ cs) a = run cs (step c a)

-- Alignments are `u32`.
abbrev pub Fits : Call → Type 0
Fits (allocate size align) = align < u32_mod
Fits (release off) = Unit {0}

step-IsFreelist :
    (c : Call) (a : FreelistAllocator)
    → Fits c
    → IsFreelist a
    → IsFreelist (step c a) × ((step c a).capacity ≡ a.capacity)
unfolding step
step-IsFreelist (allocate size align) a f v = elim (Result-cases (alloc a size align)) [
  | inr (x, failed) ↦ rw (failed, step) (v, refl)
  | inl ((off, b), done) ↦
      let g = alloc-Grants a size align off b v f done in rw (done, step) (g.valid, g.capacity)
]
step-IsFreelist (release off) a f v = elim (Result-cases (dealloc a off)) [
  | inr (x, failed) ↦ rw (failed, step) (v, refl)
  | inl ((size, b), done) ↦
      let r = dealloc-Returns a off size b v done in rw (done, step) (r.valid, r.capacity)
]

run-IsFreelist :
    (cs : List Call) (a : FreelistAllocator)
    → All Fits cs
    → IsFreelist a
    → IsFreelist (run cs a) × ((run cs a).capacity ≡ a.capacity)
unfolding run
run-IsFreelist [] a f v = (v, refl)
run-IsFreelist (c ∷ cs) a f v =
    let (w, same) = step-IsFreelist c a f.0 v in
    let (ended, kept) = run-IsFreelist cs (step c a) f.1 w in (ended, kept ∙ same)

-- After any calls of `alloc` and `dealloc`, in any order and with u32 alignments, on a new
-- freelist allocator of a positive u32 capacity, when `used` is back at 0 the allocator is again
-- the new one: every free block has merged with its neighbours.
pub run-new :
    (cs : List Call) (capacity : ℕ)
    → 0 < capacity
    → capacity < u32_mod
    → All Fits cs
    → (run cs (new capacity)).used ≡ 0
    → run cs (new capacity) ≡ new capacity
unfolding new
run-new cs capacity pos h f empty =
    let (v, same) = run-IsFreelist cs (new capacity) f (new-IsFreelist capacity pos h) in
    free_whole (run cs (new capacity)) v empty (omega (arith, same, pos)) ∙ ap new same
