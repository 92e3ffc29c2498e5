-- ===== src/Allocator/Bump.antt =====
-- `BumpAllocator` of crates/tvm-core/src/allocator.rs. A method that fails leaves the allocator as
-- it was, so that only a success returns a new one.
pub mod Bounds
use tvm_wasm.Base.{
  ℕ, if◌then◌else◌, ltb, Result, ok, err, allocation_failed, ok_or, ◌>>=◌, checked_add32,
}
use tvm_wasm.Allocator.Align.{align_up}

pub record BumpAllocator : Type 0 where
  pub capacity : ℕ
  pub used : ℕ

unfoldable pub new : ℕ → BumpAllocator
new capacity = record { capacity = capacity; used = 0 }

unfoldable pub alloc : BumpAllocator → ℕ → ℕ → Result (ℕ × BumpAllocator)
alloc a size align = do
  aligned ← ok_or (align_up a.used align) allocation_failed
  last ← ok_or (checked_add32 aligned size) allocation_failed
  if ltb a.capacity last then err allocation_failed else ok (aligned, record a { used = last })

unfoldable pub reset : BumpAllocator → BumpAllocator
reset a = record a { used = 0 }
