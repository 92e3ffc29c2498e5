-- ===== src/Allocator/Slab.antt =====
-- `SlabAllocator` of crates/tvm-core/src/allocator.rs: slots of one size. The head of
-- `free_slots` is the back of the vector, where slots are pushed and popped. A method that fails
-- leaves the allocator as it was, so that only a success returns a new one.
pub mod Slots
pub mod Sound
use tvm_wasm.Base.{
  ℕ, zero, suc, ◌*◌, ◌/◌, ◌%◌, List, [], ◌∷◌, Bool, true, false, not, ◌||◌, ltb, leb, ◌==◌,
  if◌then◌else◌, Result, ok, err, allocation_failed, out_of_bounds, add32, sub32, u32_mod,
}

pub record SlabAllocator : Type 0 where
  pub capacity : ℕ
  pub class_size : ℕ
  pub free_slots : List ℕ
  pub n_slots : ℕ
  pub used : ℕ

-- The offsets of `n` slots from number `i` on.
abbrev pub slots : ℕ → ℕ → ℕ → List ℕ
slots class_size i zero = []
slots class_size i (suc n) = (i * class_size) % u32_mod ∷ slots class_size (suc i) n

abbrev pub contains : List ℕ → ℕ → Bool
contains [] offset = false
contains (x ∷ xs) offset = x == offset || contains xs offset

unfoldable pub new : ℕ → ℕ → SlabAllocator
new capacity class_size =
    let n_slots = if class_size == 0 then 0 else capacity / class_size in
    record {
      capacity = capacity;
      class_size = class_size;
      free_slots = slots class_size 0 n_slots;
      n_slots = n_slots;
      used = 0;
    }

unfoldable pub alloc : SlabAllocator → ℕ → Result (ℕ × SlabAllocator)
alloc a size =
    if a.class_size == 0 || not (size == a.class_size)
    then err allocation_failed
    else elim a.free_slots [
      | [] ↦ err allocation_failed
      | off ∷ rest ↦ ok (off, record a { free_slots = rest; used = add32 a.used a.class_size })
    ]

unfoldable pub dealloc : SlabAllocator → ℕ → Result (ℕ × SlabAllocator)
dealloc a offset =
    if a.class_size == 0
      || leb ((a.n_slots * a.class_size) % u32_mod) offset
      || not (offset % a.class_size == 0)
    then err out_of_bounds
    else if contains a.free_slots offset
    then err out_of_bounds
    else ok (
      a.class_size,
      record a { free_slots = offset ∷ a.free_slots; used = sub32 a.used a.class_size },
    )
