-- ===== src/Memory.antt =====
-- The bytes of a region and the stores they are spilled to: the traits `MemoryRegion` and
-- `BackingStore`, and the implementation `VecBackedRegion`, of crates/tvm-core/src/memory_region.rs
-- and backing.rs.
pub mod Vec
use tvm_wasm.Base.{
  ℕ, ◌+◌, List, Result, ok, err, out_of_bounds, ltb, if◌then◌else◌, length, take, drop, slice, ◌≤◌,
  ◌≡◌, replicate, splice, u32_mod, ◌%◌,
}

-- A method that writes returns the memory as it leaves it.
pub record MemoryRegion (M : Type 0) : Type 0 where
  pub len : M → ℕ
  pub read : M → ℕ → ℕ → Result (List ℕ)
  pub write : M → ℕ → List ℕ → Result (Unit {0}) × M
  pub snapshot : M → List ℕ
  pub restore : List ℕ → M

-- What the directory relies on in its memory.
pub record IsMemory {M : Type 0} (mem : MemoryRegion M) : Type 0 where
  pub read_length :
      (m : M) (offset n : ℕ) (bytes : List ℕ) → mem.read m offset n ≡ ok bytes → length bytes ≡ n
  pub read-restore :
      (stored : List ℕ) (offset n : ℕ)
      → offset + n ≤ length stored
      → mem.read (mem.restore stored) offset n ≡ ok (slice n offset stored)
  pub read-write :
      (m : M) (offset : ℕ) (bytes : List ℕ)
      → (mem.write m offset bytes).0 ≡ ok tt
      → mem.read (mem.write m offset bytes).1 offset (length bytes) ≡ ok bytes
  pub read-snapshot :
      (m : M) (offset n : ℕ)
      → mem.read (mem.restore (mem.snapshot m)) offset n ≡ mem.read m offset n

-- Both methods may change the store, also when they fail.
pub record BackingStore (B : Type 0) : Type 0 where
  pub spill : B → ℕ → ℕ → List ℕ → Result (Unit {0}) × B
  pub load : B → ℕ → ℕ → Result (List ℕ) × B

-- What the directory relies on in its store: a load gives what the last spill of the region put.
pub record IsStore {B : Type 0} (store : BackingStore B) : Type 0 where
  pub load-spill :
      (b : B) (region_id generation : ℕ) (bytes : List ℕ)
      → (store.spill b region_id generation bytes).0 ≡ ok tt
      → (store.load (store.spill b region_id generation bytes).1 region_id generation).0 ≡ ok bytes

-- A vector of bytes.
pub record VecBackedRegion : Type 0 where
  pub bytes : List ℕ

abbrev pub with_capacity : ℕ → VecBackedRegion
with_capacity capacity = record { bytes = replicate capacity 0 }

unfoldable pub vec_read : VecBackedRegion → ℕ → ℕ → Result (List ℕ)
vec_read m offset n =
    if ltb (length m.bytes) (offset + n)
    then err out_of_bounds
    else ok (take n (drop offset m.bytes))

unfoldable pub vec_write : VecBackedRegion → ℕ → List ℕ → Result (Unit {0}) × VecBackedRegion
vec_write m offset buf =
    if ltb (length m.bytes) (offset + length buf)
    then (err out_of_bounds, m)
    else (ok tt, record { bytes = splice m.bytes offset buf })

instance abbrev pub vec_memory : MemoryRegion VecBackedRegion
vec_memory = record {
  len = λ m. length m.bytes % u32_mod;
  read = vec_read;
  write = vec_write;
  snapshot = λ m. m.bytes;
  restore = λ bytes. record { bytes = bytes };
}
