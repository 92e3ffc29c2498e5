-- ===== src/Memory/Vec.antt =====
-- `VecBackedRegion` of crates/tvm-core/src/backing.rs as a memory.
use native.Mathlib.Decide.{dec_lt}
use tvm_wasm.Base.{
  ℕ, ◌+◌, ◌≤◌, ◌<◌, ◌≡◌, refl, false, ltb, ◌⊎◌, inl, inr, List, get_elem?, ok, err, out_of_bounds,
  length, arith, drop, length-take, length-drop, length-splice, read-splice, get_elem?-splice,
}
use tvm_wasm.Memory.{IsMemory, vec_memory, VecBackedRegion, vec_read, vec_write}

-- A write to a vector of bytes succeeds when it is in bounds, keeps the length, is read back
-- whole, and leaves every byte outside its range; out of bounds it fails with `OutOfBounds` and
-- changes nothing.
pub vec_write_lem :
    (m : VecBackedRegion) (offset : ℕ) (buf : List ℕ) (j : ℕ)
    → let (r, m') = vec_write m offset buf in
      ((offset + length buf ≤ length m.bytes)
        × (r ≡ ok tt)
        × (length m'.bytes ≡ length m.bytes)
        × (vec_read m' offset (length buf) ≡ ok buf)
        × (((offset ≤ j) × (j < offset + length buf))
            ⊎ (get_elem? m'.bytes j ≡ get_elem? m.bytes j)))
      ⊎ ((length m.bytes < offset + length buf) × (r ≡ err out_of_bounds) × (m' ≡ m))
unfolding vec_write vec_read
vec_write_lem m offset buf j = elim (dec_lt (length m.bytes) (offset + length buf)) [
  | yes beyond ↦ inr (beyond, ground arith, ground arith)
  | no within ↦
      let inside : offset + length buf ≤ length m.bytes = omega arith in
      let test : ltb (length m.bytes) (offset + length buf) ≡ false = ground arith in
      let len = length-splice m.bytes buf offset inside in
      rw test (
        inl (
          inside,
          refl,
          len,
          rw (len, test, read-splice m.bytes buf offset inside),
          elim (dec_lt j offset) [
            | yes before ↦ inr (get_elem?-splice m.bytes buf offset j inside (inl before))
            | no late ↦ elim (dec_lt j (offset + length buf)) [
              | yes within_range ↦ inl (omega arith, within_range)
              | no beyond ↦ inr (get_elem?-splice m.bytes buf offset j inside (inr (omega arith)))
            ]
          ],
        ))
]

vec_read-length :
    (m : VecBackedRegion) (offset n : ℕ) (bytes : List ℕ)
    → vec_read m offset n ≡ ok bytes
    → length bytes ≡ n
unfolding vec_read
vec_read-length m offset n bytes done =
    ground (arith, length-take n (drop offset m.bytes), length-drop offset m.bytes)

-- A vector of bytes keeps the laws of a memory: a read has the length asked for, a write and a
-- restored vector are read back, and a snapshot that is restored reads like the original.
pub vec-IsMemory : IsMemory vec_memory
unfolding vec_read vec_write
vec-IsMemory = record {
  read_length = vec_read-length;
  read-restore = λ stored offset n within. ground arith;
  read-write = λ m offset bytes done. elim (vec_write_lem m offset bytes 0) [
    | inl (_, _, _, back, _) ↦ back
    | inr (_, failed, _) ↦ absurd (ground arith)
  ];
  read-snapshot = λ m offset n. refl;
}
