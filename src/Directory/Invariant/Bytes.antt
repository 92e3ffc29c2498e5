-- ===== src/Directory/Invariant/Bytes.antt =====
-- Well-formed directories and the methods that read, write and copy bytes.
use tvm_wasm.Base.{ℕ, ◌≡◌, ap, inl, inr, Option-cases, List, some, Result-cases, ok, arith}
use tvm_wasm.Handle.{Handle}
use tvm_wasm.Memory.{MemoryRegion}
use tvm_wasm.Directory.{RegionDirectory, RegionEntry, entry, put}
use tvm_wasm.Directory.Access.{
  validate, read_entry, write_entry, read, write, cross_region_copy, read_into, write_from,
}
use tvm_wasm.Directory.Invariant.{IsDirectory}
use tvm_wasm.Directory.Invariant.Access.{put_same, validate-ok}

module _ {M : Type 0} (mem : MemoryRegion M) where
  -- Reading and writing bytes leave all but the bytes and the counters alone.
  pub read_entry_same :
      (e : RegionEntry M) (offset n : ℕ) (bytes : List ℕ) (f : RegionEntry M)
      → read_entry mem e offset n ≡ ok (bytes, f)
      → (f.meta ≡ e.meta) × (f.allocator ≡ e.allocator) × (f.memory ≡ e.memory)
  unfolding read_entry
  read_entry_same e offset n bytes f done = elim (Option-cases e.memory) [
    | inl gone ↦ absurd (ground arith)
    | inr (m, at) ↦ elim (Result-cases (mem.read m offset n)) [
      | inr (x, failed) ↦ absurd (ground arith)
      | inl (bs, found) ↦ ground arith
    ]
  ]

  write_entry_same :
      (e : RegionEntry M) (offset : ℕ) (bytes : List ℕ)
      → let f = (write_entry mem e offset bytes).1 in
        (f.meta ≡ e.meta) × (f.allocator ≡ e.allocator)
  unfolding write_entry
  write_entry_same e offset bytes = ground arith

  put_meta :
      (d : RegionDirectory M) (id : ℕ) (e f : RegionEntry M)
      → IsDirectory d
      → entry d id ≡ some e
      → f.meta ≡ e.meta
      → f.allocator ≡ e.allocator
      → IsDirectory (put d id f)
  put_meta d id e f v at same alloc =
      put_same d id e f v at (ap (λ m. m.id) same) (ap (λ m. m.generation) same)
        (ap (λ m. m.capacity) same) (ap (λ m. m.used) same) alloc

  pub read-IsDirectory :
      (d : RegionDirectory M) (h : Handle) (n : ℕ) → IsDirectory d → IsDirectory (read mem d h n).1
  unfolding read
  read-IsDirectory d h n v = elim (Result-cases (validate d h)) [
    | inr (x, failed) ↦ rw (failed, read) v
    | inl (e, valid) ↦ elim (Result-cases (read_entry mem e h.offset n)) [
      | inr (x, failed) ↦ rw (valid, read, failed) v
      | inl ((bytes, f), done) ↦
          let (meta, alloc, _) = read_entry_same e h.offset n bytes f done in
          rw (valid, read, done)
            (put_meta d h.region_id e f v (validate-ok d h e valid).0 meta alloc)
    ]
  ]

  pub write-IsDirectory :
      (d : RegionDirectory M) (h : Handle) (bytes : List ℕ)
      → IsDirectory d
      → IsDirectory (write mem d h bytes).1
  unfolding write
  write-IsDirectory d h bytes v = elim (Result-cases (validate d h)) [
    | inr (x, failed) ↦ rw (failed, write) v
    | inl (e, valid) ↦
        let (meta, alloc) = write_entry_same e h.offset bytes in
        rw (valid, write) (put_meta d h.region_id e _ v (validate-ok d h e valid).0 meta alloc)
  ]

  pub copy-IsDirectory :
      (d : RegionDirectory M) (s so t to n : ℕ)
      → IsDirectory d
      → IsDirectory (cross_region_copy mem d s so t to n).1
  unfolding cross_region_copy
  copy-IsDirectory d s so t to n v = elim (Option-cases (entry d s)) [
    | inl gone ↦ rw (gone, cross_region_copy) v
    | inr (e, at) ↦ elim (Result-cases (read_entry mem e so n)) [
      | inr (x, failed) ↦ rw (at, cross_region_copy, failed) v
      | inl ((bytes, f), done) ↦
          let (meta, alloc, _) = read_entry_same e so n bytes f done in
          let v' = put_meta d s e f v at meta alloc in
          elim (Option-cases (entry (put d s f) t)) [
            | inl gone ↦ rw (at, cross_region_copy, done, gone) v'
            | inr (g, there) ↦
                let (meta', alloc') = write_entry_same g to bytes in
                rw (at, cross_region_copy, done, there)
                  (put_meta (put d s f) t g _ v' there meta' alloc')
          ]
    ]
  ]

  pub read_into-IsDirectory :
      (d : RegionDirectory M) (src : Handle) (t to n : ℕ)
      → IsDirectory d
      → IsDirectory (read_into mem d src t to n).1
  unfolding read_into
  read_into-IsDirectory d src t to n v = elim (Result-cases (validate d src)) [
    | inr (x, failed) ↦ rw (failed, read_into) v
    | inl (e, valid) ↦ rw (valid, read_into) (copy-IsDirectory d src.region_id src.offset t to n v)
  ]

  pub write_from-IsDirectory :
      (d : RegionDirectory M) (s so : ℕ) (dst : Handle) (n : ℕ)
      → IsDirectory d
      → IsDirectory (write_from mem d s so dst n).1
  unfolding write_from
  write_from-IsDirectory d s so dst n v = elim (Result-cases (validate d dst)) [
    | inr (x, failed) ↦ rw (failed, write_from) v
    | inl (e, valid) ↦ rw (valid, write_from) (copy-IsDirectory d s so dst.region_id dst.offset n v)
  ]
