-- ===== src/Directory/Bytes.antt =====
-- `read`, `write` and the generation check of crates/tvm-core/src/directory.rs.
use native.Mathlib.Decide.{ℕ_discrete}
use tvm_wasm.Base.{
  ℕ, ◌+◌, ◌%◌, ◌≤◌, ◌<◌, ◌≡◌, ◌≢◌, refl, sym, ap, ◌∙◌, ◌⊎◌, inl, inr, Option-cases, List, some,
  Result-cases, ok, err, length, stale_handle, u16_mod, u32_mod, arith,
}
use tvm_wasm.Handle.{Handle}
use tvm_wasm.Memory.{MemoryRegion, IsMemory}
use tvm_wasm.Region.{record_read}
use tvm_wasm.Directory.{RegionDirectory, RegionEntry, entry, put}
use tvm_wasm.Directory.Access.{
  validate, read_entry, write_entry, read, write, bump_generation, next_generation,
}
use tvm_wasm.Directory.Invariant.{IsDirectory, entry-put_self, entry-put_ne}
use tvm_wasm.Directory.Invariant.Access.{validate-ok}

-- No generation is its own successor.
pub next_generation_ne : (g : ℕ) → g < u16_mod → next_generation g ≢ g
unfolding next_generation
next_generation_ne g h e = ground arith

module _ {M : Type 0} where
  pub validate-entry :
      (d : RegionDirectory M) (h : Handle) (e : RegionEntry M)
      → entry d h.region_id ≡ some e
      → e.meta.generation ≡ h.generation
      → validate d h ≡ ok e
  unfolding validate
  validate-entry d h e at same = ground arith

  pub validate_stale :
      (d : RegionDirectory M) (h : Handle) (e : RegionEntry M)
      → entry d h.region_id ≡ some e
      → e.meta.generation ≢ h.generation
      → validate d h ≡ err stale_handle
  unfolding validate
  validate_stale d h e at other = ground arith

  validate_other :
      (d : RegionDirectory M) (id : ℕ) (f : RegionEntry M) (k : Handle)
      → id ≢ k.region_id
      → validate (put d id f) k ≡ validate d k
  unfolding validate
  validate_other d id f k other = elim (Option-cases (entry d k.region_id)) [
    | inl gone ↦ ground (arith, entry-put_ne d id k.region_id f other)
    | inr (e, at) ↦ ground (arith, entry-put_ne d id k.region_id f other)
  ]

  -- In a well-formed directory, `bump_generation` of the region of a valid handle makes that
  -- handle stale, leaves the same bytes and allocations behind the handle of the next generation,
  -- which is valid, and validates a handle of another region as before.
  pub validate-bump_generation :
      (d : RegionDirectory M) (h : Handle) (e : RegionEntry M) (k : Handle)
      → IsDirectory d
      → validate d h ≡ ok e
      → let d' = (bump_generation d h.region_id).1 in
        (validate d' h ≡ err stale_handle)
        × ((f : RegionEntry M) × (validate d'
                (record h { generation = next_generation h.generation })
              ≡ ok f)
            × (f.memory ≡ e.memory)
            × (f.allocator ≡ e.allocator))
        × ((h.region_id ≡ k.region_id) ⊎ (validate d' k ≡ validate d k))
  unfolding bump_generation
  validate-bump_generation d h e k v valid =
      let (at, same) = validate-ok d h e valid in
      let f = record e {
        meta = record (e.meta) { generation = next_generation e.meta.generation };
      } in
      let hit : entry (put d h.region_id f) h.region_id ≡ some f =
        entry-put_self d h.region_id e f at in
      let w = v.entries h.region_id e at in
      rw (at, bump_generation)
        (
          validate_stale (put d h.region_id f) h f hit
              (λ x. next_generation_ne e.meta.generation w.generation_fits (x ∙ sym same)),
          (f, validate-entry (put d h.region_id f) _ f hit (ap next_generation same), refl, refl),
          elim (ℕ_discrete h.region_id k.region_id) [
            | yes same_region ↦ inl same_region
            | no other ↦ inr (validate_other d h.region_id f k other)
          ],
        )

module _ {M : Type 0} (mem : MemoryRegion M) where
  -- A range within the region is read from its memory.
  pub read_entry_within :
      (e : RegionEntry M) (m : M) (offset n : ℕ) (bytes : List ℕ)
      → e.memory ≡ some m
      → offset + n % u32_mod ≤ e.meta.capacity
      → offset + n % u32_mod < u32_mod
      → mem.read m offset n ≡ ok bytes
      → read_entry mem e offset n ≡ ok (bytes, record e { metrics = record_read e.metrics n })
  unfolding read_entry
  read_entry_within e m offset n bytes here within small found = ground arith

  pub read_within :
      (d : RegionDirectory M) (h : Handle) (e : RegionEntry M) (m : M) (n : ℕ) (bytes : List ℕ)
      → validate d h ≡ ok e
      → e.memory ≡ some m
      → h.offset + n % u32_mod ≤ e.meta.capacity
      → h.offset + n % u32_mod < u32_mod
      → mem.read m h.offset n ≡ ok bytes
      → (read mem d h n).0 ≡ ok bytes
  unfolding read
  read_within d h e m n bytes valid here within small found =
      rw (valid, read, read_entry_within e m h.offset n bytes here within small found) refl

  -- What a successful write has done to the entry.
  write_entry-ok :
      (e : RegionEntry M) (offset : ℕ) (bytes : List ℕ)
      → (write_entry mem e offset bytes).0 ≡ ok tt
      → let f = (write_entry mem e offset bytes).1 in
        (m : M) × (e.memory ≡ some m)
        × (f.memory ≡ some (mem.write m offset bytes).1)
        × ((mem.write m offset bytes).0 ≡ ok tt)
        × (f.meta ≡ e.meta)
        × (offset + length bytes % u32_mod ≤ e.meta.capacity)
        × (offset + length bytes % u32_mod < u32_mod)
  unfolding write_entry
  write_entry-ok e offset bytes done = elim (Option-cases e.memory) [
    | inl gone ↦ absurd (ground arith)
    | inr (m, here) ↦ elim (Result-cases (mem.write m offset bytes).0) [
      | inr (x, failed) ↦ absurd (ground arith)
      | inl (u, found) ↦
          (m, here, ground arith, ground arith, ground arith, ground arith, ground arith)
    ]
  ]

  read_other :
      (d : RegionDirectory M) (id : ℕ) (f : RegionEntry M) (k : Handle) (n : ℕ)
      → id ≢ k.region_id
      → (read mem (put d id f) k n).0 ≡ (read mem d k n).0
  unfolding read
  read_other d id f k n other =
      let unseen = validate_other d id f k other in
      elim (Result-cases (validate d k)) [
        | inr (x, failed) ↦ ground arith
        | inl (e, valid) ↦ ground arith
      ]

  -- Over a lawful memory, the bytes of a `write` that succeeds are read back through the same
  -- handle, and a read through any handle of another region gives what it gave before.
  pub read-write :
      IsMemory mem
      → (d : RegionDirectory M) (h : Handle) (bytes : List ℕ) (k : Handle) (n : ℕ)
      → (write mem d h bytes).0 ≡ ok tt
      → ((read mem (write mem d h bytes).1 h (length bytes)).0 ≡ ok bytes)
        × ((h.region_id ≡ k.region_id)
            ⊎ ((read mem (write mem d h bytes).1 k n).0 ≡ (read mem d k n).0))
  unfolding write
  read-write laws d h bytes k n done = elim (Result-cases (validate d h)) [
    | inr (x, failed) ↦ absurd (ground arith)
    | inl (e, valid) ↦
        let (at, same) = validate-ok d h e valid in
        let wrote : (write_entry mem e h.offset bytes).0 ≡ ok tt = ground arith in
        let (m, here, after, ended, meta, within, fits) = write_entry-ok e h.offset bytes wrote in
        let f = (write_entry mem e h.offset bytes).1 in
        let back = laws.read-write m h.offset bytes ended in
        let hit = entry-put_self d h.region_id e f at in
        let valid' =
          validate-entry (put d h.region_id f) h f hit (ap (λ r. r.generation) meta ∙ same) in
        rw (valid, write)
          (
            read_within (put d h.region_id f) h f _ (length bytes) bytes valid' after
                (omega (arith, within, ap (λ r. r.capacity) meta)) fits back,
            elim (ℕ_discrete h.region_id k.region_id) [
              | yes same_region ↦ inl same_region
              | no other ↦ inr (read_other d h.region_id f k n other)
            ],
          )
  ]
