-- ===== src/Directory/Spill.antt =====
-- A region that goes to the backing store and comes back: `spill_region`, `load_region` and
-- `read_or_fault` of crates/tvm-core/src/directory.rs.
use tvm_wasm.Base.{
  ℕ, ◌≡◌, refl, ap, ◌∙◌, inl, inr, true, false, Option-cases, List, none, some, Result-cases,
  TvmError, ok, err, not_resident, arith,
}
use tvm_wasm.Handle.{Handle}
use tvm_wasm.Region.{cold, is_cold}
use tvm_wasm.Memory.{MemoryRegion, IsMemory, BackingStore, IsStore}
use tvm_wasm.Directory.{RegionDirectory, RegionEntry, entry, put, lru_remove}
use tvm_wasm.Directory.Access.{validate, read_entry, read}
use tvm_wasm.Directory.Tiers.{
  spill_region, load_region, fault_in, read_or_fault, demoted, faulted_in,
}
use tvm_wasm.Directory.Invariant.{entry-put_self, entry-lru_remove}
use tvm_wasm.Directory.Invariant.Access.{validate-ok}
use tvm_wasm.Directory.Bytes.{validate-entry}

module _ {M : Type 0} (mem : MemoryRegion M) where
  pub read_away :
      (d : RegionDirectory M) (h : Handle) (e : RegionEntry M) (n : ℕ)
      → validate d h ≡ ok e
      → e.memory ≡ none
      → (read mem d h n).0 ≡ err not_resident
  unfolding read read_entry
  read_away d h e n valid away = ground arith

  -- A read depends on the bytes, the capacity and the offset only.
  read_alike :
      (d d' : RegionDirectory M) (h : Handle) (e e' : RegionEntry M) (m m' : M) (n : ℕ)
      → validate d h ≡ ok e
      → validate d' h ≡ ok e'
      → e.memory ≡ some m
      → e'.memory ≡ some m'
      → e'.meta.capacity ≡ e.meta.capacity
      → mem.read m' h.offset n ≡ mem.read m h.offset n
      → (read mem d' h n).0 ≡ (read mem d h n).0
  unfolding read read_entry
  read_alike d d' h e e' m m' n valid valid' here here' same alike =
      elim (Result-cases (mem.read m h.offset n)) [
        | inr (x, failed) ↦ ground arith
        | inl (bytes, found) ↦ ground arith
      ]

module _ {M B : Type 0} (mem : MemoryRegion M) (store : BackingStore B) where
  -- What a spill that moves bytes has done.
  spill_region-ok :
      (d : RegionDirectory M) (id : ℕ) (e : RegionEntry M) (b : B)
      → entry d id ≡ some e
      → is_cold e.meta.residency ≡ false
      → (spill_region mem store d id b).0 ≡ ok tt
      → (m : M) × (e.memory ≡ some m)
        × ((store.spill b e.meta.id e.meta.generation (mem.snapshot m)).0 ≡ ok tt)
        × ((spill_region mem store d id b).1
            ≡ (store.spill b e.meta.id e.meta.generation (mem.snapshot m)).1)
        × ((spill_region mem store d id b).2
            ≡ lru_remove (put d id (demoted (record e { memory = none }) cold)) id)
  unfolding spill_region
  spill_region-ok d id e b at warm_or_hot done = elim (Option-cases e.memory) [
    | inl gone ↦ absurd (ground arith)
    | inr (m, here) ↦ (m, here, ground arith, ground arith, ground arith)
  ]

  fault_in-cold :
      (d : RegionDirectory M) (id : ℕ) (f : RegionEntry M) (bytes : List ℕ) (b : B)
      → entry d id ≡ some f
      → f.meta.residency ≡ cold
      → (store.load b f.meta.id f.meta.generation).0 ≡ ok bytes
      → ((fault_in mem store d id b).0 ≡ ok tt)
        × ((fault_in mem store d id b).2 ≡ put d id (faulted_in mem f bytes))
  unfolding fault_in load_region
  fault_in-cold d id f bytes b at tier loaded = (ground arith, ground arith)

  pub read_or_fault-ok :
      (d : RegionDirectory M) (h : Handle) (n : ℕ) (b : B)
      → (fault_in mem store d h.region_id b).0 ≡ ok tt
      → (read_or_fault mem store d h n b).0
        ≡ (read mem (fault_in mem store d h.region_id b).2 h n).0
  unfolding read_or_fault
  read_or_fault-ok d h n b done = rw (read_or_fault, done) refl

  spill_region-lost :
      (d : RegionDirectory M) (id : ℕ) (e : RegionEntry M) (m : M) (b : B) (x : TvmError)
      → entry d id ≡ some e
      → e.memory ≡ some m
      → is_cold e.meta.residency ≡ false
      → e.meta.pinned ≡ false
      → e.meta.spillable ≡ true
      → (store.spill b e.meta.id e.meta.generation (mem.snapshot m)).0 ≡ err x
      → ((spill_region mem store d id b).0 ≡ err x)
        × ((spill_region mem store d id b).2 ≡ put d id (record e { memory = none }))
  unfolding spill_region
  spill_region-lost d id e m b x at here warm_or_hot loose may failed = (ground arith, ground arith)

  pub spill_region-away :
      (d : RegionDirectory M) (id : ℕ) (e : RegionEntry M) (b : B)
      → entry d id ≡ some e
      → e.memory ≡ none
      → is_cold e.meta.residency ≡ false
      → e.meta.pinned ≡ false
      → e.meta.spillable ≡ true
      → (spill_region mem store d id b).0 ≡ err not_resident
  unfolding spill_region
  spill_region-away d id e b at away warm_or_hot loose may = ground arith

  -- Over a lawful memory and a lawful store, after a `spill_region` that succeeds on a region that
  -- was not Cold, `read` through a valid handle fails with `NotResident`, and `read_or_fault`,
  -- which loads the region again, gives what `read` gave before the spill.
  pub read_or_fault-spill :
      IsMemory mem
      → IsStore store
      → (d : RegionDirectory M) (h : Handle) (e : RegionEntry M) (n : ℕ) (b : B)
      → validate d h ≡ ok e
      → is_cold e.meta.residency ≡ false
      → (spill_region mem store d h.region_id b).0 ≡ ok tt
      → let (_, b', d') = spill_region mem store d h.region_id b in
        ((read mem d' h n).0 ≡ err not_resident)
        × ((read_or_fault mem store d' h n b').0 ≡ (read mem d h n).0)
  read_or_fault-spill laws keeps d h e n b valid warm_or_hot done =
      let (at, same) = validate-ok d h e valid in
      let (m, here, spilled, store_after, after) =
        spill_region-ok d h.region_id e b at warm_or_hot done in
      let f = demoted (record e { memory = none }) cold in
      let d' = lru_remove (put d h.region_id f) h.region_id in
      let hit : entry d' h.region_id ≡ some f =
        entry-lru_remove (put d h.region_id f) h.region_id h.region_id
        ∙ entry-put_self d h.region_id e f at in
      let bytes = mem.snapshot m in
      let b' = (store.spill b e.meta.id e.meta.generation bytes).1 in
      let loaded = keeps.load-spill b e.meta.id e.meta.generation bytes spilled in
      let g = faulted_in mem f bytes in
      let d'' = put d' h.region_id g in
      let hit' : entry d'' h.region_id ≡ some g = entry-put_self d' h.region_id f g hit in
      rw (after, store_after)
        (
          read_away mem d' h f n (validate-entry d' h f hit same) refl,
          let (loads, back) = fault_in-cold d' h.region_id f bytes b' hit refl loaded in
              read_or_fault-ok d' h n b' loads
              ∙ ap (λ x. (read mem x h n).0) back
              ∙ read_alike mem d d'' h e g m (mem.restore bytes) n valid
                  (validate-entry d'' h g hit' same) here refl refl
                  (laws.read-snapshot m h.offset n),
        )

  -- When the store fails a spill of an unpinned, spillable region that is resident and not Cold,
  -- `spill_region` returns the store's error with the region's bytes dropped and nothing else of
  -- its entry changed: `read` through a valid handle then fails with `NotResident`, and so does a
  -- second spill.
  pub spill_region-failed :
      (d : RegionDirectory M) (h : Handle) (e : RegionEntry M) (m : M) (b : B) (x : TvmError)
      (n : ℕ)
      → validate d h ≡ ok e
      → e.memory ≡ some m
      → is_cold e.meta.residency ≡ false
      → e.meta.pinned ≡ false
      → e.meta.spillable ≡ true
      → (store.spill b e.meta.id e.meta.generation (mem.snapshot m)).0 ≡ err x
      → let (r, b', d') = spill_region mem store d h.region_id b in
        (r ≡ err x)
        × (entry d' h.region_id ≡ some (record e { memory = none }))
        × ((read mem d' h n).0 ≡ err not_resident)
        × ((spill_region mem store d' h.region_id b').0 ≡ err not_resident)
  spill_region-failed d h e m b x n valid here warm_or_hot loose may failed =
      let (at, same) = validate-ok d h e valid in
      let f = record e { memory = none } in
      let d' = put d h.region_id f in
      let hit : entry d' h.region_id ≡ some f = entry-put_self d h.region_id e f at in
      let (fails, after) =
        spill_region-lost d h.region_id e m b x at here warm_or_hot loose may failed in
      rw (after) (
        fails,
        hit,
        read_away mem d' h f n (validate-entry d' h f hit same) refl,
        spill_region-away d' h.region_id f _ hit refl warm_or_hot loose may,
      )
