-- ===== src/Directory/Invariant/Tiers.antt =====
-- Well-formed directories and the methods of Directory/Tiers.
use tvm_wasm.Base.{
  ℕ, ◌≡◌, refl, ap, inl, inr, Bool-cases, Option-cases, List, [], ◌∷◌, none, some, Result,
  Result-cases, ok, err, arith, reverse,
}
use tvm_wasm.Handle.{Handle}
use tvm_wasm.Region.{Residency, hot, warm, cold, external}
use tvm_wasm.Memory.{MemoryRegion, BackingStore}
use tvm_wasm.Directory.{RegionDirectory, RegionEntry, entry, put, lru_remove}
use tvm_wasm.Directory.Tiers.{
  mark_external, load_external_region, restore_region, spill_region, load_region, promote_region,
  demote_region, evict_first, evict_warm_region, fault_in, read_or_fault, write_or_fault, demoted,
  promoted, faulted_in,
}
use tvm_wasm.Directory.Invariant.{
  IsDirectory, lru_remove-IsDirectory, lru_push_front-IsDirectory, entry-lt, entry-put_self,
}
use tvm_wasm.Directory.Invariant.Access.{put_same}
use tvm_wasm.Directory.Invariant.Bytes.{read-IsDirectory, write-IsDirectory}

module _ {M : Type 0} where
  -- A change of tier, of the bytes and of the counters only.
  retier :
      (d : RegionDirectory M) (id : ℕ) (e f : RegionEntry M) (r : Residency)
      → IsDirectory d
      → entry d id ≡ some e
      → f.meta ≡ record (e.meta) { residency = r }
      → f.allocator ≡ e.allocator
      → IsDirectory (put d id f)
  retier d id e f r v at same alloc =
      put_same d id e f v at (ap (λ m. m.id) same) (ap (λ m. m.generation) same)
        (ap (λ m. m.capacity) same) (ap (λ m. m.used) same) alloc

  pub mark_external-IsDirectory :
      (d : RegionDirectory M) (id : ℕ) → IsDirectory d → IsDirectory (mark_external d id).1
  unfolding mark_external
  mark_external-IsDirectory d id v = elim (Option-cases (entry d id)) [
    | inl gone ↦ rw (gone, mark_external) v
    | inr (e, at) ↦ elim (Bool-cases e.meta.pinned) [
      | inl held ↦ ground (arith, v)
      | inr loose ↦
          let w = lru_remove-IsDirectory _ id (
            retier d id e
              (record e { meta = record (e.meta) { residency = external }; memory = none }) external
              v at refl refl) in
          ground (arith, w)
    ]
  ]

module _ {M : Type 0} (mem : MemoryRegion M) where
  faulted-IsDirectory :
      (d : RegionDirectory M) (id : ℕ) (e : RegionEntry M) (bytes : List ℕ)
      → IsDirectory d
      → entry d id ≡ some e
      → IsDirectory (put d id (faulted_in mem e bytes))
  faulted-IsDirectory d id e bytes v at = retier d id e (faulted_in mem e bytes) hot v at refl refl

  pub load_external-IsDirectory :
      (d : RegionDirectory M) (id : ℕ) (loader : ℕ → ℕ → Result (List ℕ))
      → IsDirectory d
      → IsDirectory (load_external_region mem d id loader).1
  unfolding load_external_region
  load_external-IsDirectory d id loader v = elim (Option-cases (entry d id)) [
    | inl gone ↦ rw (gone, load_external_region) v
    | inr (e, at) ↦ elim (Result-cases (loader e.meta.id e.meta.generation)) [
      | inr (x, failed) ↦ ground (arith, v)
      | inl (bytes, found) ↦ ground (arith, v, faulted-IsDirectory d id e bytes v at)
    ]
  ]

  pub restore_region-IsDirectory :
      (d : RegionDirectory M) (id : ℕ) (file : Result (List ℕ))
      → IsDirectory d
      → IsDirectory (restore_region mem d id file).1
  unfolding restore_region
  restore_region-IsDirectory d id (err x) v = v
  restore_region-IsDirectory d id (ok bytes) v = elim (Option-cases (entry d id)) [
    | inl gone ↦ rw (gone, restore_region) v
    | inr (e, at) ↦
        let w =
          retier d id e
            (record e {
              meta = record (e.meta) { residency = hot };
              memory = some (mem.restore bytes);
            })
            hot v at refl refl in
        ground (arith, v, w)
  ]

module _ {M B : Type 0} (mem : MemoryRegion M) (store : BackingStore B) where
  pub spill_region-IsDirectory :
      (d : RegionDirectory M) (id : ℕ) (b : B)
      → IsDirectory d
      → IsDirectory (spill_region mem store d id b).2
  unfolding spill_region
  spill_region-IsDirectory d id b v = elim (Option-cases (entry d id)) [
    | inl gone ↦ rw (gone, spill_region) v
    | inr (e, at) ↦
        let taken = record e { memory = none } in
        let lost = retier d id e taken e.meta.residency v at refl refl in
        let gone =
          lru_remove-IsDirectory _ id (retier d id e (demoted taken cold) cold v at refl refl) in
        ground (arith, v, lost, gone)
  ]

  pub load_region-IsDirectory :
      (d : RegionDirectory M) (id : ℕ) (b : B)
      → IsDirectory d
      → IsDirectory (load_region mem store d id b).2
  unfolding load_region
  load_region-IsDirectory d id b v = elim (Option-cases (entry d id)) [
    | inl gone ↦ rw (gone, load_region) v
    | inr (e, at) ↦ elim (Result-cases (store.load b e.meta.id e.meta.generation).0) [
      | inr (x, failed) ↦ ground (arith, v)
      | inl (bytes, found) ↦ ground (arith, v, faulted-IsDirectory mem d id e bytes v at)
    ]
  ]

  pub promote_region-IsDirectory :
      (d : RegionDirectory M) (id : ℕ) (b : B)
      → IsDirectory d
      → IsDirectory (promote_region mem store d id b).2
  unfolding promote_region
  promote_region-IsDirectory d id b v = elim (Option-cases (entry d id)) [
    | inl gone ↦ rw (gone, promote_region) v
    | inr (e, at) ↦
        let w = lru_remove-IsDirectory _ id (retier d id e (promoted e) hot v at refl refl) in
        ground (arith, v, w, load_region-IsDirectory d id b v)
  ]

  pub demote_region-IsDirectory :
      (d : RegionDirectory M) (id : ℕ) (b : B)
      → IsDirectory d
      → IsDirectory (demote_region mem store d id b).2
  unfolding demote_region
  demote_region-IsDirectory d id b v = elim (Option-cases (entry d id)) [
    | inl gone ↦ rw (gone, demote_region) v
    | inr (e, at) ↦
        let w = retier d id e (demoted e warm) warm v at refl refl in
        let known = entry-lt _ id (demoted e warm) (entry-put_self d id e (demoted e warm) at) in
        ground
          (arith, v, lru_push_front-IsDirectory _ id w known, spill_region-IsDirectory d id b v)
  ]

  evict_first-IsDirectory :
      (ids : List ℕ) (d : RegionDirectory M) (b : B)
      → IsDirectory d
      → IsDirectory (evict_first mem store ids d b).2
  unfolding evict_first
  evict_first-IsDirectory [] d b v = v
  evict_first-IsDirectory (id ∷ ids) d b v = ground (
    arith,
    evict_first-IsDirectory ids (lru_remove d id) b (lru_remove-IsDirectory d id v),
    spill_region-IsDirectory d id b v,
  )

  pub evict_warm_region-IsDirectory :
      (d : RegionDirectory M) (b : B)
      → IsDirectory d
      → IsDirectory (evict_warm_region mem store d b).2
  unfolding evict_warm_region
  evict_warm_region-IsDirectory d b v = evict_first-IsDirectory (reverse d.warm_lru) d b v

  fault_in-IsDirectory :
      (d : RegionDirectory M) (id : ℕ) (b : B)
      → IsDirectory d
      → IsDirectory (fault_in mem store d id b).2
  unfolding fault_in
  fault_in-IsDirectory d id b v = ground (arith, v, load_region-IsDirectory d id b v)

  pub read_or_fault-IsDirectory :
      (d : RegionDirectory M) (h : Handle) (n : ℕ) (b : B)
      → IsDirectory d
      → IsDirectory (read_or_fault mem store d h n b).2
  unfolding read_or_fault
  read_or_fault-IsDirectory d h n b v =
      let w = fault_in-IsDirectory d h.region_id b v in
      ground (arith, w, read-IsDirectory mem (fault_in mem store d h.region_id b).2 h n w)

  pub write_or_fault-IsDirectory :
      (d : RegionDirectory M) (h : Handle) (bytes : List ℕ) (b : B)
      → IsDirectory d
      → IsDirectory (write_or_fault mem store d h bytes b).2
  unfolding write_or_fault
  write_or_fault-IsDirectory d h bytes b v =
      let w = fault_in-IsDirectory d h.region_id b v in
      ground (arith, w, write-IsDirectory mem (fault_in mem store d h.region_id b).2 h bytes w)
