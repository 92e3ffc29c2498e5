-- ===== src/Guest/Facade/Coherence.antt =====
-- The cache of one entry against the directory that it stands for.
use tvm_wasm.Base.{
  ℕ, ◌≡◌, ◌≢◌, refl, ◌∙◌, inl, inr, ◌==◌, Bool-cases, Option-cases, Result-cases, List, [], ◌∷◌,
  arith,
}
use tvm_wasm.Handle.{Handle}
use tvm_wasm.Allocator.{AllocatorKind}
use tvm_wasm.Allocator
use tvm_wasm.Guest.{
  GuestDirectory, GuestEntry, Dispatch, Pool, placed_entry, walk_blocks, walk_start, compacted,
  entry, put, occupied, resolve, choose_pool,
}
use tvm_wasm.Guest
use tvm_wasm.Guest.Facade.Calls.{
  Call, create, allocate, release, read_at, write_at, pin_it, unpin_it, compact, step, run,
}
use tvm_wasm.Guest.Entries.{entry-put_ne}
use tvm_wasm.Guest.Facade.{
  GuestTvm, cached_resolve, create_region, alloc, dealloc, pin, unpin, with_default_allocator, read,
  write, compact_region,
}
use tvm_wasm.Guest.Facade.Mirrors.{
  IsCoherent, cached_resolve-resolve, Keeps-IsCoherent, create_region-Keeps, alloc-Keeps,
  dealloc-Keeps, pin-Keeps,
}

module _ {P : Type 0} (dispatch : Dispatch P) where
  -- A compaction touches one slot.
  compact_region-other :
      (g : GuestDirectory) (id j : ℕ) (p : P)
      → id ≢ j
      → entry (Guest.compact_region dispatch g id p).2 j ≡ entry g j
  unfolding Guest.compact_region
  compact_region-other g id j p other = elim (Option-cases (entry g id)) [
    | inl gone ↦ rw (gone, Guest.compact_region) refl
    | inr (e, at) ↦ elim (Bool-cases e.meta.pinned) [
      | inl held ↦ rw (at, Guest.compact_region, held) refl
      | inr loose ↦ elim (Option-cases (Allocator.allocated_blocks e.allocator)) [
        | inl unknown ↦ rw (at, Guest.compact_region, loose, unknown) refl
        | inr (blocks, known) ↦
            elim (Result-cases
              (walk_blocks dispatch e.pool_index e.base_offset blocks walk_start p).0) [
                | inr (x, failed) ↦ rw (at, Guest.compact_region, loose, known, failed) refl
                | inl (w, done) ↦
                    rw (at, Guest.compact_region, loose, known, done) (entry-put_ne g id j _ other)
              ]
      ]
    ]
  ]

  compact_region-IsCoherent :
      (t : GuestTvm) (id : ℕ) (p : P) → IsCoherent t → IsCoherent (compact_region dispatch t id p).2
  unfolding compact_region
  compact_region-IsCoherent t id p v = elim (Bool-cases (t.cache.region_id == id)) [
    | inl cached ↦ rw (compact_region, cached) (inl refl)
    | inr other ↦ elim v [
      | inl empty ↦ rw (compact_region, other) (inl empty)
      | inr m ↦
          let kept = compact_region-other t.directory id t.cache.region_id p (ground arith) in
          rw (compact_region, other)
            (inr (record {
              e = m.e;
              at = kept ∙ m.at;
              generation = m.generation;
              pool = m.pool;
              base = m.base;
            }))
    ]
  ]

  step-IsCoherent :
      (c : Call) (p : P) (t : GuestTvm) → IsCoherent t → IsCoherent (step dispatch c p t).1
  unfolding create_region alloc dealloc pin unpin read write
  step-IsCoherent (create k c) p t v =
      Keeps-IsCoherent t _ v (create_region-Keeps t.directory k c t.default_allocator)
  step-IsCoherent (allocate id n) p t v = Keeps-IsCoherent t _ v (alloc-Keeps t.directory id n)
  step-IsCoherent (release h) p t v = Keeps-IsCoherent t _ v (dealloc-Keeps t.directory h)
  step-IsCoherent (read_at h n) p t v = ground (arith, (cached_resolve-resolve t h v).1)
  step-IsCoherent (write_at h bytes) p t v = ground (arith, (cached_resolve-resolve t h v).1)
  step-IsCoherent (pin_it id) p t v = Keeps-IsCoherent t _ v (pin-Keeps t.directory id)
  step-IsCoherent (unpin_it id) p t v = v
  step-IsCoherent (compact id) p t v = compact_region-IsCoherent t id p v

  run-IsCoherent :
      (cs : List Call) (p : P) (t : GuestTvm) → IsCoherent t → IsCoherent (run dispatch cs p t).1
  unfolding run
  run-IsCoherent [] p t v = v
  run-IsCoherent (c ∷ cs) p t v =
      run-IsCoherent cs (step dispatch c p t).0 (step dispatch c p t).1 (step-IsCoherent c p t v)

  -- After any calls of the facade of a new guest, whatever the helpers do, the resolution through
  -- the cache of one entry gives for every handle what the directory's own `resolve` gives.
  pub cached_resolve-run :
      (pools : List Pool) (k : AllocatorKind) (cs : List Call) (p : P) (h : Handle)
      → let t = (run dispatch cs p (with_default_allocator pools k)).1 in
        (cached_resolve t h).0 ≡ resolve t.directory h
  cached_resolve-run pools k cs p h =
      let t = (run dispatch cs p (with_default_allocator pools k)).1 in
      (cached_resolve-resolve t h
        (run-IsCoherent cs p (with_default_allocator pools k) (inl refl))).0
