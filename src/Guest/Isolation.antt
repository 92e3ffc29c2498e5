-- ===== src/Guest/Isolation.antt =====
-- The regions of a guest after any calls of its facade, crates/tvm-guest-mm/src/facade.rs.
use tvm_wasm.Base.{
  ℕ, zero, suc, ◌≡◌, ◌≢◌, ◌≤◌, ◌<◌, refl, sym, ap, subst, inl, inr, Bool-cases, Option-cases,
  Result-cases, List, [], ◌∷◌, some, some-inj, get_elem?, All, ok, u32_mod, arith,
}
use tvm_wasm.Handle.{Handle}
use tvm_wasm.Allocator.{RegionAllocator, AllocatorKind, bump, freelist, slab}
use tvm_wasm.Allocator
use tvm_wasm.Allocator.Blocks.{Block, Live, total}
use tvm_wasm.Allocator.Freelist.Rebuild.{rebuild-IsFreelist}
use tvm_wasm.Allocator.Sound.{IsAllocator, is_freelist, KindFits}
use tvm_wasm.Guest.{
  GuestDirectory, GuestEntry, Pool, Dispatch, Walk, walk_start, slide, walk_blocks, compacted,
  resolve, entry, put,
}
use tvm_wasm.Guest
use tvm_wasm.Guest.Exclusive.{Exclusive, alloc-Exclusive}
use tvm_wasm.Guest.Placement.{IsPlaced, put-IsPlaced}
use tvm_wasm.Guest.Placement.Calls.{
  create_region-IsPlaced, alloc-IsPlaced, dealloc-IsPlaced, pin-IsPlaced,
}
use tvm_wasm.Guest.Facade.{
  GuestTvm, with_default_allocator, cached_resolve, create_region, alloc, dealloc, pin, unpin, read,
  write, forget, compact_region,
}
use tvm_wasm.Guest.Facade.Calls.{
  Call, create, allocate, release, read_at, write_at, pin_it, unpin_it, compact, step, run,
}
use tvm_wasm.Guest.Packing.{walk_blocks-Walked}

forget-same :
    (t : GuestTvm) (id : ℕ)
    → ((forget t id).directory ≡ t.directory)
      × ((forget t id).default_allocator ≡ t.default_allocator)
forget-same t id = ground arith

cached_resolve-same :
    (t : GuestTvm) (h : Handle)
    → ((cached_resolve t h).1.directory ≡ t.directory)
      × ((cached_resolve t h).1.default_allocator ≡ t.default_allocator)
unfolding cached_resolve
cached_resolve-same t h = ground arith

All-get {ℓ κ} :
    {A : Type ℓ} (Q : A → Type κ) (xs : List A) (i : ℕ) (x : A)
    → All Q xs
    → get_elem? xs i ≡ some x
    → Q x
All-get Q [] i x h at = absurd (ground arith)
All-get Q (y ∷ ys) zero x h at = subst Q (some-inj y x at) h.0
All-get Q (y ∷ ys) (suc i) x h at = All-get Q ys i x h.1 at

no_entry : (pools : List Pool) (id : ℕ) (e : GuestEntry) → entry (Guest.new pools) id ≢ some e
unfolding entry
no_entry pools zero e at = ground arith
no_entry pools (suc id) e at = ground arith

-- A region is created with at least one byte, and a u32 capacity.
abbrev pub CallFits : Call → Type 0
CallFits (create k c) = (0 < c) × (c < u32_mod)
CallFits _ = Unit {0}

module _ {P : Type 0} (dispatch : Dispatch P) where
  compacted-IsAllocator :
      (capacity : ℕ) (a : RegionAllocator) (blocks : List Block) (pool base : ℕ) (p : P) (w : Walk)
      → IsAllocator capacity a
      → Allocator.allocated_blocks a ≡ some blocks
      → (walk_blocks dispatch pool base blocks walk_start p).0 ≡ ok w
      → IsAllocator capacity (Allocator.rebuild_after_compact a w.new_blocks capacity)
  unfolding Allocator.allocated_blocks Allocator.rebuild_after_compact
  compacted-IsAllocator capacity (bump a) blocks pool base p w v known done = absurd (ground arith)
  compacted-IsAllocator capacity (slab a) blocks pool base p w v known done = absurd (ground arith)
  compacted-IsAllocator capacity (freelist a) blocks pool base p w (is_freelist _ v e) known done =
      let same : a.allocated ≡ blocks = some-inj a.allocated blocks known in
      let live =
        subst (λ c. All (Live c) blocks) e (subst (All (Live a.capacity)) same v.allocated_live) in
      let k =
        walk_blocks-Walked dispatch pool base capacity blocks walk_start p w tt refl
          (omega (arith, v.conserved, ap total same)) live done in
      let (rebuilt, _, cap, _, _) =
        rebuild-IsFreelist a w.new_blocks capacity (omega (arith, v.capacity_fits)) k.packed
          (omega (arith, k.at, k.room)) in
      is_freelist _ rebuilt cap

  compact_region-IsPlaced :
      (g : GuestDirectory) (id : ℕ) (p : P)
      → IsPlaced g
      → IsPlaced (Guest.compact_region dispatch g id p).2
  unfolding Guest.compact_region
  compact_region-IsPlaced g id p v = elim (Option-cases (entry g id)) [
    | inl gone ↦ rw (gone, Guest.compact_region) v
    | inr (e, at) ↦ elim (Bool-cases e.meta.pinned) [
      | inl held ↦ rw (at, Guest.compact_region, held) v
      | inr loose ↦ elim (Option-cases (Allocator.allocated_blocks e.allocator)) [
        | inl unknown ↦ rw (at, Guest.compact_region, loose, unknown) v
        | inr (blocks, known) ↦
            elim (Result-cases
              (walk_blocks dispatch e.pool_index e.base_offset blocks walk_start p).0) [
                | inr (x, failed) ↦ rw (at, Guest.compact_region, loose, known, failed) v
                | inl (w, done) ↦
                    let sound =
                      compacted-IsAllocator e.meta.capacity e.allocator blocks e.pool_index
                        e.base_offset p w (v.fits id e at).sound known done in
                    rw (at, Guest.compact_region, loose, known, done)
                      (put-IsPlaced g id e _ v at refl refl refl sound)
              ]
      ]
    ]
  ]

  step-IsPlaced :
      (c : Call) (p : P) (t : GuestTvm)
      → CallFits c
      → KindFits t.default_allocator
      → IsPlaced t.directory
      → let t' = (step dispatch c p t).1 in
        IsPlaced t'.directory × (t'.default_allocator ≡ t.default_allocator)
  unfolding create_region alloc dealloc pin unpin read write compact_region
  step-IsPlaced (create k c) p t f kf v =
      (create_region-IsPlaced t.directory k c t.default_allocator f.0 f.1 kf v, refl)
  step-IsPlaced (allocate id n) p t f kf v = (alloc-IsPlaced t.directory id n v, refl)
  step-IsPlaced (release h) p t f kf v = (dealloc-IsPlaced t.directory h v, refl)
  step-IsPlaced (read_at h n) p t f kf v = ground (arith, cached_resolve-same t h)
  step-IsPlaced (write_at h bytes) p t f kf v = ground (arith, cached_resolve-same t h)
  step-IsPlaced (pin_it id) p t f kf v = (pin-IsPlaced t.directory id v, refl)
  step-IsPlaced (unpin_it id) p t f kf v = (v, refl)
  step-IsPlaced (compact id) p t f kf v =
      let same = forget-same t id in
      (compact_region-IsPlaced (forget t id).directory id p (subst IsPlaced (sym same.0) v), same.1)

  run-IsPlaced :
      (cs : List Call) (p : P) (t : GuestTvm)
      → All CallFits cs
      → KindFits t.default_allocator
      → IsPlaced t.directory
      → IsPlaced (run dispatch cs p t).1.directory
  unfolding run
  run-IsPlaced [] p t f kf v = v
  run-IsPlaced (c ∷ cs) p t f kf v =
      let (w, same) = step-IsPlaced c p t f.0 kf v in
      run-IsPlaced cs (step dispatch c p t).0 (step dispatch c p t).1 f.1
        (subst KindFits (sym same) kf) w

  new-IsPlaced :
      (pools : List Pool)
      → All (λ q. (q.used ≤ q.capacity) × (q.capacity < u32_mod)) pools
      → IsPlaced (Guest.new pools)
  unfolding entry
  new-IsPlaced pools h = record {
    pools_fit =
        λ i q at. All-get (λ q. (q.used ≤ q.capacity) × (q.capacity < u32_mod)) pools i q h at;
    fits = λ id e at. absurd (no_entry pools id e at);
    apart = λ i j e f ei fj other same. absurd (no_entry pools i e ei);
  }

  -- After any calls of a new guest's facade, which create regions of a positive u32 capacity with
  -- a positive slab class over pools that are not overfull and of u32 capacity, whatever the
  -- helpers do, a handle that `alloc` grants resolves to as many bytes, which lie in its region
  -- and in the used part of its pool, and whatever other id names a region, that region is in
  -- another pool or apart from them.
  pub resolve-alloc :
      (pools : List Pool) (k : AllocatorKind) (cs : List Call) (p : P) (id size j : ℕ) (h : Handle)
      (g' : GuestDirectory)
      → All (λ q. (q.used ≤ q.capacity) × (q.capacity < u32_mod)) pools
      → KindFits k
      → All CallFits cs
      → Guest.alloc (run dispatch cs p (with_default_allocator pools k)).1.directory id size
        ≡ (ok h, g')
      → Exclusive g' h size id j
  resolve-alloc pools k cs p id size j h g' valid kf fits done =
      let v =
        run-IsPlaced cs p (with_default_allocator pools k) fits kf (new-IsPlaced pools valid) in
      alloc-Exclusive _ id size j h g' v done
