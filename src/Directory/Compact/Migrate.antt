-- ===== src/Directory/Compact/Migrate.antt =====
-- `compact_region` of crates/tvm-core/src/directory.rs as its callers see it, with the handles that
-- `HandleRemap::migrate` of memory_region.rs gives them.
use tvm_wasm.Base.{
  ℕ, ◌+◌, ◌≤◌, ◌<◌, ◌≡◌, refl, ap, subst, ◌∙◌, ◌⊎◌, inl, inr, Bool-cases, List, [], Option, none,
  some, Option-cases, Result, Result-cases, ok, err, TvmError, stale_handle, All, slice, arith,
  u32_mod,
}
use tvm_wasm.Handle.{Handle}
use tvm_wasm.Memory.{MemoryRegion, IsMemory}
use tvm_wasm.Allocator
use tvm_wasm.Allocator.{RegionAllocator, bump, freelist, slab}
use tvm_wasm.Allocator.Blocks.{lookup-Live, Block, lookup, Ordered, Live}
use tvm_wasm.Allocator.Freelist.{FreelistAllocator}
use tvm_wasm.Allocator.Freelist.Sound.{IsFreelist}
use tvm_wasm.Allocator.Freelist.Rebuild.{rebuild-IsFreelist}
use tvm_wasm.Allocator.Sound.{IsAllocator, is_freelist}
use tvm_wasm.Directory.{RegionDirectory, RegionEntry, entry, put}
use tvm_wasm.Directory.Access.{validate, next_generation, read}
use tvm_wasm.Directory.Bytes.{next_generation_ne, validate-entry, validate_stale, read_within}
use tvm_wasm.Directory.Invariant.{IsEntry, IsDirectory, put-IsDirectory, entry-put_self}
use tvm_wasm.Directory.Invariant.Access.{next_generation_fits}
use tvm_wasm.Directory.Compact.{
  HandleRemap, Packing, empty_packing, pack_blocks, compacted, compact_region, migrate,
}
use tvm_wasm.Directory.Compact.Loop.{
  IsPacking, empty-IsPacking, pack_blocks_total, pack_blocks-Packs,
}

migrate_at :
    (id g g' o c : ℕ) (m : List Block)
    → lookup o m ≡ some c
    → migrate
        (record { region_id = id; old_generation = g; new_generation = g'; mapping = m })
        (record { region_id = id; generation = g; offset = o })
      ≡ some (record { region_id = id; generation = g'; offset = c })
unfolding migrate
migrate_at id g g' o c m at = ground arith

valid_freelist :
    (capacity : ℕ) (a : FreelistAllocator)
    → IsAllocator capacity (freelist a)
    → IsFreelist a × (a.capacity ≡ capacity)
valid_freelist capacity a (is_freelist _ v e) = (v, e)

allocator_cases :
    (a : RegionAllocator)
    → (Allocator.allocated_blocks a ≡ none) ⊎ ((f : FreelistAllocator) × (a ≡ freelist f))
unfolding Allocator.allocated_blocks
allocator_cases (bump a) = inl refl
allocator_cases (freelist a) = inr (a, refl)
allocator_cases (slab a) = inl refl

packing_cases :
    (r : Option (Result Packing))
    → (r ≡ none) ⊎ (((x : TvmError) × (r ≡ some (err x))) ⊎ ((p : Packing) × (r ≡ some (ok p))))
packing_cases none = inl refl
packing_cases (some (err x)) = inr (inl (x, refl))
packing_cases (some (ok p)) = inr (inr (p, refl))

module _ {M : Type 0} (mem : MemoryRegion M) (laws : IsMemory mem) where
  -- The loop starts with room for every live block.
  starts :
      (id : ℕ) (e : RegionEntry M) (a : FreelistAllocator)
      → IsEntry id e
      → e.allocator ≡ freelist a
      → IsPacking e.meta.capacity a.allocated (empty_packing e.meta.capacity)
        × All (Live e.meta.capacity) a.allocated
        × Ordered 0 a.allocated
  starts id e a w kind =
      let (v, same) =
        valid_freelist e.meta.capacity a (subst (IsAllocator e.meta.capacity) kind w.sound) in
      (
        empty-IsPacking e.meta.capacity a.allocated (omega (arith, v.capacity_fits))
            (omega (arith, v.conserved)),
        subst (λ c. All (Live c) a.allocated) same v.allocated_live,
        v.ordered,
      )

  compacted-IsEntry :
      (id : ℕ) (e : RegionEntry M) (a : FreelistAllocator) (p : Packing)
      → IsEntry id e
      → e.allocator ≡ freelist a
      → IsPacking e.meta.capacity [] p
      → IsEntry id (compacted mem e p)
  unfolding Allocator.rebuild_after_compact
  compacted-IsEntry id e a p w kind v =
      let g = next_generation_fits e.meta.generation in
      let (rebuilt, _, same, _, _) =
        rebuild-IsFreelist a p.new_blocks e.meta.capacity v.fits v.packed
          (omega (arith, v.at, v.room)) in
      record {
        named = w.named;
        generation_pos = g.0;
        generation_fits = g.1;
        sound = rw kind (is_freelist _ rebuilt same);
        counted = refl;
      }

  -- Over a lawful memory, `compact_region` of any id of a well-formed directory ends without a
  -- panic, with a result or an error, and leaves a well-formed directory.
  pub compact_region_total :
      (d : RegionDirectory M) (id : ℕ)
      → IsDirectory d
      → (r : Result HandleRemap) × (d' : RegionDirectory M) × (compact_region mem d id
          ≡ some (r, d'))
        × IsDirectory d'
  unfolding compact_region Allocator.allocated_blocks
  compact_region_total d id v = elim (Option-cases (entry d id)) [
    | inl gone ↦ rw (gone, compact_region) (_, d, refl, v)
    | inr (e, at) ↦ elim (Bool-cases e.meta.pinned) [
      | inl held ↦ rw (at, compact_region, held) (_, d, refl, v)
      | inr loose ↦ elim (allocator_cases e.allocator) [
        | inl (none_known) ↦ rw (at, compact_region, loose, none_known) (_, d, refl, v)
        | inr (a, kind) ↦ elim (Option-cases e.memory) [
          | inl away ↦ rw (at, compact_region, loose, kind, away) (_, d, refl, v)
          | inr (m, here) ↦
              let w = v.entries id e at in
              let (start, live, ordered) = starts id e a w kind in
              let (r, ends) =
                pack_blocks_total mem laws e.meta.capacity m a.allocated _ start live in
              elim (Result-cases r) [
                | inr (x, failed) ↦
                    rw (at, compact_region, loose, kind, here, ends, failed) (_, d, refl, v)
                | inl (p, done) ↦
                    let packed =
                      pack_blocks-Packs mem laws e.meta.capacity 0 m a.allocated _ p start live
                        ordered (ends ∙ ap some done) in
                    rw (at, compact_region, loose, kind, here, ends, done)
                      (
                        _,
                        _,
                        refl,
                        put-IsDirectory d id e (compacted mem e p) v at
                            (compacted-IsEntry id e a p w kind packed.valid),
                      )
              ]
        ]
      ]
    ]
  ]

  -- A successful compaction of an entry.
  record Compacting (d : RegionDirectory M) (id : ℕ) (e : RegionEntry M) (r : HandleRemap)
      (d' : RegionDirectory M) : Type 0 where
    a : FreelistAllocator
    m : M
    p : Packing
    kind : e.allocator ≡ freelist a
    here : e.memory ≡ some m
    loop : pack_blocks mem m a.allocated (empty_packing e.meta.capacity) ≡ some (ok p)
    remap : r ≡ record {
      region_id = id;
      old_generation = e.meta.generation;
      new_generation = next_generation e.meta.generation;
      mapping = p.mapping;
    }
    after : d' ≡ put d id (compacted mem e p)

  compact_region-Compacting :
      (d : RegionDirectory M) (id : ℕ) (e : RegionEntry M) (r : HandleRemap)
      (d' : RegionDirectory M)
      → entry d id ≡ some e
      → compact_region mem d id ≡ some (ok r, d')
      → Compacting d id e r d'
  unfolding compact_region Allocator.allocated_blocks
  compact_region-Compacting d id e r d' at done = elim (Bool-cases e.meta.pinned) [
    | inl held ↦ absurd (ground arith)
    | inr loose ↦ elim (allocator_cases e.allocator) [
      | inl (none_known) ↦ absurd (ground arith)
      | inr (a, kind) ↦ elim (Option-cases e.memory) [
        | inl away ↦ absurd (ground arith)
        | inr (m, here) ↦
            elim (packing_cases (pack_blocks mem m a.allocated (empty_packing e.meta.capacity))) [
              | inl panic ↦ absurd (ground arith)
              | inr (inl (x, failed)) ↦ absurd (ground arith)
              | inr (inr (p, loop)) ↦ record {
                a = a;
                m = m;
                p = p;
                kind = kind;
                here = here;
                loop = loop;
                remap = ground arith;
                after = ground arith;
              }
            ]
      ]
    ]
  ]

  -- Over a lawful memory, when `compact_region` succeeds on a region of a well-formed directory,
  -- each live block's old handle migrates to a handle through which the directory afterwards reads
  -- the same bytes, the whole block, that the old handle read before, and the old handle is stale.
  pub compact_region-migrate :
      (d : RegionDirectory M) (id : ℕ) (e : RegionEntry M) (blocks : List Block) (r : HandleRemap)
      (d' : RegionDirectory M) (o s : ℕ)
      → IsDirectory d
      → entry d id ≡ some e
      → Allocator.allocated_blocks e.allocator ≡ some blocks
      → compact_region mem d id ≡ some (ok r, d')
      → lookup o blocks ≡ some s
      → let h : Handle = record { region_id = id; generation = e.meta.generation; offset = o } in
        (k : Handle) × (bytes : List ℕ) × (migrate r h ≡ some k)
        × ((read mem d h s).0 ≡ ok bytes)
        × ((read mem d' k s).0 ≡ ok bytes)
        × (validate d' h ≡ err stale_handle)
  unfolding Allocator.allocated_blocks
  compact_region-migrate d id e blocks r d' o s v at known done block =
      let w = v.entries id e at in
      let c = compact_region-Compacting d id e r d' at done in
      let (start, live, ordered) = starts id e c.a w c.kind in
      let packs =
        pack_blocks-Packs mem laws e.meta.capacity 0 c.m c.a.allocated _ c.p start live ordered
          c.loop in
      let listed : lookup o c.a.allocated ≡ some s = ground (arith, c.kind) in
      let (cursor, placed, below, found) = packs.moved o s listed in
      let (pos, within) = lookup-Live e.meta.capacity o s c.a.allocated live listed in
      let h : Handle = record { region_id = id; generation = e.meta.generation; offset = o } in
      let k : Handle = record {
        region_id = id;
        generation = next_generation e.meta.generation;
        offset = cursor;
      } in
      let f = compacted mem e c.p in
      let hit = entry-put_self d id e f at in
      let small : e.meta.capacity < u32_mod = packs.valid.fits in
      let inside : cursor + s ≤ e.meta.capacity = omega (arith, below, packs.valid.room) in
      rw (c.remap, c.after)
        (
          k,
          slice s cursor c.p.new_data,
          migrate_at id e.meta.generation (next_generation e.meta.generation) o cursor c.p.mapping
              placed,
          read_within mem d h e c.m s _ (validate-entry d h e at refl) c.here (omega arith)
              (omega arith) found,
          read_within mem (put d id f) k f (mem.restore c.p.new_data) s _
              (validate-entry (put d id f) k f hit refl) refl (omega arith) (omega arith)
              (laws.read-restore c.p.new_data cursor s (omega (arith, packs.valid.size))),
          validate_stale (put d id f) h f hit
              (next_generation_ne e.meta.generation w.generation_fits),
        )
