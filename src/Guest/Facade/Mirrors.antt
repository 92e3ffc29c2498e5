-- ===== src/Guest/Facade/Mirrors.antt =====
-- The cached entry of a `GuestTvm` (crates/tvm-guest-mm/src/facade.rs) and the calls that keep it true.
use native.Mathlib.Decide.{ℕ_discrete}
use tvm_wasm.Base.{
  ℕ, ◌+◌, ◌≡◌, refl, sym, ap, subst, ◌∙◌, ◌⊎◌, inl, inr, not, ◌==◌, ◌&&◌, Bool-cases, Option-cases,
  Result-cases, [], ◌∷◌, ◌++◌, some, some-inj, get_elem?, ok, ok_or, ◌>>=◌, out_of_bounds,
  checked_add32, arith, u16_mod, ltb, get_elem?-append_left,
}
use tvm_wasm.Handle.{Handle}
use tvm_wasm.Region.{RegionKind, for_kind}
use tvm_wasm.Allocator.{AllocatorKind}
use tvm_wasm.Allocator
use tvm_wasm.Guest.{
  GuestDirectory, GuestEntry, Dispatch, Pool, placed_entry, walk_blocks, walk_start, compacted,
  entry, put, occupied, resolve, choose_pool,
}
use tvm_wasm.Guest
use tvm_wasm.Guest.Pools.{choose_pool-Chosen}
use tvm_wasm.Guest.Entries.{entry-lt, entry-put_self, entry-put_ne}
use tvm_wasm.Guest.Facade.{GuestTvm, ResolveCache, cached_resolve}

-- A cached entry is what the directory has for its region.
pub record Mirrors (g : GuestDirectory) (c : ResolveCache) : Type 0 where
  pub e : GuestEntry
  pub at : entry g c.region_id ≡ some e
  pub generation : e.meta.generation ≡ c.generation
  pub pool : e.pool_index ≡ c.pool_index
  pub base : e.base_offset ≡ c.base_offset

abbrev pub IsCoherent : GuestTvm → Type 0
IsCoherent t = (t.cache.region_id ≡ 0) ⊎ Mirrors t.directory t.cache

resolve-ok :
    (g : GuestDirectory) (h : Handle) (pool abs : ℕ)
    → resolve g h ≡ ok (pool, abs)
    → (e : GuestEntry) × (entry g h.region_id ≡ some e)
      × (e.meta.generation ≡ h.generation)
      × (e.pool_index ≡ pool)
      × (abs ≡ e.base_offset + h.offset)
unfolding resolve
resolve-ok g h pool abs done = elim (Option-cases (entry g h.region_id)) [
  | inl gone ↦ absurd (ground arith)
  | inr (e, at) ↦ (e, at, ground arith, ground arith, ground arith)
]

resolve-mirrored :
    (t : GuestTvm) (h : Handle)
    → Mirrors t.directory t.cache
    → h.region_id ≡ t.cache.region_id
    → h.generation ≡ t.cache.generation
    → resolve t.directory h ≡ (do
      abs ← ok_or (checked_add32 t.cache.base_offset h.offset) out_of_bounds
      ok (t.cache.pool_index, abs))
unfolding resolve
resolve-mirrored t h m same_id same_gen =
    let here : entry t.directory h.region_id ≡ some m.e = ap (entry t.directory) same_id ∙ m.at in
    ground (arith, m.generation, m.pool, m.base)

-- What a cached resolution gives is what the directory gives, and the cache stays coherent.
pub cached_resolve-resolve :
    (t : GuestTvm) (h : Handle)
    → IsCoherent t
    → ((cached_resolve t h).0 ≡ resolve t.directory h) × IsCoherent (cached_resolve t h).1
unfolding cached_resolve
cached_resolve-resolve t h v =
    elim (Bool-cases (
      not (h.region_id == 0)
      && h.region_id == t.cache.region_id
      && h.generation == t.cache.generation)) [
        | inl hit ↦ elim v [
          | inl empty ↦ absurd (ground arith)
          | inr m ↦
              let same = resolve-mirrored t h m (ground arith) (ground arith) in
              rw (hit, cached_resolve) (sym same, inr m)
        ]
        | inr miss ↦ elim (Result-cases (resolve t.directory h)) [
          | inr (x, failed) ↦ rw (miss, cached_resolve, failed) (refl, v)
          | inl ((pool, abs), found) ↦
              let (e, at, generation, same_pool, sum) = resolve-ok t.directory h pool abs found in
              rw (miss, cached_resolve, found)
                (
                  refl,
                  inr (record {
                    e = e;
                    at = at;
                    generation = generation;
                    pool = same_pool;
                    base = omega arith;
                  }),
                )
        ]
      ]

-- A directory in which every entry of another one is, with its generation and its place.
abbrev Keeps : GuestDirectory → GuestDirectory → Type 0
Keeps g g' =
    (id : ℕ) (e : GuestEntry)
    → entry g id ≡ some e
    → (f : GuestEntry) × (entry g' id ≡ some f)
      × (f.meta.generation ≡ e.meta.generation)
      × (f.pool_index ≡ e.pool_index)
      × (f.base_offset ≡ e.base_offset)

pub Keeps-IsCoherent :
    (t : GuestTvm) (g : GuestDirectory)
    → IsCoherent t
    → Keeps t.directory g
    → IsCoherent (record t { directory = g })
Keeps-IsCoherent t g (inl empty) k = inl empty
Keeps-IsCoherent t g (inr m) k =
    let (f, at, generation, pool, base) = k t.cache.region_id m.e m.at in
    inr (record {
      e = f;
      at = at;
      generation = generation ∙ m.generation;
      pool = pool ∙ m.pool;
      base = base ∙ m.base;
    })

Keeps-refl : (g : GuestDirectory) → Keeps g g
Keeps-refl g id e at = (e, at, refl, refl, refl)

put-Keeps :
    (g : GuestDirectory) (id : ℕ) (e f : GuestEntry)
    → entry g id ≡ some e
    → f.meta.generation ≡ e.meta.generation
    → f.pool_index ≡ e.pool_index
    → f.base_offset ≡ e.base_offset
    → Keeps g (put g id f)
put-Keeps g id e f at generation pool base j x here = elim (ℕ_discrete id j) [
  | yes same ↦
      let old : e ≡ x = some-inj e x (sym at ∙ ap (entry g) same ∙ here) in
      (
        f,
        subst (λ k. entry (put g id f) k ≡ some f) same (entry-put_self g id e f at),
        generation ∙ ap (λ y. y.meta.generation) old,
        pool ∙ ap (λ y. y.pool_index) old,
        base ∙ ap (λ y. y.base_offset) old,
      )
  | no other ↦ (x, entry-put_ne g id j f other ∙ here, refl, refl, refl)
]

push-Keeps :
    (g g' : GuestDirectory) (e : GuestEntry) → g'.slots ≡ g.slots ++ some e ∷ [] → Keeps g g'
unfolding entry
push-Keeps g g' e longer id x at =
    let known = entry-lt g id x at in
    (
      x,
      ap (λ s. occupied (get_elem? s id)) longer
          ∙ ap occupied (get_elem?-append_left g.slots (some e ∷ []) id known)
          ∙ at,
      refl,
      refl,
      refl,
    )

same_slots-Keeps : (g g' : GuestDirectory) → g'.slots ≡ g.slots → Keeps g g'
unfolding entry
same_slots-Keeps g g' same id x at =
    (x, ap (λ s. occupied (get_elem? s id)) same ∙ at, refl, refl, refl)

pub create_region-Keeps :
    (g : GuestDirectory) (kind : RegionKind) (capacity : ℕ) (k : AllocatorKind)
    → Keeps g (Guest.create_region g kind capacity k).1
unfolding Guest.create_region
create_region-Keeps g kind capacity k = elim (Bool-cases (ltb (g.next_id + 1) u16_mod)) [
  | inr full ↦ rw (full, Guest.create_region) (Keeps-refl g)
  | inl numbered ↦
      let g1 = record g { next_id = g.next_id + 1 } in
      elim (Result-cases (choose_pool g1 capacity ((for_kind kind).initial_residency))) [
        | inr (x, failed) ↦ rw (numbered, Guest.create_region, failed) (same_slots-Keeps g g1 refl)
        | inl ((i, g2), found) ↦
            let c = choose_pool-Chosen g1 capacity ((for_kind kind).initial_residency) i g2 found in
            elim (Option-cases (get_elem? g2.pools i)) [
              | inl gone ↦
                  rw (numbered, Guest.create_region, found, gone)
                    (same_slots-Keeps g g2 c.same_slots)
              | inr (pool, at) ↦ elim (Option-cases (checked_add32 pool.used capacity)) [
                | inl over ↦
                    rw (numbered, Guest.create_region, found, at, over)
                      (same_slots-Keeps g g2 c.same_slots)
                | inr (last, sum) ↦
                    let e = placed_entry g.next_id kind capacity k i pool.used in
                    rw (numbered, Guest.create_region, found, at, sum)
                      (push-Keeps g _ e (ap (λ s. s ++ some e ∷ []) c.same_slots))
              ]
            ]
      ]
]

pub alloc-Keeps : (g : GuestDirectory) (id size : ℕ) → Keeps g (Guest.alloc g id size).1
unfolding Guest.alloc
alloc-Keeps g id size = elim (Option-cases (entry g id)) [
  | inl gone ↦ rw (gone, Guest.alloc) (Keeps-refl g)
  | inr (e, at) ↦ elim (Result-cases (Allocator.alloc e.allocator size 1)) [
    | inr (x, failed) ↦ rw (at, Guest.alloc, failed) (Keeps-refl g)
    | inl ((off, a), done) ↦ rw (at, Guest.alloc, done) (put-Keeps g id e _ at refl refl refl)
  ]
]

pub dealloc-Keeps : (g : GuestDirectory) (h : Handle) → Keeps g (Guest.dealloc g h).1
unfolding Guest.dealloc
dealloc-Keeps g h = elim (Option-cases (entry g h.region_id)) [
  | inl gone ↦ rw (gone, Guest.dealloc) (Keeps-refl g)
  | inr (e, at) ↦ elim (Bool-cases (e.meta.generation == h.generation)) [
    | inr stale ↦ rw (at, Guest.dealloc, stale) (Keeps-refl g)
    | inl fresh ↦ elim (Result-cases (Allocator.dealloc e.allocator h.offset)) [
      | inr (x, failed) ↦ rw (at, Guest.dealloc, fresh, failed) (Keeps-refl g)
      | inl ((size, a), done) ↦
          rw (at, Guest.dealloc, fresh, done) (put-Keeps g h.region_id e _ at refl refl refl)
    ]
  ]
]

pub pin-Keeps : (g : GuestDirectory) (id : ℕ) → Keeps g (Guest.pin g id).1
unfolding Guest.pin
pin-Keeps g id = elim (Option-cases (entry g id)) [
  | inl gone ↦ rw (gone, Guest.pin) (Keeps-refl g)
  | inr (e, at) ↦ elim (Bool-cases e.meta.pinnable) [
    | inr fixed ↦ rw (at, Guest.pin, fixed) (Keeps-refl g)
    | inl may ↦ rw (at, Guest.pin, may) (put-Keeps g id e _ at refl refl refl)
  ]
]
