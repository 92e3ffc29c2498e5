-- ===== src/Guest/Placement/Calls.antt =====
-- The calls of a `GuestDirectory` and of a `GuestTvm`, and where they leave the regions.
use native.Mathlib.Decide.{ℕ_discrete}
use tvm_wasm.Base.{
  ℕ, ◌+◌, ◌≡◌, ◌≢◌, ◌≤◌, ◌<◌, refl, sym, ap, subst, ◌∙◌, ◌⊎◌, inl, inr, ltb, ◌==◌, Bool-cases,
  Option-cases, Result-cases, [], ◌∷◌, ◌++◌, some, some-inj, length, get_elem?, set, checked_add32,
  u16_mod, u32_mod, arith, get_elem?-set_self, get_elem?-set_ne, get_elem?-some_lt,
}
use tvm_wasm.Handle.{Handle}
use tvm_wasm.Region.{RegionKind, for_kind}
use tvm_wasm.Allocator.{RegionAllocator, AllocatorKind, bump, freelist, slab}
use tvm_wasm.Allocator
use tvm_wasm.Allocator.Sound.{
  IsAllocator, KindFits, new-IsAllocator, alloc-IsAllocator, dealloc-IsAllocator,
}
use tvm_wasm.Guest.{
  GuestDirectory, GuestEntry, Pool, choose_pool, placed_entry, create_region, alloc, dealloc, pin,
  entry, occupied,
}
use tvm_wasm.Guest.Pools.{choose_pool-Chosen}
use tvm_wasm.Guest.Placement.{IsPlaced, Fits, same-IsPlaced, put-IsPlaced, entry-push}

-- A region placed at the end of the used part of a pool that has room for it.
push-IsPlaced :
    (g g' : GuestDirectory) (e : GuestEntry) (pool : Pool) (last : ℕ)
    → IsPlaced g
    → get_elem? g.pools e.pool_index ≡ some pool
    → e.base_offset ≡ pool.used
    → last ≡ pool.used + e.meta.capacity
    → last ≤ pool.capacity
    → IsAllocator e.meta.capacity e.allocator
    → g'.pools ≡ set g.pools e.pool_index (record pool { used = last })
    → g'.slots ≡ g.slots ++ some e ∷ []
    → IsPlaced g'
unfolding entry
push-IsPlaced g g' e pool last v at base sum room sound pools slots =
    let idx = e.pool_index in
    let grown : Pool = record pool { used = last } in
    let here : get_elem? g'.pools idx ≡ some grown =
      ap (λ q. get_elem? q idx) pools
      ∙ get_elem?-set_self g.pools idx grown (get_elem?-some_lt g.pools idx at) in
    let elsewhere : (i : ℕ) → idx ≢ i → get_elem? g'.pools i ≡ get_elem? g.pools i =
      λ i other. ap (λ q. get_elem? q i) pools ∙ get_elem?-set_ne g.pools idx i grown other in
    let split : (j : ℕ) (f : GuestEntry)
        → entry g' j ≡ some f
        → (entry g j ≡ some f) ⊎ ((j ≡ length g.slots) × (f ≡ e)) =
      λ j f now. entry-push g.slots e f j (ap (λ s. occupied (get_elem? s j)) (sym slots) ∙ now) in
    let below : (j : ℕ) (f : GuestEntry)
        → entry g j ≡ some f
        → f.pool_index ≡ idx
        → f.base_offset + f.meta.capacity ≤ pool.used =
      λ j f old same.
        let w = v.fits j f old in
        let pools_same : w.pool ≡ pool =
          some-inj w.pool pool (sym w.at ∙ ap (get_elem? g.pools) same ∙ at) in
        omega (arith, w.within, ap (λ p. p.used) pools_same) in
    record {
      pools_fit = λ i p found. elim (ℕ_discrete idx i) [
        | yes same ↦
            let this : grown ≡ p =
              some-inj grown p (sym here ∙ ap (get_elem? g'.pools) same ∙ found) in
            let before = v.pools_fit idx pool at in
            subst (λ q. (q.used ≤ q.capacity) × (q.capacity < u32_mod)) this (room, before.1)
        | no other ↦ v.pools_fit i p (sym (elsewhere i other) ∙ found)
      ];
      fits = λ j f now. elim (split j f now) [
        | inl old ↦ elim (ℕ_discrete idx f.pool_index) [
          | yes same ↦ record {
            pool = grown;
            at = ap (get_elem? g'.pools) (sym same) ∙ here;
            within = omega (arith, below j f old (sym same), sum);
            sound = (v.fits j f old).sound;
          }
          | no other ↦
              let w = v.fits j f old in
              record {
                pool = w.pool;
                at = elsewhere f.pool_index other ∙ w.at;
                within = w.within;
                sound = w.sound;
              }
        ]
        | inr (_, new) ↦
            subst (Fits g') (sym new)
              (record { pool = grown; at = here; within = omega (arith, base, sum); sound = sound })
      ];
      apart = λ i j x y xi yj other same_pool. elim (split i x xi) [
        | inl oi ↦ elim (split j y yj) [
          | inl oj ↦ v.apart i j x y oi oj other same_pool
          | inr (_, new) ↦
              let w = below i x oi (same_pool ∙ ap (λ z. z.pool_index) new) in
              inl (omega (arith, w, base, ap (λ z. z.base_offset) new))
        ]
        | inr (ni, new) ↦ elim (split j y yj) [
          | inl oj ↦
              let w = below j y oj (sym same_pool ∙ ap (λ z. z.pool_index) new) in
              inr (omega (arith, w, base, ap (λ z. z.base_offset) new))
          | inr (nj, _) ↦ absurd (other (ni ∙ sym nj))
        ]
      ];
    }

pub create_region-IsPlaced :
    (g : GuestDirectory) (kind : RegionKind) (capacity : ℕ) (k : AllocatorKind)
    → 0 < capacity
    → capacity < u32_mod
    → KindFits k
    → IsPlaced g
    → IsPlaced (create_region g kind capacity k).1
unfolding create_region
create_region-IsPlaced g kind capacity k pos small kind_fits v =
    elim (Bool-cases (ltb (g.next_id + 1) u16_mod)) [
      | inr full ↦ rw (full, create_region) v
      | inl room ↦
          let g1 = record g { next_id = g.next_id + 1 } in
          let v1 = same-IsPlaced g g1 v refl refl in
          elim (Result-cases (choose_pool g1 capacity ((for_kind kind).initial_residency))) [
            | inr (y, none_fits) ↦ rw (room, create_region, none_fits) v1
            | inl ((i, g2), found) ↦
                let c =
                  choose_pool-Chosen g1 capacity ((for_kind kind).initial_residency) i g2 found in
                let v2 = same-IsPlaced g1 g2 v1 c.same_pools c.same_slots in
                let at2 : get_elem? g2.pools i ≡ some c.pool =
                  ap (λ q. get_elem? q i) c.same_pools ∙ c.at in
                let bounds = v2.pools_fit i c.pool at2 in
                elim (Option-cases (checked_add32 c.pool.used capacity)) [
                  | inl over ↦ rw (room, create_region, found, at2, over) v2
                  | inr (last, sum) ↦
                      let e = placed_entry g.next_id kind capacity k i c.pool.used in
                      let total : last ≡ c.pool.used + capacity = ground arith in
                      rw (room, create_region, found, at2, sum)
                        (push-IsPlaced g2 _ e c.pool last v2 at2 refl total
                          (omega (arith, total, c.room, bounds))
                          (new-IsAllocator k capacity pos small kind_fits) refl refl)
                ]
          ]
    ]

pub alloc-IsPlaced : (g : GuestDirectory) (id size : ℕ) → IsPlaced g → IsPlaced (alloc g id size).1
unfolding alloc
alloc-IsPlaced g id size v = elim (Option-cases (entry g id)) [
  | inl gone ↦ rw (gone, alloc) v
  | inr (e, at) ↦ elim (Result-cases (Allocator.alloc e.allocator size 1)) [
    | inr (x, failed) ↦ rw (at, alloc, failed) v
    | inl ((off, a), done) ↦
        let w = v.fits id e at in
        let (sound, _, _) =
          alloc-IsAllocator e.meta.capacity e.allocator size 1 off a w.sound (omega arith) done in
        rw (at, alloc, done) (put-IsPlaced g id e _ v at refl refl refl sound)
  ]
]

pub dealloc-IsPlaced : (g : GuestDirectory) (h : Handle) → IsPlaced g → IsPlaced (dealloc g h).1
unfolding dealloc
dealloc-IsPlaced g h v = elim (Option-cases (entry g h.region_id)) [
  | inl gone ↦ rw (gone, dealloc) v
  | inr (e, at) ↦ elim (Bool-cases (e.meta.generation == h.generation)) [
    | inr stale ↦ rw (at, dealloc, stale) v
    | inl fresh ↦ elim (Result-cases (Allocator.dealloc e.allocator h.offset)) [
      | inr (x, failed) ↦ rw (at, dealloc, fresh, failed) v
      | inl ((size, a), done) ↦
          let w = v.fits h.region_id e at in
          let (sound, _) =
            dealloc-IsAllocator e.meta.capacity e.allocator h.offset size a w.sound done in
          rw (at, dealloc, fresh, done) (put-IsPlaced g h.region_id e _ v at refl refl refl sound)
    ]
  ]
]

pub pin-IsPlaced : (g : GuestDirectory) (id : ℕ) → IsPlaced g → IsPlaced (pin g id).1
unfolding pin
pin-IsPlaced g id v = elim (Option-cases (entry g id)) [
  | inl gone ↦ rw (gone, pin) v
  | inr (e, at) ↦ elim (Bool-cases e.meta.pinnable) [
    | inr fixed ↦ rw (at, pin, fixed) v
    | inl may ↦ rw (at, pin, may) (put-IsPlaced g id e _ v at refl refl refl (v.fits id e at).sound)
  ]
]
