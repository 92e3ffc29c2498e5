-- ===== src/Directory/Invariant/Access.antt =====
-- Well-formed directories and the methods of Directory/Access that change the table or an allocator.
use native.Mathlib.Decide.{ℕ_discrete}
use tvm_wasm.Base.{
  ℕ, ◌+◌, ◌≤◌, ◌<◌, ◌≡◌, ◌≢◌, refl, sym, ap, subst, ◌∙◌, ◌⊎◌, inl, inr, Bool, true, false,
  Bool-cases, Option-cases, List, Option, none, some, Result-cases, ok, u16_mod, u32_mod, arith,
  ltb, ltb→lt, zero, suc, [], ◌∷◌, ◌++◌, All, set, length-set, get_elem?-set_self, get_elem?-set_ne,
  length-append, length, get_elem?, if◌then◌else◌,
}
use tvm_wasm.Handle.{Handle}
use tvm_wasm.Region.{RegionKind, PlacementPolicy, is_warm}
use tvm_wasm.Allocator
use tvm_wasm.Allocator.{AllocatorKind, bump_kind, freelist_kind, slab_kind}
use tvm_wasm.Allocator.Bump
use tvm_wasm.Allocator.Freelist
use tvm_wasm.Allocator.Slab
use tvm_wasm.Allocator.Sound.{
  IsAllocator, KindFits, new-IsAllocator, alloc-IsAllocator, dealloc-IsAllocator,
}
use tvm_wasm.Directory.{
  RegionDirectory, RegionEntry, entry, put, occupied, create_region_with_policy, destroy_region,
}
use tvm_wasm.Directory.Access.{
  validate, alloc_aligned, dealloc, pin, unpin, next_generation, bump_generation,
}
use tvm_wasm.Directory.Invariant.{
  IsEntry, IsDirectory, Distinct, put-IsDirectory, entry-lt, lru_remove-IsDirectory,
}

pub next_generation_fits : (g : ℕ) → (0 < next_generation g) × (next_generation g < u16_mod)
unfolding next_generation
next_generation_fits g = ground arith

known_later : (n m : ℕ) (xs : List ℕ) → n ≤ m → All (λ id. id < n) xs → All (λ id. id < m) xs
known_later n m [] h a = tt
known_later n m (x ∷ xs) h a = (omega arith, known_later n m xs h a.1)

new_id : (n : ℕ) (xs : List ℕ) → All (λ id. id < n) xs → All (λ y. y ≢ n) xs
new_id n [] a = tt
new_id n (x ∷ xs) a = (omega arith, new_id n xs a.1)

new_used : (k : AllocatorKind) (capacity : ℕ) → 0 ≡ Allocator.used (Allocator.new k capacity)
unfolding Allocator.used Allocator.new Bump.new Freelist.new Slab.new
new_used bump_kind capacity = refl
new_used freelist_kind capacity = refl
new_used (slab_kind c) capacity = refl

module _ {M : Type 0} where
  -- Entries with the same identity and the same allocator are as good as one another.
  pub IsEntry-same :
      (id : ℕ) (e f : RegionEntry M)
      → IsEntry id e
      → f.meta.id ≡ e.meta.id
      → f.meta.generation ≡ e.meta.generation
      → f.meta.capacity ≡ e.meta.capacity
      → f.meta.used ≡ e.meta.used
      → f.allocator ≡ e.allocator
      → IsEntry id f
  IsEntry-same id e f v same_id same_gen same_cap same_used same_alloc = record {
    named = same_id ∙ v.named;
    generation_pos = omega (arith, v.generation_pos);
    generation_fits = omega (arith, v.generation_fits);
    sound =
        subst (λ c. IsAllocator c f.allocator) (sym same_cap)
          (subst (IsAllocator e.meta.capacity) (sym same_alloc) v.sound);
    counted = same_used ∙ v.counted ∙ ap Allocator.used (sym same_alloc);
  }

  pub alloc_aligned-IsDirectory :
      (d : RegionDirectory M) (id size align : ℕ)
      → align < u32_mod
      → IsDirectory d
      → IsDirectory (alloc_aligned d id size align).1
  unfolding alloc_aligned
  alloc_aligned-IsDirectory d id size align h v = elim (Option-cases (entry d id)) [
    | inl gone ↦ rw (gone, alloc_aligned) v
    | inr (e, at) ↦ elim (Result-cases (Allocator.alloc e.allocator size align)) [
      | inr (x, failed) ↦ rw (at, alloc_aligned, failed) v
      | inl ((off, a), done) ↦
          let w = v.entries id e at in
          let (sound, _, _) =
            alloc-IsAllocator e.meta.capacity e.allocator size align off a w.sound h done in
          rw (at, alloc_aligned, done)
            (put-IsDirectory d id e _ v at (record {
              named = w.named;
              generation_pos = w.generation_pos;
              generation_fits = w.generation_fits;
              sound = sound;
              counted = refl;
            }))
    ]
  ]

  pub put_same :
      (d : RegionDirectory M) (id : ℕ) (e f : RegionEntry M)
      → IsDirectory d
      → entry d id ≡ some e
      → f.meta.id ≡ e.meta.id
      → f.meta.generation ≡ e.meta.generation
      → f.meta.capacity ≡ e.meta.capacity
      → f.meta.used ≡ e.meta.used
      → f.allocator ≡ e.allocator
      → IsDirectory (put d id f)
  put_same d id e f v at p q r s t =
      put-IsDirectory d id e f v at (IsEntry-same id e f (v.entries id e at) p q r s t)

  pub validate-ok :
      (d : RegionDirectory M) (h : Handle) (e : RegionEntry M)
      → validate d h ≡ ok e
      → (entry d h.region_id ≡ some e) × (e.meta.generation ≡ h.generation)
  unfolding validate
  validate-ok d h e done = elim (Option-cases (entry d h.region_id)) [
    | inl gone ↦ absurd (ground arith)
    | inr (f, at) ↦ ground arith
  ]

  pub pin-IsDirectory : (d : RegionDirectory M) (id : ℕ) → IsDirectory d → IsDirectory (pin d id).1
  unfolding pin
  pin-IsDirectory d id v = elim (Option-cases (entry d id)) [
    | inl gone ↦ rw (gone, pin) v
    | inr (e, at) ↦ ground (
      arith,
      put_same d id e (record e { meta = record (e.meta) { pinned = true } }) v at refl refl refl
          refl refl,
    )
  ]

  pub unpin-IsDirectory :
      (d : RegionDirectory M) (id : ℕ) → IsDirectory d → IsDirectory (unpin d id).1
  unfolding unpin
  unpin-IsDirectory d id v = elim (Option-cases (entry d id)) [
    | inl gone ↦ rw (gone, unpin) v
    | inr (e, at) ↦ rw (at, unpin) (put_same d id e _ v at refl refl refl refl refl)
  ]

  pub bump_generation-IsDirectory :
      (d : RegionDirectory M) (id : ℕ) → IsDirectory d → IsDirectory (bump_generation d id).1
  unfolding bump_generation
  bump_generation-IsDirectory d id v = elim (Option-cases (entry d id)) [
    | inl gone ↦ rw (gone, bump_generation) v
    | inr (e, at) ↦
        let w = v.entries id e at in
        let g = next_generation_fits e.meta.generation in
        rw (at, bump_generation)
          (put-IsDirectory d id e _ v at (record {
            named = w.named;
            generation_pos = g.0;
            generation_fits = g.1;
            sound = w.sound;
            counted = w.counted;
          }))
  ]

  pub dealloc-IsDirectory :
      (d : RegionDirectory M) (h : Handle) → IsDirectory d → IsDirectory (dealloc d h).1
  unfolding dealloc
  dealloc-IsDirectory d h v = elim (Result-cases (validate d h)) [
    | inr (x, failed) ↦ rw (failed, dealloc) v
    | inl (e, valid) ↦ elim (Result-cases (Allocator.dealloc e.allocator h.offset)) [
      | inr (x, failed) ↦ rw (valid, dealloc, failed) v
      | inl ((size, a), done) ↦
          let (at, _) = validate-ok d h e valid in
          let w = v.entries h.region_id e at in
          let (sound, _) =
            dealloc-IsAllocator e.meta.capacity e.allocator h.offset size a w.sound done in
          rw (valid, dealloc, done)
            (put-IsDirectory d h.region_id e _ v at (record {
              named = w.named;
              generation_pos = w.generation_pos;
              generation_fits = w.generation_fits;
              sound = sound;
              counted = refl;
            }))
    ]
  ]

  destroyed :
      (d : RegionDirectory M) (id : ℕ)
      → IsDirectory d
      → id < length d.regions
      → IsDirectory (record d { regions = set d.regions id none })
  unfolding entry
  destroyed d id v h = record {
    ids_fit = rw length-set v.ids_fit;
    lru_distinct = v.lru_distinct;
    lru_known = rw length-set v.lru_known;
    entries = λ j g at. elim (ℕ_discrete id j) [
      | yes same ↦
          let empty : get_elem? (set d.regions id none) j ≡ some none =
            subst (λ k. get_elem? (set d.regions id none) k ≡ some none) same
              (get_elem?-set_self d.regions id none h) in
          absurd (ground arith)
      | no other ↦
          v.entries j g (sym (ap occupied (get_elem?-set_ne d.regions id j none other)) ∙ at)
    ];
  }

  pub destroy_region-IsDirectory :
      (d : RegionDirectory M) (id : ℕ) → IsDirectory d → IsDirectory (destroy_region d id).1
  unfolding destroy_region
  destroy_region-IsDirectory d id v = elim (Option-cases (entry d id)) [
    | inl gone ↦ rw (gone, destroy_region) v
    | inr (e, at) ↦
        rw (at, destroy_region)
          (lru_remove-IsDirectory _ id (destroyed d id v (entry-lt d id e at)))
  ]

  -- The table with one more entry.
  pub entry-push :
      (slots : List (Option (RegionEntry M))) (e f : RegionEntry M) (j : ℕ)
      → occupied (get_elem? (slots ++ some e ∷ []) j) ≡ some f
      → (occupied (get_elem? slots j) ≡ some f) ⊎ ((j ≡ length slots) × (f ≡ e))
  entry-push [] e f zero h = ground arith
  entry-push [] e f (suc j) h = absurd (ground arith)
  entry-push (x ∷ slots) e f zero h = inl h
  entry-push (x ∷ slots) e f (suc j) h = ground (arith, entry-push slots e f j h)

  created :
      (d : RegionDirectory M) (e : RegionEntry M) (lru : Bool)
      → IsDirectory d
      → length d.regions < u16_mod
      → IsEntry (length d.regions) e
      → IsDirectory (record {
        regions = d.regions ++ some e ∷ [];
        warm_lru = if lru then length d.regions ∷ d.warm_lru else d.warm_lru;
      })
  unfolding entry
  created d e lru v room w =
      let longer : length (d.regions ++ some e ∷ []) ≡ length d.regions + 1 =
        length-append d.regions (some e ∷ []) in
      record {
        ids_fit = omega (arith, longer, room);
        lru_distinct =
            elim lru as (λ b. Distinct (if b then length d.regions ∷ d.warm_lru else d.warm_lru)) [
              | true ↦ (new_id (length d.regions) d.warm_lru v.lru_known, v.lru_distinct)
              | false ↦ v.lru_distinct
            ];
        lru_known =
            let later =
              known_later (length d.regions) (length (d.regions ++ some e ∷ [])) d.warm_lru
                (omega (arith, longer)) v.lru_known in
            elim lru
              as (λ b.
                All (λ id. id < length (d.regions ++ some e ∷ []))
                  (if b then length d.regions ∷ d.warm_lru else d.warm_lru)) [
                    | true ↦ (omega (arith, longer), later)
                    | false ↦ later
                  ];
        entries = λ j f at. elim (entry-push d.regions e f j at) [
          | inl old ↦ v.entries j f old
          | inr (here, same) ↦
              subst (λ k. IsEntry k f) (sym here) (subst (IsEntry (length d.regions)) (sym same) w)
        ];
      }

  pub create-IsDirectory :
      (d : RegionDirectory M) (kind : RegionKind) (capacity : ℕ) (k : AllocatorKind)
      (p : PlacementPolicy) (m : M)
      → 0 < capacity
      → capacity < u32_mod
      → KindFits k
      → IsDirectory d
      → IsDirectory (create_region_with_policy d kind capacity k p m).1
  unfolding create_region_with_policy
  create-IsDirectory d kind capacity k p m pos small fits v =
      elim (Bool-cases (ltb (length d.regions) u16_mod)) [
        | inr full ↦ rw (full, create_region_with_policy) v
        | inl room ↦
            rw (room, create_region_with_policy)
              (created d _ (is_warm p.initial_residency) v (ltb→lt _ _ room) (record {
                named = refl;
                generation_pos = omega arith;
                generation_fits = omega arith;
                sound = new-IsAllocator k capacity pos small fits;
                counted = new_used k capacity;
              }))
      ]
