-- ===== src/Cache/Coherence.antt =====
-- Lookups after a change of the `ResolveCache` of crates/tvm-core/src/cache.rs.
use native.Mathlib.Decide.{ℕ_discrete}
use tvm_wasm.Base.{
  ℕ, zero, suc, ◌+◌, ◌%◌, ◌≡◌, ◌≢◌, ◌<◌, refl, sym, ap, ◌∙◌, ◌⊎◌, inl, inr, true, ◌==◌, ◌&&◌, not,
  if◌then◌else◌, Bool-cases, List, [], ◌∷◌, Option, none, some, length, get_elem?, set, arith,
  u64_mod, get_elem?-set_self, get_elem?-set_ne,
}
use tvm_wasm.Region.{Region}
use tvm_wasm.Cache.{
  CacheSlot, ResolveCache, ResolveHit, FastHit, cache_slots, or_empty, slot_of, to_hit, to_fast_hit,
  filled, emptied, lookup, lookup_fast, install, install_with_data, invalidate, clear_slots,
  invalidate_all,
}

slot_lt :
    (c : ResolveCache) (id : ℕ) → length c.slots ≡ cache_slots → id % cache_slots < length c.slots
slot_lt c id h = omega (arith, h)

slot_written :
    (c : ResolveCache) (id : ℕ) (s : CacheSlot)
    → length c.slots ≡ cache_slots
    → or_empty (get_elem? (set c.slots (id % cache_slots) s) (id % cache_slots)) ≡ s
slot_written c id s h =
    ap or_empty (get_elem?-set_self c.slots (id % cache_slots) s (slot_lt c id h))

slot_kept :
    (c : ResolveCache) (id j : ℕ) (s : CacheSlot)
    → id % cache_slots ≢ j % cache_slots
    → or_empty (get_elem? (set c.slots (id % cache_slots) s) (j % cache_slots)) ≡ slot_of c j
slot_kept c id j s other =
    ap or_empty (get_elem?-set_ne c.slots (id % cache_slots) (j % cache_slots) s other)

-- What a lookup gives depends on the one slot only.
abbrev lookup_of : CacheSlot → ℕ → Option ResolveHit
lookup_of s id = if s.valid && s.region_id == id then some (to_hit s) else none

lookup_slot : (c : ResolveCache) (id : ℕ) → (lookup c id).0 ≡ lookup_of (slot_of c id) id
unfolding lookup
lookup_slot c id = ground arith

abbrev lookup_fast_of : CacheSlot → ℕ → Option FastHit
lookup_fast_of s id =
    if (s.valid && s.region_id == id) && not (s.data_ptr == 0) then some (to_fast_hit s) else none

lookup_fast_slot :
    (c : ResolveCache) (id : ℕ) → (lookup_fast c id).0 ≡ lookup_fast_of (slot_of c id) id
unfolding lookup_fast
lookup_fast_slot c id = ground arith

-- In a cache of eight slots, after an install with a data pointer that is not null the fast lookup
-- of the region's id gives what the install gave and the plain lookup hits too; after an install
-- without a pointer the fast lookup misses and the plain one hits.
pub lookup_fast-install_with_data :
    (c : ResolveCache) (r : Region) (ptr len : ℕ)
    → length c.slots ≡ cache_slots
    → 0 < ptr
    → let (hit, c') = install_with_data c r ptr len in
      let (thin, c'') = install c r in
      ((lookup_fast c' r.id).0 ≡ some hit)
      × ((lookup c' r.id).0 ≡ some thin)
      × ((lookup_fast c'' r.id).0 ≡ none)
      × ((lookup c'' r.id).0 ≡ some thin)
unfolding install install_with_data
lookup_fast-install_with_data c r ptr len h pos =
    let k = r.id % cache_slots in
    let s = filled r ptr len in
    let c' = record c { slots = set c.slots k s } in
    let t = filled r 0 0 in
    let c'' = record c { slots = set c.slots k t } in
    (
      lookup_fast_slot c' r.id
          ∙ ap (λ x. lookup_fast_of x r.id) (slot_written c r.id s h)
          ∙ ground arith,
      lookup_slot c' r.id ∙ ap (λ x. lookup_of x r.id) (slot_written c r.id s h) ∙ ground arith,
      lookup_fast_slot c'' r.id
          ∙ ap (λ x. lookup_fast_of x r.id) (slot_written c r.id t h)
          ∙ ground arith,
      lookup_slot c'' r.id ∙ ap (λ x. lookup_of x r.id) (slot_written c r.id t h) ∙ ground arith,
    )

-- A slot that holds one id gives no hit for another.
foreign :
    (s : CacheSlot) (id j : ℕ) → j ≢ id → s.valid && s.region_id == id ≡ true → lookup_of s j ≡ none
foreign s id j other hit = ground arith

-- In a cache of eight slots, after `invalidate` of an id both lookups of the id miss, and the
-- lookup of every other id gives what it gave before.
pub lookup-invalidate :
    (c : ResolveCache) (id j : ℕ)
    → length c.slots ≡ cache_slots
    → ((lookup (invalidate c id) id).0 ≡ none)
      × ((lookup_fast (invalidate c id) id).0 ≡ none)
      × ((j ≡ id) ⊎ ((lookup (invalidate c id) j).0 ≡ (lookup c j).0))
unfolding invalidate
lookup-invalidate c id j h =
    let k = id % cache_slots in
    let old = slot_of c id in
    let s = emptied old in
    let n = (c.invalidations + 1) % u64_mod in
    let c' = record c { slots = set c.slots k s; invalidations = n } in
    elim (Bool-cases (old.valid && old.region_id == id)) [
      | inr miss ↦
          rw (miss, invalidate)
            (lookup_slot c id ∙ ground arith, lookup_fast_slot c id ∙ ground arith, inr refl)
      | inl hit ↦
          rw (hit, invalidate)
            (
              lookup_slot c' id ∙ ap (λ x. lookup_of x id) (slot_written c id s h) ∙ ground arith,
              lookup_fast_slot c' id
                  ∙ ap (λ x. lookup_fast_of x id) (slot_written c id s h)
                  ∙ ground arith,
              elim (ℕ_discrete j id) [
                | yes same_id ↦ inl same_id
                | no other ↦ inr (elim (ℕ_discrete k (j % cache_slots)) [
                  | no apart ↦
                      lookup_slot c' j
                      ∙ ap (λ x. lookup_of x j) (slot_kept c id j s apart)
                      ∙ sym (lookup_slot c j)
                  | yes same ↦
                      lookup_slot c' j
                      ∙ ap (λ x. lookup_of x j)
                          (ap (λ i. or_empty (get_elem? (set c.slots k s) i)) (sym same)
                            ∙ slot_written c id s h)
                      ∙ sym (
                          ap (λ i. lookup_of (or_empty (get_elem? c.slots i)) j) (sym same)
                          ∙ foreign old id j other hit)
                      ∙ sym (lookup_slot c j)
                ])
              ],
            )
    ]

clear_slots_lem :
    (xs : List CacheSlot) (n i id : ℕ)
    → lookup_of (or_empty (get_elem? (clear_slots xs n).0 i)) id ≡ none
unfolding clear_slots
clear_slots_lem [] n i id = refl
clear_slots_lem (s ∷ xs) n zero id = ground arith
clear_slots_lem (s ∷ xs) n (suc i) id =
    clear_slots_lem xs (if s.valid then (n + 1) % u64_mod else n) i id

-- After `invalidate_all` every lookup misses.
pub lookup-invalidate_all : (c : ResolveCache) (id : ℕ) → (lookup (invalidate_all c) id).0 ≡ none
unfolding invalidate_all
lookup-invalidate_all c id =
    lookup_slot (invalidate_all c) id
    ∙ clear_slots_lem c.slots c.invalidations (id % cache_slots) id
