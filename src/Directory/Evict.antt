-- ===== src/Directory/Evict.antt =====
-- The choice of `evict_warm_region`, and pinned regions: crates/tvm-core/src/directory.rs.
use native.Mathlib.Decide.{ℕ_discrete}
use tvm_wasm.Base.{
  ℕ, ◌≡◌, ◌≢◌, refl, ap, ◌∙◌, inl, inr, Bool, true, false, not, ◌||◌, Bool-cases, Option-cases,
  List, [], ◌∷◌, reverse, Option, none, some, Result-cases, ok, if◌then◌else◌, arith,
}
use tvm_wasm.Region.{warm, cold, external, is_warm}
use tvm_wasm.Memory.{MemoryRegion, BackingStore}
use tvm_wasm.Directory.{RegionDirectory, RegionEntry, entry, put, lru_remove}
use tvm_wasm.Directory.Tiers.{
  spill_region, demote_region, evict_first, evict_warm_region, mark_external, demoted,
}
use tvm_wasm.Directory.Invariant.{entry-put_ne, entry-lru_remove, entry-lru_push_front}

-- The first element that passes a test.
pub find_first : (ℕ → Bool) → List ℕ → Option ℕ
find_first p [] = none
find_first p (x ∷ xs) = if p x then some x else find_first p xs

module _ {M : Type 0} where
  -- A region that an eviction may take.
  unfoldable pub evictable : RegionDirectory M → ℕ → Bool
  evictable d id = elim (entry d id) [
    | none ↦ false
    | some e ↦ not (e.meta.pinned || not (is_warm e.meta.residency))
  ]

  evictable-lru_remove :
      (d : RegionDirectory M) (id j : ℕ) → evictable (lru_remove d id) j ≡ evictable d j
  unfolding evictable entry lru_remove
  evictable-lru_remove d id j = refl

  find_first-lru_remove :
      (d : RegionDirectory M) (id : ℕ) (ids : List ℕ)
      → find_first (evictable (lru_remove d id)) ids ≡ find_first (evictable d) ids
  unfolding find_first
  find_first-lru_remove d id [] = refl
  find_first-lru_remove d id (x ∷ ids) =
      rw (evictable-lru_remove d id x, find_first-lru_remove d id ids) refl

module _ {M B : Type 0} (mem : MemoryRegion M) (store : BackingStore B) where
  evict_first-oldest :
      (ids : List ℕ) (d : RegionDirectory M) (b : B) (r : Option ℕ)
      → (evict_first mem store ids d b).0 ≡ ok r
      → r ≡ find_first (evictable d) ids
  unfolding evict_first find_first evictable
  evict_first-oldest [] d b r done = ground arith
  evict_first-oldest (id ∷ ids) d b r done =
      let same = find_first-lru_remove d id ids in
      elim (Option-cases (entry d id)) [
        | inl gone ↦
            let rest = evict_first-oldest ids (lru_remove d id) b r (ground arith) in
            ground (arith, rest, same)
        | inr (e, at) ↦ elim (Bool-cases (e.meta.pinned || not (is_warm e.meta.residency))) [
          | inl skip ↦
              let rest = evict_first-oldest ids (lru_remove d id) b r (ground arith) in
              ground (arith, rest, same)
          | inr take ↦ elim (Result-cases (spill_region mem store d id b).0) [
            | inr (x, failed) ↦ absurd (ground arith)
            | inl (u, spilled) ↦ ground arith
          ]
        ]
      ]

  -- When `evict_warm_region` succeeds, what it returns is the first region, from the one demoted
  -- longest ago, of the warm list that is present, Warm and not pinned, and `None` when there is
  -- none.
  pub evict_warm_region-oldest :
      (d : RegionDirectory M) (b : B) (r : Option ℕ)
      → (evict_warm_region mem store d b).0 ≡ ok r
      → r ≡ find_first (evictable d) (reverse d.warm_lru)
  unfolding evict_warm_region
  evict_warm_region-oldest d b r done = evict_first-oldest (reverse d.warm_lru) d b r done

  spill_region-other :
      (d : RegionDirectory M) (id j : ℕ) (b : B)
      → id ≢ j
      → entry (spill_region mem store d id b).2 j ≡ entry d j
  unfolding spill_region
  spill_region-other d id j b other = elim (Option-cases (entry d id)) [
    | inl gone ↦ rw (gone, spill_region) refl
    | inr (e, at) ↦
        let taken = record e { memory = none } in
        let lost = entry-put_ne d id j taken other in
        let spilled = entry-put_ne d id j (demoted taken cold) other in
        let off = entry-lru_remove (put d id (demoted taken cold)) id j in
        ground (arith, lost, spilled, off)
  ]

  spill_region-pinned :
      (d : RegionDirectory M) (id j : ℕ) (e : RegionEntry M) (b : B)
      → entry d j ≡ some e
      → e.meta.pinned ≡ true
      → entry (spill_region mem store d id b).2 j ≡ some e
  unfolding spill_region
  spill_region-pinned d id j e b at held = elim (ℕ_discrete id j) [
    | yes same ↦
        let here : entry d id ≡ some e = ap (entry d) same ∙ at in
        let left : (spill_region mem store d id b).2 ≡ d = ground arith in
        ap (λ x. entry x j) left ∙ at
    | no other ↦ spill_region-other d id j b other ∙ at
  ]

  demote_region-pinned :
      (d : RegionDirectory M) (id j : ℕ) (e : RegionEntry M) (b : B)
      → entry d j ≡ some e
      → e.meta.pinned ≡ true
      → entry (demote_region mem store d id b).2 j ≡ some e
  unfolding demote_region
  demote_region-pinned d id j e b at held = elim (ℕ_discrete id j) [
    | yes same ↦
        let here : entry d id ≡ some e = ap (entry d) same ∙ at in
        let left : (demote_region mem store d id b).2 ≡ d = ground arith in
        ap (λ x. entry x j) left ∙ at
    | no other ↦ elim (Option-cases (entry d id)) [
      | inl gone ↦ rw (gone, demote_region) at
      | inr (f, there) ↦
          let moved = entry-put_ne d id j (demoted f warm) other in
          let pushed = entry-lru_push_front (put d id (demoted f warm)) id j in
          ground (arith, spill_region-pinned d id j e b at held, moved, pushed)
    ]
  ]

  evict_first-pinned :
      (ids : List ℕ) (d : RegionDirectory M) (j : ℕ) (e : RegionEntry M) (b : B)
      → entry d j ≡ some e
      → e.meta.pinned ≡ true
      → entry (evict_first mem store ids d b).2 j ≡ some e
  unfolding evict_first
  evict_first-pinned [] d j e b at held = at
  evict_first-pinned (id ∷ ids) d j e b at held =
      let rest =
        evict_first-pinned ids (lru_remove d id) j e b (entry-lru_remove d id j ∙ at) held in
      ground (arith, rest, spill_region-pinned d id j e b at held)

  mark_external-pinned :
      (d : RegionDirectory M) (id j : ℕ) (e : RegionEntry M)
      → entry d j ≡ some e
      → e.meta.pinned ≡ true
      → entry (mark_external d id).1 j ≡ some e
  unfolding mark_external
  mark_external-pinned d id j e at held = elim (ℕ_discrete id j) [
    | yes same ↦
        let here : entry d id ≡ some e = ap (entry d) same ∙ at in
        let left : (mark_external d id).1 ≡ d = ground arith in ap (λ x. entry x j) left ∙ at
    | no other ↦ elim (Option-cases (entry d id)) [
      | inl gone ↦ rw (gone, mark_external) at
      | inr (f, there) ↦
          let g = record f { meta = record (f.meta) { residency = external }; memory = none } in
          ground (arith, entry-put_ne d id j g other, entry-lru_remove (put d id g) id j)
    ]
  ]

  -- A pinned region's entry, with its bytes, its tier and its allocations, is the same after a
  -- spill, a demotion or a marking as external of any region and after an eviction, whatever these
  -- return and whatever the store does.
  pub pinned_stays :
      (d : RegionDirectory M) (id j : ℕ) (e : RegionEntry M) (b : B)
      → entry d j ≡ some e
      → e.meta.pinned ≡ true
      → (entry (spill_region mem store d id b).2 j ≡ some e)
        × (entry (demote_region mem store d id b).2 j ≡ some e)
        × (entry (mark_external d id).1 j ≡ some e)
        × (entry (evict_warm_region mem store d b).2 j ≡ some e)
  unfolding evict_warm_region
  pinned_stays d id j e b at held = (
    spill_region-pinned d id j e b at held,
    demote_region-pinned d id j e b at held,
    mark_external-pinned d id j e at held,
    evict_first-pinned (reverse d.warm_lru) d j e b at held,
  )
