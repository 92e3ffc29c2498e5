-- ===== src/Concurrent/Spill.antt =====
-- What `spill_region` of crates/tvm-core/src/concurrent.rs does to the table and to the resident sizes.
use tvm_wasm.Base.{
  ℕ, ◌+◌, ◌≡◌, ◌≢◌, refl, sym, ap, subst, ◌∙◌, ◌⊎◌, inl, inr, true, Bool-cases, Option-cases,
  Result-cases, List, none, some, get_elem?, TvmError, Result, ok, err, pinned, policy_violation,
  not_resident, arith, get_elem?-set_ne,
}
use tvm_wasm.Region.{cold}
use tvm_wasm.Memory.{MemoryRegion, BackingStore}
use tvm_wasm.Directory.{RegionEntry}
use tvm_wasm.Directory.Tiers.{demoted}
use tvm_wasm.Concurrent.{
  ConcurrentDirectory, entry, entry_arc, locked, lru_remove, retain_ne, list_regions,
}
use tvm_wasm.Concurrent.Tiers.{spill_region}
use tvm_wasm.Concurrent.Demote.{counts_toward_resident, total_resident}
use tvm_wasm.Concurrent.Table.{
  changed, IsTable, resident, Table-at, Table-set, metas-set_same, total-set_cold, entry-at,
  entry-of,
}

-- A directory after a spill of a resident region.
pub record Spilled {M : Type 0} (d d' : ConcurrentDirectory M) (id used : ℕ) (r : Result (Unit {0}))
    : Type 0 where
  pub table : IsTable d'
  pub others : (j : ℕ) (f : RegionEntry M) → j ≢ id → entry d j ≡ some f → entry d' j ≡ some f
  pub outcome :
      ((r ≡ ok tt) × (resident d' + used ≡ resident d))
      ⊎ ((x : TvmError) × (r ≡ err x) × (resident d' ≡ resident d))

module _ {M : Type 0} where
  changed-others :
      (d : ConcurrentDirectory M) (id a : ℕ) (x : RegionEntry M) (lru : List ℕ)
      → IsTable d
      → get_elem? d.regions id ≡ some (some a)
      → (j : ℕ) (f : RegionEntry M) → j ≢ id
      → entry d j ≡ some f
      → entry (changed d a x lru) j ≡ some f
  changed-others d id a x lru v slot j f other at =
      let (b, there, held) = entry-at d j f at in
      let away : a ≢ b = omega (
        arith,
        other,
        (Table-at d.entries 0 d.regions id a v slot).0,
        (Table-at d.entries 0 d.regions j b v there).0,
      ) in
      entry-of (changed d a x lru) j b f there (get_elem?-set_ne d.entries a b x away ∙ held)

  kept-Spilled :
      (d : ConcurrentDirectory M) (id a : ℕ) (e x : RegionEntry M) (lru : List ℕ) (y : TvmError)
      → IsTable d
      → get_elem? d.regions id ≡ some (some a)
      → get_elem? d.entries a ≡ some e
      → x.meta ≡ e.meta
      → Spilled d (changed d a x lru) id e.meta.used (err y)
  unfolding list_regions
  kept-Spilled d id a e x lru y v slot at same = record {
    table = Table-set d.entries 0 d.regions a e x at (ap (λ m. m.id) same) v;
    others = changed-others d id a x lru v slot;
    outcome = inr (y, refl, ap total_resident (metas-set_same d.entries d.regions a e x at same));
  }

  cold-Spilled :
      (d : ConcurrentDirectory M) (id a : ℕ) (e x : RegionEntry M) (lru : List ℕ)
      → IsTable d
      → get_elem? d.regions id ≡ some (some a)
      → get_elem? d.entries a ≡ some e
      → counts_toward_resident e.meta.residency ≡ true
      → x.meta.id ≡ e.meta.id
      → x.meta.residency ≡ cold
      → Spilled d (changed d a x lru) id e.meta.used (ok tt)
  unfolding list_regions
  cold-Spilled d id a e x lru v slot at warm same gone = record {
    table = Table-set d.entries 0 d.regions a e x at same v;
    others = changed-others d id a x lru v slot;
    outcome = inl (refl, total-set_cold d.entries 0 d.regions id a e x v slot at warm gone);
  }

module _ {M B : Type 0} (mem : MemoryRegion M) (store : BackingStore B) where
  abbrev After :
      ConcurrentDirectory M → ℕ → ℕ → Result (Unit {0}) × B × ConcurrentDirectory M → Type 0
  After d id used (r, b, d') = Spilled d d' id used r

  along :
      (d d' : ConcurrentDirectory M) (id used : ℕ) (r : Result (Unit {0}))
      (s : Result (Unit {0}) × B × ConcurrentDirectory M)
      → s.0 ≡ r
      → s.2 ≡ d'
      → Spilled d d' id used r
      → After d id used s
  along d d' id used r s here there k =
      subst (λ x. Spilled d s.2 id used x) (sym here)
        (subst (λ x. Spilled d x id used r) (sym there) k)

  pub spill_region-Spilled :
      (d : ConcurrentDirectory M) (id : ℕ) (e : RegionEntry M) (b : B)
      → IsTable d
      → entry d id ≡ some e
      → counts_toward_resident e.meta.residency ≡ true
      → After d id e.meta.used (spill_region mem store d id b)
  unfolding spill_region entry_arc locked lru_remove
  spill_region-Spilled d id e b v h warm =
      let (a, slot, at) = entry-at d id e h in
      elim (Bool-cases e.meta.pinned) [
        | inl held ↦
            along _ _ _ _ _ (spill_region mem store d id b) (ground (arith, slot, at))
              (ground (arith, slot, at)) (kept-Spilled d id a e e d.warm_lru pinned v slot at refl)
        | inr loose ↦ elim (Bool-cases e.meta.spillable) [
          | inr never ↦
              along _ _ _ _ _ (spill_region mem store d id b) (ground (arith, slot, at))
                (ground (arith, slot, at))
                (kept-Spilled d id a e e d.warm_lru policy_violation v slot at refl)
          | inl may ↦ elim (Option-cases e.memory) [
            | inl away ↦
                along _ _ _ _ _ (spill_region mem store d id b) (ground (arith, slot, at))
                  (ground (arith, slot, at))
                  (kept-Spilled d id a e e d.warm_lru not_resident v slot at refl)
            | inr (m, here) ↦
                elim (Result-cases (store.spill b e.meta.id e.meta.generation (mem.snapshot m)).0) [
                  | inr (x, failed) ↦
                      along _ _ _ _ _ (spill_region mem store d id b) (ground (arith, slot, at))
                        (ground (arith, slot, at))
                        (kept-Spilled d id a e (record e { memory = none }) d.warm_lru x v slot at
                          refl)
                  | inl (u, done) ↦
                      along _ _ _ _ _ (spill_region mem store d id b)
                        (ground (arith, slot, at, warm)) (ground (arith, slot, at, warm))
                        (cold-Spilled d id a e (demoted (record e { memory = none }) cold)
                          (retain_ne id d.warm_lru) v slot at warm refl refl)
                ]
          ]
        ]
      ]
