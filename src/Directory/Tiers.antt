-- ===== src/Directory/Tiers.antt =====
-- The tiers of a region: the methods of `RegionDirectory` that move it between Hot, Warm, Cold and
-- External. The backing store is threaded through; a loader or a file is the result of its call.
use tvm_wasm.Base.{
  ℕ, ◌%◌, Bool, true, false, not, ltb, ◌||◌, ◌&&◌, if◌then◌else◌, List, [], ◌∷◌, reverse, Option,
  none, some, length, Result, ok, err, region_not_found, out_of_bounds, not_resident,
  policy_violation, pinned, u32_mod,
}
use tvm_wasm.Handle.{Handle}
use tvm_wasm.Region.{
  Residency, hot, warm, cold, external, is_hot, is_warm, is_cold, is_external, record_fault,
  record_promotion, record_demotion,
}
use tvm_wasm.Memory.{MemoryRegion, BackingStore}
use tvm_wasm.Directory.{RegionDirectory, RegionEntry, entry, put, lru_remove, lru_push_front}
use tvm_wasm.Directory.Access.{read, write}

abbrev pub is_some {ℓ} : {A : Type ℓ} → Option A → Bool
is_some none = false
is_some (some _) = true

module _ {M : Type 0} where
  -- The entry in another tier, with the move counted as a demotion.
  abbrev pub demoted : RegionEntry M → Residency → RegionEntry M
  demoted e r = record e {
    meta = record (e.meta) { residency = r };
    metrics = record_demotion e.metrics;
  }

  abbrev pub promoted : RegionEntry M → RegionEntry M
  promoted e = record e {
    meta = record (e.meta) { residency = hot };
    metrics = record_promotion e.metrics;
  }

  unfoldable pub mark_external : RegionDirectory M → ℕ → Result (Unit {0}) × RegionDirectory M
  mark_external d region_id = elim (entry d region_id) [
    | none ↦ (err (region_not_found region_id), d)
    | some e ↦ if e.meta.pinned then (err pinned, d) else (
      ok tt,
      lru_remove
          (put d region_id
            (record e { meta = record (e.meta) { residency = external }; memory = none }))
          region_id,
    )
  ]

module _ {M : Type 0} (mem : MemoryRegion M) where
  -- The entry with its bytes brought back from elsewhere.
  abbrev pub faulted_in : RegionEntry M → List ℕ → RegionEntry M
  faulted_in e bytes = record e {
    meta = record (e.meta) { residency = hot };
    memory = some (mem.restore bytes);
    metrics = record_fault (record_promotion e.metrics);
  }

  unfoldable pub load_external_region :
      RegionDirectory M → ℕ → (ℕ → ℕ → Result (List ℕ)) → Result (Unit {0}) × RegionDirectory M
  load_external_region d region_id loader = elim (entry d region_id) [
    | none ↦ (err (region_not_found region_id), d)
    | some e ↦
        if not (is_external e.meta.residency)
        then (ok tt, d)
        else elim (loader e.meta.id e.meta.generation) [
          | err x ↦ (err x, d)
          | ok bytes ↦ (ok tt, put d region_id (faulted_in e bytes))
        ]
  ]

  -- `file` is what `std::fs::read` gives.
  unfoldable pub restore_region :
      RegionDirectory M → ℕ → Result (List ℕ) → Result (Unit {0}) × RegionDirectory M
  restore_region d region_id (err x) = (err x, d)
  restore_region d region_id (ok bytes) = elim (entry d region_id) [
    | none ↦ (err (region_not_found region_id), d)
    | some e ↦ if ltb e.meta.capacity (length bytes % u32_mod) then (err out_of_bounds, d) else (
      ok tt,
      put d region_id (record e {
        meta = record (e.meta) { residency = hot };
        memory = some (mem.restore bytes);
      }),
    )
  ]

  -- What `snapshot_region` writes to the file.
  unfoldable pub snapshot_region : RegionDirectory M → ℕ → Result (List ℕ)
  snapshot_region d region_id = elim (entry d region_id) [
    | none ↦ err (region_not_found region_id)
    | some e ↦ elim e.memory [ none ↦ err not_resident | some m ↦ ok (mem.snapshot m) ]
  ]

module _ {M B : Type 0} (mem : MemoryRegion M) (store : BackingStore B) where
  unfoldable pub spill_region :
      RegionDirectory M → ℕ → B → Result (Unit {0}) × B × RegionDirectory M
  spill_region d region_id b = elim (entry d region_id) [
    | none ↦ (err (region_not_found region_id), b, d)
    | some e ↦
        if e.meta.pinned
        then (err pinned, b, d)
        else if not e.meta.spillable
        then (err policy_violation, b, d)
        else if is_cold e.meta.residency
        then (ok tt, b, d)
        else elim e.memory [
          | none ↦ (err not_resident, b, d)
          | some m ↦
              let taken = record e { memory = none } in
              let (r, b') = store.spill b e.meta.id e.meta.generation (mem.snapshot m) in
              elim r [
                | err x ↦ (err x, b', put d region_id taken)
                | ok _ ↦ (ok tt, b', lru_remove (put d region_id (demoted taken cold)) region_id)
              ]
        ]
  ]

  unfoldable pub load_region : RegionDirectory M → ℕ → B → Result (Unit {0}) × B × RegionDirectory M
  load_region d region_id b = elim (entry d region_id) [
    | none ↦ (err (region_not_found region_id), b, d)
    | some e ↦
        if is_hot e.meta.residency && is_some e.memory
        then (ok tt, b, d)
        else let (r, b') = store.load b e.meta.id e.meta.generation in
          elim r [
            | err x ↦ (err x, b', d)
            | ok bytes ↦ (ok tt, b', put d region_id (faulted_in mem e bytes))
          ]
  ]

  unfoldable pub promote_region :
      RegionDirectory M → ℕ → B → Result (Unit {0}) × B × RegionDirectory M
  promote_region d region_id b = elim (entry d region_id) [
    | none ↦ (err (region_not_found region_id), b, d)
    | some e ↦ elim (e.meta.residency) [
      | hot ↦ (ok tt, b, d)
      | warm ↦ (ok tt, b, lru_remove (put d region_id (promoted e)) region_id)
      | cold ↦ load_region d region_id b
      | external ↦ (err not_resident, b, d)
    ]
  ]

  unfoldable pub demote_region :
      RegionDirectory M → ℕ → B → Result (Unit {0}) × B × RegionDirectory M
  demote_region d region_id b = elim (entry d region_id) [
    | none ↦ (err (region_not_found region_id), b, d)
    | some e ↦
        if e.meta.pinned
        then (err pinned, b, d)
        else if not e.meta.spillable
        then (err policy_violation, b, d)
        else elim (e.meta.residency) [
          | hot ↦ (ok tt, b, lru_push_front (put d region_id (demoted e warm)) region_id)
          | warm ↦ spill_region d region_id b
          | cold ↦ (ok tt, b, d)
          | external ↦ (err not_resident, b, d)
        ]
  ]

  -- The loop of `evict_warm_region` over its snapshot, oldest first.
  unfoldable pub evict_first :
      List ℕ → RegionDirectory M → B → Result (Option ℕ) × B × RegionDirectory M
  evict_first [] d b = (ok none, b, d)
  evict_first (id ∷ ids) d b =
      let next = evict_first ids (lru_remove d id) b in
      elim (entry d id) [
        | none ↦ next
        | some e ↦
            if e.meta.pinned || not (is_warm e.meta.residency)
            then next
            else let (r, b', d') = spill_region d id b in
              elim r [ err x ↦ (err x, b', d') | ok _ ↦ (ok (some id), b', d') ]
      ]

  unfoldable pub evict_warm_region :
      RegionDirectory M → B → Result (Option ℕ) × B × RegionDirectory M
  evict_warm_region d b = evict_first (reverse d.warm_lru) d b

  -- The region is loaded first if it is cold.
  unfoldable pub fault_in : RegionDirectory M → ℕ → B → Result (Unit {0}) × B × RegionDirectory M
  fault_in d region_id b = elim (entry d region_id) [
    | none ↦ (err (region_not_found region_id), b, d)
    | some e ↦ if is_cold e.meta.residency then load_region d region_id b else (ok tt, b, d)
  ]

  unfoldable pub read_or_fault :
      RegionDirectory M → Handle → ℕ → B → Result (List ℕ) × B × RegionDirectory M
  read_or_fault d handle n b =
      let (r, b', d') = fault_in d handle.region_id b in
      elim r [
        | err x ↦ (err x, b', d')
        | ok _ ↦ let (bytes, d'') = read mem d' handle n in (bytes, b', d'')
      ]

  unfoldable pub write_or_fault :
      RegionDirectory M → Handle → List ℕ → B → Result (Unit {0}) × B × RegionDirectory M
  write_or_fault d handle bytes b =
      let (r, b', d') = fault_in d handle.region_id b in
      elim r [
        | err x ↦ (err x, b', d')
        | ok _ ↦ let (done, d'') = write mem d' handle bytes in (done, b', d'')
      ]
