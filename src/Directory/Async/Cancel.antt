-- ===== src/Directory/Async/Cancel.antt =====
-- A future of `spill_region_async` (crates/tvm-core/src/directory.rs) that is dropped while it waits.
use tvm_wasm.Base.{ℕ, ◌≡◌, refl, ap, ◌∙◌, true, false, none, some, ok, err, not_resident, arith}
use tvm_wasm.Handle.{Handle}
use tvm_wasm.Region.{is_cold}
use tvm_wasm.Memory.{MemoryRegion, BackingStore}
use tvm_wasm.Directory.{RegionDirectory, RegionEntry, entry, put}
use tvm_wasm.Directory.Access.{read, validate}
use tvm_wasm.Directory.Tiers.{spill_region, fault_in, read_or_fault}
use tvm_wasm.Directory.Invariant.{entry-put_self}
use tvm_wasm.Directory.Invariant.Access.{validate-ok}
use tvm_wasm.Directory.Bytes.{validate-entry}
use tvm_wasm.Directory.Spill.{read_away, spill_region-away, read_or_fault-ok}
use tvm_wasm.Directory.Async.{cancel, spill_region_async}

module _ {M B : Type 0} (mem : MemoryRegion M) (store : BackingStore B) where
  cancel-taken :
      (d : RegionDirectory M) (id : ℕ) (e : RegionEntry M) (m : M)
      → entry d id ≡ some e
      → e.memory ≡ some m
      → is_cold e.meta.residency ≡ false
      → e.meta.pinned ≡ false
      → e.meta.spillable ≡ true
      → cancel (spill_region_async mem d id) ≡ put d id (record e { memory = none })
  unfolding cancel spill_region_async
  cancel-taken d id e m at here warm loose may = ground arith

  fault_in-warm :
      (d : RegionDirectory M) (id : ℕ) (e : RegionEntry M) (b : B)
      → entry d id ≡ some e
      → is_cold e.meta.residency ≡ false
      → ((fault_in mem store d id b).0 ≡ ok tt) × ((fault_in mem store d id b).2 ≡ d)
  unfolding fault_in
  fault_in-warm d id e b at warm = ground arith

  -- When the future of a `spill_region_async` of an unpinned, spillable region that is resident
  -- and not Cold is dropped while it waits for the store, the entry has lost its bytes and nothing
  -- else: `read`, `read_or_fault` and a second spill then all fail with `NotResident`.
  pub cancel-spill_region_async :
      (d : RegionDirectory M) (h : Handle) (e : RegionEntry M) (m : M) (b : B) (n : ℕ)
      → validate d h ≡ ok e
      → e.memory ≡ some m
      → is_cold e.meta.residency ≡ false
      → e.meta.pinned ≡ false
      → e.meta.spillable ≡ true
      → let d' = cancel (spill_region_async mem d h.region_id) in
        (entry d' h.region_id ≡ some (record e { memory = none }))
        × ((read mem d' h n).0 ≡ err not_resident)
        × ((read_or_fault mem store d' h n b).0 ≡ err not_resident)
        × ((spill_region mem store d' h.region_id b).0 ≡ err not_resident)
  cancel-spill_region_async d h e m b n valid here warm loose may =
      let (at, same) = validate-ok d h e valid in
      let f = record e { memory = none } in
      let d' = put d h.region_id f in
      let hit : entry d' h.region_id ≡ some f = entry-put_self d h.region_id e f at in
      let (loads, stays) = fault_in-warm d' h.region_id f b hit warm in
      let away = read_away mem d' h f n (validate-entry d' h f hit same) refl in
      rw (cancel-taken d h.region_id e m at here warm loose may) (
        hit,
        away,
        read_or_fault-ok mem store d' h n b loads ∙ ap (λ x. (read mem x h n).0) stays ∙ away,
        spill_region-away mem store d' h.region_id f b hit refl warm loose may,
      )
