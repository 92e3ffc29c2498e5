-- ===== src/Directory/Async.antt =====
-- The asynchronous methods of crates/tvm-core/src/directory.rs and `SyncAdapter` of async_backing.rs. Each
-- method awaits the store at most once. A future that waits there keeps the directory borrowed, so
-- nothing else changes it; what it has done to the directory so far is part of the future.
pub mod Adapter
pub mod Cancel
use tvm_wasm.Base.{
  ℕ, not, ◌&&◌, if◌then◌else◌, List, Option, none, some, Result, ok, err, region_not_found,
  not_resident, policy_violation, pinned,
}
use tvm_wasm.Handle.{Handle}
use tvm_wasm.Region.{cold, is_hot, is_cold}
use tvm_wasm.Memory.{MemoryRegion, BackingStore}
use tvm_wasm.Directory.{RegionDirectory, entry, put, lru_remove}
use tvm_wasm.Directory.Access.{read, write}
use tvm_wasm.Directory.Tiers.{is_some, demoted, faulted_in}

-- What the futures of the store give when they are awaited to their end.
pub record AsyncBackingStore (B : Type 0) : Type 0 where
  pub spill_async : B → ℕ → ℕ → List ℕ → Result (Unit {0}) × B
  pub load_async : B → ℕ → ℕ → Result (List ℕ) × B

abbrev pub sync_adapter : {B : Type 0} → BackingStore B → AsyncBackingStore B
sync_adapter store = record { spill_async = store.spill; load_async = store.load }

-- A method has returned, or it waits for the store with the directory as it is then, and what it
-- does with the store's answer.
pub data Future (M A : Type 0) : Type 0 where
  ready : Result A → RegionDirectory M → Future M A
  awaiting_spill :
      ℕ
      → ℕ
      → List ℕ
      → RegionDirectory M
      → (Result (Unit {0}) → Result A × RegionDirectory M)
      → Future M A
  awaiting_load :
      ℕ → ℕ → RegionDirectory M → (Result (List ℕ) → Result A × RegionDirectory M) → Future M A

-- The future is awaited to its end.
unfoldable pub block_on :
    {M A B : Type 0} → AsyncBackingStore B → Future M A → B → Result A × B × RegionDirectory M
block_on store (ready r d) b = (r, b, d)
block_on store (awaiting_spill id generation bytes d resume) b =
    let (answer, b') = store.spill_async b id generation bytes in
    let (r, d') = resume answer in (r, b', d')
block_on store (awaiting_load id generation d resume) b =
    let (answer, b') = store.load_async b id generation in
    let (r, d') = resume answer in (r, b', d')

-- The future is dropped while it waits, or when it is ready.
unfoldable pub cancel : {M A : Type 0} → Future M A → RegionDirectory M
cancel (ready r d) = d
cancel (awaiting_spill id generation bytes d resume) = d
cancel (awaiting_load id generation d resume) = d

module _ {M : Type 0} where
  -- After the store has answered.
  abbrev finish_spill :
      RegionDirectory M → ℕ → Result (Unit {0}) → Result (Unit {0}) × RegionDirectory M
  finish_spill d region_id (err x) = (err x, d)
  finish_spill d region_id (ok _) = elim (entry d region_id) [
    | none ↦ (err (region_not_found region_id), d)
    | some e ↦ (ok tt, lru_remove (put d region_id (demoted e cold)) region_id)
  ]

module _ {M A : Type 0} where
  -- `.await?`, and what follows it on the directory alone.
  abbrev after_ok :
      (RegionDirectory M → Result A × RegionDirectory M)
      → Result (Unit {0}) × RegionDirectory M
      → Result A × RegionDirectory M
  after_ok next (err x, d) = (err x, d)
  after_ok next (ok _, d) = next d

  abbrev pub then_on :
      (RegionDirectory M → Result A × RegionDirectory M) → Future M (Unit {0}) → Future M A
  then_on next (ready r d) = let (s, d') = after_ok next (r, d) in ready s d'
  then_on next (awaiting_spill id generation bytes d resume) =
      awaiting_spill id generation bytes d (λ answer. after_ok next (resume answer))
  then_on next (awaiting_load id generation d resume) =
      awaiting_load id generation d (λ answer. after_ok next (resume answer))

module _ {M : Type 0} (mem : MemoryRegion M) where
  unfoldable pub spill_region_async : RegionDirectory M → ℕ → Future M (Unit {0})
  spill_region_async d region_id = elim (entry d region_id) [
    | none ↦ ready (err (region_not_found region_id)) d
    | some e ↦
        if e.meta.pinned
        then ready (err pinned) d
        else if not e.meta.spillable
        then ready (err policy_violation) d
        else if is_cold e.meta.residency
        then ready (ok tt) d
        else elim e.memory [
          | none ↦ ready (err not_resident) d
          | some m ↦
              let d' = put d region_id (record e { memory = none }) in
              awaiting_spill e.meta.id e.meta.generation (mem.snapshot m) d'
                (finish_spill d' region_id)
        ]
  ]

  abbrev finish_load :
      RegionDirectory M → ℕ → Result (List ℕ) → Result (Unit {0}) × RegionDirectory M
  finish_load d region_id (err x) = (err x, d)
  finish_load d region_id (ok bytes) = elim (entry d region_id) [
    | none ↦ (err (region_not_found region_id), d)
    | some e ↦ (ok tt, put d region_id (faulted_in mem e bytes))
  ]

  unfoldable pub load_region_async : RegionDirectory M → ℕ → Future M (Unit {0})
  load_region_async d region_id = elim (entry d region_id) [
    | none ↦ ready (err (region_not_found region_id)) d
    | some e ↦
        if is_hot e.meta.residency && is_some e.memory
        then ready (ok tt) d
        else awaiting_load e.meta.id e.meta.generation d (finish_load d region_id)
  ]

  -- The access, after the load of a region that is Cold.
  abbrev pub fault_then :
      {A : Type 0}
      → RegionDirectory M
      → ℕ
      → (RegionDirectory M → Result A × RegionDirectory M)
      → Future M A
  fault_then d region_id next = elim (entry d region_id) [
    | none ↦ ready (err (region_not_found region_id)) d
    | some e ↦
        if is_cold e.meta.residency
        then then_on next (load_region_async d region_id)
        else (let (s, d') = next d in ready s d')
  ]

  unfoldable pub read_or_fault_async : RegionDirectory M → Handle → ℕ → Future M (List ℕ)
  read_or_fault_async d handle n = fault_then d handle.region_id (λ d'. read mem d' handle n)

  unfoldable pub write_or_fault_async : RegionDirectory M → Handle → List ℕ → Future M (Unit {0})
  write_or_fault_async d handle bytes =
      fault_then d handle.region_id (λ d'. write mem d' handle bytes)
