-- ===== src/Directory/Async/Adapter.antt =====
-- The asynchronous methods of crates/tvm-core/src/directory.rs beside the synchronous ones.
use tvm_wasm.Base.{
  ℕ, zero, suc, ◌≡◌, refl, ap, ◌∙◌, inl, inr, ◌&&◌, Bool-cases, Option-cases, Result-cases, List,
  [], ◌∷◌, none, some, set, Result, ok, err, arith,
}
use tvm_wasm.Handle.{Handle}
use tvm_wasm.Region.{cold, is_cold, is_hot}
use tvm_wasm.Memory.{MemoryRegion, BackingStore}
use tvm_wasm.Directory.{RegionDirectory, RegionEntry, entry, put}
use tvm_wasm.Directory.Access.{read, write}
use tvm_wasm.Directory.Tiers.{
  is_some, demoted, spill_region, load_region, fault_in, read_or_fault, write_or_fault,
}
use tvm_wasm.Directory.Invariant.{entry-put_self}
use tvm_wasm.Directory.Async.{
  Future, ready, awaiting_spill, awaiting_load, then_on, fault_then, sync_adapter, block_on,
  spill_region_async, load_region_async, read_or_fault_async, write_or_fault_async,
}

set-set {ℓ} : {A : Type ℓ} (xs : List A) (i : ℕ) (x y : A) → set (set xs i x) i y ≡ set xs i y
set-set [] i x y = refl
set-set (z ∷ xs) zero x y = refl
set-set (z ∷ xs) (suc i) x y = ap (λ t. z ∷ t) (set-set xs i x y)

module _ {M B : Type 0} (mem : MemoryRegion M) (store : BackingStore B) where
  put-put :
      (d : RegionDirectory M) (id : ℕ) (e f : RegionEntry M) → put (put d id e) id f ≡ put d id f
  unfolding put
  put-put d id e f = ap (λ s. record d { regions = s }) (set-set d.regions id (some e) (some f))

  block_on-spill_region_async :
      (d : RegionDirectory M) (id : ℕ) (b : B)
      → block_on (sync_adapter store) (spill_region_async mem d id) b
        ≡ spill_region mem store d id b
  unfolding block_on spill_region_async spill_region
  block_on-spill_region_async d id b = elim (Option-cases (entry d id)) [
    | inl gone ↦ ground arith
    | inr (e, at) ↦ elim (Bool-cases e.meta.pinned) [
      | inl held ↦ ground arith
      | inr loose ↦ elim (Bool-cases e.meta.spillable) [
        | inr never ↦ ground arith
        | inl may ↦ elim (Bool-cases (is_cold e.meta.residency)) [
          | inl away ↦ ground arith
          | inr here ↦ elim (Option-cases e.memory) [
            | inl empty ↦ ground arith
            | inr (m, full) ↦
                let taken = record e { memory = none } in
                let hit = entry-put_self d id e taken at in
                let collapse = put-put d id taken (demoted taken cold) in
                elim (Result-cases (store.spill b e.meta.id e.meta.generation (mem.snapshot m)).0) [
                  | inr (x, failed) ↦ ground arith
                  | inl (u, done) ↦ ground (arith, hit, collapse)
                ]
          ]
        ]
      ]
    ]
  ]

  block_on-load_region_async :
      (d : RegionDirectory M) (id : ℕ) (b : B)
      → block_on (sync_adapter store) (load_region_async mem d id) b ≡ load_region mem store d id b
  unfolding block_on load_region_async load_region
  block_on-load_region_async d id b = elim (Option-cases (entry d id)) [
    | inl gone ↦ ground arith
    | inr (e, at) ↦ elim (Bool-cases (is_hot e.meta.residency && is_some e.memory)) [
      | inl here ↦ ground arith
      | inr away ↦ elim (Result-cases (store.load b e.meta.id e.meta.generation).0) [
        | inr (x, failed) ↦ ground arith
        | inl (bytes, loaded) ↦ ground arith
      ]
    ]
  ]

  -- What follows the load.
  abbrev After : (A : Type 0) → Type 0
  After A = RegionDirectory M → Result A × RegionDirectory M

  abbrev bind :
      {A : Type 0}
      → After A
      → Result (Unit {0}) × B × RegionDirectory M
      → Result A × B × RegionDirectory M
  bind next (err x, b, d) = (err x, b, d)
  bind next (ok _, b, d) = let (s, d') = next d in (s, b, d')

  block_on-then_on :
      {A : Type 0} (next : After A) (future : Future M (Unit {0})) (b : B)
      → block_on (sync_adapter store) (then_on next future) b
        ≡ bind next (block_on (sync_adapter store) future b)
  unfolding block_on
  block_on-then_on next (ready (ok u) d) b = refl
  block_on-then_on next (ready (err x) d) b = refl
  block_on-then_on next (awaiting_spill id generation bytes d resume) b =
      elim (Result-cases (resume (store.spill b id generation bytes).0).0) [
        | inr (x, failed) ↦ ground arith
        | inl (u, done) ↦ ground arith
      ]
  block_on-then_on next (awaiting_load id generation d resume) b =
      elim (Result-cases (resume (store.load b id generation).0).0) [
        | inr (x, failed) ↦ ground arith
        | inl (u, done) ↦ ground arith
      ]

  block_on-fault_then :
      {A : Type 0} (next : After A) (d : RegionDirectory M) (id : ℕ) (b : B)
      → block_on (sync_adapter store) (fault_then mem d id next) b
        ≡ bind next (fault_in mem store d id b)
  unfolding block_on fault_in
  block_on-fault_then next d id b = elim (Option-cases (entry d id)) [
    | inl gone ↦ ground arith
    | inr (e, at) ↦ elim (Bool-cases (is_cold e.meta.residency)) [
      | inr warm ↦ ground arith
      | inl away ↦
          let split = block_on-then_on next (load_region_async mem d id) b in
          let load = block_on-load_region_async d id b in ground (arith, split, load)
    ]
  ]

  bind-read :
      (d : RegionDirectory M) (h : Handle) (n : ℕ) (b : B)
      → bind (λ d'. read mem d' h n) (fault_in mem store d h.region_id b)
        ≡ read_or_fault mem store d h n b
  unfolding read_or_fault
  bind-read d h n b = elim (Result-cases (fault_in mem store d h.region_id b).0) [
    | inl (u, loaded) ↦ ground arith
    | inr (x, failed) ↦ ground arith
  ]

  bind-write :
      (d : RegionDirectory M) (h : Handle) (bytes : List ℕ) (b : B)
      → bind (λ d'. write mem d' h bytes) (fault_in mem store d h.region_id b)
        ≡ write_or_fault mem store d h bytes b
  unfolding write_or_fault
  bind-write d h bytes b = elim (Result-cases (fault_in mem store d h.region_id b).0) [
    | inl (u, loaded) ↦ ground arith
    | inr (x, failed) ↦ ground arith
  ]

  -- Over the adapter of a synchronous store, each of the four asynchronous methods, awaited to its
  -- end, gives the result, the store and the directory that its synchronous cousin gives, on every
  -- branch.
  pub block_on_lem :
      (d : RegionDirectory M) (id : ℕ) (h : Handle) (n : ℕ) (bytes : List ℕ) (b : B)
      → (block_on (sync_adapter store) (spill_region_async mem d id) b
          ≡ spill_region mem store d id b)
        × (block_on (sync_adapter store) (load_region_async mem d id) b
            ≡ load_region mem store d id b)
        × (block_on (sync_adapter store) (read_or_fault_async mem d h n) b
            ≡ read_or_fault mem store d h n b)
        × (block_on (sync_adapter store) (write_or_fault_async mem d h bytes) b
            ≡ write_or_fault mem store d h bytes b)
  unfolding read_or_fault_async write_or_fault_async
  block_on_lem d id h n bytes b = (
    block_on-spill_region_async d id b,
    block_on-load_region_async d id b,
    block_on-fault_then (λ d'. read mem d' h n) d h.region_id b ∙ bind-read d h n b,
    block_on-fault_then (λ d'. write mem d' h bytes) d h.region_id b ∙ bind-write d h bytes b,
  )
