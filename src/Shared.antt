-- ===== src/Shared.antt =====
-- `SharedDirectory` of crates/tvm-core/src/shared.rs: one `RegionDirectory` behind one `RwLock`. A call
-- holds the lock from its start to its end, so calls of several threads follow each other. The
-- lock is poisoned when a thread has panicked while it held the guard of a write.
use tvm_wasm.Base.{
  ℕ, Bool, false, if◌then◌else◌, List, [], ◌∷◌, Option, none, some, Result, TvmError, ok, err,
  backing_store,
}
use tvm_wasm.Handle.{Handle}
use tvm_wasm.Region.{Region, RegionKind}
use tvm_wasm.Memory.{MemoryRegion, BackingStore}
use tvm_wasm.Allocator.{AllocatorKind}
use tvm_wasm.Directory.{RegionDirectory, RegionEntry}
use tvm_wasm.Directory
use tvm_wasm.Directory.Access
use tvm_wasm.Directory.Tiers

pub record SharedDirectory (M : Type 0) : Type 0 where
  pub inner : RegionDirectory M
  pub poisoned : Bool

abbrev lock_poisoned : TvmError
lock_poisoned = backing_store "directory lock poisoned"

module _ {M : Type 0} where
  -- A read guard. `RegionDirectory.read` counts in the entry's metrics behind it.
  unfoldable pub with_read {ℓ} :
      {A : Type ℓ}
      → SharedDirectory M
      → (RegionDirectory M → Result A × RegionDirectory M)
      → Result A × SharedDirectory M
  with_read s f =
      if s.poisoned
      then (err lock_poisoned, s)
      else let (r, d) = f s.inner in (r, record s { inner = d })

  unfoldable pub with_write {ℓ} :
      {A : Type ℓ}
      → SharedDirectory M
      → (RegionDirectory M → Result A × RegionDirectory M)
      → Result A × SharedDirectory M
  with_write s f =
      if s.poisoned
      then (err lock_poisoned, s)
      else let (r, d) = f s.inner in (r, record s { inner = d })

  -- With the store that the call is given.
  abbrev pub with_write_store {ℓ} :
      {A : Type ℓ} {B : Type 0}
      → SharedDirectory M
      → B
      → (RegionDirectory M → B → Result A × B × RegionDirectory M)
      → Result A × B × SharedDirectory M
  with_write_store s b f =
      if s.poisoned
      then (err lock_poisoned, b, s)
      else let (r, b', d) = f s.inner b in (r, b', record s { inner = d })

  abbrev pub new : SharedDirectory M
  new = record { inner = Directory.new; poisoned = false }

  unfoldable pub create_region :
      SharedDirectory M → RegionKind → ℕ → M → Result ℕ × SharedDirectory M
  create_region s kind capacity memory =
      with_write s (λ d. Directory.create_region d kind capacity memory)

  unfoldable pub create_region_with :
      SharedDirectory M → RegionKind → ℕ → AllocatorKind → M → Result ℕ × SharedDirectory M
  create_region_with s kind capacity allocator memory =
      with_write s (λ d. Directory.create_region_with d kind capacity allocator memory)

  unfoldable pub alloc : SharedDirectory M → ℕ → ℕ → Result Handle × SharedDirectory M
  alloc s region_id size = with_write s (λ d. Access.alloc d region_id size)

  unfoldable pub dealloc : SharedDirectory M → Handle → Result (Unit {0}) × SharedDirectory M
  dealloc s handle = with_write s (λ d. Access.dealloc d handle)

  unfoldable pub pin : SharedDirectory M → ℕ → Result (Unit {0}) × SharedDirectory M
  pin s region_id = with_write s (λ d. Access.pin d region_id)

  unfoldable pub unpin : SharedDirectory M → ℕ → Result (Unit {0}) × SharedDirectory M
  unpin s region_id = with_write s (λ d. Access.unpin d region_id)

  unfoldable pub region_info : SharedDirectory M → ℕ → Result Region
  region_info s region_id = (with_read s (λ d. (Directory.region_info d region_id, d))).0

  -- `RegionDirectory::iter`, collected.
  abbrev pub metas : List (Option (RegionEntry M)) → List Region
  metas [] = []
  metas (none ∷ slots) = metas slots
  metas (some e ∷ slots) = e.meta ∷ metas slots

  unfoldable pub list_regions : SharedDirectory M → Result (List Region)
  list_regions s = (with_read s (λ d. (ok (metas d.regions), d))).0

module _ {M : Type 0} (mem : MemoryRegion M) where
  unfoldable pub read : SharedDirectory M → Handle → ℕ → Result (List ℕ) × SharedDirectory M
  read s handle n = with_read s (λ d. Access.read mem d handle n)

  unfoldable pub write : SharedDirectory M → Handle → List ℕ → Result (Unit {0}) × SharedDirectory M
  write s handle bytes = with_write s (λ d. Access.write mem d handle bytes)

module _ {M B : Type 0} (mem : MemoryRegion M) (store : BackingStore B) where
  unfoldable pub spill_region :
      SharedDirectory M → ℕ → B → Result (Unit {0}) × B × SharedDirectory M
  spill_region s region_id b =
      with_write_store s b (λ d b'. Tiers.spill_region mem store d region_id b')

  unfoldable pub load_region : SharedDirectory M → ℕ → B → Result (Unit {0}) × B × SharedDirectory M
  load_region s region_id b =
      with_write_store s b (λ d b'. Tiers.load_region mem store d region_id b')
