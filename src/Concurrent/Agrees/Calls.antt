-- ===== src/Concurrent/Agrees/Calls.antt =====
-- Sequences of calls on a `ConcurrentDirectory` (crates/tvm-core/src/concurrent.rs) and on a
-- `RegionDirectory` (directory.rs), with what each call returns.
use tvm_wasm.Base.{ℕ, List, [], ◌∷◌, Option, none, some, Result}
use tvm_wasm.Handle.{Handle}
use tvm_wasm.Region.{Region, RegionKind, PlacementPolicy}
use tvm_wasm.Memory.{MemoryRegion, BackingStore}
use tvm_wasm.Allocator.{AllocatorKind}
use tvm_wasm.Directory.{RegionDirectory}
use tvm_wasm.Directory
use tvm_wasm.Directory.Access
use tvm_wasm.Directory.Tiers
use tvm_wasm.Directory.Compact.{HandleRemap}
use tvm_wasm.Directory.Compact
use tvm_wasm.Concurrent.{ConcurrentDirectory}
use tvm_wasm.Concurrent
use tvm_wasm.Concurrent.Tiers.{spill_region, load_region, compact_region}

-- The methods that both directories have, other than `write` and `cross_region_copy`, which check
-- the range and the residency in different orders.
pub data Call (M : Type 0) : Type 0 where
  create : RegionKind → ℕ → AllocatorKind → PlacementPolicy → M → Call M
  destroy info pin_it unpin_it spill load compact : ℕ → Call M
  allocate : ℕ → ℕ → Call M
  release : Handle → Call M
  read_at : Handle → ℕ → Call M

pub data Outcome : Type 0 where
  created : Result ℕ → Outcome
  granted : Result Handle → Outcome
  done : Result (Unit {0}) → Outcome
  got : Result (List ℕ) → Outcome
  told : Result Region → Outcome
  remapped : Option (Result HandleRemap) → Outcome

-- A panic leaves the directory.
abbrev pub compact_or_panic :
    {M : Type 0}
    → RegionDirectory M
    → Option (Result HandleRemap × RegionDirectory M)
    → Option (Result HandleRemap) × RegionDirectory M
compact_or_panic d none = (none, d)
compact_or_panic d (some (r, d')) = (some r, d')

abbrev pub tagged {ℓ} : {A : Type ℓ} {B D : Type 0} → (A → Outcome) → B → A × D → Outcome × B × D
tagged outcome b (r, d) = (outcome r, b, d)

abbrev pub tagged_with {ℓ} :
    {A : Type ℓ} {B D : Type 0} → (A → Outcome) → A × B × D → Outcome × B × D
tagged_with outcome (r, b, d) = (outcome r, b, d)

module _ {M B : Type 0} (mem : MemoryRegion M) (store : BackingStore B) where
  abbrev pub step_concurrent :
      Call M → B → ConcurrentDirectory M → Outcome × B × ConcurrentDirectory M
  step_concurrent (create kind n k policy m) b c =
      tagged created b (Concurrent.create_region_with_policy c kind n k policy m)
  step_concurrent (destroy id) b c = tagged done b (Concurrent.destroy_region c id)
  step_concurrent (info id) b c = (told (Concurrent.region_info c id), b, c)
  step_concurrent (pin_it id) b c = tagged done b (Concurrent.pin c id)
  step_concurrent (unpin_it id) b c = tagged done b (Concurrent.unpin c id)
  step_concurrent (spill id) b c = tagged_with done (spill_region mem store c id b)
  step_concurrent (load id) b c = tagged_with done (load_region mem store c id b)
  step_concurrent (compact id) b c = tagged remapped b (compact_region mem c id)
  step_concurrent (allocate id n) b c = tagged granted b (Concurrent.alloc c id n)
  step_concurrent (release h) b c = tagged done b (Concurrent.dealloc c h)
  step_concurrent (read_at h n) b c = tagged got b (Concurrent.read mem c h n)

  abbrev pub step : Call M → B → RegionDirectory M → Outcome × B × RegionDirectory M
  step (create kind n k policy m) b d =
      tagged created b (Directory.create_region_with_policy d kind n k policy m)
  step (destroy id) b d = tagged done b (Directory.destroy_region d id)
  step (info id) b d = (told (Directory.region_info d id), b, d)
  step (pin_it id) b d = tagged done b (Access.pin d id)
  step (unpin_it id) b d = tagged done b (Access.unpin d id)
  step (spill id) b d = tagged_with done (Directory.Tiers.spill_region mem store d id b)
  step (load id) b d = tagged_with done (Directory.Tiers.load_region mem store d id b)
  step (compact id) b d = tagged remapped b (compact_or_panic d (Compact.compact_region mem d id))
  step (allocate id n) b d = tagged granted b (Access.alloc d id n)
  step (release h) b d = tagged done b (Access.dealloc d h)
  step (read_at h n) b d = tagged got b (Access.read mem d h n)

  unfoldable pub run_concurrent :
      List (Call M) → B → ConcurrentDirectory M → List Outcome × B × ConcurrentDirectory M
  run_concurrent [] b c = ([], b, c)
  run_concurrent (call ∷ calls) b c =
      let (outcome, b', c') = step_concurrent call b c in
      let (outcomes, b'', c'') = run_concurrent calls b' c' in (outcome ∷ outcomes, b'', c'')

  unfoldable pub run : List (Call M) → B → RegionDirectory M → List Outcome × B × RegionDirectory M
  run [] b d = ([], b, d)
  run (call ∷ calls) b d =
      let (outcome, b', d') = step call b d in
      let (outcomes, b'', d'') = run calls b' d' in (outcome ∷ outcomes, b'', d'')
