-- ===== src/Guest/Facade.antt =====
-- `GuestTvm` of crates/tvm-guest-mm/src/facade.rs: the guest's directory behind a cache of one entry,
-- and the helpers that read and write its pools. The state of the pools is threaded through.
pub mod Mirrors
pub mod Calls
pub mod Coherence
use tvm_wasm.Base.{
  ℕ, ◌+◌, ◌-◌, ◌%◌, Bool, not, ◌==◌, ◌&&◌, if◌then◌else◌, List, Option, none, some, length, Result,
  ok, err, ok_or, ◌>>=◌, out_of_bounds, checked_add32, u32_mod,
}
use tvm_wasm.Handle.{Handle}
use tvm_wasm.Region.{Region, RegionKind}
use tvm_wasm.Allocator.{AllocatorKind}
use tvm_wasm.Directory.Compact.{HandleRemap}
use tvm_wasm.Guest.{GuestDirectory, Dispatch, Pool, resolve}
use tvm_wasm.Guest

-- Region 0 stands for an empty cache.
pub record ResolveCache : Type 0 where
  pub region_id : ℕ
  pub generation : ℕ
  pub pool_index : ℕ
  pub base_offset : ℕ

abbrev pub empty_cache : ResolveCache
empty_cache = record { region_id = 0; generation = 0; pool_index = 0; base_offset = 0 }

pub record GuestTvm : Type 0 where
  pub directory : GuestDirectory
  pub default_allocator : AllocatorKind
  pub cache : ResolveCache

abbrev pub with_default_allocator : List Pool → AllocatorKind → GuestTvm
with_default_allocator pools default_allocator = record {
  directory = Guest.new pools;
  default_allocator = default_allocator;
  cache = empty_cache;
}

-- A `saturating_sub` stops at 0.
unfoldable pub cached_resolve : GuestTvm → Handle → Result (ℕ × ℕ) × GuestTvm
cached_resolve t handle =
    if not (handle.region_id == 0)
      && handle.region_id == t.cache.region_id
      && handle.generation == t.cache.generation
    then (
      do
        abs ← ok_or (checked_add32 t.cache.base_offset handle.offset) out_of_bounds
        ok (t.cache.pool_index, abs),
      t,
    )
    else elim (resolve t.directory handle) [
      | err x ↦ (err x, t)
      | ok (pool, abs) ↦ (
        ok (pool, abs),
        record t {
          cache = record {
            region_id = handle.region_id;
            generation = handle.generation;
            pool_index = pool;
            base_offset = abs - handle.offset;
          };
        },
      )
    ]

-- What a call leaves of the directory stands in the facade.
abbrev pub with_directory {ℓ} : {A : Type ℓ} → GuestTvm → A × GuestDirectory → A × GuestTvm
with_directory t (r, g) = (r, record t { directory = g })

unfoldable pub create_region : GuestTvm → RegionKind → ℕ → Result ℕ × GuestTvm
create_region t kind capacity =
    with_directory t (Guest.create_region t.directory kind capacity t.default_allocator)

unfoldable pub alloc : GuestTvm → ℕ → ℕ → Result Handle × GuestTvm
alloc t region size = with_directory t (Guest.alloc t.directory region size)

unfoldable pub dealloc : GuestTvm → Handle → Result (Unit {0}) × GuestTvm
dealloc t handle = with_directory t (Guest.dealloc t.directory handle)

unfoldable pub pin : GuestTvm → ℕ → Result (Unit {0}) × GuestTvm
pin t region = with_directory t (Guest.pin t.directory region)

-- The call does nothing.
unfoldable pub unpin : GuestTvm → ℕ → Result (Unit {0}) × GuestTvm
unpin t region = (ok tt, t)

unfoldable pub region_info : GuestTvm → ℕ → Result Region
region_info t region = Guest.region_info t.directory region

-- The cached entry of a region goes.
abbrev pub forget : GuestTvm → ℕ → GuestTvm
forget t region_id = if t.cache.region_id == region_id then record t { cache = empty_cache } else t

module _ {P : Type 0} (dispatch : Dispatch P) where
  -- The bytes read stand for the caller's buffer of `n` bytes.
  unfoldable pub read : GuestTvm → Handle → ℕ → P → Result (List ℕ) × GuestTvm
  read t handle n p =
      let (r, t') = cached_resolve t handle in
      elim r [
        | err x ↦ (err x, t')
        | ok (pool, off) ↦ elim (checked_add32 off (n % u32_mod)) [
          | none ↦ (err out_of_bounds, t')
          | some last ↦ (dispatch.read_bytes p pool off n, t')
        ]
      ]

  unfoldable pub write : GuestTvm → Handle → List ℕ → P → Result (Unit {0}) × P × GuestTvm
  write t handle bytes p =
      let (r, t') = cached_resolve t handle in
      elim r [
        | err x ↦ (err x, p, t')
        | ok (pool, off) ↦ elim (checked_add32 off (length bytes % u32_mod)) [
          | none ↦ (err out_of_bounds, p, t')
          | some last ↦ let (done, p') = dispatch.write_bytes p pool off bytes in (done, p', t')
        ]
      ]

  unfoldable pub compact_region : GuestTvm → ℕ → P → Result HandleRemap × P × GuestTvm
  compact_region t region_id p =
      let t' = forget t region_id in
      let (r, p', g) = Guest.compact_region dispatch t'.directory region_id p in
      (r, p', record t' { directory = g })
