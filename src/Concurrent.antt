-- ===== src/Concurrent.antt =====
-- `ConcurrentDirectory` of crates/tvm-core/src/concurrent.rs. An `Arc` of an entry is an address in
-- `entries`, where an entry stays as long as a thread may hold its `Arc`. A method takes the
-- address from the table and then works on the entry under its lock; here the two parts follow
-- each other. A lock is poisoned only by a panic of the thread that holds it: those errors are not modelled.
pub mod Order
pub mod Agrees
pub mod Candidates
pub mod Demote
pub mod Locks
pub mod Report
pub mod Spill
pub mod Table
pub mod Tiers
use tvm_wasm.Base.{
  ℕ, zero, suc, ◌+◌, ◌%◌, Bool, true, false, not, ltb, ◌==◌, if◌then◌else◌, List, [], ◌∷◌, ◌++◌,
  Option, none, some, length, get_elem?, set, Result, TvmError, ok, err, ok_or, ◌>>=◌,
  region_not_found, stale_handle, out_of_bounds, not_resident, allocation_failed, policy_violation,
  checked_add32, u16_mod, u32_mod,
}
use tvm_wasm.Handle.{Handle}
use tvm_wasm.Region.{
  Region, RegionKind, PlacementPolicy, RegionMetrics, for_kind, no_metrics, is_warm, record_alloc,
  record_read, record_write,
}
use tvm_wasm.Memory.{MemoryRegion}
use tvm_wasm.Allocator.{AllocatorKind, bump_kind}
use tvm_wasm.Allocator
use tvm_wasm.Directory.{RegionEntry}
use tvm_wasm.Directory.Access.{read_entry}

pub record ConcurrentDirectory (M : Type 0) : Type 0 where
  pub entries : List (RegionEntry M)
  pub regions : List (Option ℕ)
  pub warm_lru : List ℕ

-- `retain`: every occurrence goes.
abbrev pub retain_ne : ℕ → List ℕ → List ℕ
retain_ne region_id [] = []
retain_ne region_id (x ∷ xs) =
    let rest = retain_ne region_id xs in if x == region_id then rest else x ∷ rest

abbrev pub occupied : Option (Option ℕ) → Option ℕ
occupied none = none
occupied (some slot) = slot

module _ {M : Type 0} where
  abbrev pub new : ConcurrentDirectory M
  new = record { entries = []; regions = []; warm_lru = [] }

  unfoldable pub lru_push_front : ConcurrentDirectory M → ℕ → ConcurrentDirectory M
  lru_push_front d region_id = record d { warm_lru = region_id ∷ retain_ne region_id d.warm_lru }

  unfoldable pub lru_remove : ConcurrentDirectory M → ℕ → ConcurrentDirectory M
  lru_remove d region_id = record d { warm_lru = retain_ne region_id d.warm_lru }

  unfoldable pub create_region_with_policy :
      ConcurrentDirectory M
      → RegionKind
      → ℕ
      → AllocatorKind
      → PlacementPolicy
      → M
      → Result ℕ × ConcurrentDirectory M
  create_region_with_policy d kind capacity allocator policy memory =
      let id = length d.regions in
      if not (ltb id u16_mod)
      then (err allocation_failed, d)
      else let e : RegionEntry M = record {
        meta = record {
          id = id;
          generation = 1;
          capacity = capacity;
          used = 0;
          kind = kind;
          residency = policy.initial_residency;
          pinned = false;
          pinnable = policy.pinnable;
          spillable = policy.spillable;
        };
        memory = some memory;
        metrics = no_metrics;
        allocator = Allocator.new allocator capacity;
      } in
        let d' = record d {
          entries = d.entries ++ e ∷ [];
          regions = d.regions ++ some (length d.entries) ∷ [];
        } in
        (ok id, if is_warm policy.initial_residency then lru_push_front d' id else d')

  unfoldable pub create_region_with :
      ConcurrentDirectory M → RegionKind → ℕ → AllocatorKind → M → Result ℕ × ConcurrentDirectory M
  create_region_with d kind capacity allocator memory =
      create_region_with_policy d kind capacity allocator (for_kind kind) memory

  unfoldable pub create_region :
      ConcurrentDirectory M → RegionKind → ℕ → M → Result ℕ × ConcurrentDirectory M
  create_region d kind capacity memory = create_region_with d kind capacity bump_kind memory

  unfoldable pub destroy_region :
      ConcurrentDirectory M → ℕ → Result (Unit {0}) × ConcurrentDirectory M
  destroy_region d region_id = elim (occupied (get_elem? d.regions region_id)) [
    | none ↦ (err (region_not_found region_id), d)
    | some _ ↦ (ok tt, lru_remove (record d { regions = set d.regions region_id none }) region_id)
  ]

  unfoldable pub entry_arc : ConcurrentDirectory M → ℕ → Result ℕ
  entry_arc d region_id =
      ok_or (occupied (get_elem? d.regions region_id)) (region_not_found region_id)

  -- The entry behind the `Arc` in the table.
  unfoldable pub entry : ConcurrentDirectory M → ℕ → Option (RegionEntry M)
  entry d region_id = elim (occupied (get_elem? d.regions region_id)) [
    | none ↦ none
    | some arc ↦ get_elem? d.entries arc
  ]

  -- What is done under the lock of the entry at an address leaves an entry there. An `Arc` points
  -- to an entry, so that `absent` is never the result.
  unfoldable pub locked {ℓ} :
      {A : Type ℓ}
      → A
      → ConcurrentDirectory M
      → ℕ
      → (RegionEntry M → A × RegionEntry M)
      → A × ConcurrentDirectory M
  locked absent d arc section = elim (get_elem? d.entries arc) [
    | none ↦ (absent, d)
    | some e ↦ let (r, e') = section e in (r, record d { entries = set d.entries arc e' })
  ]

  -- A method on one region: `entry_arc`, then what it does under the lock.
  abbrev pub with_region {ℓ} :
      {A : Type ℓ}
      → ConcurrentDirectory M
      → ℕ
      → (RegionEntry M → Result A × RegionEntry M)
      → Result A × ConcurrentDirectory M
  with_region d region_id section = elim (entry_arc d region_id) [
    | err x ↦ (err x, d)
    | ok arc ↦ locked (err (region_not_found region_id)) d arc section
  ]

  abbrev pub alloc_section : ℕ → ℕ → RegionEntry M → Result Handle × RegionEntry M
  alloc_section region_id size e = elim (Allocator.alloc e.allocator size 1) [
    | err x ↦ (err x, e)
    | ok (offset, allocator') ↦ (
      ok (record { region_id = region_id; generation = e.meta.generation; offset = offset }),
      record e {
        meta = record (e.meta) { used = Allocator.used allocator' };
        metrics = record_alloc e.metrics size;
        allocator = allocator';
      },
    )
  ]

  unfoldable pub alloc : ConcurrentDirectory M → ℕ → ℕ → Result Handle × ConcurrentDirectory M
  alloc d region_id size = with_region d region_id (alloc_section region_id size)

  abbrev pub dealloc_section : Handle → RegionEntry M → Result (Unit {0}) × RegionEntry M
  dealloc_section handle e =
      if not (e.meta.generation == handle.generation)
      then (err stale_handle, e)
      else elim (Allocator.dealloc e.allocator handle.offset) [
        | err x ↦ (err x, e)
        | ok (_, allocator') ↦ (
          ok tt,
          record e {
            meta = record (e.meta) { used = Allocator.used allocator' };
            allocator = allocator';
          },
        )
      ]

  unfoldable pub dealloc :
      ConcurrentDirectory M → Handle → Result (Unit {0}) × ConcurrentDirectory M
  dealloc d handle = with_region d handle.region_id (dealloc_section handle)

  abbrev pub pin_section : RegionEntry M → Result (Unit {0}) × RegionEntry M
  pin_section e =
      if not e.meta.pinnable
      then (err policy_violation, e)
      else (ok tt, record e { meta = record (e.meta) { pinned = true } })

  abbrev pub unpin_section : RegionEntry M → Result (Unit {0}) × RegionEntry M
  unpin_section e = (ok tt, record e { meta = record (e.meta) { pinned = false } })

  unfoldable pub pin : ConcurrentDirectory M → ℕ → Result (Unit {0}) × ConcurrentDirectory M
  pin d region_id = with_region d region_id pin_section

  unfoldable pub unpin : ConcurrentDirectory M → ℕ → Result (Unit {0}) × ConcurrentDirectory M
  unpin d region_id = with_region d region_id unpin_section

  unfoldable pub region_info : ConcurrentDirectory M → ℕ → Result Region
  region_info d region_id = (with_region d region_id (λ e. (ok e.meta, e))).0

  unfoldable pub metrics_snapshot : ConcurrentDirectory M → ℕ → Result RegionMetrics
  metrics_snapshot d region_id = (with_region d region_id (λ e. (ok e.metrics, e))).0

  -- The `Arc`s of the table in turn.
  abbrev pub metas : List (RegionEntry M) → List (Option ℕ) → List Region
  metas entries [] = []
  metas entries (none ∷ slots) = metas entries slots
  metas entries (some arc ∷ slots) = elim (get_elem? entries arc) [
    | none ↦ metas entries slots
    | some e ↦ e.meta ∷ metas entries slots
  ]

  unfoldable pub list_regions : ConcurrentDirectory M → List Region
  list_regions d = metas d.entries d.regions

  abbrev pub check_in_bounds : RegionEntry M → ℕ → ℕ → Result (Unit {0})
  check_in_bounds e offset n = do
    last ← ok_or (checked_add32 offset n) out_of_bounds
    if ltb e.meta.capacity last then err out_of_bounds else ok tt

module _ {M : Type 0} (mem : MemoryRegion M) where
  -- The bytes read stand for the caller's buffer of `n` bytes.
  abbrev pub read_section : Handle → ℕ → RegionEntry M → Result (List ℕ) × RegionEntry M
  read_section handle n e =
      if not (e.meta.generation == handle.generation)
      then (err stale_handle, e)
      else elim (read_entry mem e handle.offset n) [
        | err x ↦ (err x, e)
        | ok (bytes, e') ↦ (ok bytes, e')
      ]

  unfoldable pub read : ConcurrentDirectory M → Handle → ℕ → Result (List ℕ) × ConcurrentDirectory M
  read d handle n = with_region d handle.region_id (read_section handle n)

  -- The bytes go to the memory when it is there.
  abbrev pub store_bytes : ℕ → List ℕ → RegionEntry M → Result (Unit {0}) × RegionEntry M
  store_bytes offset bytes e = elim e.memory [
    | none ↦ (err not_resident, e)
    | some m ↦
        let (r, m') = mem.write m offset bytes in
        elim r [
          | err x ↦ (err x, record e { memory = some m' })
          | ok _ ↦ (
            ok tt,
            record e { memory = some m'; metrics = record_write e.metrics (length bytes) },
          )
        ]
  ]

  -- The end is checked before the residency, other than in `RegionDirectory.write`.
  abbrev pub write_section : Handle → List ℕ → RegionEntry M → Result (Unit {0}) × RegionEntry M
  write_section handle bytes e =
      if not (e.meta.generation == handle.generation)
      then (err stale_handle, e)
      else elim (check_in_bounds e handle.offset (length bytes % u32_mod)) [
        | err x ↦ (err x, e)
        | ok _ ↦ store_bytes handle.offset bytes e
      ]

  unfoldable pub write :
      ConcurrentDirectory M → Handle → List ℕ → Result (Unit {0}) × ConcurrentDirectory M
  write d handle bytes = with_region d handle.region_id (write_section handle bytes)

  -- The two halves of a copy.
  abbrev pub copy_out : ℕ → ℕ → RegionEntry M → Result (List ℕ) × RegionEntry M
  copy_out offset n e =
      elim (do
        _ ← check_in_bounds e offset n
        m ← ok_or e.memory not_resident
        mem.read m offset n) [
          | err x ↦ (err x, e)
          | ok buf ↦ (ok buf, record e { metrics = record_read e.metrics n })
        ]

  abbrev pub copy_in : ℕ → ℕ → List ℕ → RegionEntry M → Result (Unit {0}) × RegionEntry M
  copy_in offset n buf e = elim (check_in_bounds e offset n) [
    | err x ↦ (err x, e)
    | ok _ ↦ store_bytes offset buf e
  ]

  -- Both regions are found before a lock is taken, and both stay locked until the end: nothing of
  -- the copy depends on which of the two is locked first.
  unfoldable pub cross_region_copy :
      ConcurrentDirectory M → ℕ → ℕ → ℕ → ℕ → ℕ → Result (Unit {0}) × ConcurrentDirectory M
  cross_region_copy d src_region src_offset dst_region dst_offset n =
      elim (entry_arc d src_region) [
        | err x ↦ (err x, d)
        | ok src_arc ↦
            elim (if src_region == dst_region then ok src_arc else entry_arc d dst_region) [
              | err x ↦ (err x, d)
              | ok dst_arc ↦
                  let (r, d') =
                    locked (err (region_not_found src_region)) d src_arc (copy_out src_offset n) in
                  elim r [
                    | err x ↦ (err x, d')
                    | ok buf ↦
                        locked (err (region_not_found dst_region)) d' dst_arc
                          (copy_in dst_offset n buf)
                  ]
            ]
      ]
