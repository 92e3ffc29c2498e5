-- ===== src/Directory/Access.antt =====
-- Allocation, handles and bytes: the methods of `RegionDirectory` that a handle goes through.
use tvm_wasm.Base.{
  ℕ, ◌+◌, ◌%◌, true, false, not, ltb, ◌==◌, if◌then◌else◌, List, none, some, length, Result, ok,
  err, ok_or, ◌>>=◌, region_not_found, stale_handle, out_of_bounds, not_resident, policy_violation,
  checked_add32, u16_mod, u32_mod,
}
use tvm_wasm.Handle.{Handle}
use tvm_wasm.Region.{record_alloc, record_read, record_write}
use tvm_wasm.Memory.{MemoryRegion}
use tvm_wasm.Allocator
use tvm_wasm.Directory.{RegionDirectory, RegionEntry, entry, put}

-- `wrapping_add(1)`, past 0.
unfoldable pub next_generation : ℕ → ℕ
next_generation g = let next = (g + 1) % u16_mod in if next == 0 then 1 else next

module _ {M : Type 0} where
  -- The entry that a handle names, if it is of the handle's generation.
  unfoldable pub validate : RegionDirectory M → Handle → Result (RegionEntry M)
  unfolding entry
  validate d handle = elim (entry d handle.region_id) [
    | none ↦ err (region_not_found handle.region_id)
    | some e ↦ if e.meta.generation == handle.generation then ok e else err stale_handle
  ]

  unfoldable pub alloc_aligned : RegionDirectory M → ℕ → ℕ → ℕ → Result Handle × RegionDirectory M
  alloc_aligned d region_id size align = elim (entry d region_id) [
    | none ↦ (err (region_not_found region_id), d)
    | some e ↦ elim (Allocator.alloc e.allocator size align) [
      | err x ↦ (err x, d)
      | ok (offset, allocator') ↦ (
        ok (record { region_id = region_id; generation = e.meta.generation; offset = offset }),
        put d region_id (record e {
          meta = record (e.meta) { used = Allocator.used allocator' };
          metrics = record_alloc e.metrics size;
          allocator = allocator';
        }),
      )
    ]
  ]

  unfoldable pub alloc : RegionDirectory M → ℕ → ℕ → Result Handle × RegionDirectory M
  unfolding alloc_aligned
  alloc d region_id size = alloc_aligned d region_id size 1

  unfoldable pub dealloc : RegionDirectory M → Handle → Result (Unit {0}) × RegionDirectory M
  dealloc d handle = elim (validate d handle) [
    | err x ↦ (err x, d)
    | ok e ↦ elim (Allocator.dealloc e.allocator handle.offset) [
      | err x ↦ (err x, d)
      | ok (_, allocator') ↦ (
        ok tt,
        put d handle.region_id (record e {
          meta = record (e.meta) { used = Allocator.used allocator' };
          allocator = allocator';
        }),
      )
    ]
  ]

  unfoldable pub pin : RegionDirectory M → ℕ → Result (Unit {0}) × RegionDirectory M
  pin d region_id = elim (entry d region_id) [
    | none ↦ (err (region_not_found region_id), d)
    | some e ↦
        if not e.meta.pinnable
        then (err policy_violation, d)
        else (ok tt, put d region_id (record e { meta = record (e.meta) { pinned = true } }))
  ]

  unfoldable pub unpin : RegionDirectory M → ℕ → Result (Unit {0}) × RegionDirectory M
  unpin d region_id = elim (entry d region_id) [
    | none ↦ (err (region_not_found region_id), d)
    | some e ↦ (ok tt, put d region_id (record e { meta = record (e.meta) { pinned = false } }))
  ]

  unfoldable pub bump_generation : RegionDirectory M → ℕ → Result ℕ × RegionDirectory M
  bump_generation d region_id = elim (entry d region_id) [
    | none ↦ (err (region_not_found region_id), d)
    | some e ↦
        let next = next_generation e.meta.generation in
        (ok next, put d region_id (record e { meta = record (e.meta) { generation = next } }))
  ]

module _ {M : Type 0} (mem : MemoryRegion M) where
  -- What `read` and the source side of a copy do with the entry. A failure changes nothing.
  unfoldable pub read_entry : RegionEntry M → ℕ → ℕ → Result (List ℕ × RegionEntry M)
  read_entry e offset n = do
    m ← ok_or e.memory not_resident
    last ← ok_or (checked_add32 offset (n % u32_mod)) out_of_bounds
    if ltb e.meta.capacity last then err out_of_bounds else do
      bytes ← mem.read m offset n
      ok (bytes, record e { metrics = record_read e.metrics n })

  -- What `write` and the target side of a copy do with the entry.
  unfoldable pub write_entry : RegionEntry M → ℕ → List ℕ → Result (Unit {0}) × RegionEntry M
  write_entry e offset bytes = elim e.memory [
    | none ↦ (err not_resident, e)
    | some m ↦ elim (checked_add32 offset (length bytes % u32_mod)) [
      | none ↦ (err out_of_bounds, e)
      | some last ↦
          if ltb e.meta.capacity last
          then (err out_of_bounds, e)
          else let (r, m') = mem.write m offset bytes in
            elim r [
              | err x ↦ (err x, record e { memory = some m' })
              | ok _ ↦ (
                ok tt,
                record e { memory = some m'; metrics = record_write e.metrics (length bytes) },
              )
            ]
    ]
  ]

  -- The bytes read stand for the caller's buffer of `n` bytes.
  unfoldable pub read : RegionDirectory M → Handle → ℕ → Result (List ℕ) × RegionDirectory M
  read d handle n = elim (validate d handle) [
    | err x ↦ (err x, d)
    | ok e ↦ elim (read_entry e handle.offset n) [
      | err x ↦ (err x, d)
      | ok (bytes, e') ↦ (ok bytes, put d handle.region_id e')
    ]
  ]

  unfoldable pub write : RegionDirectory M → Handle → List ℕ → Result (Unit {0}) × RegionDirectory M
  write d handle bytes = elim (validate d handle) [
    | err x ↦ (err x, d)
    | ok e ↦ let (r, e') = write_entry e handle.offset bytes in (r, put d handle.region_id e')
  ]

  unfoldable pub cross_region_copy :
      RegionDirectory M → ℕ → ℕ → ℕ → ℕ → ℕ → Result (Unit {0}) × RegionDirectory M
  cross_region_copy d src_region src_offset dst_region dst_offset n = elim (entry d src_region) [
    | none ↦ (err (region_not_found src_region), d)
    | some s ↦ elim (read_entry s src_offset n) [
      | err x ↦ (err x, d)
      | ok (buf, s') ↦
          let d' = put d src_region s' in
          elim (entry d' dst_region) [
            | none ↦ (err (region_not_found dst_region), d')
            | some t ↦ let (r, t') = write_entry t dst_offset buf in (r, put d' dst_region t')
          ]
    ]
  ]

  unfoldable pub read_into :
      RegionDirectory M → Handle → ℕ → ℕ → ℕ → Result (Unit {0}) × RegionDirectory M
  read_into d src dst_region dst_offset n = elim (validate d src) [
    | err x ↦ (err x, d)
    | ok _ ↦ cross_region_copy d src.region_id src.offset dst_region dst_offset n
  ]

  unfoldable pub write_from :
      RegionDirectory M → ℕ → ℕ → Handle → ℕ → Result (Unit {0}) × RegionDirectory M
  write_from d src_region src_offset dst n = elim (validate d dst) [
    | err x ↦ (err x, d)
    | ok _ ↦ cross_region_copy d src_region src_offset dst.region_id dst.offset n
  ]
