-- ===== src/Directory/Slices.antt =====
-- crates/tvm-core/src/directory_slices.rs: the slices of a region's bytes that the host reads
-- without a copy. `usize` has 64 bits, so that the sum of two `u32` does not overflow it.
use native.Mathlib.Decide.{dec_lt}
use tvm_wasm.Base.{
  ℕ, ◌+◌, ◌%◌, ◌<◌, ◌≡◌, refl, ◌⊎◌, inl, inr, false, List, Option, none, some, length, take, drop,
  ltb, if◌then◌else◌, Result, ok, err, region_not_found, out_of_bounds, not_resident, u32_mod,
  arith,
}
use tvm_wasm.Handle.{Handle}
use tvm_wasm.Region.{record_read, hot}
use tvm_wasm.Memory.{VecBackedRegion, vec_memory, vec_read}
use tvm_wasm.Directory.{RegionDirectory, RegionEntry, entry, put}
use tvm_wasm.Directory.Access.{validate, read_entry, read}
use tvm_wasm.Directory.Invariant.{entry-put_self}
use tvm_wasm.Directory.Tiers.{restore_region}

-- `&bytes[start..end]`; `none` is the panic of a range beyond the end.
abbrev pub index_range : List ℕ → ℕ → ℕ → Option (List ℕ)
index_range bytes start n =
    if ltb (length bytes) (start + n) then none else some (take n (drop start bytes))

-- `none` is a panic.
unfoldable pub region_slice_at :
    RegionDirectory VecBackedRegion
    → Handle
    → ℕ
    → Option (Result (List ℕ) × RegionDirectory VecBackedRegion)
region_slice_at d handle n = elim (validate d handle) [
  | err x ↦ some (err x, d)
  | ok e ↦ elim e.memory [
    | none ↦ some (err not_resident, d)
    | some m ↦
        if ltb e.meta.capacity (handle.offset + n)
        then some (err out_of_bounds, d)
        else elim (index_range m.bytes handle.offset n) [
          | none ↦ none
          | some bytes ↦
              some
                (ok bytes, put d handle.region_id (record e { metrics = record_read e.metrics n }))
        ]
  ]
]

-- `none` is a panic.
unfoldable pub region_full_slice : RegionDirectory VecBackedRegion → ℕ → Option (Result (List ℕ))
region_full_slice d region_id = elim (entry d region_id) [
  | none ↦ some (err (region_not_found region_id))
  | some e ↦ elim e.memory [
    | none ↦ some (err not_resident)
    | some m ↦ elim (index_range m.bytes 0 e.meta.capacity) [
      | none ↦ none
      | some bytes ↦ some (ok bytes)
    ]
  ]
]

-- For a region whose bytes, while it is resident, are as long as its u32 capacity, a slice of a
-- u32 length at a valid handle never panics, gives what `read` gives and leaves what `read`
-- leaves.
pub region_slice_at-read :
    (d : RegionDirectory VecBackedRegion) (h : Handle) (e : RegionEntry VecBackedRegion) (n : ℕ)
    → validate d h ≡ ok e
    → e.meta.capacity < u32_mod
    → (e.memory ≡ none)
      ⊎ ((m : VecBackedRegion) × (e.memory ≡ some m) × (length m.bytes ≡ e.meta.capacity))
    → n < u32_mod
    → region_slice_at d h n ≡ some (read vec_memory d h n)
unfolding region_slice_at read read_entry vec_read
region_slice_at-read d h e n valid small (inl away) fits = ground arith
region_slice_at-read d h e n valid small (inr (m, here, full)) fits =
    elim (dec_lt e.meta.capacity (h.offset + n)) [
      | yes beyond ↦ ground arith
      | no within ↦ ground arith
    ]

region_full_slice_short :
    (d : RegionDirectory VecBackedRegion) (id : ℕ) (f : RegionEntry VecBackedRegion)
    (m : VecBackedRegion)
    → entry d id ≡ some f
    → f.memory ≡ some m
    → length m.bytes < f.meta.capacity
    → region_full_slice d id ≡ none
unfolding region_full_slice
region_full_slice_short d id f m at here short = ground arith

-- A `restore_region` from a file that is shorter than the region's u32 capacity succeeds, and a
-- slice of the whole region afterwards panics.
pub region_full_slice-restore_region :
    (d : RegionDirectory VecBackedRegion) (id : ℕ) (e : RegionEntry VecBackedRegion)
    (bytes : List ℕ)
    → entry d id ≡ some e
    → e.meta.capacity < u32_mod
    → length bytes < e.meta.capacity
    → ((restore_region vec_memory d id (ok bytes)).0 ≡ ok tt)
      × (region_full_slice (restore_region vec_memory d id (ok bytes)).1 id ≡ none)
unfolding restore_region
region_full_slice-restore_region d id e bytes at small short =
    let f = record e {
      meta = record (e.meta) { residency = hot };
      memory = some (vec_memory.restore bytes);
    } in
    let hit : entry (put d id f) id ≡ some f = entry-put_self d id e f at in
    let fits : ltb e.meta.capacity (length bytes % u32_mod) ≡ false = ground arith in
    rw (at, restore_region, fits)
      (refl, region_full_slice_short (put d id f) id f (vec_memory.restore bytes) hit refl short)
