-- ===== src/Guest/Exclusive.antt =====
-- The bytes that a handle of a `GuestDirectory` (crates/tvm-guest-mm/src/directory.rs) stands for.
use native.Mathlib.Decide.{ℕ_discrete}
use tvm_wasm.Base.{
  ℕ, ◌+◌, ◌≡◌, ◌≢◌, ◌≤◌, sym, subst, ◌∙◌, ◌⊎◌, inl, inr, Option-cases, Result-cases, none, some,
  get_elem?, Result, ok, err, checked_add32, arith,
}
use tvm_wasm.Handle.{Handle}
use tvm_wasm.Allocator.{RegionAllocator, AllocatorKind, bump, freelist, slab}
use tvm_wasm.Allocator
use tvm_wasm.Allocator.Sound.{alloc-IsAllocator}
use tvm_wasm.Guest.{
  GuestDirectory, GuestEntry, Pool, Dispatch, Walk, walk_start, slide, walk_blocks, compacted,
  resolve, entry, put,
}
use tvm_wasm.Guest
use tvm_wasm.Guest.Entries.{entry-put_self, entry-put_ne}
use tvm_wasm.Guest.Placement.{IsPlaced, Apart}

-- No byte from `abs` on of pool `i` belongs to the region `j`, unless `j` is `id`.
abbrev pub Elsewhere : GuestDirectory → ℕ → ℕ → ℕ → ℕ → ℕ → Type 0
Elsewhere g id j i abs size =
    (j ≡ id)
    ⊎ (entry g j ≡ none)
    ⊎ ((f : GuestEntry) × (entry g j ≡ some f)
        × ((i ≢ f.pool_index) ⊎ Apart abs size f.base_offset f.meta.capacity))

-- A handle resolves to `size` bytes of the region `id`, which lies in the used part of its pool, and
-- none of them is a byte of the region `j`.
abbrev pub Exclusive : GuestDirectory → Handle → ℕ → ℕ → ℕ → Type 0
Exclusive g h size id j =
    (abs : ℕ) × (pool : Pool) × (e : GuestEntry) × (entry g id ≡ some e)
    × (resolve g h ≡ ok (e.pool_index, abs))
    × (get_elem? g.pools e.pool_index ≡ some pool)
    × (e.base_offset ≤ abs)
    × (abs + size ≤ e.base_offset + e.meta.capacity)
    × (e.base_offset + e.meta.capacity ≤ pool.used)
    × (pool.used ≤ pool.capacity)
    × Elsewhere g id j e.pool_index abs size

abbrev AtResult : ℕ → ℕ → ℕ → Result Handle × GuestDirectory → Type 0
AtResult size id j (ok h, g) = Exclusive g h size id j
AtResult size id j (err x, g) = Unit {0}

-- Bytes of one region are elsewhere for every other one, also after a change of the first.
put-Elsewhere :
    (g : GuestDirectory) (id j off size : ℕ) (e e' : GuestEntry)
    → IsPlaced g
    → entry g id ≡ some e
    → off + size ≤ e.meta.capacity
    → Elsewhere (put g id e') id j e.pool_index (e.base_offset + off) size
put-Elsewhere g id j off size e e' v at ends = elim (ℕ_discrete id j) [
  | yes same ↦ inl (sym same)
  | no other ↦
      let kept = entry-put_ne g id j e' other in
      elim (Option-cases (entry g j)) [
        | inl gone ↦ inr (inl (kept ∙ gone))
        | inr (f, there) ↦ inr (
            inr (
              f,
              kept ∙ there,
              elim (ℕ_discrete e.pool_index f.pool_index) [
                | no away ↦ inl away
                | yes same ↦ elim (v.apart id j e f at there other same) [
                  | inl left ↦ inr (inl (omega (arith, left, ends)))
                  | inr right ↦ inr (inr (omega (arith, right)))
                ]
              ],
            ))
      ]
]

-- A handle that `alloc` of the directory grants.
pub alloc-Exclusive :
    (g : GuestDirectory) (id size j : ℕ) (h : Handle) (g' : GuestDirectory)
    → IsPlaced g
    → Guest.alloc g id size ≡ (ok h, g')
    → Exclusive g' h size id j
unfolding Guest.alloc resolve
alloc-Exclusive g id size j h g' v done = elim (Option-cases (entry g id)) [
  | inl gone ↦ absurd (ground arith)
  | inr (e, at) ↦ elim (Result-cases (Allocator.alloc e.allocator size 1)) [
    | inr (x, failed) ↦ absurd (ground arith)
    | inl ((off, a'), granted) ↦
        let e' : GuestEntry = record e {
          meta = record (e.meta) { used = Allocator.used a' };
          allocator = a';
        } in
        let h' : Handle = record { region_id = id; generation = e.meta.generation; offset = off } in
        let mine : Result Handle × GuestDirectory = (ok h', put g id e') in
        let theirs : Result Handle × GuestDirectory = (ok h, g') in
        let made : mine ≡ theirs = rw (Guest.alloc, at, granted) at done in
        let w = v.fits id e at in
        let (sound, ends, _) =
          alloc-IsAllocator e.meta.capacity e.allocator size 1 off a' w.sound (omega arith)
            granted in
        let (low, high) = v.pools_fit e.pool_index w.pool w.at in
        let sum : checked_add32 e.base_offset off ≡ some (e.base_offset + off) =
          ground (arith, ends, w.within, low, high) in
        let shown : Exclusive (put g id e') h' size id j = (
          e.base_offset + off,
          w.pool,
          e',
          entry-put_self g id e e' at,
          rw (resolve, entry-put_self g id e e' at, sum) ground arith,
          unfold put in w.at,
          omega arith,
          omega (arith, ends),
          w.within,
          low,
          put-Elsewhere g id j off size e e' v at ends,
        ) in
        subst (AtResult size id j) made shown
  ]
]
