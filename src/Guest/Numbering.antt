-- ===== src/Guest/Numbering.antt =====
-- The ids that `create_region` of crates/tvm-guest-mm/src/directory.rs gives, and the slots that it
-- fills, in the release profile, where the `debug_assert` on the two is left out.
use tvm_wasm.Base.{
  ℕ, ◌+◌, ◌≡◌, ◌≤◌, ◌<◌, refl, sym, ap, ◌⊎◌, inl, inr, ltb, Bool-cases, Option-cases, Result-cases,
  [], ◌∷◌, ◌++◌, some, get_elem?, TvmError, ok, err, checked_add32, u16_mod, arith,
}
use tvm_wasm.Region.{Region, RegionKind, for_kind}
use tvm_wasm.Allocator.{AllocatorKind}
use tvm_wasm.Guest.{GuestDirectory, GuestEntry, choose_pool, placed_entry, create_region}
use tvm_wasm.Guest.Pools.{choose_pool-Chosen}

-- What a call leaves when it succeeds.
pub record Created (g : GuestDirectory) (id : ℕ) (g' : GuestDirectory) : Type 0 where
  pub e : GuestEntry
  pub named : id ≡ g.next_id
  pub numbered : e.meta.id ≡ id
  pub fits : g.next_id + 1 < u16_mod
  pub next : g'.next_id ≡ g.next_id + 1
  pub pushed : g'.slots ≡ g.slots ++ some e ∷ []

pub create_region-Created :
    (g : GuestDirectory) (kind : RegionKind) (capacity : ℕ) (k : AllocatorKind) (id : ℕ)
    → (create_region g kind capacity k).0 ≡ ok id
    → Created g id (create_region g kind capacity k).1
unfolding create_region
create_region-Created g kind capacity k id done = elim (Bool-cases (ltb (g.next_id + 1) u16_mod)) [
  | inr full ↦ absurd (ground arith)
  | inl room ↦
      let g1 = record g { next_id = g.next_id + 1 } in
      elim (Result-cases (choose_pool g1 capacity ((for_kind kind).initial_residency))) [
        | inr (x, failed) ↦ absurd (ground arith)
        | inl ((i, g2), found) ↦
            let c = choose_pool-Chosen g1 capacity ((for_kind kind).initial_residency) i g2 found in
            elim (Option-cases (get_elem? g2.pools i)) [
              | inl gone ↦ absurd (ground arith)
              | inr (pool, at) ↦ elim (Option-cases (checked_add32 pool.used capacity)) [
                | inl over ↦ absurd (ground arith)
                | inr (last, sum) ↦
                    let named : id ≡ g.next_id = ground arith in
                    let e = placed_entry g.next_id kind capacity k i pool.used in
                    rw (room, create_region, found, at, sum)
                      (record {
                        e = e;
                        named = named;
                        numbered = sym named;
                        fits = ground arith;
                        next = c.same_next;
                        pushed = ap (λ s. s ++ some e ∷ []) c.same_slots;
                      })
              ]
            ]
      ]
]

-- A call that fails has used up an id, unless there is none left, and filled no slot.
pub create_region-failed :
    (g : GuestDirectory) (kind : RegionKind) (capacity : ℕ) (k : AllocatorKind) (x : TvmError)
    → (create_region g kind capacity k).0 ≡ err x
    → let g' = (create_region g kind capacity k).1 in
      (g'.slots ≡ g.slots)
      × (((g.next_id + 1 < u16_mod) × (g'.next_id ≡ g.next_id + 1))
          ⊎ ((u16_mod ≤ g.next_id + 1) × (g'.next_id ≡ g.next_id)))
unfolding create_region
create_region-failed g kind capacity k x failed = elim (Bool-cases (ltb (g.next_id + 1) u16_mod)) [
  | inr full ↦ rw (full, create_region) (refl, inr (ground arith, refl))
  | inl room ↦
      let g1 = record g { next_id = g.next_id + 1 } in
      let fits : g.next_id + 1 < u16_mod = ground arith in
      elim (Result-cases (choose_pool g1 capacity ((for_kind kind).initial_residency))) [
        | inr (y, none_fits) ↦ rw (room, create_region, none_fits) (refl, inl (fits, refl))
        | inl ((i, g2), found) ↦
            let c = choose_pool-Chosen g1 capacity ((for_kind kind).initial_residency) i g2 found in
            elim (Option-cases (get_elem? g2.pools i)) [
              | inl gone ↦
                  rw (room, create_region, found, gone) (c.same_slots, inl (fits, c.same_next))
              | inr (pool, at) ↦ elim (Option-cases (checked_add32 pool.used capacity)) [
                | inl over ↦
                    rw (room, create_region, found, at, over)
                      (c.same_slots, inl (fits, c.same_next))
                | inr (last, sum) ↦ absurd (ground arith)
              ]
            ]
      ]
]
