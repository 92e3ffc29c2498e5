-- ===== src/Guest/Placement.antt =====
-- Where the regions of crates/tvm-guest-mm/src/directory.rs lie in their pools.
pub mod Calls
use native.Mathlib.Decide.{ℕ_discrete}
use tvm_wasm.Base.{
  ℕ, zero, suc, ◌+◌, ◌-◌, ◌≡◌, ◌≢◌, ◌≤◌, ◌<◌, refl, sym, ap, subst, ◌∙◌, ◌⊎◌, inl, inr, true, false,
  ltb, ◌==◌, Bool-cases, Option-cases, Result-cases, List, [], ◌∷◌, ◌++◌, Option, none, some,
  some-inj, length, get_elem?, set, All, TvmError, Result, ok, err, checked_add32, sub32, u16_mod,
  u32_mod, arith, get_elem?-set_self, get_elem?-set_ne, get_elem?-some_lt,
}
use tvm_wasm.Handle.{Handle}
use tvm_wasm.Region.{Region, RegionKind, for_kind}
use tvm_wasm.Allocator.{RegionAllocator, AllocatorKind, bump, freelist, slab}
use tvm_wasm.Allocator
use tvm_wasm.Allocator.Sound.{
  IsAllocator, KindFits, new-IsAllocator, alloc-IsAllocator, dealloc-IsAllocator,
}
use tvm_wasm.Guest.{
  GuestDirectory, GuestEntry, Pool, choose_pool, placed_entry, create_region, alloc, dealloc, pin,
  resolve, entry, put, occupied,
}
use tvm_wasm.Guest.Pools.{choose_pool-Chosen}
use tvm_wasm.Guest.Entries.{entry-lt, entry-put_self, entry-put_cases}

-- Two ranges with no byte in common.
abbrev pub Apart : ℕ → ℕ → ℕ → ℕ → Type 0
Apart a m b n = (a + m ≤ b) ⊎ (b + n ≤ a)

-- A region within the used part of its pool, with a valid allocator.
pub record Fits (g : GuestDirectory) (e : GuestEntry) : Type 0 where
  pub pool : Pool
  pub at : get_elem? g.pools e.pool_index ≡ some pool
  pub within : e.base_offset + e.meta.capacity ≤ pool.used
  pub sound : IsAllocator e.meta.capacity e.allocator

-- No pool holds more than its capacity, and no two regions share a byte.
pub record IsPlaced (g : GuestDirectory) : Type 0 where
  pub pools_fit :
      (i : ℕ) (p : Pool)
      → get_elem? g.pools i ≡ some p
      → (p.used ≤ p.capacity) × (p.capacity < u32_mod)
  pub fits : (id : ℕ) (e : GuestEntry) → entry g id ≡ some e → Fits g e
  pub apart :
      (i j : ℕ) (e f : GuestEntry)
      → entry g i ≡ some e
      → entry g j ≡ some f
      → i ≢ j
      → e.pool_index ≡ f.pool_index
      → Apart e.base_offset e.meta.capacity f.base_offset f.meta.capacity

-- The same pools and slots, with other counters.
pub same-IsPlaced :
    (g g' : GuestDirectory) → IsPlaced g → g'.pools ≡ g.pools → g'.slots ≡ g.slots → IsPlaced g'
unfolding entry
same-IsPlaced g g' v pools slots =
    let there : (id : ℕ) → entry g' id ≡ entry g id =
      λ id. ap (λ s. occupied (get_elem? s id)) slots in
    record {
      pools_fit = λ i p at. v.pools_fit i p (ap (λ q. get_elem? q i) (sym pools) ∙ at);
      fits = λ id e at.
          let w = v.fits id e (sym (there id) ∙ at) in
          record {
            pool = w.pool;
            at = ap (λ q. get_elem? q e.pool_index) pools ∙ w.at;
            within = w.within;
            sound = w.sound;
          };
      apart = λ i j e f ei fj. v.apart i j e f (sym (there i) ∙ ei) (sym (there j) ∙ fj);
    }

-- An entry that keeps its place and has a valid allocator.
pub put-IsPlaced :
    (g : GuestDirectory) (id : ℕ) (e f : GuestEntry)
    → IsPlaced g
    → entry g id ≡ some e
    → f.pool_index ≡ e.pool_index
    → f.base_offset ≡ e.base_offset
    → f.meta.capacity ≡ e.meta.capacity
    → IsAllocator f.meta.capacity f.allocator
    → IsPlaced (put g id f)
put-IsPlaced g id e f v at pool base cap sound =
    let w = v.fits id e at in
    let mine : Fits g f = record {
      pool = w.pool;
      at = ap (get_elem? g.pools) pool ∙ w.at;
      within = omega (arith, w.within);
      sound = sound;
    } in
    let old : (j : ℕ) (x : GuestEntry)
        → entry (put g id f) j ≡ some x
        → (y : GuestEntry) × (entry g j ≡ some y)
          × (x.pool_index ≡ y.pool_index)
          × (x.base_offset ≡ y.base_offset)
          × (x.meta.capacity ≡ y.meta.capacity) =
      λ j x now. elim (entry-put_cases g id j e f x at now) [
        | inl (here, same) ↦ (
          e,
          ap (entry g) (sym here) ∙ at,
          ap (λ y. y.pool_index) (sym same) ∙ pool,
          ap (λ y. y.base_offset) (sym same) ∙ base,
          ap (λ y. y.meta.capacity) (sym same) ∙ cap,
        )
        | inr (other, before) ↦ (x, before, refl, refl, refl)
      ] in
    record {
      pools_fit = unfold put in v.pools_fit;
      fits = λ j x now.
          let u : Fits g x = elim (entry-put_cases g id j e f x at now) [
            | inl (here, same) ↦ subst (Fits g) same mine
            | inr (other, before) ↦ v.fits j x before
          ] in
          record { pool = u.pool; at = unfold put in u.at; within = u.within; sound = u.sound };
      apart = λ i j x y xi yj other same_pool.
          let (a, ai, pa, ba, ca) = old i x xi in
          let (b, bj, pb, bb, cb) = old j y yj in
          let r = v.apart i j a b ai bj other (sym pa ∙ same_pool ∙ pb) in
          elim r [
            | inl before ↦ inl (omega (arith, ba, bb, ca, cb, before))
            | inr after ↦ inr (omega (arith, ba, bb, ca, cb, after))
          ];
    }

-- The slots with one more entry.
entry-push :
    (slots : List (Option GuestEntry)) (e f : GuestEntry) (j : ℕ)
    → occupied (get_elem? (slots ++ some e ∷ []) j) ≡ some f
    → (occupied (get_elem? slots j) ≡ some f) ⊎ ((j ≡ length slots) × (f ≡ e))
entry-push [] e f zero h = ground arith
entry-push [] e f (suc j) h = absurd (ground arith)
entry-push (x ∷ slots) e f zero h = inl h
entry-push (x ∷ slots) e f (suc j) h = ground (arith, entry-push slots e f j h)
