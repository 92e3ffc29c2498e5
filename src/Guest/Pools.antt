-- ===== src/Guest/Pools.antt =====
-- The choice of a pool by `choose_pool` of crates/tvm-guest-mm/src/directory.rs.
use tvm_wasm.Base.{
  ℕ, zero, suc, ◌+◌, ◌-◌, ◌%◌, ◌/◌, ◌≡◌, ◌≤◌, sym, ◌∙◌, ◌⊎◌, inl, inr, Bool-cases, Option-cases,
  List, Option, none, some, length, get_elem?, ok, ok_or, TvmError, ap, allocation_failed, ◌==◌,
  arith, sub32, add32, leb, u32_mod,
}
use tvm_wasm.Region.{Residency}
use tvm_wasm.Guest.{
  GuestDirectory, Pool, scan_band, try_hot, try_warm, first_of, prefers_hot, choose_pool,
}

-- A pool with room, in a directory of which only a cursor has moved.
pub record Chosen (g : GuestDirectory) (capacity i : ℕ) (g' : GuestDirectory) : Type 0 where
  pub pool : Pool
  pub at : get_elem? g.pools i ≡ some pool
  pub room : capacity ≤ sub32 pool.capacity pool.used
  pub same_slots : g'.slots ≡ g.slots
  pub same_pools : g'.pools ≡ g.pools
  pub same_next : g'.next_id ≡ g.next_id

scan_band-room :
    (pools : List Pool) (capacity lo span cursor offset left i c : ℕ)
    → scan_band pools capacity lo span cursor offset left ≡ some (i, c)
    → (pool : Pool) × (get_elem? pools i ≡ some pool) × (capacity ≤ sub32 pool.capacity pool.used)
unfolding scan_band
scan_band-room pools capacity lo span cursor offset zero i c done = absurd (ground arith)
scan_band-room pools capacity lo span cursor offset (suc left) i c done =
    let idx = add32 lo (add32 cursor offset % span) in
    elim (Option-cases (get_elem? pools idx)) [
      | inl gone ↦ absurd (ground arith)
      | inr (pool, at) ↦ elim (Bool-cases (leb capacity (sub32 pool.capacity pool.used))) [
        | inl room ↦
            let here : idx ≡ i = ground arith in
            (pool, ap (get_elem? pools) (sym here) ∙ at, ground arith)
        | inr full ↦
            scan_band-room pools capacity lo span cursor (suc offset) left i c (ground arith)
      ]
    ]

try_hot-Chosen :
    (g : GuestDirectory) (capacity mid i : ℕ) (g' : GuestDirectory)
    → try_hot g capacity mid ≡ some (i, g')
    → Chosen g capacity i g'
try_hot-Chosen g capacity mid i g' done =
    elim (Option-cases (scan_band g.pools capacity 0 mid g.cursor_hot 0 mid)) [
      | inl gone ↦ absurd (ground arith)
      | inr ((j, c), found) ↦
          let same : j ≡ i = ground arith in
          let (pool, at, room) =
            scan_band-room g.pools capacity 0 mid g.cursor_hot 0 mid j c found in
          record {
            pool = pool;
            at = ap (get_elem? g.pools) (sym same) ∙ at;
            room = room;
            same_slots = ground arith;
            same_pools = ground arith;
            same_next = ground arith;
          }
    ]

try_warm-Chosen :
    (g : GuestDirectory) (capacity mid n i : ℕ) (g' : GuestDirectory)
    → try_warm g capacity mid n ≡ some (i, g')
    → Chosen g capacity i g'
try_warm-Chosen g capacity mid n i g' done =
    elim (Option-cases (scan_band g.pools capacity mid (n - mid) g.cursor_warm 0 (n - mid))) [
      | inl gone ↦ absurd (ground arith)
      | inr ((j, c), found) ↦
          let same : j ≡ i = ground arith in
          let (pool, at, room) =
            scan_band-room g.pools capacity mid (n - mid) g.cursor_warm 0 (n - mid) j c found in
          record {
            pool = pool;
            at = ap (get_elem? g.pools) (sym same) ∙ at;
            room = room;
            same_slots = ground arith;
            same_pools = ground arith;
            same_next = ground arith;
          }
    ]

first_of-some {ℓ} :
    {A : Type ℓ} (a b : Option A) (x : A) → first_of a b ≡ some x → (a ≡ some x) ⊎ (b ≡ some x)
first_of-some none b x e = inr e
first_of-some (some y) b x e = inl e

ok_or-ok {ℓ} : {A : Type ℓ} (a : Option A) (x : TvmError) (y : A) → ok_or a x ≡ ok y → a ≡ some y
ok_or-ok none x y e = absurd (ground arith)
ok_or-ok (some z) x y e = cc

-- A pool that is chosen has room for the region.
pub choose_pool-Chosen :
    (g : GuestDirectory) (capacity : ℕ) (r : Residency) (i : ℕ) (g' : GuestDirectory)
    → choose_pool g capacity r ≡ ok (i, g')
    → Chosen g capacity i g'
unfolding choose_pool
choose_pool-Chosen g capacity r i g' done =
    let n = length g.pools % u32_mod in
    let mid = (n + 1) / 2 in
    let hot_found = try_hot-Chosen g capacity mid i g' in
    let warm_found = try_warm-Chosen g capacity mid n i g' in
    elim (Bool-cases (n == 0)) [
      | inl empty ↦ absurd (ground arith)
      | inr some_pools ↦ elim (Bool-cases (prefers_hot r)) [
        | inl low ↦
            elim (first_of-some (try_hot g capacity mid) (try_warm g capacity mid n) (i, g')
              (ok_or-ok _ allocation_failed (i, g') (rw (some_pools, low) at done))) [
                | inl a ↦ hot_found a
                | inr b ↦ warm_found b
              ]
        | inr high ↦
            elim (first_of-some (try_warm g capacity mid n) (try_hot g capacity mid) (i, g')
              (ok_or-ok _ allocation_failed (i, g') (rw (some_pools, high) at done))) [
                | inl b ↦ warm_found b
                | inr a ↦ hot_found a
              ]
      ]
    ]
