-- ===== src/Guest.antt =====
-- `GuestDirectory` of crates/tvm-guest-mm/src/directory.rs: regions that are placed in the pools of a
-- guest's memories. The helper that copies within a pool is a parameter, with the state of the pools.
pub mod Packing
pub mod Entries
pub mod Facade
pub mod Exclusive
pub mod Isolation
pub mod Numbering
pub mod Placement
pub mod Pools
use tvm_wasm.Base.{
  ℕ, zero, suc, ◌+◌, ◌-◌, ◌%◌, ◌/◌, Bool, true, false, not, ltb, leb, ◌==◌, ◌||◌, if◌then◌else◌,
  List, [], ◌∷◌, ◌++◌, Option, none, some, length, get_elem?, set, Result, TvmError, ok, err, ok_or,
  ◌>>=◌, region_not_found, stale_handle, out_of_bounds, allocation_failed, pinned, policy_violation,
  unsupported_allocator, add32, sub32, checked_add32, u16_mod, u32_mod,
}
use tvm_wasm.Handle.{Handle}
use tvm_wasm.Region.{Region, RegionKind, Residency, hot, warm, cold, external, for_kind}
use tvm_wasm.Allocator.{RegionAllocator, AllocatorKind}
use tvm_wasm.Allocator
use tvm_wasm.Allocator.Blocks.{Block, insert}
use tvm_wasm.Directory.Access.{next_generation}
use tvm_wasm.Directory.Compact.{HandleRemap}

pub record Pool : Type 0 where
  pub memory_index : ℕ
  pub used : ℕ
  pub capacity : ℕ

pub record GuestEntry : Type 0 where
  pub meta : Region
  pub pool_index : ℕ
  pub base_offset : ℕ
  pub allocator : RegionAllocator

pub record GuestDirectory : Type 0 where
  pub pools : List Pool
  pub slots : List (Option GuestEntry)
  pub next_id : ℕ
  pub cursor_hot : ℕ
  pub cursor_warm : ℕ

abbrev pub new : List Pool → GuestDirectory
new pools = record {
  pools = pools;
  slots = none ∷ [];
  next_id = 1;
  cursor_hot = 0;
  cursor_warm = 0;
}

-- One band of pools, from `offset` on while `left` of its `span` pools are to be tried. What is found
-- is the index of the pool and the cursor after it.
unfoldable pub scan_band : List Pool → ℕ → ℕ → ℕ → ℕ → ℕ → ℕ → Option (ℕ × ℕ)
scan_band pools capacity lo span cursor offset zero = none
scan_band pools capacity lo span cursor offset (suc left) =
    let idx = add32 lo (add32 cursor offset % span) in
    elim (get_elem? pools idx) [
      | none ↦ none
      | some pool ↦
          if leb capacity (sub32 pool.capacity pool.used)
          then some (idx, add32 (add32 cursor offset) 1 % span)
          else scan_band pools capacity lo span cursor (suc offset) left
    ]

abbrev pub prefers_hot : Residency → Bool
prefers_hot hot = true
prefers_hot external = true
prefers_hot _ = false

-- The low band, up to the middle, and the high band, from there on, each with its cursor.
abbrev pub try_hot : GuestDirectory → ℕ → ℕ → Option (ℕ × GuestDirectory)
try_hot g capacity mid = elim (scan_band g.pools capacity 0 mid g.cursor_hot 0 mid) [
  | none ↦ none
  | some (idx, cursor) ↦ some (idx, record g { cursor_hot = cursor })
]

abbrev pub try_warm : GuestDirectory → ℕ → ℕ → ℕ → Option (ℕ × GuestDirectory)
try_warm g capacity mid n =
    elim (scan_band g.pools capacity mid (n - mid) g.cursor_warm 0 (n - mid)) [
      | none ↦ none
      | some (idx, cursor) ↦ some (idx, record g { cursor_warm = cursor })
    ]

abbrev pub first_of {ℓ} : {A : Type ℓ} → Option A → Option A → Option A
first_of none b = b
first_of (some a) b = some a

unfoldable pub choose_pool : GuestDirectory → ℕ → Residency → Result (ℕ × GuestDirectory)
choose_pool g capacity residency =
    let n = length g.pools % u32_mod in
    let mid = (n + 1) / 2 in
    if n == 0
    then err allocation_failed
    else if prefers_hot residency
    then ok_or (first_of (try_hot g capacity mid) (try_warm g capacity mid n)) allocation_failed
    else ok_or (first_of (try_warm g capacity mid n) (try_hot g capacity mid)) allocation_failed

-- The entry of a region that is placed at `base_offset` of a pool.
abbrev pub placed_entry : ℕ → RegionKind → ℕ → AllocatorKind → ℕ → ℕ → GuestEntry
placed_entry id kind capacity allocator pool_index base_offset =
    let policy = for_kind kind in
    record {
      meta = record {
        id = id;
        generation = 1;
        capacity = capacity;
        used = 0;
        kind = kind;
        residency = policy.initial_residency;
        pinned = false;
        pinnable = policy.pinnable;
        spillable = false;
      };
      pool_index = pool_index;
      base_offset = base_offset;
      allocator = Allocator.new allocator capacity;
    }

-- The id is taken before a pool is looked for, and stays taken when there is none.
unfoldable pub create_region :
    GuestDirectory → RegionKind → ℕ → AllocatorKind → Result ℕ × GuestDirectory
unfolding for_kind
create_region g kind capacity allocator =
    let id = g.next_id in
    if not (ltb (id + 1) u16_mod)
    then (err allocation_failed, g)
    else let g1 = record g { next_id = id + 1 } in
      elim (choose_pool g1 capacity ((for_kind kind).initial_residency)) [
        | err x ↦ (err x, g1)
        | ok (pool_index, g2) ↦ elim (get_elem? g2.pools pool_index) [
          | none ↦ (err allocation_failed, g2)
          | some pool ↦ elim (checked_add32 pool.used capacity) [
            | none ↦ (err allocation_failed, g2)
            | some used' ↦ (
              ok id,
              record g2 {
                pools = set g2.pools pool_index (record pool { used = used' });
                slots =
                    g2.slots
                    ++ some (placed_entry id kind capacity allocator pool_index pool.used) ∷ [];
              },
            )
          ]
        ]
      ]

abbrev pub occupied : Option (Option GuestEntry) → Option GuestEntry
occupied none = none
occupied (some slot) = slot

unfoldable pub entry : GuestDirectory → ℕ → Option GuestEntry
entry g region_id = occupied (get_elem? g.slots region_id)

unfoldable pub put : GuestDirectory → ℕ → GuestEntry → GuestDirectory
put g region_id e = record g { slots = set g.slots region_id (some e) }

unfoldable pub alloc : GuestDirectory → ℕ → ℕ → Result Handle × GuestDirectory
alloc g region_id size = elim (entry g region_id) [
  | none ↦ (err (region_not_found region_id), g)
  | some e ↦ elim (Allocator.alloc e.allocator size 1) [
    | err x ↦ (err x, g)
    | ok (offset, allocator') ↦ (
      ok (record { region_id = region_id; generation = e.meta.generation; offset = offset }),
      put g region_id (record e {
        meta = record (e.meta) { used = Allocator.used allocator' };
        allocator = allocator';
      }),
    )
  ]
]

unfoldable pub dealloc : GuestDirectory → Handle → Result (Unit {0}) × GuestDirectory
dealloc g handle = elim (entry g handle.region_id) [
  | none ↦ (err (region_not_found handle.region_id), g)
  | some e ↦
      if not (e.meta.generation == handle.generation)
      then (err stale_handle, g)
      else elim (Allocator.dealloc e.allocator handle.offset) [
        | err x ↦ (err x, g)
        | ok (_, allocator') ↦ (
          ok tt,
          put g handle.region_id (record e {
            meta = record (e.meta) { used = Allocator.used allocator' };
            allocator = allocator';
          }),
        )
      ]
]

-- The pool, and the offset in it.
unfoldable pub resolve : GuestDirectory → Handle → Result (ℕ × ℕ)
resolve g handle = elim (entry g handle.region_id) [
  | none ↦ err (region_not_found handle.region_id)
  | some e ↦ if not (e.meta.generation == handle.generation) then err stale_handle else do
    absolute ← ok_or (checked_add32 e.base_offset handle.offset) out_of_bounds
    ok (e.pool_index, absolute)
]

unfoldable pub region_info : GuestDirectory → ℕ → Result Region
region_info g region_id = elim (entry g region_id) [
  | none ↦ err (region_not_found region_id)
  | some e ↦ ok e.meta
]

unfoldable pub pin : GuestDirectory → ℕ → Result (Unit {0}) × GuestDirectory
pin g region_id = elim (entry g region_id) [
  | none ↦ (err (region_not_found region_id), g)
  | some e ↦
      if not e.meta.pinnable
      then (err policy_violation, g)
      else (ok tt, put g region_id (record e { meta = record (e.meta) { pinned = true } }))
]

-- The helpers of the guest's module, over the state of its pools.
pub record Dispatch (P : Type 0) : Type 0 where
  pub read_bytes : P → ℕ → ℕ → ℕ → Result (List ℕ)
  pub write_bytes : P → ℕ → ℕ → List ℕ → Result (Unit {0}) × P
  pub intra_pool_copy : P → ℕ → ℕ → ℕ → ℕ → Result (Unit {0}) × P

-- What the walk over the blocks has built.
pub record Walk : Type 0 where
  pub mapping : List Block
  pub new_blocks : List Block
  pub cursor : ℕ

abbrev pub walk_start : Walk
walk_start = record { mapping = []; new_blocks = []; cursor = 0 }

module _ {P : Type 0} (dispatch : Dispatch P) where
  -- A block that lies where it should is not copied.
  unfoldable pub slide : ℕ → ℕ → Walk → ℕ → ℕ → P → Result (Unit {0}) × P
  slide pool base w old_off size p =
      if old_off == w.cursor
      then (ok tt, p)
      else dispatch.intra_pool_copy p pool (add32 base w.cursor) (add32 base old_off) size

  -- The loop of `compact_region`. The copies that were made stay made when a later one fails.
  unfoldable pub walk_blocks : ℕ → ℕ → List Block → Walk → P → Result Walk × P
  walk_blocks pool base [] w p = (ok w, p)
  walk_blocks pool base ((old_off, size) ∷ rest) w p =
      let (r, p') = slide pool base w old_off size p in
      elim r [
        | err x ↦ (err x, p')
        | ok _ ↦ elim (checked_add32 w.cursor size) [
          | none ↦ (err allocation_failed, p')
          | some cursor' ↦
              walk_blocks pool base rest
                (record {
                  mapping = insert old_off w.cursor w.mapping;
                  new_blocks = w.new_blocks ++ (w.cursor, size) ∷ [];
                  cursor = cursor';
                })
                p'
        ]
      ]

  abbrev pub compacted : GuestEntry → Walk → GuestEntry
  compacted e w =
      let allocator' = Allocator.rebuild_after_compact e.allocator w.new_blocks e.meta.capacity in
      record e {
        meta = record (e.meta) {
          generation = next_generation e.meta.generation;
          used = Allocator.used allocator';
        };
        allocator = allocator';
      }

  unfoldable pub compact_region : GuestDirectory → ℕ → P → Result HandleRemap × P × GuestDirectory
  compact_region g region_id p = elim (entry g region_id) [
    | none ↦ (err (region_not_found region_id), p, g)
    | some e ↦
        if e.meta.pinned
        then (err pinned, p, g)
        else elim (Allocator.allocated_blocks e.allocator) [
          | none ↦ (err unsupported_allocator, p, g)
          | some blocks ↦
              let (r, p') = walk_blocks e.pool_index e.base_offset blocks walk_start p in
              elim r [
                | err x ↦ (err x, p', g)
                | ok w ↦ (
                  ok (record {
                    region_id = region_id;
                    old_generation = e.meta.generation;
                    new_generation = next_generation e.meta.generation;
                    mapping = w.mapping;
                  }),
                  p',
                  put g region_id (compacted e w),
                )
              ]
        ]
  ]
