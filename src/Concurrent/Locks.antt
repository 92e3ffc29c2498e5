-- ===== src/Concurrent/Locks.antt =====
-- The locks that the methods of crates/tvm-core/src/concurrent.rs take, in the order they take them, and
-- threads that run such methods side by side. A step of the system is one acquisition or one
-- release of one thread, whichever thread the schedule names.
pub mod Waiting
pub mod Ordered
pub mod Progress
use tvm_wasm.Base.{
  ℕ, zero, suc, ◌+◌, Bool, true, false, not, ltb, ◌==◌, ◌||◌, ◌&&◌, if◌then◌else◌, List, [], ◌∷◌,
  ◌++◌, Option, none, some, get_elem?, set,
}

-- A lock by its number: the table's, that of the list of Warm regions, and one for each region.
abbrev pub table_lock : ℕ
table_lock = 0

abbrev pub lru_lock : ℕ
lru_lock = 1

abbrev pub region_lock : ℕ → ℕ
region_lock region_id = region_id + 2

-- The flag says whether the lock is taken for one thread alone: a `Mutex`, or an `RwLock` to write.
pub data Action : Type 0 where
  acquire : ℕ → Bool → Action
  release : ℕ → Action

abbrev pub alone : ℕ → List Action
alone l = acquire l true ∷ release l ∷ []

-- `entry_arc` gives the lock back before the entry is locked.
abbrev pub entry_arc_locks : List Action
entry_arc_locks = acquire table_lock false ∷ release table_lock ∷ []

-- The methods by the locks they take. The flags are what the calls find: whether a region is there,
-- and whether the list of Warm regions has to be changed.
pub data Operation : Type 0 where
  create_region : Bool → Operation
  destroy_region : Bool → Operation
  on_region : ℕ → Bool → Operation
  spill_region : ℕ → Bool → Bool → Operation
  cross_region_copy : ℕ → Bool → ℕ → Bool → Operation
  list_regions : List ℕ → Operation

abbrev pub each_alone : List ℕ → List Action
each_alone [] = []
each_alone (id ∷ ids) = alone (region_lock id) ++ each_alone ids

-- The two regions of a copy, the lower id first. The guards go in the opposite order.
abbrev pub both_locks : ℕ → ℕ → List Action
both_locks src dst =
    let lo = region_lock (if ltb src dst then src else dst) in
    let hi = region_lock (if ltb src dst then dst else src) in
    acquire lo true ∷ acquire hi true ∷ release hi ∷ release lo ∷ []

-- `alloc`, `dealloc`, `read`, `write`, `region_info`, `metrics_snapshot`, `pin`, `unpin`,
-- `compact_region` and `load_region` are each an `on_region`; `demote_until` is a `list_regions`
-- and a `spill_region` for each candidate.
unfoldable pub locks : Operation → List Action
locks (create_region is_warm) = alone table_lock ++ (if is_warm then alone lru_lock else [])
locks (destroy_region found) = alone table_lock ++ (if found then alone lru_lock else [])
locks (on_region id found) = entry_arc_locks ++ (if found then alone (region_lock id) else [])
locks (spill_region id found moved) =
    entry_arc_locks
    ++ (if found then alone (region_lock id) else [])
    ++ (if found && moved then alone lru_lock else [])
locks (cross_region_copy src src_found dst dst_found) =
    entry_arc_locks
    ++ (if not src_found
        then []
        else if src == dst
        then alone (region_lock src)
        else entry_arc_locks ++ (if dst_found then both_locks src dst else []))
locks (list_regions ids) = entry_arc_locks ++ each_alone ids

-- The calls of a thread, one after the other.
unfoldable pub program : List Operation → List Action
program [] = []
program (o ∷ os) = locks o ++ program os

pub record Thread : Type 0 where
  pub held : List (ℕ × Bool)
  pub rest : List Action

abbrev pub start : List (List Operation) → List Thread
start [] = []
start (os ∷ oss) = record { held = []; rest = program os } ∷ start oss

-- A lock that is held keeps another thread out unless both share it.
abbrev pub held_against : ℕ → Bool → List (ℕ × Bool) → Bool
held_against l alone [] = false
held_against l alone ((k, only) ∷ held) = (k == l && (alone || only)) || held_against l alone held

unfoldable pub is_blocked : ℕ → Bool → List Thread → Bool
is_blocked l alone [] = false
is_blocked l alone (t ∷ ts) = held_against l alone t.held || is_blocked l alone ts

abbrev pub give_back : ℕ → List (ℕ × Bool) → List (ℕ × Bool)
give_back l [] = []
give_back l (h ∷ held) = let rest = give_back l held in if h.0 == l then rest else h ∷ rest

-- The next action of one thread, if there is one and the lock it needs is free.
unfoldable pub step : List Thread → ℕ → Option (List Thread)
step ts i = elim (get_elem? ts i) [
  | none ↦ none
  | some t ↦ elim (t.rest) [
    | [] ↦ none
    | action ∷ later ↦ elim action [
      | acquire l alone ↦
          if is_blocked l alone ts
          then none
          else some (set ts i (record { held = (l, alone) ∷ t.held; rest = later }))
      | release l ↦ some (set ts i (record { held = give_back l t.held; rest = later }))
    ]
  ]
]

-- The steps of a schedule; `none` when one of them cannot be taken.
unfoldable pub run : List ℕ → List Thread → Option (List Thread)
run [] ts = some ts
run (i ∷ schedule) ts = elim (step ts i) [ none ↦ none | some ts' ↦ run schedule ts' ]
