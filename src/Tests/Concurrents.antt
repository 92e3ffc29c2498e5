-- ===== src/Tests/Concurrents.antt =====
-- A concurrent directory of two regions, two threads that copy between them, and the theorems there.
use tvm_wasm.Base.{
  ℕ, ◌≡◌, ◌+◌, ◌<◌, u64_mod, refl, true, false, leb, List, [], ◌∷◌, some, ok, All, arith,
}
use tvm_wasm.Region.{object_arena, warm, hot, no_metrics}
use tvm_wasm.Memory.{VecBackedRegion, vec_memory, with_capacity}
use tvm_wasm.Allocator.{bump, freelist_kind}
use tvm_wasm.Directory.{RegionEntry}
use tvm_wasm.Concurrent.{ConcurrentDirectory, entry_arc, locked, list_regions}
use tvm_wasm.Concurrent.Tiers
use tvm_wasm.Concurrent.Demote.{
  EvictionReport, coldest_first, largest_first, insert_by, sort_by, candidates, total_resident,
  spill_each, demote_until,
}
use tvm_wasm.Concurrent.Table.{IsTable, resident}
use tvm_wasm.Concurrent.Report.{demote_until-report}
use tvm_wasm.Concurrent.Locks.{
  Operation, cross_region_copy, Thread, acquire, release, start, locks, program, is_blocked, step,
  run,
}
use tvm_wasm.Concurrent.Locks.Progress.{IsDone, run_finishes}
use tvm_wasm.Concurrent
use tvm_wasm.Directory
use tvm_wasm.Concurrent.Agrees.Calls.{
  Call, create, allocate, release, spill, load, compact, read_at, destroy,
}
use tvm_wasm.Concurrent.Agrees.Calls
use tvm_wasm.Concurrent.Agrees.Runs.{run_concurrent-run}
use tvm_wasm.Tests.Directories.{entry_0, one_file}

abbrev entry_2 : RegionEntry VecBackedRegion
entry_2 = record {
  meta = record {
    id = 1;
    generation = 1;
    capacity = 4;
    used = 3;
    kind = object_arena;
    residency = hot;
    pinned = false;
    pinnable = false;
    spillable = true;
  };
  memory = some (record { bytes = 7 ∷ 8 ∷ 9 ∷ 0 ∷ [] });
  metrics = no_metrics;
  allocator = bump (record { capacity = 4; used = 3 });
}

abbrev two_arcs : ConcurrentDirectory VecBackedRegion
two_arcs = record {
  entries = entry_0 ∷ entry_2 ∷ [];
  regions = some 0 ∷ some 1 ∷ [];
  warm_lru = 0 ∷ [];
}

-- The Warm region of 4 bytes goes; the Hot one of 3 bytes may stay.
abbrev one_spill : EvictionReport
one_spill = record { bytes_freed = 4; regions_spilled = 1; target_met = true }

abbrev left_over : ConcurrentDirectory VecBackedRegion
left_over = (demote_until vec_memory one_file two_arcs 3 (coldest_first largest_first) []).2

abbrev left_store : List ℕ
left_store = (demote_until vec_memory one_file two_arcs 3 (coldest_first largest_first) []).1

demoted_lem :
    demote_until vec_memory one_file two_arcs 3 (coldest_first largest_first) []
    ≡ (ok one_spill, left_store, left_over)
unfolding demote_until spill_each total_resident list_regions sort_by candidates insert_by
    Tiers.spill_region entry_arc locked
demoted_lem = refl

two_arcs_small : resident two_arcs < u64_mod
unfolding total_resident list_regions
two_arcs_small = omega arith

demote_until-report_example :
    IsTable left_over
    × (4 + resident left_over ≡ resident two_arcs)
    × (true ≡ leb (resident left_over) 3)
demote_until-report_example =
    demote_until-report vec_memory one_file two_arcs 3 (coldest_first largest_first) [] one_spill
      left_store left_over (refl, entry_0, refl, refl, (refl, entry_2, refl, refl, tt))
      two_arcs_small demoted_lem

-- A copy each way.
abbrev copies : List (List Operation)
copies = (cross_region_copy 0 true 1 true ∷ []) ∷ (cross_region_copy 1 true 0 true ∷ []) ∷ []

-- One thread has the first region and wants the second; the other one waits for the first.
abbrev midway : List Thread
midway =
    record { held = (2, true) ∷ []; rest = acquire 3 true ∷ release 3 ∷ release 2 ∷ [] }
    ∷ record { held = []; rest = acquire 2 true ∷ acquire 3 true ∷ release 3 ∷ release 2 ∷ [] }
    ∷ []

midway_lem : run (0 ∷ 0 ∷ 0 ∷ 0 ∷ 0 ∷ 1 ∷ 1 ∷ 1 ∷ 1 ∷ []) (start copies) ≡ some midway
unfolding run step program locks is_blocked
midway_lem = refl

run_finishes_example :
    (more : List ℕ) × (ts : List Thread) × (run more midway ≡ some ts) × All IsDone ts
run_finishes_example =
    run_finishes copies (0 ∷ 0 ∷ 0 ∷ 0 ∷ 0 ∷ 1 ∷ 1 ∷ 1 ∷ 1 ∷ []) midway
      (((omega arith, omega arith), tt), (((omega arith, omega arith), tt), tt)) midway_lem

-- A region that is filled, spilled, loaded, compacted and destroyed.
abbrev session : List (Call VecBackedRegion)
session =
    create object_arena 8 freelist_kind
      (record { initial_residency = warm; pinnable = false; spillable = true }) (with_capacity 8)
    ∷ allocate 0 2
    ∷ allocate 0 2
    ∷ release (record { region_id = 0; generation = 1; offset = 0 })
    ∷ spill 0
    ∷ load 0
    ∷ compact 0
    ∷ read_at (record { region_id = 0; generation = 2; offset = 0 }) 2
    ∷ destroy 0
    ∷ []

run_concurrent-run_example :
    ((Calls.run_concurrent vec_memory one_file session [] Concurrent.new).0
      ≡ (Calls.run vec_memory one_file session [] Directory.new).0)
    × ((Calls.run_concurrent vec_memory one_file session [] Concurrent.new).1
        ≡ (Calls.run vec_memory one_file session [] Directory.new).1)
    × (Concurrent.entry (Calls.run_concurrent vec_memory one_file session [] Concurrent.new).2 0
        ≡ Directory.entry (Calls.run vec_memory one_file session [] Directory.new).2 0)
run_concurrent-run_example = run_concurrent-run vec_memory one_file session [] 0
