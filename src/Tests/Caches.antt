-- ===== src/Tests/Caches.antt =====
-- The resolve cache at a concrete region.
use tvm_wasm.Base.{◌≡◌, ◌⊎◌, refl, false, true, none, some, arith}
use tvm_wasm.Region.{Region, object_arena, hot}
use tvm_wasm.Cache.{lookup, lookup_fast, install, install_with_data, invalidate, invalidate_all}
use tvm_wasm.Cache
use tvm_wasm.Cache.Coherence.{lookup_fast-install_with_data, lookup-invalidate}

abbrev region_3 : Region
region_3 = record {
  id = 3;
  generation = 7;
  capacity = 64;
  used = 0;
  kind = object_arena;
  residency = hot;
  pinned = false;
  pinnable = true;
  spillable = false;
}

lookup_fast-install_with_data_example :
    let (hit, c') = install_with_data Cache.new region_3 4096 64 in
    let (thin, c'') = install Cache.new region_3 in
    ((lookup_fast c' 3).0 ≡ some hit)
    × ((lookup c' 3).0 ≡ some thin)
    × ((lookup_fast c'' 3).0 ≡ none)
    × ((lookup c'' 3).0 ≡ some thin)
unfolding Cache.new
lookup_fast-install_with_data_example =
    lookup_fast-install_with_data Cache.new region_3 4096 64 refl (omega arith)

lookup-invalidate_example :
    let c = (install Cache.new region_3).1 in
    ((lookup (invalidate c 3) 3).0 ≡ none)
    × ((lookup_fast (invalidate c 3) 3).0 ≡ none)
    × ((4 ≡ region_3.id) ⊎ ((lookup (invalidate c 3) 4).0 ≡ (lookup c 4).0))
unfolding Cache.new install
lookup-invalidate_example = lookup-invalidate (install Cache.new region_3).1 3 4 refl
