-- ===== src/Tests/Futures.antt =====
-- The asynchronous methods on the directory of two regions.
use tvm_wasm.Base.{◌≡◌, refl, [], ◌∷◌, none, some, ok, err, not_resident}
use tvm_wasm.Memory.{vec_memory}
use tvm_wasm.Directory.{entry}
use tvm_wasm.Directory.Access.{read, validate}
use tvm_wasm.Directory.Tiers.{spill_region, load_region, read_or_fault, write_or_fault}
use tvm_wasm.Directory.Async.{
  sync_adapter, block_on, cancel, spill_region_async, load_region_async, read_or_fault_async,
  write_or_fault_async,
}
use tvm_wasm.Directory.Async.Adapter.{block_on_lem}
use tvm_wasm.Directory.Async.Cancel.{cancel-spill_region_async}
use tvm_wasm.Tests.Directories.{bytes_0, entry_0, two_regions, block_2, one_file}

block_on_example :
    (block_on (sync_adapter one_file) (spill_region_async vec_memory two_regions 0) []
      ≡ spill_region vec_memory one_file two_regions 0 [])
    × (block_on (sync_adapter one_file) (load_region_async vec_memory two_regions 0) []
        ≡ load_region vec_memory one_file two_regions 0 [])
    × (block_on (sync_adapter one_file) (read_or_fault_async vec_memory two_regions block_2 4) []
        ≡ read_or_fault vec_memory one_file two_regions block_2 4 [])
    × (block_on
          (sync_adapter one_file)
          (write_or_fault_async vec_memory two_regions block_2 (5 ∷ []))
          []
        ≡ write_or_fault vec_memory one_file two_regions block_2 (5 ∷ []) [])
block_on_example = block_on_lem vec_memory one_file two_regions 0 block_2 4 (5 ∷ []) []

block_2_valid : validate two_regions block_2 ≡ ok entry_0
unfolding validate entry
block_2_valid = refl

cancel-spill_region_async_example :
    (entry (cancel (spill_region_async vec_memory two_regions 0)) 0
      ≡ some (record entry_0 { memory = none }))
    × ((read vec_memory (cancel (spill_region_async vec_memory two_regions 0)) block_2 4).0
        ≡ err not_resident)
    × ((read_or_fault vec_memory one_file
          (cancel (spill_region_async vec_memory two_regions 0))
          block_2
          4
          []).0
        ≡ err not_resident)
    × ((spill_region vec_memory one_file
          (cancel (spill_region_async vec_memory two_regions 0))
          0
          []).0
        ≡ err not_resident)
cancel-spill_region_async_example =
    cancel-spill_region_async vec_memory one_file two_regions block_2 entry_0 bytes_0 [] 4
      block_2_valid refl refl refl refl
