-- ===== src/Directory/Compact.antt =====
-- `compact_region` of crates/tvm-core/src/directory.rs, and `HandleRemap` of memory_region.rs.
pub mod Loop
pub mod Migrate
use tvm_wasm.Base.{
  ℕ, ◌+◌, Bool, true, false, not, ltb, ◌==◌, ◌||◌, if◌then◌else◌, List, [], ◌∷◌, ◌++◌, Option, none,
  some, length, replicate, splice, Result, ok, err, region_not_found, not_resident, pinned,
  unsupported_allocator, add32,
}
use tvm_wasm.Handle.{Handle}
use tvm_wasm.Memory.{MemoryRegion}
use tvm_wasm.Allocator
use tvm_wasm.Allocator.Blocks.{Block, insert, lookup}
use tvm_wasm.Directory.{RegionDirectory, RegionEntry, entry, put}
use tvm_wasm.Directory.Access.{next_generation}

-- The map from old offsets to new ones is kept in order of the old offset.
pub record HandleRemap : Type 0 where
  pub region_id : ℕ
  pub old_generation : ℕ
  pub new_generation : ℕ
  pub mapping : List Block

unfoldable pub migrate : HandleRemap → Handle → Option Handle
migrate r h =
    if not (h.region_id == r.region_id) || not (h.generation == r.old_generation)
    then none
    else elim (lookup h.offset r.mapping) [
      | none ↦ none
      | some new_offset ↦
          some
            (record { region_id = h.region_id; generation = r.new_generation; offset = new_offset })
    ]

-- What the loop over the live blocks has built.
pub record Packing : Type 0 where
  pub new_data : List ℕ
  pub mapping : List Block
  pub new_blocks : List Block
  pub cursor : ℕ

abbrev pub empty_packing : ℕ → Packing
empty_packing capacity = record {
  new_data = replicate capacity 0;
  mapping = [];
  new_blocks = [];
  cursor = 0;
}

-- One round: the block's bytes go to the cursor.
abbrev pub pack_block : Packing → ℕ → ℕ → List ℕ → Packing
pack_block p old_off size buf = record {
  new_data = splice p.new_data p.cursor buf;
  mapping = insert old_off p.cursor p.mapping;
  new_blocks = p.new_blocks ++ (p.cursor, size) ∷ [];
  cursor = add32 p.cursor size;
}

module _ {M : Type 0} (mem : MemoryRegion M) where
  -- `none` is the panic of a copy beyond the end of `new_data`.
  unfoldable pub pack_blocks : M → List Block → Packing → Option (Result Packing)
  pack_blocks m [] p = some (ok p)
  pack_blocks m ((old_off, size) ∷ r) p = elim (mem.read m old_off size) [
    | err x ↦ some (err x)
    | ok buf ↦ elim (ltb (length p.new_data) (p.cursor + size)) [
      | true ↦ none
      | false ↦ pack_blocks m r (pack_block p old_off size buf)
    ]
  ]

  -- The entry after a compaction.
  abbrev pub compacted : RegionEntry M → Packing → RegionEntry M
  compacted e p =
      let allocator' = Allocator.rebuild_after_compact e.allocator p.new_blocks e.meta.capacity in
      record e {
        meta = record (e.meta) {
          generation = next_generation e.meta.generation;
          used = Allocator.used allocator';
        };
        memory = some (mem.restore p.new_data);
        allocator = allocator';
      }

  -- `none` is a panic.
  unfoldable pub compact_region :
      RegionDirectory M → ℕ → Option (Result HandleRemap × RegionDirectory M)
  compact_region d region_id = elim (entry d region_id) [
    | none ↦ some (err (region_not_found region_id), d)
    | some e ↦
        if e.meta.pinned
        then some (err pinned, d)
        else elim (Allocator.allocated_blocks e.allocator) [
          | none ↦ some (err unsupported_allocator, d)
          | some blocks ↦ elim e.memory [
            | none ↦ some (err not_resident, d)
            | some m ↦ elim (pack_blocks m blocks (empty_packing e.meta.capacity)) [
              | none ↦ none
              | some (err x) ↦ some (err x, d)
              | some (ok p) ↦ some (
                ok (record {
                  region_id = region_id;
                  old_generation = e.meta.generation;
                  new_generation = next_generation e.meta.generation;
                  mapping = p.mapping;
                }),
                put d region_id (compacted e p),
              )
            ]
          ]
        ]
  ]
