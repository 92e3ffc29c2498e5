-- ===== src/Concurrent/Agrees/Runs.antt =====
-- Runs of calls on the directories of crates/tvm-core/src/concurrent.rs and directory.rs side by side.
use tvm_wasm.Base.{
  ℕ, ◌≡◌, refl, ap, subst, ◌∙◌, inl, inr, Bool-cases, Option-cases, Result-cases, List, [], ◌∷◌,
  none, some, ok, err, region_not_found, pinned, not_resident, unsupported_allocator, arith,
}
use tvm_wasm.Memory.{MemoryRegion, BackingStore}
use tvm_wasm.Allocator
use tvm_wasm.Directory.{RegionDirectory, RegionEntry, put}
use tvm_wasm.Directory
use tvm_wasm.Directory.Access.{next_generation}
use tvm_wasm.Directory.Compact.{HandleRemap, pack_blocks, empty_packing, compacted}
use tvm_wasm.Directory.Compact
use tvm_wasm.Concurrent.{ConcurrentDirectory, new, entry, locked, region_info}
use tvm_wasm.Concurrent.Tiers.{compact_region}
use tvm_wasm.Concurrent.Table.{changed, entry-at}
use tvm_wasm.Concurrent.Agrees.{
  Agrees, put-Agrees, kept-Agrees, entry_arc-at, entry_arc-missing, with_region-Agrees,
}
use tvm_wasm.Concurrent.Agrees.Entry.{
  Alike, alike, alloc-Alike, dealloc-Alike, pin-Alike, unpin-Alike, read-Alike,
}
use tvm_wasm.Concurrent.Agrees.Slots.{create_region-Alike, destroy_region-Alike}
use tvm_wasm.Concurrent.Agrees.Store.{spill_region-AlikeWith, load_region-AlikeWith}
use tvm_wasm.Concurrent.Agrees.Calls.{
  Call, create, destroy, info, pin_it, unpin_it, spill, load, compact, allocate, release, read_at,
  created, granted, done, got, told, remapped, compact_or_panic, step_concurrent, step,
  run_concurrent, run,
}

module _ {M : Type 0} where
  region_info-same :
      (c : ConcurrentDirectory M) (d : RegionDirectory M) (id : ℕ)
      → Agrees c d
      → region_info c id ≡ Directory.region_info d id
  unfolding region_info Directory.region_info
  region_info-same c d id k =
      (with_region-Agrees c d id (λ e. (ok e.meta, e)) (Directory.region_info d id, d) k
        (λ gone. (ground arith, refl)) (λ e held. (ground arith, refl, inl (refl, refl)))).0

module _ {M : Type 0} (mem : MemoryRegion M) where
  compact_region-Alike :
      (c : ConcurrentDirectory M) (d : RegionDirectory M) (id : ℕ)
      → Agrees c d
      → Alike (compact_region mem c id) (compact_or_panic d (Compact.compact_region mem d id))
  unfolding compact_region Compact.compact_region locked put
  compact_region-Alike c d id k =
      let s = compact_region mem c id in
      let t = compact_or_panic d (Compact.compact_region mem d id) in
      elim (Option-cases (Directory.entry d id)) [
        | inl gone ↦
            let missing = entry_arc-missing c id k.table (k.same id ∙ gone) in
            alike (some (err (region_not_found id))) c d s t (ground (arith, missing))
              (ground arith) k
        | inr (e, held) ↦
            let (a, slot, at) = entry-at c id e (k.same id ∙ held) in
            let found = entry_arc-at c id a slot in
            let kept = kept-Agrees c d id a e c.warm_lru k slot at in
            elim (Bool-cases e.meta.pinned) [
              | inl fixed ↦
                  alike (some (err pinned)) (changed c a e c.warm_lru) d s t (ground arith)
                    (ground arith) kept
              | inr loose ↦ elim (Option-cases (Allocator.allocated_blocks e.allocator)) [
                | inl unknown ↦
                    alike (some (err unsupported_allocator)) (changed c a e c.warm_lru) d s t
                      (ground arith) (ground arith) kept
                | inr (blocks, known) ↦ elim (Option-cases e.memory) [
                  | inl empty ↦
                      alike (some (err not_resident)) (changed c a e c.warm_lru) d s t
                        (ground arith) (ground arith) kept
                  | inr (m, full) ↦
                      elim (Option-cases
                        (pack_blocks mem m blocks (empty_packing e.meta.capacity))) [
                          | inl panics ↦
                              alike none (changed c a e c.warm_lru) d s t (ground arith)
                                (ground arith) kept
                          | inr (r, packs) ↦ elim (Result-cases r) [
                            | inr (x, failed) ↦
                                alike (some (err x)) (changed c a e c.warm_lru) d s t (ground arith)
                                  (ground arith) kept
                            | inl (p, packed) ↦
                                let f = compacted mem e p in
                                let remap : HandleRemap = record {
                                  region_id = id;
                                  old_generation = e.meta.generation;
                                  new_generation = next_generation e.meta.generation;
                                  mapping = p.mapping;
                                } in
                                alike (some (ok remap)) (changed c a f c.warm_lru) (put d id f) s t
                                  (ground arith) (ground arith)
                                  (put-Agrees c d (put d id f) id a e f c.warm_lru k slot at refl
                                    refl)
                          ]
                        ]
                ]
              ]
            ]
      ]

module _ {M B : Type 0} (mem : MemoryRegion M) (store : BackingStore B) where
  -- The same outcome, the same store, and directories that still agree.
  abbrev Step : {O : Type 0} → O × B × ConcurrentDirectory M → O × B × RegionDirectory M → Type 0
  Step (o, b, c) (o', b', d) = (o ≡ o') × (b ≡ b') × Agrees c d

  step-Agrees :
      (call : Call M) (b : B) (c : ConcurrentDirectory M) (d : RegionDirectory M)
      → Agrees c d
      → Step (step_concurrent mem store call b c) (step mem store call b d)
  step-Agrees (create kind n k policy m) b c d v =
      let (same, w) = create_region-Alike c d kind n k policy m v in (ap created same, refl, w)
  step-Agrees (destroy id) b c d v =
      let (same, w) = destroy_region-Alike c d id v in (ap done same, refl, w)
  step-Agrees (info id) b c d v = (ap told (region_info-same c d id v), refl, v)
  step-Agrees (pin_it id) b c d v = let (same, w) = pin-Alike c d id v in (ap done same, refl, w)
  step-Agrees (unpin_it id) b c d v =
      let (same, w) = unpin-Alike c d id v in (ap done same, refl, w)
  step-Agrees (spill id) b c d v =
      let (same, stored, w) = spill_region-AlikeWith mem store c d id b v in
      (ap done same, stored, w)
  step-Agrees (load id) b c d v =
      let (same, stored, w) = load_region-AlikeWith mem store c d id b v in
      (ap done same, stored, w)
  step-Agrees (compact id) b c d v =
      let (same, w) = compact_region-Alike mem c d id v in (ap remapped same, refl, w)
  step-Agrees (allocate id n) b c d v =
      let (same, w) = alloc-Alike c d id n v in (ap granted same, refl, w)
  step-Agrees (release h) b c d v = let (same, w) = dealloc-Alike c d h v in (ap done same, refl, w)
  step-Agrees (read_at h n) b c d v =
      let (same, w) = read-Alike mem c d h n v in (ap got same, refl, w)

  run-Agrees :
      (calls : List (Call M)) (b b' : B) (c : ConcurrentDirectory M) (d : RegionDirectory M)
      → b ≡ b'
      → Agrees c d
      → Step (run_concurrent mem store calls b c) (run mem store calls b' d)
  unfolding run_concurrent run
  run-Agrees [] b b' c d e v = (refl, e, v)
  run-Agrees (call ∷ calls) b b' c d e v =
      let (same, stored, w) = step-Agrees call b c d v in
      let first = step_concurrent mem store call b c in
      let second = step mem store call b d in
      let (rest, kept, agree) = run-Agrees calls first.1 second.1 first.2 second.2 stored w in
      subst
        (λ x. Step (run_concurrent mem store (call ∷ calls) b c) (run mem store (call ∷ calls) x d))
        e
        (
          ap (λ o. o ∷ (run_concurrent mem store calls first.1 first.2).0) same
              ∙ ap (λ os. second.0 ∷ os) rest,
          kept,
          agree,
        )

  new-Agrees : Agrees (new {M = M}) Directory.new
  unfolding entry Directory.entry
  new-Agrees = record { table = tt; arcs = refl; slots = refl; same = λ j. ground arith }

  -- Any sequence of creations, destructions, allocations, returns, reads, pins, unpins, queries,
  -- spills, loads and compactions, made by one thread on a new concurrent directory, returns call
  -- for call what the same sequence returns on a new region directory, panics of a compaction
  -- included, and leaves the same store and under each id the same entry.
  pub run_concurrent-run :
      (calls : List (Call M)) (b : B) (id : ℕ)
      → let (outcomes, b', c) = run_concurrent mem store calls b new in
        let (outcomes', b'', d) = run mem store calls b Directory.new in
        (outcomes ≡ outcomes') × (b' ≡ b'') × (entry c id ≡ Directory.entry d id)
  run_concurrent-run calls b id =
      let (same, stored, v) = run-Agrees calls b b new Directory.new refl new-Agrees in
      (same, stored, v.same id)
