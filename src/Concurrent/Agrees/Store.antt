-- ===== src/Concurrent/Agrees/Store.antt =====
-- `spill_region`, `load_region`, `compact_region`, `create_region_with_policy` and `destroy_region` of
-- crates/tvm-core/src/concurrent.rs beside those of directory.rs.
use tvm_wasm.Base.{
  ℕ, ◌≡◌, refl, sym, subst, ◌∙◌, inl, inr, ◌&&◌, Bool-cases, Option-cases, Result-cases, none,
  Result, ok, err, region_not_found, pinned, policy_violation, not_resident, arith,
}
use tvm_wasm.Region.{cold, is_cold, is_hot}
use tvm_wasm.Memory.{MemoryRegion, BackingStore}
use tvm_wasm.Directory.{RegionDirectory, RegionEntry, put}
use tvm_wasm.Directory
use tvm_wasm.Directory.Tiers.{is_some, demoted, faulted_in}
use tvm_wasm.Directory.Tiers
use tvm_wasm.Concurrent.{ConcurrentDirectory, locked, lru_remove, retain_ne}
use tvm_wasm.Concurrent.Tiers.{spill_region, load_region}
use tvm_wasm.Concurrent.Table.{changed, entry-at}
use tvm_wasm.Concurrent.Agrees.{Agrees, put-Agrees, kept-Agrees, entry_arc-missing, entry_arc-at}

-- The same result, the same store, and directories that still agree.
abbrev AlikeWith {ℓ} :
    {A : Type ℓ} {M B : Type 0}
    → Result A × B × ConcurrentDirectory M
    → Result A × B × RegionDirectory M
    → Type ℓ
AlikeWith (r, a, c) (s, b, d) = (r ≡ s) × (a ≡ b) × Agrees c d

module _ {M B : Type 0} (mem : MemoryRegion M) (store : BackingStore B) where
  -- The two results are written out, and so are the directories.
  along {ℓ} :
      {A : Type ℓ} (r : Result A) (b : B) (c : ConcurrentDirectory M) (d : RegionDirectory M)
      (s : Result A × B × ConcurrentDirectory M) (t : Result A × B × RegionDirectory M)
      → (s.0 ≡ r) × (s.1 ≡ b) × (s.2 ≡ c)
      → (t.0 ≡ r) × (t.1 ≡ b) × (t.2 ≡ d)
      → Agrees c d
      → AlikeWith s t
  along r b c d s t (s0, s1, s2) (t0, t1, t2) k =
      (s0 ∙ sym t0, s1 ∙ sym t1, subst (λ x. Agrees x t.2) (sym s2) (subst (Agrees c) (sym t2) k))

  pub load_region-AlikeWith :
      (c : ConcurrentDirectory M) (d : RegionDirectory M) (id : ℕ) (b : B)
      → Agrees c d
      → AlikeWith (load_region mem store c id b) (Tiers.load_region mem store d id b)
  unfolding load_region Tiers.load_region put locked
  load_region-AlikeWith c d id b k = elim (Option-cases (Directory.entry d id)) [
    | inl gone ↦
        let missing = entry_arc-missing c id k.table (k.same id ∙ gone) in
        along (err (region_not_found id)) b c d (load_region mem store c id b)
          (Tiers.load_region mem store d id b) (ground (arith, missing)) (ground arith) k
    | inr (e, held) ↦
        let (a, slot, at) = entry-at c id e (k.same id ∙ held) in
        let found = entry_arc-at c id a slot in
        let s = load_region mem store c id b in
        let t = Tiers.load_region mem store d id b in
        elim (Bool-cases (is_hot e.meta.residency && is_some e.memory)) [
          | inl here ↦
              along (ok tt) b (changed c a e c.warm_lru) d s t (ground arith) (ground arith)
                (kept-Agrees c d id a e c.warm_lru k slot at)
          | inr away ↦ elim (Result-cases (store.load b e.meta.id e.meta.generation).0) [
            | inr (x, failed) ↦
                along (err x) (store.load b e.meta.id e.meta.generation).1
                  (changed c a e c.warm_lru) d s t (ground arith) (ground arith)
                  (kept-Agrees c d id a e c.warm_lru k slot at)
            | inl (bytes, loaded) ↦
                let f = faulted_in mem e bytes in
                along (ok tt) (store.load b e.meta.id e.meta.generation).1
                  (changed c a f c.warm_lru) (put d id f) s t (ground arith) (ground arith)
                  (put-Agrees c d (put d id f) id a e f c.warm_lru k slot at refl refl)
          ]
        ]
  ]

  pub spill_region-AlikeWith :
      (c : ConcurrentDirectory M) (d : RegionDirectory M) (id : ℕ) (b : B)
      → Agrees c d
      → AlikeWith (spill_region mem store c id b) (Tiers.spill_region mem store d id b)
  unfolding spill_region Tiers.spill_region put locked lru_remove Directory.lru_remove
  spill_region-AlikeWith c d id b k =
      let s = spill_region mem store c id b in
      let t = Tiers.spill_region mem store d id b in
      elim (Option-cases (Directory.entry d id)) [
        | inl gone ↦
            let missing = entry_arc-missing c id k.table (k.same id ∙ gone) in
            along (err (region_not_found id)) b c d s t (ground (arith, missing)) (ground arith) k
        | inr (e, held) ↦
            let (a, slot, at) = entry-at c id e (k.same id ∙ held) in
            let found = entry_arc-at c id a slot in
            let kept = kept-Agrees c d id a e c.warm_lru k slot at in
            elim (Bool-cases e.meta.pinned) [
              | inl fixed ↦
                  along (err pinned) b (changed c a e c.warm_lru) d s t (ground arith)
                    (ground arith) kept
              | inr loose ↦ elim (Bool-cases e.meta.spillable) [
                | inr never ↦
                    along (err policy_violation) b (changed c a e c.warm_lru) d s t (ground arith)
                      (ground arith) kept
                | inl may ↦ elim (Bool-cases (is_cold e.meta.residency)) [
                  | inl away ↦
                      along (ok tt) b (changed c a e c.warm_lru) d s t (ground arith) (ground arith)
                        kept
                  | inr here ↦ elim (Option-cases e.memory) [
                    | inl empty ↦
                        along (err not_resident) b (changed c a e c.warm_lru) d s t (ground arith)
                          (ground arith) kept
                    | inr (m, full) ↦
                        let b' = (store.spill b e.meta.id e.meta.generation (mem.snapshot m)).1 in
                        let f = record e { memory = none } in
                        elim (Result-cases
                          (store.spill b e.meta.id e.meta.generation (mem.snapshot m)).0) [
                            | inr (x, failed) ↦
                                along (err x) b' (changed c a f c.warm_lru) (put d id f) s t
                                  (ground arith) (ground arith)
                                  (put-Agrees c d (put d id f) id a e f c.warm_lru k slot at refl
                                    refl)
                            | inl (u, done) ↦
                                let g = demoted f cold in
                                along (ok tt) b' (changed c a g (retain_ne id c.warm_lru))
                                  (Directory.lru_remove (put d id g) id) s t (ground arith)
                                  (ground arith)
                                  (put-Agrees c d (Directory.lru_remove (put d id g) id) id a e g
                                    (retain_ne id c.warm_lru) k slot at refl refl)
                          ]
                  ]
                ]
              ]
            ]
      ]
