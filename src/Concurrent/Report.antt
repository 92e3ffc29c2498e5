-- ===== src/Concurrent/Report.antt =====
-- The report of `demote_until` (crates/tvm-core/src/concurrent.rs, with crates/tvm-core/src/eviction.rs).
use tvm_wasm.Base.{
  ℕ, ◌+◌, ◌-◌, ◌≡◌, ◌≢◌, ◌<◌, refl, sym, ap, subst, ◌∙◌, inl, inr, Bool, true, leb, Bool-cases,
  Result-cases, List, [], ◌∷◌, ◌++◌, All, Result, ok, err, u64_mod, u16_mod, arith,
}
use tvm_wasm.Region.{Residency, hot, warm, cold, external, is_hot, is_warm}
use tvm_wasm.Memory.{MemoryRegion, BackingStore}
use tvm_wasm.Concurrent.{ConcurrentDirectory, list_regions}
use tvm_wasm.Concurrent.Tiers.{spill_region}
use tvm_wasm.Concurrent.Demote.{
  EvictCandidate, EvictionPolicy, EvictionReport, coldest_first, Ordering, within_tier_cmp, sort_by,
  candidates, counts_toward_resident, saturating_add, is_passed_over, empty_report, spill_each,
  demote_until,
}
use tvm_wasm.Concurrent.Table.{IsTable, resident}
use tvm_wasm.Concurrent.Spill.{Spilled, spill_region-Spilled}
use tvm_wasm.Concurrent.Order.{Separate, append-All, append-Separate}
use tvm_wasm.Concurrent.Candidates.{Held, sorted-Held, tiers-Separate}

warm-counts : (r : Residency) → is_warm r ≡ true → counts_toward_resident r ≡ true
warm-counts hot h = refl
warm-counts warm h = refl
warm-counts cold h = absurd (ground arith)
warm-counts external h = absurd (ground arith)

hot-counts : (r : Residency) → is_hot r ≡ true → counts_toward_resident r ≡ true
hot-counts hot h = refl
hot-counts warm h = refl
hot-counts cold h = absurd (ground arith)
hot-counts external h = absurd (ground arith)

module _ {M : Type 0} where
  -- A candidate of a tier that counts.
  Held-counts :
      (tier : Residency → Bool) (d : ConcurrentDirectory M) (cs : List EvictCandidate)
      → ((r : Residency) → tier r ≡ true → counts_toward_resident r ≡ true)
      → All (Held tier d) cs
      → All (Held counts_toward_resident d) cs
  Held-counts tier d [] sub h = tt
  Held-counts tier d (c ∷ cs) sub ((e, at, here, size), h) =
      ((e, at, sub e.meta.residency here, size), Held-counts tier d cs sub h)

  -- The other candidates after a spill.
  Held-later :
      (d d' : ConcurrentDirectory M) (id used : ℕ) (r : Result (Unit {0}))
      (cs : List EvictCandidate)
      → Spilled d d' id used r
      → All (λ y. y.0 ≢ id) cs
      → All (Held counts_toward_resident d) cs
      → All (Held counts_toward_resident d') cs
  Held-later d d' id used r [] k other h = tt
  Held-later d d' id used r (c ∷ cs) k other ((e, at, here, size), h) =
      ((e, k.others c.0 e other.0 at, here, size), Held-later d d' id used r cs k other.1 h)

  -- All the candidates, Warm ones first.
  candidates-Held-All :
      (d : ConcurrentDirectory M) (order : EvictCandidate → EvictCandidate → Ordering)
      → IsTable d
      → let cs =
          sort_by order (candidates is_warm (list_regions d))
          ++ sort_by order (candidates is_hot (list_regions d)) in
        All (Held counts_toward_resident d) cs × Separate cs
  candidates-Held-All d order v =
      let (warm_held, warm_apart) = sorted-Held d is_warm order v in
      let (hot_held, hot_apart) = sorted-Held d is_hot order v in
      (
        append-All _ _ _ (Held-counts is_warm d _ warm-counts warm_held)
            (Held-counts is_hot d _ hot-counts hot_held),
        append-Separate _ _ warm_apart hot_apart (tiers-Separate d _ _ warm_held hot_held),
      )

-- The size that is left, and what is freed of `total`.
record Accounts {M : Type 0} (d : ConcurrentDirectory M) (left total : ℕ) (report : EvictionReport)
    : Type 0 where
  table : IsTable d
  size : left ≡ resident d
  freed : report.bytes_freed + left ≡ total

module _ {M B : Type 0} (mem : MemoryRegion M) (store : BackingStore B) where
  abbrev Ends : ℕ → Result (ℕ × EvictionReport) × B × ConcurrentDirectory M → Type 0
  Ends total (ok (left, report), b, d) = Accounts d left total report
  Ends total (err x, b, d) = Unit {0}

  spill_each-Accounts :
      (cs : List EvictCandidate) (target current : ℕ) (report : EvictionReport) (b : B)
      (d : ConcurrentDirectory M) (total : ℕ)
      → Accounts d current total report
      → All (Held counts_toward_resident d) cs
      → Separate cs
      → total < u64_mod
      → Ends total (spill_each mem store cs target current report b d)
  unfolding spill_each
  spill_each-Accounts [] target current report b d total a held apart fits = a
  spill_each-Accounts ((id, used) ∷ rest) target current report b d total a
        ((e, at, counts, size), held) apart fits =
      elim (Bool-cases (leb current target)) [
        | inl there ↦ rw (spill_each, there) a
        | inr above ↦
            let k = spill_region-Spilled mem store d id e b a.table at counts in
            let d' = (spill_region mem store d id b).2 in
            let b' = (spill_region mem store d id b).1 in
            let later = Held-later d d' id e.meta.used _ rest k apart.0 held in
            elim k.outcome [
              | inl (done, less) ↦
                  let report' : EvictionReport = record report {
                    bytes_freed = saturating_add u64_mod report.bytes_freed used;
                    regions_spilled = saturating_add u16_mod report.regions_spilled 1;
                  } in
                  let next : Accounts d' (current - used) total report' = record {
                    table = k.table;
                    size = omega (arith, a.size, size, less);
                    freed =
                        let fit : report.bytes_freed + used < u64_mod =
                          omega (arith, a.size, a.freed, size, less, fits) in
                        let sum : saturating_add u64_mod report.bytes_freed used
                            ≡ report.bytes_freed + used =
                          ground (arith, fit) in
                        omega (arith, sum, a.size, a.freed, size, less);
                  } in
                  rw (spill_each, above, done)
                    (spill_each-Accounts rest target (current - used) report' b' d' total next later
                      apart.1 fits)
              | inr (x, failed, same) ↦ elim (Bool-cases (is_passed_over x)) [
                | inr stops ↦ rw (spill_each, above, failed, stops) tt
                | inl on ↦
                    let next : Accounts d' current total report = record {
                      table = k.table;
                      size = a.size ∙ sym same;
                      freed = a.freed;
                    } in
                    rw (spill_each, above, failed, on)
                      (spill_each-Accounts rest target current report b' d' total next later apart.1
                        fits)
              ]
            ]
      ]

  Ends-ok :
      (total left : ℕ) (report : EvictionReport)
      (s : Result (ℕ × EvictionReport) × B × ConcurrentDirectory M)
      → s.0 ≡ ok (left, report)
      → Ends total s
      → Accounts s.2 left total report
  Ends-ok total left report s e a = subst (λ r. Ends total (r, s.1, s.2)) e a

  abbrev Reports : ℕ → ℕ → Result EvictionReport × B × ConcurrentDirectory M → Type 0
  Reports before target (ok report, b, d) =
      IsTable d
      × (report.bytes_freed + resident d ≡ before)
      × (report.target_met ≡ leb (resident d) target)
  Reports before target (err x, b, d) = Unit {0}

  demote_until-Reports :
      (d : ConcurrentDirectory M) (target : ℕ) (policy : EvictionPolicy) (b : B)
      → IsTable d
      → resident d < u64_mod
      → Reports (resident d) target (demote_until mem store d target policy b)
  unfolding demote_until
  demote_until-Reports d target (coldest_first within_tier) b v fits =
      elim (Bool-cases (leb (resident d) target)) [
        | inl there ↦ rw (demote_until, there) (v, omega arith, sym there)
        | inr above ↦
            let order = within_tier_cmp within_tier in
            let (held, apart) = candidates-Held-All d order v in
            let cs =
              sort_by order (candidates is_warm (list_regions d))
              ++ sort_by order (candidates is_hot (list_regions d)) in
            let a =
              spill_each-Accounts cs target (resident d) empty_report b d (resident d)
                (record { table = v; size = refl; freed = omega arith }) held apart fits in
            elim (Result-cases (spill_each mem store cs target (resident d) empty_report b d).0) [
              | inr (x, failed) ↦ rw (demote_until, above, failed) tt
              | inl ((left, report), ended) ↦
                  let k =
                    Ends-ok (resident d) left report
                      (spill_each mem store cs target (resident d) empty_report b d) ended a in
                  rw (demote_until, above, ended)
                    (k.table, omega (arith, k.size, k.freed), ap (λ n. leb n target) k.size)
            ]
      ]

  -- When `demote_until` succeeds on a directory in which each slot in use has an `Arc` of its own
  -- and the resident sizes sum to a u64, under any policy and whatever the store does,
  -- `bytes_freed` is exactly what the resident sizes have lost, `target_met` says whether they are
  -- now at or below the target, and each slot in use still has an `Arc` of its own.
  pub demote_until-report :
      (d : ConcurrentDirectory M) (target : ℕ) (policy : EvictionPolicy) (b : B)
      (report : EvictionReport) (b' : B) (d' : ConcurrentDirectory M)
      → IsTable d
      → resident d < u64_mod
      → demote_until mem store d target policy b ≡ (ok report, b', d')
      → IsTable d'
        × (report.bytes_freed + resident d' ≡ resident d)
        × (report.target_met ≡ leb (resident d') target)
  demote_until-report d target policy b report b' d' v fits done =
      subst (Reports (resident d) target) done (demote_until-Reports d target policy b v fits)
