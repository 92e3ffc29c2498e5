-- ===== src/Concurrent/Demote.antt =====
-- `demote_until` and `alloc_or_demote` of crates/tvm-core/src/concurrent.rs, with the policies and the
-- report of crates/tvm-core/src/eviction.rs. No other thread runs between the steps of a call. The
-- sum of the sizes is not cut: 65,536 regions of less than 2^32 bytes stay below 2^64.
use tvm_wasm.Base.{
  ℕ, ◌+◌, ◌-◌, Bool, true, false, not, ltb, leb, ◌==◌, ◌||◌, if◌then◌else◌, List, [], ◌∷◌, ◌++◌,
  Result, TvmError, ok, err, region_not_found, not_resident, pinned, policy_violation,
  allocation_failed, u16_mod, u64_mod,
}
use tvm_wasm.Handle.{Handle}
use tvm_wasm.Region.{Region, Residency, hot, warm, is_hot, is_warm}
use tvm_wasm.Memory.{MemoryRegion, BackingStore}
use tvm_wasm.Concurrent.{ConcurrentDirectory, list_regions, alloc}
use tvm_wasm.Concurrent.Tiers.{spill_region}

pub data WithinTier : Type 0 where
  largest_first smallest_first insertion_order : WithinTier

pub data EvictionPolicy : Type 0 where
  coldest_first : WithinTier → EvictionPolicy

pub record EvictionReport : Type 0 where
  pub bytes_freed : ℕ
  pub regions_spilled : ℕ
  pub target_met : Bool

abbrev pub empty_report : EvictionReport
empty_report = record { bytes_freed = 0; regions_spilled = 0; target_met = false }

-- A region and its size.
abbrev pub EvictCandidate : Type 0
EvictCandidate = ℕ × ℕ

pub data Ordering : Type 0 where
  less equal greater : Ordering

abbrev pub cmp : ℕ → ℕ → Ordering
cmp a b = if ltb a b then less else if a == b then equal else greater

unfoldable pub within_tier_cmp : WithinTier → EvictCandidate → EvictCandidate → Ordering
within_tier_cmp largest_first a b = cmp b.1 a.1
within_tier_cmp smallest_first a b = cmp a.1 b.1
within_tier_cmp insertion_order a b = cmp a.0 b.0

abbrev pub counts_toward_resident : Residency → Bool
counts_toward_resident hot = true
counts_toward_resident warm = true
counts_toward_resident _ = false

-- `sort_by`, which keeps the order of equal elements.
abbrev pub is_greater : Ordering → Bool
is_greater greater = true
is_greater _ = false

unfoldable pub insert_by :
    (EvictCandidate → EvictCandidate → Ordering)
    → EvictCandidate
    → List EvictCandidate
    → List EvictCandidate
insert_by order x [] = x ∷ []
insert_by order x (y ∷ ys) =
    let later = insert_by order x ys in if is_greater (order x y) then y ∷ later else x ∷ y ∷ ys

unfoldable pub sort_by :
    (EvictCandidate → EvictCandidate → Ordering) → List EvictCandidate → List EvictCandidate
sort_by order [] = []
sort_by order (x ∷ xs) = insert_by order x (sort_by order xs)

-- The bytes of the Hot and Warm regions.
unfoldable pub total_resident : List Region → ℕ
total_resident [] = 0
total_resident (r ∷ regs) =
    let rest = total_resident regs in
    if counts_toward_resident r.residency then r.used + rest else rest

-- The regions of a tier that may be spilled.
unfoldable pub candidates : (Residency → Bool) → List Region → List EvictCandidate
candidates tier [] = []
candidates tier (r ∷ regs) =
    let rest = candidates tier regs in
    if r.pinned || not r.spillable
    then rest
    else if tier r.residency
    then (r.id, r.used) ∷ rest
    else rest

abbrev pub saturating_add : ℕ → ℕ → ℕ → ℕ
saturating_add modulus a b = if ltb (a + b) modulus then a + b else modulus - 1

-- The errors after which the loop goes on.
abbrev pub is_passed_over : TvmError → Bool
is_passed_over pinned = true
is_passed_over policy_violation = true
is_passed_over not_resident = true
is_passed_over (region_not_found _) = true
is_passed_over _ = false

module _ {M B : Type 0} (mem : MemoryRegion M) (store : BackingStore B) where
  -- The loop over the candidates. A `saturating_sub` stops at 0.
  unfoldable pub spill_each :
      List EvictCandidate
      → ℕ
      → ℕ
      → EvictionReport
      → B
      → ConcurrentDirectory M
      → Result (ℕ × EvictionReport) × B × ConcurrentDirectory M
  spill_each [] target current report b d = (ok (current, report), b, d)
  spill_each ((id, used) ∷ rest) target current report b d = elim (leb current target) [
    | true ↦ (ok (current, report), b, d)
    | false ↦
        let (r, b', d') = spill_region mem store d id b in
        elim r [
          | ok _ ↦
              spill_each rest target (current - used)
                (record report {
                  bytes_freed = saturating_add u64_mod report.bytes_freed used;
                  regions_spilled = saturating_add u16_mod report.regions_spilled 1;
                })
                b' d'
          | err x ↦ elim (is_passed_over x) [
            | true ↦ spill_each rest target current report b' d'
            | false ↦ (err x, b', d')
          ]
        ]
  ]

  unfoldable pub demote_until :
      ConcurrentDirectory M
      → ℕ
      → EvictionPolicy
      → B
      → Result EvictionReport × B × ConcurrentDirectory M
  demote_until d target (coldest_first within_tier) b =
      let snapshot = list_regions d in
      let current = total_resident snapshot in
      if leb current target
      then (ok (record empty_report { target_met = true }), b, d)
      else let order = within_tier_cmp within_tier in
        let warm_ones = sort_by order (candidates is_warm snapshot) in
        let hot_ones = sort_by order (candidates is_hot snapshot) in
        let (r, b', d') = spill_each (warm_ones ++ hot_ones) target current empty_report b d in
        elim r [
          | err x ↦ (err x, b', d')
          | ok (left, report) ↦ (ok (record report { target_met = leb left target }), b', d')
        ]

  unfoldable pub alloc_or_demote :
      ConcurrentDirectory M
      → ℕ
      → ℕ
      → ℕ
      → EvictionPolicy
      → B
      → Result Handle × B × ConcurrentDirectory M
  alloc_or_demote d region_id size target policy b =
      let (r, d1) = alloc d region_id size in
      elim r [
        | ok h ↦ (ok h, b, d1)
        | err allocation_failed ↦
            let (made, b', d2) = demote_until d1 target policy b in
            elim made [
              | err x ↦ (err x, b', d2)
              | ok _ ↦ let (again, d3) = alloc d2 region_id size in (again, b', d3)
            ]
        | err x ↦ (err x, b, d1)
      ]
