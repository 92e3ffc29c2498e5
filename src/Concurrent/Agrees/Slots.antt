-- ===== src/Concurrent/Agrees/Slots.antt =====
-- `create_region_with_policy`, `destroy_region` and `compact_region` of crates/tvm-core/src/concurrent.rs
-- beside those of directory.rs.
use native.Mathlib.Decide.{ℕ_discrete}
use tvm_wasm.Base.{
  ℕ, zero, suc, ◌+◌, ◌≡◌, ◌<◌, refl, sym, ap, subst, ◌∙◌, ◌⊎◌, inl, inr, ltb, u16_mod, Bool-cases,
  Option-cases, List, [], ◌∷◌, ◌++◌, Option, none, some, length, get_elem?, set, ok, err,
  region_not_found, arith, length-set, length-append, get_elem?-push, get_elem?-append_left,
  get_elem?-set_ne, get_elem?-some_lt,
}
use tvm_wasm.Region.{RegionKind, PlacementPolicy, is_warm}
use tvm_wasm.Allocator.{AllocatorKind}
use tvm_wasm.Directory.{RegionDirectory, RegionEntry, put}
use tvm_wasm.Directory
use tvm_wasm.Concurrent.{
  ConcurrentDirectory, entry, entry_arc, lru_remove, lru_push_front, create_region_with_policy,
  destroy_region,
}
use tvm_wasm.Concurrent.Table.{Table, Table-at, entry-at}
use tvm_wasm.Concurrent.Agrees.{Agrees, lru-Agrees, entry_arc-missing}
use tvm_wasm.Concurrent.Agrees.Entry.{Alike, alike}

get_elem?-clear {ℓ} :
    {A : Type ℓ} (xs : List (Option A)) (i : ℕ)
    → (get_elem? (set xs i none) i ≡ some none) ⊎ (get_elem? (set xs i none) i ≡ none)
get_elem?-clear [] i = inr refl
get_elem?-clear (x ∷ xs) zero = inl refl
get_elem?-clear (x ∷ xs) (suc i) = get_elem?-clear xs i

get_elem?-push_cases {ℓ} :
    {A : Type ℓ} (xs : List A) (v : A) (j : ℕ)
    → ((j < length xs) × (get_elem? (xs ++ v ∷ []) j ≡ get_elem? xs j))
      ⊎ ((j ≡ length xs) × (get_elem? (xs ++ v ∷ []) j ≡ some v))
      ⊎ ((length xs < j) × (get_elem? (xs ++ v ∷ []) j ≡ none) × (get_elem? xs j ≡ none))
get_elem?-push_cases [] v zero = inr (inl (refl, refl))
get_elem?-push_cases [] v (suc j) = inr (inr (omega arith, refl, refl))
get_elem?-push_cases (x ∷ xs) v zero = inl (omega arith, refl)
get_elem?-push_cases (x ∷ xs) v (suc j) = elim (get_elem?-push_cases xs v j) [
  | inl (below, same) ↦ inl (omega (arith, below), same)
  | inr (inl (here, at)) ↦ inr (inl (omega (arith, here), at))
  | inr (inr (above, gone, was)) ↦ inr (inr (omega (arith, above), gone, was))
]

module _ {M : Type 0} where
  Table-clear :
      (entries : List (RegionEntry M)) (k : ℕ) (slots : List (Option ℕ)) (i : ℕ)
      → Table entries k slots
      → Table entries k (set slots i none)
  Table-clear entries k [] i v = tt
  Table-clear entries k (none ∷ slots) zero v = v
  Table-clear entries k (none ∷ slots) (suc i) v = Table-clear entries (suc k) slots i v
  Table-clear entries k (some b ∷ slots) zero (here, f, there, named, rest) = rest
  Table-clear entries k (some b ∷ slots) (suc i) (here, f, there, named, rest) =
      (here, f, there, named, Table-clear entries (suc k) slots i rest)

  Table-push :
      (entries : List (RegionEntry M)) (k : ℕ) (slots : List (Option ℕ)) (e : RegionEntry M)
      → length entries ≡ k + length slots
      → e.meta.id ≡ length entries
      → Table entries k slots
      → Table (entries ++ e ∷ []) k (slots ++ some (length entries) ∷ [])
  Table-push entries k [] e full named v =
      (omega (arith, full), e, get_elem?-push entries e, omega (arith, named, full), tt)
  Table-push entries k (none ∷ slots) e full named v =
      Table-push entries (suc k) slots e (omega (arith, full)) named v
  Table-push entries k (some b ∷ slots) e full named (here, f, there, same, rest) = (
    here,
    f,
    get_elem?-append_left entries (e ∷ []) b (get_elem?-some_lt entries b there) ∙ there,
    same,
    Table-push entries (suc k) slots e (omega (arith, full)) named rest,
  )

  -- A slot that is cleared in both.
  clear-Agrees :
      (c : ConcurrentDirectory M) (d : RegionDirectory M) (id : ℕ)
      → Agrees c d
      → Agrees
          (record c { regions = set c.regions id none })
          (record d { regions = set d.regions id none })
  unfolding entry Directory.entry
  clear-Agrees c d id k =
      let cleared : ConcurrentDirectory M = record c { regions = set c.regions id none } in
      let emptied : RegionDirectory M = record d { regions = set d.regions id none } in
      record {
        table = Table-clear c.entries 0 c.regions id k.table;
        arcs = k.arcs ∙ sym (length-set c.regions id none);
        slots = length-set c.regions id none ∙ k.slots ∙ sym (length-set d.regions id none);
        same = λ j. elim (ℕ_discrete id j) [
          | no other ↦ ground (
            arith,
            get_elem?-set_ne c.regions id j none other,
            get_elem?-set_ne d.regions id j none other,
            k.same j,
          )
          | yes here ↦
              subst (λ i. entry cleared i ≡ Directory.entry emptied i) here
                (ground (arith, get_elem?-clear c.regions id, get_elem?-clear d.regions id))
        ];
      }

  -- An entry that is pushed in both, under the next id.
  push-Agrees :
      (c : ConcurrentDirectory M) (d : RegionDirectory M) (e : RegionEntry M) (warm warm' : List ℕ)
      → Agrees c d
      → e.meta.id ≡ length c.regions
      → Agrees
          (record {
            entries = c.entries ++ e ∷ [];
            regions = c.regions ++ some (length c.entries) ∷ [];
            warm_lru = warm;
          })
          (record { regions = d.regions ++ some e ∷ []; warm_lru = warm' })
  unfolding entry Directory.entry
  push-Agrees c d e warm warm' k named = record {
    table =
        Table-push c.entries 0 c.regions e (omega (arith, k.arcs)) (omega (arith, named, k.arcs))
          k.table;
    arcs = omega (
      arith,
      length-append c.entries (e ∷ []),
      length-append c.regions (some (length c.entries) ∷ []),
      k.arcs,
    );
    slots = omega (
      arith,
      length-append c.regions (some (length c.entries) ∷ []),
      length-append d.regions (some e ∷ []),
      k.slots,
    );
    same = λ j. elim (get_elem?-push_cases d.regions (some e) j) [
      | inl (below, old) ↦
          let left =
            get_elem?-append_left c.regions (some (length c.entries) ∷ []) j
              (omega (arith, below, k.slots)) in
          elim (Option-cases (get_elem? c.regions j)) [
            | inl away ↦ ground (arith, left, old, k.same j)
            | inr (none, there) ↦ ground (arith, left, old, k.same j)
            | inr (some a, there) ↦
                let (_, f, at, _) = Table-at c.entries 0 c.regions j a k.table there in
                let kept =
                  get_elem?-append_left c.entries (e ∷ []) a (get_elem?-some_lt c.entries a at) in
                ground (arith, left, old, kept, k.same j)
          ]
      | inr (inl (here, at)) ↦
          let slot : get_elem? (c.regions ++ some (length c.entries) ∷ []) j
              ≡ some (some (length c.entries)) =
            ap (get_elem? (c.regions ++ some (length c.entries) ∷ [])) (here ∙ sym k.slots)
            ∙ get_elem?-push c.regions (some (length c.entries)) in
          ground (arith, slot, at, get_elem?-push c.entries e)
      | inr (inr (above, gone, was)) ↦
          elim (get_elem?-push_cases c.regions (some (length c.entries)) j) [
            | inl (below, old) ↦ absurd (omega (arith, above, below, k.slots))
            | inr (inl (here, at)) ↦ absurd (omega (arith, above, here, k.slots))
            | inr (inr (_, away, none_there)) ↦ ground (arith, away, gone)
          ]
    ];
  }

  pub destroy_region-Alike :
      (c : ConcurrentDirectory M) (d : RegionDirectory M) (id : ℕ)
      → Agrees c d
      → Alike (destroy_region c id) (Directory.destroy_region d id)
  unfolding destroy_region Directory.destroy_region lru_remove Directory.lru_remove entry_arc
  destroy_region-Alike c d id k = elim (Option-cases (Directory.entry d id)) [
    | inl gone ↦
        let missing = entry_arc-missing c id k.table (k.same id ∙ gone) in
        alike (err (region_not_found id)) c d _ (Directory.destroy_region d id)
          (ground (arith, missing)) (ground arith) k
    | inr (e, held) ↦
        let (a, slot, at) = entry-at c id e (k.same id ∙ held) in
        alike (ok tt) (lru_remove (record c { regions = set c.regions id none }) id)
          (Directory.lru_remove (record d { regions = set d.regions id none }) id) _
          (Directory.destroy_region d id) (ground arith) (ground arith)
          (lru-Agrees _ _ _ _ (clear-Agrees c d id k) refl refl refl)
  ]

  pub create_region-Alike :
      (c : ConcurrentDirectory M) (d : RegionDirectory M) (kind : RegionKind) (n : ℕ)
      (allocator : AllocatorKind) (policy : PlacementPolicy) (m : M)
      → Agrees c d
      → Alike
          (create_region_with_policy c kind n allocator policy m)
          (Directory.create_region_with_policy d kind n allocator policy m)
  unfolding create_region_with_policy Directory.create_region_with_policy lru_push_front
  create_region-Alike c d kind n allocator policy m k =
      elim (Bool-cases (ltb (length d.regions) u16_mod)) [
        | inr full ↦
            rw (create_region_with_policy, Directory.create_region_with_policy, k.slots, full)
              (refl, k)
        | inl room ↦ elim (Bool-cases (is_warm policy.initial_residency)) [
          | inl warm ↦
              rw
                (
                  create_region_with_policy, Directory.create_region_with_policy, k.slots, room,
                  warm,
                )
                (refl, push-Agrees c d _ _ _ k (sym k.slots))
          | inr other ↦
              rw
                (
                  create_region_with_policy, Directory.create_region_with_policy, k.slots, room,
                  other,
                )
                (refl, push-Agrees c d _ _ _ k (sym k.slots))
        ]
      ]
