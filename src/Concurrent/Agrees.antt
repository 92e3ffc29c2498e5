-- ===== src/Concurrent/Agrees.antt =====
-- The two directories of crates/tvm-core/src/concurrent.rs and directory.rs side by side.
pub mod Calls
pub mod Entry
pub mod Runs
pub mod Slots
pub mod Store
use native.Mathlib.Decide.{ℕ_discrete}
use tvm_wasm.Base.{
  ℕ, zero, suc, ◌+◌, ◌≡◌, ◌≢◌, ◌<◌, ◌≤◌, refl, sym, ap, subst, ◌∙◌, ◌⊎◌, inl, inr, true, false,
  Bool-cases, Option-cases, Result-cases, List, [], ◌∷◌, ◌++◌, Option, none, some, some-inj, length,
  get_elem?, set, Result, ok, err, region_not_found, arith, get_elem?-set_self, get_elem?-set_ne,
  get_elem?-some_lt, length-set, length-append, get_elem?-push, get_elem?-append_left,
}
use tvm_wasm.Directory.{RegionDirectory, RegionEntry, put}
use tvm_wasm.Directory
use tvm_wasm.Directory.Invariant.{entry-put_self, entry-put_ne}
use tvm_wasm.Concurrent.{ConcurrentDirectory, occupied, entry, entry_arc, locked, with_region}
use tvm_wasm.Concurrent.Table.{
  changed, Table, IsTable, Table-at, Table-set, entry-at, entry-of, get_elem?-hit,
}

-- The same entries under the same ids.
pub record Agrees {M : Type 0} (c : ConcurrentDirectory M) (d : RegionDirectory M) : Type 0 where
  pub table : IsTable c
  pub arcs : length c.entries ≡ length c.regions
  pub slots : length c.regions ≡ length d.regions
  pub same : (id : ℕ) → entry c id ≡ Directory.entry d id

module _ {M : Type 0} where
  changed_self :
      (c : ConcurrentDirectory M) (id a : ℕ) (e x : RegionEntry M) (lru : List ℕ)
      → get_elem? c.regions id ≡ some (some a)
      → get_elem? c.entries a ≡ some e
      → entry (changed c a x lru) id ≡ some x
  changed_self c id a e x lru slot at =
      entry-of (changed c a x lru) id a x slot (get_elem?-hit c.entries a a e x refl at)

  changed-ne :
      (c : ConcurrentDirectory M) (id a j : ℕ) (x : RegionEntry M) (lru : List ℕ)
      → IsTable c
      → get_elem? c.regions id ≡ some (some a)
      → id ≢ j
      → entry (changed c a x lru) j ≡ entry c j
  unfolding entry
  changed-ne c id a j x lru v slot other = elim (Option-cases (get_elem? c.regions j)) [
    | inl gone ↦ ground arith
    | inr (none, there) ↦ ground arith
    | inr (some b, there) ↦
        let away : a ≢ b = omega (
          arith,
          other,
          (Table-at c.entries 0 c.regions id a v slot).0,
          (Table-at c.entries 0 c.regions j b v there).0,
        ) in
        ground (arith, there, get_elem?-set_ne c.entries a b x away)
  ]

  -- What a method leaves of the entry stands in both.
  pub put-Agrees :
      (c : ConcurrentDirectory M) (d d' : RegionDirectory M) (id a : ℕ) (e x : RegionEntry M)
      (lru : List ℕ)
      → Agrees c d
      → get_elem? c.regions id ≡ some (some a)
      → get_elem? c.entries a ≡ some e
      → x.meta.id ≡ e.meta.id
      → d'.regions ≡ set d.regions id (some x)
      → Agrees (changed c a x lru) d'
  unfolding Directory.entry put
  put-Agrees c d d' id a e x lru k slot at named made = record {
    table = Table-set c.entries 0 c.regions a e x at named k.table;
    arcs = length-set c.entries a x ∙ k.arcs;
    slots = k.slots ∙ sym (ap length made ∙ length-set d.regions id (some x));
    same = λ j.
        let there : (i : ℕ) → Directory.entry d' i ≡ Directory.entry (put d id x) i =
          λ i. ap (λ s. Directory.occupied (get_elem? s i)) made in
        let held : Directory.entry d id ≡ some e = sym (k.same id) ∙ entry-of c id a e slot at in
        elim (ℕ_discrete id j) [
          | yes here ↦
              subst (λ i. entry (changed c a x lru) i ≡ Directory.entry d' i) here
                (changed_self c id a e x lru slot at
                  ∙ sym (there id ∙ entry-put_self d id e x held))
          | no other ↦
              changed-ne c id a j x lru k.table slot other
              ∙ k.same j
              ∙ sym (there j ∙ entry-put_ne d id j x other)
        ];
  }

  -- An entry that a method gives back as it was.
  pub kept-Agrees :
      (c : ConcurrentDirectory M) (d : RegionDirectory M) (id a : ℕ) (e : RegionEntry M)
      (lru : List ℕ)
      → Agrees c d
      → get_elem? c.regions id ≡ some (some a)
      → get_elem? c.entries a ≡ some e
      → Agrees (changed c a e lru) d
  kept-Agrees c d id a e lru k slot at = record {
    table = Table-set c.entries 0 c.regions a e e at refl k.table;
    arcs = length-set c.entries a e ∙ k.arcs;
    slots = k.slots;
    same = λ j. elim (ℕ_discrete id j) [
      | yes here ↦
          subst (λ i. entry (changed c a e lru) i ≡ Directory.entry d i) here
            (changed_self c id a e e lru slot at ∙ sym (entry-of c id a e slot at) ∙ k.same id)
      | no other ↦ changed-ne c id a j e lru k.table slot other ∙ k.same j
    ];
  }

  entry_alike :
      (c c' : ConcurrentDirectory M)
      → c'.entries ≡ c.entries
      → c'.regions ≡ c.regions
      → (j : ℕ) → entry c' j ≡ entry c j
  unfolding entry
  entry_alike c c' entries regions j = ground arith

  -- The list of Warm regions has no part in it.
  pub lru-Agrees :
      (c c' : ConcurrentDirectory M) (d d' : RegionDirectory M)
      → Agrees c d
      → c'.entries ≡ c.entries
      → c'.regions ≡ c.regions
      → d'.regions ≡ d.regions
      → Agrees c' d'
  unfolding entry Directory.entry
  lru-Agrees c c' d d' k entries regions slots = record {
    table =
        subst (λ t. Table t 0 c'.regions) (sym entries)
          (subst (Table c.entries 0) (sym regions) k.table);
    arcs = ap length entries ∙ k.arcs ∙ sym (ap length regions);
    slots = ap length regions ∙ k.slots ∙ sym (ap length slots);
    same = λ j.
        entry_alike c c' entries regions j
        ∙ k.same j
        ∙ sym (ap (λ s. Directory.occupied (get_elem? s j)) slots);
  }

  -- What a method on the region directory does when the section of the entry gives `r` and `x`.
  abbrev Follows {ℓ} :
      {A : Type ℓ}
      → RegionDirectory M
      → ℕ
      → RegionEntry M
      → Result A × RegionEntry M
      → Result A × RegionDirectory M
      → Type ℓ
  Follows d id e (r, x) m =
      (m.0 ≡ r)
      × (x.meta.id ≡ e.meta.id)
      × (((x ≡ e) × (m.1.regions ≡ d.regions)) ⊎ (m.1.regions ≡ set d.regions id (some x)))

  with_region-found {ℓ} :
      {A : Type ℓ} (c : ConcurrentDirectory M) (id a : ℕ) (e : RegionEntry M)
      (section : RegionEntry M → Result A × RegionEntry M)
      → get_elem? c.regions id ≡ some (some a)
      → get_elem? c.entries a ≡ some e
      → ((with_region c id section).0 ≡ (section e).0)
        × ((with_region c id section).1 ≡ changed c a (section e).1 c.warm_lru)
  unfolding entry_arc locked
  with_region-found c id a e section slot at = (ground arith, ground arith)

  with_region-none {ℓ} :
      {A : Type ℓ} (c : ConcurrentDirectory M) (id : ℕ)
      (section : RegionEntry M → Result A × RegionEntry M)
      → entry c id ≡ none
      → ((with_region c id section).0 ≡ err (region_not_found id))
        × ((with_region c id section).1 ≡ c)
  unfolding entry_arc locked entry
  with_region-none c id section gone = elim (Option-cases (get_elem? c.regions id)) [
    | inl away ↦ (ground arith, ground arith)
    | inr (none, there) ↦ (ground arith, ground arith)
    | inr (some a, there) ↦
        let nothing : get_elem? c.entries a ≡ none = ground arith in (ground arith, ground arith)
  ]

  pub entry_arc-at :
      (c : ConcurrentDirectory M) (id a : ℕ)
      → get_elem? c.regions id ≡ some (some a)
      → entry_arc c id ≡ ok a
  unfolding entry_arc
  entry_arc-at c id a slot = ground arith

  -- No entry, no `Arc`.
  pub entry_arc-missing :
      (c : ConcurrentDirectory M) (id : ℕ)
      → IsTable c
      → entry c id ≡ none
      → entry_arc c id ≡ err (region_not_found id)
  unfolding entry_arc entry
  entry_arc-missing c id v gone = elim (Option-cases (get_elem? c.regions id)) [
    | inl away ↦ ground arith
    | inr (none, there) ↦ ground arith
    | inr (some a, there) ↦
        let (here, e, at, named) = Table-at c.entries 0 c.regions id a v there in
        absurd (ground arith)
  ]

  -- The two methods on one region that have the same section.
  pub with_region-Agrees {ℓ} :
      {A : Type ℓ} (c : ConcurrentDirectory M) (d : RegionDirectory M) (id : ℕ)
      (section : RegionEntry M → Result A × RegionEntry M) (m : Result A × RegionDirectory M)
      → Agrees c d
      → (Directory.entry d id ≡ none → (m.0 ≡ err (region_not_found id)) × (m.1 ≡ d))
      → ((e : RegionEntry M) → Directory.entry d id ≡ some e → Follows d id e (section e) m)
      → ((with_region c id section).0 ≡ m.0) × Agrees (with_region c id section).1 m.1
  with_region-Agrees c d id section m k missing follows =
      elim (Option-cases (Directory.entry d id)) [
        | inl gone ↦
            let (fails, stays) = missing gone in
            let (r, after) = with_region-none c id section (k.same id ∙ gone) in
            (
              r ∙ sym fails,
              subst (Agrees (with_region c id section).1) (sym stays)
                  (subst (λ x. Agrees x d) (sym after) k),
            )
        | inr (e, held) ↦
            let (a, slot, at) = entry-at c id e (k.same id ∙ held) in
            let (same, named, kind) = follows e held in
            let (r, after) = with_region-found c id a e section slot at in
            let there : Agrees (changed c a (section e).1 c.warm_lru) m.1 = elim kind [
              | inl (unchanged, regions) ↦
                  subst (λ x. Agrees (changed c a x c.warm_lru) m.1) (sym unchanged)
                    (lru-Agrees _ _ d m.1 (kept-Agrees c d id a e c.warm_lru k slot at) refl refl
                      regions)
              | inr made ↦ put-Agrees c d m.1 id a e (section e).1 c.warm_lru k slot at named made
            ] in
            (r ∙ sym same, subst (λ x. Agrees x m.1) (sym after) there)
      ]
