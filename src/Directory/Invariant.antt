-- ===== src/Directory/Invariant.antt =====
-- Well-formed directories, the state of `RegionDirectory` in crates/tvm-core/src/directory.rs.

pub mod Access
pub mod Bytes
pub mod Tiers
use native.Mathlib.Decide.{ℕ_discrete}
use tvm_wasm.Base.{
  ℕ, suc, ◌+◌, ◌≤◌, ◌<◌, ◌≡◌, ◌≢◌, refl, sym, ap, subst, ◌∙◌, ◌⊎◌, inl, inr, Bool, true, false,
  Bool-cases, Option-cases, some-inj, ◌==◌, if◌then◌else◌, List, [], ◌∷◌, ◌++◌, Option, none, some,
  length, get_elem?, set, All, u16_mod, u32_mod, arith, length-set, length-append,
  get_elem?-set_self, get_elem?-set_ne, get_elem?-some_lt, get_elem?-push, get_elem?-append_left,
}
use tvm_wasm.Region.{Region}
use tvm_wasm.Allocator
use tvm_wasm.Allocator.Sound.{IsAllocator}
use tvm_wasm.Directory.{
  RegionDirectory, RegionEntry, entry, put, occupied, remove_first, lru_remove, lru_push_front,
}

-- An entry that sits in slot `id`.
pub record IsEntry {M : Type 0} (id : ℕ) (e : RegionEntry M) : Type 0 where
  pub named : e.meta.id ≡ id
  pub generation_pos : 0 < e.meta.generation
  pub generation_fits : e.meta.generation < u16_mod
  pub sound : IsAllocator e.meta.capacity e.allocator
  pub counted : e.meta.used ≡ Allocator.used e.allocator

-- No id twice.
abbrev pub Distinct : List ℕ → Type 0
Distinct [] = Unit {0}
Distinct (x ∷ xs) = All (λ y. y ≢ x) xs × Distinct xs

pub record IsDirectory {M : Type 0} (d : RegionDirectory M) : Type 0 where
  pub ids_fit : length d.regions ≤ u16_mod
  pub lru_distinct : Distinct d.warm_lru
  pub lru_known : All (λ id. id < length d.regions) d.warm_lru
  pub entries : (id : ℕ) (e : RegionEntry M) → entry d id ≡ some e → IsEntry id e

remove_first-All : (P : ℕ → Type 0) (id : ℕ) (xs : List ℕ) → All P xs → All P (remove_first id xs)
remove_first-All P id [] a = tt
remove_first-All P id (x ∷ xs) a = elim (Bool-cases (x == id)) [
  | inl here ↦ rw here a.1
  | inr other ↦ rw other (a.0, remove_first-All P id xs a.1)
]

remove_first-Distinct : (id : ℕ) (xs : List ℕ) → Distinct xs → Distinct (remove_first id xs)
remove_first-Distinct id [] d = tt
remove_first-Distinct id (x ∷ xs) d = elim (Bool-cases (x == id)) [
  | inl here ↦ rw here d.1
  | inr other ↦ rw other (remove_first-All (λ y. y ≢ x) id xs d.0, remove_first-Distinct id xs d.1)
]

All-ne : (id x : ℕ) (xs : List ℕ) → x ≡ id → All (λ y. y ≢ x) xs → All (λ y. y ≢ id) xs
All-ne id x [] e a = tt
All-ne id x (y ∷ xs) e a = (omega arith, All-ne id x xs e a.1)

-- An id that occurs once is gone after its removal.
pub remove_first_gone :
    (id : ℕ) (xs : List ℕ) → Distinct xs → All (λ y. y ≢ id) (remove_first id xs)
remove_first_gone id [] d = tt
remove_first_gone id (x ∷ xs) d = elim (Bool-cases (x == id)) [
  | inl here ↦ rw here (All-ne id x xs (ground arith) d.0)
  | inr other ↦ rw other (ground arith, remove_first_gone id xs d.1)
]

module _ {M : Type 0} where
  pub entry-lt :
      (d : RegionDirectory M) (id : ℕ) (e : RegionEntry M)
      → entry d id ≡ some e
      → id < length d.regions
  unfolding entry
  entry-lt d id e h = elim (Option-cases (get_elem? d.regions id)) [
    | inl gone ↦ absurd (ground arith)
    | inr (slot, at) ↦ get_elem?-some_lt d.regions id at
  ]

  pub entry-put_self :
      (d : RegionDirectory M) (id : ℕ) (e f : RegionEntry M)
      → entry d id ≡ some e
      → entry (put d id f) id ≡ some f
  unfolding entry put
  entry-put_self d id e f h =
      ap occupied (get_elem?-set_self d.regions id (some f) (entry-lt d id e h))

  pub entry-put_ne :
      (d : RegionDirectory M) (id j : ℕ) (f : RegionEntry M)
      → id ≢ j
      → entry (put d id f) j ≡ entry d j
  unfolding entry put
  entry-put_ne d id j f h = ap occupied (get_elem?-set_ne d.regions id j (some f) h)

  pub entry-lru_remove : (d : RegionDirectory M) (id j : ℕ) → entry (lru_remove d id) j ≡ entry d j
  unfolding entry lru_remove
  entry-lru_remove d id j = refl

  pub entry-lru_push_front :
      (d : RegionDirectory M) (id j : ℕ) → entry (lru_push_front d id) j ≡ entry d j
  unfolding entry lru_push_front
  entry-lru_push_front d id j = refl

  pub put-IsDirectory :
      (d : RegionDirectory M) (id : ℕ) (e f : RegionEntry M)
      → IsDirectory d
      → entry d id ≡ some e
      → IsEntry id f
      → IsDirectory (put d id f)
  put-IsDirectory d id e f v at w = record {
    ids_fit = unfold put in rw length-set v.ids_fit;
    lru_distinct = unfold put in v.lru_distinct;
    lru_known = unfold put in rw length-set v.lru_known;
    entries = λ j g h. elim (ℕ_discrete id j) [
      | yes same ↦
          let hit : entry (put d id f) j ≡ some f =
            subst (λ k. entry (put d id f) k ≡ some f) same (entry-put_self d id e f at) in
          let found : f ≡ g = some-inj f g (sym hit ∙ h) in
          subst (λ k. IsEntry k g) same (subst (IsEntry id) found w)
      | no other ↦ v.entries j g (sym (entry-put_ne d id j f other) ∙ h)
    ];
  }

  pub lru_remove-IsDirectory :
      (d : RegionDirectory M) (id : ℕ) → IsDirectory d → IsDirectory (lru_remove d id)
  lru_remove-IsDirectory d id v = record {
    ids_fit = unfold lru_remove in v.ids_fit;
    lru_distinct = unfold lru_remove in remove_first-Distinct id d.warm_lru v.lru_distinct;
    lru_known =
        unfold lru_remove in remove_first-All (λ k. k < length d.regions) id d.warm_lru v.lru_known;
    entries = λ j g h. v.entries j g (sym (entry-lru_remove d id j) ∙ h);
  }

  pub lru_push_front-IsDirectory :
      (d : RegionDirectory M) (id : ℕ)
      → IsDirectory d
      → id < length d.regions
      → IsDirectory (lru_push_front d id)
  lru_push_front-IsDirectory d id v known = record {
    ids_fit = unfold lru_push_front in v.ids_fit;
    lru_distinct =
        unfold lru_push_front in
        (
          remove_first_gone id d.warm_lru v.lru_distinct,
          remove_first-Distinct id d.warm_lru v.lru_distinct,
        );
    lru_known =
        unfold lru_push_front in
        (known, remove_first-All (λ k. k < length d.regions) id d.warm_lru v.lru_known);
    entries = λ j g h. v.entries j g (sym (entry-lru_push_front d id j) ∙ h);
  }
