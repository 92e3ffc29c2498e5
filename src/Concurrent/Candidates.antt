-- ===== src/Concurrent/Candidates.antt =====
-- The candidates of `demote_until` in crates/tvm-core/src/concurrent.rs: their regions, and their order.
use tvm_wasm.Base.{
  ℕ, suc, ◌+◌, ◌≡◌, ◌≢◌, ◌≤◌, refl, sym, ap, subst, ◌∙◌, inl, inr, Bool, true, Bool-cases, List, [],
  ◌∷◌, ◌||◌, not, Option, none, some, some-inj, get_elem?, All, arith,
}
use tvm_wasm.Region.{Region, Residency, is_hot, is_warm}
use tvm_wasm.Directory.{RegionEntry}
use tvm_wasm.Concurrent.{ConcurrentDirectory, entry, metas, list_regions}
use tvm_wasm.Concurrent.Demote.{EvictCandidate, Ordering, sort_by, candidates}
use tvm_wasm.Concurrent.Table.{Table, IsTable, entry-of, metas-some}
use tvm_wasm.Concurrent.Order.{Separate, sort_by-All, sort_by-Separate}

-- What holds of the regions holds of the candidates.
candidates-All :
    (P : EvictCandidate → Type 0) (tier : Residency → Bool) (regs : List Region)
    → All (λ r. P (r.id, r.used)) regs
    → All P (candidates tier regs)
unfolding candidates
candidates-All P tier [] ps = tt
candidates-All P tier (r ∷ regs) ps = ground (arith, ps, candidates-All P tier regs ps.1)

weaker : (k : ℕ) (regs : List Region) → All (λ r. suc k ≤ r.id) regs → All (λ r. k ≤ r.id) regs
weaker k [] h = tt
weaker k (r ∷ regs) h = (omega (arith, h.0), weaker k regs h.1)

apart :
    (k id : ℕ) (regs : List Region)
    → id ≡ k
    → All (λ r. suc k ≤ r.id) regs
    → All (λ s. s.id ≢ id) regs
apart k id [] named h = tt
apart k id (r ∷ regs) named h = (omega (arith, named, h.0), apart k id regs named h.1)

abbrev Unlike : List Region → Type 0
Unlike [] = Unit {0}
Unlike (r ∷ regs) = All (λ s. s.id ≢ r.id) regs × Unlike regs

candidates-Separate :
    (tier : Residency → Bool) (regs : List Region) → Unlike regs → Separate (candidates tier regs)
unfolding candidates
candidates-Separate tier [] u = tt
candidates-Separate tier (r ∷ regs) u =
    ground
      (arith, candidates-Separate tier regs u.1, candidates-All (λ y. y.0 ≢ r.id) tier regs u.0)

module _ {M : Type 0} where
  -- A candidate is a region of the tier, at its size.
  abbrev pub Held : (Residency → Bool) → ConcurrentDirectory M → EvictCandidate → Type 0
  Held tier d c =
      (e : RegionEntry M) × (entry d c.0 ≡ some e)
      × (tier e.meta.residency ≡ true)
      × (e.meta.used ≡ c.1)

  abbrev Known : ConcurrentDirectory M → Region → Type 0
  Known d r = (e : RegionEntry M) × (entry d r.id ≡ some e) × (e.meta ≡ r)

  candidates-Held :
      (d : ConcurrentDirectory M) (tier : Residency → Bool) (regs : List Region)
      → All (Known d) regs
      → All (Held tier d) (candidates tier regs)
  unfolding candidates
  candidates-Held d tier [] ps = tt
  candidates-Held d tier (r ∷ regs) ((e, at, same), ps) =
      let rest = candidates-Held d tier regs ps in
      elim (Bool-cases (r.pinned || not r.spillable)) [
        | inl never ↦ rw never rest
        | inr may ↦ elim (Bool-cases (tier r.residency)) [
          | inr other ↦ rw (may, other) rest
          | inl here ↦
              rw (may, here)
                ((e, at, ap (λ m. tier m.residency) same ∙ here, ap (λ m. m.used) same), rest)
        ]
      ]

  shift :
      (d : ConcurrentDirectory M) (k : ℕ) (s : Option ℕ) (slots : List (Option ℕ))
      → ((i a : ℕ)
          → get_elem? (s ∷ slots) i ≡ some (some a)
          → get_elem? d.regions (k + i) ≡ some (some a))
      → (i a : ℕ) → get_elem? slots i ≡ some (some a)
      → get_elem? d.regions (suc k + i) ≡ some (some a)
  shift d k s slots inside i a at =
      subst (λ j. get_elem? d.regions j ≡ some (some a)) (omega arith) (inside (suc i) a at)

  metas-Known :
      (d : ConcurrentDirectory M) (k : ℕ) (slots : List (Option ℕ))
      → ((i a : ℕ)
          → get_elem? slots i ≡ some (some a)
          → get_elem? d.regions (k + i) ≡ some (some a))
      → Table d.entries k slots
      → All (Known d) (metas d.entries slots)
  metas-Known d k [] inside v = tt
  metas-Known d k (none ∷ slots) inside v =
      metas-Known d (suc k) slots (shift d k none slots inside) v
  metas-Known d k (some b ∷ slots) inside (here, f, there, named, rest) =
      let mine : get_elem? d.regions f.meta.id ≡ some (some b) =
        subst (λ i. get_elem? d.regions i ≡ some (some b)) (omega (arith, named))
          (inside 0 b refl) in
      subst (All (Known d)) (sym (metas-some d.entries slots b f there)) (
        (f, entry-of d f.meta.id b f mine there, refl),
        metas-Known d (suc k) slots (shift d k (some b) slots inside) rest,
      )

  metas-above :
      (entries : List (RegionEntry M)) (k : ℕ) (slots : List (Option ℕ))
      → Table entries k slots
      → All (λ r. k ≤ r.id) (metas entries slots)
  metas-above entries k [] v = tt
  metas-above entries k (none ∷ slots) v =
      weaker k (metas entries slots) (metas-above entries (suc k) slots v)
  metas-above entries k (some b ∷ slots) (here, f, there, named, rest) =
      subst (All (λ r. k ≤ r.id)) (sym (metas-some entries slots b f there)) (
        omega (arith, named),
        weaker k (metas entries slots) (metas-above entries (suc k) slots rest),
      )

  metas-Unlike :
      (entries : List (RegionEntry M)) (k : ℕ) (slots : List (Option ℕ))
      → Table entries k slots
      → Unlike (metas entries slots)
  metas-Unlike entries k [] v = tt
  metas-Unlike entries k (none ∷ slots) v = metas-Unlike entries (suc k) slots v
  metas-Unlike entries k (some b ∷ slots) (here, f, there, named, rest) =
      subst Unlike (sym (metas-some entries slots b f there)) (
        apart k f.meta.id (metas entries slots) named (metas-above entries (suc k) slots rest),
        metas-Unlike entries (suc k) slots rest,
      )

  -- The candidates of one tier in the order of the policy.
  pub sorted-Held :
      (d : ConcurrentDirectory M) (tier : Residency → Bool)
      (order : EvictCandidate → EvictCandidate → Ordering)
      → IsTable d
      → All (Held tier d) (sort_by order (candidates tier (list_regions d)))
        × Separate (sort_by order (candidates tier (list_regions d)))
  unfolding list_regions
  sorted-Held d tier order v =
      let regs = metas d.entries d.regions in
      (
        sort_by-All (Held tier d) order (candidates tier regs) (
            candidates-Held d tier regs (
              metas-Known d 0 d.regions
                (λ i a at. subst (λ j. get_elem? d.regions j ≡ some (some a)) (omega arith) at) v)),
        sort_by-Separate order (candidates tier regs)
            (candidates-Separate tier regs (metas-Unlike d.entries 0 d.regions v)),
      )

  clash :
      (d : ConcurrentDirectory M) (x y : EvictCandidate)
      → Held is_warm d x
      → Held is_hot d y
      → y.0 ≢ x.0
  clash d x y (e, at, tier, used) (f, there, other, size) same =
      let both : f ≡ e = some-inj f e (sym there ∙ ap (entry d) same ∙ at) in
      let again : is_hot e.meta.residency ≡ true =
        ap (λ z. is_hot z.meta.residency) (sym both) ∙ other in
      absurd (ground arith)

  hot-ne :
      (d : ConcurrentDirectory M) (x : EvictCandidate) (ys : List EvictCandidate)
      → Held is_warm d x
      → All (Held is_hot d) ys
      → All (λ y. y.0 ≢ x.0) ys
  hot-ne d x [] p q = tt
  hot-ne d x (y ∷ ys) p q = (λ same. clash d x y p q.0 same, hot-ne d x ys p q.1)

  -- No region is both Warm and Hot.
  pub tiers-Separate :
      (d : ConcurrentDirectory M) (xs ys : List EvictCandidate)
      → All (Held is_warm d) xs
      → All (Held is_hot d) ys
      → All (λ x. All (λ y. y.0 ≢ x.0) ys) xs
  tiers-Separate d [] ys p q = tt
  tiers-Separate d (x ∷ xs) ys (px, p) q = (hot-ne d x ys px q, tiers-Separate d xs ys p q)
