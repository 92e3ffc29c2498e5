-- ===== src/Concurrent/Table.antt =====
-- The table of regions of a `ConcurrentDirectory` (crates/tvm-core/src/concurrent.rs), and the sum of the
-- resident sizes after a change of one entry.
use native.Mathlib.Decide.{ℕ_discrete}
use tvm_wasm.Base.{
  ℕ, zero, suc, ◌+◌, ◌≡◌, ◌≢◌, ◌<◌, refl, sym, ap, inl, inr, subst, ◌∙◌, true, Option-cases, List,
  [], ◌∷◌, Option, none, some, some-inj, get_elem?, set, arith, get_elem?-set_self,
  get_elem?-set_ne, get_elem?-some_lt,
}
use tvm_wasm.Region.{cold}
use tvm_wasm.Directory.{RegionEntry}
use tvm_wasm.Concurrent.{ConcurrentDirectory, entry, metas, list_regions}
use tvm_wasm.Concurrent.Demote.{counts_toward_resident, total_resident}

module _ {M : Type 0} where
  -- From slot `k` on, a slot in use has the address of its own number, and an entry of that id there.
  abbrev pub Table : List (RegionEntry M) → ℕ → List (Option ℕ) → Type 0
  Table entries k [] = Unit {0}
  Table entries k (none ∷ slots) = Table entries (suc k) slots
  Table entries k (some a ∷ slots) =
      (a ≡ k)
      × (e : RegionEntry M) × (get_elem? entries a ≡ some e)
      × (e.meta.id ≡ k)
      × Table entries (suc k) slots

  -- Each slot in use has an `Arc` of its own.
  abbrev pub IsTable : ConcurrentDirectory M → Type 0
  IsTable d = Table d.entries 0 d.regions

  -- The sum that `demote_until` brings down to its target.
  abbrev pub resident : ConcurrentDirectory M → ℕ
  resident d = total_resident (list_regions d)

  -- The entry at an address is another one.
  abbrev pub changed : ConcurrentDirectory M → ℕ → RegionEntry M → List ℕ → ConcurrentDirectory M
  changed c a x lru = record { entries = set c.entries a x; regions = c.regions; warm_lru = lru }

  pub Table-at :
      (entries : List (RegionEntry M)) (k : ℕ) (slots : List (Option ℕ)) (i a : ℕ)
      → Table entries k slots
      → get_elem? slots i ≡ some (some a)
      → (a ≡ k + i) × (e : RegionEntry M) × (get_elem? entries a ≡ some e) × (e.meta.id ≡ k + i)
  Table-at entries k [] i a v slot = absurd (ground arith)
  Table-at entries k (none ∷ slots) zero a v slot = absurd (ground arith)
  Table-at entries k (none ∷ slots) (suc i) a v slot =
      let (here, e, at, named) = Table-at entries (suc k) slots i a v slot in
      (omega (arith, here), e, at, omega (arith, named))
  Table-at entries k (some b ∷ slots) zero a (here, f, there, named, rest) slot =
      let same : b ≡ a = ground arith in
      (
        omega (arith, here, same),
        f,
        subst (λ c. get_elem? entries c ≡ some f) same there,
        omega (arith, named),
      )
  Table-at entries k (some b ∷ slots) (suc i) a (_, _, _, _, rest) slot =
      let (here, e, at, named) = Table-at entries (suc k) slots i a rest slot in
      (omega (arith, here), e, at, omega (arith, named))

  pub Table-set :
      (entries : List (RegionEntry M)) (k : ℕ) (slots : List (Option ℕ)) (a : ℕ)
      (e x : RegionEntry M)
      → get_elem? entries a ≡ some e
      → x.meta.id ≡ e.meta.id
      → Table entries k slots
      → Table (set entries a x) k slots
  Table-set entries k [] a e x at same v = tt
  Table-set entries k (none ∷ slots) a e x at same v =
      Table-set entries (suc k) slots a e x at same v
  Table-set entries k (some b ∷ slots) a e x at same (here, f, there, named, rest) =
      elim (ℕ_discrete a b) [
        | no other ↦ (
          here,
          f,
          get_elem?-set_ne entries a b x other ∙ there,
          named,
          Table-set entries (suc k) slots a e x at same rest,
        )
        | yes hit ↦
            let both : e ≡ f =
              some-inj e f (sym at ∙ subst (λ c. get_elem? entries c ≡ some f) (sym hit) there) in
            (
              here,
              x,
              subst (λ c. get_elem? (set entries a x) c ≡ some x) hit
                  (get_elem?-set_self entries a x (get_elem?-some_lt entries a at)),
              same ∙ ap (λ y. y.meta.id) both ∙ named,
              Table-set entries (suc k) slots a e x at same rest,
            )
      ]

  pub metas-some :
      (entries : List (RegionEntry M)) (slots : List (Option ℕ)) (b : ℕ) (f : RegionEntry M)
      → get_elem? entries b ≡ some f
      → metas entries (some b ∷ slots) ≡ f.meta ∷ metas entries slots
  metas-some entries slots b f at = ground arith

  metas-none :
      (entries : List (RegionEntry M)) (slots : List (Option ℕ)) (b : ℕ)
      → get_elem? entries b ≡ none
      → metas entries (some b ∷ slots) ≡ metas entries slots
  metas-none entries slots b gone = ground arith

  pub get_elem?-hit :
      (entries : List (RegionEntry M)) (a b : ℕ) (e x : RegionEntry M)
      → a ≡ b
      → get_elem? entries a ≡ some e
      → get_elem? (set entries a x) b ≡ some x
  get_elem?-hit entries a b e x same at =
      subst (λ c. get_elem? (set entries a x) c ≡ some x) same
        (get_elem?-set_self entries a x (get_elem?-some_lt entries a at))

  -- An address below the slots.
  metas-set_below :
      (entries : List (RegionEntry M)) (k : ℕ) (slots : List (Option ℕ)) (a : ℕ) (x : RegionEntry M)
      → a < k
      → Table entries k slots
      → metas (set entries a x) slots ≡ metas entries slots
  metas-set_below entries k [] a x below v = refl
  metas-set_below entries k (none ∷ slots) a x below v =
      metas-set_below entries (suc k) slots a x (omega (arith, below)) v
  metas-set_below entries k (some b ∷ slots) a x below (here, f, there, named, rest) =
      let away : a ≢ b = omega (arith, below, here) in
      metas-some (set entries a x) slots b f (get_elem?-set_ne entries a b x away ∙ there)
      ∙ ap (λ t. f.meta ∷ t) (metas-set_below entries (suc k) slots a x (omega (arith, below)) rest)
      ∙ sym (metas-some entries slots b f there)

  -- Another entry with the same metadata.
  pub metas-set_same :
      (entries : List (RegionEntry M)) (slots : List (Option ℕ)) (a : ℕ) (e x : RegionEntry M)
      → get_elem? entries a ≡ some e
      → x.meta ≡ e.meta
      → metas (set entries a x) slots ≡ metas entries slots
  metas-set_same entries [] a e x at same = refl
  metas-set_same entries (none ∷ slots) a e x at same = metas-set_same entries slots a e x at same
  metas-set_same entries (some b ∷ slots) a e x at same =
      let rest = metas-set_same entries slots a e x at same in
      elim (ℕ_discrete a b) [
        | no other ↦ elim (Option-cases (get_elem? entries b)) [
          | inl gone ↦
              metas-none (set entries a x) slots b (get_elem?-set_ne entries a b x other ∙ gone)
              ∙ rest
              ∙ sym (metas-none entries slots b gone)
          | inr (f, there) ↦
              metas-some (set entries a x) slots b f (get_elem?-set_ne entries a b x other ∙ there)
              ∙ ap (λ t. f.meta ∷ t) rest
              ∙ sym (metas-some entries slots b f there)
        ]
        | yes hit ↦
            metas-some (set entries a x) slots b x (get_elem?-hit entries a b e x hit at)
            ∙ ap (λ m. m ∷ metas (set entries a x) slots) same
            ∙ ap (λ t. e.meta ∷ t) rest
            ∙ sym (metas-some entries slots b e (subst (λ c. get_elem? entries c ≡ some e) hit at))
      ]

  -- A resident entry that becomes Cold takes its size away.
  pub total-set_cold :
      (entries : List (RegionEntry M)) (k : ℕ) (slots : List (Option ℕ)) (i a : ℕ)
      (e x : RegionEntry M)
      → Table entries k slots
      → get_elem? slots i ≡ some (some a)
      → get_elem? entries a ≡ some e
      → counts_toward_resident e.meta.residency ≡ true
      → x.meta.residency ≡ cold
      → total_resident (metas (set entries a x) slots) + e.meta.used
        ≡ total_resident (metas entries slots)
  unfolding total_resident
  total-set_cold entries k [] i a e x v slot at warm gone = absurd (ground arith)
  total-set_cold entries k (none ∷ slots) zero a e x v slot at warm gone = absurd (ground arith)
  total-set_cold entries k (none ∷ slots) (suc i) a e x v slot at warm gone =
      total-set_cold entries (suc k) slots i a e x v slot at warm gone
  total-set_cold entries k (some b ∷ slots) zero a e x (here, f, there, named, rest) slot at warm
        gone =
      let same : a ≡ b = ground arith in
      let before =
        metas-some entries slots b e (subst (λ c. get_elem? entries c ≡ some e) same at) in
      let after = metas-some (set entries a x) slots b x (get_elem?-hit entries a b e x same at) in
      let below = metas-set_below entries (suc k) slots a x (omega (arith, same, here)) rest in
      let was : total_resident (metas entries (some b ∷ slots))
          ≡ e.meta.used + total_resident (metas entries slots) =
        ap total_resident before ∙ ground (arith, warm) in
      let now : total_resident (metas (set entries a x) (some b ∷ slots))
          ≡ total_resident (metas entries slots) =
        ap total_resident (after ∙ ap (λ t. x.meta ∷ t) below) ∙ ground (arith, gone) in
      omega (arith, was, now)
  total-set_cold entries k (some b ∷ slots) (suc i) a e x (here, f, there, named, rest) slot at warm
        gone =
      let away : a ≢ b = omega (arith, (Table-at entries (suc k) slots i a rest slot).0, here) in
      let before = metas-some entries slots b f there in
      let after =
        metas-some (set entries a x) slots b f (get_elem?-set_ne entries a b x away ∙ there) in
      let later = total-set_cold entries (suc k) slots i a e x rest slot at warm gone in
      rw (before, after) (ground (arith, later))

  -- An entry of the table, with its address.
  pub entry-at :
      (d : ConcurrentDirectory M) (id : ℕ) (e : RegionEntry M)
      → entry d id ≡ some e
      → (a : ℕ) × (get_elem? d.regions id ≡ some (some a)) × (get_elem? d.entries a ≡ some e)
  unfolding entry
  entry-at d id e h = elim (Option-cases (get_elem? d.regions id)) [
    | inl gone ↦ absurd (ground arith)
    | inr (none, at) ↦ absurd (ground arith)
    | inr (some a, at) ↦ (a, at, ground arith)
  ]

  pub entry-of :
      (d : ConcurrentDirectory M) (id a : ℕ) (e : RegionEntry M)
      → get_elem? d.regions id ≡ some (some a)
      → get_elem? d.entries a ≡ some e
      → entry d id ≡ some e
  unfolding entry
  entry-of d id a e slot at = ground arith
