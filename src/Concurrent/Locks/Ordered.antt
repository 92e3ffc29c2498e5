-- ===== src/Concurrent/Locks/Ordered.antt =====
-- The order in which the methods of crates/tvm-core/src/concurrent.rs take their locks.
use tvm_wasm.Base.{
  ℕ, ◌+◌, ◌≡◌, ◌≢◌, ◌<◌, refl, sym, subst, inl, inr, Bool, true, false, ltb, ◌==◌, ◌&&◌, Bool-cases,
  if◌then◌else◌, List, [], ◌∷◌, ◌++◌, All, u16_mod, arith,
}
use tvm_wasm.Concurrent.Locks.{
  Action, acquire, release, alone, entry_arc_locks, Operation, create_region, destroy_region,
  on_region, spill_region, cross_region_copy, list_regions, each_alone, both_locks, table_lock,
  lru_lock, region_lock, locks, program, give_back,
}

-- The number of locks.
abbrev pub limit : ℕ
limit = u16_mod + 2

-- Each lock is acquired above those held, and all are given back.
abbrev pub Ordered : List (ℕ × Bool) → List Action → Type 0
Ordered held [] = held ≡ []
Ordered held (acquire l x ∷ rest) =
    All (λ h. h.0 < l) held × (l < limit) × Ordered ((l, x) ∷ held) rest
Ordered held (release l ∷ rest) = Ordered (give_back l held) rest

Ordered-append :
    (held : List (ℕ × Bool)) (xs ys : List Action)
    → Ordered held xs
    → Ordered [] ys
    → Ordered held (xs ++ ys)
Ordered-append held [] ys p q = subst (λ h. Ordered h ys) (sym p) q
Ordered-append held (acquire l x ∷ xs) ys p q =
    (p.0, p.1, Ordered-append ((l, x) ∷ held) xs ys p.2 q)
Ordered-append held (release l ∷ xs) ys p q = Ordered-append (give_back l held) xs ys p q

back_self :
    (l : ℕ) (x : Bool) (held : List (ℕ × Bool)) → give_back l ((l, x) ∷ held) ≡ give_back l held
back_self l x held = ground arith

alone-Ordered : (l : ℕ) → l < limit → Ordered [] (alone l)
alone-Ordered l fits = (tt, fits, back_self l true [])

maybe-Ordered : (b : Bool) (xs : List Action) → Ordered [] xs → Ordered [] (if b then xs else [])
maybe-Ordered true xs p = p
maybe-Ordered false xs p = refl

each_alone-Ordered : (ids : List ℕ) → All (λ id. id < u16_mod) ids → Ordered [] (each_alone ids)
each_alone-Ordered [] fits = refl
each_alone-Ordered (id ∷ ids) fits =
    Ordered-append [] (alone (region_lock id)) (each_alone ids)
      (alone-Ordered (region_lock id) (omega (arith, fits.0))) (each_alone-Ordered ids fits.1)

pair-Ordered :
    (lo hi : ℕ)
    → lo < hi
    → hi < limit
    → Ordered [] (acquire lo true ∷ acquire hi true ∷ release hi ∷ release lo ∷ [])
pair-Ordered lo hi below fits =
    (tt, omega (arith, below, fits), ((below, tt), fits, ground (arith, below)))

both_locks-Ordered :
    (src dst : ℕ) → src ≢ dst → src < u16_mod → dst < u16_mod → Ordered [] (both_locks src dst)
both_locks-Ordered src dst other f g = elim (Bool-cases (ltb src dst)) [
  | inl up ↦
      rw up
        (pair-Ordered (region_lock src) (region_lock dst) (ground (arith, up)) (omega (arith, g)))
  | inr down ↦ rw down (
      pair-Ordered (region_lock dst) (region_lock src) (ground (arith, down, other))
        (omega (arith, f)))
]

-- The regions of an operation have ids of 16 bits.
abbrev pub Fits : Operation → Type 0
Fits (create_region is_warm) = Unit {0}
Fits (destroy_region found) = Unit {0}
Fits (on_region id found) = id < u16_mod
Fits (spill_region id found moved) = id < u16_mod
Fits (cross_region_copy src src_found dst dst_found) = (src < u16_mod) × (dst < u16_mod)
Fits (list_regions ids) = All (λ id. id < u16_mod) ids

entry_arc-Ordered : Ordered [] entry_arc_locks
entry_arc-Ordered = (tt, omega arith, refl)

copy-Ordered :
    (src dst : ℕ) (dst_found : Bool)
    → src < u16_mod
    → dst < u16_mod
    → Ordered [] (
        if src == dst
        then alone (region_lock src)
        else entry_arc_locks ++ (if dst_found then both_locks src dst else []))
copy-Ordered src dst dst_found f g = elim (Bool-cases (src == dst)) [
  | inl same ↦ rw same (alone-Ordered (region_lock src) (omega (arith, f)))
  | inr other ↦ rw other (
      Ordered-append [] entry_arc_locks (if dst_found then both_locks src dst else [])
        entry_arc-Ordered
        (maybe-Ordered dst_found (both_locks src dst)
          (both_locks-Ordered src dst (ground (arith, other)) f g)))
]

-- One lock that may be taken.
maybe_alone-Ordered : (l : ℕ) (b : Bool) → l < limit → Ordered [] (if b then alone l else [])
maybe_alone-Ordered l b fits = maybe-Ordered b (alone l) (alone-Ordered l fits)

locks-Ordered : (o : Operation) → Fits o → Ordered [] (locks o)
unfolding locks
locks-Ordered (create_region is_warm) fits =
    Ordered-append [] (alone table_lock) (if is_warm then alone lru_lock else [])
      (alone-Ordered table_lock (omega arith)) (maybe_alone-Ordered lru_lock is_warm (omega arith))
locks-Ordered (destroy_region found) fits =
    Ordered-append [] (alone table_lock) (if found then alone lru_lock else [])
      (alone-Ordered table_lock (omega arith)) (maybe_alone-Ordered lru_lock found (omega arith))
locks-Ordered (on_region id found) fits =
    Ordered-append [] entry_arc_locks (if found then alone (region_lock id) else [])
      entry_arc-Ordered (maybe_alone-Ordered (region_lock id) found (omega (arith, fits)))
locks-Ordered (spill_region id found moved) fits =
    let entry_section = if found then alone (region_lock id) else [] in
    let lru_section = if found && moved then alone lru_lock else [] in
    Ordered-append [] entry_arc_locks (entry_section ++ lru_section) entry_arc-Ordered (
      Ordered-append [] entry_section lru_section
        (maybe_alone-Ordered (region_lock id) found (omega (arith, fits)))
        (maybe_alone-Ordered lru_lock (found && moved) (omega arith)))
locks-Ordered (list_regions ids) fits =
    Ordered-append [] entry_arc_locks (each_alone ids) entry_arc-Ordered
      (each_alone-Ordered ids fits)
locks-Ordered (cross_region_copy src false dst dst_found) fits = entry_arc-Ordered
locks-Ordered (cross_region_copy src true dst dst_found) fits =
    Ordered-append [] entry_arc_locks
      (if src == dst
        then alone (region_lock src)
        else entry_arc_locks ++ (if dst_found then both_locks src dst else []))
      entry_arc-Ordered (copy-Ordered src dst dst_found fits.0 fits.1)

pub program-Ordered : (os : List Operation) → All Fits os → Ordered [] (program os)
unfolding program
program-Ordered [] fits = refl
program-Ordered (o ∷ os) fits =
    Ordered-append [] (locks o) (program os) (locks-Ordered o fits.0) (program-Ordered os fits.1)
