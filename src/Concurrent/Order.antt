-- ===== src/Concurrent/Order.antt =====
-- The order of the candidates in `demote_until` of crates/tvm-core/src/concurrent.rs.
use tvm_wasm.Base.{◌≢◌, sym, inl, inr, Bool-cases, List, [], ◌∷◌, ◌++◌, All}
use tvm_wasm.Concurrent.Demote.{EvictCandidate, Ordering, is_greater, insert_by, sort_by}

-- No region twice.
abbrev pub Separate : List EvictCandidate → Type 0
Separate [] = Unit {0}
Separate (x ∷ xs) = All (λ y. y.0 ≢ x.0) xs × Separate xs

insert_by-All :
    (P : EvictCandidate → Type 0) (order : EvictCandidate → EvictCandidate → Ordering)
    (x : EvictCandidate) (xs : List EvictCandidate)
    → P x
    → All P xs
    → All P (insert_by order x xs)
unfolding insert_by
insert_by-All P order x [] p ps = (p, tt)
insert_by-All P order x (y ∷ ys) p ps = elim (Bool-cases (is_greater (order x y))) [
  | inl later ↦ rw later (ps.0, insert_by-All P order x ys p ps.1)
  | inr first ↦ rw first (p, ps)
]

insert_by-Separate :
    (order : EvictCandidate → EvictCandidate → Ordering) (x : EvictCandidate)
    (xs : List EvictCandidate)
    → All (λ y. y.0 ≢ x.0) xs
    → Separate xs
    → Separate (insert_by order x xs)
unfolding insert_by
insert_by-Separate order x [] other apart = (tt, tt)
insert_by-Separate order x (y ∷ ys) other apart = elim (Bool-cases (is_greater (order x y))) [
  | inl later ↦ rw later (
    insert_by-All (λ z. z.0 ≢ y.0) order x ys (λ e. other.0 (sym e)) apart.0,
    insert_by-Separate order x ys other.1 apart.1,
  )
  | inr first ↦ rw first (other, apart)
]

pub sort_by-All :
    (P : EvictCandidate → Type 0) (order : EvictCandidate → EvictCandidate → Ordering)
    (xs : List EvictCandidate)
    → All P xs
    → All P (sort_by order xs)
unfolding sort_by
sort_by-All P order [] ps = tt
sort_by-All P order (x ∷ xs) ps =
    insert_by-All P order x (sort_by order xs) ps.0 (sort_by-All P order xs ps.1)

pub sort_by-Separate :
    (order : EvictCandidate → EvictCandidate → Ordering) (xs : List EvictCandidate)
    → Separate xs
    → Separate (sort_by order xs)
unfolding sort_by
sort_by-Separate order [] apart = tt
sort_by-Separate order (x ∷ xs) apart =
    insert_by-Separate order x (sort_by order xs) (sort_by-All (λ y. y.0 ≢ x.0) order xs apart.0)
      (sort_by-Separate order xs apart.1)

pub append-All :
    (P : EvictCandidate → Type 0) (xs ys : List EvictCandidate)
    → All P xs
    → All P ys
    → All P (xs ++ ys)
append-All P [] ys p q = q
append-All P (x ∷ xs) ys p q = (p.0, append-All P xs ys p.1 q)

pub append-Separate :
    (xs ys : List EvictCandidate)
    → Separate xs
    → Separate ys
    → All (λ x. All (λ y. y.0 ≢ x.0) ys) xs
    → Separate (xs ++ ys)
append-Separate [] ys p q apart = q
append-Separate (x ∷ xs) ys p q apart =
    (append-All (λ y. y.0 ≢ x.0) xs ys p.0 apart.0, append-Separate xs ys p.1 q apart.1)
