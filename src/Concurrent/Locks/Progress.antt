-- ===== src/Concurrent/Locks/Progress.antt =====
-- Threads that run the methods of crates/tvm-core/src/concurrent.rs side by side.
use tvm_wasm.Base.{
  ℕ, zero, suc, ◌+◌, ◌≡◌, ◌≤◌, refl, ap, subst, ◌⊎◌, inl, inr, Option-cases, List, [], ◌∷◌, some,
  some-inj, get_elem?, set, length, All, arith,
}
use tvm_wasm.Concurrent.Locks.{Operation, Thread, start, give_back, step, run}
use tvm_wasm.Concurrent.Locks.Ordered.{limit, Ordered, Fits, program-Ordered}
use tvm_wasm.Concurrent.Locks.Waiting.{
  Sound, All-get, All-set, CanStep, step-release, actions-cases, waits-CanStep,
}

abbrev pub IsDone : Thread → Type 0
IsDone t = t.rest ≡ []

thread-CanStep :
    (ts : List Thread) (i : ℕ) (t : Thread)
    → All Sound ts
    → get_elem? ts i ≡ some t
    → IsDone t ⊎ CanStep ts
thread-CanStep ts i t v at = elim (actions-cases t.rest) [
  | inl ended ↦ inl ended
  | inr (inl (k, rest, same)) ↦ inr (step-release ts i t k rest at same)
  | inr (inr (k, y, rest, same)) ↦ inr (waits-CanStep limit ts i t k y rest v at same (omega arith))
]

IsDone-or :
    (Q : Type 0) (ts : List Thread)
    → ((i : ℕ) (t : Thread) → get_elem? ts i ≡ some t → IsDone t ⊎ Q)
    → All IsDone ts ⊎ Q
IsDone-or Q [] each = inl tt
IsDone-or Q (t ∷ ts) each = elim (each 0 t refl) [
  | inr q ↦ inr q
  | inl ended ↦ elim (IsDone-or Q ts (λ i u at. each (suc i) u at)) [
    | inr q ↦ inr q
    | inl rest ↦ inl (ended, rest)
  ]
]

-- The actions that are left.
abbrev work : List Thread → ℕ
work [] = 0
work (t ∷ ts) = length t.rest + work ts

work-set :
    (ts : List Thread) (i : ℕ) (t u : Thread)
    → get_elem? ts i ≡ some t
    → work (set ts i u) + length t.rest ≡ work ts + length u.rest
work-set [] i t u at = absurd (ground arith)
work-set (x ∷ ts) zero t u at =
    let same : length x.rest ≡ length t.rest = ap (λ y. length y.rest) (some-inj x t at) in
    omega (arith, same)
work-set (x ∷ ts) (suc i) t u at = omega (arith, work-set ts i t u at)

-- One action of one thread is done.
set-Sound :
    (ts ts' : List Thread) (i : ℕ) (t u : Thread)
    → get_elem? ts i ≡ some t
    → set ts i u ≡ ts'
    → length t.rest ≡ suc (length u.rest)
    → Sound u
    → All Sound ts
    → All Sound ts' × (work ts' + 1 ≡ work ts)
set-Sound ts ts' i t u at made size s v = (
  subst (All Sound) made (All-set ts i u v s),
  omega (arith, ap work made, work-set ts i t u at, size),
)

-- A step keeps the order of the locks and leaves one action less.
step-Sound :
    (ts ts' : List Thread) (i : ℕ)
    → step ts i ≡ some ts'
    → All Sound ts
    → All Sound ts' × (work ts' + 1 ≡ work ts)
unfolding step
step-Sound ts ts' i taken v = elim (Option-cases (get_elem? ts i)) [
  | inl gone ↦ absurd (ground arith)
  | inr (t, at) ↦ elim (actions-cases t.rest) [
    | inl ended ↦ absurd (ground arith)
    | inr (inl (l, r, same)) ↦
        let s = subst (Ordered t.held) same (All-get ts i t v at) in
        set-Sound ts ts' i t (record { held = give_back l t.held; rest = r }) at (ground arith)
          (ap length same) s v
    | inr (inr (l, x, r, same)) ↦
        let s = subst (Ordered t.held) same (All-get ts i t v at) in
        set-Sound ts ts' i t (record { held = (l, x) ∷ t.held; rest = r }) at (ground arith)
          (ap length same) s.2 v
  ]
]

run-Sound :
    (schedule : List ℕ) (ts ts' : List Thread)
    → run schedule ts ≡ some ts'
    → All Sound ts
    → All Sound ts'
unfolding run
run-Sound [] ts ts' taken v = subst (All Sound) (some-inj ts ts' taken) v
run-Sound (i ∷ schedule) ts ts' taken v = elim (Option-cases (step ts i)) [
  | inl stuck ↦ absurd (ground arith)
  | inr (ts1, first) ↦
      run-Sound schedule ts1 ts' (rw (run, first) at taken) (step-Sound ts ts1 i first v).0
]

start-Sound : (oss : List (List Operation)) → All (All Fits) oss → All Sound (start oss)
start-Sound [] fits = tt
start-Sound (os ∷ oss) fits = (program-Ordered os fits.0, start-Sound oss fits.1)

abbrev Finishes : List Thread → Type 0
Finishes ts = (more : List ℕ) × (ts' : List Thread) × (run more ts ≡ some ts') × All IsDone ts'

finish : (left : ℕ) (ts : List Thread) → work ts ≤ left → All Sound ts → Finishes ts
unfolding run
finish zero ts bound v = elim (IsDone-or (CanStep ts) ts (λ i t at. thread-CanStep ts i t v at)) [
  | inl ended ↦ ([], ts, refl, ended)
  | inr (j, ts1, taken) ↦ absurd (omega (arith, bound, (step-Sound ts ts1 j taken v).1))
]
finish (suc left) ts bound v =
    elim (IsDone-or (CanStep ts) ts (λ i t at. thread-CanStep ts i t v at)) [
      | inl ended ↦ ([], ts, refl, ended)
      | inr (j, ts1, taken) ↦
          let (sound, less) = step-Sound ts ts1 j taken v in
          let (more, ts', runs, ended) = finish left ts1 (omega (arith, bound, less)) sound in
          (j ∷ more, ts', rw (run, taken) runs, ended)
    ]

-- Threads that each run any methods of the concurrent directory one after the other, over regions
-- with u16 ids, never deadlock: from the state that any schedule of their lock actions has
-- reached, some further schedule runs every thread to its end.
pub run_finishes :
    (oss : List (List Operation)) (schedule : List ℕ) (ts : List Thread)
    → All (All Fits) oss
    → run schedule (start oss) ≡ some ts
    → (more : List ℕ) × (ts' : List Thread) × (run more ts ≡ some ts') × All IsDone ts'
run_finishes oss schedule ts fits taken =
    finish (work ts) ts (omega arith)
      (run-Sound schedule (start oss) ts taken (start-Sound oss fits))
