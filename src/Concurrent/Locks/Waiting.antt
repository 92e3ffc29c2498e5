-- ===== src/Concurrent/Locks/Waiting.antt =====
-- Threads that wait for locks of crates/tvm-core/src/concurrent.rs.
use tvm_wasm.Base.{
  ℕ, zero, suc, ◌+◌, ◌≡◌, ◌≤◌, ◌<◌, refl, subst, ◌⊎◌, inl, inr, Bool, true, false, Bool-cases, List,
  [], ◌∷◌, some, some-inj, get_elem?, set, All, arith,
}
use tvm_wasm.Concurrent.Locks.{
  Action, acquire, release, Thread, held_against, is_blocked, give_back, step,
}
use tvm_wasm.Concurrent.Locks.Ordered.{limit, Ordered}

abbrev pub Sound : Thread → Type 0
Sound t = Ordered t.held t.rest

pub All-get :
    (ts : List Thread) (i : ℕ) (t : Thread) → All Sound ts → get_elem? ts i ≡ some t → Sound t
All-get [] i t h at = absurd (ground arith)
All-get (u ∷ ts) zero t h at = subst Sound (some-inj u t at) h.0
All-get (u ∷ ts) (suc i) t h at = All-get ts i t h.1 at

pub All-set :
    (ts : List Thread) (i : ℕ) (t : Thread) → All Sound ts → Sound t → All Sound (set ts i t)
All-set [] i t h s = tt
All-set (u ∷ ts) zero t h s = (s, h.1)
All-set (u ∷ ts) (suc i) t h s = (h.0, All-set ts i t h.1 s)

-- What keeps a thread out is a lock that another one holds.
held-above :
    (l : ℕ) (x : Bool) (held : List (ℕ × Bool)) (bound : ℕ)
    → held_against l x held ≡ true
    → All (λ h. h.0 < bound) held
    → l < bound
held-above l x [] bound out h = absurd (ground arith)
held-above l x ((k, only) ∷ held) bound out h = ground (arith, held-above l x held bound)

blocked-holder :
    (l : ℕ) (x : Bool) (ts : List Thread)
    → is_blocked l x ts ≡ true
    → (j : ℕ) × (u : Thread) × (get_elem? ts j ≡ some u) × (held_against l x u.held ≡ true)
unfolding is_blocked
blocked-holder l x [] out = absurd (ground arith)
blocked-holder l x (t ∷ ts) out = elim (Bool-cases (held_against l x t.held)) [
  | inl mine ↦ (0, t, refl, mine)
  | inr other ↦
      let (j, u, at, theirs) = blocked-holder l x ts (ground (arith, out, other)) in
      (suc j, u, at, theirs)
]

-- Some thread can take a step.
abbrev pub CanStep : List Thread → Type 0
CanStep ts = (j : ℕ) × (ts' : List Thread) × (step ts j ≡ some ts')

pub step-release :
    (ts : List Thread) (i : ℕ) (t : Thread) (l : ℕ) (r : List Action)
    → get_elem? ts i ≡ some t
    → t.rest ≡ release l ∷ r
    → CanStep ts
unfolding step
step-release ts i t l r at next =
    (i, set ts i (record { held = give_back l t.held; rest = r }), ground arith)

step-acquire :
    (ts : List Thread) (i : ℕ) (t : Thread) (l : ℕ) (x : Bool) (r : List Action)
    → get_elem? ts i ≡ some t
    → t.rest ≡ acquire l x ∷ r
    → is_blocked l x ts ≡ false
    → CanStep ts
unfolding step
step-acquire ts i t l x r at next free =
    (i, set ts i (record { held = (l, x) ∷ t.held; rest = r }), ground arith)

pub actions-cases :
    (actions : List Action)
    → (actions ≡ [])
      ⊎ ((l : ℕ) × (r : List Action) × (actions ≡ release l ∷ r))
      ⊎ ((l : ℕ) × (x : Bool) × (r : List Action) × (actions ≡ acquire l x ∷ r))
actions-cases [] = inl refl
actions-cases (release l ∷ r) = inr (inl (l, r, refl))
actions-cases (acquire l x ∷ r) = inr (inr (l, x, r, refl))

-- A thread that waits for a lock leads to one that can go on.
pub waits-CanStep :
    (left : ℕ) (ts : List Thread) (i : ℕ) (t : Thread) (l : ℕ) (x : Bool) (r : List Action)
    → All Sound ts
    → get_elem? ts i ≡ some t
    → t.rest ≡ acquire l x ∷ r
    → limit ≤ l + left
    → CanStep ts
waits-CanStep zero ts i t l x r v at next bound =
    let s = subst (Ordered t.held) next (All-get ts i t v at) in absurd (omega (arith, s.1, bound))
waits-CanStep (suc left) ts i t l x r v at next bound = elim (Bool-cases (is_blocked l x ts)) [
  | inr free ↦ step-acquire ts i t l x r at next free
  | inl out ↦
      let (j, u, there, holds) = blocked-holder l x ts out in
      elim (actions-cases u.rest) [
        | inl ended ↦
            let empty : u.held ≡ [] = subst (Ordered u.held) ended (All-get ts j u v there) in
            let never : held_against l x [] ≡ true =
              subst (λ h. held_against l x h ≡ true) empty holds in
            absurd (ground (arith, never))
        | inr (inl (k, rest, same)) ↦ step-release ts j u k rest there same
        | inr (inr (k, y, rest, same)) ↦
            let s = subst (Ordered u.held) same (All-get ts j u v there) in
            waits-CanStep left ts j u k y rest v there same
              (omega (arith, bound, held-above l x u.held k holds s.0))
      ]
]
