-- ===== src/Allocator/Slab/Slots.antt =====
-- The offsets of the slots of `SlabAllocator` (crates/tvm-core/src/allocator.rs).
use native.Mathlib.Decide.{dec_lt}
use tvm_wasm.Base.{
  ℕ, zero, suc, ◌+◌, ◌*◌, ◌%◌, ◌≤◌, ◌<◌, ◌≡◌, ◌≢◌, if◌then◌else◌, refl, ap, ◌∙◌, inl, inr, List, [],
  ◌∷◌, false, Bool-cases, All, length, ◌==◌, u32_mod, arith,
}
use tvm_wasm.Allocator.Slab.{slots, contains}

-- The offset of one of `n` slots.
abbrev pub Slot : ℕ → ℕ → ℕ → Type 0
Slot n class_size off = (i : ℕ) × (i < n) × (off ≡ i * class_size)

abbrev pub Distinct : List ℕ → Type 0
Distinct [] = Unit {0}
Distinct (x ∷ xs) = (contains xs x ≡ false) × Distinct xs

slot_fits : (i n c : ℕ) → i ≤ n → n * c < u32_mod → i * c < u32_mod
slot_fits i n c h k = grind arith

slots_above : (c i n x : ℕ) → (i + n) * c < u32_mod → x < i * c → contains (slots c i n) x ≡ false
slots_above c i zero x h k = refl
slots_above c i (suc n) x h k =
    let here : i * c < u32_mod = slot_fits i (i + suc n) c (omega arith) h in
    ground (arith, here, slots_above c (suc i) n x (omega arith) (omega arith))

pub slots-Slot : (c i n m : ℕ) → m * c < u32_mod → i + n ≤ m → All (Slot m c) (slots c i n)
slots-Slot c i zero m h k = tt
slots-Slot c i (suc n) m h k =
    let here : i * c < u32_mod = slot_fits i m c (omega arith) h in
    ((i, omega arith, omega arith), slots-Slot c (suc i) n m h (omega arith))

pub slots-Distinct : (c i n : ℕ) → 0 < c → (i + n) * c < u32_mod → Distinct (slots c i n)
slots-Distinct c i zero pos h = tt
slots-Distinct c i (suc n) pos h =
    let here : i * c < u32_mod = slot_fits i (i + suc n) c (omega arith) h in
    (
      slots_above c (suc i) n ((i * c) % u32_mod) (omega arith) (omega arith),
      slots-Distinct c (suc i) n pos (omega arith),
    )

pub length-slots : (c i n : ℕ) → length (slots c i n) ≡ n
length-slots c i zero = refl
length-slots c i (suc n) = ap suc (length-slots c (suc i) n)

without : ℕ → List ℕ → List ℕ
without x [] = []
without x (y ∷ ys) = if y == x then without x ys else y ∷ without x ys

without_absent : (x : ℕ) (ys : List ℕ) → contains ys x ≡ false → without x ys ≡ ys
unfolding without
without_absent x [] h = refl
without_absent x (y ∷ ys) h = ground (arith, without_absent x ys)

length-without : (x : ℕ) (ys : List ℕ) → Distinct ys → length ys ≤ suc (length (without x ys))
unfolding without
length-without x [] d = omega arith
length-without x (y ∷ ys) d =
    ground (arith, length-without x ys d.1, without_absent y ys d.0, without_absent x ys)

without-contains :
    (x z : ℕ) (ys : List ℕ) → contains ys z ≡ false → contains (without x ys) z ≡ false
unfolding without
without-contains x z [] h = refl
without-contains x z (y ∷ ys) h = ground (arith, without-contains x z ys)

without-Distinct : (x : ℕ) (ys : List ℕ) → Distinct ys → Distinct (without x ys)
unfolding without
without-Distinct x [] d = tt
without-Distinct x (y ∷ ys) d =
    ground (arith, without-Distinct x ys d.1, without-contains x y ys d.0)

Slot-lower : (n c y : ℕ) → Slot (suc n) c y → y ≢ n * c → Slot n c y
Slot-lower n c y (i, h, e) other = (
  i,
  elim (dec_lt i n) [ yes lt ↦ lt | no ge ↦ absurd (other (e ∙ ap (λ t. t * c) (omega arith))) ],
  e,
)

without-Slot :
    (n c : ℕ) (ys : List ℕ) → All (Slot (suc n) c) ys → All (Slot n c) (without (n * c) ys)
unfolding without
without-Slot n c [] l = tt
without-Slot n c (y ∷ ys) l = elim (Bool-cases (y == n * c)) [
  | inl same ↦ rw same (without-Slot n c ys l.1)
  | inr other ↦ rw other (Slot-lower n c y l.0 (ground arith), without-Slot n c ys l.1)
]

-- There are no more distinct slots than slots.
pub length-le-slots : (n c : ℕ) (ys : List ℕ) → Distinct ys → All (Slot n c) ys → length ys ≤ n
length-le-slots zero c [] d l = omega arith
length-le-slots zero c (y ∷ ys) d l = elim l.0.1 [ ]
length-le-slots (suc n) c ys d l = omega (
  arith,
  length-without (n * c) ys d,
  length-le-slots n c (without (n * c) ys) (without-Distinct (n * c) ys d) (without-Slot n c ys l),
)
