-- ===== src/Allocator/Slab/Sound.antt =====
-- Valid states of `SlabAllocator` (crates/tvm-core/src/allocator.rs), its `alloc` and `dealloc`.
use native.Mathlib.Nat.{mul-div-le, mul-mod_left, div-lt_iff_lt-mul, div-add-mod'}
use native.Mathlib.Decide.{dec_lt}
use tvm_wasm.Base.{
  ℕ, suc, ◌+◌, ◌*◌, ◌/◌, ◌%◌, ◌≤◌, ◌<◌, ◌≡◌, ◌≢◌, refl, ap, ◌∙◌, ◌⊎◌, inl, inr, List, [], ◌∷◌, true,
  false, Bool-cases, List-cases, All, length, ◌==◌, ok, err, along_ok, add32, sub32, sym, subst,
  allocation_failed, out_of_bounds, u32_mod, arith,
}
use tvm_wasm.Allocator.Slab.{SlabAllocator, contains, new, alloc, dealloc}
use tvm_wasm.Allocator.Slab.Slots.{
  Slot, Distinct, slots-Slot, slots-Distinct, length-slots, length-le-slots,
}

pub record IsSlab (a : SlabAllocator) : Type 0 where
  pub capacity_fits : a.capacity < u32_mod
  pub positive : 0 < a.class_size
  pub slots_fit : a.n_slots * a.class_size ≤ a.capacity
  pub are_slots : All (Slot a.n_slots a.class_size) a.free_slots
  pub distinct : Distinct a.free_slots
  pub conserved : a.used + length a.free_slots * a.class_size ≡ a.n_slots * a.class_size

pub new-IsSlab :
    (capacity class_size : ℕ)
    → capacity < u32_mod
    → 0 < class_size
    → IsSlab (new capacity class_size)
unfolding new
new-IsSlab capacity class_size h pos =
    let n = capacity / class_size in
    let some_class : (class_size == 0) ≡ false = ground arith in
    let fits : n * class_size ≤ capacity = omega (arith, mul-div-le capacity class_size) in
    rw some_class (record {
      capacity_fits = h;
      positive = pos;
      slots_fit = fits;
      are_slots = slots-Slot class_size 0 n n (omega arith) (omega arith);
      distinct = slots-Distinct class_size 0 n pos (omega arith);
      conserved = omega (arith, ap (λ t. t * class_size) (length-slots class_size 0 n));
    })

-- Room for the slot at `off`, which was free and is no longer.
pub record Handed (a : SlabAllocator) (off : ℕ) (b : SlabAllocator) : Type 0 where
  pub valid : IsSlab b
  pub aligned : off % a.class_size ≡ 0
  pub ends : off + a.class_size ≤ a.capacity
  pub used : b.used ≡ a.used + a.class_size
  pub kept : (b.capacity ≡ a.capacity) × (b.class_size ≡ a.class_size) × (b.n_slots ≡ a.n_slots)
  pub was_free : a.free_slots ≡ off ∷ b.free_slots
  pub taken : contains b.free_slots off ≡ false

slot_below : (i n c : ℕ) → 0 < c → i < n → i * c < n * c
slot_below i n c pos h = grind arith

slot_ends : (i n c cap' : ℕ) → i < n → n * c ≤ cap' → i * c + c ≤ cap'
slot_ends i n c cap' h k = grind arith

handed :
    (a : SlabAllocator) (off : ℕ) (rest : List ℕ)
    → IsSlab a
    → a.free_slots ≡ off ∷ rest
    → Handed a off (record a { free_slots = rest; used = add32 a.used a.class_size })
handed a off rest v e =
    let l = subst (All (Slot a.n_slots a.class_size)) e v.are_slots in
    let d = subst Distinct e v.distinct in
    let (i, small, at) = l.0 in
    let room : length a.free_slots * a.class_size ≡ (length rest + 1) * a.class_size =
      ap (λ t. t * a.class_size) (ap length e ∙ omega arith) in
    record {
      valid = record {
        capacity_fits = v.capacity_fits;
        positive = v.positive;
        slots_fit = v.slots_fit;
        are_slots = l.1;
        distinct = d.1;
        conserved = omega (arith, v.conserved, v.slots_fit, v.capacity_fits, room);
      };
      aligned = rw at (mul-mod_left i a.class_size);
      ends = omega (arith, slot_ends i a.n_slots a.class_size a.capacity small v.slots_fit);
      used = omega (arith, v.conserved, v.slots_fit, v.capacity_fits, room);
      kept = (refl, refl, refl);
      was_free = e;
      taken = d.0;
    }

-- A valid slab allocator serves a request exactly when it is of the class size and a slot is free:
-- the slot is aligned, within the capacity, no longer free, and counted, and the allocator stays
-- valid; otherwise it fails with `AllocationFailed`.
pub alloc_slot_cases :
    (a : SlabAllocator) (size : ℕ)
    → IsSlab a
    → ((size ≡ a.class_size)
        × (off : ℕ) × (b : SlabAllocator) × (alloc a size ≡ ok (off, b))
        × Handed a off b)
      ⊎ (((size ≢ a.class_size) ⊎ (a.free_slots ≡ [])) × (alloc a size ≡ err allocation_failed))
unfolding alloc
alloc_slot_cases a size v = elim (List-cases a.free_slots) [
  | inl empty ↦ inr (inr empty, ground (arith, v.positive))
  | inr (off, rest, e) ↦ elim (Bool-cases (size == a.class_size)) [
    | inl same ↦ inl (
      ground arith,
      off,
      record a { free_slots = rest; used = add32 a.used a.class_size },
      ground (arith, v.positive),
      handed a off rest v e,
    )
    | inr other ↦ inr (inl (ground arith), ground arith)
  ]
]

-- The test of `dealloc` passes exactly the offsets of slots.
Slot-of_test : (n c off : ℕ) → 0 < c → off < n * c → off % c ≡ 0 → Slot n c off
Slot-of_test n c off pos small even =
    (off / c, (div-lt_iff_lt-mul pos).1 small, omega (arith, div-add-mod' off c))

test_of_Slot : (n c off : ℕ) → 0 < c → Slot n c off → (off < n * c) × (off % c ≡ 0)
test_of_Slot n c off pos (i, small, at) =
    (rw at (slot_below i n c pos small), rw at (mul-mod_left i c))

times_mono : (i n c : ℕ) → i ≤ n → i * c ≤ n * c
times_mono i n c h = grind arith

-- A live slot accounts for its bytes.
live_counted :
    (a : SlabAllocator) (off : ℕ)
    → IsSlab a
    → Slot a.n_slots a.class_size off
    → contains a.free_slots off ≡ false
    → a.class_size ≤ a.used
live_counted a off v slot live =
    let few : suc (length a.free_slots) ≤ a.n_slots =
      length-le-slots a.n_slots a.class_size (off ∷ a.free_slots) (live, v.distinct)
        (slot, v.are_slots) in
    omega (
      arith,
      v.conserved,
      times_mono (length a.free_slots + 1) a.n_slots a.class_size (omega (arith, few)),
    )

given_back :
    (a : SlabAllocator) (off : ℕ)
    → IsSlab a
    → Slot a.n_slots a.class_size off
    → contains a.free_slots off ≡ false
    → IsSlab (record a { free_slots = off ∷ a.free_slots; used = sub32 a.used a.class_size })
given_back a off v slot live = record {
  capacity_fits = v.capacity_fits;
  positive = v.positive;
  slots_fit = v.slots_fit;
  are_slots = (slot, v.are_slots);
  distinct = (live, v.distinct);
  conserved =
      omega (arith, v.conserved, live_counted a off v slot live, v.slots_fit, v.capacity_fits);
}

dealloc_live :
    (a : SlabAllocator) (off : ℕ)
    → IsSlab a
    → Slot a.n_slots a.class_size off
    → contains a.free_slots off ≡ false
    → dealloc a off
      ≡ ok (
        a.class_size,
        record a { free_slots = off ∷ a.free_slots; used = sub32 a.used a.class_size },
      )
unfolding dealloc
dealloc_live a off v slot live = ground (
  arith,
  v.positive,
  v.slots_fit,
  v.capacity_fits,
  test_of_Slot a.n_slots a.class_size off v.positive slot,
)

-- A valid slab allocator accepts a return exactly when the offset is that of a slot which is not
-- free: the slot is pushed on the free ones, `used` falls by the class size and the allocator
-- stays valid; otherwise it fails with `OutOfBounds`, so that no slot is returned twice.
pub dealloc-Slot_cases :
    (a : SlabAllocator) (off : ℕ)
    → IsSlab a
    → (Slot a.n_slots a.class_size off
        × (contains a.free_slots off ≡ false)
        × (b : SlabAllocator) × (dealloc a off ≡ ok (a.class_size, b))
        × IsSlab b
        × (b.capacity ≡ a.capacity)
        × (b.free_slots ≡ off ∷ a.free_slots)
        × (b.used + a.class_size ≡ a.used))
      ⊎ (((¬ Slot a.n_slots a.class_size off) ⊎ (contains a.free_slots off ≡ true))
          × (dealloc a off ≡ err out_of_bounds))
unfolding dealloc
dealloc-Slot_cases a off v = elim (dec_lt off (a.n_slots * a.class_size)) [
  | no big ↦ inr (
    inl (λ slot. big (test_of_Slot a.n_slots a.class_size off v.positive slot).0),
    ground (arith, v.slots_fit, v.capacity_fits),
  )
  | yes small ↦ elim (Bool-cases (off % a.class_size == 0)) [
    | inr odd ↦ inr (
      inl (λ slot.
          absurd (ground (arith, test_of_Slot a.n_slots a.class_size off v.positive slot))),
      ground arith,
    )
    | inl even ↦
        let slot = Slot-of_test a.n_slots a.class_size off v.positive small (ground arith) in
        elim (Bool-cases (contains a.free_slots off)) [
          | inl free ↦ inr (inr free, ground arith)
          | inr live ↦ inl (
            slot,
            live,
            record a { free_slots = off ∷ a.free_slots; used = sub32 a.used a.class_size },
            dealloc_live a off v slot live,
            given_back a off v slot live,
            refl,
            refl,
            omega
                (arith, live_counted a off v slot live, v.conserved, v.slots_fit, v.capacity_fits),
          )
        ]
  ]
]

undo :
    (a : SlabAllocator) (size off : ℕ) (b : SlabAllocator)
    → IsSlab a
    → size ≡ a.class_size
    → Handed a off b
    → dealloc b off ≡ ok (size, a)
undo a size off b v same h =
    let (capacity, class_size, n_slots) = h.kept in
    let slot : Slot b.n_slots b.class_size off =
      subst (λ n. Slot n b.class_size off) (sym n_slots)
        (subst (λ c. Slot a.n_slots c off) (sym class_size)
          (subst (All (Slot a.n_slots a.class_size)) h.was_free v.are_slots).0) in
    let used : sub32 b.used b.class_size ≡ a.used =
      omega (arith, h.used, class_size, v.conserved, v.slots_fit, v.capacity_fits) in
    let given : b.class_size ≡ size = class_size ∙ sym same in
    dealloc_live b off h.valid slot h.taken ∙ λ i. ok (
      given i,
      record {
        capacity = capacity i;
        class_size = class_size i;
        free_slots = sym h.was_free i;
        n_slots = n_slots i;
        used = used i;
      },
    )

abbrev Given : SlabAllocator → ℕ → ℕ × SlabAllocator → Type 0
Given a size (off, b) = (size ≡ a.class_size) × Handed a off b

pub alloc-Handed :
    (a : SlabAllocator) (size off : ℕ) (b : SlabAllocator)
    → IsSlab a
    → alloc a size ≡ ok (off, b)
    → (size ≡ a.class_size) × Handed a off b
alloc-Handed a size off b v e = elim (alloc_slot_cases a size v) [
  | inr (_, failed) ↦ cc
  | inl (same, o, c, done, h) ↦ along_ok (Given a size) (o, c) (off, b) (sym done ∙ e) (same, h)
]

abbrev TakenBack : SlabAllocator → ℕ × SlabAllocator → Type 0
TakenBack a (size, b) = IsSlab b × (b.capacity ≡ a.capacity) × (b.used + size ≡ a.used)

pub dealloc-IsSlab :
    (a : SlabAllocator) (off size : ℕ) (b : SlabAllocator)
    → IsSlab a
    → dealloc a off ≡ ok (size, b)
    → IsSlab b × (b.capacity ≡ a.capacity) × (b.used + size ≡ a.used)
dealloc-IsSlab a off size b v e = elim (dealloc-Slot_cases a off v) [
  | inr (_, failed) ↦ cc
  | inl (_, _, c, done, valid, same, _, sum) ↦
      along_ok (TakenBack a) (a.class_size, c) (size, b) (sym done ∙ e) (valid, same, sum)
]

-- On a valid slab allocator, a slot that is handed out and returned at once leaves the allocator
-- exactly as it was.
pub dealloc-alloc_slot :
    (a : SlabAllocator) (size off : ℕ) (b : SlabAllocator)
    → IsSlab a
    → alloc a size ≡ ok (off, b)
    → dealloc b off ≡ ok (size, a)
dealloc-alloc_slot a size off b v e =
    let (same, h) = alloc-Handed a size off b v e in undo a size off b v same h
