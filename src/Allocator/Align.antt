-- ===== src/Allocator/Align.antt =====
-- `align_up` of crates/tvm-core/src/allocator.rs, and what it rounds to.
use native.Mathlib.Nat.{
  one-le-pow, pow-le-pow_right, div-add-mod', mod-lt, div-lt_iff_lt-mul, mul-mod_left,
}
use mathlib.Core.Option
use native.Mathlib.Decide.{dec_lt}
use tvm_wasm.Base.{
  ℕ, ◌+◌, ◌-◌, ◌*◌, ◌/◌, ◌%◌, ◌^◌, ◌≤◌, ◌<◌, ◌≡◌, refl, sym, ap, ◌∙◌, subst, ◌||◌, not, Option,
  none, some, bit_and, ◌==◌, if◌then◌else◌, checked_add32, u32_mod, arith,
}
use tvm_wasm.Bits.{bit_and_high, power_of_two, pow_split}

unfoldable pub align_up : ℕ → ℕ → Option ℕ
align_up value align =
    if align == 0 || not (bit_and align (align - 1) == 0)
    then none
    else let mask = align - 1 in
      Option.map (λ v. bit_and v (u32_mod - 1 - mask)) (checked_add32 value mask)

round_down :
    (n k v : ℕ)
    → n + k ≡ 32
    → v < u32_mod
    → bit_and v (u32_mod - 1 - (2 ^ k - 1)) ≡ v / 2 ^ k * 2 ^ k
round_down n k v e h =
    let whole : 2 ^ n * 2 ^ k ≡ u32_mod = pow_split n k ∙ ap (λ t. 2 ^ t) e in
    let pos : 0 < 2 ^ k = one-le-pow k 2 (omega arith) in
    let ones : 0 < 2 ^ n = one-le-pow n 2 (omega arith) in
    let up : (2 ^ n - 1 + 1) * 2 ^ k ≡ 2 ^ n * 2 ^ k = ap (λ t. t * 2 ^ k) (omega arith) in
    let mask : u32_mod - 1 - (2 ^ k - 1) ≡ (2 ^ n - 1) * 2 ^ k = omega arith in
    let small : v / 2 ^ k < 2 ^ n = (div-lt_iff_lt-mul pos).1 (omega arith) in
    let parts : bit_and (v / 2 ^ k * 2 ^ k + v % 2 ^ k) ((2 ^ n - 1) * 2 ^ k) ≡ v / 2 ^ k * 2 ^ k =
      bit_and_high n k (v / 2 ^ k) (v % 2 ^ k) (mod-lt v pos) small in
    rw mask (sym (ap (λ t. bit_and t ((2 ^ n - 1) * 2 ^ k)) (div-add-mod' v (2 ^ k))) ∙ parts)

pub record IsRounded (value align v : ℕ) : Type 0 where
  pub above : value ≤ v
  pub near : v < value + align
  pub multiple : v % align ≡ 0

IsRounded-at :
    (k n value : ℕ)
    → n + k ≡ 32
    → value + (2 ^ k - 1) < u32_mod
    → IsRounded value (2 ^ k) (bit_and (value + (2 ^ k - 1)) (u32_mod - 1 - (2 ^ k - 1)))
IsRounded-at k n value e fits =
    let pos : 0 < 2 ^ k = one-le-pow k 2 (omega arith) in
    let x = value + (2 ^ k - 1) in
    rw (round_down n k x e fits) (record {
      above = omega (arith, div-add-mod' x (2 ^ k), mod-lt x pos);
      near = omega (arith, div-add-mod' x (2 ^ k));
      multiple = mul-mod_left (x / 2 ^ k) (2 ^ k);
    })

exponent_fits : (k : ℕ) → 2 ^ k < u32_mod → k ≤ 32
exponent_fits k h = elim (dec_lt 32 k) [
  | no small ↦ omega arith
  | yes big ↦
      absurd (omega (arith, pow-le-pow_right {n = 2} (omega arith) {i = 32} {j = k} (omega arith)))
]

align_up-some :
    (value align v : ℕ)
    → align_up value align ≡ some v
    → (0 < align)
      × (bit_and align (align - 1) ≡ 0)
      × (value + (align - 1) < u32_mod)
      × (v ≡ bit_and (value + (align - 1)) (u32_mod - 1 - (align - 1)))
unfolding align_up
align_up-some value align v e = ground arith

-- When `align_up` succeeds for a u32 alignment, its result is the multiple of the alignment that
-- is at least the value and less than one alignment above it.
pub align_up-IsRounded :
    (value align : ℕ) {v : ℕ}
    → align < u32_mod
    → align_up value align ≡ some v
    → IsRounded value align v
align_up-IsRounded value align {v} h e =
    let (pos, single, fits, at) = align_up-some value align v e in
    let (k, power) = power_of_two align pos single in
    let small : k ≤ 32 = exponent_fits k (omega arith) in
    rw at (
      subst
        (λ a.
          value + (a - 1) < u32_mod
          → IsRounded value a (bit_and (value + (a - 1)) (u32_mod - 1 - (a - 1))))
        (sym power) (IsRounded-at k (32 - k) value (omega arith)) fits)

pub align_up-one : (value : ℕ) → value < u32_mod → align_up value 1 ≡ some value
unfolding align_up
align_up-one value h =
    let same : bit_and value (u32_mod - 1 - (1 - 1)) ≡ value =
      round_down 32 0 value refl h ∙ omega arith in
    ground arith
