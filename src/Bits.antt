-- ===== src/Bits.antt =====
-- `&` and `|` of native words as arithmetic, at every width: masks, shifted fields, powers of two.
mod Digits
use Digits.{bit_and_half, bit_or_half}
use Prim.Native.Nat.{bit_and, bit_or}
use native.Mathlib.Nat.{pow-suc, one-le-pow, div-add-mod', mod-lt, mod-eq_of_lt, add-zero, add-suc}
use native.Mathlib.Decide.{dec_lt}
use tvm_wasm.Base.{
  ℕ, zero, suc, ◌+◌, ◌-◌, ◌*◌, ◌/◌, ◌%◌, ◌^◌, ◌≤◌, ◌<◌, ◌≡◌, refl, sym, ap, ◌∙◌, arith,
}

and_zero_below : (n a : ℕ) → a < n → bit_and a 0 ≡ 0
and_zero_below zero a h = elim h [ ]
and_zero_below (suc n) zero h = refl
and_zero_below (suc n) (suc a) h =
    omega (arith, bit_and_half (suc a) 0, and_zero_below n (suc a / 2) (omega arith))

or_zero_below : (n a : ℕ) → a < n → bit_or a 0 ≡ a
or_zero_below zero a h = elim h [ ]
or_zero_below (suc n) zero h = refl
or_zero_below (suc n) (suc a) h =
    omega (arith, bit_or_half (suc a) 0, or_zero_below n (suc a / 2) (omega arith))

pub bit_and-zero : (a : ℕ) → bit_and a 0 ≡ 0
bit_and-zero a = and_zero_below (suc a) a (omega arith)

pub bit_or-zero : (a : ℕ) → bit_or a 0 ≡ a
bit_or-zero a = or_zero_below (suc a) a (omega arith)

-- Clearing the `k` low bits of a word of `n + k` bits.
abbrev high_mask : ℕ → ℕ → ℕ
high_mask n k = (2 ^ n - 1) * 2 ^ k

double_pow : (q k : ℕ) → q * 2 ^ suc k ≡ (q * 2 ^ k) * 2
double_pow q k = grind (arith, pow-suc 2 k)

bit_and_low_fields : (n q r : ℕ) → r < 2 ^ n → bit_and (q * 2 ^ n + r) (2 ^ n - 1) ≡ r
bit_and_low_fields zero q r h = rw bit_and-zero (omega arith)
bit_and_low_fields (suc n) q r h = ground (
  arith,
  bit_and_half (q * 2 ^ suc n + r) (2 ^ suc n - 1),
  double_pow q n,
  pow-suc 2 n,
  one-le-pow n 2 (omega arith),
  bit_and_low_fields n q (r / 2) (omega (arith, pow-suc 2 n)),
)

-- `a & (2^n - 1)` keeps the low bits.
pub bit_and_low : (n a : ℕ) → bit_and a (2 ^ n - 1) ≡ a % 2 ^ n
bit_and_low n a =
    let pos : 0 < 2 ^ n = one-le-pow n 2 (omega arith) in
    let split : bit_and (a / 2 ^ n * 2 ^ n + a % 2 ^ n) (2 ^ n - 1) ≡ a % 2 ^ n =
      bit_and_low_fields n (a / 2 ^ n) (a % 2 ^ n) (mod-lt a pos) in
    sym (ap (λ t. bit_and t (2 ^ n - 1)) (div-add-mod' a (2 ^ n))) ∙ split

-- `a & !(2^k - 1)` rounds down to a multiple of 2^k.
pub bit_and_high :
    (n k q r : ℕ) → r < 2 ^ k → q < 2 ^ n → bit_and (q * 2 ^ k + r) (high_mask n k) ≡ q * 2 ^ k
bit_and_high n zero q r hr hq =
    let whole : q * 2 ^ 0 + r ≡ q = omega arith in
    let ones : high_mask n 0 ≡ 2 ^ n - 1 = omega arith in
    rw (whole, ones) (bit_and_low n q ∙ mod-eq_of_lt hq ∙ omega arith)
bit_and_high n (suc k) q r hr hq = ground (
  arith,
  bit_and_half (q * 2 ^ suc k + r) (high_mask n (suc k)),
  double_pow q k,
  double_pow (2 ^ n - 1) k,
  bit_and_high n k q (r / 2) (omega (arith, pow-suc 2 k)) hq,
)

-- `(q << k) | r` is a sum when `r` fits `k` bits.
pub bit_or_shift : (k q r : ℕ) → r < 2 ^ k → bit_or (q * 2 ^ k) r ≡ q * 2 ^ k + r
bit_or_shift zero q r h = ground (arith, bit_or-zero q)
bit_or_shift (suc k) q r h = ground (
  arith,
  bit_or_half (q * 2 ^ suc k) r,
  double_pow q k,
  bit_or_shift k q (r / 2) (omega (arith, pow-suc 2 k)),
)

bit_and_self_below : (n a : ℕ) → a < n → bit_and a a ≡ a
bit_and_self_below zero a h = elim h [ ]
bit_and_self_below (suc n) zero h = refl
bit_and_self_below (suc n) (suc a) h =
    omega (arith, bit_and_half (suc a) (suc a), bit_and_self_below n (suc a / 2) (omega arith))

odd_half : (a : ℕ) → 0 < a % 2 → (a - 1) / 2 ≡ a / 2
odd_half a h = omega arith

even_half : (a : ℕ) → 0 < a → ¬ (0 < a % 2) → (a - 1) / 2 ≡ a / 2 - 1
even_half a pos h = omega arith

halves_zero :
    (a : ℕ) → 0 < a → ¬ (0 < a % 2) → bit_and a (a - 1) ≡ 0 → bit_and (a / 2) (a / 2 - 1) ≡ 0
halves_zero a pos even e =
    ap (bit_and (a / 2)) (sym (even_half a pos even)) ∙ omega (arith, bit_and_half a (a - 1))

power_below : (n a : ℕ) → a < n → 0 < a → bit_and a (a - 1) ≡ 0 → (k : ℕ) × (a ≡ 2 ^ k)
power_below zero a h pos e = elim h [ ]
power_below (suc n) a h pos e = elim (dec_lt 0 (a % 2)) [
  | yes odd ↦ (
    0,
    omega (
      arith,
      bit_and_half a (a - 1),
      bit_and_self_below (suc (a / 2)) (a / 2) (omega arith),
      ap (bit_and (a / 2)) (odd_half a odd),
    ),
  )
  | no even ↦
      let (k, half) =
        power_below n (a / 2) (omega arith) (omega arith) (halves_zero a pos even e) in
      (suc k, omega (arith, pow-suc 2 k, half))
]

-- `a & (a - 1) == 0` holds of the powers of two and of 0 only.
pub power_of_two : (a : ℕ) → 0 < a → bit_and a (a - 1) ≡ 0 → (k : ℕ) × (a ≡ 2 ^ k)
power_of_two a = power_below (suc a) a (omega arith)

pub pow_split : (n k : ℕ) → 2 ^ n * 2 ^ k ≡ 2 ^ (n + k)
pow_split n zero = rw add-zero (omega arith)
pow_split n (suc k) =
    rw (add-suc, pow-suc 2 (n + k), double_pow (2 ^ n) k) (omega (arith, pow_split n k))
