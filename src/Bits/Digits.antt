-- ===== src/Bits/Digits.antt =====
-- The lowest binary digit of `&` and `|`, from the digit recursion that they stand for.
use Prim.Native.Nat.{min, max, digits, bit_and, bit_or, bit_and-bitwise, bit_or-bitwise}
use tvm_wasm.Base.{ℕ, zero, suc, ◌+◌, ◌*◌, ◌/◌, ◌%◌, ◌≤◌, ◌≡◌, refl, arith}

module _ (z : ℕ → ℕ) (f : ℕ → ℕ → ℕ) where
  -- Counts from the first argument up all give the same; `k` bounds them.
  enough_count : (k n a b : ℕ) → n ≤ k → a ≤ n → digits z f n a b ≡ digits z f a a b
  enough_count k zero zero b hn ha = refl
  enough_count k zero (suc a) b hn ha = absurd (omega arith)
  enough_count k (suc n) zero b hn ha = refl
  enough_count zero (suc n) (suc a) b hn ha = absurd (omega arith)
  enough_count (suc k) (suc n) (suc a) b hn ha = omega (
    arith,
    enough_count k n (suc a / 2) (b / 2) (omega arith) (omega arith),
    enough_count k a (suc a / 2) (b / 2) (omega arith) (omega arith),
  )

pub bit_and_half : (a b : ℕ) → bit_and a b ≡ bit_and (a / 2) (b / 2) * 2 + min (a % 2) (b % 2)
bit_and_half zero b = simp bit_and-bitwise (omega arith)
bit_and_half (suc a) b =
    simp bit_and-bitwise
      (omega (arith, enough_count (λ y. 0) min a a (suc a / 2) (b / 2) (omega arith) (omega arith)))

pub bit_or_half : (a b : ℕ) → bit_or a b ≡ bit_or (a / 2) (b / 2) * 2 + max (a % 2) (b % 2)
bit_or_half zero b = simp bit_or-bitwise (omega arith)
bit_or_half (suc a) b =
    simp bit_or-bitwise
      (omega (arith, enough_count (λ y. y) max a a (suc a / 2) (b / 2) (omega arith) (omega arith)))
