-- ===== src/Base/Results.antt =====
-- The error type of the program, its results, and the state that a method leaves behind.
-- crates/tvm-core/src/error.rs
use Prim.Native.Nat.{ℕ}
use Prim.Native.String.{String}
use mathlib.Core.Path.{◌≡◌, refl, subst}
use mathlib.Core.Logic.{◌⊎◌, inl, inr}
use mathlib.Core.Option.{Option, none, some}

pub data TvmError : Type 0 where
  region_not_found : ℕ → TvmError
  stale_handle out_of_bounds not_resident allocation_failed : TvmError
  backing_store : String → TvmError
  pinned unsupported_allocator policy_violation : TvmError

pub data Result {ℓ} (A : Type ℓ) : Type ℓ where
  ok : A → Result A
  err : TvmError → Result A

abbrev pub ok_or {ℓ} : {A : Type ℓ} → Option A → TvmError → Result A
ok_or none failure = err failure
ok_or (some found) failure = ok found

module _ {ℓ κ} {A : Type ℓ} {B : Type κ} where
  -- `?` on a result.
  infixl 5 ◌>>=◌
  abbrev pub ◌>>=◌ : Result A → (A → Result B) → Result B
  err failure >>= next = err failure
  ok found >>= next = next found

  -- What a chain that succeeds has gone through.
  pub >>=-eq-ok :
      (r : Result A) (next : A → Result B) {y : B}
      → (r >>= next) ≡ ok y
      → (x : A) × (r ≡ ok x) × (next x ≡ ok y)
  >>=-eq-ok (err failure) next done = cc
  >>=-eq-ok (ok found) next done = (found, refl, done)

pub Result-cases {ℓ} :
    {A : Type ℓ} (r : Result A) → ((a : A) × (r ≡ ok a)) ⊎ ((e : TvmError) × (r ≡ err e))
Result-cases (ok a) = inl (a, refl)
Result-cases (err e) = inr (e, refl)

ok-injective {ℓ} : {A : Type ℓ} (x y : A) → ok x ≡ ok y → x ≡ y
ok-injective x y e = cc

-- What holds of one result of a call holds of the other.
pub along_ok {ℓ κ} : {A : Type ℓ} (P : A → Type κ) (x y : A) → ok x ≡ ok y → P x → P y
along_ok P x y e = subst P (ok-injective x y e)
