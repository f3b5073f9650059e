-- ===== src/Base/Results.antt =====
-- The outcome of a call that returns a value and an error, `(T, error)` in the source.
use mathlib.Core.Path.{◌≡◌, refl}
use mathlib.Core.Logic.{◌⊎◌, inl, inr}

pub data Result {ℓ κ} (E : Type κ) (A : Type ℓ) : Type (ℓ ⊔ κ) where
  ok : A → Result E A
  err : E → Result E A

module _ {ℓ κ η} {E : Type η} {A : Type ℓ} {B : Type κ} where
  infixl 5 ◌>>=◌
  -- The continuation runs on a value only; the first error is the outcome.
  abbrev pub ◌>>=◌ : (call : Result E A) (continue : A → Result E B) → Result E B
  err e >>= continue = err e
  ok x >>= continue = continue x

  -- If both succeed, so did the call, and the continuation on its value.
  pub >>=-eq-ok :
      {y : B} (call : Result E A) (continue : A → Result E B)
      → (call >>= continue) ≡ ok y
      → (x : A) × (call ≡ ok x) × (continue x ≡ ok y)
  >>=-eq-ok (err e) continue done = cc
  >>=-eq-ok (ok x) continue done = (x, refl, done)

  -- An error is the call's, or the continuation's on its value.
  pub >>=-eq-err :
      {e : E} (call : Result E A) (continue : A → Result E B)
      → (call >>= continue) ≡ err e
      → (call ≡ err e) ⊎ ((x : A) × (call ≡ ok x) × (continue x ≡ err e))
  >>=-eq-err (err e) continue failed = inl (cc failed)
  >>=-eq-err (ok x) continue failed = inr (x, refl, failed)

module _ {ℓ η} {E : Type η} {A : Type ℓ} where
  pub Result-cases : (m : Result E A) → ((a : A) × (m ≡ ok a)) ⊎ ((e : E) × (m ≡ err e))
  Result-cases (ok a) = inl (a, refl)
  Result-cases (err e) = inr (e, refl)
