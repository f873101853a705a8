-- ===== src/Prelude/Results.antt =====
-- Fallible code: Go's `(value, error)` pairs as a result type, with the early returns of a guard.
use Prim.Native.Nat.{ℕ, suc}
use mathlib.Core.Path.{◌≡◌, refl}
use mathlib.Core.Logic.{◌⊎◌, inl, inr}
use mathlib.Core.Bool.{Bool, true, false}
use mathlib.Core.List.{List, [], ◌∷◌}

pub data Result {ℓ κ} (E : Type ℓ) (A : Type κ) : Type (ℓ ⊔ κ) where
  ok : A → Result E A
  err : E → Result E A

infixl 5 ◌>>◌ ◌>>=◌
abbrev pub ◌>>=◌ {ℓ κ μ} :
    {E : Type μ} {A : Type ℓ} {B : Type κ} → Result E A → (A → Result E B) → Result E B
err refused >>= next = err refused
ok value >>= next = next value

abbrev pub ◌>>◌ {ℓ μ} : {E : Type μ} {B : Type ℓ} → Result E (Unit {0}) → Result E B → Result E B
check >> next = check >>= (λ passed. next)

-- `if test { return …, e }`
abbrev pub fail_if {ℓ} : {E : Type ℓ} → Bool → E → Result E (Unit {0})
fail_if true e = err e
fail_if false e = ok tt

-- A step that came through did so on a result of the step before it.
module _ {ℓ κ μ} {E : Type ℓ} {A : Type κ} {B : Type μ} where
  pub >>=-eq-ok :
      (first : Result E A) (next : A → Result E B) {final : B}
      → (first >>= next) ≡ ok final
      → (value : A) × (first ≡ ok value) × (next value ≡ ok final)
  >>=-eq-ok (err refused) next came = cc
  >>=-eq-ok (ok value) next came = (value, refl, came)

module _ {ℓ κ} {E : Type ℓ} {B : Type κ} where
  -- A guard that let the code go on did not hold.
  pub fail_if-eq-ok :
      (test : Bool) (e : E) (k : Result E B) {b : B}
      → (fail_if test e >> k) ≡ ok b
      → (test ≡ false) × (k ≡ ok b)
  fail_if-eq-ok true e k h = cc
  fail_if-eq-ok false e k h = (refl, h)

module _ {ℓ κ} {E : Type ℓ} {A : Type κ} where
  pub Result-cases : (r : Result E A) → ((a : A) × (r ≡ ok a)) ⊎ ((e : E) × (r ≡ err e))
  Result-cases (err refused) = inr (refused, refl)
  Result-cases (ok value) = inl (value, refl)

  abbrev pub is_ok : Result E A → Bool
  is_ok (ok a) = true
  is_ok (err e) = false

  -- The loop `for i, item := range items { if err := check(i, item); err != nil { return err } }`.
  abbrev pub each_from : (ℕ → A → Result E (Unit {0})) → ℕ → List A → Result E (Unit {0})
  each_from check i [] = ok tt
  each_from check i (x ∷ xs) = do check i x; each_from check (suc i) xs
