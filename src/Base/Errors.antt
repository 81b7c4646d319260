-- ===== src/Base/Errors.antt =====
-- Go errors as values. A formatted message keeps its format and its arguments unrendered.
use mathlib.Core.Path.{◌≡◌, refl}
use mathlib.Core.Logic.{◌⊎◌, inl, inr}
use mathlib.Core.List.{List}
use provider_k3s.Base.Eq.{Text}

-- The kinds of foreign errors that the code tells apart.
pub data Kind : Type 0 where
  not_found conflict other : Kind

pub data Error : Type 0 where
  -- errors.New
  plain : Text → Error
  -- errors.Errorf, with the format and the arguments
  errorf : Text → List Text → Error
  -- errors.Wrap
  wrap : Error → Text → Error
  -- errors.Wrapf
  wrapf : Error → Text → List Text → Error
  -- an error that a library made
  foreign : Kind → Text → Error

pub data Result {ℓ} (A : Type ℓ) : Type ℓ where
  ok : A → Result A
  err : Error → Result A

-- errors.Wrap on the error of a call
abbrev pub wrapped {ℓ} : {A : Type ℓ} → Text → Result A → Result A
wrapped msg (ok a) = ok a
wrapped msg (err e) = err (wrap e msg)

module _ {ℓ κ} {A : Type ℓ} {B : Type κ} where
  infixl 10 ◌>>=◌
  -- `if err != nil { return err }`, and what follows it.
  abbrev pub ◌>>=◌ : Result A → (A → Result B) → Result B
  err problem >>= next = err problem
  ok value >>= next = next value

  -- A chain that succeeds has succeeded at its first step.
  pub >>=-eq-ok :
      (m : Result A) (next : A → Result B) {last : B}
      → (m >>= next) ≡ ok last
      → (value : A) × (m ≡ ok value) × (next value ≡ ok last)
  >>=-eq-ok (err problem) next h = cc
  >>=-eq-ok (ok value) next h = (value, refl, h)

infixl 10 ◌>>◌
abbrev pub ◌>>◌ {ℓ} : {B : Type ℓ} → Result (Unit {0}) → Result B → Result B
check >> rest = check >>= λ _. rest

pub Result-cases {ℓ} :
    {A : Type ℓ} (m : Result A) → ((a : A) × (m ≡ ok a)) ⊎ ((e : Error) × (m ≡ err e))
Result-cases (ok a) = inl (a, refl)
Result-cases (err e) = inr (e, refl)

pub ok_injective {ℓ} : {A : Type ℓ} (a b : A) → Path (Result A) (ok a) (ok b) → a ≡ b
ok_injective a b h = cc

pub err≢ok {ℓ} : {A : Type ℓ} {a : A} {e : Error} → Path (Result A) (err e) (ok a) → ⊥
err≢ok h = cc
