-- ===== src/Strings/Replace.antt =====
-- The fuel of ReplaceAll is enough.
use provider_k3s.Base.{
  ℕ, zero, suc, ◌≤◌, ◌≡◌, refl, ap, arith, [], ◌∷◌, ◌++◌, none, some, Option, Text, length,
  Bool-cases, Option-cases, inl, inr, ◌==◌, nat_eq,
}
use provider_k3s.Strings.{cut_prefix, replace_fuel}

none-ne-some : {s : Text} → ¬ (Path (Option Text) none (some s))
none-ne-some h = cc

pub cut_prefix-length :
    (s prefix rest : Text) → cut_prefix s prefix ≡ some rest → length rest ≤ length s
unfolding cut_prefix
cut_prefix-length s [] rest h = ground arith
cut_prefix-length [] (p ∷ prefix) rest h = cc
cut_prefix-length (c ∷ s) (p ∷ prefix) rest h = elim (Bool-cases (c == p)) [
  | inl same ↦ let shorter = cut_prefix-length s prefix rest (rw same at h) in omega arith
  | inr differs ↦ absurd (none-ne-some (rw differs at h))
]

pub cut_prefix-shorter :
    (c : ℕ) (s : Text) (p : ℕ) (prefix rest : Text)
    → cut_prefix (c ∷ s) (p ∷ prefix) ≡ some rest
    → length rest ≤ length s
unfolding cut_prefix
cut_prefix-shorter c s p prefix rest = elim (Bool-cases (c == p)) [
  | inl same ↦ rw same (cut_prefix-length s prefix rest)
  | inr differs ↦ rw differs (λ h. cc)
]

-- Any two amounts of fuel that are at least the length of the text give the same result.
pub replace_fuel_enough :
    (f g : ℕ) (s : Text) (p : ℕ) (prefix new : Text)
    → length s ≤ f
    → length s ≤ g
    → replace_fuel f s (p ∷ prefix) new ≡ replace_fuel g s (p ∷ prefix) new
unfolding replace_fuel
replace_fuel_enough zero zero s p prefix new hf hg = refl
replace_fuel_enough zero (suc g) [] p prefix new hf hg = refl
replace_fuel_enough zero (suc g) (c ∷ s) p prefix new hf hg = absurd (omega arith)
replace_fuel_enough (suc f) zero [] p prefix new hf hg = refl
replace_fuel_enough (suc f) zero (c ∷ s) p prefix new hf hg = absurd (omega arith)
replace_fuel_enough (suc f) (suc g) [] p prefix new hf hg = refl
replace_fuel_enough (suc f) (suc g) (c ∷ s) p prefix new hf hg =
    elim (Option-cases (cut_prefix (c ∷ s) (p ∷ prefix))) [
      | inl n ↦
          rw (n, replace_fuel)
            (ap (λ t. c ∷ t) (replace_fuel_enough f g s p prefix new (omega arith) (omega arith)))
      | inr (rest, h) ↦
          let shorter = cut_prefix-shorter c s p prefix rest h in
          rw (h, replace_fuel)
            (ap (λ t. new ++ t)
              (replace_fuel_enough f g rest p prefix new (omega arith) (omega arith)))
    ]
