-- ===== src/Strings/Occurrences.antt =====
-- bytes.Count, and bytes.Replace of the first occurrence, for a pattern that is not empty.
use provider_k3s.Base.{
  ℕ, zero, suc, ◌≤◌, ◌≡◌, refl, ap, arith, [], ◌∷◌, ◌++◌, none, some, Text, length, Bool-cases,
  Option-cases, inl, inr, ◌==◌, nat_eq, nat_beq_iff,
}
use provider_k3s.Strings.{cut_prefix}
use provider_k3s.Strings.Replace.{cut_prefix-shorter}

-- Each round consumes a character, so the length of the text is fuel enough.
unfoldable pub count_fuel : ℕ → Text → Text → ℕ
unfolding cut_prefix
count_fuel zero s old = 0
count_fuel (suc f) [] old = 0
count_fuel (suc f) (c ∷ s) old = elim (cut_prefix (c ∷ s) old) [
  | none ↦ count_fuel f s old
  | some rest ↦ suc (count_fuel f rest old)
]

-- bytes.Count
unfoldable pub count : Text → Text → ℕ
unfolding count_fuel
count s old = count_fuel (length s) s old

-- bytes.Replace with the limit 1
unfoldable pub replace_first : Text → Text → Text → Text
unfolding cut_prefix
replace_first [] old new = []
replace_first (c ∷ s) old new =
    let rest = replace_first s old new in
    elim (cut_prefix (c ∷ s) old) [ none ↦ c ∷ rest | some behind ↦ new ++ behind ]

pub cut_prefix-append :
    (s prefix rest : Text) → cut_prefix s prefix ≡ some rest → s ≡ prefix ++ rest
unfolding cut_prefix
cut_prefix-append s [] rest = λ h. cc
cut_prefix-append [] (p ∷ prefix) rest = λ h. cc
cut_prefix-append (c ∷ s) (p ∷ prefix) rest = elim (Bool-cases (c == p)) [
  | inl same ↦
      rw same
        (λ h. rw ((nat_beq_iff c p).0 same) (ap (λ t. p ∷ t) (cut_prefix-append s prefix rest h)))
  | inr differs ↦ rw differs (λ h. cc)
]

-- The two texts are one text round `old` and round `new`.
abbrev pub Patched : Text → Text → Text → Text → Type 0
Patched s old new t =
    (before : Text) × (behind : Text) × (s ≡ before ++ (old ++ behind))
    × (t ≡ before ++ (new ++ behind))

shifted : (c : ℕ) (s old new t : Text) → Patched s old new t → Patched (c ∷ s) old new (c ∷ t)
shifted c s old new t (before, behind, p, q) =
    (c ∷ before, behind, ap (λ x. c ∷ x) p, ap (λ x. c ∷ x) q)

counted_replace :
    (f : ℕ) (s old new : Text)
    → 1 ≤ count_fuel f s old
    → Patched s old new (replace_first s old new)
unfolding count_fuel replace_first
counted_replace zero s old new = λ h. absurd (omega arith)
counted_replace (suc f) [] old new = λ h. absurd (omega arith)
counted_replace (suc f) (c ∷ s) old new = elim (Option-cases (cut_prefix (c ∷ s) old)) [
  | inl n ↦
      rw (n, count_fuel, replace_first)
        (λ h. shifted c s old new (replace_first s old new) (counted_replace f s old new h))
  | inr (rest, n) ↦
      rw (n, count_fuel, replace_first)
        (λ h. ([], rest, cut_prefix-append (c ∷ s) old rest n, refl))
]

-- Where the pattern occurs, one occurrence is replaced, and what stands round it stays.
pub replace_first-Patched :
    (s old new : Text) → 1 ≤ count s old → Patched s old new (replace_first s old new)
unfolding count
replace_first-Patched s old new = counted_replace (length s) s old new

-- Any two amounts of fuel that are at least the length of the text count the same.
pub count_fuel_enough :
    (f g : ℕ) (s : Text) (p : ℕ) (prefix : Text)
    → length s ≤ f
    → length s ≤ g
    → count_fuel f s (p ∷ prefix) ≡ count_fuel g s (p ∷ prefix)
unfolding count_fuel
count_fuel_enough zero zero s p prefix hf hg = refl
count_fuel_enough zero (suc g) [] p prefix hf hg = refl
count_fuel_enough zero (suc g) (c ∷ s) p prefix hf hg = absurd (omega arith)
count_fuel_enough (suc f) zero [] p prefix hf hg = refl
count_fuel_enough (suc f) zero (c ∷ s) p prefix hf hg = absurd (omega arith)
count_fuel_enough (suc f) (suc g) [] p prefix hf hg = refl
count_fuel_enough (suc f) (suc g) (c ∷ s) p prefix hf hg =
    elim (Option-cases (cut_prefix (c ∷ s) (p ∷ prefix))) [
      | inl n ↦ rw (n, count_fuel) (count_fuel_enough f g s p prefix (omega arith) (omega arith))
      | inr (rest, h) ↦
          let shorter = cut_prefix-shorter c s p prefix rest h in
          rw (h, count_fuel)
            (ap suc (count_fuel_enough f g rest p prefix (omega arith) (omega arith)))
    ]
