-- ===== src/Drift/Substituted.antt =====
-- What `apply` puts into the copy: the values that `snapshot` read, and nothing else.
use provider_k3s.Base.{
  Bool, true, false, Option, none, some, List, [], ◌∷◌, ◌++◌, In, Text, codes, ◌==◌, text_eq,
  text_beq_iff, ◌≡◌, ◌≢◌, ◌↔◌, refl, ap, sym, ◌∙◌, subst, ◌⊎◌, inl, inr, Error, Result, ok, err,
  ◌>>=◌, >>=-eq-ok, wrapped, ok_injective, err≢ok, Option-cases, Result-cases, Bool-cases,
  some≢none, if◌then◌else◌,
}
use provider_k3s.Strings.{has_prefix, trim_prefix}
use provider_k3s.Drift.Paths.{prefix_for_provider}
use provider_k3s.Drift.Interface.{ManagedApi}
use provider_k3s.Drift.Config.{
  Observation, put_value, capture, snapshot, set_values, substitute, apply, is_nil, prefix_spec,
  prefix_at_provider, err_pave, err_apply, err_unpave,
}
pub mod Captured
pub mod Written

-- Where a value is read for a path, and where it is written.
abbrev pub at_path : Text → Text
at_path path = prefix_at_provider ++ trim_prefix path prefix_for_provider

abbrev pub spec_path : Text → Text
spec_path path = prefix_spec ++ path

-- Neither field lies within the other.
unfoldable pub Separate : Text → Text → Type 0
Separate k l =
    (has_prefix (k ++ codes ".") (l ++ codes ".") ≡ false)
    × (has_prefix (l ++ codes ".") (k ++ codes ".") ≡ false)

-- What is documented of fieldpath, and of the range over a map: a value that is set is read, no field apart from
-- it changes, and every entry is visited.
pub record IsFieldpath {MG : Type 0} (api : ManagedApi MG) : Type 0 where
  pub get-set :
      (p : api.Paved) (k : Text) (v : api.Value) (p' : api.Paved)
      → api.set_value p k v ≡ ok p'
      → api.get_value p' k ≡ ok v
  pub get-set_separate :
      (p : api.Paved) (k : Text) (v : api.Value) (p' : api.Paved) (l : Text)
      → api.set_value p k v ≡ ok p'
      → Separate k l
      → api.get_value p' l ≡ api.get_value p l
  pub range_same :
      (values : List (Text × api.Value)) (x : Text × api.Value)
      → In x values ↔ In x (api.range values)

module _ {MG : Type 0} (api : ManagedApi MG) where
  abbrev Entry : Type 0
  Entry = Text × api.Value

  -- Each two paths are one, or apart.
  abbrev pub Distinct : List Text → Type 0
  Distinct paths =
      (a b : Text) → In a paths → In b paths → (a ≡ b) ⊎ Separate (spec_path a) (spec_path b)

  set_values-step :
      (p p' : api.Paved) (y : Entry) (ys : List Entry)
      → set_values api p (y ∷ ys) ≡ ok p'
      → (q : api.Paved) × (api.set_value p (spec_path y.0) y.1 ≡ ok q)
        × (set_values api q ys ≡ ok p')
  unfolding set_values
  set_values-step p p' (path, v) ys h = elim (Result-cases (api.set_value p (spec_path path) v)) [
    | inl (q, k) ↦ (q, k, (rw k at h))
    | inr (e, k) ↦ absurd (err≢ok (rw k at h))
  ]

  -- A field apart from all that is set stays.
  pub set_values-apart :
      (law : IsFieldpath api) (values : List Entry) (p p' : api.Paved) (k : Text)
      → set_values api p values ≡ ok p'
      → ((y : Entry) → In y values → Separate (spec_path y.0) k)
      → api.get_value p' k ≡ api.get_value p k
  unfolding set_values
  set_values-apart law [] p p' k h apart = ap (λ q. api.get_value q k) (sym (ok_injective p p' h))
  set_values-apart law (y ∷ ys) p p' k h apart =
      let (q, set, rest) = set_values-step p p' y ys h in
      set_values-apart law ys q p' k rest (λ z m. apart z (inr m))
      ∙ law.get-set_separate p (spec_path y.0) y.1 q k set (apart y (inl refl))

  -- What was set stays, if every later value is the same or apart.
  set_values-kept :
      (law : IsFieldpath api) (values : List Entry) (p p' : api.Paved) (x : Entry)
      → set_values api p values ≡ ok p'
      → ((y : Entry) → In y values → (y ≡ x) ⊎ Separate (spec_path y.0) (spec_path x.0))
      → api.get_value p (spec_path x.0) ≡ ok x.1
      → api.get_value p' (spec_path x.0) ≡ ok x.1
  unfolding set_values
  set_values-kept law [] p p' x h apart there =
      ap (λ q. api.get_value q (spec_path x.0)) (sym (ok_injective p p' h)) ∙ there
  set_values-kept law (y ∷ ys) p p' x h apart there =
      let (q, set, rest) = set_values-step p p' y ys h in
      set_values-kept law ys q p' x rest (λ z m. apart z (inr m))
        (elim (apart y (inl refl)) [
          | inl same ↦
              subst (λ (z : Entry). api.get_value q (spec_path z.0) ≡ ok z.1) same
                (law.get-set p (spec_path y.0) y.1 q set)
          | inr other ↦
              law.get-set_separate p (spec_path y.0) y.1 q (spec_path x.0) set other ∙ there
        ])

  pub set_values-set :
      (law : IsFieldpath api) (values : List Entry) (p p' : api.Paved) (x : Entry)
      → set_values api p values ≡ ok p'
      → ((y : Entry) → In y values → (y ≡ x) ⊎ Separate (spec_path y.0) (spec_path x.0))
      → In x values
      → api.get_value p' (spec_path x.0) ≡ ok x.1
  unfolding set_values
  set_values-set law [] p p' x h apart m = absurd m
  set_values-set law (y ∷ ys) p p' x h apart m =
      let (q, set, rest) = set_values-step p p' y ys h in
      elim m [
        | inr later ↦ set_values-set law ys q p' x rest (λ z n. apart z (inr n)) later
        | inl same ↦
            set_values-kept law ys q p' x rest (λ z n. apart z (inr n))
              (subst (λ (z : Entry). api.get_value q (spec_path z.0) ≡ ok z.1) same
                (law.get-set p (spec_path y.0) y.1 q set))
      ]
