-- ===== src/Drift/Eligible.antt =====
-- Every ignore path that ReadConfig accepts is eligible.
use provider_k3s.Base.{
  true, false, Option, none, List, [], ◌∷◌, Text, codes, ◌==◌, text_eq, ◌≡◌, ◌≢◌, arith,
  text_beq_iff, Error, ok, wrapped, >>=-eq-ok, All, Bool-cases, inl, inr, subst, ok_injective,
}
use provider_k3s.Strings.{has_prefix, contains_any, split, trim_prefix, trim_space}
use provider_k3s.Drift.Paths.{check_path, normalize_path, from_pointer, prefix_for_provider}
use provider_k3s.Drift.Types.{GoType, field_type, last_segment, check_eligible_type}
use provider_k3s.Drift.Interface.{ManagedApi}
use provider_k3s.Drift.Config.{
  Config, read_config, read_path, read_paths, read_mode, expand_paths, err_pave,
}

-- A path in the grammar of field paths, below forProvider, that names no element of a list.
pub record IsNormal (parse : Text → Option Error) (n : Text) : Type 0 where
  pub for_provider : has_prefix n prefix_for_provider ≡ true
  pub whole : contains_any n (codes "[]*") ≡ false
  pub parses : parse n ≡ none

-- A field that the resource configures and mirrors, and that is no part of its identity.
pub record IsEligible (t : GoType) (n : Text) : Type 0 where
  pub not_identity : last_segment (split n b'.') ≢ codes "host"
  pub configurable : field_type t (codes "spec" ∷ split n b'.') ≢ none
  pub mirrored :
      field_type t
        (codes "status" ∷ codes "atProvider" ∷ split (trim_prefix n prefix_for_provider) b'.')
      ≢ none

module _ (parse : Text → Option Error) where
  check_path-eq-ok : (s p n : Text) → check_path parse s p ≡ ok n → (n ≡ p) × IsNormal parse p
  unfolding check_path
  check_path-eq-ok s p n h = ground arith

  normalize_path-checked :
      (s n : Text)
      → normalize_path parse s ≡ ok n
      → check_path parse s (from_pointer (trim_space s)) ≡ ok n
  unfolding normalize_path check_path
  normalize_path-checked s n = elim (Bool-cases (trim_space s == [])) [
    | inl empty ↦ rw (empty, normalize_path) (λ h. cc)
    | inr full ↦ rw (full, normalize_path) (λ h. h)
  ]

  -- A path that normalizePath returns parses, lies below forProvider, and has no index and no wildcard.
  normalize_path-IsNormal : (s n : Text) → normalize_path parse s ≡ ok n → IsNormal parse n
  normalize_path-IsNormal s n h =
      let (same, normal) =
        check_path-eq-ok s (from_pointer (trim_space s)) n (normalize_path-checked s n h) in
      rw same normal

-- A path that the eligibility check lets through does not end in the host, and resolves in the spec and
-- in the observation of the type.
pub check_eligible_type-IsEligible :
    (t : GoType) (n : Text) → check_eligible_type t n ≡ ok tt → IsEligible t n
unfolding check_eligible_type
check_eligible_type-IsEligible t n h =
    ground (arith, text_beq_iff (last_segment (split n b'.')) (codes "host"))

-- The eligibility check lets through every path that does not end in the host and resolves in the spec
-- and in the observation of the type.
pub check_eligible_type_complete :
    (t : GoType) (n : Text) → IsEligible t n → check_eligible_type t n ≡ ok tt
unfolding check_eligible_type
check_eligible_type_complete t n h = ground (
  arith,
  h.not_identity,
  h.configurable,
  h.mirrored,
  text_beq_iff (last_segment (split n b'.')) (codes "host"),
)

module _ {MG : Type 0} (api : ManagedApi MG) (mg : MG) where
  -- A path that is both.
  pub record IsAccepted (n : Text) : Type 0 where
    pub normal : IsNormal api.parse n
    pub eligible : IsEligible (api.type_of mg) n

  read_path-IsAccepted : (p : api.Paved) (e n : Text) → read_path api mg p e ≡ ok n → IsAccepted n
  unfolding read_path
  read_path-IsAccepted p e n h =
      let (s, _, h₁) = >>=-eq-ok (wrapped err_pave (api.get_string p e)) _ h in
      let (m, normalized, h₂) = >>=-eq-ok (normalize_path api.parse s) _ h₁ in
      let (_, checked, same) = >>=-eq-ok (check_eligible_type (api.type_of mg) m) _ h₂ in
      subst IsAccepted (ok_injective m n same) (record {
        normal = normalize_path-IsNormal api.parse s m normalized;
        eligible = check_eligible_type-IsEligible (api.type_of mg) m checked;
      })

  read_paths-IsAccepted :
      (p : api.Paved) (expanded paths : List Text)
      → read_paths api mg p expanded ≡ ok paths
      → All IsAccepted paths
  unfolding read_paths
  read_paths-IsAccepted p [] paths h = subst (All IsAccepted) (ok_injective [] paths h) tt
  read_paths-IsAccepted p (e ∷ expanded) paths h =
      let (n, read, h₁) = >>=-eq-ok (read_path api mg p e) _ h in
      let (rest, read_rest, same) = >>=-eq-ok (read_paths api mg p expanded) _ h₁ in
      subst (All IsAccepted) (ok_injective (n ∷ rest) paths same)
        (read_path-IsAccepted p e n read, read_paths-IsAccepted p expanded rest read_rest)

  -- A configuration that ReadConfig returns holds accepted paths only, each normal and eligible.
  pub read_config-IsAccepted :
      (cfg : Config) → read_config api mg ≡ ok cfg → All IsAccepted cfg.ignore_paths
  unfolding read_config
  read_config-IsAccepted cfg h =
      let (p, _, h₁) = >>=-eq-ok (wrapped err_pave (api.pave_object mg)) _ h in
      let (mode, _, h₂) = >>=-eq-ok (read_mode api p) _ h₁ in
      let (expanded, _, h₃) = >>=-eq-ok (expand_paths api p) _ h₂ in
      let (paths, read, same) = >>=-eq-ok (read_paths api mg p expanded) _ h₃ in
      subst (λ (c : Config). All IsAccepted c.ignore_paths) (ok_injective _ cfg same)
        (read_paths-IsAccepted p expanded paths read)
