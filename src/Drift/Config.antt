-- ===== src/Drift/Config.antt =====
-- `Config`, `ReadConfig`, `snapshot` and `apply`.
use provider_k3s.Base.{
  Bool, true, false, not, ◌||◌, Option, none, some, List, [], ◌∷◌, ◌++◌, Text, codes, ◌==◌, text_eq,
  plain, wrap, Result, ok, err, ◌>>=◌, ◌>>◌, wrapped, if◌then◌else◌,
}
use provider_k3s.Strings.{trim_prefix}
use provider_k3s.Drift.Paths.{normalize_path, prefix_for_provider}
use provider_k3s.Drift.Types.{check_eligible_type}
use provider_k3s.Drift.Interface.{ManagedApi}

abbrev pub mode_enabled : Text
mode_enabled = codes "enabled"

abbrev pub mode_warn : Text
mode_warn = codes "warn"

abbrev pub mode_disabled : Text
mode_disabled = codes "disabled"

abbrev pub path_mode : Text
path_mode = codes "spec.driftDetection.mode"

abbrev pub path_ignore_paths : Text
path_ignore_paths = codes "spec.driftDetection.ignore[*].paths[*]"

abbrev pub prefix_spec : Text
prefix_spec = codes "spec."

abbrev pub prefix_at_provider : Text
prefix_at_provider = codes "status.atProvider."

abbrev pub err_pave : Text
err_pave = codes "cannot project managed resource for drift detection"

abbrev pub err_unpave : Text
err_unpave = codes "cannot rebuild managed resource after path substitution"

abbrev pub err_snapshot : Text
err_snapshot = codes "cannot read observed value for ignored path"

abbrev pub err_apply : Text
err_apply = codes "cannot substitute observed value for ignored path"

pub record Config : Type 0 where
  pub mode : Text
  pub ignore_paths : List Text

abbrev pub is_nil {ℓ} : {A : Type ℓ} → List A → Bool
is_nil [] = true
is_nil (x ∷ xs) = false

unfoldable pub active : Config → Bool
active c = not (c.mode == mode_enabled) || not (is_nil c.ignore_paths)

module _ {MG : Type 0} (api : ManagedApi MG) where
  open api use {
    Paved, Value, type_of, pave_object, is_not_found, parse, get_string, expand_wildcards,
    get_value, set_value, deep_copy, from_unstructured, range,
  }

  -- The switch on the string at `spec.driftDetection.mode`.
  unfoldable pub read_mode : Paved → Result Text
  read_mode p = elim (get_string p path_mode) [
    | err e ↦ if is_not_found e then ok mode_enabled else err (wrap e err_pave)
    | ok m ↦ ok (if m == [] then mode_enabled else m)
  ]

  unfoldable pub expand_paths : Paved → Result (List Text)
  expand_paths p = elim (expand_wildcards p path_ignore_paths) [
    | err e ↦ if is_not_found e then ok [] else err (wrap e err_pave)
    | ok expanded ↦ ok expanded
  ]

  -- One round of the loop over the expanded paths.
  unfoldable pub read_path : MG → Paved → Text → Result Text
  read_path mg p e = do
    s ← wrapped err_pave (get_string p e)
    n ← normalize_path parse s
    check_eligible_type (type_of mg) n
    ok n

  unfoldable pub read_paths : MG → Paved → List Text → Result (List Text)
  unfolding read_path
  read_paths mg p [] = ok []
  read_paths mg p (e ∷ expanded) = do
    n ← read_path mg p e
    rest ← read_paths mg p expanded
    ok (n ∷ rest)

  unfoldable pub read_config : MG → Result Config
  unfolding read_mode expand_paths read_paths
  read_config mg = do
    p ← wrapped err_pave (pave_object mg)
    mode ← read_mode p
    expanded ← expand_paths p
    paths ← read_paths mg p expanded
    ok (record { mode = mode; ignore_paths = paths })

  -- `values` is the Go map as the list of its entries, in the order of their first capture.
  pub record Observation : Type 0 where
    pub values : List (Text × Value)
    pub unobserved : List Text

  -- obs.values[path] = v
  unfoldable pub put_value : List (Text × Value) → Text → Value → List (Text × Value)
  put_value [] path v = (path, v) ∷ []
  put_value ((q, w) ∷ values) path v =
      if q == path then (path, v) ∷ values else (q, w) ∷ put_value values path v

  unfoldable pub capture : Paved → List Text → Observation → Result Observation
  unfolding put_value
  capture p [] obs = ok obs
  capture p (path ∷ paths) obs =
      elim (get_value p (prefix_at_provider ++ trim_prefix path prefix_for_provider)) [
        | err e ↦
            if is_not_found e
            then capture p paths (record obs { unobserved = obs.unobserved ++ path ∷ [] })
            else err (wrap e err_snapshot)
        | ok v ↦ capture p paths (record obs { values = put_value obs.values path v })
      ]

  unfoldable pub snapshot : MG → List Text → Result Observation
  unfolding capture
  snapshot mg [] = ok (record { values = []; unobserved = [] })
  snapshot mg (path ∷ paths) = do
    p ← wrapped err_pave (pave_object mg)
    capture p (path ∷ paths) (record { values = []; unobserved = [] })

  unfoldable pub set_values : Paved → List (Text × Value) → Result Paved
  set_values p [] = ok p
  set_values p ((path, v) ∷ values) = do
    p' ← wrapped err_apply (set_value p (prefix_spec ++ path) v)
    set_values p' values

  -- The loop of `apply` and what follows it, on the copy.
  unfoldable pub substitute : MG → List (Text × Value) → Result MG
  unfolding set_values
  substitute shadow values = do
    p ← wrapped err_pave (pave_object shadow)
    p' ← set_values p (range values)
    wrapped err_unpave (from_unstructured p' shadow)

  unfoldable pub apply : MG → Option Observation → Result MG
  unfolding substitute
  apply mg obs = elim (deep_copy mg) [
    | none ↦ err (plain err_apply)
    | some shadow ↦ elim obs [
      | none ↦ ok shadow
      | some o ↦ if is_nil o.values then ok shadow else substitute shadow o.values
    ]
  ]
