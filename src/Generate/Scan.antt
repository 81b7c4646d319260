-- ===== src/Generate/Scan.antt =====
-- `scanSchemeEntries`, `walkScopeDir` and `scanControllerEntries`.
use provider_k3s.Base.{
  Bool, true, false, not, ◌||◌, ◌&&◌, Option, none, some, List, [], ◌∷◌, ◌++◌, Text, codes, ◌==◌,
  text_eq, nat_eq, wrapf, Result, ok, err, ◌>>=◌, if◌then◌else◌,
}
use provider_k3s.Strings.{trim_prefix, split_once}
use provider_k3s.Generate.Tree.{
  Tree, join_path, is_missing, is_directory, is_there, read_dir_names, sort_by, sanitize_ident,
}

-- schemeEntry
pub record SchemeEntry : Type 0 where
  pub alias : Text
  pub import_path : Text

-- controllerEntry
pub record ControllerEntry : Type 0 where
  pub import_path : Text
  pub pkg_name : Text

abbrev pub register_file : Text
register_file = codes "register.go"

abbrev pub scopes : List Text
scopes = codes "cluster" ∷ codes "namespaced" ∷ []

abbrev pub scope_dir : Text → Text
scope_dir scope = join_path (codes "apis") scope

-- fmt.Errorf("...: %w") on an error
abbrev pub in_message : {A : Type 0} → Text → List Text → Result A → Result A
in_message message arguments (ok a) = ok a
in_message message arguments (err e) = err (wrapf e message arguments)

module _ (tree : Tree) (module_path : Text) where
  abbrev pub direct_entry : Text → Text → SchemeEntry
  direct_entry scope top = record {
    alias = scope ++ sanitize_ident top;
    import_path = module_path ++ (codes "/apis/" ++ (scope ++ (codes "/" ++ top)));
  }

  abbrev pub version_entry : Text → Text → Text → SchemeEntry
  version_entry scope top ver = record {
    alias = scope ++ (sanitize_ident top ++ ver);
    import_path =
        module_path ++ (codes "/apis/" ++ (scope ++ (codes "/" ++ (top ++ (codes "/" ++ ver)))));
  }

  -- The loop over the versions below a directory.
  unfoldable pub version_entries : Text → Text → Text → List Text → List SchemeEntry
  version_entries scope top dir [] = []
  version_entries scope top dir (ver ∷ vers) =
      let rest = version_entries scope top dir vers in
      if is_missing (tree.stat (join_path (join_path dir ver) register_file))
      then rest
      else version_entry scope top ver ∷ rest

  -- One round of the loop over the first level.
  unfoldable pub top_entries : Text → Text → Text → Result (List SchemeEntry)
  unfolding version_entries read_dir_names
  top_entries scope dir top =
      let below = join_path dir top in
      if not (is_directory (tree.stat below))
      then ok []
      else if is_there (tree.stat (join_path below register_file))
      then ok (direct_entry scope top ∷ [])
      else (read_dir_names tree below >>= λ vers. ok (version_entries scope top below vers))

  unfoldable pub walk_tops : Text → Text → List Text → Result (List SchemeEntry)
  unfolding top_entries
  walk_tops scope dir [] = ok []
  walk_tops scope dir (top ∷ tops) =
      let rest = walk_tops scope dir tops in
      top_entries scope dir top >>= λ here. rest >>= λ later. ok (here ++ later)

  unfoldable pub walk_scope_dir : Text → Text → Result (List SchemeEntry)
  unfolding walk_tops read_dir_names
  walk_scope_dir scope dir = read_dir_names tree dir >>= λ tops. walk_tops scope dir tops

  -- The loop over the scopes.
  unfoldable pub scan_scopes : List Text → Result (List SchemeEntry)
  unfolding walk_scope_dir
  scan_scopes [] = ok []
  scan_scopes (scope ∷ rest) =
      let later = scan_scopes rest in
      if is_missing (tree.stat (scope_dir scope))
      then later
      else (in_message (codes "walking %s: %w") (scope_dir scope ∷ [])
            (walk_scope_dir scope (scope_dir scope))
          >>= λ scoped. later >>= λ entries. ok (scoped ++ entries))

  unfoldable pub scan_scheme_entries : Result (List SchemeEntry)
  unfolding scan_scopes
  scan_scheme_entries = scan_scopes scopes

-- parts[1] of an import path below the APIs of a scope
unfoldable pub resource_name : Text → Text → Option Text
resource_name module_path import_path =
    let (scope, behind) = split_once (trim_prefix import_path (module_path ++ codes "/apis/")) 47 in
    elim behind [
      | none ↦ none
      | some path ↦
          if scope == codes "cluster" || scope == codes "namespaced"
          then some (split_once path 47).0
          else none
    ]

-- The set of known API resources, as the list of what was put into it.
unfoldable pub api_resources : Text → List SchemeEntry → List Text
unfolding resource_name
api_resources module_path [] = []
api_resources module_path (e ∷ entries) =
    let rest = api_resources module_path entries in
    elim (resource_name module_path e.import_path) [ none ↦ rest | some name ↦ name ∷ rest ]

-- "v" and more
abbrev looks_versioned : Text → Bool
looks_versioned (c ∷ d ∷ name) = c == 118
looks_versioned _ = false

unfoldable pub shared_version_layout : List Text → Bool
shared_version_layout [] = true
shared_version_layout (name ∷ names) = looks_versioned name && shared_version_layout names

abbrev pub has_name : List Text → Text → Bool
has_name [] name = false
has_name (n ∷ names) name = n == name || has_name names name

abbrev pub controller_dir : Text
controller_dir = codes "internal/controller"

module _ (tree : Tree) (module_path : Text) where
  abbrev pub controller_entry : Text → ControllerEntry
  controller_entry pkg = record {
    import_path = module_path ++ (codes "/internal/controller/" ++ pkg);
    pkg_name = pkg;
  }

  -- The loop over the packages: the entries, and whether there is a package of configurations.
  unfoldable pub collect : List Text → Bool → List Text → List ControllerEntry × Bool
  collect known shared [] = ([], false)
  collect known shared (pkg ∷ pkgs) =
      let (entries, has_config) = collect known shared pkgs in
      if not (is_directory (tree.stat (join_path controller_dir pkg)))
      then (entries, has_config)
      else if pkg == codes "config"
      then (entries, true)
      else if pkg == codes "refresolver"
      then (entries, has_config)
      else if not shared && not (has_name known pkg)
      then (entries, has_config)
      else (controller_entry pkg ∷ entries, has_config)

  unfoldable pub scan_controller_entries : List SchemeEntry → Result (List ControllerEntry × Bool)
  unfolding api_resources shared_version_layout collect read_dir_names sort_by
  scan_controller_entries scheme_entries =
      let known = api_resources module_path scheme_entries in
      if is_missing (tree.stat controller_dir)
      then ok ([], false)
      else (read_dir_names tree controller_dir >>= λ pkgs.
          let (entries, has_config) = collect known (shared_version_layout known) pkgs in
          ok (sort_by (λ (e : ControllerEntry). e.pkg_name) entries, has_config))
