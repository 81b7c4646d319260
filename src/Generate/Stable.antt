-- ===== src/Generate/Stable.antt =====
-- What is generated does not depend on the order in which directories are listed.
use mathlib.Core.List.{Permᴰ}
use provider_k3s.Base.{
  Bool, List, [], ◌∷◌, Text, codes, ◌≡◌, refl, ap, sym, ◌∙◌, wrapf, Result, ok, err, Result-cases,
  inl, inr,
}
use provider_k3s.Generate.Tree.{Tree, join_path, sort_strings, read_dir_names}
use provider_k3s.Generate.Scan.{
  SchemeEntry, scope_dir, version_entries, top_entries, walk_tops, walk_scope_dir, scan_scopes,
  scopes, scan_scheme_entries, api_resources, shared_version_layout, collect, controller_dir,
  scan_controller_entries,
}
use provider_k3s.Generate.Emit.{Output, generate_registration}
use provider_k3s.Generate.Order.{sort_strings-Permᴰ}

-- The same names in another order, or the same error.
abbrev pub Reordered : Result (List Text) → Result (List Text) → Type 0
Reordered (ok xs) (ok ys) = Permᴰ xs ys
Reordered (err e) (err f) = e ≡ f
Reordered _ _ = ⊥

-- A tree with the same files, of which directories are listed as `listing` says.
abbrev pub listed_as : Tree → (Text → Result (List Text)) → Tree
listed_as tree listing = record tree { list_dir = listing }

sorted_names : Text → Result (List Text) → Result (List Text)
sorted_names dir (err e) = err (wrapf e (codes "reading directory %s: %w") (dir ∷ []))
sorted_names dir (ok names) = ok (sort_strings names)

sorted_names-same :
    (dir : Text) (r r' : Result (List Text))
    → Reordered r r'
    → sorted_names dir r ≡ sorted_names dir r'
unfolding sorted_names
sorted_names-same dir (ok xs) (ok ys) h = ap ok (sort_strings-Permᴰ h)
sorted_names-same dir (err e) (err f) h =
    ap (λ x. err (wrapf x (codes "reading directory %s: %w") (dir ∷ []))) h
sorted_names-same dir (ok xs) (err f) h = absurd h
sorted_names-same dir (err e) (ok ys) h = absurd h

read_dir_names-sorted :
    (tree : Tree) (dir : Text) → read_dir_names tree dir ≡ sorted_names dir (tree.list_dir dir)
unfolding read_dir_names sorted_names
read_dir_names-sorted tree dir = elim (Result-cases (tree.list_dir dir)) [
  | inl (names, k) ↦ rw (k, read_dir_names, sorted_names) refl
  | inr (e, k) ↦ rw (k, read_dir_names, sorted_names) refl
]

module _ (tree : Tree) (listing : Text → Result (List Text))
    (reordered : (dir : Text) → Reordered (tree.list_dir dir) (listing dir)) where
  abbrev other : Tree
  other = listed_as tree listing

  read_dir_names-same : (dir : Text) → read_dir_names tree dir ≡ read_dir_names other dir
  read_dir_names-same dir =
      read_dir_names-sorted tree dir
      ∙ sorted_names-same dir (tree.list_dir dir) (listing dir) (reordered dir)
      ∙ sym (read_dir_names-sorted other dir)

  module _ (module_path : Text) where
    version_entries-same :
        (scope top dir : Text) (vers : List Text)
        → version_entries tree module_path scope top dir vers
          ≡ version_entries other module_path scope top dir vers
    unfolding version_entries
    version_entries-same scope top dir [] = refl
    version_entries-same scope top dir (ver ∷ vers) =
        rw (version_entries-same scope top dir vers) refl

    top_entries-same :
        (scope dir top : Text)
        → top_entries tree module_path scope dir top ≡ top_entries other module_path scope dir top
    unfolding top_entries
    top_entries-same scope dir top =
        let below = join_path dir top in
        elim (Result-cases (read_dir_names other below)) [
          | inl (vers, k) ↦
              rw (read_dir_names-same below, k, version_entries-same scope top below vers) refl
          | inr (e, k) ↦ rw (read_dir_names-same below, k) refl
        ]

    walk_tops-same :
        (scope dir : Text) (tops : List Text)
        → walk_tops tree module_path scope dir tops ≡ walk_tops other module_path scope dir tops
    unfolding walk_tops
    walk_tops-same scope dir [] = refl
    walk_tops-same scope dir (top ∷ tops) =
        elim (Result-cases (top_entries other module_path scope dir top)) [
          | inl (here, k) ↦
              rw (top_entries-same scope dir top, k, walk_tops-same scope dir tops) refl
          | inr (e, k) ↦ rw (top_entries-same scope dir top, k) refl
        ]

    walk_scope_dir-same :
        (scope dir : Text)
        → walk_scope_dir tree module_path scope dir ≡ walk_scope_dir other module_path scope dir
    unfolding walk_scope_dir
    walk_scope_dir-same scope dir = elim (Result-cases (read_dir_names other dir)) [
      | inl (tops, k) ↦ rw (read_dir_names-same dir, k, walk_tops-same scope dir tops) refl
      | inr (e, k) ↦ rw (read_dir_names-same dir, k) refl
    ]

    scan_scopes-same :
        (ss : List Text) → scan_scopes tree module_path ss ≡ scan_scopes other module_path ss
    unfolding scan_scopes
    scan_scopes-same [] = refl
    scan_scopes-same (s ∷ ss) =
        elim (Result-cases (walk_scope_dir other module_path s (scope_dir s))) [
          | inl (scoped, k) ↦ rw (walk_scope_dir-same s (scope_dir s), k, scan_scopes-same ss) refl
          | inr (e, k) ↦ rw (walk_scope_dir-same s (scope_dir s), k, scan_scopes-same ss) refl
        ]

    collect-same :
        (known : List Text) (shared : Bool) (pkgs : List Text)
        → collect tree module_path known shared pkgs ≡ collect other module_path known shared pkgs
    unfolding collect
    collect-same known shared [] = refl
    collect-same known shared (pkg ∷ pkgs) = rw (collect-same known shared pkgs) refl

    scan_controller_entries-same :
        (entries : List SchemeEntry)
        → scan_controller_entries tree module_path entries
          ≡ scan_controller_entries other module_path entries
    unfolding scan_controller_entries
    scan_controller_entries-same entries =
        let known = api_resources module_path entries in
        elim (Result-cases (read_dir_names other controller_dir)) [
          | inl (pkgs, k) ↦
              rw
                (
                  read_dir_names-same controller_dir,
                  k,
                  collect-same known (shared_version_layout known) pkgs,
                )
                refl
          | inr (e, k) ↦ rw (read_dir_names-same controller_dir, k) refl
        ]

    scan_scheme_entries-same :
        scan_scheme_entries tree module_path ≡ scan_scheme_entries other module_path
    unfolding scan_scheme_entries
    scan_scheme_entries-same = scan_scopes-same scopes

  -- For two trees that differ only in the order in which their directories are listed, the generator does the
  -- same: it writes the same files, or fails with the same error.
  pub generate_registration-same :
      {W : Type 0} (output : Output W) (arguments : List Text) (w : W)
      → generate_registration output tree arguments w
        ≡ generate_registration output (listed_as tree listing) arguments w
  unfolding generate_registration
  generate_registration-same output [] w = refl
  generate_registration-same output (module_path ∷ more) w =
      elim (Result-cases (scan_scheme_entries other module_path)) [
        | inr (e, k) ↦ rw (generate_registration, scan_scheme_entries-same module_path, k) refl
        | inl (entries, k) ↦
            rw
              (
                generate_registration,
                scan_scheme_entries-same module_path,
                k,
                scan_controller_entries-same module_path entries,
              )
              refl
      ]
