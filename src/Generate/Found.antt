-- ===== src/Generate/Found.antt =====
-- Which packages the scans find.
use provider_k3s.Base.{
  true, false, List, [], ◌∷◌, In, Text, text_eq, ◌≡◌, ◌↔◌, ◌⊎◌, inl, inr, refl, ap, sym, ◌∙◌, subst,
  ok, >>=-eq-ok, ok_injective, err≢ok, false≢true, Result-cases, Bool-cases,
}
use provider_k3s.Generate.Tree.{
  Tree, join_path, is_missing, is_directory, is_there, sort_strings, read_dir_names,
}
use provider_k3s.Generate.Sorted.{In-sort_by}
use provider_k3s.Generate.Scan.{
  SchemeEntry, register_file, scope_dir, direct_entry, version_entry, version_entries, top_entries,
}

module _ (tree : Tree) (module_path : Text) where
  -- A directory's listing has the name.
  abbrev pub Lists : Text → Text → Type 0
  Lists dir name = (names : List Text) × (tree.list_dir dir ≡ ok names) × In name names

  -- The package whose register.go stands in the directory itself.
  abbrev pub FoundDirect : Text → Text → SchemeEntry → Type 0
  FoundDirect scope top e =
      (is_there (tree.stat (join_path (join_path (scope_dir scope) top) register_file)) ≡ true)
      × (direct_entry tree module_path scope top ≡ e)

  -- A package of one version below it. An error other than that of a missing file counts as the file.
  abbrev pub FoundVersion : Text → Text → SchemeEntry → Type 0
  FoundVersion scope top e =
      (is_there (tree.stat (join_path (join_path (scope_dir scope) top) register_file)) ≡ false)
      × (ver : Text) × Lists (join_path (scope_dir scope) top) ver
      × (is_missing
            (tree.stat (join_path (join_path (join_path (scope_dir scope) top) ver) register_file))
          ≡ false)
      × (version_entry tree module_path scope top ver ≡ e)

  abbrev pub FoundAt : Text → Text → SchemeEntry → Type 0
  FoundAt scope top e =
      (is_directory (tree.stat (join_path (scope_dir scope) top)) ≡ true)
      × (FoundDirect scope top e ⊎ FoundVersion scope top e)

  abbrev pub Found : Text → SchemeEntry → Type 0
  Found scope e =
      (is_missing (tree.stat (scope_dir scope)) ≡ false)
      × ((top : Text) × Lists (scope_dir scope) top × FoundAt scope top e)

  version_entries-In :
      (scope top dir : Text) (vers : List Text) (e : SchemeEntry)
      → In e (version_entries tree module_path scope top dir vers) ↔ (
          (ver : Text) × In ver vers
          × (is_missing (tree.stat (join_path (join_path dir ver) register_file)) ≡ false)
          × (version_entry tree module_path scope top ver ≡ e))
  unfolding version_entries
  version_entries-In scope top dir [] e = (λ m. absurd m, λ (ver, m, _, _). absurd m)
  version_entries-In scope top dir (v ∷ vers) e =
      let (into, back) = version_entries-In scope top dir vers e in
      elim (Bool-cases (is_missing (tree.stat (join_path (join_path dir v) register_file)))) [
        | inl gone ↦ rw gone (
          λ m. let (ver, n, there, made) = into m in (ver, inr n, there, made),
          λ (ver, m, there, made). elim m [
            | inl same ↦ absurd (
                false≢true (
                  sym there
                  ∙ ap (λ z. is_missing (tree.stat (join_path (join_path dir z) register_file)))
                      (sym same)
                  ∙ gone))
            | inr n ↦ back (ver, n, there, made)
          ],
        )
        | inr there ↦ rw there (
          λ m. elim m [
            | inl made ↦ (v, inl refl, there, made)
            | inr n ↦ let (ver, k, kept, made) = into n in (ver, inr k, kept, made)
          ],
          λ (ver, m, kept, made). elim m [
            | inl same ↦ inl (ap (version_entry tree module_path scope top) same ∙ made)
            | inr n ↦ inr (back (ver, n, kept, made))
          ],
        )
      ]

  pub read_dir_names-Lists :
      (dir : Text) (names : List Text) (name : Text)
      → read_dir_names tree dir ≡ ok names
      → In name names ↔ Lists dir name
  unfolding read_dir_names
  read_dir_names-Lists dir names name h = elim (Result-cases (tree.list_dir dir)) [
    | inr (e, k) ↦ absurd (err≢ok (rw (read_dir_names, k) at h))
    | inl (listed, k) ↦
        let sorted : sort_strings listed ≡ names =
          ok_injective _ names (rw (read_dir_names, k) at h) in
        let (into, back) = In-sort_by (λ s. s) name listed in
        (
          λ m. (listed, k, into (subst (In name) (sym sorted) m)),
          λ (others, other, m).
              subst (In name) sorted
                (back (subst (In name) (ok_injective others listed (sym other ∙ k)) m)),
        )
  ]

  pub top_entries-In :
      (scope top : Text) (here : List SchemeEntry) (e : SchemeEntry)
      → top_entries tree module_path scope (scope_dir scope) top ≡ ok here
      → In e here ↔ FoundAt scope top e
  unfolding top_entries
  top_entries-In scope top here e h =
      let below = join_path (scope_dir scope) top in
      elim (Bool-cases (is_directory (tree.stat below))) [
        | inr other ↦
            subst (λ es. In e es ↔ FoundAt scope top e)
              (ok_injective [] here (rw (top_entries, other) at h))
              (λ m. absurd m, λ (dir, _). absurd (false≢true (sym other ∙ dir)))
        | inl dir ↦ elim (Bool-cases (is_there (tree.stat (join_path below register_file)))) [
          | inl direct ↦
              subst (λ es. In e es ↔ FoundAt scope top e)
                (ok_injective (direct_entry tree module_path scope top ∷ []) here
                  (rw (top_entries, dir, direct) at h))
                (
                  λ m. elim m [ inl made ↦ (dir, inl (direct, made)) | inr n ↦ absurd n ],
                  λ (_, found). elim found [
                    | inl (_, made) ↦ inl made
                    | inr (apart, _, _, _, _) ↦ absurd (false≢true (sym apart ∙ direct))
                  ],
                )
          | inr apart ↦
              let (vers, read, made) =
                >>=-eq-ok (read_dir_names tree below) _ (rw (top_entries, dir, apart) at h) in
              let (into, back) = version_entries-In scope top below vers e in
              subst (λ es. In e es ↔ FoundAt scope top e) (ok_injective _ here made)
                (
                  λ m.
                      let (ver, n, there, same) = into m in
                      (
                        dir,
                        inr (
                          apart,
                          ver,
                          (read_dir_names-Lists below vers ver read).0 n,
                          there,
                          same,
                        ),
                      ),
                  λ (_, found). elim found [
                    | inl (direct, _) ↦ absurd (false≢true (sym apart ∙ direct))
                    | inr (_, ver, listed, there, same) ↦
                        back (ver, (read_dir_names-Lists below vers ver read).1 listed, there, same)
                  ],
                )
        ]
      ]
