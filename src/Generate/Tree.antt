-- ===== src/Generate/Tree.antt =====
-- The directories that the generators read, and the names that they make of them.
use provider_k3s.Base.{
  Bool, true, false, ◌||◌, List, [], ◌∷◌, ◌++◌, Text, codes, ◌==◌, nat_eq, Error, wrapf, Result, ok,
  err, if◌then◌else◌,
}
use provider_k3s.Strings.{text_ltb}

-- What os.Stat tells of a path: `missing` is an error of which os.IsNotExist says so.
pub data Status : Type 0 where
  directory file missing : Status
  unreadable : Error → Status

-- The names in a directory, in any order, and os.Stat.
pub record Tree : Type 0 where
  pub list_dir : Text → Result (List Text)
  pub stat : Text → Status

-- filepath.Join with the name of an entry
abbrev pub join_path : Text → Text → Text
join_path dir name = dir ++ (codes "/" ++ name)

abbrev pub is_missing : Status → Bool
is_missing missing = true
is_missing _ = false

abbrev pub is_directory : Status → Bool
is_directory directory = true
is_directory _ = false

-- err == nil
abbrev pub is_there : Status → Bool
is_there directory = true
is_there file = true
is_there _ = false

module _ {A : Type 0} (key : A → Text) where
  unfoldable pub insert_by : A → List A → List A
  unfolding text_ltb
  insert_by x [] = x ∷ []
  insert_by x (y ∷ ys) =
      let rest = insert_by x ys in if text_ltb (key y) (key x) then y ∷ rest else x ∷ y ∷ ys

  -- sort.Slice by a key; elements of one key are equal where it is used.
  unfoldable pub sort_by : List A → List A
  unfolding insert_by
  sort_by [] = []
  sort_by (x ∷ xs) = insert_by x (sort_by xs)

-- sort.Strings
abbrev pub sort_strings : List Text → List Text
sort_strings = sort_by (λ s. s)

-- sanitizeIdent: hyphens and underscores go.
unfoldable pub sanitize_ident : Text → Text
sanitize_ident [] = []
sanitize_ident (c ∷ s) =
    let rest = sanitize_ident s in if c == 45 || c == 95 then rest else c ∷ rest

module _ (tree : Tree) where
  unfoldable pub read_dir_names : Text → Result (List Text)
  unfolding sort_by
  read_dir_names dir = elim (tree.list_dir dir) [
    | err e ↦ err (wrapf e (codes "reading directory %s: %w") (dir ∷ []))
    | ok names ↦ ok (sort_strings names)
  ]
