-- ===== src/Drift/Paths.antt =====
-- `normalizePath`: the two spellings of an ignore path. `fieldpath.Parse` is a parameter.
use provider_k3s.Base.{
  not, Option, none, some, [], ◌∷◌, ◌++◌, map, Text, codes, ◌==◌, text_eq, Error, plain, errorf,
  wrap, Result, ok, err, if◌then◌else◌,
}
use provider_k3s.Strings.{
  trim_space, has_prefix, trim_prefix, split, join, replace_all, contains_any,
}

abbrev pub prefix_for_provider : Text
prefix_for_provider = codes "forProvider."

abbrev pub err_bad_path : Text
err_bad_path = codes "invalid drift detection ignore path"

-- RFC 6901: one part of a JSON Pointer.
unfoldable pub unescape_part : Text → Text
unescape_part part =
    replace_all (replace_all part (codes "~1") (codes "/")) (codes "~0") (codes "~")

-- A JSON Pointer in the grammar of field paths; any other text stays.
unfoldable pub from_pointer : Text → Text
unfolding unescape_part
from_pointer p =
    if has_prefix p (codes "/")
    then join (map unescape_part (split (trim_prefix p (codes "/")) b'/')) (codes ".")
    else p

module _ (parse : Text → Option Error) where
  -- The checks on the path in the grammar of field paths; `s` is what the user wrote.
  unfoldable pub check_path : Text → Text → Result Text
  check_path s p =
      if contains_any p (codes "[]*")
      then err (
          errorf
            (codes
              "%s %q: list indices and wildcards are not supported; ignore the whole list instead")
            (err_bad_path ∷ s ∷ []))
      else if not (has_prefix p prefix_for_provider)
      then err
          (errorf (codes "%s %q: must start with %q") (err_bad_path ∷ s ∷ prefix_for_provider ∷ []))
      else elim (parse p) [
        | none ↦ ok p
        | some e ↦ err (wrap e (err_bad_path ++ (codes ": " ++ s)))
      ]

  unfoldable pub normalize_path : Text → Result Text
  unfolding check_path from_pointer
  normalize_path s =
      let p = trim_space s in
      if p == []
      then err (plain (err_bad_path ++ codes ": empty"))
      else check_path s (from_pointer p)
