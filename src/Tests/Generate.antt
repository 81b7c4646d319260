-- ===== src/Tests/Generate.antt =====
-- A tree with one package of the shared-version layout in a scope.
use mathlib.Core.List.{Permᴰ}
use provider_k3s.Base.{
  none, inl, inr, Bool-cases, false, List, [], ◌∷◌, Text, codes, ◌==◌, text_eq, text_beq, ◌≡◌, refl,
  plain, Result, ok, err, if◌then◌else◌,
}
use provider_k3s.Strings.{trim_prefix, split_once}
use provider_k3s.Generate.Tree.{Tree, Status, directory, file, missing}
use provider_k3s.Generate.Scan.{SchemeEntry, ControllerEntry, scan_controller_entries}
use provider_k3s.Generate.Found.{Found}
use provider_k3s.Generate.Emit.{Output, generate_registration}
use provider_k3s.Generate.Stable.{Reordered, listed_as, generate_registration-same}

abbrev demo_list : Text → Result (List Text)
demo_list dir =
    if dir == codes "apis/cluster"
    then ok (codes "v1alpha1" ∷ codes "doc.go" ∷ [])
    else if dir == codes "internal/controller"
    then ok (codes "refresolver" ∷ codes "namespaced" ∷ codes "cluster" ∷ [])
    else err (plain (codes "no such directory"))

abbrev demo_stat : Text → Status
demo_stat path =
    if path == codes "apis/namespaced"
    then missing
    else if path == codes "apis/cluster/doc.go"
    then file
    else directory

abbrev demo_tree : Tree
demo_tree = record { list_dir = demo_list; stat = demo_stat }

abbrev shared_entry : SchemeEntry
shared_entry = record {
  alias = codes "clusterv1alpha1";
  import_path = codes "m/apis/cluster/v1alpha1";
}

abbrev controller_of : Text → Text → ControllerEntry
controller_of path name = record { import_path = path; pkg_name = name }

controllers-scanned :
    scan_controller_entries demo_tree (codes "m") (shared_entry ∷ [])
    ≡ ok (
      controller_of (codes "m/internal/controller/cluster") (codes "cluster")
          ∷ controller_of (codes "m/internal/controller/namespaced") (codes "namespaced")
          ∷ [],
      false,
    )
unfolding scan_controller_entries text_beq trim_prefix split_once
controllers-scanned = refl

-- The same tree, with the controllers listed the other way round.
abbrev other_list : Text → Result (List Text)
other_list dir =
    if dir == codes "apis/cluster"
    then ok (codes "doc.go" ∷ codes "v1alpha1" ∷ [])
    else if dir == codes "internal/controller"
    then ok (codes "namespaced" ∷ codes "refresolver" ∷ codes "cluster" ∷ [])
    else err (plain (codes "no such directory"))

other-Reordered : (dir : Text) → Reordered (demo_list dir) (other_list dir)
other-Reordered dir = elim (Bool-cases (dir == codes "apis/cluster")) [
  | inl apis ↦ rw apis (Permᴰ.swap refl refl)
  | inr no_apis ↦ elim (Bool-cases (dir == codes "internal/controller")) [
    | inl controllers ↦ rw (no_apis, controllers) (Permᴰ.swap refl refl)
    | inr nothing ↦ rw (no_apis, nothing) refl
  ]
]

-- The world is the list of the files that were written, the last one first.
abbrev demo_output : Output (List (Text × Text))
demo_output = record {
  parse = λ _. none;
  execute = λ _. ok (codes "source");
  format = ok;
  write_file = λ w path text. (none, (path, text) ∷ w);
}

generate_registration-same_example :
    generate_registration demo_output demo_tree (codes "m" ∷ []) []
    ≡ generate_registration demo_output (listed_as demo_tree other_list) (codes "m" ∷ []) []
generate_registration-same_example =
    generate_registration-same demo_tree other_list other-Reordered demo_output (codes "m" ∷ []) []
