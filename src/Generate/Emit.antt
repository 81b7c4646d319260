-- ===== src/Generate/Emit.antt =====
-- `generateSchemeFile`, `generateControllerFile`, `renderGoFile` and `main`. Packages text/template, go/format and os
-- are parameters; what is printed is left out.
use provider_k3s.Base.{
  Bool, Option, none, some, List, [], ◌∷◌, ◌++◌, Text, codes, Error, plain, wrapf, Result, ok, err,
  if◌then◌else◌,
}
use provider_k3s.Generate.Tree.{Tree}
use provider_k3s.Generate.Scan.{
  SchemeEntry, ControllerEntry, in_message, scan_scheme_entries, scan_controller_entries,
}

-- A template of the program with the data that it is executed on.
pub data Rendering : Type 0 where
  scheme_file : List SchemeEntry → Rendering
  controllers_no_config : List ControllerEntry → Rendering
  controllers_with_config : Text → List ControllerEntry → Rendering

-- Parse of a template, its Execute, format.Source, and os.WriteFile.
pub record Output (W : Type 0) : Type 0 where
  pub parse : Rendering → Option Error
  pub execute : Rendering → Result Text
  pub format : Text → Result Text
  pub write_file : W → Text → Text → Option Error × W

abbrev pub scheme_path : Text
scheme_path = codes "apis/zz_generated_register.go"

abbrev pub controller_path : Text
controller_path = codes "internal/controller/zz_generated_register.go"

abbrev pub fatal : {W : Type 0} → Text → Option Error × W → Option Error × W
fatal message (none, w) = (none, w)
fatal message (some e, w) = (some (wrapf e message []), w)

module _ {W : Type 0} (output : Output W) where
  -- The formatted source is written; where it does not format, the raw one is.
  unfoldable pub write_source : Text → Text → W → Option Error × W
  write_source path raw w = elim (output.format raw) [
    | err e ↦ (
      some (wrapf e (codes "formatting %s (raw output written): %w") (path ∷ [])),
      (output.write_file w path raw).1,
    )
    | ok source ↦
        let (failed, w') = output.write_file w path source in
        elim failed [
          | some e ↦ (some (wrapf e (codes "writing %s: %w") (path ∷ [])), w')
          | none ↦ (none, w')
        ]
  ]

  unfoldable pub render_go_file : Text → Rendering → W → Option Error × W
  unfolding write_source
  render_go_file path rendering w = elim (output.parse rendering) [
    | some e ↦ (some (wrapf e (codes "parsing template: %w") []), w)
    | none ↦ elim (output.execute rendering) [
      | err e ↦ (some (wrapf e (codes "executing template: %w") []), w)
      | ok raw ↦ write_source path raw w
    ]
  ]

  unfoldable pub generate_scheme_file : List SchemeEntry → W → Option Error × W
  unfolding render_go_file
  generate_scheme_file entries = render_go_file scheme_path (scheme_file entries)

  unfoldable pub generate_controller_file :
      Text → List ControllerEntry → Bool → W → Option Error × W
  unfolding render_go_file
  generate_controller_file module_path controllers has_config = render_go_file controller_path (
      if has_config
      then controllers_with_config (module_path ++ codes "/internal/controller/config") controllers
      else controllers_no_config controllers)

  -- Behind the scans.
  unfoldable pub generate_files :
      Text → List SchemeEntry → List ControllerEntry × Bool → W → Option Error × W
  unfolding generate_scheme_file generate_controller_file
  generate_files module_path entries (controllers, has_config) w =
      let (failed, w') = generate_scheme_file entries w in
      elim failed [
        | some e ↦ (some (wrapf e (codes "generating apis/zz_generated_register.go: %v") []), w')
        | none ↦
            fatal (codes "generating internal/controller/zz_generated_register.go: %v")
              (generate_controller_file module_path controllers has_config w')
      ]

  -- main, on its arguments. A fatal error ends the process with its message.
  unfoldable pub generate_registration : Tree → List Text → W → Option Error × W
  unfolding generate_files
  generate_registration tree [] w =
      (some (plain (codes "Usage: go run hack/generate-registration.go <module-path>")), w)
  generate_registration tree (module_path ∷ _) w =
      elim (in_message (codes "scanning scheme entries: %v") []
        (scan_scheme_entries tree module_path)) [
          | err e ↦ (some e, w)
          | ok entries ↦
              elim (in_message (codes "scanning controller entries: %v") []
                (scan_controller_entries tree module_path entries)) [
                  | err e ↦ (some e, w)
                  | ok scanned ↦ generate_files module_path entries scanned w
                ]
        ]
