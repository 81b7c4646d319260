-- ===== src/Xpkg/Rewrite.antt =====
-- `verifySemanticEquivalence`, `rewriteWithDonorBase` and `writeEntry`.
use provider_k3s.Base.{
  ℕ, suc, Bool, Option, none, some, List, [], ◌∷◌, ◌++◌, map, Text, codes, ◌==◌, nat_eq, text_eq,
  not, length, Error, errorf, wrapf, Result, ok, err, ◌>>=◌, if◌then◌else◌,
}
use provider_k3s.Strings.Occurrences.{count, replace_first}
use provider_k3s.Xpkg.Files.{TarHeader, DockerManifest, Formats, Files}
use provider_k3s.Xpkg.Package.{Entry, Platform, base_layer_file, sha256, in_context}
pub mod Patch
pub mod Stored
pub mod Atomic

abbrev pub quoted : Text → Text
quoted s = codes "\"" ++ (s ++ codes "\"")

abbrev pub label_key : Text → Text
label_key digest = quoted (codes "io.crossplane.xpkg:" ++ digest)

abbrev pub diff_id_message : Text
diff_id_message =
    codes
      "config %s contains %d occurrence(s) of %s, want exactly 1 -- refusing to guess which one is the base layer's"

abbrev pub label_message : Text
label_message =
    codes
      "config %s contains %d occurrence(s) of the base layer's annotation label key %s, want exactly 1 -- refusing to guess which one is the base layer's"

module _ {Rest Doc : Type 0} (formats : Formats Rest Doc) where
  -- The loop over the documents of the donor, from index `i`.
  unfoldable pub first_difference : ℕ → List Doc → List Doc → Option ℕ
  first_difference i [] others = none
  first_difference i (d ∷ ds) [] = some i
  first_difference i (d ∷ ds) (o ∷ others) =
      let later = first_difference (suc i) ds others in
      if not (formats.doc_equal d o) then some i else later

  unfoldable pub verify_semantic_equivalence : Platform Rest Doc → Platform Rest Doc → Option Error
  unfolding first_difference
  verify_semantic_equivalence donor pf =
      let theirs = length donor.base.docs in
      let ours = length pf.base.docs in
      if not (theirs == ours)
      then some (
          errorf
            (codes
              "%s document count %d differs from donor %s document count %d -- refusing to overwrite: this is a real content divergence, not the key-order bug")
            (base_layer_file ∷ formats.decimal ours ∷ donor.path ∷ formats.decimal theirs ∷ []))
      else elim (first_difference 0 donor.base.docs pf.base.docs) [
        | none ↦ none
        | some i ↦ some (
            errorf
              (codes
                "%s document %d differs semantically from donor %s -- refusing to overwrite: this is a real content divergence, not the key-order bug")
              (base_layer_file ∷ formats.decimal i ∷ donor.path ∷ []))
      ]

  -- The replacement of the one occurrence, and a refusal of any other number.
  unfoldable pub replace_only : Text → Text → Text → Text → Text → Result Text
  unfolding count replace_first
  replace_only message config_name raw old new =
      let n = count raw old in
      if not (n == 1)
      then err (errorf message (config_name ∷ formats.decimal n ∷ old ∷ []))
      else ok (replace_first raw old new)

  -- The entry of the layer in RootFS.DiffIDs.
  abbrev pub patch_diff_id : Platform Rest Doc → Platform Rest Doc → Text → Result Text
  patch_diff_id pf donor raw =
      replace_only diff_id_message pf.config_name raw (quoted pf.base.diff_id)
        (quoted donor.base.diff_id)

  -- The key of the layer in Labels.
  abbrev pub patch_label : Platform Rest Doc → Platform Rest Doc → Text → Result Text
  patch_label pf donor raw =
      replace_only label_message pf.config_name raw (label_key pf.base.digest)
        (label_key donor.base.digest)

  unfoldable pub patched_config : Platform Rest Doc → Platform Rest Doc → Result Text
  unfolding replace_only
  patched_config pf donor = patch_diff_id pf donor pf.config_raw >>= patch_label pf donor

  -- newManifest
  unfoldable pub patched_manifest : Platform Rest Doc → Platform Rest Doc → Text → DockerManifest
  patched_manifest pf donor config_name = record pf.manifest {
    config = config_name;
    layers =
        map (λ name. if name == pf.base.name then donor.base.name else name) pf.manifest.layers;
  }

  -- The switch on the name of an entry: the body to write, and a new name, if it gets one.
  unfoldable pub replaced :
      Platform Rest Doc → Platform Rest Doc → Text → Text → Entry Rest → Text × Option Text
  replaced pf donor config_raw manifest_raw e =
      let name = e.header.name in
      if name == codes "manifest.json"
      then (manifest_raw, none)
      else if name == pf.config_name
      then (config_raw, some (sha256 formats config_raw))
      else if name == pf.base.name
      then (donor.base.raw, some donor.base.name)
      else (e.body, none)

-- `out` of writeEntry
unfoldable pub header_for : {Rest : Type 0} → TarHeader Rest → Text × Option Text → TarHeader Rest
header_for h (body, none) = record h { size = length body }
header_for h (body, some name) = record h { name = name; size = length body }

abbrev pub first_error : Option Error → Option Error → Option Error → Option Error
first_error (some e) close_error sync_error = some e
first_error none (some e) sync_error = some e
first_error none none sync_error = sync_error

abbrev pub temporary : Text → Text
temporary path = path ++ codes ".normalize-tmp"

module _ {Rest Doc W : Type 0} (formats : Formats Rest Doc) (files : Files W Rest) where
  unfoldable pub write_entry :
      files.Writer → TarHeader Rest → Text × Option Text → W → Option Error × W
  unfolding header_for
  write_entry t h content w =
      let out = header_for h content in
      let (header_error, w₁) = files.write_header w t out in
      elim header_error [
        | some e ↦ (some (wrapf e (codes "writing header for %s: %w") (out.name ∷ [])), w₁)
        | none ↦
            let (body_error, w₂) = files.write_body w₁ t content.0 in
            elim body_error [
              | some e ↦ (some (wrapf e (codes "writing body for %s: %w") (out.name ∷ [])), w₂)
              | none ↦ (none, w₂)
            ]
      ]

  unfoldable pub write_entries :
      files.Writer → (Entry Rest → Text × Option Text) → List (Entry Rest) → W → Option Error × W
  unfolding write_entry
  write_entries t content [] w = (none, w)
  write_entries t content (e ∷ es) w =
      let (written, w') = write_entry t e.header (content e) w in
      elim written [ some x ↦ (some x, w') | none ↦ write_entries t content es w' ]

  -- Behind the creation of the temporary file.
  unfoldable pub fill_and_rename :
      files.Writer
      → Text
      → (Entry Rest → Text × Option Text)
      → List (Entry Rest)
      → W
      → Option Error × W
  unfolding write_entries
  fill_and_rename t path content entries w =
      let (write_error, w₁) = write_entries t content entries w in
      let (close_error, w₂) = files.close_tar w₁ t in
      let (sync_error, w₃) = files.close_file w₂ t in
      elim (first_error write_error close_error sync_error) [
        | some e ↦ (some e, (files.remove w₃ (temporary path)).1)
        | none ↦ files.rename w₃ (temporary path) path
      ]

  unfoldable pub rewrite_file :
      Text → (Entry Rest → Text × Option Text) → List (Entry Rest) → W → Option Error × W
  unfolding fill_and_rename
  rewrite_file path content entries w =
      let (created, w') = files.create w (temporary path) in
      elim created [ err e ↦ (some e, w') | ok t ↦ fill_and_rename t path content entries w' ]

  -- The new configuration and the new manifest.json, or what refuses them.
  unfoldable pub patches : Platform Rest Doc → Platform Rest Doc → Result (Text × Text)
  unfolding patched_config patched_manifest
  patches pf donor = patched_config formats pf donor >>= λ config_raw.
      in_context (codes "marshaling manifest.json: %w") []
        (formats.marshal (patched_manifest formats pf donor (sha256 formats config_raw) ∷ []))
      >>= λ manifest_raw. ok (config_raw, manifest_raw)

  unfoldable pub rewrite_with_donor_base :
      Platform Rest Doc → Platform Rest Doc → W → Option Error × W
  unfolding patches replaced rewrite_file
  rewrite_with_donor_base pf donor w = elim (patches pf donor) [
    | err e ↦ (some e, w)
    | ok (config_raw, manifest_raw) ↦
        rewrite_file pf.path (replaced formats pf donor config_raw manifest_raw) pf.entries w
  ]
