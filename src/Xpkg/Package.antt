-- ===== src/Xpkg/Package.antt =====
-- The package of a platform: `loadPlatform`, `layerContents` and `decodeYAMLDocs`.
use provider_k3s.Base.{
  ℕ, Option, none, some, List, [], ◌∷◌, ◌++◌, Text, codes, ◌==◌, nat_eq, text_eq, not, length,
  Error, errorf, plain, wrapf, Result, ok, err, ◌>>=◌, if◌then◌else◌,
}
use provider_k3s.Xpkg.Files.{
  TarHeader, TarStream, member, archive_end, broken, YamlStream, document, stream_end, malformed,
  DockerManifest, Formats, Files,
}

abbrev pub base_layer_file : Text
base_layer_file = codes "package.yaml"

-- tar.TypeReg
abbrev type_reg : ℕ
type_reg = 0x30

pub record Entry (Rest : Type 0) : Type 0 where
  pub header : TarHeader Rest
  pub body : Text

-- The base layer of a platform, all of it empty until it is found.
pub record BaseLayer (Doc : Type 0) : Type 0 where
  pub name : Text
  pub raw : Text
  pub diff_id : Text
  pub digest : Text
  pub docs : List Doc

pub record Platform (Rest Doc : Type 0) : Type 0 where
  pub path : Text
  pub entries : List (Entry Rest)
  pub manifest : DockerManifest
  pub config_name : Text
  pub config_raw : Text
  pub base : BaseLayer Doc

abbrev no_base : {Doc : Type 0} → BaseLayer Doc
no_base = record { name = []; raw = []; diff_id = []; digest = []; docs = [] }

-- fmt.Errorf whose verb %w takes the error of a call
abbrev pub in_context {ℓ} : {A : Type ℓ} → Text → List Text → Result A → Result A
in_context format args (ok a) = ok a
in_context format args (err e) = err (wrapf e format args)

abbrev pub found {ℓ} : {A : Type ℓ} → Error → Option A → Result A
found e none = err e
found e (some a) = ok a

module _ {Rest : Type 0} where
  -- The loop over the archive: its entries, in order.
  unfoldable pub read_entries : TarStream Rest → Result (List (Entry Rest))
  read_entries archive_end = ok []
  read_entries (broken e) = err (wrapf e (codes "reading tar: %w") [])
  read_entries (member h body more) =
      let rest = read_entries more in
      in_context (codes "reading %s: %w") (h.name ∷ []) body >>= λ b.
      rest >>= λ es. ok (record { header = h; body = b } ∷ es)

  -- byName: of several entries with one name, the last.
  unfoldable pub entry_named : List (Entry Rest) → Text → Option (Entry Rest)
  entry_named [] name = none
  entry_named (e ∷ es) name = elim (entry_named es name) [
    | some later ↦ some later
    | none ↦ if e.header.name == name then some e else none
  ]

  -- The loop over the archive of a layer. A member that is not a regular file gets a slash.
  unfoldable pub layer_files : TarStream Rest → Result (List (Text × Text))
  layer_files archive_end = ok []
  layer_files (broken e) = err (wrapf e (codes "reading layer tar: %w") [])
  layer_files (member h body more) =
      let rest = layer_files more in
      (if not (h.type_flag == type_reg)
        then ok (h.name ++ codes "/", [])
        else in_context (codes "reading %s from layer tar: %w") (h.name ∷ []) body >>= λ b.
            ok (h.name, b))
      >>= λ file. rest >>= λ files. ok (file ∷ files)

unfoldable pub decode_yaml_docs : {Doc : Type 0} → YamlStream Doc → Result (List Doc)
decode_yaml_docs stream_end = ok []
decode_yaml_docs (malformed e) = err e
decode_yaml_docs (document d more) = let rest = decode_yaml_docs more in rest >>= λ ds. ok (d ∷ ds)

module _ {Rest Doc : Type 0} (formats : Formats Rest Doc) where
  abbrev pub sha256 : Text → Text
  sha256 bytes = codes "sha256:" ++ formats.sha256_hex bytes

  -- The files of a layer, and its uncompressed content.
  unfoldable pub layer_contents : Text → Result (List (Text × Text) × Text)
  unfolding layer_files
  layer_contents compressed =
      in_context (codes "gunzip: %w") [] (formats.gunzip compressed) >>= λ uncompressed.
      layer_files (formats.tar_stream uncompressed) >>= λ files. ok (files, uncompressed)

  -- What a layer with the single file package.yaml sets.
  unfoldable pub base_of : Text → Text → Text → Text → Result (BaseLayer Doc)
  unfolding decode_yaml_docs
  base_of layer_name layer_body uncompressed content =
      in_context (codes "decoding %s: %w") (base_layer_file ∷ [])
        (decode_yaml_docs (formats.yaml_stream content))
      >>= λ docs. ok (record {
        name = layer_name;
        raw = layer_body;
        diff_id = sha256 uncompressed;
        digest = sha256 layer_body;
        docs = docs;
      })

  unfoldable pub judge_layer :
      Text → Text → BaseLayer Doc → List (Text × Text) × Text → Result (BaseLayer Doc)
  unfolding base_of
  judge_layer layer_name layer_body base ([], uncompressed) = ok base
  judge_layer layer_name layer_body base (((name, content) ∷ []), uncompressed) =
      if name == base_layer_file
      then base_of layer_name layer_body uncompressed content
      else ok base
  judge_layer layer_name layer_body base ((_ ∷ _ ∷ _), uncompressed) = ok base

  -- One round of the loop over the layers.
  unfoldable pub identify_layer : List (Entry Rest) → BaseLayer Doc → Text → Result (BaseLayer Doc)
  unfolding judge_layer layer_contents
  identify_layer entries base layer_name =
      found (errorf (codes "manifest.json layer %q has no matching file in tar") (layer_name ∷ []))
        (entry_named entries layer_name)
      >>= λ layer.
          in_context (codes "layer %s: %w") (layer_name ∷ []) (layer_contents layer.body)
          >>= judge_layer layer_name layer.body base

  unfoldable pub identify_base :
      List (Entry Rest) → List Text → BaseLayer Doc → Result (BaseLayer Doc)
  unfolding identify_layer
  identify_base entries [] base = ok base
  identify_base entries (layer_name ∷ layers) base =
      identify_layer entries base layer_name >>= identify_base entries layers

  abbrev single_manifest : List DockerManifest → Result DockerManifest
  single_manifest (m ∷ []) = ok m
  single_manifest ms = err (
      errorf (codes "manifest.json has %d image entries, want exactly 1")
        (formats.decimal (length ms) ∷ []))

  abbrev present : BaseLayer Doc → Result (BaseLayer Doc)
  present base =
      if base.name == []
      then err (
          errorf (codes "no layer whose sole content is %s -- cannot identify the xpkg base layer")
            (base_layer_file ∷ []))
      else ok base

  -- loadPlatform, behind the loop over the archive
  unfoldable pub platform_of : Text → List (Entry Rest) → Result (Platform Rest Doc)
  unfolding identify_base
  platform_of path entries =
      found (plain (codes "no manifest.json in tar")) (entry_named entries (codes "manifest.json"))
      >>= λ stored.
          in_context (codes "parsing manifest.json: %w") [] (formats.unmarshal stored.body)
          >>= single_manifest
          >>= λ m.
              found
                (errorf (codes "manifest.json Config %q has no matching file in tar")
                  (m.config ∷ []))
                (entry_named entries m.config)
              >>= λ config. identify_base entries m.layers no_base >>= present >>= λ base.
                  ok (record {
                    path = path;
                    entries = entries;
                    manifest = m;
                    config_name = m.config;
                    config_raw = config.body;
                    base = base;
                  })

  module _ {W : Type 0} (files : Files W Rest) where
    unfoldable pub load_platform : W → Text → Result (Platform Rest Doc)
    unfolding platform_of read_entries
    load_platform w path = files.open_file w path >>= read_entries >>= platform_of path
