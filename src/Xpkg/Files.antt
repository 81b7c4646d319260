-- ===== src/Xpkg/Files.antt =====
-- What the program takes from archive/tar, compress/gzip, crypto/sha256, encoding/json, yaml.v3 and os.
use provider_k3s.Base.{ℕ, Bool, Option, List, Text, Error, Result}

-- tar.Header. `Rest` has the mode, the owner, the times and what else a header has.
pub record TarHeader (Rest : Type 0) : Type 0 where
  pub name : Text
  pub size : ℕ
  pub type_flag : ℕ
  pub rest : Rest

-- What tar.Reader gives, to the end: a member with the result of reading its body, the end of the archive,
-- or an error of Next.
pub data TarStream (Rest : Type 0) : Type 0 where
  member : TarHeader Rest → Result Text → TarStream Rest → TarStream Rest
  archive_end : TarStream Rest
  broken : Error → TarStream Rest

-- What yaml.Decoder gives, to the end.
pub data YamlStream (Doc : Type 0) : Type 0 where
  document : Doc → YamlStream Doc → YamlStream Doc
  stream_end : YamlStream Doc
  malformed : Error → YamlStream Doc

-- `dockerManifest`
pub record DockerManifest : Type 0 where
  pub config : Text
  pub repo_tags : List Text
  pub layers : List Text

-- The functions that read bytes. `doc_equal` is reflect.DeepEqual on two documents, `decimal` the verb %d.
pub record Formats (Rest Doc : Type 0) : Type 0 where
  pub tar_stream : Text → TarStream Rest
  pub gunzip : Text → Result Text
  pub sha256_hex : Text → Text
  pub unmarshal : Text → Result (List DockerManifest)
  pub marshal : List DockerManifest → Result Text
  pub yaml_stream : Text → YamlStream Doc
  pub doc_equal : Doc → Doc → Bool
  pub decimal : ℕ → Text

-- The file system. `open_file` gives what a tar.Reader reads from the file, and `create` a tar.Writer into it;
-- `close_tar` closes the writer and `close_file` the file under it.
pub record Files (W Rest : Type 0) : Type 1 where
  pub Writer : Type 0
  pub open_file : W → Text → Result (TarStream Rest)
  pub create : W → Text → Result Writer × W
  pub write_header : W → Writer → TarHeader Rest → Option Error × W
  pub write_body : W → Writer → Text → Option Error × W
  pub close_tar : W → Writer → Option Error × W
  pub close_file : W → Writer → Option Error × W
  pub remove : W → Text → Option Error × W
  pub rename : W → Text → Text → Option Error × W
