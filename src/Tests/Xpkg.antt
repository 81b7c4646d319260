-- ===== src/Tests/Xpkg.antt =====
-- Two packages whose base layers differ in bytes but not in content, on a small disk.
use provider_k3s.Base.{
  ℕ, false, false≢true, none, List, [], ◌∷◌, ◌++◌, map, Text, codes, length, sym, ◌∙◌, ◌==◌, nat_eq,
  text_eq, text_beq, text_beq_iff, text_beq_refl, text_beq_ne, ◌≡◌, ◌≢◌, refl, inl, inr, ◌⊎◌, plain,
  Result, ok, err, ok_injective, if◌then◌else◌,
}
use provider_k3s.Xpkg.Files.{
  TarHeader, TarStream, member, archive_end, document, stream_end, DockerManifest, Formats, Files,
}
use provider_k3s.Xpkg.Archives.{Archives}
use provider_k3s.Xpkg.Package.{Entry, Platform}
use provider_k3s.Xpkg.Rewrite.{patched_config, rewrite_with_donor_base}
use provider_k3s.Xpkg.Rewrite.Atomic.{rewrite_atomic}
use provider_k3s.Xpkg.Normalize.{load_platforms, normalize}
use provider_k3s.Xpkg.Normalize.Settled.{Settled}

abbrev Header : Type 0
Header = TarHeader (Unit {0})

abbrev Archive : Type 0
Archive = List (Header × Text)

-- The archives by their paths, and the header that was written last.
record Disk : Type 0 where
  archives : Text → Archive
  pending : Header

abbrev header : Text → ℕ → Header
header name size = record { name = name; size = size; type_flag = 0x30; rest = tt }

abbrev put : (Text → Archive) → Text → Archive → Text → Archive
put f p v q = if q == p then v else f q

put-same : (f : Text → Archive) (p : Text) (v : Archive) → put f p v p ≡ v
put-same f p v = rw (text_beq_refl p) refl

put-other : (f : Text → Archive) (p : Text) (v : Archive) (q : Text) → q ≢ p → put f p v q ≡ f q
put-other f p v q h = rw (text_beq_ne q p h) refl

abbrev stream_of : Archive → TarStream (Unit {0})
stream_of [] = archive_end
stream_of ((h, b) ∷ ms) = member h (ok b) (stream_of ms)

abbrev demo_files : Files Disk (Unit {0})
demo_files = record {
  Writer = Text;
  open_file = λ w p. ok (stream_of (w.archives p));
  create = λ w p. (ok p, record w { archives = put w.archives p [] });
  write_header = λ w t h. (none, record w { pending = h });
  write_body = λ w t b.
      (none, record w { archives = put w.archives t (w.archives t ++ ((w.pending, b) ∷ [])) });
  close_tar = λ w t. (none, w);
  close_file = λ w t. (none, w);
  remove = λ w p. (none, record w { archives = put w.archives p [] });
  rename = λ w a b. (none, record w { archives = put (put w.archives a []) b (w.archives a) });
}

renamed_elsewhere :
    (w : Disk) (a b q : Text)
    → q ≢ a
    → ((demo_files.rename w a b).0 ≢ none) ⊎ (q ≢ b)
    → (demo_files.rename w a b).1.archives q ≡ w.archives q
renamed_elsewhere w a b q h (inl failed) = absurd (failed refl)
renamed_elsewhere w a b q h (inr other) = rw (text_beq_ne q b other, text_beq_ne q a h) refl

abbrev demo_archives : Archives demo_files
demo_archives = record {
  members = λ w p. w.archives p;
  path_of = λ t. t;
  create-empty = λ w p t h. (sym (ok_injective p t h), put-same w.archives p []);
  create-elsewhere = λ w p q h. put-other w.archives p [] q h;
  write_header-elsewhere = λ w t h q apart. refl;
  write_body-elsewhere = λ w t b q apart. put-other w.archives t _ q apart;
  written = λ w t h b x y size. put-same w.archives t _;
  close_tar-elsewhere = λ w t q apart. refl;
  close_file-elsewhere = λ w t q apart. refl;
  close_tar-kept = λ w t h. refl;
  close_file-kept = λ w t h. refl;
  remove-elsewhere = λ w p q h. put-other w.archives p [] q h;
  rename-moved = λ w a b h. put-same (put w.archives a []) b (w.archives a);
  rename-elsewhere = renamed_elsewhere;
}

-- A compressed text has a character before it, a layer is one file, and a document is known by its length.
abbrev gunzip : Text → Result Text
gunzip [] = err (plain (codes "unexpected EOF"))
gunzip (c ∷ s) = ok s

abbrev layer_of : Text → DockerManifest
layer_of body = record { config = codes "cfg"; repo_tags = []; layers = body ∷ [] }

abbrev demo_formats : Formats (Unit {0}) Text
demo_formats = record {
  tar_stream = λ s. member (header (codes "package.yaml") (length s)) (ok s) archive_end;
  gunzip = gunzip;
  sha256_hex = λ s. s;
  unmarshal = λ s. ok (layer_of s ∷ []);
  marshal = λ ms. ok (codes "manifest");
  yaml_stream = λ s. document s stream_end;
  doc_equal = λ a b. length a == length b;
  decimal = λ n. n ∷ [];
}

abbrev amd_config : Text
amd_config = codes "\"sha256:ab\",\"io.crossplane.xpkg:sha256:zab\""

abbrev arm_config : Text
arm_config = codes "\"sha256:ba\",\"io.crossplane.xpkg:sha256:zba\""

-- A package with the layer `layer` of the content `content`.
abbrev packed : Text → Text → Text → Archive
packed layer config content =
    (header (codes "manifest.json") 1, layer)
    ∷ (header (codes "cfg") 9, config)
    ∷ (header layer 3, codes "z" ++ content)
    ∷ []

abbrev entries_of : Archive → List (Entry (Unit {0}))
entries_of = map (λ m. record { header = m.0; body = m.1 })

abbrev demo_disk : Disk
demo_disk = record {
  archives = λ p.
      if p == codes "amd"
      then packed (codes "a") amd_config (codes "ab")
      else if p == codes "arm"
      then packed (codes "b") arm_config (codes "ba")
      else [];
  pending = header [] 0;
}

abbrev platform : Text → Text → Text → Text → Platform (Unit {0}) Text
platform path layer config content = record {
  path = path;
  entries = entries_of (packed layer config content);
  manifest = layer_of layer;
  config_name = codes "cfg";
  config_raw = config;
  base = record {
    name = layer;
    raw = codes "z" ++ content;
    diff_id = codes "sha256:" ++ content;
    digest = codes "sha256:z" ++ content;
    docs = content ∷ [];
  };
}

abbrev amd : Platform (Unit {0}) Text
amd = platform (codes "amd") (codes "a") amd_config (codes "ab")

abbrev arm : Platform (Unit {0}) Text
arm = platform (codes "arm") (codes "b") arm_config (codes "ba")

loaded :
    load_platforms demo_formats demo_files demo_disk (codes "arm" ∷ codes "amd" ∷ [])
    ≡ ok (arm ∷ amd ∷ [])
unfolding load_platforms text_beq provider_k3s.Xpkg.Package.entry_named
loaded = refl

patched : patched_config demo_formats arm amd ≡ ok amd_config
unfolding patched_config
patched = refl

normalized :
    (normalize demo_formats demo_files (codes "arm" ∷ codes "amd" ∷ []) demo_disk).1.archives
      (codes "arm")
    ≡ (header (codes "manifest.json") 8, codes "manifest")
      ∷ (header (codes "sha256:" ++ amd_config) 43, amd_config)
      ∷ (header (codes "a") 3, codes "zab")
      ∷ []
unfolding normalize text_beq provider_k3s.Xpkg.Package.entry_named
normalized = refl

differ : (s t : Text) → text_beq s t ≡ false → s ≢ t
differ s t h e = false≢true (sym h ∙ (text_beq_iff s t).1 e)

amd-temporary : codes "amd" ≢ codes "arm.normalize-tmp"
unfolding text_beq
amd-temporary = differ _ _ refl

amd-arm : codes "amd" ≢ codes "arm"
unfolding text_beq
amd-arm = differ _ _ refl

rewrite_atomic_example :
    (rewrite_with_donor_base demo_formats demo_files arm amd demo_disk).1.archives (codes "amd")
    ≡ packed (codes "a") amd_config (codes "ab")
unfolding text_beq
rewrite_atomic_example =
    rewrite_atomic demo_formats demo_files demo_archives arm amd demo_disk (codes "amd")
      amd-temporary (inr amd-arm)

loaded_twice :
    load_platforms demo_formats demo_files demo_disk (codes "amd" ∷ codes "amd" ∷ [])
    ≡ ok (amd ∷ amd ∷ [])
unfolding load_platforms text_beq provider_k3s.Xpkg.Package.entry_named
loaded_twice = refl
