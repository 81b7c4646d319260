-- ===== src/Xpkg/Archives.antt =====
-- What is documented of archive/tar and of the file system.
use provider_k3s.Base.{none, List, [], ◌∷◌, ◌++◌, Text, length, ◌≡◌, ◌≢◌, ◌⊎◌, ok}
use provider_k3s.Xpkg.Files.{TarHeader, Files}

-- The members of the archives in the file system, and what is documented of the operations: a
-- member is appended behind a header with the size of its body, closing keeps what was written, a renaming
-- that fails changes nothing, and no operation touches another path.
pub record Archives {W Rest : Type 0} (files : Files W Rest) : Type 0 where
  pub members : W → Text → List (TarHeader Rest × Text)
  pub path_of : files.Writer → Text
  pub create-empty :
      (w : W) (p : Text) (t : files.Writer)
      → (files.create w p).0 ≡ ok t
      → (path_of t ≡ p) × (members (files.create w p).1 p ≡ [])
  pub create-elsewhere : (w : W) (p q : Text) → q ≢ p → members (files.create w p).1 q ≡ members w q
  pub write_header-elsewhere :
      (w : W) (t : files.Writer) (h : TarHeader Rest) (q : Text)
      → q ≢ path_of t
      → members (files.write_header w t h).1 q ≡ members w q
  pub write_body-elsewhere :
      (w : W) (t : files.Writer) (b q : Text)
      → q ≢ path_of t
      → members (files.write_body w t b).1 q ≡ members w q
  pub written :
      (w : W) (t : files.Writer) (h : TarHeader Rest) (b : Text)
      → (files.write_header w t h).0 ≡ none
      → (files.write_body (files.write_header w t h).1 t b).0 ≡ none
      → h.size ≡ length b
      → members (files.write_body (files.write_header w t h).1 t b).1 (path_of t)
        ≡ members w (path_of t) ++ ((h, b) ∷ [])
  pub close_tar-elsewhere :
      (w : W) (t : files.Writer) (q : Text)
      → q ≢ path_of t
      → members (files.close_tar w t).1 q ≡ members w q
  pub close_file-elsewhere :
      (w : W) (t : files.Writer) (q : Text)
      → q ≢ path_of t
      → members (files.close_file w t).1 q ≡ members w q
  pub close_tar-kept :
      (w : W) (t : files.Writer)
      → (files.close_tar w t).0 ≡ none
      → members (files.close_tar w t).1 (path_of t) ≡ members w (path_of t)
  pub close_file-kept :
      (w : W) (t : files.Writer)
      → (files.close_file w t).0 ≡ none
      → members (files.close_file w t).1 (path_of t) ≡ members w (path_of t)
  pub remove-elsewhere : (w : W) (p q : Text) → q ≢ p → members (files.remove w p).1 q ≡ members w q
  pub rename-moved :
      (w : W) (a b : Text)
      → (files.rename w a b).0 ≡ none
      → members (files.rename w a b).1 b ≡ members w a
  pub rename-elsewhere :
      (w : W) (a b q : Text)
      → q ≢ a
      → ((files.rename w a b).0 ≢ none) ⊎ (q ≢ b)
      → members (files.rename w a b).1 q ≡ members w q
