-- ===== src/Xpkg/Rewrite/Stored.antt =====
-- What the temporary file holds behind each step, and what no step touches.
use provider_k3s.Base.{
  some≢none, Option, none, some, List, [], ◌∷◌, ◌++◌, map, append_assoc, append-nil, Text, length,
  ◌≡◌, ◌≢◌, refl, ap, sym, ◌∙◌, ◌⊎◌, inl, inr, Error, Option-cases,
}
use provider_k3s.Xpkg.Files.{TarHeader, Formats, Files}
use provider_k3s.Xpkg.Archives.{Archives}
use provider_k3s.Xpkg.Package.{Entry}
use provider_k3s.Xpkg.Rewrite.{
  header_for, write_entry, write_entries, first_error, temporary, fill_and_rename,
}

first_error-none :
    (a b c : Option Error) → first_error a b c ≡ none → (a ≡ none) × (b ≡ none) × (c ≡ none)
first_error-none (some e) b c h = cc
first_error-none none (some e) c h = cc
first_error-none none none c h = (refl, refl, h)

pub temporary-elsewhere : (s : Text) → temporary s ≢ s
temporary-elsewhere [] h = cc
temporary-elsewhere (c ∷ s) h = temporary-elsewhere s cc

header_for-size :
    {Rest : Type 0} (h : TarHeader Rest) (content : Text × Option Text)
    → (header_for h content).size ≡ length content.0
unfolding header_for
header_for-size h (body, none) = refl
header_for-size h (body, some name) = refl

module _ {W Rest Doc : Type 0} (formats : Formats Rest Doc) (files : Files W Rest)
    (archives : Archives files) where
  -- The member that an entry becomes.
  abbrev pub stored : (Entry Rest → Text × Option Text) → Entry Rest → TarHeader Rest × Text
  stored content e = (header_for e.header (content e), (content e).0)

  write_entry-elsewhere :
      (t : files.Writer) (h : TarHeader Rest) (content : Text × Option Text) (w : W) (q : Text)
      → q ≢ archives.path_of t
      → archives.members (write_entry formats files t h content w).1 q ≡ archives.members w q
  unfolding write_entry
  write_entry-elsewhere t h content w q apart =
      let out = header_for h content in
      let w₁ = (files.write_header w t out).1 in
      elim (Option-cases (files.write_header w t out).0) [
        | inr (e, x) ↦ rw (x, write_entry) (archives.write_header-elsewhere w t out q apart)
        | inl x ↦ elim (Option-cases (files.write_body w₁ t content.0).0) [
          | inr (e, y) ↦
              rw (x, y, write_entry)
                (archives.write_body-elsewhere w₁ t content.0 q apart
                  ∙ archives.write_header-elsewhere w t out q apart)
          | inl y ↦
              rw (x, y, write_entry)
                (archives.write_body-elsewhere w₁ t content.0 q apart
                  ∙ archives.write_header-elsewhere w t out q apart)
        ]
      ]

  write_entry-written :
      (t : files.Writer) (h : TarHeader Rest) (content : Text × Option Text) (w : W)
      → (write_entry formats files t h content w).0 ≡ none
      → archives.members (write_entry formats files t h content w).1 (archives.path_of t)
        ≡ archives.members w (archives.path_of t) ++ ((header_for h content, content.0) ∷ [])
  unfolding write_entry
  write_entry-written t h content w =
      let out = header_for h content in
      let w₁ = (files.write_header w t out).1 in
      elim (Option-cases (files.write_header w t out).0) [
        | inr (e, x) ↦ rw (x, write_entry) (λ k. absurd (some≢none k))
        | inl x ↦ elim (Option-cases (files.write_body w₁ t content.0).0) [
          | inr (e, y) ↦ rw (x, y, write_entry) (λ k. absurd (some≢none k))
          | inl y ↦
              rw (x, y, write_entry)
                (λ k. archives.written w t out content.0 x y (header_for-size h content))
        ]
      ]

  write_entries-elsewhere :
      (t : files.Writer) (content : Entry Rest → Text × Option Text) (es : List (Entry Rest))
      (w : W) (q : Text)
      → q ≢ archives.path_of t
      → archives.members (write_entries formats files t content es w).1 q ≡ archives.members w q
  unfolding write_entries
  write_entries-elsewhere t content [] w q apart = refl
  write_entries-elsewhere t content (e ∷ es) w q apart =
      let one = write_entry-elsewhere t e.header (content e) w q apart in
      elim (Option-cases (write_entry formats files t e.header (content e) w).0) [
        | inr (x, h) ↦ rw (h, write_entries) one
        | inl h ↦ rw (h, write_entries) (write_entries-elsewhere t content es _ q apart ∙ one)
      ]

  write_entries-written :
      (t : files.Writer) (content : Entry Rest → Text × Option Text) (es : List (Entry Rest))
      (w : W)
      → (write_entries formats files t content es w).0 ≡ none
      → archives.members (write_entries formats files t content es w).1 (archives.path_of t)
        ≡ archives.members w (archives.path_of t) ++ map (stored content) es
  unfolding write_entries
  write_entries-written t content [] w = λ h. sym (append-nil _)
  write_entries-written t content (e ∷ es) w =
      let one = write_entry-written t e.header (content e) w in
      elim (Option-cases (write_entry formats files t e.header (content e) w).0) [
        | inr (x, h) ↦ rw (h, write_entries) (λ k. absurd (some≢none k))
        | inl h ↦
            rw (h, write_entries)
              (λ k.
                write_entries-written t content es _ k
                ∙ ap (λ ms. ms ++ map (stored content) es) (one h)
                ∙ append_assoc (archives.members w (archives.path_of t)) (stored content e ∷ [])
                    (map (stored content) es))
      ]

  -- The writers are closed.
  abbrev closed : files.Writer → (Entry Rest → Text × Option Text) → List (Entry Rest) → W → W
  closed t content es w =
      (files.close_file (files.close_tar (write_entries formats files t content es w).1 t).1 t).1

  closed-elsewhere :
      (t : files.Writer) (content : Entry Rest → Text × Option Text) (es : List (Entry Rest))
      (w : W) (q : Text)
      → q ≢ archives.path_of t
      → archives.members (closed t content es w) q ≡ archives.members w q
  closed-elsewhere t content es w q apart =
      archives.close_file-elsewhere _ t q apart
      ∙ archives.close_tar-elsewhere _ t q apart
      ∙ write_entries-elsewhere t content es w q apart

  abbrev failure :
      files.Writer → (Entry Rest → Text × Option Text) → List (Entry Rest) → W → Option Error
  failure t content es w =
      let (x, w₁) = write_entries formats files t content es w in
      let (y, w₂) = files.close_tar w₁ t in first_error x y (files.close_file w₂ t).0

  closed-written :
      (t : files.Writer) (content : Entry Rest → Text × Option Text) (es : List (Entry Rest))
      (w : W)
      → failure t content es w ≡ none
      → archives.members (closed t content es w) (archives.path_of t)
        ≡ archives.members w (archives.path_of t) ++ map (stored content) es
  closed-written t content es w h =
      let (x, y, z) = first_error-none (write_entries formats files t content es w).0 _ _ h in
      archives.close_file-kept _ t z
      ∙ archives.close_tar-kept _ t y
      ∙ write_entries-written t content es w x

  pub fill-elsewhere :
      (t : files.Writer) (path : Text) (content : Entry Rest → Text × Option Text)
      (es : List (Entry Rest)) (w : W) (q : Text)
      → archives.path_of t ≡ temporary path
      → q ≢ temporary path
      → ((fill_and_rename formats files t path content es w).0 ≢ none) ⊎ (q ≢ path)
      → archives.members (fill_and_rename formats files t path content es w).1 q
        ≡ archives.members w q
  unfolding fill_and_rename
  fill-elsewhere t path content es w q at_temporary apart =
      let kept = closed-elsewhere t content es w q (λ e. apart (e ∙ at_temporary)) in
      elim (Option-cases (failure t content es w)) [
        | inr (e, h) ↦
            rw (h, fill_and_rename)
              (λ c. archives.remove-elsewhere _ (temporary path) q apart ∙ kept)
        | inl h ↦
            rw (h, fill_and_rename)
              (λ c. archives.rename-elsewhere _ (temporary path) path q apart c ∙ kept)
      ]

  pub fill-written :
      (t : files.Writer) (path : Text) (content : Entry Rest → Text × Option Text)
      (es : List (Entry Rest)) (w : W)
      → archives.path_of t ≡ temporary path
      → archives.members w (temporary path) ≡ []
      → (fill_and_rename formats files t path content es w).0 ≡ none
      → archives.members (fill_and_rename formats files t path content es w).1 path
        ≡ map (stored content) es
  unfolding fill_and_rename
  fill-written t path content es w at_temporary empty =
      elim (Option-cases (failure t content es w)) [
        | inr (e, h) ↦ rw (h, fill_and_rename) (λ k. absurd (some≢none k))
        | inl h ↦
            rw (h, fill_and_rename)
              (λ k.
                archives.rename-moved _ (temporary path) path k
                ∙ ap (archives.members (closed t content es w)) (sym at_temporary)
                ∙ closed-written t content es w h
                ∙ ap (λ p. archives.members w p ++ map (stored content) es) at_temporary
                ∙ ap (λ ms. ms ++ map (stored content) es) empty)
      ]
