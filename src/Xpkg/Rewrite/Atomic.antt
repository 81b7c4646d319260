-- ===== src/Xpkg/Rewrite/Atomic.antt =====
-- A rewriting replaces the file whole, or leaves it.
use provider_k3s.Base.{
  some≢none, Option, none, List, map, Text, ◌≡◌, ◌≢◌, refl, ◌∙◌, ◌⊎◌, inl, inr, ok, Result-cases,
}
use provider_k3s.Xpkg.Files.{Formats, Files}
use provider_k3s.Xpkg.Archives.{Archives}
use provider_k3s.Xpkg.Package.{Entry, Platform}
use provider_k3s.Xpkg.Rewrite.{temporary, rewrite_file, patches, replaced, rewrite_with_donor_base}
use provider_k3s.Xpkg.Rewrite.Stored.{stored, fill-elsewhere, fill-written}

module _ {W Rest Doc : Type 0} (formats : Formats Rest Doc) (files : Files W Rest)
    (archives : Archives files) where
  rewrite_file-elsewhere :
      (path : Text) (content : Entry Rest → Text × Option Text) (es : List (Entry Rest)) (w : W)
      (q : Text)
      → q ≢ temporary path
      → ((rewrite_file formats files path content es w).0 ≢ none) ⊎ (q ≢ path)
      → archives.members (rewrite_file formats files path content es w).1 q ≡ archives.members w q
  unfolding rewrite_file
  rewrite_file-elsewhere path content es w q apart =
      let made = archives.create-elsewhere w (temporary path) q apart in
      elim (Result-cases (files.create w (temporary path)).0) [
        | inr (e, h) ↦ rw (h, rewrite_file) (λ c. made)
        | inl (t, h) ↦
            rw (h, rewrite_file)
              (λ c.
                fill-elsewhere formats files archives t path content es _ q
                  (archives.create-empty w (temporary path) t h).0 apart c
                ∙ made)
      ]

  rewrite_file-written :
      (path : Text) (content : Entry Rest → Text × Option Text) (es : List (Entry Rest)) (w : W)
      → (rewrite_file formats files path content es w).0 ≡ none
      → archives.members (rewrite_file formats files path content es w).1 path
        ≡ map (stored formats files archives content) es
  unfolding rewrite_file
  rewrite_file-written path content es w = elim (Result-cases (files.create w (temporary path)).0) [
    | inr (e, h) ↦ rw (h, rewrite_file) (λ k. absurd (some≢none k))
    | inl (t, h) ↦
        rw (h, rewrite_file)
          (let (at_temporary, empty) = archives.create-empty w (temporary path) t h in
            fill-written formats files archives t path content es _ at_temporary empty)
  ]

  -- For archives with the documented laws, a rewriting touches no path but the package's and that of its
  -- temporary file, and one that fails leaves the package as it was.
  pub rewrite_atomic :
      (pf donor : Platform Rest Doc) (w : W) (q : Text)
      → q ≢ temporary pf.path
      → ((rewrite_with_donor_base formats files pf donor w).0 ≢ none) ⊎ (q ≢ pf.path)
      → archives.members (rewrite_with_donor_base formats files pf donor w).1 q
        ≡ archives.members w q
  unfolding rewrite_with_donor_base
  rewrite_atomic pf donor w q apart = elim (Result-cases (patches formats files pf donor)) [
    | inr (e, h) ↦ rw (h, rewrite_with_donor_base) (λ c. refl)
    | inl (texts, h) ↦
        rw (h, rewrite_with_donor_base)
          (rewrite_file-elsewhere pf.path (replaced formats pf donor texts.0 texts.1) pf.entries w q
            apart)
  ]

  -- A rewriting that succeeds has made the two patches, and the package then holds its entries in order, each
  -- as it was but for the manifest, the configuration and the base layer.
  pub rewrite_stored :
      (pf donor : Platform Rest Doc) (w : W)
      → (rewrite_with_donor_base formats files pf donor w).0 ≡ none
      → (texts : Text × Text) × (patches formats files pf donor ≡ ok texts)
        × (archives.members (rewrite_with_donor_base formats files pf donor w).1 pf.path
            ≡ map
                (stored formats files archives (replaced formats pf donor texts.0 texts.1))
                pf.entries)
  unfolding rewrite_with_donor_base
  rewrite_stored pf donor w = elim (Result-cases (patches formats files pf donor)) [
    | inr (e, h) ↦ rw (h, rewrite_with_donor_base) (λ k. absurd (some≢none k))
    | inl (texts, h) ↦
        rw (h, rewrite_with_donor_base)
          (λ k. (
            texts,
            refl,
            rewrite_file-written pf.path (replaced formats pf donor texts.0 texts.1) pf.entries w k,
          ))
  ]
