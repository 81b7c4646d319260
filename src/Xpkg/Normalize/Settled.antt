-- ===== src/Xpkg/Normalize/Settled.antt =====
-- What a run that succeeds leaves of every package.
use provider_k3s.Base.{List, [], ◌∷◌, All, map, Text, ◌≡◌, ◌≢◌, ok, text_eq}
use provider_k3s.Xpkg.Files.{Formats, Files}
use provider_k3s.Xpkg.Archives.{Archives}
use provider_k3s.Xpkg.Package.{Platform}
use provider_k3s.Xpkg.Rewrite.{temporary, patches, replaced}
use provider_k3s.Xpkg.Rewrite.Stored.{stored}

module _ {Rest Doc : Type 0} where
  -- The path is none that a rewriting of the platform uses.
  abbrev pub Outside : Text → Platform Rest Doc → Type 0
  Outside q pf = (q ≢ pf.path) × (q ≢ temporary pf.path)

  -- No platform uses a path of another.
  abbrev pub Apart : List (Platform Rest Doc) → Type 0
  Apart [] = Unit
  Apart (pf ∷ pfs) = All (λ other. Outside pf.path other × Outside other.path pf) pfs × Apart pfs

module _ {W Rest Doc : Type 0} (formats : Formats Rest Doc) (files : Files W Rest)
    (archives : Archives files) where
  -- A package with the donor's base layer is as it was, any other was rewritten with it.
  unfoldable pub Settled : Platform Rest Doc → W → W → Platform Rest Doc → Type 0
  Settled donor before after pf =
      (pf.base.diff_id ≡ donor.base.diff_id
        → archives.members after pf.path ≡ archives.members before pf.path)
      × (pf.base.diff_id ≢ donor.base.diff_id
          → (texts : Text × Text) × (patches formats files pf donor ≡ ok texts)
            × (archives.members after pf.path
                ≡ map (stored formats files archives (replaced formats pf donor texts.0 texts.1))
                    pf.entries))
