-- ===== src/Xpkg/Normalize.antt =====
-- `main`: the packages of all platforms, and the donor that the others get their base layer from.
use provider_k3s.Base.{
  ℕ, Bool, true, false, Option, none, some, List, [], ◌∷◌, ◌&&◌, ◌||◌, Text, codes, ◌==◌, nat_eq,
  text_eq, ltb, Error, wrapf, Result, ok, err, ◌>>=◌, if◌then◌else◌,
}
use provider_k3s.Strings.{text_ltb}
use provider_k3s.Xpkg.Files.{Formats, Files}
use provider_k3s.Xpkg.Package.{Platform, in_context, load_platform}
use provider_k3s.Xpkg.Rewrite.{verify_semantic_equivalence, rewrite_with_donor_base}
pub mod Guards
pub mod Settled

module _ {Rest Doc : Type 0} where
  unfoldable pub insert_by_path :
      Platform Rest Doc → List (Platform Rest Doc) → List (Platform Rest Doc)
  unfolding text_ltb
  insert_by_path pf [] = pf ∷ []
  insert_by_path pf (q ∷ qs) =
      let behind = insert_by_path pf qs in
      if text_ltb q.path pf.path then q ∷ behind else pf ∷ q ∷ qs

  -- sort.Slice by path. Packages of one path were read from one file, so that their order does not matter.
  unfoldable pub sort_by_path : List (Platform Rest Doc) → List (Platform Rest Doc)
  unfolding insert_by_path
  sort_by_path [] = []
  sort_by_path (pf ∷ pfs) = insert_by_path pf (sort_by_path pfs)

  -- The loop that looks for a divergence.
  unfoldable pub diverged : Platform Rest Doc → List (Platform Rest Doc) → Bool
  diverged donor [] = false
  diverged donor (pf ∷ pfs) =
      let later = diverged donor pfs in
      if pf.base.diff_id == donor.base.diff_id then later else true

module _ {Rest Doc W : Type 0} (formats : Formats Rest Doc) (files : Files W Rest) where
  unfoldable pub load_platforms : W → List Text → Result (List (Platform Rest Doc))
  unfolding load_platform
  load_platforms w [] = ok []
  load_platforms w (path ∷ paths) =
      let rest = load_platforms w paths in
      in_context (codes "%s: %w") (path ∷ []) (load_platform formats files w path) >>= λ pf.
      rest >>= λ pfs. ok (pf ∷ pfs)

  abbrev pub at_path : Platform Rest Doc → Option Error × W → Option Error × W
  at_path pf (none, w) = (none, w)
  at_path pf (some e, w) = (some (wrapf e (codes "%s: %w") (pf.path ∷ [])), w)

  -- One round of the loop over the others.
  unfoldable pub converge : Platform Rest Doc → Platform Rest Doc → W → Option Error × W
  unfolding verify_semantic_equivalence rewrite_with_donor_base
  converge donor pf w =
      if pf.base.diff_id == donor.base.diff_id
      then (none, w)
      else at_path pf (elim (verify_semantic_equivalence formats donor pf) [
        | some e ↦ (some e, w)
        | none ↦ rewrite_with_donor_base formats files pf donor w
      ])

  -- A fatal error ends the program.
  unfoldable pub converge_all : Platform Rest Doc → List (Platform Rest Doc) → W → Option Error × W
  unfolding converge
  converge_all donor [] w = (none, w)
  converge_all donor (pf ∷ pfs) w =
      let (done, w') = converge donor pf w in
      elim done [ some e ↦ (some e, w') | none ↦ converge_all donor pfs w' ]

  unfoldable pub normalize_sorted : List (Platform Rest Doc) → W → Option Error × W
  unfolding diverged converge_all
  normalize_sorted [] w = (none, w)
  normalize_sorted (donor ∷ others) w =
      if diverged donor others then converge_all donor others w else (none, w)

  -- What is printed on standard output is left out.
  unfoldable pub normalize : List Text → W → Option Error × W
  unfolding load_platforms sort_by_path normalize_sorted
  normalize [] w = (none, w)
  normalize (path ∷ []) w = (none, w)
  normalize (path ∷ other ∷ paths) w = elim (load_platforms w (path ∷ other ∷ paths)) [
    | err e ↦ (some e, w)
    | ok pfs ↦ normalize_sorted (sort_by_path pfs) w
  ]
