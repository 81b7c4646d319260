-- ===== src/Xpkg/Normalize/Guards.antt =====
-- When a run of the program writes, and when it does not.
use provider_k3s.Base.{
  some≢none, ℕ, suc, true, false, false≢true, none, List, [], ◌∷◌, All, Text, length, ◌≡◌, ◌≢◌, ◌↔◌,
  refl, sym, ap, ◌∙◌, inl, inr, ok, Option-cases, Bool-cases, ◌==◌, nat_eq, nat_beq_iff, text_eq,
  text_beq_iff, arith,
}
use provider_k3s.Xpkg.Files.{Formats, Files}
use provider_k3s.Xpkg.Package.{Platform}
use provider_k3s.Xpkg.Rewrite.{quoted, label_key, first_difference, verify_semantic_equivalence}
use provider_k3s.Xpkg.Rewrite.Patch.{PatchedOnce}
use provider_k3s.Xpkg.Normalize.{
  load_platforms, text_ltb, insert_by_path, sort_by_path, diverged, normalize_sorted, normalize,
}

module _ {Rest Doc : Type 0} (formats : Formats Rest Doc) where
  -- Two lists of documents, equal one by one.
  abbrev pub Alike : List Doc → List Doc → Type 0
  Alike [] [] = Unit
  Alike [] (o ∷ others) = ⊥
  Alike (d ∷ ds) [] = ⊥
  Alike (d ∷ ds) (o ∷ others) = (formats.doc_equal d o ≡ true) × Alike ds others

  no_difference :
      (i : ℕ) (ds others : List Doc)
      → ((length ds ≡ length others) × (first_difference formats i ds others ≡ none))
        ↔ Alike ds others
  unfolding first_difference
  no_difference i [] [] = (λ h. tt, λ h. (refl, refl))
  no_difference i [] (o ∷ others) = (λ h. absurd (omega arith), λ h. absurd h)
  no_difference i (d ∷ ds) [] = (λ h. absurd (omega arith), λ h. absurd h)
  no_difference i (d ∷ ds) (o ∷ others) =
      let rest = no_difference (suc i) ds others in
      elim (Bool-cases (formats.doc_equal d o)) [
        | inl same ↦ rw same (
          (λ h. (refl, rest.0 (omega arith, h.1))),
          (λ h. (ap suc (rest.1 h.1).0, (rest.1 h.1).1)),
        )
        | inr differs ↦ rw differs ((λ h. cc), (λ h. cc))
      ]

  -- The comparison of two packages passes exactly if their documents are equal one by one, and as many.
  pub verify_iff :
      (donor pf : Platform Rest Doc)
      → (verify_semantic_equivalence formats donor pf ≡ none) ↔ Alike donor.base.docs pf.base.docs
  unfolding verify_semantic_equivalence
  verify_iff donor pf =
      let agree = no_difference 0 donor.base.docs pf.base.docs in
      elim (Bool-cases (length donor.base.docs == length pf.base.docs)) [
        | inr differs ↦
            rw (differs, verify_semantic_equivalence)
              (
                (λ h. cc),
                (λ h. absurd (false≢true (sym differs ∙ (nat_beq_iff _ _).1 (agree.1 h).0))),
              )
        | inl same ↦
            let lengths = (nat_beq_iff _ _).0 same in
            elim (Option-cases (first_difference formats 0 donor.base.docs pf.base.docs)) [
              | inl none_differs ↦
                  rw (same, none_differs, verify_semantic_equivalence)
                    ((λ h. agree.0 (lengths, none_differs)), (λ h. refl))
              | inr (i, at_i) ↦
                  rw (same, at_i, verify_semantic_equivalence)
                    ((λ h. cc), (λ h. absurd (some≢none (sym at_i ∙ (agree.1 h).1))))
            ]
      ]

module _ {Rest Doc W : Type 0} (formats : Formats Rest Doc) (files : Files W Rest) where
  -- What has to hold before a platform is touched.
  abbrev pub Justified : Platform Rest Doc → Platform Rest Doc → Type 0
  Justified donor pf =
      (pf.base.diff_id ≢ donor.base.diff_id)
      × Alike formats donor.base.docs pf.base.docs
      × ((t between : Text) × PatchedOnce pf.config_raw (quoted pf.base.diff_id)
            (quoted donor.base.diff_id) between
          × PatchedOnce between (label_key pf.base.digest) (label_key donor.base.digest) t)

  abbrev AllAt : Text → List (Platform Rest Doc) → Type 0
  AllAt diff_id = All (λ pf. pf.base.diff_id ≡ diff_id)

  insert-AllAt :
      (diff_id : Text) (pf : Platform Rest Doc) (pfs : List (Platform Rest Doc))
      → pf.base.diff_id ≡ diff_id
      → AllAt diff_id pfs
      → AllAt diff_id (insert_by_path pf pfs)
  unfolding insert_by_path
  insert-AllAt diff_id pf [] h all = (h, tt)
  insert-AllAt diff_id pf (q ∷ qs) h all = elim (Bool-cases (text_ltb q.path pf.path)) [
    | inl before ↦ rw before (all.0, insert-AllAt diff_id pf qs h all.1)
    | inr behind ↦ rw behind (h, all)
  ]

  sort-AllAt :
      (diff_id : Text) (pfs : List (Platform Rest Doc))
      → AllAt diff_id pfs
      → AllAt diff_id (sort_by_path pfs)
  unfolding sort_by_path
  sort-AllAt diff_id [] all = tt
  sort-AllAt diff_id (pf ∷ pfs) all = insert-AllAt diff_id pf _ all.0 (sort-AllAt diff_id pfs all.1)

  not_diverged :
      (donor : Platform Rest Doc) (pfs : List (Platform Rest Doc))
      → AllAt donor.base.diff_id pfs
      → diverged donor pfs ≡ false
  unfolding diverged
  not_diverged donor [] all = refl
  not_diverged donor (pf ∷ pfs) all = rw ((text_beq_iff _ _).1 all.0) (not_diverged donor pfs all.1)

  sorted_untouched :
      (diff_id : Text) (pfs : List (Platform Rest Doc)) (w : W)
      → AllAt diff_id pfs
      → normalize_sorted formats files pfs w ≡ (none, w)
  unfolding normalize_sorted
  sorted_untouched diff_id [] w all = refl
  sorted_untouched diff_id (donor ∷ others) w all =
      rw (not_diverged donor others (rw all.0 all.1)) refl

  -- A run over packages that load and have one base layer succeeds and leaves the world as it was.
  pub normalize_consistent :
      (paths : List Text) (w : W) (pfs : List (Platform Rest Doc)) (diff_id : Text)
      → load_platforms formats files w paths ≡ ok pfs
      → All (λ pf. pf.base.diff_id ≡ diff_id) pfs
      → normalize formats files paths w ≡ (none, w)
  unfolding normalize
  normalize_consistent [] w pfs diff_id h all = refl
  normalize_consistent (path ∷ []) w pfs diff_id h all = refl
  normalize_consistent (path ∷ other ∷ paths) w pfs diff_id h all =
      rw (h, normalize) (sorted_untouched diff_id _ w (sort-AllAt diff_id pfs all))
