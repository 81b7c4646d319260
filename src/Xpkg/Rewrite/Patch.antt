-- ===== src/Xpkg/Rewrite/Patch.antt =====
-- What the two literal substitutions leave of a configuration.
use provider_k3s.Base.{
  Text, ◌≡◌, ok, >>=-eq-ok, ok_injective, subst, Bool-cases, inl, inr, ◌==◌, nat_eq, nat_beq_iff,
  arith,
}
use provider_k3s.Strings.Occurrences.{count, replace_first, Patched, replace_first-Patched}
use provider_k3s.Xpkg.Files.{Formats}
use provider_k3s.Xpkg.Package.{Platform}
use provider_k3s.Xpkg.Rewrite.{
  quoted, label_key, replace_only, patch_diff_id, patch_label, diff_id_message, label_message,
  patched_config,
}

-- One of two texts is the other with the one occurrence of `old` replaced.
abbrev pub PatchedOnce : Text → Text → Text → Text → Type 0
PatchedOnce s old new t = (count s old ≡ 1) × Patched s old new t

module _ {Rest Doc : Type 0} (formats : Formats Rest Doc) where
  replace_only-PatchedOnce :
      (message config_name raw old new t : Text)
      → replace_only formats message config_name raw old new ≡ ok t
      → PatchedOnce raw old new t
  unfolding replace_only
  replace_only-PatchedOnce message config_name raw old new t =
      elim (Bool-cases (count raw old == 1)) [
        | inr differs ↦ rw (differs, replace_only) (λ h. cc)
        | inl same ↦
            rw (same, replace_only)
              (λ h.
                let one = (nat_beq_iff (count raw old) 1).0 same in
                (
                  one,
                  subst (Patched raw old new) (ok_injective (replace_first raw old new) t h)
                      (replace_first-Patched raw old new (omega arith)),
                ))
      ]

  -- A configuration that is patched had each text once, and keeps every byte round the two.
  pub patched_config-PatchedOnce :
      (pf donor : Platform Rest Doc) (t : Text)
      → patched_config formats pf donor ≡ ok t
      → (between : Text) × PatchedOnce pf.config_raw
          (quoted pf.base.diff_id)
          (quoted donor.base.diff_id)
          between
        × PatchedOnce between (label_key pf.base.digest) (label_key donor.base.digest) t
  unfolding patched_config
  patched_config-PatchedOnce pf donor t h =
      let (between, first, second) =
        >>=-eq-ok (patch_diff_id formats pf donor pf.config_raw) (patch_label formats pf donor) h in
      (
        between,
        replace_only-PatchedOnce diff_id_message pf.config_name pf.config_raw
            (quoted pf.base.diff_id) (quoted donor.base.diff_id) between first,
        replace_only-PatchedOnce label_message pf.config_name between (label_key pf.base.digest)
            (label_key donor.base.digest) t second,
      )
