-- ===== src/Refresolver.antt =====
-- internal/controller/refresolver/refresolver.go: the references of a managed resource are resolved, and what
-- changed is written with a merge patch. The generated resolvers and the client are parameters.
use provider_k3s.Base.{
  Bool, true, false, not, Option, none, some, List, [], ◌∷◌, Text, codes, ◌==◌, text_eq, Error,
  plain, wrap, Result, ok, err, if◌then◌else◌,
}
pub mod Laws

abbrev pub empty_patch : Text
empty_patch = codes "{}"

-- The address of an optional string of a resource.
pub record Slot (R : Type 0) : Type 0 where
  pub read : R → Option Text
  pub write : R → Option Text → R

-- What is called on the resource, and on the client. `resolve` is there for a resource that implements
-- ResolveReferences, `is_object` tells whether its copy is a client.Object, `patch_data` and `patch` take the
-- copy that the patch starts from.
pub record Resources (W R : Type 0) : Type 0 where
  pub resolve : Option (W → R → Option Error × R)
  pub is_object : R → Bool
  pub patch_data : R → R → Result Text
  pub patch : W → R → R → Option Error × (W × R)

-- `slots` of WithKeptEmpty, with nil among the addresses. Without the option there is none.
abbrev pub Slots : Type 0 → Type 0
Slots R = Option (R → List (Option (Slot R)))

abbrev holds_empty : Option Text → Bool
holds_empty none = false
holds_empty (some s) = s == []

module _ {R : Type 0} where
  unfoldable pub empty_among : R → List (Option (Slot R)) → List (Slot R)
  empty_among mg [] = []
  empty_among mg (none ∷ slots) = empty_among mg slots
  empty_among mg (some s ∷ slots) =
      let kept = empty_among mg slots in if holds_empty (s.read mg) then s ∷ kept else kept

  unfoldable pub empty_slots : Slots R → R → List (Slot R)
  unfolding empty_among
  empty_slots none mg = []
  empty_slots (some slots) mg = empty_among mg (slots mg)

  abbrev pub restore_one : Slot R → R → R
  restore_one s mg = elim (s.read mg) [ none ↦ s.write mg (some []) | some _ ↦ mg ]

  -- The loop that sets a slot back.
  unfoldable pub restore : List (Slot R) → R → R
  restore [] mg = mg
  restore (s ∷ slots) mg = restore slots (restore_one s mg)

abbrev wrapped_error : Option Error → Text → Option Error
wrapped_error none message = none
wrapped_error (some e) message = some (wrap e message)

module _ {W R : Type 0} (api : Resources W R) where
  -- Behind the resolution: the patch from the copy to the resource, unless it is empty.
  unfoldable pub patch_changes : R → W → R → Option Error × (W × R)
  patch_changes existing w mg = elim (api.patch_data existing mg) [
    | err e ↦ (
      some (wrap e (codes "cannot prepare the merge patch for the resolved references")),
      (w, mg),
    )
    | ok data_ ↦
        if data_ == empty_patch
        then (none, (w, mg))
        else let (written, after) = api.patch w existing mg in
          (
            wrapped_error written
                (codes "cannot patch the managed resource with the resolved references"),
            after,
          )
  ]

  unfoldable pub resolve_with_slots :
      Slots R → (W → R → Option Error × R) → W → R → Option Error × (W × R)
  unfolding empty_slots restore patch_changes
  resolve_with_slots slots resolve w mg =
      let (failed, resolved) = resolve w mg in
      elim failed [
        | some e ↦ (some (wrap e (codes "cannot resolve references")), (w, resolved))
        | none ↦ patch_changes mg w (restore (empty_slots slots mg) resolved)
      ]

  unfoldable pub resolve_references : Slots R → W → R → Option Error × (W × R)
  unfolding resolve_with_slots
  resolve_references slots w mg = elim api.resolve [
    | none ↦ (none, (w, mg))
    | some resolve ↦
        if not (api.is_object mg)
        then (some (plain (codes "managed resource is not a client.Object")), (w, mg))
        else resolve_with_slots slots resolve w mg
  ]
