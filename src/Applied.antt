-- ===== src/Applied.antt =====
-- A managed resource, and the annotation that records the configuration which was applied last. The two
-- controllers, cluster.go and node.go under internal/controller/namespaced, have this code each with its
-- own names; a record has what differs. The encoding of the fields is a parameter.
use provider_k3s.Base.{
  Bool, true, false, Option, none, some, List, [], ◌∷◌, Text, codes, ◌==◌, text_eq, ◌≡◌, ◌≢◌, ◌↔◌,
  Error, wrap, wrapf, Result, ok, err, if◌then◌else◌, not,
}
use provider_k3s.Runtime.{
  MetaApi, KubeClient, Key, Attempt, Retry, ReadyCondition, Reply, external_name_key,
}
use provider_k3s.Drift.Interface.{Outcome}
pub mod Laws
pub mod Persisted
pub mod Converged

-- The metadata, spec.forProvider, status.atProvider and the Ready condition of a resource.
pub record Managed (Meta P O : Type 0) : Type 0 where
  pub meta : Meta
  pub for_provider : P
  pub at_provider : O
  pub condition : Option ReadyCondition

-- What a controller tracks of its parameters: the host, which is the identity, the annotation, and the
-- fields that it owns convergence for, with reflect.DeepEqual on them.
pub record Tracked (P F : Type 0) : Type 0 where
  pub host : P → Text
  pub annotation : Text
  pub fields_of : P → F
  pub deep_equal : F → F → Bool
  pub deep_equal_iff : (a b : F) → (deep_equal a b ≡ true) ↔ (a ≡ b)
  pub other_key : annotation ≢ external_name_key

abbrev pub err_marshal_last_applied : Text
err_marshal_last_applied = codes "cannot marshal last-applied configuration"

abbrev pub err_unmarshal_last_applied : Text
err_unmarshal_last_applied = codes "cannot unmarshal last-applied configuration"

-- json.Marshal and json.Unmarshal at the type of the fields.
pub record Codec (F : Type 0) : Type 0 where
  pub marshal : F → Result Text
  pub unmarshal : Text → Result F

-- Fields are encoded, to a text that is not empty, and read back as they were.
pub record IsCodec {F : Type 0} (codec : Codec F) : Type 0 where
  pub encoded : (f : F) → (raw : Text) × (codec.marshal f ≡ ok raw)
  pub not_empty : (f : F) → ¬ (codec.marshal f ≡ ok [])
  pub unmarshal-marshal :
      (f : F) (raw : Text) → codec.marshal f ≡ ok raw → codec.unmarshal raw ≡ ok f

-- A missing key of a Go map reads as the empty text.
abbrev pub or_empty : Option Text → Text
or_empty none = []
or_empty (some v) = v

abbrev pub Written : Type 0 → Type 0 → Type 0
Written W R = Outcome (List (Text × Text)) W R

abbrev pub returned : {W R : Type 0} → Option Error × (W × R) → Written W R
returned (error, (w, cr)) = record { value = []; error = error; mg = cr; world = w }

-- What follows the uninstall command, in Delete.
unfoldable pub after_uninstall : {W R : Type 0} → Reply × W → R → Written W R
after_uninstall (reply, w) cr = elim reply.error [
  | some e ↦
      returned (some (wrapf e (codes "cannot uninstall k3s: %s") (reply.stderr ∷ [])), (w, cr))
  | none ↦ returned (none, (w, cr))
]

module _ {P O F : Type 0} (api : MetaApi) (tracked : Tracked P F) where
  -- The external name follows spec.forProvider.host.
  unfoldable pub sync_external_name : Managed api.Meta P O → Managed api.Meta P O
  sync_external_name cr =
      if not (api.get_external_name cr.meta == tracked.host cr.for_provider)
      then record cr { meta = api.set_external_name cr.meta (tracked.host cr.for_provider) }
      else cr

  abbrev pub object_key : Managed api.Meta P O → Key
  object_key cr = (api.namespace cr.meta, api.name cr.meta)

  abbrev pub annotate : Managed api.Meta P O → Text → Managed api.Meta P O
  annotate cr value = record cr { meta = api.add_annotation cr.meta tracked.annotation value }

module _ {P O F : Type 0} (api : MetaApi) (tracked : Tracked P F) (codec : Codec F) where
  -- The zero value and false are `none`. A missing annotation reads as an empty one.
  unfoldable pub last_applied : Managed api.Meta P O → Result (Option F)
  last_applied cr =
      let raw = or_empty (api.get_annotation cr.meta tracked.annotation) in
      if raw == [] then ok none else elim (codec.unmarshal raw) [
        | err e ↦ err (wrap e err_unmarshal_last_applied)
        | ok last ↦ ok (some last)
      ]

  unfoldable pub is_up_to_date : Managed api.Meta P O → Result Bool
  is_up_to_date cr = elim (last_applied cr) [
    | err e ↦ err e
    | ok last ↦ elim last [
      | none ↦ ok false
      | some l ↦ ok (tracked.deep_equal l (tracked.fields_of cr.for_provider))
    ]
  ]

  -- The configuration that the spec asks for is the one that was applied last.
  abbrev pub IsApplied : Managed api.Meta P O → Type 0
  IsApplied cr = last_applied cr ≡ ok (some (tracked.fields_of cr.for_provider))

  module _ {W : Type 0} (kube : KubeClient W (Managed api.Meta P O)) where
    -- The write of a fresh copy, where its annotation differs.
    unfoldable pub write_latest : Text → W → Managed api.Meta P O → Option Error × W
    write_latest value w latest =
        if or_empty (api.get_annotation latest.meta tracked.annotation) == value
        then (none, w)
        else kube.update w (annotate api tracked latest value)

    -- One attempt: the annotation of the resource in memory follows a write that went through.
    unfoldable pub persist_attempt : Text → Key → Attempt (W × Managed api.Meta P O)
    unfolding write_latest
    persist_attempt value key (w, cr) = elim (kube.get w key) [
      | err e ↦ (some e, (w, cr))
      | ok latest ↦
          let (written, w') = write_latest value w latest in
          elim written [
            | some e ↦ (some e, (w', cr))
            | none ↦ (none, (w', annotate api tracked cr value))
          ]
    ]

    module _ (r : Retry (W × Managed api.Meta P O)) where
      unfoldable pub persist : W → Managed api.Meta P O → Option Error × (W × Managed api.Meta P O)
      persist w cr = elim (codec.marshal (tracked.fields_of cr.for_provider)) [
        | err e ↦ (some (wrap e err_marshal_last_applied), (w, cr))
        | ok value ↦ r.retry (persist_attempt value (object_key api tracked cr)) (w, cr)
      ]

      -- What follows the script, in Create and in Update.
      unfoldable pub after_script :
          Text → Reply × W → Managed api.Meta P O → Written W (Managed api.Meta P O)
      unfolding persist
      after_script message (reply, w) cr = elim reply.error [
        | some e ↦ returned (some (wrapf e message (reply.stderr ∷ [])), (w, cr))
        | none ↦ returned (persist w cr)
      ]
