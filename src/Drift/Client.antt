-- ===== src/Drift/Client.antt =====
-- The decorated client: `external` with its Observe, Create, Update, Delete and Disconnect.
use provider_k3s.Base.{
  Bool, true, false, not, ◌||◌, Option, none, some, List, [], ◌++◌, Text, codes, ◌==◌, text_eq,
  Error, plain, ok, err, if◌then◌else◌,
}
use provider_k3s.Strings.{join}
use provider_k3s.Drift.Interface.{
  ManagedApi, Client, Outcome, ExternalObservation, Condition, no_observation,
}
use provider_k3s.Drift.Config.{
  Config, Observation, read_config, snapshot, apply, is_nil, mode_enabled, mode_warn, mode_disabled,
}

abbrev pub type_drift_detected : Text
type_drift_detected = codes "DriftDetected"

abbrev pub reason_in_sync : Text
reason_in_sync = codes "InSync"

abbrev pub reason_drifted : Text
reason_drifted = codes "Drifted"

abbrev pub reason_ignored : Text
reason_ignored = codes "DriftIgnored"

abbrev pub reason_unobserved : Text
reason_unobserved = codes "IgnoredPathUnobserved"

abbrev pub err_no_observe : Text
err_no_observe =
    codes
      "refusing to update with ignored paths before an observation was captured: updating from spec would revert the field's external owner"

-- The condition that setCondition builds; its time is not kept.
unfoldable pub drift_condition : Text → Text → Condition
drift_condition reason msg = record {
  type = type_drift_detected;
  status = if reason == reason_in_sync then codes "False" else codes "True";
  reason = reason;
  message = msg;
}

-- err != nil
abbrev pub is_error : Option Error → Bool
is_error none = false
is_error (some e) = true

module _ {W MG : Type 0} (api : ManagedApi MG) (inner : Client W MG) where
  open api use {set_conditions, get_annotations, set_annotations}

  -- `external`: the observation of this reconcile. The inner client is the section's.
  pub record External : Type 0 where
    pub obs : Option (Observation api)

  -- WrapClient
  abbrev pub wrap_client : External
  wrap_client = record { obs = none }

  unfoldable pub set_condition : MG → Text → Text → MG
  unfolding drift_condition
  set_condition mg reason msg = set_conditions mg (drift_condition reason msg)

  -- What a method leaves, with the decorator's own state.
  abbrev pub Step : Type 0 → Type 0
  Step A = Outcome A W MG × External

  abbrev pub Verdict : Type 0
  Verdict = Outcome ExternalObservation W MG

  abbrev pub up_to_date : Verdict → Bool → Verdict
  up_to_date r b = record r { value = record r.value { resource_up_to_date = b } }

  abbrev pub conditioned : Verdict → Text → Text → Verdict
  conditioned r reason msg = record r { mg = set_condition r.mg reason msg }

  abbrev pub failed : Verdict → Error → Verdict
  failed r e = record r { error = some e }

  -- The end of Observe: the verdict that the pinned resource gets. The shadow is dropped.
  unfoldable pub reobserved : Config → Verdict → Verdict → Verdict
  reobserved cfg r again = elim again.error [
    | some e ↦ record r { error = some e; world = again.world }
    | none ↦
        up_to_date
          (conditioned (record r { world = again.world })
            (if again.value.resource_up_to_date then reason_ignored else reason_drifted)
            (if again.value.resource_up_to_date
              then codes "drift confined to ignored paths: " ++ join cfg.ignore_paths (codes ", ")
              else codes "drift outside ignored paths; correcting"))
          again.value.resource_up_to_date
  ]

  -- The condition that names the ignored paths without an observed value.
  unfoldable pub note_unobserved : Observation api → Verdict → Verdict
  note_unobserved captured r =
      if not (is_nil captured.unobserved)
      then conditioned r reason_unobserved (
          codes "external resource did not report ignored path(s): "
          ++ (join captured.unobserved (codes ", ") ++ codes "; the spec value stands for these"))
      else r

  -- Mode enabled with ignored paths: what follows that condition.
  unfoldable pub judge_noted : Config → Observation api → Verdict → Verdict
  unfolding reobserved
  judge_noted cfg captured r =
      if r.value.resource_up_to_date
      then if is_nil captured.unobserved
        then conditioned r reason_in_sync (codes "no drift detected")
        else r
      else elim (apply api r.mg (some captured)) [
        | err e ↦ failed r e
        | ok shadow ↦ reobserved cfg r (inner.observe r.world shadow)
      ]

  -- The switch on the mode. An unknown mode is read as enabled.
  unfoldable pub judge : Config → Observation api → Verdict → Verdict
  unfolding note_unobserved judge_noted
  judge cfg captured r =
      if cfg.mode == mode_disabled
      then up_to_date r true
      else if cfg.mode == mode_warn
      then if not r.value.resource_up_to_date
        then up_to_date
            (conditioned r reason_drifted
              (codes "drift detected; not corrected (driftDetection.mode: warn)"))
            true
        else conditioned r reason_in_sync (codes "no drift detected")
      else if is_nil cfg.ignore_paths
      then r
      else judge_noted cfg captured (note_unobserved captured r)

  -- Observe, behind the inner client's own.
  unfoldable pub observed : Config → External → Verdict → Step ExternalObservation
  unfolding judge
  observed cfg e r =
      if is_error r.error || not r.value.resource_exists
      then (r, e)
      else elim (snapshot api r.mg cfg.ignore_paths) [
        | err x ↦ (failed r x, e)
        | ok captured ↦ (judge cfg captured r, record { obs = some captured })
      ]

  unfoldable pub observe : External → W → MG → Step ExternalObservation
  unfolding observed
  observe e w mg = elim (read_config api mg) [
    | err x ↦ (record { value = no_observation; error = some x; mg = mg; world = w }, e)
    | ok cfg ↦ observed cfg e (inner.observe w mg)
  ]

  unfoldable pub create : External → W → MG → Step (List (Text × Text))
  create e w mg = (inner.create w mg, e)

  -- mg.SetAnnotations(shadow.GetAnnotations()) behind the inner update of the shadow.
  abbrev pub carry_annotations :
      MG → Outcome (List (Text × Text)) W MG → Outcome (List (Text × Text)) W MG
  carry_annotations mg u = record u { mg = set_annotations mg (get_annotations u.mg) }

  abbrev pub refused : W → MG → Error → Outcome (List (Text × Text)) W MG
  refused w mg x = record { value = []; error = some x; mg = mg; world = w }

  unfoldable pub update : External → W → MG → Step (List (Text × Text))
  update e w mg = elim (read_config api mg) [
    | err x ↦ (refused w mg x, e)
    | ok cfg ↦
        if not (cfg.mode == mode_enabled) || is_nil cfg.ignore_paths
        then (inner.update w mg, e)
        else elim e.obs [
          | none ↦ (refused w mg (plain err_no_observe), e)
          | some captured ↦ elim (apply api mg (some captured)) [
            | err x ↦ (refused w mg x, e)
            | ok shadow ↦ (carry_annotations mg (inner.update w shadow), e)
          ]
        ]
  ]

  unfoldable pub delete : External → W → MG → Step (List (Text × Text))
  delete e w mg = (inner.delete w mg, e)

  unfoldable pub disconnect : External → W → (Option Error × W) × External
  disconnect e w = (inner.disconnect w, record { obs = none })
