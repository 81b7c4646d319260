-- ===== src/Drift/Ignored.antt =====
-- What Observe decides where paths are ignored, and what Update then writes.
use provider_k3s.Base.{
  true, false, none, some, [], ◌≡◌, ◌≢◌, ap, sym, ◌∙◌, ◌↔◌, arith, text_beq_iff, text_beq_ne, Error,
  ok, err, ◌⊎◌, Bool-cases, inl, inr, Result-cases, false≢true,
}
use provider_k3s.Drift.Interface.{ManagedApi, Client, Outcome, ExternalObservation}
use provider_k3s.Drift.Config.{
  Config, Observation, read_config, snapshot, apply, mode_enabled, mode_warn, mode_disabled,
}
use provider_k3s.Drift.Client.{External, observe, judge, judge_noted, note_unobserved, reobserved}
use provider_k3s.Drift.Verdict.{observe_ok, observed_found}

module _ {W MG : Type 0} (api : ManagedApi MG) (inner : Client W MG) where
  -- On the copy whose ignored paths hold the observed values the wrapped client finds no drift.
  pub record Pinned (mg : MG) (w : W) (captured : Observation api) : Type 0 where
    pub shadow : MG
    pub applied : apply api mg (some captured) ≡ ok shadow
    pub quiet : (inner.observe w shadow).error ≡ none
    pub agrees : (inner.observe w shadow).value.resource_up_to_date ≡ true

  reobserved_quiet :
      (cfg : Config) (r again : Outcome ExternalObservation W MG)
      → (reobserved api inner cfg r again).error ≡ none
      → (again.error ≡ none)
        × ((reobserved api inner cfg r again).value.resource_up_to_date
            ≡ again.value.resource_up_to_date)
  unfolding reobserved
  reobserved_quiet cfg r again h = ground arith

  judge_noted_agreed :
      (cfg : Config) (captured : Observation api) (r : Outcome ExternalObservation W MG)
      → r.value.resource_up_to_date ≡ true
      → (judge_noted api inner cfg captured r).value.resource_up_to_date ≡ true
  unfolding judge_noted
  judge_noted_agreed cfg captured r h = ground arith

  judge_noted_applied :
      (cfg : Config) (captured : Observation api) (r : Outcome ExternalObservation W MG)
      (shadow : MG)
      → r.value.resource_up_to_date ≡ false
      → apply api r.mg (some captured) ≡ ok shadow
      → judge_noted api inner cfg captured r
        ≡ reobserved api inner cfg r (inner.observe r.world shadow)
  unfolding judge_noted
  judge_noted_applied cfg captured r shadow h k = ground (arith, h, k)

  judge_noted_failed :
      (cfg : Config) (captured : Observation api) (r : Outcome ExternalObservation W MG) (x : Error)
      → r.value.resource_up_to_date ≡ false
      → apply api r.mg (some captured) ≡ err x
      → (judge_noted api inner cfg captured r).error ≡ some x
  unfolding judge_noted
  judge_noted_failed cfg captured r x h k = rw (h, k)

  judge_noted_drifted :
      (cfg : Config) (captured : Observation api) (r : Outcome ExternalObservation W MG)
      → r.value.resource_up_to_date ≡ false
      → (judge_noted api inner cfg captured r).error ≡ none
      → (shadow : MG) × (apply api r.mg (some captured) ≡ ok shadow)
        × ((inner.observe r.world shadow).error ≡ none)
        × ((judge_noted api inner cfg captured r).value.resource_up_to_date
            ≡ (inner.observe r.world shadow).value.resource_up_to_date)
  judge_noted_drifted cfg captured r h = elim (Result-cases (apply api r.mg (some captured))) [
    | inl (shadow, k) ↦ rw (judge_noted_applied cfg captured r shadow h k) (λ q.
        let (quiet, same) = reobserved_quiet cfg r (inner.observe r.world shadow) q in
        (shadow, k, quiet, same))
    | inr (x, k) ↦ λ q. cc (judge_noted_failed cfg captured r x h k, q)
  ]

  judge_noted_verdict :
      (cfg : Config) (captured : Observation api) (r : Outcome ExternalObservation W MG)
      → (judge_noted api inner cfg captured r).error ≡ none
      → ((judge_noted api inner cfg captured r).value.resource_up_to_date ≡ true)
        ↔ ((r.value.resource_up_to_date ≡ true) ⊎ Pinned r.mg r.world captured)
  judge_noted_verdict cfg captured r h = elim (Bool-cases r.value.resource_up_to_date) [
    | inl agreed ↦ (λ _. inl agreed, λ _. judge_noted_agreed cfg captured r agreed)
    | inr drifted ↦
        let (shadow, k, quiet, same) = judge_noted_drifted cfg captured r drifted h in
        (
          λ up.
              inr (record { shadow = shadow; applied = k; quiet = quiet; agrees = sym same ∙ up }),
          λ verdict. elim verdict [
            | inl agreed ↦ absurd (false≢true (sym drifted ∙ agreed))
            | inr pinned ↦ same ∙ ground (arith, k, pinned.applied, pinned.agrees)
          ],
        )
  ]

  note_unobserved_keeps :
      (captured : Observation api) (r : Outcome ExternalObservation W MG)
      → ((note_unobserved api inner captured r).value ≡ r.value)
        × ((note_unobserved api inner captured r).world ≡ r.world)
  unfolding note_unobserved
  note_unobserved_keeps captured r = ground arith

  judge_enabled :
      (cfg : Config) (captured : Observation api) (r : Outcome ExternalObservation W MG)
      → cfg.mode ≡ mode_enabled
      → cfg.ignore_paths ≢ []
      → judge api inner cfg captured r
        ≡ judge_noted api inner cfg captured (note_unobserved api inner captured r)
  unfolding judge
  judge_enabled cfg captured r h k = ground (
    arith,
    text_beq_iff cfg.mode mode_disabled,
    text_beq_iff cfg.mode mode_warn,
    text_beq_ne mode_enabled mode_disabled (cc),
    text_beq_ne mode_enabled mode_warn (cc),
  )

  judge_verdict :
      (cfg : Config) (captured : Observation api) (r : Outcome ExternalObservation W MG)
      → cfg.mode ≡ mode_enabled
      → cfg.ignore_paths ≢ []
      → (judge api inner cfg captured r).error ≡ none
      → ((judge api inner cfg captured r).value.resource_up_to_date ≡ true) ↔ (
          (r.value.resource_up_to_date ≡ true)
          ⊎ Pinned (note_unobserved api inner captured r).mg r.world captured)
  judge_verdict cfg captured r enabled paths = rw (judge_enabled cfg captured r enabled paths) (λ h.
      let (same_value, same_world) = note_unobserved_keeps captured r in
      simp (same_value, same_world) at
        (judge_noted_verdict cfg captured (note_unobserved api inner captured r) h))

  -- In mode enabled with ignored paths, a successful Observe that finds the resource has captured
  -- the ignored paths from what the wrapped Observe left, and it reports the resource up to date
  -- exactly when the wrapped client does, or when the wrapped client, asked again, does so without an
  -- error for the copy in which the captured values stand at the ignored paths.
  pub observe_ignored :
      (e : External api inner) (w : W) (mg : MG) (cfg : Config)
      → read_config api mg ≡ ok cfg
      → cfg.mode ≡ mode_enabled
      → cfg.ignore_paths ≢ []
      → (observe api inner e w mg).0.error ≡ none
      → (observe api inner e w mg).0.value.resource_exists ≡ true
      → (captured : Observation api) × (snapshot api (inner.observe w mg).mg cfg.ignore_paths
          ≡ ok captured)
        × ((observe api inner e w mg).1.obs ≡ some captured)
        × (((observe api inner e w mg).0.value.resource_up_to_date ≡ true) ↔ (
            ((inner.observe w mg).value.resource_up_to_date ≡ true)
            ⊎ Pinned
                (note_unobserved api inner captured (inner.observe w mg)).mg
                (inner.observe w mg).world
                captured))
  observe_ignored e w mg cfg h enabled paths = rw (observe_ok api inner e w mg cfg h) (λ he hx.
      let (captured, k, q) = observed_found api inner cfg e (inner.observe w mg) he hx in
      (
        captured,
        k,
        ap (λ s. s.1.obs) q,
        rw q (judge_verdict cfg captured (inner.observe w mg) enabled paths (rw q at he)),
      ))
