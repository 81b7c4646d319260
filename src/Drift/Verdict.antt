-- ===== src/Drift/Verdict.antt =====
-- What the decorated Observe and Update answer, mode by mode.
use provider_k3s.Base.{
  true, false, not, ◌||◌, none, some, [], Text, ◌≡◌, refl, arith, text_beq_iff, text_beq_ne, ok,
  ◌⊎◌, Bool-cases, Result-cases, inl, inr,
}
use provider_k3s.Drift.Interface.{ManagedApi, Client, Outcome, ExternalObservation}
use provider_k3s.Drift.Config.{
  Config, Observation, read_config, snapshot, mode_enabled, mode_warn, mode_disabled, active,
}
use provider_k3s.Drift.Client.{External, observe, observed, update, judge, is_error}

-- The two modes that never correct.
abbrev pub Lenient : Text → Type 0
Lenient mode = (mode ≡ mode_disabled) ⊎ (mode ≡ mode_warn)

module _ {W MG : Type 0} (api : ManagedApi MG) (inner : Client W MG) where
  pub observe_ok :
      (e : External api inner) (w : W) (mg : MG) (cfg : Config)
      → read_config api mg ≡ ok cfg
      → observe api inner e w mg ≡ observed api inner cfg e (inner.observe w mg)
  unfolding observe
  observe_ok e w mg cfg h = rw (h, observe)

  -- An Observe that succeeds and finds the resource has captured, and returns the verdict.
  pub observed_found :
      (cfg : Config) (e : External api inner) (r : Outcome ExternalObservation W MG)
      → (observed api inner cfg e r).0.error ≡ none
      → (observed api inner cfg e r).0.value.resource_exists ≡ true
      → (captured : Observation api) × (snapshot api r.mg cfg.ignore_paths ≡ ok captured)
        × (observed api inner cfg e r
            ≡ (judge api inner cfg captured r, record { obs = some captured }))
  unfolding observed
  observed_found cfg e r = elim (Bool-cases (is_error r.error || not r.value.resource_exists)) [
    | inl stop ↦ rw (stop, observed) (λ he hx. ground arith)
    | inr go ↦ elim (Result-cases (snapshot api r.mg cfg.ignore_paths)) [
      | inl (captured, h) ↦ rw (go, h, observed) (λ he hx. (captured, refl, refl))
      | inr (x, h) ↦ rw (go, h, observed) (λ he hx. cc)
    ]
  ]

  pub snapshot-nil : (mg : MG) → snapshot api mg [] ≡ ok (record { values = []; unobserved = [] })
  unfolding snapshot
  snapshot-nil mg = refl

  -- The configuration of a resource with no driftDetection block.
  inert : (cfg : Config) → active cfg ≡ false → (cfg.mode ≡ mode_enabled) × (cfg.ignore_paths ≡ [])
  unfolding active
  inert cfg h = ground (arith, text_beq_iff cfg.mode mode_enabled)

  pub judge_inert :
      (cfg : Config) (captured : Observation api) (r : Outcome ExternalObservation W MG)
      → active cfg ≡ false
      → judge api inner cfg captured r ≡ r
  unfolding judge active
  judge_inert cfg captured r h = ground (
    arith,
    text_beq_iff cfg.mode mode_enabled,
    text_beq_iff cfg.mode mode_disabled,
    text_beq_iff cfg.mode mode_warn,
    text_beq_ne mode_enabled mode_disabled (cc),
    text_beq_ne mode_enabled mode_warn (cc),
  )

  observed_inert :
      (cfg : Config) (e : External api inner) (r : Outcome ExternalObservation W MG)
      → active cfg ≡ false
      → (observed api inner cfg e r).0 ≡ r
  unfolding observed
  observed_inert cfg e r h = elim (Bool-cases (is_error r.error || not r.value.resource_exists)) [
    | inl stop ↦ rw (stop, observed) refl
    | inr go ↦
        rw (go, (inert cfg h).1, snapshot-nil r.mg, observed)
          (judge_inert cfg (record { values = []; unobserved = [] }) r h)
  ]

  update_inert :
      (e : External api inner) (w : W) (mg : MG) (cfg : Config)
      → read_config api mg ≡ ok cfg
      → active cfg ≡ false
      → (update api inner e w mg).0 ≡ inner.update w mg
  unfolding update
  update_inert e w mg cfg h inactive = ground (arith, h, inert cfg inactive)

  -- A configuration that is not active changes nothing: Observe and Update do what the wrapped client
  -- does, errors included.
  pub inactive_transparent :
      (e : External api inner) (w : W) (mg : MG) (cfg : Config)
      → read_config api mg ≡ ok cfg
      → active cfg ≡ false
      → ((observe api inner e w mg).0 ≡ inner.observe w mg)
        × ((update api inner e w mg).0 ≡ inner.update w mg)
  inactive_transparent e w mg cfg h inactive = (
    rw (observe_ok e w mg cfg h) (observed_inert cfg e (inner.observe w mg) inactive),
    update_inert e w mg cfg h inactive,
  )
