-- ===== src/Drift/Lifecycle.antt =====
-- The decorated client over a sequence of calls: where its observation comes from.
use mathlib.Core.Option.{some-injective}
use provider_k3s.Base.{
  not, ◌||◌, none, some, List, [], ◌∷◌, ◌≡◌, ◌≢◌, refl, ap, sym, ◌∙◌, arith, text_beq_iff, Error,
  plain, ok, err, ◌⊎◌, Bool-cases, inl, inr, Result-cases, Option-cases,
}
use provider_k3s.Drift.Interface.{ManagedApi, Client, Outcome, ExternalObservation}
use provider_k3s.Drift.Config.{Config, Observation, read_config, snapshot, mode_enabled}
use provider_k3s.Drift.Client.{
  External, observe, observed, create, update, delete, disconnect, err_no_observe, wrap_client,
  refused, is_error,
}
use provider_k3s.Drift.Verdict.{observe_ok}

-- The calls of the runtime, each with the managed resource that it hands over.
pub data Op (MG : Type 0) : Type 0 where
  observing creating updating deleting : MG → Op MG
  disconnecting : Op MG

module _ {W MG : Type 0} (api : ManagedApi MG) (inner : Client W MG) where
  -- What a call leaves of the client and of the world.
  unfoldable pub step : Op MG → External api inner × W → External api inner × W
  step (observing mg) (e, w) = let (r, e') = observe api inner e w mg in (e', r.world)
  step (creating mg) (e, w) = let (r, e') = create api inner e w mg in (e', r.world)
  step (updating mg) (e, w) = let (r, e') = update api inner e w mg in (e', r.world)
  step (deleting mg) (e, w) = let (r, e') = delete api inner e w mg in (e', r.world)
  step disconnecting (e, w) = let ((_, w'), e') = disconnect api inner e w in (e', w')

  -- The calls of a list, its last one first, on a client that was just wrapped.
  unfoldable pub run : List (Op MG) → W → External api inner × W
  run [] w = (wrap_client api inner, w)
  run (op ∷ earlier) w = step op (run earlier w)

  -- The snapshot was read, since the last Disconnect, from what a wrapped Observe left.
  abbrev pub CapturedBy : List (Op MG) → W → Observation api → Type 0
  CapturedBy [] w captured = ⊥
  CapturedBy (observing mg ∷ earlier) w captured =
      ((cfg : Config) × (read_config api mg ≡ ok cfg)
        × (snapshot api (inner.observe (run earlier w).1 mg).mg cfg.ignore_paths ≡ ok captured))
      ⊎ CapturedBy earlier w captured
  CapturedBy (disconnecting ∷ earlier) w captured = ⊥
  CapturedBy (_ ∷ earlier) w captured = CapturedBy earlier w captured

  observed_captures :
      (cfg : Config) (e : External api inner) (r : Outcome ExternalObservation W MG)
      → ((observed api inner cfg e r).1 ≡ e)
        ⊎ ((captured : Observation api) × (snapshot api r.mg cfg.ignore_paths ≡ ok captured)
            × ((observed api inner cfg e r).1.obs ≡ some captured))
  unfolding observed
  observed_captures cfg e r = elim (Bool-cases (is_error r.error || not r.value.resource_exists)) [
    | inl stop ↦ rw stop (inl refl)
    | inr go ↦ elim (Result-cases (snapshot api r.mg cfg.ignore_paths)) [
      | inl (captured, h) ↦ rw (go, h) (inr (captured, refl, refl))
      | inr (x, h) ↦ rw (go, h) (inl refl)
    ]
  ]

  observe_refused :
      (e : External api inner) (w : W) (mg : MG) (x : Error)
      → read_config api mg ≡ err x
      → (observe api inner e w mg).1 ≡ e
  unfolding observe
  observe_refused e w mg x h = rw (h, observe)

  observe_captures :
      (e : External api inner) (w : W) (mg : MG) (captured : Observation api)
      → (observe api inner e w mg).1.obs ≡ some captured
      → ((cfg : Config) × (read_config api mg ≡ ok cfg)
          × (snapshot api (inner.observe w mg).mg cfg.ignore_paths ≡ ok captured))
        ⊎ (e.obs ≡ some captured)
  observe_captures e w mg captured = elim (Result-cases (read_config api mg)) [
    | inl (cfg, h) ↦ rw (observe_ok api inner e w mg cfg h) (λ q.
        elim (observed_captures cfg e (inner.observe w mg)) [
          | inl same ↦ inr (rw same at q)
          | inr (c, s, o) ↦ inl (cfg, h, s ∙ ap ok (some-injective c captured (sym o ∙ q)))
        ])
    | inr (x, h) ↦ λ q. inr (rw (observe_refused e w mg x h) at q)
  ]

  update_keeps : (e : External api inner) (w : W) (mg : MG) → (update api inner e w mg).1 ≡ e
  unfolding update
  update_keeps e w mg = ground arith

  -- Whatever calls were made, an observation that the client holds was captured by an Observe since the
  -- last Disconnect, from what the wrapped client had just left: never from an earlier session.
  pub observation_origin :
      (ops : List (Op MG)) (w : W) (captured : Observation api)
      → (run ops w).0.obs ≡ some captured
      → CapturedBy ops w captured
  unfolding run step create update delete disconnect
  observation_origin [] w captured h = cc
  observation_origin (observing mg ∷ earlier) w captured h =
      elim (observe_captures (run earlier w).0 (run earlier w).1 mg captured h) [
        | inl now ↦ inl now
        | inr before ↦ inr (observation_origin earlier w captured before)
      ]
  observation_origin (creating mg ∷ earlier) w captured h = observation_origin earlier w captured h
  observation_origin (updating mg ∷ earlier) w captured h =
      observation_origin earlier w captured
        (rw (update_keeps (run earlier w).0 (run earlier w).1 mg) at h)
  observation_origin (deleting mg ∷ earlier) w captured h = observation_origin earlier w captured h
  observation_origin (disconnecting ∷ earlier) w captured h = cc

  -- No Observe since the last Disconnect.
  abbrev pub Unobserved : List (Op MG) → Type 0
  Unobserved [] = Unit
  Unobserved (observing mg ∷ earlier) = ⊥
  Unobserved (disconnecting ∷ earlier) = Unit
  Unobserved (_ ∷ earlier) = Unobserved earlier

  Unobserved-not_captured :
      (ops : List (Op MG)) (w : W) (captured : Observation api)
      → Unobserved ops
      → ¬ CapturedBy ops w captured
  Unobserved-not_captured [] w captured h k = k
  Unobserved-not_captured (observing mg ∷ earlier) w captured h k = h
  Unobserved-not_captured (creating mg ∷ earlier) w captured h k =
      Unobserved-not_captured earlier w captured h k
  Unobserved-not_captured (updating mg ∷ earlier) w captured h k =
      Unobserved-not_captured earlier w captured h k
  Unobserved-not_captured (deleting mg ∷ earlier) w captured h k =
      Unobserved-not_captured earlier w captured h k
  Unobserved-not_captured (disconnecting ∷ earlier) w captured h k = k

  update_unobserved :
      (e : External api inner) (w : W) (mg : MG) (cfg : Config)
      → read_config api mg ≡ ok cfg
      → cfg.mode ≡ mode_enabled
      → cfg.ignore_paths ≢ []
      → e.obs ≡ none
      → (update api inner e w mg).0 ≡ refused api inner w mg (plain err_no_observe)
  unfolding update
  update_unobserved e w mg cfg h enabled paths none_captured =
      ground (arith, h, none_captured, text_beq_iff cfg.mode mode_enabled)

  -- In mode enabled with ignored paths, an Update with no Observe since the last Disconnect fails: the
  -- managed resource and the world stay as they are.
  pub update_fails_closed :
      (ops : List (Op MG)) (w : W) (mg : MG) (cfg : Config)
      → Unobserved ops
      → read_config api mg ≡ ok cfg
      → cfg.mode ≡ mode_enabled
      → cfg.ignore_paths ≢ []
      → let (r, _) = update api inner (run ops w).0 (run ops w).1 mg in
        (r.error ≡ some (plain err_no_observe)) × (r.mg ≡ mg) × (r.world ≡ (run ops w).1)
  update_fails_closed ops w mg cfg fresh h enabled paths = elim (Option-cases (run ops w).0.obs) [
    | inl none_captured ↦
        rw (update_unobserved (run ops w).0 (run ops w).1 mg cfg h enabled paths none_captured)
          (refl, refl, refl)
    | inr (captured, q) ↦
        absurd (Unobserved-not_captured ops w captured fresh (observation_origin ops w captured q))
  ]
