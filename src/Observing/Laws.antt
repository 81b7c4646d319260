-- ===== src/Observing/Laws.antt =====
-- What Observe answers, whatever it reads of the host behind the probe.
use provider_k3s.Base.{
  Bool, true, false, none, some, Text, codes, ◌≡◌, ◌≢◌, ◌↔◌, false≢true, refl, ap, subst, sym, ◌∙◌,
  Error, wrap, ok, Option-cases, Bool-cases, inl, inr, ◌⊎◌,
}
use provider_k3s.K3s.{parse_service_probe, exists, ready}
use provider_k3s.Runtime.{MetaApi, IsMetaApi, SshClient, Reply}
use provider_k3s.Drift.Interface.{Outcome, ExternalObservation, no_observation}
use provider_k3s.Applied.{Managed, Tracked, Codec, last_applied, IsApplied, sync_external_name}
use provider_k3s.Applied.Laws.{last_applied-sync, external_name-sync, for_provider-sync}
use provider_k3s.Observing.{Findings, report, observe_reply, observe_unit, gone, probed}
use provider_k3s.Observing.Report.{report-external_name, report_verdict}

module _ {W P O F : Type 0} (api : MetaApi) (tracked : Tracked P F) (codec : Codec F) where
  module _ (ssh : SshClient W) (read : Bool → W → Findings (Managed api.Meta P O) F O × W)
      (keeps : (b : Bool) (w : W) → (read b w).0.is_ready ≡ b) where
    probe_message : Text
    probe_message = codes "cannot check k3s status"

    -- The three ways Observe goes on behind the probe.
    observe_reply_cases :
        (reply : Reply) (w : W) (cr : Managed api.Meta P O)
        → ((e : Error) × (reply.error ≡ some e)
            × (observe_reply api tracked codec ssh read (reply, w) cr
                ≡ gone (some (wrap e probe_message)) w cr))
          ⊎ (((reply.error ≡ none)
                × (exists (parse_service_probe reply.stdout) ≡ false)
                × (observe_reply api tracked codec ssh read (reply, w) cr ≡ gone none w cr))
              ⊎ ((reply.error ≡ none)
                  × (exists (parse_service_probe reply.stdout) ≡ true)
                  × (observe_reply api tracked codec ssh read (reply, w) cr
                      ≡ report api tracked codec
                          (read (ready (parse_service_probe reply.stdout)) w).0
                          (read (ready (parse_service_probe reply.stdout)) w).1
                          cr)))
    unfolding observe_reply probe_message
    observe_reply_cases reply w cr = elim (Option-cases reply.error) [
      | inr (e, h) ↦ rw (h, observe_reply) (inl (e, refl, refl))
      | inl h ↦ elim (Bool-cases (exists (parse_service_probe reply.stdout))) [
        | inl x ↦ rw (h, x, observe_reply) (inr (inr (refl, refl, refl)))
        | inr x ↦ rw (h, x, observe_reply) (inr (inl (refl, refl, refl)))
      ]
    ]

    reply_external_name :
        (reply : Reply) (w : W) (cr : Managed api.Meta P O)
        → (observe_reply api tracked codec ssh read (reply, w) cr).mg.meta ≡ cr.meta
    reply_external_name reply w cr = elim (observe_reply_cases reply w cr) [
      | inl (e, _, q) ↦ rw q refl
      | inr (inl (_, _, q)) ↦ rw q refl
      | inr (inr (_, _, q)) ↦ rw q (report-external_name api tracked codec _ _ cr)
    ]

    pub observe_unit-external_name :
        (service : Text) (w : W) (cr : Managed api.Meta P O)
        → IsMetaApi api
        → api.get_external_name (observe_unit api tracked codec ssh read service w cr).mg.meta
          ≡ tracked.host cr.for_provider
    unfolding observe_unit
    observe_unit-external_name service w cr meta =
        ap api.get_external_name (
          reply_external_name (probed api tracked codec ssh read service w).0
            (probed api tracked codec ssh read service w).1 (sync_external_name api tracked cr))
        ∙ external_name-sync api tracked codec cr meta

    abbrev ReplyVerdict :
        Outcome ExternalObservation W (Managed api.Meta P O) → Reply → Managed api.Meta P O → Type 0
    ReplyVerdict o reply cr =
        (o.value.resource_exists ≡ exists (parse_service_probe reply.stdout))
        × ((o.value.resource_exists ≡ true)
            → (o.value.resource_up_to_date ≡ true) ↔ (
                (ready (parse_service_probe reply.stdout) ≡ true) × IsApplied api tracked codec cr))

    reply_verdict_lem :
        (reply : Reply) (w : W) (cr : Managed api.Meta P O)
        → (observe_reply api tracked codec ssh read (reply, w) cr).error ≡ none
        → ReplyVerdict (observe_reply api tracked codec ssh read (reply, w) cr) reply cr
    reply_verdict_lem reply w cr = elim (observe_reply_cases reply w cr) [
      | inl (e, _, q) ↦ rw q (λ h. cc)
      | inr (inl (_, x, q)) ↦ rw (q, x) (λ h. (refl, λ h. cc))
      | inr (inr (_, x, q)) ↦
          rw (q, x)
            (λ h.
              let (there, verdict) = report_verdict api tracked codec _ _ cr h in
              (
                there,
                λ _.
                    subst
                      (λ (b : Bool).
                        ((report api tracked codec
                            (read (ready (parse_service_probe reply.stdout)) w).0
                            (read (ready (parse_service_probe reply.stdout)) w).1
                            cr).value.resource_up_to_date
                          ≡ true)
                        ↔ ((b ≡ true) × IsApplied api tracked codec cr))
                      (keeps (ready (parse_service_probe reply.stdout)) w) verdict,
              ))
    ]

    pub observe_unit_verdict :
        (service : Text) (w : W) (cr : Managed api.Meta P O)
        → IsMetaApi api
        → (observe_unit api tracked codec ssh read service w cr).error ≡ none
        → let o = (observe_unit api tracked codec ssh read service w cr).value in
          let unit = parse_service_probe (probed api tracked codec ssh read service w).0.stdout in
          (o.resource_exists ≡ exists unit)
          × ((o.resource_exists ≡ true)
              → (o.resource_up_to_date ≡ true) ↔ (
                  (ready unit ≡ true)
                  × (last_applied api tracked codec cr
                      ≡ ok (some (tracked.fields_of cr.for_provider)))))
    unfolding observe_unit
    observe_unit_verdict service w cr meta h =
        rw (last_applied-sync api tracked codec cr meta, for_provider-sync api tracked codec cr) at
          (reply_verdict_lem (probed api tracked codec ssh read service w).0
            (probed api tracked codec ssh read service w).1 (sync_external_name api tracked cr) h)

    pub observe_unit_absent :
        (service : Text) (w : W) (cr : Managed api.Meta P O)
        → ((probed api tracked codec ssh read service w).0.error ≢ none)
          ⊎ (exists (parse_service_probe (probed api tracked codec ssh read service w).0.stdout)
              ≡ false)
        → let o = observe_unit api tracked codec ssh read service w cr in
          (o.value ≡ no_observation)
          × (o.world ≡ (probed api tracked codec ssh read service w).1)
          × ((o.error ≡ none) ↔ ((probed api tracked codec ssh read service w).0.error ≡ none))
    unfolding observe_unit
    observe_unit_absent service w cr h =
        elim (observe_reply_cases (probed api tracked codec ssh read service w).0
          (probed api tracked codec ssh read service w).1 (sync_external_name api tracked cr)) [
            | inl (e, x, q) ↦ rw (q, x) (refl, refl, (λ k. cc, λ k. cc))
            | inr (inl (x, _, q)) ↦ rw (q, x) (refl, refl, (λ k. refl, λ k. refl))
            | inr (inr (x, y, q)) ↦ absurd (elim h [ inl n ↦ n x | inr z ↦ false≢true (sym z ∙ y) ])
          ]
