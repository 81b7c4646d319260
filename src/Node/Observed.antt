-- ===== src/Node/Observed.antt =====
-- What Observe of a Node answers.
use provider_k3s.Base.{true, false, none, some, ◌≡◌, ◌≢◌, ◌↔◌, refl, ok, ◌⊎◌}
use provider_k3s.K3s.{
  parse_service_probe, exists, ready, service_probe_command, service_name_for_role,
}
use provider_k3s.Runtime.{MetaApi, IsMetaApi, SshClient, Reply}
use provider_k3s.Drift.Interface.{no_observation}
use provider_k3s.Applied.{Codec}
use provider_k3s.Observing.Laws.{
  observe_unit_verdict, observe_unit_absent, observe_unit-external_name,
}
use provider_k3s.Node.Types.{Node, MutableNodeFields, mutable_node_fields_of}
use provider_k3s.Node.Config.{node_tracked, last_applied_node_config}
use provider_k3s.Node.External.{NodeExternal, node_findings, observe}

-- The reply to the systemd probe of the role's service.
abbrev pub probed : {W : Type 0} → SshClient W → NodeExternal → W → Reply × W
probed ssh e w = ssh.execute w (service_probe_command (service_name_for_role e.role))

module _ {Ref Selector W : Type 0} (api : MetaApi) (codec : Codec MutableNodeFields)
    (ssh : SshClient W) where
  -- For lawful metadata, Observe of a Node leaves the host of the spec as the external name, whatever the
  -- host answers, errors included.
  pub node_external_name :
      (e : NodeExternal) (w : W) (cr : Node Ref Selector api.Meta)
      → IsMetaApi api
      → api.get_external_name (observe api codec ssh e w cr).mg.meta ≡ cr.for_provider.host
  unfolding observe node_findings
  node_external_name e =
      observe_unit-external_name api node_tracked codec ssh (node_findings api codec ssh e.role)
        (λ b w. refl) (service_name_for_role e.role)

  -- For lawful metadata, an Observe of a Node that succeeds finds the resource exactly if the reply to the
  -- probe of the role's unit names a unit that exists, and reports a resource that it finds up to date
  -- exactly if the unit is active and the configuration that was applied last is the spec's.
  pub node_verdict :
      (e : NodeExternal) (w : W) (cr : Node Ref Selector api.Meta)
      → IsMetaApi api
      → (observe api codec ssh e w cr).error ≡ none
      → let o = (observe api codec ssh e w cr).value in
        let unit = parse_service_probe (probed ssh e w).0.stdout in
        (o.resource_exists ≡ exists unit)
        × ((o.resource_exists ≡ true)
            → (o.resource_up_to_date ≡ true) ↔ (
                (ready unit ≡ true)
                × (last_applied_node_config api codec cr
                    ≡ ok (some (mutable_node_fields_of cr.for_provider)))))
  unfolding observe node_findings last_applied_node_config
  node_verdict e =
      observe_unit_verdict api node_tracked codec ssh (node_findings api codec ssh e.role)
        (λ b w. refl) (service_name_for_role e.role)

  -- Where the probe fails, or the unit is unknown to systemd, Observe of a Node reports no resource, leaves
  -- the world as the probe left it, and fails exactly if the probe did.
  pub node_absent :
      (e : NodeExternal) (w : W) (cr : Node Ref Selector api.Meta)
      → ((probed ssh e w).0.error ≢ none)
        ⊎ (exists (parse_service_probe (probed ssh e w).0.stdout) ≡ false)
      → let o = observe api codec ssh e w cr in
        (o.value ≡ no_observation)
        × (o.world ≡ (probed ssh e w).1)
        × ((o.error ≡ none) ↔ ((probed ssh e w).0.error ≡ none))
  unfolding observe node_findings
  node_absent e =
      observe_unit_absent api node_tracked codec ssh (node_findings api codec ssh e.role)
        (λ b w. refl) (service_name_for_role e.role)
