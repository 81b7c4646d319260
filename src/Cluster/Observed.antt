-- ===== src/Cluster/Observed.antt =====
-- What Observe of a Cluster answers.
use provider_k3s.Base.{Bool, true, false, none, some, Text, codes, ◌≡◌, ◌≢◌, ◌↔◌, refl, ok, ◌⊎◌}
use provider_k3s.K3s.{parse_service_probe, exists, ready, service_probe_command}
use provider_k3s.Runtime.{MetaApi, IsMetaApi, SshClient, Reply}
use provider_k3s.Drift.Interface.{no_observation}
use provider_k3s.Applied.{Codec}
use provider_k3s.Observing.Laws.{
  observe_unit_verdict, observe_unit_absent, observe_unit-external_name,
}
use provider_k3s.Cluster.Types.{Cluster, MutableClusterFields, mutable_cluster_fields_of}
use provider_k3s.Cluster.Config.{cluster_tracked, last_applied_cluster_config}
use provider_k3s.Cluster.External.{cluster_findings, observe}

module _ {W : Type 0} (api : MetaApi) (codec : Codec MutableClusterFields) (ssh : SshClient W) where
  pub findings-is_ready :
      (host : Text) (b : Bool) (w : W) → (cluster_findings api codec ssh host b w).0.is_ready ≡ b
  unfolding cluster_findings
  findings-is_ready host b w = refl

  -- For lawful metadata, Observe of a Cluster leaves the host of the spec as the external name, whatever
  -- the host answers, errors included.
  pub observe-external_name :
      (host : Text) (w : W) (cr : Cluster api.Meta)
      → IsMetaApi api
      → api.get_external_name (observe api codec ssh host w cr).mg.meta ≡ cr.for_provider.host
  unfolding observe
  observe-external_name host =
      observe_unit-external_name api cluster_tracked codec ssh (cluster_findings api codec ssh host)
        (findings-is_ready host) (codes "k3s")

  -- The reply to the systemd probe.
  abbrev pub probed : W → Reply × W
  probed w = ssh.execute w (service_probe_command (codes "k3s"))

  -- For lawful metadata, an Observe of a Cluster that succeeds finds the resource exactly if the reply to the
  -- probe names a unit that exists, and reports a resource that it finds up to date exactly if the unit is
  -- active and the configuration that was applied last is the spec's.
  pub observe_verdict :
      (host : Text) (w : W) (cr : Cluster api.Meta)
      → IsMetaApi api
      → (observe api codec ssh host w cr).error ≡ none
      → let o = (observe api codec ssh host w cr).value in
        let unit = parse_service_probe (probed w).0.stdout in
        (o.resource_exists ≡ exists unit)
        × ((o.resource_exists ≡ true)
            → (o.resource_up_to_date ≡ true) ↔ (
                (ready unit ≡ true)
                × (last_applied_cluster_config api codec cr
                    ≡ ok (some (mutable_cluster_fields_of cr.for_provider)))))
  unfolding observe last_applied_cluster_config
  observe_verdict host =
      observe_unit_verdict api cluster_tracked codec ssh (cluster_findings api codec ssh host)
        (findings-is_ready host) (codes "k3s")

  -- Where the probe fails, or the unit is unknown to systemd, Observe of a Cluster reports no resource,
  -- leaves the world as the probe left it, and fails exactly if the probe did.
  pub observe_absent :
      (host : Text) (w : W) (cr : Cluster api.Meta)
      → ((probed w).0.error ≢ none) ⊎ (exists (parse_service_probe (probed w).0.stdout) ≡ false)
      → let o = observe api codec ssh host w cr in
        (o.value ≡ no_observation)
        × (o.world ≡ (probed w).1)
        × ((o.error ≡ none) ↔ ((probed w).0.error ≡ none))
  unfolding observe
  observe_absent host =
      observe_unit_absent api cluster_tracked codec ssh (cluster_findings api codec ssh host)
        (findings-is_ready host) (codes "k3s")
