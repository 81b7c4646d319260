-- ===== src/Cluster/Converged.antt =====
-- What a Create or an Update of a Cluster leaves when it succeeds.
use provider_k3s.Base.{true, none, some, Text, codes, ◌≡◌, ◌↔◌}
use provider_k3s.K3s.{install_command, parse_service_probe, ready}
use provider_k3s.Runtime.{MetaApi, IsMetaApi, SshClient, Reply, KubeClient, Retry, creating}
use provider_k3s.Applied.{Codec, IsCodec}
use provider_k3s.Applied.Persisted.{IsKubeClient}
use provider_k3s.Applied.Converged.{Converged, after_script-Converged}
use provider_k3s.Cluster.Types.{Cluster, MutableClusterFields, install_params_for}
use provider_k3s.Cluster.Config.{cluster_tracked, last_applied_cluster_config}
use provider_k3s.Cluster.External.{create, update, observe}
use provider_k3s.Cluster.Observed.{observe_verdict, probed}

module _ {W : Type 0} (api : MetaApi) (codec : Codec MutableClusterFields)
    (kube : KubeClient W (Cluster api.Meta)) (ssh : SshClient W)
    (r : Retry (W × Cluster api.Meta)) where
  -- In memory and in the store the configuration of the spec is the one that was applied last.
  abbrev pub ClusterConverged : W → Cluster api.Meta → Cluster api.Meta → Type 0
  ClusterConverged = Converged api cluster_tracked codec kube

  abbrev installed : W → Cluster api.Meta → Reply × W
  installed w cr = ssh.execute w (install_command (install_params_for cr.for_provider))

  -- For lawful metadata, encoding and Kubernetes client, a Create of a Cluster that succeeds leaves the
  -- configuration of the spec as the last applied one, in memory and in the stored object, and keeps the
  -- spec, however many conflicts the writes met.
  pub create_converges :
      (w : W) (cr : Cluster api.Meta)
      → IsMetaApi api
      → IsCodec codec
      → IsKubeClient api kube
      → let o = create api codec ssh kube r w cr in
        o.error ≡ none → ClusterConverged o.world o.mg cr
  unfolding create
  create_converges w cr =
      after_script-Converged api cluster_tracked codec kube r (codes "cannot install k3s: %s")
        (installed w cr).0 (installed w cr).1 (record cr { condition = some creating })

  -- For lawful metadata, encoding and Kubernetes client, an Update of a Cluster that succeeds leaves the
  -- configuration of the spec as the last applied one, in memory and in the stored object, and keeps the
  -- spec; and every later Observe of the resource that succeeds and finds it reports it up to date exactly
  -- if systemd says that the unit is active.
  pub update_converges :
      (w : W) (cr : Cluster api.Meta)
      → IsMetaApi api
      → IsCodec codec
      → IsKubeClient api kube
      → let o = update api codec ssh kube r w cr in
        o.error ≡ none
        → ClusterConverged o.world o.mg cr
          × ((host : Text) (later : W)
              → (observe api codec ssh host later o.mg).error ≡ none
              → (observe api codec ssh host later o.mg).value.resource_exists ≡ true
              → ((observe api codec ssh host later o.mg).value.resource_up_to_date ≡ true)
                ↔ (ready (parse_service_probe (probed api codec ssh later).0.stdout) ≡ true))
  unfolding update last_applied_cluster_config
  update_converges w cr meta law client h =
      let done =
        after_script-Converged api cluster_tracked codec kube r (codes "cannot reconfigure k3s: %s")
          (installed w cr).0 (installed w cr).1 cr meta law client h in
      (
        done,
        λ host later he hx.
            let verdict = (observe_verdict api codec ssh host later _ meta he).1 hx in
            (λ e. (verdict.0 e).0, λ a. verdict.1 (a, done.1)),
      )
