-- ===== src/Cluster/External.antt =====
-- `external`: Observe, Create, Update, Delete and Disconnect of a Cluster.
use provider_k3s.Base.{
  Bool, false, not, Option, none, some, List, [], ◌∷◌, ◌++◌, Text, codes, ◌==◌, text_eq,
  if◌then◌else◌,
}
use provider_k3s.K3s.{rewrite_kubeconfig, install_command, uninstall_server_command}
use provider_k3s.Runtime.{MetaApi, KubeClient, SshClient, Retry, creating, deleting}
use provider_k3s.Drift.Interface.{Client}
use provider_k3s.Applied.{Codec, Written, after_script, after_uninstall}
use provider_k3s.Observing.{Findings, Verdict, observe_unit}
use provider_k3s.Cluster.Types.{
  Cluster, ClusterObservation, MutableClusterFields, install_params_for,
}
use provider_k3s.Cluster.Config.{cluster_tracked}

abbrev pub version_command : Text
version_command = codes "k3s --version 2>/dev/null | head -1"

abbrev pub node_token_command : Text
node_token_command = codes "sudo cat /var/lib/rancher/k3s/server/node-token 2>/dev/null"

abbrev pub kubeconfig_command : Text
kubeconfig_command = codes "sudo cat /etc/rancher/k3s/k3s.yaml 2>/dev/null"

abbrev if_set : Text → Text → List (Text × Text)
if_set key value = if not (value == []) then (key, value) ∷ [] else []

-- A Go map with at most three keys, in the order in which they are written.
unfoldable pub cluster_connection_details : Text → Text → Text → List (Text × Text)
cluster_connection_details host kubeconfig node_token =
    (codes "endpoint", codes "https://" ++ (host ++ codes ":6443"))
    ∷ (if_set (codes "kubeconfig") kubeconfig ++ if_set (codes "node-token") node_token)

-- What a host says in one pass.
pub record Readings : Type 0 where
  pub is_ready : Bool
  pub version : Text
  pub node_token : Text
  pub kubeconfig : Text

-- The literal of Status.AtProvider, the identity, and the fields of the last-applied configuration.
unfoldable pub observation_of :
    {Meta : Type 0}
    → Text
    → Bool
    → Text
    → Option MutableClusterFields
    → Cluster Meta
    → ClusterObservation
observation_of id is_ready version last cr =
    let p = cr.for_provider in
    elim last [
      | none ↦ record {
        id = id;
        ready = is_ready;
        host = p.host;
        port = p.port;
        k3s_version = version;
        k3s_channel = [];
        cluster_init = p.cluster_init;
        tls_san = [];
        disable_traefik = false;
        disable_service_lb = false;
        extra_args = [];
        datastore_endpoint = p.datastore_endpoint;
      }
      | some l ↦ record {
        id = id;
        ready = is_ready;
        host = p.host;
        port = p.port;
        k3s_version = version;
        k3s_channel = l.k3s_channel;
        cluster_init = p.cluster_init;
        tls_san = l.tls_san;
        disable_traefik = l.disable_traefik;
        disable_service_lb = l.disable_service_lb;
        extra_args = l.extra_args;
        datastore_endpoint = p.datastore_endpoint;
      }
    ]

module _ {W : Type 0} (api : MetaApi) (codec : Codec MutableClusterFields) (ssh : SshClient W) where
  -- The commands that follow a probe which found the unit. Their errors are dropped.
  unfoldable pub read_host : Text → Bool → W → Readings × W
  read_host host is_ready w =
      let (version, w₁) = ssh.execute w version_command in
      let (token, w₂) = ssh.execute w₁ node_token_command in
      let (config, w₃) = ssh.execute w₂ kubeconfig_command in
      (
        record {
          is_ready = is_ready;
          version = version.stdout;
          node_token = token.stdout;
          kubeconfig =
              if not (config.stdout == []) then rewrite_kubeconfig config.stdout host else [];
        },
        w₃,
      )

  -- The same, as what Observe makes of it. `host` is that of the external client.
  unfoldable pub cluster_findings :
      Text → Bool → W → Findings (Cluster api.Meta) MutableClusterFields ClusterObservation × W
  unfolding read_host observation_of cluster_connection_details
  cluster_findings host is_ready w =
      let (r, w') = read_host host is_ready w in
      (
        record {
          is_ready = is_ready;
          status =
              λ last cr. observation_of (api.get_external_name cr.meta) is_ready r.version last cr;
          connection_details = cluster_connection_details host r.kubeconfig r.node_token;
        },
        w',
      )

  unfoldable pub observe : Text → W → Cluster api.Meta → Verdict W (Cluster api.Meta)
  unfolding cluster_findings
  observe host = observe_unit api cluster_tracked codec ssh (cluster_findings host) (codes "k3s")

  module _ (kube : KubeClient W (Cluster api.Meta)) (r : Retry (W × Cluster api.Meta)) where
    -- The command of Create and Update, and what follows it.
    unfoldable pub install : Text → W → Cluster api.Meta → Written W (Cluster api.Meta)
    install message w cr =
        after_script api cluster_tracked codec kube r message
          (ssh.execute w (install_command (install_params_for cr.for_provider))) cr

    unfoldable pub create : W → Cluster api.Meta → Written W (Cluster api.Meta)
    unfolding install
    create w cr =
        install (codes "cannot install k3s: %s") w (record cr { condition = some creating })

    unfoldable pub update : W → Cluster api.Meta → Written W (Cluster api.Meta)
    unfolding install
    update w cr = install (codes "cannot reconfigure k3s: %s") w cr

    unfoldable pub delete : W → Cluster api.Meta → Written W (Cluster api.Meta)
    unfolding after_uninstall
    delete w cr =
        after_uninstall (ssh.execute w uninstall_server_command)
          (record cr { condition = some deleting })

    -- The client that Connect returns for a host.
    unfoldable pub external : Text → Client W (Cluster api.Meta)
    unfolding observe create update delete
    external host = record {
      observe = observe host;
      create = create;
      update = update;
      delete = delete;
      disconnect = ssh.close;
    }
